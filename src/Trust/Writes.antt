-- ===== src/Trust/Writes.antt =====
-- internal/trust/remotes.go: what `Add` and `Load` do to the map in memory and the directory.
use microcluster.Prelude.{
  Str, ◌≡◌, ◌⊎◌, refl, sym, subst, false, none, some, List, [], ◌∷◌, Assoc, lookup, insert,
  lookup-insert, lookup-insert_self, has_key, has_key-lookup, str_eq, str_eq_iff, str_eq-append,
  Bool-cases, Option-cases, inl, inr, All, All-mono, arith,
}
use microcluster.Trust.{
  IsOnDisk, Remote, file, Remotes, Yaml, yaml_path, yaml_suffix, load, add_one, add, keep_known,
}

module _ (y : Yaml) where
  -- A remote that is added was not known, and is in memory and on disk afterwards.
  pub add_one-ok :
      (s : Remotes) (r : Remote)
      → (add_one y s r).1 ≡ none
      → (text : Str) × (y.marshal r ≡ some text)
        × (has_key r.name s.content ≡ false)
        × ((add_one y s r).0.content ≡ insert r.name r s.content)
        × ((add_one y s r).0.dir.entries ≡ insert (yaml_path r.name) (file text) s.dir.entries)
  unfolding add_one
  add_one-ok s r h = elim (Option-cases (y.marshal r)) [
    | inl p ↦ absurd (ground arith)
    | inr (text, p) ↦ (text, p, ground arith, ground arith, ground arith)
  ]

  add_one-error : (s : Remotes) (r : Remote) → ((add_one y s r).1 ≡ none) ⊎ ((add_one y s r).0 ≡ s)
  unfolding add_one
  add_one-error s r = ground arith

  add_one_keeps :
      (s : Remotes) (r x : Remote) (k : Str)
      → lookup k s.content ≡ some x
      → lookup k (add_one y s r).0.content ≡ some x
  add_one_keeps s r x k h = elim (Option-cases (add_one y s r).1) [
    | inr (z, failed) ↦ elim (add_one-error s r) [
      | inl done ↦ absurd (ground arith)
      | inr same ↦ rw same h
    ]
    | inl done ↦
        let (text, made, fresh, content, entries) = add_one-ok s r done in
        ground (
          arith,
          lookup-insert r.name k r s.content,
          has_key-lookup r.name s.content,
          str_eq_iff r.name k,
        )
  ]

  add_one-IsOnDisk :
      (s : Remotes) (r : Remote)
      → IsOnDisk y s.dir s.content
      → IsOnDisk y (add_one y s r).0.dir (add_one y s r).0.content
  add_one-IsOnDisk s r h = elim (Option-cases (add_one y s r).1) [
    | inr (z, failed) ↦ elim (add_one-error s r) [
      | inl done ↦ absurd (ground arith)
      | inr same ↦ subst (λ t. IsOnDisk y t.dir t.content) (sym same) h
    ]
    | inl done ↦ λ k x p.
        let (text, made, fresh, content, entries) = add_one-ok s r done in
        elim (Bool-cases (str_eq r.name k)) [
          | inl same ↦ (
            text,
            ground (arith, lookup-insert r.name k r s.content),
            ground (
              arith,
              lookup-insert (yaml_path r.name) (yaml_path k) (file text) s.dir.entries,
              str_eq-append r.name k yaml_suffix,
            ),
          )
          | inr other ↦
              let (t, m, f) = h k x (ground (arith, lookup-insert r.name k r s.content)) in
              (
                t,
                m,
                ground (
                  arith,
                  lookup-insert (yaml_path r.name) (yaml_path k) (file text) s.dir.entries,
                  str_eq-append r.name k yaml_suffix,
                ),
              )
        ]
  ]

  -- Whatever `Add` does, and also when it stops at an error, a remote that was in memory stays there
  -- under its name.
  add_keeps :
      (rs : List Remote) (s : Remotes) (x : Remote) (k : Str)
      → lookup k s.content ≡ some x
      → lookup k (add y s rs).0.content ≡ some x
  unfolding add
  add_keeps [] s x k h = h
  add_keeps (r ∷ rs) s x k h =
      ground (
        arith,
        add_one_keeps s r x k h,
        add_keeps rs (add_one y s r).0 x k (add_one_keeps s r x k h),
      )

  -- If every remote in memory had its yaml in the file of its name, so it is after `Add`, also when it
  -- stopped at an error.
  pub add-IsOnDisk :
      (rs : List Remote) (s : Remotes)
      → IsOnDisk y s.dir s.content
      → IsOnDisk y (add y s rs).0.dir (add y s rs).0.content
  unfolding add
  add-IsOnDisk [] s h = h
  add-IsOnDisk (r ∷ rs) s h =
      let next = add_one-IsOnDisk s r h in
      elim (Option-cases (add_one y s r).1) [
        | inl done ↦ rw (done, add) (add-IsOnDisk rs (add_one y s r).0 next)
        | inr (z, failed) ↦ rw (failed, add) next
      ]

  -- When `Add` succeeds, every remote that it was given is in memory, and none of their names was
  -- there before.
  pub add_each_added :
      (rs : List Remote) (s : Remotes)
      → (add y s rs).1 ≡ none
      → All
          (λ r.
            (lookup r.name (add y s rs).0.content ≡ some r) × (has_key r.name s.content ≡ false))
          rs
  unfolding add
  add_each_added [] s h = tt
  add_each_added (r ∷ rs) s h =
      let s₁ = (add_one y s r).0 in
      elim (Option-cases (add_one y s r).1) [
        | inr (z, failed) ↦ absurd (ground arith)
        | inl done ↦
            let (text, made, fresh, content, entries) = add_one-ok s r done in
            let same : add y s (r ∷ rs) ≡ add y s₁ rs = rw (done, add) in
            let mine : lookup r.name s₁.content ≡ some r =
              rw content (lookup-insert_self r.name r s.content) in
            (
              (cc (same, add_keeps rs s₁ r r.name mine), fresh),
              All-mono _ _ rs
                  (λ x p. (
                    cc (same, p.0),
                    ground (
                      arith,
                      p.1,
                      has_key-lookup x.name s.content,
                      has_key-lookup x.name s₁.content,
                      lookup-insert r.name x.name r s.content,
                    ),
                  ))
                  (add_each_added rs s₁ (ground arith)),
            )
      ]

  keep_known_empty : (known found : Assoc Remote) → keep_known y known found ≡ [] → known ≡ []
  unfolding keep_known
  keep_known_empty [] found h = refl
  keep_known_empty (k ∷ known) [] h = cc
  keep_known_empty (k ∷ known) (f ∷ found) h = cc

  -- `Load` never leaves an empty map in memory where there was a remote, and where it fails it changes
  -- nothing.
  load_keeps :
      (s : Remotes)
      → ((load y s).0.content ≡ [] → s.content ≡ []) × (((load y s).1 ≡ none) ⊎ ((load y s).0 ≡ s))
  unfolding load
  load_keeps s = (λ h. ground arith, ground arith)
