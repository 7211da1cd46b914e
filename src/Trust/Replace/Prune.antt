-- ===== src/Trust/Replace/Prune.antt =====
-- internal/trust/remotes.go: what the two loops of `Replace` do to the files of the directory.
use microcluster.Prelude.{
  Str, ◌≡◌, inl, inr, true, false, none, some, List, [], ◌∷◌, ok, Assoc, lookup, insert, has_key,
  lookup-insert, lookup-remove, str_eq, str_eq_iff, str_eq-append, arith, if◌then◌else◌, Bool-cases,
  Option-cases, ap, sym, subst, ◌∙◌,
}
use microcluster.Trust.{IsOnDisk, Remote, Entry, file, Dir, Yaml, yaml_path, yaml_suffix, cut_yaml}
use microcluster.Trust.Replace.{write_one, write_all, remove_file, prune}
use microcluster.Trust.Replace.Memory.{write_all-cons}

module _ (y : Yaml) where
  -- What a write that succeeds has done.
  write_one-ok :
      (dir : Dir) (r : Remote) (kept kept' : Assoc Remote)
      → (write_one y dir r kept).1 ≡ ok kept'
      → (text : Str) × (y.marshal r ≡ some text)
        × ((write_one y dir r kept).0.entries ≡ insert (yaml_path r.name) (file text) dir.entries)
        × (kept' ≡ insert r.name r kept)
  unfolding write_one
  write_one-ok dir r kept kept' e = elim (Option-cases (y.marshal r)) [
    | inl p ↦ absurd (ground arith)
    | inr (text, p) ↦ (text, p, ground arith, ground arith)
  ]

  write_one-IsOnDisk :
      (dir : Dir) (r : Remote) (kept kept' : Assoc Remote)
      → IsOnDisk y dir kept
      → (write_one y dir r kept).1 ≡ ok kept'
      → IsOnDisk y (write_one y dir r kept).0 kept'
  write_one-IsOnDisk dir r kept kept' h e k x p =
      let (text, made, files, map') = write_one-ok dir r kept kept' e in
      elim (Bool-cases (str_eq r.name k)) [
        | inl same ↦ (
          text,
          ground (arith, lookup-insert r.name k r kept),
          rw files (
              ground (
                arith,
                lookup-insert (yaml_path r.name) (yaml_path k) (file text) dir.entries,
                str_eq-append r.name k yaml_suffix,
              )),
        )
        | inr other ↦
            let (t, m, f) = h k x (ground (arith, lookup-insert r.name k r kept)) in
            (
              t,
              m,
              rw files (
                  ground (
                    arith,
                    lookup-insert (yaml_path r.name) (yaml_path k) (file text) dir.entries,
                    str_eq-append r.name k yaml_suffix,
                  )),
            )
      ]

  pub write_all-IsOnDisk :
      (rs : List Remote) (dir : Dir) (kept kept' : Assoc Remote)
      → IsOnDisk y dir kept
      → (write_all y dir kept rs).1 ≡ ok kept'
      → IsOnDisk y (write_all y dir kept rs).0 kept'
  unfolding write_all
  write_all-IsOnDisk [] dir kept kept' h e = subst (IsOnDisk y dir) (ground arith) h
  write_all-IsOnDisk (r ∷ rs) dir kept kept' h e =
      let (kept₁, one, rest) = write_all-cons y dir r rs kept kept' e in
      let next =
        write_all-IsOnDisk rs (write_one y dir r kept).0 kept₁ kept'
          (write_one-IsOnDisk dir r kept kept₁ h one) (rw rest at e) in
      subst (λ w. IsOnDisk y w kept') (ap (λ w. w.0) (sym rest)) next

lookup-remove_file :
    (dir d : Dir) (p q : Str)
    → remove_file dir p ≡ some d
    → lookup q d.entries ≡ (if str_eq p q then none else lookup q dir.entries)
unfolding remove_file
lookup-remove_file dir d p q h = ground (arith, lookup-remove p q dir.entries)

-- A listed name that is not kept is removed before the loop goes on.
prune-outdated :
    (kept : Assoc Remote) (listed : Assoc Entry) (dir dir' : Dir) (n : Str) (f : Entry)
    → has_key (cut_yaml n) kept ≡ false
    → prune kept dir ((n, f) ∷ listed) ≡ (dir', none)
    → (d : Dir) × (remove_file dir (yaml_path (cut_yaml n)) ≡ some d)
      × (prune kept d listed ≡ (dir', none))
unfolding prune
prune-outdated kept listed dir dir' n f gone e =
    elim (Option-cases (remove_file dir (yaml_path (cut_yaml n)))) [
      | inl p ↦ absurd (ground arith)
      | inr (d, p) ↦ (d, p, ground arith)
    ]

prune-known :
    (kept : Assoc Remote) (listed : Assoc Entry) (dir : Dir) (n : Str) (f : Entry)
    → has_key (cut_yaml n) kept ≡ true
    → prune kept dir ((n, f) ∷ listed) ≡ prune kept dir listed
unfolding prune
prune-known kept listed dir n f here = rw here

-- The file of a remote that is kept is not removed.
pub prune-keeps :
    (kept : Assoc Remote) (listed : Assoc Entry) (dir dir' : Dir) (k : Str)
    → has_key k kept ≡ true
    → prune kept dir listed ≡ (dir', none)
    → lookup (yaml_path k) dir'.entries ≡ lookup (yaml_path k) dir.entries
unfolding prune
prune-keeps kept [] dir dir' k h e = ground arith
prune-keeps kept ((n, f) ∷ listed) dir dir' k h e = elim (Bool-cases (has_key (cut_yaml n) kept)) [
  | inl here ↦ prune-keeps kept listed dir dir' k h (rw (prune-known kept listed dir n f here) at e)
  | inr gone ↦
      let (d, removed, more) = prune-outdated kept listed dir dir' n f gone e in
      ground (
        arith,
        prune-keeps kept listed d dir' k h more,
        lookup-remove_file dir d (yaml_path (cut_yaml n)) (yaml_path k) removed,
        str_eq-append (cut_yaml n) k yaml_suffix,
        str_eq_iff (cut_yaml n) k,
      )
]

-- A file that is not there does not come back.
pub prune-absent :
    (kept : Assoc Remote) (listed : Assoc Entry) (dir dir' : Dir) (q : Str)
    → lookup q dir.entries ≡ none
    → prune kept dir listed ≡ (dir', none)
    → lookup q dir'.entries ≡ none
unfolding prune
prune-absent kept [] dir dir' q h e = ground arith
prune-absent kept ((n, f) ∷ listed) dir dir' q h e = elim (Bool-cases (has_key (cut_yaml n) kept)) [
  | inl here ↦
      prune-absent kept listed dir dir' q h (rw (prune-known kept listed dir n f here) at e)
  | inr gone ↦
      let (d, removed, more) = prune-outdated kept listed dir dir' n f gone e in
      prune-absent kept listed d dir' q
        (ground (arith, lookup-remove_file dir d (yaml_path (cut_yaml n)) q removed)) more
]

-- The listed file of a name that is not kept is gone.
pub prune-removes :
    (kept : Assoc Remote) (listed : Assoc Entry) (dir dir' : Dir) (k : Str)
    → has_key k kept ≡ false
    → cut_yaml (yaml_path k) ≡ k
    → has_key (yaml_path k) listed ≡ true
    → prune kept dir listed ≡ (dir', none)
    → lookup (yaml_path k) dir'.entries ≡ none
unfolding has_key prune
prune-removes kept [] dir dir' k h c l e = ground arith
prune-removes kept ((n, f) ∷ listed) dir dir' k h c l e =
    elim (Bool-cases (str_eq n (yaml_path k))) [
      | inl same ↦
          let name : n ≡ yaml_path k = (str_eq_iff n (yaml_path k)).0 same in
          let cut : cut_yaml n ≡ k = ap cut_yaml name ∙ c in
          let (d, removed, more) = prune-outdated kept listed dir dir' n f (rw cut h) e in
          prune-absent kept listed d dir' (yaml_path k)
            (ground (
              arith,
              lookup-remove_file dir d (yaml_path (cut_yaml n)) (yaml_path k) removed,
              str_eq-append (cut_yaml n) k yaml_suffix,
              str_eq_iff (cut_yaml n) k,
            ))
            more
      | inr other ↦
          let later : has_key (yaml_path k) listed ≡ true = ground arith in
          elim (Bool-cases (has_key (cut_yaml n) kept)) [
            | inl here ↦
                prune-removes kept listed dir dir' k h c later
                  (rw (prune-known kept listed dir n f here) at e)
            | inr gone ↦
                let (d, removed, more) = prune-outdated kept listed dir dir' n f gone e in
                prune-removes kept listed d dir' k h c later more
          ]
    ]
