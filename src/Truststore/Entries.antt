-- ===== src/Truststore/Entries.antt =====
-- internal/rest/resources/truststore.go: the entries after a handler.
use microcluster.Prelude.{
  ◌≡◌, ◌⊎◌, refl, sym, subst, ◌&&◌, ◌∙◌, Str, str_eq, str_eq_iff, true, false, not, none, some, [],
  ◌∷◌, Assoc, lookup, insert, remove, has_key, lookup-insert, lookup-remove, has_key-lookup,
  Bool-cases, Option-cases, inl, inr, arith, if◌then◌else◌,
}
use microcluster.Trust.{Remote, Remotes, Yaml, add}
use microcluster.Trust.Writes.{add_one-ok}
use microcluster.Daemon.Adding.{has_key-insert}
use microcluster.Trust.Replace.{replace}
use microcluster.Trust.Replace.Memory.{last_named, lookup-replace}
use microcluster.Truststore.{Env, trust_post, values, trust_delete}

-- The map in memory has each remote under its name, once.
abbrev pub IsKeyed : Assoc Remote → Type 0
IsKeyed [] = Unit
IsKeyed ((k, r) ∷ m) = (k ≡ r.name) × (has_key k m ≡ false) × IsKeyed m

named-values : (k : Str) (m : Assoc Remote) → IsKeyed m → last_named k (values m) ≡ lookup k m
unfolding last_named lookup
named-values k [] h = refl
named-values k ((j, r) ∷ m) h =
    ground (
      arith,
      h.0,
      h.1,
      named-values k m h.2,
      has_key-lookup k m,
      has_key-lookup j m,
      str_eq_iff j k,
    )

remove_keeps : (j k : Str) (m : Assoc Remote) → has_key k m ≡ false → has_key k (remove j m) ≡ false
remove_keeps j k m h =
    ground (arith, has_key-lookup k m, has_key-lookup k (remove j m), lookup-remove j k m)

remove-IsKeyed : (j : Str) (m : Assoc Remote) → IsKeyed m → IsKeyed (remove j m)
unfolding remove
remove-IsKeyed j [] h = tt
remove-IsKeyed j ((k, r) ∷ m) h = elim (Bool-cases (str_eq k j)) [
  | inl same ↦ rw (same, remove) (remove-IsKeyed j m h.2)
  | inr other ↦ rw (other, remove) (h.0, remove_keeps j k m h.1, remove-IsKeyed j m h.2)
]

insert-IsKeyed : (r : Remote) (m : Assoc Remote) → IsKeyed m → IsKeyed (insert r.name r m)
unfolding insert has_key
insert-IsKeyed r [] h = (refl, refl, tt)
insert-IsKeyed r ((j, x) ∷ m) h = elim (Bool-cases (str_eq j r.name)) [
  | inl same ↦ rw (same, insert) (refl, ground (arith, h.1, str_eq_iff j r.name), h.2)
  | inr other ↦
      rw (other, insert)
        (
          h.0,
          ground
              (arith, h.1, has_key-insert r.name j r m, str_eq_iff j r.name, str_eq_iff r.name j),
          insert-IsKeyed r m h.2,
        )
]

add-ok :
    (y : Yaml) (s : Remotes) (r : Remote)
    → (add y s (r ∷ [])).1 ≡ none
    → (has_key r.name s.content ≡ false)
      × ((add y s (r ∷ [])).0.content ≡ insert r.name r s.content)
unfolding add
add-ok y s r h =
    let (text, made, fresh, content, entries) = add_one-ok y s r (ground arith) in
    (fresh, ground arith)

module _ (y : Yaml) (e : Env) where
  post-cases :
      (s s' : Remotes) (r : Remote)
      → e.request ≡ some r
      → trust_post y e s ≡ (s', none)
      → ((has_key r.name s.content ≡ true) × (s' ≡ s))
        ⊎ ((has_key r.name s.content ≡ false) × (s'.content ≡ insert r.name r s.content))
  unfolding trust_post
  post-cases s s' r asked h = elim (Bool-cases (has_key r.name s.content)) [
    | inl known ↦ inl (known, ground arith)
    | inr fresh ↦ elim (Option-cases (add y s (r ∷ [])).1) [
      | inl p ↦ inr (fresh, ground (arith, add-ok y s r p))
      | inr (x, p) ↦ absurd (ground arith)
    ]
  ]

  -- Where `trustPost` succeeds, the trust store has an entry for the name: the one that it had, or the new one
  -- where it had none. Every other is as it was.
  lookup-trust_post :
      (s s' : Remotes) (r : Remote) (k : Str)
      → e.request ≡ some r
      → trust_post y e s ≡ (s', none)
      → lookup k s'.content
        ≡ (if not (has_key r.name s.content) && str_eq r.name k then some r else lookup k s.content)
  lookup-trust_post s s' r k asked h = elim (post-cases s s' r asked h) [
    | inl (known, same) ↦ ground arith
    | inr (fresh, content) ↦ ground (arith, lookup-insert r.name k r s.content)
  ]

  trust_post-IsKeyed :
      (s s' : Remotes) (r : Remote)
      → IsKeyed s.content
      → e.request ≡ some r
      → trust_post y e s ≡ (s', none)
      → IsKeyed s'.content
  trust_post-IsKeyed s s' r keyed asked h = elim (post-cases s s' r asked h) [
    | inl (known, same) ↦ subst (λ t. IsKeyed t.content) (sym same) keyed
    | inr (fresh, content) ↦ subst IsKeyed (sym content) (insert-IsKeyed r s.content keyed)
  ]

  -- Where `trustDelete` succeeds, the trust store has no entry for the name, and every other is as it was.
  -- Each entry is under its name, once.
  lookup-trust_delete :
      (s s' : Remotes) (name k : Str)
      → IsKeyed s.content
      → e.path_name ≡ some name
      → trust_delete y e s ≡ (s', none)
      → lookup k s'.content ≡ (if str_eq name k then none else lookup k s.content)
  unfolding trust_delete
  lookup-trust_delete s s' name k keyed asked h =
      let rs = values (remove name s.content) in
      let replaced : replace y s rs ≡ (s', none) = ground arith in
      lookup-replace y s s' rs k replaced
      ∙ named-values k (remove name s.content) (remove-IsKeyed name s.content keyed)
      ∙ lookup-remove name k s.content

-- An entry that `trustPost` has added and `trustDelete` then deletes leaves the entries as they were. Each is
-- under its name, once, and there was none for the new name.
pub trust_delete-post :
    (y : Yaml) (add_env delete_env : Env) (s s' s'' : Remotes) (r : Remote) (k : Str)
    → IsKeyed s.content
    → has_key r.name s.content ≡ false
    → add_env.request ≡ some r
    → delete_env.path_name ≡ some r.name
    → trust_post y add_env s ≡ (s', none)
    → trust_delete y delete_env s' ≡ (s'', none)
    → lookup k s''.content ≡ lookup k s.content
trust_delete-post y add_env delete_env s s' s'' r k keyed fresh asked named added deleted =
    let gone =
      lookup-trust_delete y delete_env s' s'' r.name k
        (trust_post-IsKeyed y add_env s s' r keyed asked added) named deleted in
    let here = lookup-trust_post y add_env s s' r k asked added in
    ground (arith, has_key-lookup r.name s.content, str_eq_iff r.name k)
