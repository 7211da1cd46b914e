-- ===== src/Endpoints/Changes.antt =====
-- internal/endpoints/endpoints.go: what `Add`, `Down` and `Shutdown` do to the listeners.
use microcluster.Prelude.{
  ◌≡◌, ◌⊎◌, refl, Str, str_eq, str_eq_iff, true, false, none, some, [], ◌∷◌, Assoc, lookup, insert,
  has_key, lookup-insert, lookup-remove, All, All-mono, Bool-cases, inl, inr, arith,
}
use microcluster.Endpoints.{
  Endpoint, Sockets, up, down_by_name, down_each, insert_each, add, down, shutdown, stop_endpoints,
}

-- No name stands twice.
abbrev pub Distinct {ℓ} : {V : Type ℓ} → Assoc V → Type 0
Distinct [] = Unit
Distinct ((k, v) ∷ m) = (has_key k m ≡ false) × Distinct m

lookup-insert_each_other :
    (added ls : Assoc Endpoint) (k : Str)
    → has_key k added ≡ false
    → lookup k (insert_each added ls) ≡ lookup k ls
unfolding insert_each has_key
lookup-insert_each_other [] ls k h = refl
lookup-insert_each_other ((j, n) ∷ added) ls k h =
    ground (arith, lookup-insert_each_other added (insert j n ls) k, lookup-insert j k n ls)

module _ (e : Sockets) where
  lookup-up_other :
      (added ls : Assoc Endpoint) (k : Str)
      → has_key k added ≡ false
      → lookup k (up e added ls).0 ≡ lookup k ls
  unfolding up has_key
  lookup-up_other [] ls k h = refl
  lookup-up_other ((j, n) ∷ added) ls k h = ground (
    arith,
    lookup-up_other added (insert j (record n { listening = true }) ls) k,
    lookup-insert j k (record n { listening = true }) ls,
  )

  lookup-down_by_name_other :
      (j k : Str) (ls : Assoc Endpoint)
      → str_eq j k ≡ false
      → lookup k (down_by_name e j ls).0 ≡ lookup k ls
  unfolding down_by_name
  lookup-down_by_name_other j k ls h = ground (arith, lookup-remove j k ls)

  lookup-down_each_other :
      (added ls : Assoc Endpoint) (k : Str)
      → has_key k added ≡ false
      → lookup k (down_each e added ls) ≡ lookup k ls
  unfolding down_each has_key
  lookup-down_each_other [] ls k h = refl
  lookup-down_each_other ((j, n) ∷ added) ls k h = ground (
    arith,
    lookup-down_each_other added (down_by_name e j ls).0 k,
    lookup-down_by_name_other j k ls,
  )

  -- Whether `Add` succeeds or not, an endpoint under another name stays as it was.
  pub lookup-add_other :
      (added ls : Assoc Endpoint) (k : Str)
      → has_key k added ≡ false
      → lookup k (add e added ls).0 ≡ lookup k ls
  unfolding add
  lookup-add_other added ls k h = ground (
    arith,
    lookup-up_other added (insert_each added ls) k h,
    lookup-down_each_other added (up e added (insert_each added ls)).0 k h,
    lookup-insert_each_other added ls k h,
  )

  up_listens :
      (added ls : Assoc Endpoint)
      → Distinct added
      → (up e added ls).1 ≡ true
      → All (λ p. lookup p.0 (up e added ls).0 ≡ some (record p.1 { listening = true })) added
  unfolding up
  up_listens [] ls d h = tt
  up_listens ((k, n) ∷ added) ls d h =
      let ls₁ = insert k (record n { listening = true }) ls in
      let same : up e ((k, n) ∷ added) ls ≡ up e added ls₁ = ground arith in
      (
        ground (
          arith,
          lookup-up_other added ls₁ k d.0,
          lookup-insert k k (record n { listening = true }) ls,
          str_eq_iff k k,
        ),
        All-mono _ _ added (λ p q. cc (same, q)) (up_listens added ls₁ d.1 (ground arith)),
      )

  -- Where `Add` succeeds, every endpoint added listens under its name.
  pub add_listens :
      (added ls : Assoc Endpoint)
      → Distinct added
      → (add e added ls).1 ≡ true
      → All (λ p. lookup p.0 (add e added ls).0 ≡ some (record p.1 { listening = true })) added
  unfolding add
  add_listens added ls d h =
      let is_up : (up e added (insert_each added ls)).1 ≡ true = ground arith in
      let same : (add e added ls).0 ≡ (up e added (insert_each added ls)).0 = ground arith in
      All-mono _ _ added (λ p q. cc (same, q)) (up_listens added (insert_each added ls) d is_up)

  down_by_name_gone :
      (k : Str) (ls : Assoc Endpoint) → e.closes k ≡ true → lookup k (down_by_name e k ls).0 ≡ none
  unfolding down_by_name
  down_by_name_gone k ls h = ground (arith, lookup-remove k k ls, str_eq_iff k k)

  down_by_name_keeps_none :
      (j k : Str) (ls : Assoc Endpoint)
      → lookup k ls ≡ none
      → lookup k (down_by_name e j ls).0 ≡ none
  unfolding down_by_name
  down_by_name_keeps_none j k ls h = ground (arith, lookup-remove j k ls)

  down_each_keeps_none :
      (added ls : Assoc Endpoint) (k : Str)
      → lookup k ls ≡ none
      → lookup k (down_each e added ls) ≡ none
  unfolding down_each
  down_each_keeps_none [] ls k h = h
  down_each_keeps_none ((j, n) ∷ added) ls k h =
      down_each_keeps_none added (down_by_name e j ls).0 k (down_by_name_keeps_none j k ls h)

  down_each_gone :
      (added ls : Assoc Endpoint)
      → All (λ p. e.closes p.0 ≡ true) added
      → All (λ p. lookup p.0 (down_each e added ls) ≡ none) added
  unfolding down_each
  down_each_gone [] ls h = tt
  down_each_gone ((k, n) ∷ added) ls h = (
    down_each_keeps_none added (down_by_name e k ls).0 k (down_by_name_gone k ls h.0),
    down_each_gone added (down_by_name e k ls).0 h.1,
  )

  -- Where `Add` fails and the listeners can be closed, nothing is left under the names that were added.
  add_undone :
      (added ls : Assoc Endpoint)
      → All (λ p. e.closes p.0 ≡ true) added
      → (add e added ls).1 ≡ false
      → All (λ p. lookup p.0 (add e added ls).0 ≡ none) added
  unfolding add
  add_undone added ls c h =
      let ls' = (up e added (insert_each added ls)).0 in
      let same : (add e added ls).0 ≡ down_each e added ls' = ground arith in
      All-mono _ _ added (λ p q. cc (same, q)) (down_each_gone added ls' c)

  -- `Down` of all types that succeeds leaves nothing.
  down_all_empty : (ls : Assoc Endpoint) → (down e [] ls).1 ≡ true → (down e [] ls).0 ≡ []
  unfolding down
  down_all_empty [] h = refl
  down_all_empty ((k, n) ∷ ls) h = ground (arith, down_all_empty ls)

  -- Whatever listeners a daemon has and however the system answers, its stop shuts no server down: either
  -- it fails to close a listener and ends there, or `Down` has left nothing for `Shutdown`.
  pub stop_drains_none : (ls : Assoc Endpoint) → (stop_endpoints e ls).0 ≡ []
  unfolding stop_endpoints shutdown
  stop_drains_none ls = ground (arith, down_all_empty ls)

  -- An endpoint under a name that is not added stays, whether `Add` succeeds or not. Where it succeeds every
  -- endpoint added listens under its name; where it fails nothing is left under the names added. No name is
  -- added twice, and the listeners of the names added can be closed.
  pub add_atomic :
      (added ls : Assoc Endpoint) (k : Str)
      → Distinct added
      → All (λ p. e.closes p.0 ≡ true) added
      → has_key k added ≡ false
      → (lookup k (add e added ls).0 ≡ lookup k ls)
        × (((add e added ls).1 ≡ true)
              × All
                  (λ p. lookup p.0 (add e added ls).0 ≡ some (record p.1 { listening = true }))
                  added
            ⊎ ((add e added ls).1 ≡ false) × All (λ p. lookup p.0 (add e added ls).0 ≡ none) added)
  add_atomic added ls k d c other = (
    lookup-add_other added ls k other,
    elim (Bool-cases (add e added ls).1) [
      | inl h ↦ inl (h, add_listens added ls d h)
      | inr h ↦ inr (h, add_undone added ls c h)
    ],
  )
