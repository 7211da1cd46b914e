-- ===== src/Daemon/Adding.antt =====
-- internal/daemon/daemon.go: the listeners that `addExtensionServers` starts.
use microcluster.Prelude.{
  ◌≡◌, refl, subst, Str, str_eq, str_eq_iff, Bool, true, ◌||◌, some, [], ◌∷◌, Assoc, lookup, insert,
  has_key, lookup-insert, has_key-lookup, All, Bool-cases, inl, inr, arith,
}
use microcluster.Endpoints.{Endpoint, network, Sockets, list, up, insert_each, add}
use microcluster.Endpoints.Changes.{Distinct}

pub has_key-insert {ℓ} :
    {V : Type ℓ} (j k : Str) (v : V) (m : Assoc V)
    → has_key k (insert j v m) ≡ str_eq j k || has_key k m
has_key-insert j k v m =
    ground (arith, has_key-lookup k (insert j v m), has_key-lookup k m, lookup-insert j k v m)

pub insert-Distinct {ℓ} :
    {V : Type ℓ} (k : Str) (v : V) (m : Assoc V) → Distinct m → Distinct (insert k v m)
unfolding insert has_key
insert-Distinct k v [] d = (refl, tt)
insert-Distinct k v ((j, w) ∷ m) d = elim (Bool-cases (str_eq j k)) [
  | inl same ↦ rw (same, insert) (ground (arith, d.0, str_eq_iff j k), d.1)
  | inr other ↦
      rw (other, insert)
        (
          ground (arith, d.0, has_key-insert k j v m, str_eq_iff j k, str_eq_iff k j),
          insert-Distinct k v m d.1,
        )
]

pub All-lookup {ℓ} :
    {V : Type 0} (P : Str → V → Type ℓ) (k : Str) (v : V) (m : Assoc V)
    → All (λ p. P p.0 p.1) m
    → lookup k m ≡ some v
    → P k v
unfolding lookup
All-lookup P k v [] a h = absurd (ground arith)
All-lookup P k v ((j, w) ∷ m) a h = elim (Bool-cases (str_eq j k)) [
  | inr other ↦ All-lookup P k v m a.1 (ground arith)
  | inl same ↦
      let key : j ≡ k = (str_eq_iff j k).0 same in
      let value : w ≡ v = ground arith in subst (λ t. P t v) key (subst (λ t. P j t) value a.0)
]

-- Whether a network listener has the name.
abbrev pub is_running : Str → Assoc Endpoint → Bool
is_running k ls = has_key k (list (network ∷ []) ls)

running-insert :
    (j k : Str) (n : Endpoint) (ls : Assoc Endpoint)
    → n.kind ≡ network
    → is_running k (insert j n ls) ≡ str_eq j k || is_running k ls
unfolding list insert has_key
running-insert j k n [] h = ground arith
running-insert j k n ((i, m) ∷ ls) h =
    ground (arith, running-insert j k n ls h, str_eq_iff i j, str_eq_iff i k, str_eq_iff j k)

running-insert_each :
    (added ls : Assoc Endpoint) (k : Str)
    → All (λ p. p.1.kind ≡ network) added
    → is_running k (insert_each added ls) ≡ has_key k added || is_running k ls
unfolding insert_each has_key
running-insert_each [] ls k h = refl
running-insert_each ((j, n) ∷ added) ls k h =
    ground (arith, running-insert_each added (insert j n ls) k h.1, running-insert j k n ls h.0)

module _ (e : Sockets) where
  running-up :
      (added ls : Assoc Endpoint) (k : Str)
      → All (λ p. p.1.kind ≡ network) added
      → (up e added ls).1 ≡ true
      → is_running k (up e added ls).0 ≡ has_key k added || is_running k ls
  unfolding up has_key
  running-up [] ls k h u = refl
  running-up ((j, n) ∷ added) ls k h u =
      let m = record n { listening = true } in
      ground (arith, h.0, running-up added (insert j m ls) k h.1, running-insert j k m ls h.0)

  pub running-add :
      (added ls : Assoc Endpoint) (k : Str)
      → All (λ p. p.1.kind ≡ network) added
      → (add e added ls).1 ≡ true
      → is_running k (add e added ls).0 ≡ has_key k added || is_running k ls
  unfolding add
  running-add added ls k h u =
      ground (arith, running-up added (insert_each added ls) k h, running-insert_each added ls k h)
