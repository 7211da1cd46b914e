-- ===== src/Schema/Apply.antt =====
-- internal/db/update/schema.go: what `ensureUpdatesAreApplied` makes of a list of updates.
use mathlib.Core.List.{append-nil, append_assoc}
use microcluster.Prelude.{
  ℕ, ◌+◌, ◌≤◌, ◌≡◌, refl, ◌∙◌, false, Option, none, some, List, [], ◌∷◌, ◌++◌, length, map, Result,
  ok, err, ◌>>=◌, Option-cases, inl, inr, arith,
}
use microcluster.Schema.{
  Kind, internal, external, Db, typed, Error, failed_update, same_kind, max_of, of_kind, or_fail,
  Sql, lift, update_from_v1, insert_version, apply_from,
}
use microcluster.Schema.Versions.{max_of-snoc, has_row_above, of_kind-snoc}

-- The rows for the updates after version `v`.
abbrev pub new_rows {ℓ} : {A : Type ℓ} → Kind → ℕ → List A → List (Kind × ℕ)
new_rows k v [] = []
new_rows k v (u ∷ us) = (k, v + 1) ∷ new_rows k (v + 1) us

-- The effects on the other tables, one after the other.
pub run_all : {D : Type 0} → ℕ → List (D → Option D) → D → Result Error D
run_all v [] d = ok d
run_all v (u ∷ us) d = do d' ← or_fail (failed_update v) (u d); run_all (v + 1) us d'

abbrev pub recorded : {D : Type 0} → List (Kind × ℕ) → Result Error D → Result Error (Db D)
recorded rows (ok d) = ok (record { schemas = typed rows; rest = d })
recorded rows (err e) = err e

max_of-snoc_kind :
    (k : Kind) (v : ℕ) (rows : List (Kind × ℕ))
    → max_of (of_kind k rows) ≤ v
    → max_of (of_kind k (rows ++ (k, v + 1) ∷ [])) ≡ v + 1
max_of-snoc_kind internal v rows h = ground (
  arith,
  of_kind-snoc internal internal (v + 1) rows,
  max_of-snoc (of_kind internal rows) (v + 1),
)
max_of-snoc_kind external v rows h = ground (
  arith,
  of_kind-snoc external external (v + 1) rows,
  max_of-snoc (of_kind external rows) (v + 1),
)

module _ {D : Type 0} (q : Sql D) where
  -- An update that changes no table `schemas` with the column `type`.
  step :
      (k : Kind) (v : ℕ) (f : D → Option D) (us : List (Db D → Option (Db D)))
      (rows : List (Kind × ℕ)) (d d' : D)
      → max_of (of_kind k rows) ≤ v
      → f d ≡ some d'
      → apply_from q k v (lift f ∷ us) (record { schemas = typed rows; rest = d })
        ≡ apply_from q k
            (v + 1)
            us
            (record { schemas = typed (rows ++ (k, v + 1) ∷ []); rest = d' })
  unfolding apply_from lift insert_version update_from_v1
  step internal v f us rows d d' m h = ground (arith, has_row_above v (of_kind internal rows) m)
  step external v f us rows d d' m h = ground (arith, has_row_above v (of_kind external rows) m)

  step_fails :
      (k : Kind) (v : ℕ) (f : D → Option D) (us : List (Db D → Option (Db D)))
      (rows : List (Kind × ℕ)) (d : D)
      → f d ≡ none
      → apply_from q k v (lift f ∷ us) (record { schemas = typed rows; rest = d })
        ≡ err (failed_update v)
  unfolding apply_from lift
  step_fails k v f us rows d h = ground arith

  -- Updates that leave the table `schemas` alone: their effects are run in order, and each version is
  -- recorded once.
  pub apply_from-map-lift :
      (k : Kind) (v : ℕ) (fs : List (D → Option D)) (rows : List (Kind × ℕ)) (d : D)
      → max_of (of_kind k rows) ≤ v
      → apply_from q k v (map lift fs) (record { schemas = typed rows; rest = d })
        ≡ recorded (rows ++ new_rows k v fs) (run_all v fs d)
  unfolding run_all apply_from
  apply_from-map-lift k v [] rows d m = rw (append-nil rows, apply_from) refl
  apply_from-map-lift k v (f ∷ fs) rows d m = elim (Option-cases (f d)) [
    | inl none_left ↦ step_fails k v f (map lift fs) rows d none_left ∙ ground arith
    | inr (d', done) ↦
        let rows' = rows ++ (k, v + 1) ∷ [] in
        let one = step k v f (map lift fs) rows d d' m done in
        let top : max_of (of_kind k rows') ≤ v + 1 = omega (arith, max_of-snoc_kind k v rows m) in
        let more = apply_from-map-lift k (v + 1) fs rows' d' top in
        one ∙ more ∙ rw (done, append_assoc rows ((k, v + 1) ∷ []) (new_rows k (v + 1) fs)) refl
  ]

-- The highest version after the rows of all the updates are there, and the other kind's versions.
pub max_of-new_rows {ℓ} :
    {A : Type ℓ} (k : Kind) (v : ℕ) (us : List A) (rows : List (Kind × ℕ))
    → max_of (of_kind k rows) ≡ v
    → max_of (of_kind k (rows ++ new_rows k v us)) ≡ v + length us
max_of-new_rows k v [] rows h = rw (append-nil rows) (omega (arith, h))
max_of-new_rows k v (u ∷ us) rows h =
    let next = max_of-snoc_kind k v rows (omega (arith, h)) in
    let more = max_of-new_rows k (v + 1) us (rows ++ (k, v + 1) ∷ []) next in
    rw (← append_assoc rows ((k, v + 1) ∷ []) (new_rows k (v + 1) us)) (omega (arith, more))

pub other_kind-new_rows {ℓ} :
    {A : Type ℓ} (k j : Kind) (v : ℕ) (us : List A) (rows : List (Kind × ℕ))
    → same_kind k j ≡ false
    → of_kind j (rows ++ new_rows k v us) ≡ of_kind j rows
other_kind-new_rows k j v [] rows h = rw (append-nil rows) refl
other_kind-new_rows k j v (u ∷ us) rows h =
    let one : of_kind j (rows ++ (k, v + 1) ∷ []) ≡ of_kind j rows =
      of_kind-snoc j k (v + 1) rows ∙ rw h refl in
    rw (← append_assoc rows ((k, v + 1) ∷ []) (new_rows k (v + 1) us))
      (other_kind-new_rows k j (v + 1) us (rows ++ (k, v + 1) ∷ []) h ∙ one)
