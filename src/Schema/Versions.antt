-- ===== src/Schema/Versions.antt =====
-- internal/db/update/schema.go: the highest version of each kind, as rows are added.
use microcluster.Prelude.{
  ℕ, ◌+◌, ◌≤◌, ◌≡◌, refl, false, List, [], ◌∷◌, ◌++◌, ltb, arith, if◌then◌else◌,
}
use microcluster.Schema.{Kind, same_kind, max_of, of_kind, has_row}

pub max_of-snoc :
    (vs : List ℕ) (v : ℕ) → max_of (vs ++ v ∷ []) ≡ (if ltb (max_of vs) v then v else max_of vs)
unfolding max_of
max_of-snoc [] v = ground arith
max_of-snoc (w ∷ vs) v = ground (arith, max_of-snoc vs v)

pub has_row_above : (v : ℕ) (vs : List ℕ) → max_of vs ≤ v → has_row (v + 1) vs ≡ false
unfolding max_of has_row
has_row_above v [] h = refl
has_row_above v (w ∷ vs) h = ground (arith, has_row_above v vs)

pub of_kind-snoc :
    (k j : Kind) (v : ℕ) (rows : List (Kind × ℕ))
    → of_kind k (rows ++ (j, v) ∷ [])
      ≡ (if same_kind j k then of_kind k rows ++ v ∷ [] else of_kind k rows)
unfolding of_kind
of_kind-snoc k j v [] = ground arith
of_kind-snoc k j v ((i, w) ∷ rows) = ground (arith, of_kind-snoc k j v rows)
