-- ===== src/Schema/Ensure/Rows.antt =====
-- internal/db/update/schema.go: the rows of the table `schemas`.
use microcluster.Prelude.{
  ℕ, zero, suc, ◌+◌, ◌-◌, ◌≡◌, refl, ap, List, [], ◌∷◌, ◌++◌, length, drop, map, arith,
}
use microcluster.Schema.{
  Kind, internal, external, Db, Schemas, typed, missing, untyped, max_of, of_kind, first_rows,
  later_rows,
}
use microcluster.Schema.Apply.{new_rows}

-- The table `schemas` has the column `type`, and these highest versions.
pub record HasVersions {D : Type 0} (db : Db D) (i e : ℕ) : Type 0 where
  pub rows : List (Kind × ℕ)
  pub is_typed : db.schemas ≡ typed rows
  pub internals : max_of (of_kind internal rows) ≡ i
  pub externals : max_of (of_kind external rows) ≡ e

-- The rows of the `n` versions after `v`.
abbrev pub rows_after : Kind → ℕ → ℕ → List (Kind × ℕ)
rows_after k v zero = []
rows_after k v (suc n) = (k, v + 1) ∷ rows_after k (v + 1) n

pub new_rows-is {ℓ} :
    {A : Type ℓ} (k : Kind) (v : ℕ) (us : List A) → new_rows k v us ≡ rows_after k v (length us)
new_rows-is k v [] = refl
new_rows-is k v (u ∷ us) = ap (λ rows. (k, v + 1) ∷ rows) (new_rows-is k (v + 1) us)

-- The rows that the internal updates go on from, once the table has the column.
abbrev pub start_rows : Schemas → List (Kind × ℕ)
start_rows missing = []
start_rows (untyped vs) = first_rows vs ++ later_rows vs
start_rows (typed rows) = rows

-- The rows with those of the internal updates that were left.
abbrev pub with_internals : List (Kind × ℕ) → List (Kind × ℕ)
with_internals rows =
    let v = max_of (of_kind internal rows) in rows ++ rows_after internal v (6 - v)

-- `HasVersions` by these rows.
abbrev pub HasRows : {D : Type 0} → Db D → ℕ → ℕ → List (Kind × ℕ) → Type 0
HasRows db i e rows = (h : HasVersions db i e) × (h.rows ≡ rows)

pub drop-map {ℓ κ} :
    {A : Type ℓ} {B : Type κ} (f : A → B) (n : ℕ) (xs : List A)
    → drop n (map f xs) ≡ map f (drop n xs)
drop-map f zero xs = refl
drop-map f (suc n) [] = refl
drop-map f (suc n) (x ∷ xs) = drop-map f n xs

pub length-drop {ℓ} : {A : Type ℓ} (n : ℕ) (xs : List A) → length (drop n xs) ≡ length xs - n
length-drop zero xs = omega arith
length-drop (suc n) [] = omega arith
length-drop (suc n) (x ∷ xs) = omega (arith, length-drop n xs)

pub length-map {ℓ κ} :
    {A : Type ℓ} {B : Type κ} (f : A → B) (xs : List A) → length (map f xs) ≡ length xs
length-map f [] = refl
length-map f (x ∷ xs) = ap suc (length-map f xs)
