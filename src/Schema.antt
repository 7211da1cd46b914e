-- ===== src/Schema.antt =====
-- internal/db/update/schema.go and internal/db/update/update.go: the updates of the database's schema.
-- The tables other than `schemas` are of any type `D`; what an update's SQL does to them is a parameter,
-- which is none where a statement fails. A transaction that fails leaves the database as it was.
pub mod Versions
pub mod Apply
pub mod Ensure
mod Tests
use microcluster.Prelude.{
  ℕ, suc, ◌+◌, ◌-◌, Bool, true, false, not, ◌&&◌, ◌||◌, Option, none, some, List, [], ◌∷◌, ◌++◌,
  length, drop, map, ltb, ◌==◌, Result, ok, err, ◌>>=◌, ◌>>◌, refuse_if, if◌then◌else◌,
}

-- `updateType`
pub data Kind : Type 0 where
  internal external : Kind

abbrev pub same_kind : Kind → Kind → Bool
same_kind internal internal = true
same_kind external external = true
same_kind internal external = false
same_kind external internal = false

-- The `schemas` table: none, that of `CreateSchema`, or that with the column `type`. The first rows are
-- the oldest.
pub data Schemas : Type 0 where
  missing : Schemas
  untyped : List ℕ → Schemas
  typed : List (Kind × ℕ) → Schemas

pub record Db (D : Type 0) : Type 0 where
  pub schemas : Schemas
  pub rest : D

pub data Error : Type 0 where
  unreadable_file bad_query not_removed : Error
  refused pragma_failed bad_fresh : Error
  too_recent failed_update failed_special failed_insert : ℕ → Error
  no_schemas : Error

-- `COALESCE(MAX(version), 0)`
unfoldable pub max_of : List ℕ → ℕ
max_of [] = 0
max_of (v ∷ vs) = let rest = max_of vs in if ltb rest v then v else rest

unfoldable pub of_kind : Kind → List (Kind × ℕ) → List ℕ
of_kind k [] = []
of_kind k ((j, v) ∷ rows) = let rest = of_kind k rows in if same_kind j k then v ∷ rest else rest

unfoldable pub has_row : ℕ → List ℕ → Bool
has_row v [] = false
has_row v (w ∷ vs) = if w == v then true else has_row v vs

-- The rows that `updateFromV1` inserts into the new table: the first update is internal.
unfoldable pub first_rows : List ℕ → List (Kind × ℕ)
first_rows [] = []
first_rows (v ∷ vs) = let rest = first_rows vs in if v == 1 then (internal, v) ∷ rest else rest

unfoldable pub later_rows : List ℕ → List (Kind × ℕ)
later_rows [] = []
later_rows (v ∷ vs) = let rest = later_rows vs in if ltb 1 v then (external, v - 1) ∷ rest else rest

pub or_fail : {A : Type 0} → Error → Option A → Result Error A
or_fail e none = err e
or_fail e (some a) = ok a

-- What the SQL of the internal updates does to the other tables; `v1` is the rebuilding of the members'
-- table.
pub record Sql (D : Type 0) : Type 0 where
  pub v0 : D → Option D
  pub v1 : D → Option D
  pub v2 : D → Option D
  pub v3 : D → Option D
  pub v4 : D → Option D
  pub v5 : D → Option D

module _ {D : Type 0} where
  -- An update that leaves the `schemas` table alone.
  unfoldable pub lift : (D → Option D) → Db D → Option (Db D)
  lift f db = elim (f db.rest) [ none ↦ none | some d ↦ some (record db { rest = d }) ]

  -- `updateFromV0`, which cannot create the table twice.
  unfoldable pub update_from_v0 : Sql D → Db D → Option (Db D)
  update_from_v0 q db = elim db.schemas [
    | missing ↦ elim (q.v0 db.rest) [
      | none ↦ none
      | some d ↦ some (record { schemas = untyped []; rest = d })
    ]
    | untyped vs ↦ none
    | typed rows ↦ none
  ]

  -- `updateFromV1`: nothing is left to do where the column is there.
  unfoldable pub update_from_v1 : Sql D → Db D → Option (Db D)
  update_from_v1 q db = elim db.schemas [
    | missing ↦ none
    | untyped vs ↦ elim (q.v1 db.rest) [
      | none ↦ none
      | some d ↦ some (record { schemas = typed (first_rows vs ++ later_rows vs); rest = d })
    ]
    | typed rows ↦ some db
  ]

  -- The internal updates of `NewSchema`.
  unfoldable pub internal_updates : Sql D → List (Db D → Option (Db D))
  internal_updates q =
      update_from_v0 q ∷ update_from_v1 q ∷ lift q.v2 ∷ lift q.v3 ∷ lift q.v4 ∷ lift q.v5 ∷ []

  -- `INSERT INTO schemas`, under `UNIQUE (version, type)`.
  unfoldable pub insert_version : Kind → ℕ → Db D → Option (Db D)
  insert_version k v db = elim db.schemas [
    | missing ↦ none
    | untyped vs ↦ none
    | typed rows ↦
        if has_row v (of_kind k rows)
        then none
        else some (record db { schemas = typed (rows ++ (k, v) ∷ []) })
  ]

  special : Sql D → Kind → ℕ → Db D → Option (Db D)
  special q internal v db = if v == 0 then update_from_v1 q db else some db
  special q external v db = some db

  -- The loop of `ensureUpdatesAreApplied`; no hook is ever set.
  unfoldable pub apply_from :
      Sql D → Kind → ℕ → List (Db D → Option (Db D)) → Db D → Result Error (Db D)
  unfolding or_fail special
  apply_from q k v [] db = ok db
  apply_from q k v (u ∷ us) db = do
    updated ← or_fail (failed_update v) (u db)
    fixed ← or_fail (failed_special v) (special q k v updated)
    counted ← or_fail (failed_insert (v + 1)) (insert_version k (v + 1) fixed)
    apply_from q k (v + 1) us counted

  -- `ensureUpdatesAreApplied`
  unfoldable pub ensure_applied :
      Sql D → Kind → ℕ → List (Db D → Option (Db D)) → Db D → Result Error (Db D)
  ensure_applied q k v us db = do
    refuse_if (ltb (length us) v) (too_recent v)
    apply_from q k v (drop v us) db
