-- ===== src/Schema/Tests.antt =====
-- Runs of internal/db/update/schema.go on tables that are the list of the updates that were run, and the
-- theorems about it there.
use microcluster.Prelude.{
  ℕ, ◌≡◌, refl, true, false, Option, none, some, List, [], ◌∷◌, ◌++◌, map, ok, err, arith,
}
use microcluster.Schema.{
  internal, external, missing, untyped, typed, Db, failed_update, max_of, of_kind, has_row,
  first_rows, later_rows, Sql, lift, update_from_v0, update_from_v1, internal_updates,
  insert_version, apply_from, ensure_applied,
}
use microcluster.Schema.Apply.{new_rows, run_all, recorded, apply_from-map-lift}
use microcluster.Schema.Ensure.{
  Schema, Conn, Checked, wait, done, aborted, versions, is_untyped, exec_from_file,
  set_foreign_keys, internal_stage, external_stage, ensure,
}
use microcluster.Schema.Ensure.Rows.{HasRows}
use microcluster.Schema.Ensure.Current.{current_rows, ensure_current}
use microcluster.Schema.Ensure.Checks.{ensure_waits}

abbrev log : ℕ → List ℕ → Option (List ℕ)
log n l = some (l ++ n ∷ [])

abbrev breaks : List ℕ → Option (List ℕ)
breaks l = none

abbrev sql : Sql (List ℕ)
sql = record { v0 = log 0; v1 = log 1; v2 = log 2; v3 = log 3; v4 = log 4; v5 = log 5 }

abbrev schema_with :
    List (List ℕ → Option (List ℕ)) → Option (List ℕ → Checked (List ℕ)) → Schema (List ℕ)
schema_with updates check = record { sql = sql; external = updates; fresh = none; check = check }

abbrev conn_at : Db (List ℕ) → Conn (List ℕ)
conn_at db = record { db = db; file = none; pragmas = true; foreign_keys = true }

abbrev empty : Db (List ℕ)
empty = record { schemas = missing; rest = [] }

-- The database of an old release, of internal version 1 and external version 2.
abbrev old : Db (List ℕ)
old = record { schemas = untyped (1 ∷ 2 ∷ 3 ∷ []); rest = [] }

abbrev two : List (List ℕ → Option (List ℕ))
two = log 10 ∷ log 11 ∷ []

abbrev created : Conn (List ℕ)
created = (ensure (schema_with two none) (conn_at empty)).0

created_runs :
    (ensure (schema_with two none) (conn_at empty) ≡ (created, done))
    × (created.db.rest ≡ 0 ∷ 1 ∷ 2 ∷ 3 ∷ 4 ∷ 5 ∷ 10 ∷ 11 ∷ [])
unfolding ensure exec_from_file set_foreign_keys is_untyped versions internal_stage ensure_applied
    apply_from internal_updates update_from_v0 update_from_v1 lift insert_version external_stage
    max_of of_kind has_row first_rows later_rows
created_runs = (refl, refl)

abbrev three : List (List ℕ → Option (List ℕ))
three = log 10 ∷ log 11 ∷ log 12 ∷ []

old_runs : (ensure (schema_with three none) (conn_at old)).0.db.rest ≡ 1 ∷ 2 ∷ 3 ∷ 4 ∷ 5 ∷ 12 ∷ []
unfolding ensure exec_from_file set_foreign_keys is_untyped versions internal_stage ensure_applied
    apply_from internal_updates update_from_v0 update_from_v1 lift insert_version external_stage
    max_of of_kind has_row first_rows later_rows
old_runs = refl

ensure_current_example :
    (a : Conn (List ℕ)) × (exec_from_file (conn_at empty) ≡ ok a)
    × HasRows created.db 6 2 (current_rows (schema_with two none) a.db.schemas)
    × (created.file ≡ none)
    × (true ≡ true → created.foreign_keys ≡ true)
ensure_current_example =
    ensure_current (schema_with two none) (conn_at empty) created refl created_runs.0

abbrev waits : Option (List ℕ → Checked (List ℕ))
waits = some (λ l. wait (l ++ 99 ∷ []))

old_waits :
    ensure (schema_with two waits) (conn_at old)
    ≡ (conn_at (record old { rest = 99 ∷ [] }), aborted)
unfolding ensure exec_from_file set_foreign_keys is_untyped
old_waits = refl

ensure_waits_example :
    (f : List ℕ → Checked (List ℕ)) × (waits ≡ some f)
    × (f [] ≡ wait (99 ∷ []))
    × (untyped (1 ∷ 2 ∷ 3 ∷ []) ≡ untyped (1 ∷ 2 ∷ 3 ∷ []))
ensure_waits_example =
    ensure_waits (schema_with two waits) (conn_at old) (conn_at (record old { rest = 99 ∷ [] }))
      refl old_waits

abbrev with_internal : Db (List ℕ)
with_internal = record {
  schemas = typed (new_rows {A = ℕ} internal 0 (0 ∷ 1 ∷ 2 ∷ 3 ∷ 4 ∷ 5 ∷ []));
  rest = 0 ∷ 1 ∷ 2 ∷ 3 ∷ 4 ∷ 5 ∷ [];
}

internal_runs : internal_stage (schema_with (breaks ∷ []) none) empty ≡ ok (with_internal, 0, false)
unfolding internal_stage is_untyped versions ensure_applied apply_from internal_updates
    update_from_v0 update_from_v1 lift insert_version max_of of_kind has_row first_rows later_rows
internal_runs = refl

external_breaks :
    external_stage (schema_with (breaks ∷ []) none) 0 false with_internal ≡ err (failed_update 0)
unfolding external_stage ensure_applied apply_from lift
external_breaks = refl

apply_from-map-lift_example :
    apply_from sql external 0 (map lift two) (record { schemas = typed []; rest = [] })
    ≡ recorded (new_rows external 0 two) (run_all 0 two [])
unfolding max_of of_kind
apply_from-map-lift_example = apply_from-map-lift sql external 0 two [] [] (omega arith)
