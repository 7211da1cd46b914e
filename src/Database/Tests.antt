-- ===== src/Database/Tests.antt =====
-- internal/db/dqlite.go and internal/db/db.go: the life of a database, at concrete values.
use microcluster.Prelude.{
  ℕ, ◌+◌, ◌++◌, str_eq, arith, codes, ◌≡◌, ◌≢◌, ◌⊎◌, inl, inr, refl, true, false, Option, none,
  some, List, [], ◌∷◌, map, All,
}
use microcluster.Members.{Member}
use microcluster.Extensions.{is_same_version, version}
use microcluster.Upgrade.{
  Tables, not_pending, update_schema_version, get_cluster_table, update_where,
  update_api_extensions, get_schema_versions, get_api_extensions,
}
use microcluster.Upgrade.Check.{
  check_versions, compare_versions, check_schema_version, check_api_extensions, check_extensions,
}
use microcluster.Upgrade.Check.Commit.{announced}
use microcluster.Upgrade.Check.Proceed.{SameSchema, SameExtensions}
use microcluster.Schema.{
  max_of, of_kind, internal_updates, ensure_applied, apply_from, internal, external, Sql, typed,
}
use microcluster.Schema.Ensure.{
  Schema, Conn, ensure, exec_from_file, set_foreign_keys, is_untyped, versions, checked,
  internal_stage, external_stage,
}
use microcluster.Database.{
  new_db, starting, offline, ready, waiting, open_handle, no_handle, Db, Error, graceful_abort,
  Round, upgraded, must_wait, open_db, is_abort, join_loop, Own,
}
use microcluster.Database.Rounds.{join_loop_ends, join_loop_returns}
use microcluster.Database.Waiting.{lags}
use microcluster.Database.Steps.{
  System, Steps, start, IsSound, Steps-IsSound, preparing, here, next, begin, open_fresh, go_on,
}
use microcluster.Database.Refinement.{Joins, join_loop-Joins}
use microcluster.Database.Upgrading.{View, version_check, wait_upgrade, wait_upgrade_agrees}
use microcluster.Upgrade.Awaiting.Order.{count}

abbrev waits : Round
waits = record { starts = true; opens = true; upgrade = must_wait; prepares = true }

abbrev works : Round
works = record { starts = true; opens = true; upgrade = upgraded; prepares = true }

abbrev opened_db : Db
opened_db = record { status = ready; handle = open_handle; has_dqlite = false; cancelled = false }

joins : join_loop (waits ∷ works ∷ []) new_db ≡ some (opened_db, none)
unfolding join_loop open_db is_abort
joins = refl

abbrev no_error : Option Error
no_error = none

join_loop_ends_example :
    ((no_error ≡ none) × (opened_db.status ≡ ready) × (opened_db.handle ≢ no_handle))
    ⊎ ((no_error ≢ none) × (no_error ≢ some graceful_abort) × (opened_db.status ≡ offline))
join_loop_ends_example = join_loop_ends (waits ∷ works ∷ []) new_db opened_db none joins

join_loop_returns_example :
    (p : Db × Option Error) × (join_loop (waits ∷ works ∷ []) new_db ≡ some p)
join_loop_returns_example =
    join_loop_returns (waits ∷ works ∷ []) works new_db (inr (inl refl)) (λ h. ground arith)

join_loop-Joins_example : Joins none opened_db (waits ∷ works ∷ []) new_db
join_loop-Joins_example = join_loop-Joins (waits ∷ works ∷ []) new_db opened_db none joins

-- A daemon and two rows: its own, and that of a member that lags behind.
abbrev own : Own
own = record { internal = 6; external = 2; extensions = codes "a" ∷ []; address = codes "b:1" }

abbrev row : ℕ → Member
row n = record {
  id = n;
  name = n ∷ [];
  address = codes "b:" ++ (48 + n) ∷ [];
  certificate = n ∷ [];
  schema_internal = 6;
  schema_external = n;
  api_extensions = [];
  heartbeat = 0;
  role = codes "voter";
}

abbrev tables : Tables
tables = record { table = some (row 2 ∷ row 1 ∷ row 0 ∷ []); has_api_column = false }

abbrev waiting_db : Db
waiting_db = record { status = waiting; handle = open_handle; has_dqlite = true; cancelled = false }

counts_one : count (lags own false) (row 2 ∷ row 1 ∷ row 0 ∷ []) ≡ 1
unfolding count str_eq
counts_one = refl

abbrev ready_to_prepare : System
ready_to_prepare = record {
  db = record { status = starting; handle = open_handle; has_dqlite = false; cancelled = false };
  pc = preparing;
}

prepares_reached : Steps start ready_to_prepare
prepares_reached = next (next (next here (begin refl)) (open_fresh refl refl)) (go_on refl)

Steps-IsSound_example : IsSound ready_to_prepare
Steps-IsSound_example = Steps-IsSound prepares_reached

abbrev whole : View Tables
whole = record { tables = λ t. t; put = λ t d. t; tables-put = λ t d. refl }

abbrev no_sql : Sql Tables
no_sql = record { v0 = some; v1 = some; v2 = some; v3 = some; v4 = some; v5 = some }

abbrev updates : Schema Tables
updates = record { sql = no_sql; external = some ∷ some ∷ []; fresh = none; check = none }

abbrev current : Tables → Conn Tables
current t = record {
  db = record { schemas = typed ((internal, 6) ∷ (external, 2) ∷ []); rest = t };
  file = none;
  pragmas = true;
  foreign_keys = true;
}

abbrev joined : List Member → Tables
joined rows = record { table = some rows; has_api_column = true }

abbrev updated : Member
updated = record (row 2) { api_extensions = codes "a" ∷ [] }

agrees_runs :
    wait_upgrade whole own (2 ∷ []) false updates (current (joined (row 2 ∷ [])))
    ≡ (current (joined (updated ∷ [])), upgraded)
unfolding wait_upgrade ensure exec_from_file set_foreign_keys is_untyped versions checked
    version_check check_versions update_schema_version get_cluster_table update_where str_eq
    update_api_extensions get_schema_versions compare_versions check_schema_version not_pending
    max_of of_kind internal_stage external_stage internal_updates ensure_applied apply_from
    is_same_version version check_api_extensions check_extensions get_api_extensions
agrees_runs = refl

wait_upgrade_agrees_example :
    All
      (SameSchema 6 2)
      (not_pending (map (announced 6 2 (codes "a" ∷ []) true (2 ∷ [])) (row 2 ∷ [])))
    × ((left : List Member) × (some (updated ∷ []) ≡ some left)
        × SameExtensions (codes "a" ∷ []) (not_pending left))
wait_upgrade_agrees_example =
    wait_upgrade_agrees whole own (2 ∷ []) updates (current (joined (row 2 ∷ [])))
      (current (joined (updated ∷ []))) (row 2 ∷ []) refl refl agrees_runs

waits_runs :
    wait_upgrade whole own (2 ∷ []) false updates (current (joined (row 2 ∷ row 1 ∷ [])))
    ≡ (current (joined (updated ∷ row 1 ∷ [])), must_wait)
unfolding wait_upgrade ensure exec_from_file set_foreign_keys is_untyped versions checked
    version_check check_versions update_schema_version get_cluster_table update_where str_eq
    update_api_extensions get_schema_versions compare_versions check_schema_version not_pending
    max_of of_kind internal_stage external_stage internal_updates ensure_applied apply_from
    is_same_version version check_api_extensions check_extensions get_api_extensions
waits_runs = refl
