-- ===== src/Upgrade/Check.antt =====
-- internal/db/db.go: the two comparisons of `waitUpgrade`, the check that runs before the schema is
-- updated, and the one that runs after it.
pub mod Verdicts
pub mod Commit
pub mod Proceed
use microcluster.Prelude.{
  ℕ, Str, Bool, true, false, ◌||◌, List, [], ◌∷◌, ltb, ◌==◌, Result, ok, err, ◌>>=◌, is_ok,
  if◌then◌else◌,
}
use microcluster.Extensions.{Extensions, is_same_version, version}
use microcluster.Upgrade.{
  Tables, Error, node_behind, api_behind, update_schema_version, update_api_extensions,
  get_schema_versions, get_api_extensions,
}

-- The loop of `checkSchemaVersion`; `behind` is its `nodeIsBehind`.
schema_loop : ℕ → Bool → List ℕ → Result Error Bool
schema_loop v behind [] = ok behind
schema_loop v behind (x ∷ versions) =
    let rest = schema_loop v (if v == x then behind else true) versions in
    if v == x then rest else if ltb x v then rest else err node_behind

unfoldable pub check_schema_version : ℕ → List ℕ → Result Error Bool
unfolding schema_loop
check_schema_version v versions = schema_loop v false versions

-- The loop of `checkAPIExtensions`. A nil slice there differs from an empty one in nothing: where the
-- current registry is empty it is the same version, and elsewhere it is shorter.
api_loop : Extensions → Bool → List Extensions → Result Error Bool
api_loop e behind [] = ok behind
api_loop e behind (x ∷ members) =
    let rest = api_loop e (if is_ok (is_same_version e x) then behind else true) members in
    if is_ok (is_same_version e x)
    then rest
    else if ltb (version x) (version e)
    then rest
    else err api_behind

unfoldable pub check_api_extensions : Extensions → List Extensions → Result Error Bool
unfolding api_loop
check_api_extensions e members = api_loop e false members

-- `wait` is `schema.ErrGracefulAbort`, after which what was written is committed.
pub data Verdict : Type 0 where
  proceed wait : Verdict
  fail : Error → Verdict

-- The end of `checkVersions`: both comparisons are made before it decides to wait.
unfoldable pub compare_versions : ℕ → ℕ → List ℕ × List ℕ → Verdict
compare_versions internal external (internals, externals) =
    elim (check_schema_version internal internals) [
      | err x ↦ fail x
      | ok behind_internal ↦ elim (check_schema_version external externals) [
        | err x ↦ fail x
        | ok behind_external ↦ if behind_internal || behind_external then wait else proceed
      ]
    ]

judge : ℕ → ℕ → Tables → Result Error (List ℕ × List ℕ) → Tables × Verdict
judge internal external db (err x) = (db, fail x)
judge internal external db (ok versions) = (db, compare_versions internal external versions)

-- An error rolls the transaction back to `before`.
settle : Tables → Tables × Verdict → Tables × Verdict
settle before (db, fail x) = (before, fail x)
settle before (db, proceed) = (db, proceed)
settle before (db, wait) = (db, wait)

announce : ℕ → ℕ → Extensions → Str → Tables → Result Error Tables
announce internal external e name db = do
  versions_set ← update_schema_version internal external name db
  update_api_extensions e name versions_set

check_in : ℕ → ℕ → Tables → Result Error Tables → Tables × Verdict
check_in internal external before (err x) = (before, fail x)
check_in internal external before (ok db) =
    settle before (judge internal external db (get_schema_versions db))

-- `checkVersions`, in its transaction.
unfoldable pub check_versions : ℕ → ℕ → Extensions → Str → Tables → Tables × Verdict
unfolding announce check_in judge settle
check_versions internal external e name db =
    check_in internal external db (announce internal external e name db)

compare_extensions : Extensions → Tables → Result Error (List Extensions) → Tables × Verdict
compare_extensions e db (err x) = (db, fail x)
compare_extensions e db (ok members) = elim (check_api_extensions e members) [
  | err x ↦ (db, fail x)
  | ok behind ↦ (db, if behind then wait else proceed)
]

extensions_in : Extensions → Tables → Result Error Tables → Tables × Verdict
extensions_in e before (err x) = (before, fail x)
extensions_in e before (ok db) = settle before (compare_extensions e db (get_api_extensions db))

-- The transaction after `Ensure`: the extensions are written again, now that the column is there.
unfoldable pub check_extensions : Extensions → Str → Tables → Tables × Verdict
unfolding extensions_in compare_extensions settle
check_extensions e name db = extensions_in e db (update_api_extensions e name db)
