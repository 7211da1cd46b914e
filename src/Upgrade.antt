-- ===== src/Upgrade.antt =====
-- internal/db/update/cluster.go: the rows of the cluster members' table that a starting member reads
-- and writes while it looks for members of another version. The statements run on a database whose
-- `schemas` table has the column `type`, where `PrepareUpdateV1` gives the table that
-- `getClusterTableName` finds; what it creates on older databases is not modelled.
pub mod Check
pub mod Awaiting
pub mod Agreement
mod Tests
use microcluster.Prelude.{
  ℕ, ◌+◌, Str, codes, str_eq, Bool, true, false, not, Option, none, some, List, [], ◌∷◌, map, ◌==◌,
  Result, ok, err, ◌>>=◌, ◌>>◌, refuse_if, if◌then◌else◌,
}
use microcluster.Extensions.{Extensions}
use microcluster.Members.{Member}

-- `table` is none where the database has no cluster members' table, or more than one.
pub record Tables : Type 0 where
  pub table : Option (List Member)
  pub has_api_column : Bool

pub data Error : Type 0 where
  no_table : Error
  rows_updated : ℕ → Error
  node_behind api_behind : Error

unfoldable pub get_cluster_table : Tables → Result Error (List Member)
get_cluster_table db = elim db.table [ none ↦ err no_table | some rows ↦ ok rows ]

-- `UPDATE … WHERE name=?`: the rows after it, and the rows affected.
unfoldable pub update_where : Str → (Member → Member) → List Member → List Member × ℕ
update_where name f [] = ([], 0)
update_where name f (r ∷ rows) =
    let (rest, n) = update_where name f rows in
    if str_eq r.name name then (f r ∷ rest, n + 1) else (r ∷ rest, n)

abbrev pub with_versions : ℕ → ℕ → Member → Member
with_versions internal external r = record r {
  schema_internal = internal;
  schema_external = external;
}

abbrev pub with_extensions : Extensions → Member → Member
with_extensions e r = record r { api_extensions = e }

one_row : Tables → List Member × ℕ → Result Error Tables
one_row db (rows, n) = if n == 1 then ok (record db { table = some rows }) else err (rows_updated n)

-- `UpdateClusterMemberSchemaVersion`
unfoldable pub update_schema_version : ℕ → ℕ → Str → Tables → Result Error Tables
unfolding one_row
update_schema_version internal external name db = do
  rows ← get_cluster_table db
  one_row db (update_where name (with_versions internal external) rows)

-- `UpdateClusterMemberAPIExtensions`: without the column there is nothing to update.
unfoldable pub update_api_extensions : Extensions → Str → Tables → Result Error Tables
unfolding one_row
update_api_extensions e name db = do
  rows ← get_cluster_table db
  if not db.has_api_column then ok db else one_row db (update_where name (with_extensions e) rows)

-- `WHERE NOT role='pending'`: SQLite compares texts byte by byte.
unfoldable pub not_pending : List Member → List Member
not_pending [] = []
not_pending (r ∷ rows) =
    let rest = not_pending rows in if str_eq r.role (codes "pending") then rest else r ∷ rest

-- `GetClusterMemberSchemaVersions`
unfoldable pub get_schema_versions : Tables → Result Error (List ℕ × List ℕ)
get_schema_versions db = do
  rows ← get_cluster_table db
  let members = not_pending rows
  ok (map (λ r. r.schema_internal) members, map (λ r. r.schema_external) members)

-- `GetClusterMemberAPIExtensions`
unfoldable pub get_api_extensions : Tables → Result Error (List Extensions)
get_api_extensions db = do
  rows ← get_cluster_table db
  ok (map (λ r. r.api_extensions) (not_pending rows))
