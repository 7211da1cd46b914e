-- ===== src/Members.antt =====
-- cluster/cluster_members.go and cluster/cluster_members.mapper.go: the table of cluster members.
pub mod Deleting
use microcluster.Prelude.{
  ℕ, ◌+◌, Str, codes, str_eq, Bool, false, ◌||◌, Option, none, some, List, [], ◌∷◌, ◌++◌, ltb, ◌==◌,
  Result, ok, err, ◌>>=◌, if◌then◌else◌,
}
use microcluster.Extensions.{Extensions}

-- `CoreClusterMember`. A time is a number, and `time.Time{}` is 0.
pub record Member : Type 0 where
  pub id : ℕ
  pub name : Str
  pub address : Str
  pub certificate : Str
  pub schema_internal : ℕ
  pub schema_external : ℕ
  pub api_extensions : Extensions
  pub heartbeat : ℕ
  pub role : Str

-- The role of a member that is about to be added or removed.
abbrev pub pending : Str
pending = codes "PENDING"

pub data Error : Type 0 where
  not_found conflict constraint : Error
  more_than_one : Error
  rows_affected : ℕ → Error
  bad_address bad_certificate : Error

unfoldable pub with_name : Str → List Member → List Member
with_name k [] = []
with_name k (m ∷ ms) = let rest = with_name k ms in if str_eq m.name k then m ∷ rest else rest

only : List Member → Result Error Member
only [] = err not_found
only (m ∷ []) = ok m
only (m ∷ n ∷ ms) = err more_than_one

-- `GetCoreClusterMember`
unfoldable pub get_member : Str → List Member → Result Error Member
unfolding only
get_member k ms = only (with_name k ms)

-- `GetCoreClusterMemberID`
unfoldable pub member_id : Str → List Member → Option ℕ
member_id k [] = none
member_id k (m ∷ ms) = if str_eq m.name k then some m.id else member_id k ms

-- A row other than that of the given id holds the name or the certificate: the `UNIQUE` constraints.
unfoldable pub clashes : Option ℕ → Member → List Member → Bool
clashes but m [] = false
clashes but m (n ∷ ms) =
    let here = str_eq n.name m.name || str_eq n.certificate m.certificate in
    let own : Bool = elim but [ none ↦ false | some id ↦ n.id == id ] in
    (if own then false else here) || clashes but m ms

-- `CreateCoreClusterMember`; the id of `m` is the one that the database gives to the new row.
unfoldable pub create_member : Member → List Member → Result Error (List Member)
create_member m ms = elim (member_id m.name ms) [
  | some id ↦ err conflict
  | none ↦ if clashes none m ms then err constraint else ok (ms ++ m ∷ [])
]

-- `DELETE … WHERE address = ?`: the rows left, and the rows affected.
unfoldable pub delete_where : Str → List Member → List Member × ℕ
delete_where a [] = ([], 0)
delete_where a (m ∷ ms) =
    let (rest, n) = delete_where a ms in if str_eq m.address a then (rest, n + 1) else (m ∷ rest, n)

affected : List Member × ℕ → Result Error (List Member)
affected (ms, n) =
    if n == 0 then err not_found else if ltb 1 n then err (rows_affected n) else ok ms

-- `DeleteCoreClusterMember`
unfoldable pub delete_member : Str → List Member → Result Error (List Member)
unfolding affected
delete_member a ms = affected (delete_where a ms)

-- `UPDATE … WHERE id = ?`: every column but the id.
unfoldable pub update_where_id : ℕ → Member → List Member → List Member × ℕ
update_where_id id m [] = ([], 0)
update_where_id id m (r ∷ ms) =
    let (rest, n) = update_where_id id m ms in
    if r.id == id then (record m { id = r.id } ∷ rest, n + 1) else (r ∷ rest, n)

one_row : List Member × ℕ → Result Error (List Member)
one_row (ms, n) = if n == 1 then ok ms else err (rows_affected n)

-- `UpdateCoreClusterMember`
unfoldable pub update_member : Str → Member → List Member → Result Error (List Member)
unfolding one_row
update_member k m ms = elim (member_id k ms) [
  | none ↦ err not_found
  | some id ↦ if clashes (some id) m ms then err constraint else one_row (update_where_id id m ms)
]

-- `types.ClusterMember`, without the status and the secret, which the handlers fill in.
pub record ApiMember : Type 0 where
  pub name : Str
  pub address : Str
  pub certificate : Str
  pub role : Str
  pub schema_internal : ℕ
  pub schema_external : ℕ
  pub last_heartbeat : ℕ
  pub extensions : Extensions

-- The parsers of addresses and certificates: what they accept, in its one written form.
pub record Parsers : Type 0 where
  pub address : Str → Option Str
  pub certificate : Str → Option Str

-- `ToAPI`
unfoldable pub to_api : Parsers → Member → Result Error ApiMember
to_api p m = elim (p.address m.address) [
  | none ↦ err bad_address
  | some a ↦ elim (p.certificate m.certificate) [
    | none ↦ err bad_certificate
    | some c ↦ ok (record {
      name = m.name;
      address = a;
      certificate = c;
      role = m.role;
      schema_internal = m.schema_internal;
      schema_external = m.schema_external;
      last_heartbeat = m.heartbeat;
      extensions = m.api_extensions;
    })
  ]
]

-- The loop of the handlers over `ToAPI`.
unfoldable pub all_to_api : Parsers → List Member → Result Error (List ApiMember)
all_to_api p [] = ok []
all_to_api p (m ∷ ms) = do a ← to_api p m; rest ← all_to_api p ms; ok (a ∷ rest)
