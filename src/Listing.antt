-- ===== src/Listing.antt =====
-- internal/rest/resources/cluster.go: `clusterGet`, which lists the members with their status.
pub mod Statuses
mod Tests
use microcluster.Prelude.{
  ℕ, Str, Bool, true, false, not, Option, none, some, List, [], ◌∷◌, Result, ok, err, ◌>>=◌, ◌>>◌,
  refuse_if, Assoc, lookup, if◌then◌else◌,
}
use microcluster.Members
use microcluster.Members.{Member, ApiMember, Parsers, to_api, all_to_api}
use microcluster.Upgrade
use microcluster.Upgrade.{Tables, get_cluster_table}
use microcluster.Upgrade.Awaiting.{order_by_name, get_upgrading}
use microcluster.Database.{Status, not_ready, offline, starting, waiting, ready, Own}

-- `types.MemberStatus`, as far as the handler gives it.
pub data MemberStatus : Type 0 where
  online unreachable upgrading needs_upgrade : MemberStatus

pub record Listed : Type 0 where
  pub member : ApiMember
  pub status : MemberStatus

pub data Error : Type 0 where
  unavailable : Status → Error
  table : Members.Error → Error
  upgrade : Upgrade.Error → Error
  no_certificate no_client : Error

-- Whether the certificate of the cluster can be read, a client can be made, and a member is ready.
pub record Env : Type 0 where
  pub has_certificate : Bool
  pub makes_client : Str → Bool
  pub is_ready : Str → Bool

-- A map that does not have the key gives false.
marked : Str → Assoc Bool → Bool
marked name marks = elim (lookup name marks) [ none ↦ false | some b ↦ b ]

-- `ToAPI`, as the transaction returns its errors.
unfoldable pub listed : Parsers → Member → Result Error ApiMember
listed p m = elim (to_api p m) [ err x ↦ err (table x) | ok a ↦ ok a ]

unfoldable pub list_waiting : Parsers → Assoc Bool → List Member → Result Error (List Listed)
unfolding marked
list_waiting p marks [] = ok []
list_waiting p marks (m ∷ members) = do
  a ← listed p m
  rest ← list_waiting p marks members
  ok (
      record { member = a; status = if marked a.name marks then needs_upgrade else upgrading }
      ∷ rest)

unfoldable pub list_ready : Parsers → List Member → Result Error (List ApiMember)
list_ready p [] = ok []
list_ready p (m ∷ members) = do a ← listed p m; rest ← list_ready p members; ok (a ∷ rest)

-- The requests to the members.
unfoldable pub check_ready : Env → List ApiMember → Result Error (List Listed)
check_ready e [] = ok []
check_ready e (a ∷ members) = do
  refuse_if (not (e.makes_client a.address)) no_client
  rest ← check_ready e members
  ok (record { member = a; status = if e.is_ready a.address then online else unreachable } ∷ rest)

unfoldable pub get_ready : Parsers → Env → Tables → Result Error (List Listed)
get_ready p e t = elim (get_cluster_table t) [
  | err x ↦ err (upgrade x)
  | ok rows ↦ do
    members ← list_ready p (order_by_name rows)
    refuse_if (not e.has_certificate) no_certificate
    check_ready e members
]

unfoldable pub get_waiting : Parsers → Own → Tables → Result Error (List Listed)
get_waiting p o t = elim (get_upgrading o.internal o.external o.extensions t) [
  | err x ↦ err (upgrade x)
  | ok (members, marks) ↦ list_waiting p marks members
]

-- `clusterGet`
unfoldable pub cluster_get : Parsers → Env → Own → Status → Tables → Result Error (List Listed)
cluster_get p e o status t = elim status [
  | ready ↦ get_ready p e t
  | waiting ↦ get_waiting p o t
  | not_ready ↦ err (unavailable not_ready)
  | offline ↦ err (unavailable offline)
  | starting ↦ err (unavailable starting)
]
