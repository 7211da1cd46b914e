-- ===== src/Truststore.antt =====
-- internal/rest/resources/truststore.go: the handlers that add an entry to the trust store and delete one,
-- here and on the other members. The requests to these are sent at once.
pub mod Entries
mod Tests
use microcluster.Prelude.{
  Str, str_eq, Bool, true, false, not, ◌&&◌, ◌||◌, Option, none, some, List, [], ◌∷◌, map, Assoc,
  lookup, remove, has_key, if◌then◌else◌,
}
use microcluster.Trust
use microcluster.Trust.{Remote, Remotes, Yaml, add}
use microcluster.Trust.Replace.{replace}

pub data Error : Type 0 where
  bad_request bad_path not_found no_cluster not_told : Error
  trust : Trust.Error → Error

-- What the handlers get from elsewhere: the decoded body, the name in the path, whether the request is a
-- notification, the addresses of the members by the leader, whether a client is made for one of them, and
-- whether it answers without an error.
pub record Env : Type 0 where
  pub own_address : Str
  pub request : Option Remote
  pub path_name : Option Str
  pub is_notification : Bool
  pub members : Option (List Str)
  pub new_client : Str → Bool
  pub answers : Str → Bool

-- `Cluster` of internal/state/state.go: the clients of the other members.
unfoldable pub cluster : Env → List Str → Option (List Str)
cluster e [] = some []
cluster e (a ∷ members) =
    let rest = cluster e members in
    if str_eq e.own_address a
    then rest
    else if e.new_client a
    then (elim rest [ none ↦ none | some hosts ↦ some (a ∷ hosts) ])
    else none

-- Whether each member but this one and the one of the entry answers.
unfoldable pub all_answer : Env → Str → List Str → Bool
all_answer e address [] = true
all_answer e address (a ∷ hosts) =
    (str_eq e.own_address a || str_eq address a || e.answers a) && all_answer e address hosts

-- The other members are told, but for a notification.
unfoldable pub tell_others : Env → Str → Option Error
tell_others e address = if e.is_notification then none else (elim e.members [
  | none ↦ some no_cluster
  | some members ↦ elim (cluster e members) [
    | none ↦ some no_cluster
    | some hosts ↦ if all_answer e address hosts then none else some not_told
  ]
])

abbrev wrapped : Remotes × Option Trust.Error → Remotes × Option Error
wrapped (s, none) = (s, none)
wrapped (s, some x) = (s, some (trust x))

-- `trustPost`: a remote that is known already is not added again.
unfoldable pub trust_post : Yaml → Env → Remotes → Remotes × Option Error
trust_post y e s = elim e.request [
  | none ↦ (s, some bad_request)
  | some r ↦ elim (tell_others e r.address) [
    | some x ↦ (s, some x)
    | none ↦ if has_key r.name s.content then (s, none) else wrapped (add y s (r ∷ []))
  ]
]

abbrev pub values : Assoc Remote → List Remote
values [] = []
values ((k, r) ∷ m) = r ∷ values m

-- `trustDelete`
unfoldable pub trust_delete : Yaml → Env → Remotes → Remotes × Option Error
trust_delete y e s = elim e.path_name [
  | none ↦ (s, some bad_path)
  | some name ↦ elim (lookup name s.content) [
    | none ↦ (s, some not_found)
    | some r ↦ elim (tell_others e r.address) [
      | some x ↦ (s, some x)
      | none ↦ wrapped (replace y s (values (remove name s.content)))
    ]
  ]
]
