-- ===== src/Heartbeat.antt =====
-- internal/rest/resources/heartbeat.go: `heartbeatPost` and `beginHeartbeat`, by which the leader tells the
-- members who they are and records when it reached each of them.
pub mod Round
pub mod Sent
mod Tests
use microcluster.Prelude.{
  ℕ, suc, ◌+◌, Str, str_eq, Bool, true, false, not, ◌&&◌, ◌||◌, Option, none, some, List, [], ◌∷◌,
  map, ltb, ◌==◌, Result, ok, err, ◌>>=◌, Assoc, lookup, insert, if◌then◌else◌,
}
use microcluster.Members
use microcluster.Members.{
  Member, ApiMember, Parsers, pending, all_to_api, get_member, update_member,
}
use microcluster.Tokens
use microcluster.Tokens.{Token, delete_expired}
use microcluster.Trust
use microcluster.Trust.{Remote, Remotes, Yaml}
use microcluster.Trust.Replace.{replace}
use microcluster.Upgrade.Awaiting.{order_by_name}

-- `internalTypes.HeartbeatInfo`; both maps are by address.
pub record Info : Type 0 where
  pub begin_round : Bool
  pub max_internal : ℕ
  pub max_external : ℕ
  pub members : Assoc ApiMember
  pub leader : Str
  pub roles : Assoc Str

pub record State : Type 0 where
  pub name : Str
  pub address : Str
  pub is_open : Bool
  pub members : List Member
  pub tokens : List Token
  pub remotes : Remotes

pub data Error : Type 0 where
  not_open not_leader not_updated no_peers hook_failed : Error
  table : Members.Error → Error
  trust : Trust.Error → Error
  token : Tokens.Error → Error

-- The clock, the interval between heartbeats, the addresses that the leader has clients for, when each
-- answered the heartbeat that it was sent, and whether the update and the hook succeed.
pub record Env : Type 0 where
  pub now : ℕ
  pub interval : ℕ
  pub peers : Option (List Str)
  pub answered : Info → Str → Option ℕ
  pub ended : ℕ
  pub updates : Bool
  pub hook : Bool

abbrev pub remote_of : ApiMember → Remote
remote_of m = record { name = m.name; address = m.address; certificate = some m.certificate }

-- The trust store takes the members for its remotes.
unfoldable pub trust_members : Yaml → List ApiMember → State → State × Option Error
trust_members y members s =
    let (remotes, e) = replace y s.remotes (map remote_of members) in
    (record s { remotes = remotes }, elim e [ none ↦ none | some x ↦ some (trust x) ])

abbrev values : {A : Type 0} → Assoc A → List A
values [] = []
values ((k, v) ∷ m) = v ∷ values m

-- The versions of the member's own row against the greatest ones.
unfoldable pub check_update : Env → Info → State → Option Error
check_update e info s = elim (get_member s.name s.members) [
  | err x ↦ some (table x)
  | ok m ↦
      let same = m.schema_internal == info.max_internal && m.schema_external == info.max_external in
      if same then none else if e.updates then none else some not_updated
]

-- `heartbeatPost` of a member that is told.
unfoldable pub receive : Yaml → Env → Info → State → State × Option Error
receive y e info s =
    if not s.is_open
    then (s, some not_open)
    else (let (told, failed) = trust_members y (values info.members) s in
        elim failed [ some x ↦ (told, some x) | none ↦ (told, check_update e info told) ])

-- The members with the roles of dqlite, by address; one that is pending and not in dqlite is left out.
unfoldable pub cluster_map : Assoc Str → Assoc ApiMember → List ApiMember → Assoc ApiMember
cluster_map roles found [] = found
cluster_map roles found (m ∷ members) = elim (lookup m.address roles) [
  | some role ↦ cluster_map roles (insert m.address (record m { role = role }) found) members
  | none ↦
      if str_eq m.role pending
      then cluster_map roles found members
      else cluster_map roles (insert m.address (record m { role = [] }) found) members
]

-- A map that does not have the key gives the zero value.
zero_member : ApiMember
zero_member = record {
  name = [];
  address = [];
  certificate = [];
  role = [];
  schema_internal = 0;
  schema_external = 0;
  last_heartbeat = 0;
  extensions = [];
}

unfoldable pub entry : Str → Assoc ApiMember → ApiMember
unfolding zero_member
entry a m = elim (lookup a m) [ none ↦ zero_member | some x ↦ x ]

-- `time.Since(last) < interval`
abbrev pub is_recent : Env → ApiMember → Bool
is_recent e m = ltb e.now (m.last_heartbeat + e.interval)

unfoldable pub max_internal : ℕ → List ApiMember → ℕ
max_internal v [] = v
max_internal v (m ∷ members) =
    max_internal (if ltb v m.schema_internal then m.schema_internal else v) members

unfoldable pub max_external : ℕ → List ApiMember → ℕ
max_external v [] = v
max_external v (m ∷ members) =
    max_external (if ltb v m.schema_external then m.schema_external else v) members

-- What the leader sends to a member: the members of the table, and the map of by then.
abbrev pub sent_info : List ApiMember → Assoc ApiMember → Info
sent_info members told = record {
  begin_round = false;
  max_internal = max_internal 0 members;
  max_external = max_external 0 members;
  members = told;
  leader = [];
  roles = [];
}

-- The heartbeats that are sent, in the order in which they are answered. Each changes the entry of its own
-- address only.
unfoldable pub send_all : Env → List ApiMember → List Str → Assoc ApiMember → Assoc ApiMember
send_all e members [] told = told
send_all e members (a ∷ peers) told =
    let skipped = send_all e members peers told in
    elim (lookup a told) [
      | none ↦ skipped
      | some m ↦ if is_recent e m then skipped else (elim (e.answered (sent_info members told) a) [
        | none ↦ skipped
        | some time ↦ send_all e members peers (insert a (record m { last_heartbeat = time }) told)
      ])
    ]

-- The rows of the members that are in the map, one after the other.
unfoldable pub write_rows :
    Assoc ApiMember → List Member → List Member → Result Members.Error (List Member)
write_rows told [] rows = ok rows
write_rows told (m ∷ read) rows = elim (lookup m.address told) [
  | none ↦ write_rows told read rows
  | some x ↦ do
    written ← update_member m.name (record m { heartbeat = x.last_heartbeat; role = x.role }) rows
    write_rows told read written
]

-- The transaction that ends a round, and the hook.
unfoldable pub finish_round : Env → Assoc ApiMember → State → State × Option Error
finish_round e told s = elim (write_rows told (order_by_name s.members) s.members) [
  | err x ↦ (s, some (table x))
  | ok members ↦ elim (delete_expired e.ended s.tokens) [
    | err x ↦ (s, some (token x))
    | ok tokens ↦
        (record s { members = members; tokens = tokens }, if e.hook then none else some hook_failed)
  ]
]

-- A round that is not skipped.
unfoldable pub run_round :
    Yaml → Env → List ApiMember → Assoc ApiMember → State → State × Option Error
run_round y e members found s =
    let (told, failed) = trust_members y members s in
    let marked =
      insert s.address (record (entry s.address found) { last_heartbeat = e.now }) found in
    elim failed [
      | some x ↦ (told, some x)
      | none ↦ elim e.peers [
        | none ↦ (told, some no_peers)
        | some peers ↦ finish_round e (send_all e members peers marked) told
      ]
    ]

abbrev is_empty : {A : Type 0} → List A → Bool
is_empty [] = true
is_empty (x ∷ xs) = false

-- `beginHeartbeat`
unfoldable pub begin_heartbeat : Yaml → Parsers → Env → Info → State → State × Option Error
begin_heartbeat y p e info s =
    if not (str_eq s.address info.leader)
    then (s, some not_leader)
    else (elim (all_to_api p (order_by_name s.members)) [
      | err x ↦ (s, some (table x))
      | ok members ↦
          let found = cluster_map info.roles [] members in
          if is_empty members || is_empty info.roles
          then (s, none)
          else if is_recent e (entry s.address found)
          then (s, none)
          else run_round y e members found s
    ])

-- `heartbeatPost`
unfoldable pub heartbeat_post : Yaml → Parsers → Env → Info → State → State × Option Error
heartbeat_post y p e info s =
    if info.begin_round then begin_heartbeat y p e info s else receive y e info s
