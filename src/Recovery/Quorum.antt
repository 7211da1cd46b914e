-- ===== src/Recovery/Quorum.antt =====
-- internal/recover/recover.go and cluster/recover.go: `RecoverFromQuorumLoss`, by which one member of a
-- cluster without a quorum takes over with a new list of members.
pub mod Recovered
use microcluster.Prelude.{
  ℕ, suc, Str, codes, str_eq, Bool, true, false, not, ◌&&◌, ◌||◌, Option, none, some, List, [], ◌∷◌,
  ◌++◌, Result, ok, err, Assoc, if◌then◌else◌,
}
use microcluster.Trust
use microcluster.Trust.{Dir, Remotes, Yaml, load}
use microcluster.Issue.{addresses}
use microcluster.Recovery
use microcluster.Recovery.{DqliteMember, update_trust_store}
use microcluster.Recovery.Unpack.{LocalInfo, new_address}

-- `dqliteClient.NodeRole` and `dqlite.NodeInfo`
pub data NodeRole : Type 0 where
  voter stand_by spare : NodeRole

pub record NodeInfo : Type 0 where
  pub id : ℕ
  pub address : Str
  pub role : NodeRole

-- The member's files: whether its control socket is there, the trust store, the database with its info.yaml
-- and cluster.yaml, the backups, the recovery tarball, the address in daemon.yaml, and the updates of
-- patch.global.sql, as pairs of an address and a name.
pub record Node (D : Type 0) : Type 0 where
  pub has_socket : Bool
  pub trust : Dir
  pub content : D
  pub info : Option LocalInfo
  pub cluster_yaml : List NodeInfo
  pub backups : ℕ
  pub tarball : Option (List DqliteMember × D)
  pub daemon : Str
  pub patch : List (Str × Str)

pub data Error : Type 0 where
  bad_role daemon_running no_certificate no_client contacted : Error
  panicked not_backed_up not_reconfigured unread not_written no_tarball bad_address : Error
  trust : Trust.Error → Error
  update : Recovery.Error → Error

-- What the system, dqlite and the other members answer.
pub record Env (D : Type 0) : Type 0 where
  pub yaml : Yaml
  pub parse : Str → Option Str
  pub has_certificates : Bool
  pub new_client : Str → Bool
  pub is_reachable : Str → Bool
  pub backs_up : Bool
  pub reconfigure : List NodeInfo → D → Option D
  pub writes_info : Bool
  pub writes_cluster : Bool
  pub tars : Bool
  pub writes_daemon : Bool
  pub writes_patch : Bool

-- The role of a node by its text.
unfoldable pub role_of : Str → Option NodeRole
role_of r =
    if str_eq r (codes "voter")
    then some voter
    else if str_eq r (codes "stand-by")
    then some stand_by
    else if str_eq r (codes "spare")
    then some spare
    else none

-- `NodeInfo` of each member.
unfoldable pub node_infos : List DqliteMember → Option (List NodeInfo)
node_infos [] = some []
node_infos (m ∷ members) = elim (role_of m.role) [
  | none ↦ none
  | some r ↦ elim (node_infos members) [
    | none ↦ none
    | some infos ↦ some (record { id = m.id; address = m.address; role = r } ∷ infos)
  ]
]

abbrev pub texts : Assoc Str → List Str
texts [] = []
texts ((k, a) ∷ m) = a ∷ texts m

-- `Cluster` of the trust store panics where there are no remotes.
abbrev pub no_hosts : List Str → Bool
no_hosts [] = true
no_hosts (a ∷ hosts) = false

unfoldable pub any_of : (Str → Bool) → List Str → Bool
any_of p [] = false
any_of p (a ∷ hosts) = p a || any_of p hosts

-- The statements of the patch.
abbrev pub statements : List DqliteMember → List (Str × Str)
statements [] = []
statements (m ∷ members) = (m.address, m.name) ∷ statements members

module _ {D : Type 0} (e : Env D) (members : List DqliteMember) where
  -- What is checked before anything is changed: the nodes of the new list.
  unfoldable pub ready_nodes : Node D → Result Error (List NodeInfo)
  ready_nodes n = elim (node_infos members) [
    | none ↦ err bad_role
    | some infos ↦
        if n.has_socket
        then err daemon_running
        else (let (known, stopped) = load e.yaml (record { dir = n.trust; content = [] }) in
            let hosts = texts (addresses known.content []) in
            elim stopped [
              | some x ↦ err (trust x)
              | none ↦
                  if not e.has_certificates
                  then err no_certificate
                  else if no_hosts hosts
                  then err panicked
                  else if any_of (λ a. not (e.new_client a)) hosts
                  then err no_client
                  else if any_of e.is_reachable hosts
                  then err contacted
                  else ok infos
            ])
  ]

  -- `localInfo` with its new address, or with its old one where its id is not among the members.
  abbrev pub moved : LocalInfo → LocalInfo
  moved old = record {
    id = old.id;
    address = elim (new_address old.id members) [ none ↦ old.address | some a ↦ a ];
  }

  -- From the tarball on: daemon.yaml, the trust store and the patch.
  unfoldable pub finish_recovery : LocalInfo → Node D → Node D × Option Error
  finish_recovery info n = elim (e.parse info.address) [
    | none ↦ (n, some bad_address)
    | some a ↦
        if not e.writes_daemon
        then (n, some not_written)
        else (let (dir, stopped) = update_trust_store e.yaml e.parse members n.trust in
            let n₁ = record n { daemon = a; trust = dir } in
            elim stopped [
              | some x ↦ (n₁, some (update x))
              | none ↦
                  if e.writes_patch
                  then (record n₁ { patch = n.patch ++ statements members }, none)
                  else (n₁, some not_written)
            ])
  ]

  -- The node once the tarball is made.
  abbrev pub archived : List NodeInfo → LocalInfo → Node D → Node D
  archived infos info n = record n {
    info = some info;
    cluster_yaml = infos;
    tarball = some (members, n.content);
  }

  -- The files of the reconfigured database, and the tarball.
  unfoldable pub write_database : List NodeInfo → Node D → Node D × Option Error
  write_database infos n = elim n.info [
    | none ↦ (n, some unread)
    | some old ↦
        let info : LocalInfo = moved old in
        let n₁ = record n { info = some info } in
        let n₂ = record n₁ { cluster_yaml = infos } in
        if not e.writes_info
        then (n, some not_written)
        else if not e.writes_cluster
        then (n₁, some not_written)
        else if e.tars
        then finish_recovery info (archived infos info n)
        else (n₂, some no_tarball)
  ]

  -- `RecoverFromQuorumLoss`
  unfoldable pub recover : Node D → Node D × Option Error
  recover n = elim (ready_nodes n) [
    | err x ↦ (n, some x)
    | ok infos ↦
        let saved = record n { backups = suc n.backups } in
        if not e.backs_up then (n, some not_backed_up) else (elim (e.reconfigure infos n.content) [
          | none ↦ (saved, some not_reconfigured)
          | some content ↦ write_database infos (record saved { content = content })
        ])
  ]
