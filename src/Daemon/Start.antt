-- ===== src/Daemon/Start.antt =====
-- internal/daemon/daemon.go: `StartAPI`, and what runs it when a daemon starts.
use microcluster.Prelude.{
  Str, str_eq, Bool, true, false, not, ◌&&◌, ◌||◌, Option, none, some, List, [], ◌∷◌, Result, ok,
  err, Assoc, if◌then◌else◌,
}
use microcluster.Config.{parse_addr_port, load_config}
use microcluster.Members.{Member, pending}
use microcluster.Database
use microcluster.Database.{Own, Round, Db, bootstrap}
use microcluster.Trust.{Remote, load}
use microcluster.Join.{remote_by_address}
use microcluster.Issue.{addresses}
use microcluster.Daemon.{
  Daemon, Error, no_config, config_unread, bad_certificate, bad_address, not_started, not_confirmed,
  not_told, panicked, trust, database,
}
use microcluster.Daemon.Setup.{
  Reply, done, unavailable, refused, Startup, Step, and_then, hook, set_up,
}

abbrev pub text_of : Option Str → Str
text_of none = []
text_of (some c) = c

-- `clusterMember`; `Bootstrap` sets the extensions.
unfoldable pub first_member : Startup → Remote → Member
first_member e local = record {
  id = e.next_id;
  name = local.name;
  address = local.address;
  certificate = text_of local.certificate;
  schema_internal = e.own.internal;
  schema_external = e.own.external;
  api_extensions = [];
  heartbeat = 0;
  role = pending;
}

unfoldable pub open_first : Startup → Remote → Step
open_first e local d =
    let (db, rows, failed) =
      bootstrap (e.creates []) e.own.extensions e.round (first_member e local) d.rows d.db in
    (record d { db = db; rows = rows }, elim failed [ none ↦ none | some x ↦ some (database x) ])

-- `Refresh`
unfoldable pub refresh : Startup → Step
refresh e d =
    let (remotes, failed) = load e.yaml d.remotes in
    (record d { remotes = remotes }, elim failed [ none ↦ none | some x ↦ some (trust x) ])

-- The rest of `StartAPI` for the first member.
unfoldable pub found_cluster : Startup → Remote → Step
found_cluster e local = and_then (open_first e local) (and_then (refresh e) (hook e.post_bootstrap))

-- `Addresses`, by the members' names; only the texts are read.
abbrev pub texts : Assoc Str → List Str
texts [] = []
texts ((k, a) ∷ m) = a ∷ texts m

unfoldable pub all_clients : Startup → List Str → Bool
all_clients e [] = true
all_clients e (a ∷ hosts) = e.new_client a && all_clients e hosts

-- Whether some other member confirms the new one; they are asked in some order, at once.
unfoldable pub is_confirmed : Startup → Str → List Str → Bool
is_confirmed e own [] = false
is_confirmed e own (a ∷ hosts) = (not (str_eq own a) && e.confirms a) || is_confirmed e own hosts

-- A member that is unavailable, as while it joins itself, is skipped.
is_fine : Reply → Bool
is_fine done = true
is_fine unavailable = true
is_fine refused = false

-- Whether the notification of a member ends without an error: its request is made, and where this one joins, the
-- member is among the remotes and does not refuse to run its hook.
unfoldable pub is_told : Startup → Bool → Daemon → Str → Bool
unfolding is_fine
is_told e joining d a =
    e.sends a
    && (not joining || (elim (parse_addr_port e.system.config_yaml.addresses a) [
      | none ↦ false
      | some host ↦ elim (remote_by_address host d.remotes.content) [
        | none ↦ false
        | some r ↦ is_fine (e.replies a)
      ]
    ]))

-- Whether the notifications of the other members end without an error.
unfoldable pub all_told : Startup → Bool → Daemon → List Str → Bool
all_told e joining d [] = true
all_told e joining d (a ∷ hosts) =
    (str_eq d.config.address a || is_told e joining d a) && all_told e joining d hosts

-- `Join` and `StartWithCluster` of the database, with the addresses that dqlite is given; none where it is
-- still trying.
unfoldable pub join_database : Startup → List Str → Daemon → Option (Daemon × Option Error)
join_database e hosts d = elim (Database.join (e.creates hosts) (e.rounds hosts) d.db) [
  | none ↦ none
  | some (db, none) ↦ some (record d { db = db }, none)
  | some (db, some x) ↦ some (record d { db = db }, some (database x))
]

-- `Cluster` of the trust store, which panics where there are no remotes: it makes a slice of the capacity
-- `r.Count() - 1`.
unfoldable pub cluster_clients : Startup → List Str → Option Error
cluster_clients e [] = some panicked
cluster_clients e (a ∷ hosts) = if all_clients e (a ∷ hosts) then none else some not_started

-- The clients of the other members.
unfoldable pub make_clients : Startup → Step
make_clients e d = (
  d,
  elim (e.public_key d.cluster_cert) [
    | none ↦ some bad_certificate
    | some key ↦ cluster_clients e (texts (addresses d.remotes.content []))
  ],
)

unfoldable pub confirm : Startup → List Str → Step
confirm e hosts d = (d, if is_confirmed e d.config.address hosts then none else some not_confirmed)

unfoldable pub tell : Startup → Bool → List Str → Step
tell e joining hosts d = (d, if all_told e joining d hosts then none else some not_told)

-- The clients are those of the members that the store has by then.
unfoldable pub with_hosts : (List Str → Step) → Step
with_hosts f d = f (texts (addresses d.remotes.content [])) d

-- The rest of `StartAPI` once the database is open.
unfoldable pub announce : Startup → Bool → Step
announce e true = and_then (refresh e) (
    and_then (make_clients e) (
      and_then (hook e.pre_join) (
        and_then (with_hosts (confirm e))
          (and_then (with_hosts (tell e true)) (hook e.post_join)))))
announce e false = and_then (refresh e) (and_then (make_clients e) (with_hosts (tell e false)))

abbrev pub is_joining : List Str → Bool
is_joining [] = false
is_joining (a ∷ hosts) = true

-- The addresses that dqlite is given.
unfoldable pub hosts_for : List Str → Daemon → List Str
hosts_for [] d = texts (addresses d.remotes.content [])
hosts_for (a ∷ hosts) d = a ∷ hosts

unfoldable pub enter_cluster : Startup → List Str → Daemon → Option (Daemon × Option Error)
enter_cluster e hosts d = elim (join_database e (hosts_for hosts d) d) [
  | none ↦ none
  | some (d', some x) ↦ some (d', some x)
  | some (d', none) ↦ some (announce e (is_joining hosts) d')
]

-- `StartAPI` from the local node on; none where the database is still trying to join.
unfoldable pub start_node :
    Startup → Bool → List Str → Remote → Daemon → Option (Daemon × Option Error)
start_node e boot hosts local d =
    let (d', stopped) = set_up e boot local d in
    let entered = enter_cluster e hosts d' in
    elim stopped [
      | some x ↦ some (d', some x)
      | none ↦ if boot then some (found_cluster e local d') else entered
    ]

-- The checks of `StartAPI`, and the local node.
unfoldable pub local_node : Startup → Daemon → Result Error Remote
local_node e d =
    if str_eq d.config.address [] || str_eq d.config.name []
    then err no_config
    else (elim (e.public_key d.server_cert) [
      | none ↦ err bad_certificate
      | some cert ↦ elim (parse_addr_port e.system.config_yaml.addresses d.config.address) [
        | none ↦ err bad_address
        | some host ↦ ok (record { name = d.config.name; address = host; certificate = some cert })
      ]
    ])

-- `StartAPI`
unfoldable pub start_api : Startup → Bool → List Str → Daemon → Option (Daemon × Option Error)
start_api e boot hosts d = elim (local_node e d) [
  | err x ↦ some (d, some x)
  | ok local ↦ start_node e boot hosts local d
]

-- `reloadIfBootstrapped`; a file that is not read for another reason is not modelled.
unfoldable pub reload_if_bootstrapped : Startup → Daemon → Option (Daemon × Option Error)
reload_if_bootstrapped e d = if not e.has_info then some (d, none) else (elim d.config_file [
  | none ↦ some (d, none)
  | some text ↦
      let (c, fine) = load_config e.system.config_yaml (some text) d.config in
      let started = start_api e false [] (record d { config = c }) in
      if fine then started else some (d, some config_unread)
])
