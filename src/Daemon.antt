-- ===== src/Daemon.antt =====
-- internal/daemon/daemon.go: the state of a daemon and its certificates. Its listeners are in Daemon/Listeners,
-- the starting of its API is in Daemon/Start. A loop over a map goes through its entries in some order.
pub mod Listeners
pub mod Setup
pub mod Start
pub mod Adding
pub mod Collected
pub mod Added
pub mod Named
pub mod Stopping
pub mod Updating
pub mod Serving
pub mod Untouched
pub mod Starting
pub mod Announced
pub mod Entered
pub mod Samples
mod Tests
use microcluster.Prelude.{
  ℕ, Str, codes, str_eq, Bool, true, false, not, ◌&&◌, ◌||◌, Option, none, some, List, [], ◌∷◌,
  ◌++◌, Result, ok, err, Assoc, lookup, insert, has_key, if◌then◌else◌,
}
use microcluster.Config.{Config, ConfigYaml, write_config, set_name, set_address}
use microcluster.Endpoints
use microcluster.Endpoints.{Endpoint, network, Sockets, add, down_by_name, list, update_tls}
use microcluster.Servers
use microcluster.Servers.{Resource, Server, core}
use microcluster.Members.{Member}
use microcluster.Database
use microcluster.Database.{Db, not_ready}
use microcluster.Trust
use microcluster.Trust.{Remotes}

-- `Daemon`: what its operations read and write. `config_file` is daemon.yaml; a directory is its files; a
-- certificate is its text. The rows are those of the members' table.
pub record Daemon : Type 0 where
  pub config : Config
  pub config_file : Option Str
  pub servers : List Server
  pub listeners : Assoc Endpoint
  pub state_dir : Assoc Str
  pub certificates_dir : Assoc Str
  pub server_cert : Str
  pub cluster_cert : Str
  pub remotes : Remotes
  pub db : Db
  pub rows : List Member

pub data Error : Type 0 where
  no_config config_unread bad_certificate bad_address no_key_pair initialized : Error
  not_closed not_listening not_written : Error
  not_bootstrapped not_joined not_started hook_failed : Error
  not_confirmed not_told panicked : Error
  trust : Trust.Error → Error
  invalid : Servers.Error → Error
  database : Database.Error → Error

-- What a daemon gets from the system and from packages outside the repository: listeners, the yaml library,
-- whether daemon.yaml is written, and `shared.KeyPairAndCA`, which loads or makes the key pair of a name in a
-- directory, for a subject: the certificate, and the files there then.
pub record System : Type 0 where
  pub sockets : Sockets
  pub config_yaml : ConfigYaml
  pub writes_config : Bool
  pub key_pair : Assoc Str → Str → Str → Option (Str × Assoc Str)

-- `types.ClusterCertificateName`, `types.ServerCertificateName`
abbrev pub cluster_name : Str
cluster_name = codes "cluster"

abbrev pub server_name : Str
server_name = codes "server"

-- `setConfig`, and whether it succeeds.
unfoldable pub set_config : System → Str → Str → Daemon → Daemon × Bool
set_config e name address d =
    let c = set_name name (set_address address d.config) in
    let (file, fine) = write_config e.config_yaml e.writes_config c d.config_file in
    (record d { config = c; config_file = file }, fine)

-- Whether there is a certificate of its own for a server.
abbrev pub cert_exists : Daemon → Str → Bool
cert_exists d name = has_key (name ++ codes ".crt") d.certificates_dir

abbrev takes_cluster_cert : Daemon → Server → Bool
takes_cluster_cert d s = not s.core_api && not s.dedicated_certificate && not (cert_exists d s.name)

-- The loop of `ReloadCert` over the extension servers.
unfoldable pub update_each : Daemon → Str → List Server → Assoc Endpoint → Assoc Endpoint
update_each d cert [] ls = ls
update_each d cert (s ∷ servers) ls =
    let rest = update_each d cert servers ls in
    let updated = update_each d cert servers (update_tls s.name cert ls) in
    if takes_cluster_cert d s then updated else rest

-- The end of `ReloadCert` for the certificates of the state directory.
abbrev reload_listeners : Str → Daemon → Daemon
reload_listeners cert d = record d {
  listeners = update_each d cert d.servers (update_tls core cert d.listeners);
}

abbrev pub is_not_ready : Database.Status → Bool
is_not_ready not_ready = true
is_not_ready _ = false

-- `ReloadCert` for the cluster's certificate.
unfoldable pub reload_cluster_cert : System → Daemon → Daemon × Option Error
reload_cluster_cert e d = elim (e.key_pair d.state_dir cluster_name d.config.name) [
  | none ↦ (d, some no_key_pair)
  | some (cert, files) ↦
      (reload_listeners cert (record d { state_dir = files; cluster_cert = cert }), none)
]

-- `ReloadCert` for the server's certificate.
unfoldable pub reload_server_cert : System → Daemon → Daemon × Option Error
reload_server_cert e d = elim (e.key_pair d.state_dir server_name d.config.name) [
  | none ↦ (d, some no_key_pair)
  | some (cert, files) ↦
      let d' = record d { state_dir = files } in
      if not (is_not_ready d.db.status)
      then (d', some initialized)
      else (reload_listeners cert (record d' { server_cert = cert }), none)
]

-- `ReloadCert` for another name.
unfoldable pub reload_other_cert : System → Str → Daemon → Daemon × Option Error
reload_other_cert e name d = elim (e.key_pair d.certificates_dir name d.config.name) [
  | none ↦ (d, some no_key_pair)
  | some (cert, files) ↦
      (record d { certificates_dir = files; listeners = update_tls name cert d.listeners }, none)
]

-- `ReloadCert`
unfoldable pub reload_cert : System → Str → Daemon → Daemon × Option Error
reload_cert e name d =
    if str_eq name cluster_name
    then reload_cluster_cert e d
    else if str_eq name server_name
    then reload_server_cert e d
    else reload_other_cert e name d
