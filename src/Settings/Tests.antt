-- ===== src/Settings/Tests.antt =====
-- internal/rest/resources/daemon.go and internal/rest/resources/certificates.go: the handlers at concrete
-- values.
use microcluster.Prelude.{
  not, ◌≡◌, refl, Str, codes, str_eq, true, false, none, some, [], ◌∷◌, ◌&&◌, ◌||◌, Assoc, lookup,
  insert, remove, has_key, cut_prefix, arith,
}
use microcluster.Config.{set_servers, write_config}
use microcluster.Endpoints.{Endpoint, network, add, up, insert_each, down_by_name, list, update_tls}
use microcluster.Servers.{Server, in_use}
use microcluster.Daemon.{
  Daemon, reload_cert, reload_other_cert, cluster_name, server_name, is_not_ready,
}
use microcluster.Daemon.Listeners.{
  server_named, set_server, update_servers, extension_servers, stop_removed, stop_changed,
  take_down, add_extension_servers, collect, is_wanted, certificate_of,
}
use microcluster.Daemon.Updating.{address_at}
use microcluster.Daemon.Samples.{test_system, test_daemon, test_server, test_resource}
use microcluster.Join.{KeyPair}
use microcluster.Settings.{
  Env, all_known, all_free, checked, all_run, run_hooks, store, put_servers, daemon_servers_put,
  CertificateEnv, contains, is_path, forward, directory_of, checked_pair, write_files, store_pair,
  certificates_put,
}
use microcluster.Settings.Addresses.{address-daemon_servers_put}
use microcluster.Settings.Certificates.{dir_of, is_own, certificates_put_lem}

-- The server listens at `b` and is asked to listen at `c`.
abbrev listening : Str → Str → Endpoint
listening address cert = record {
  kind = network;
  address = address;
  cert = cert;
  resources = test_resource (codes "v") ∷ [];
  listening = true;
}

abbrev old : Daemon
old = record test_daemon { listeners = (codes "x", listening (codes "b") []) ∷ [] }

abbrev request : Assoc Str
request = (codes "x", codes "c") ∷ []

abbrev env : Env
env = record {
  system = test_system;
  request = some request;
  members = some [];
  answers = λ host. true;
}

abbrev new : Daemon
new = record test_daemon {
  config = record { name = codes "n"; address = codes "a"; servers = request };
  config_file = some (111 ∷ 0 ∷ 98 ∷ 0 ∷ 121 ∷ 0 ∷ 100 ∷ 0 ∷ []);
  servers = test_server (codes "c") ∷ [];
  listeners = (codes "x", listening (codes "c") []) ∷ [];
}

moves : daemon_servers_put env old ≡ (new, none)
unfolding daemon_servers_put checked all_known all_free in_use put_servers store set_servers
    write_config run_hooks all_run update_servers stop_removed stop_changed extension_servers
    take_down down_by_name lookup has_key str_eq server_named set_server remove
    add_extension_servers collect is_wanted certificate_of add up insert_each insert list
moves = refl

as_set :
    (k : Str) (s : Server) (n : Endpoint)
    → server_named k old.servers ≡ some s
    → s.core_api ≡ false
    → lookup k old.listeners ≡ some n
    → (n.kind ≡ network) × (n.address ≡ s.address)
unfolding server_named lookup
as_set k s n h own l = ground arith

address-daemon_servers_put_example :
    (server_named (codes "x") new.servers ≡ some (test_server (codes "c")))
    × (address_at (lookup (codes "x") new.listeners) ≡ some (codes "c"))
unfolding server_named lookup str_eq has_key
address-daemon_servers_put_example =
    address-daemon_servers_put env old new request (codes "x") (test_server (codes "b")) (refl, tt)
      (refl, tt) as_set refl moves refl refl

-- Two servers without an address are taken for two at one address.
no_addresses : all_free (codes "a" ∷ []) ((codes "x", []) ∷ (codes "y", []) ∷ []) ≡ false
unfolding all_free in_use str_eq
no_addresses = refl

-- A certificate of its own for the server.
abbrev pair : KeyPair
pair = record { cert = codes "C"; key = codes "K"; ca = [] }

abbrev certificate_env : CertificateEnv
certificate_env = record {
  system = test_system;
  name = codes "x";
  request = some pair;
  is_notification = true;
  is_open = true;
  forwarded = none;
  is_pem = λ text. true;
  writes = λ name. true;
}

abbrev certified : Daemon
certified = record old {
  certificates_dir = (codes "x.crt", codes "C") ∷ (codes "x.key", codes "K") ∷ [];
  listeners = (codes "x", listening (codes "b") (codes "n")) ∷ [];
}

certifies : certificates_put certificate_env old ≡ (certified, none)
unfolding certificates_put checked_pair forward is_path contains cut_prefix directory_of
    extension_servers in_use store_pair write_files insert str_eq reload_cert reload_other_cert
    update_tls lookup
certifies = refl

certificates_put_lem_example :
    (asked : KeyPair) × (d₁ : Daemon) × (some pair ≡ some asked)
    × (true ≡ true)
    × (str_eq (codes "x") cluster_name
          || str_eq (codes "x") server_name && is_not_ready old.db.status
          || in_use (codes "x") (extension_servers old.servers)
        ≡ true)
    × (lookup (codes "x.crt") (dir_of (is_own (codes "x")) d₁) ≡ some asked.cert)
    × (lookup (codes "x.key") (dir_of (is_own (codes "x")) d₁) ≡ some asked.key)
    × (d₁ ≡ record old { state_dir = d₁.state_dir; certificates_dir = d₁.certificates_dir })
    × (dir_of (not (is_own (codes "x"))) d₁ ≡ dir_of (not (is_own (codes "x"))) old)
    × (reload_cert test_system (codes "x") d₁ ≡ (certified, none))
unfolding is_path contains cut_prefix
certificates_put_lem_example = certificates_put_lem certificate_env old certified certifies
