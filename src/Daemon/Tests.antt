-- ===== src/Daemon/Tests.antt =====
-- internal/daemon/daemon.go: a daemon at concrete values.
use microcluster.Prelude.{
  arith, ◌≡◌, ◌≢◌, ◌⊎◌, refl, codes, true, false, none, some, [], ◌∷◌, ok, Option, Str, lookup,
  insert, remove, has_key, str_eq, split, Elem, All,
}
use microcluster.Daemon.{Daemon, Error, reload_cert, reload_cluster_cert, update_each}
use microcluster.Daemon.Listeners.{
  server_named, set_server, update_servers, extension_servers, stop_removed, stop_changed,
  take_down, add_extension_servers, collect, is_wanted, certificate_of, add_core_servers,
  core_resources, new_network,
}
use microcluster.Endpoints.{
  Endpoint, network, add, up, insert_each, down_by_name, list, down, update_tls,
}
use microcluster.Trust
use microcluster.Trust.{Remote, add_one, has_suffix, load}
use microcluster.Trust.Samples.{test_yaml, empty_store, take}
use microcluster.Config.{Config, new_config, can_read, parse_addr_port, load_config}
use microcluster.Config.Samples.{write_pairs, test_config_yaml}
use microcluster.Database
use microcluster.Database.{ready, bootstrap, is_abort, join_loop, open_db, transaction}
use microcluster.Servers.{
  Server, validate_endpoints, check_servers, in_use, check_resources, check_paths, has_pair,
  base_paths, first_path_element, paths_of,
}
use microcluster.Members.{clashes, create_member, member_id, get_member, Member, pending}
use microcluster.Issue.{addresses}
use microcluster.Join.{remote_by_address}
use microcluster.Daemon.Samples.{test_system, test_startup, test_daemon, test_server, test_resource}
use microcluster.Daemon.Setup.{
  set_up, and_then, trust_local, validate, close_network, serve_core, serve_extensions,
}
use microcluster.Daemon.Start.{
  start_api, start_node, local_node, found_cluster, open_first, refresh, enter_cluster,
  join_database, announce, make_clients, cluster_clients, all_clients, confirm, is_confirmed, tell,
  all_told, is_told, with_hosts, hosts_for, texts, first_member, reload_if_bootstrapped,
}
use microcluster.Daemon.Added.{SameButListeners, add_extension_servers_lem}
use microcluster.Daemon.Collected.{wanted_server, bare}
use microcluster.Daemon.Updating.{update_servers_keeps}
use microcluster.Daemon.Serving.{CoreServes, EachServes, Kept}
use microcluster.Daemon.Starting.{start_api_serves}
use microcluster.Daemon.Entered.{start_api_joins, start_api_founds, reload_keeps_servers}
use microcluster.Daemon.Announced.{Told}

-- The server is configured at another address, and has its listener at the first.
abbrev moved_daemon : Daemon
moved_daemon = record test_daemon {
  config = record { name = codes "n"; address = codes "a"; servers = (codes "x", codes "c") ∷ [] };
  listeners = (codes "x", record (new_network (codes "b") [] []) { listening = true }) ∷ [];
}

updated :
    (update_servers test_system moved_daemon).0.listeners
    ≡ (
      codes "x",
      record (new_network (codes "c") [] (test_resource (codes "v") ∷ [])) { listening = true },
    )
      ∷ []
unfolding update_servers stop_removed stop_changed extension_servers take_down down_by_name lookup
    has_key str_eq server_named set_server remove add_extension_servers collect is_wanted
    certificate_of add up insert_each insert list
updated = refl

abbrev some_error : Option Error
some_error = none

abbrev ended : Option (Daemon × Option Error) → Daemon
ended none = test_daemon
ended (some p) = p.0

-- As the first member of a cluster.
abbrev founded : Daemon
founded = ended (start_api test_startup true [] test_daemon)

founds : start_api test_startup true [] test_daemon ≡ some (founded, none)
unfolding start_api start_node local_node set_up and_then str_eq parse_addr_port trust_local
    Trust.add add_one has_key lookup reload_cert reload_cluster_cert validate validate_endpoints
    check_servers in_use check_resources check_paths has_pair base_paths close_network serve_core
    serve_extensions cluster_clients all_clients all_told announce confirm enter_cluster
    first_member found_cluster hosts_for is_confirmed is_told join_database make_clients open_first
    refresh tell with_hosts add_core_servers add_extension_servers certificate_of collect
    core_resources is_wanted update_each bootstrap is_abort Database.join join_loop open_db
    transaction add down down_by_name insert_each list up update_tls addresses remote_by_address
    clashes create_member member_id insert remove split first_path_element paths_of has_suffix load
founds = refl

start_api_founds_example :
    (m : Member) × (founded.db.status ≡ ready)
    × (get_member (codes "n") founded.rows ≡ ok m)
    × (parse_addr_port test_config_yaml.addresses (codes "a") ≡ some m.address)
    × (test_startup.public_key (codes "server") ≡ some m.certificate)
    × ((m.schema_internal ≡ test_startup.own.internal)
        × (m.schema_external ≡ test_startup.own.external))
    × (m.api_extensions ≡ [])
    × (m.role ≡ pending)
start_api_founds_example = start_api_founds test_startup [] test_daemon founded founds

start_api_serves_example :
    ((some_error ≢ none) × (founded.db ≡ test_daemon.db) × (founded.rows ≡ test_daemon.rows))
    ⊎ (CoreServes test_startup founded × EachServes founded × Kept test_daemon founded)
unfolding server_named str_eq
start_api_serves_example =
    start_api_serves test_startup true [] test_daemon founded none (refl, tt) refl founds

-- As a member that joins by the member at `b`, which is in its trust store.
abbrev known : Daemon
known = record test_daemon {
  remotes =
      (Trust.add test_yaml empty_store
        (record { name = codes "m"; address = codes "h"; certificate = some (codes "c") } ∷ [])).0;
}

abbrev joined : Daemon
joined = ended (start_api test_startup false (codes "h" ∷ []) known)

joins : start_api test_startup false (codes "h" ∷ []) known ≡ some (joined, none)
unfolding start_api start_node local_node set_up and_then str_eq parse_addr_port trust_local
    Trust.add add_one has_key lookup reload_cert reload_cluster_cert validate validate_endpoints
    check_servers in_use check_resources check_paths has_pair base_paths close_network serve_core
    serve_extensions cluster_clients all_clients all_told announce confirm enter_cluster
    first_member found_cluster hosts_for is_confirmed is_told join_database make_clients open_first
    refresh tell with_hosts add_core_servers add_extension_servers certificate_of collect
    core_resources is_wanted update_each bootstrap is_abort Database.join join_loop open_db
    transaction add down down_by_name insert_each list up update_tls addresses remote_by_address
    clashes create_member member_id insert remove split first_path_element paths_of has_suffix load
    take
joins = refl

start_api_joins_example :
    (joined.db.status ≡ ready)
    × ((x : Str) × Elem x (texts (addresses joined.remotes.content []))
        × (str_eq joined.config.address x ≡ false)
        × (test_startup.confirms x ≡ true))
    × All (Told test_startup joined) (texts (addresses joined.remotes.content []))
start_api_joins_example = start_api_joins test_startup (codes "h") [] known joined joins

-- As a member that starts again, with an address for its server in the configuration.
abbrev configured : Config
configured = record { name = codes "n"; address = codes "a"; servers = (codes "x", codes "c") ∷ [] }

abbrev text : Str
text = write_pairs ((codes "n", codes "a") ∷ (codes "x", codes "c") ∷ [])

abbrev written : Daemon
written = record known { config_file = some text; config = new_config }

abbrev again : Daemon
again = ended (reload_if_bootstrapped test_startup written)

reloads : reload_if_bootstrapped test_startup written ≡ some (again, none)
unfolding start_api start_node local_node set_up and_then str_eq parse_addr_port trust_local
    Trust.add add_one has_key lookup reload_cert reload_cluster_cert validate validate_endpoints
    check_servers in_use check_resources check_paths has_pair base_paths close_network serve_core
    serve_extensions cluster_clients all_clients all_told announce confirm enter_cluster
    first_member found_cluster hosts_for is_confirmed is_told join_database make_clients open_first
    refresh tell with_hosts add_core_servers add_extension_servers certificate_of collect
    core_resources is_wanted update_each bootstrap is_abort Database.join join_loop open_db
    transaction add down down_by_name insert_each list up update_tls addresses remote_by_address
    clashes create_member member_id insert remove split first_path_element paths_of has_suffix load
    take reload_if_bootstrapped load_config can_read
reloads = refl

reload_keeps_servers_example :
    (load_config test_startup.system.config_yaml (some text) new_config ≡ (again.config, true))
    × (again.servers ≡ written.servers)
    × EachServes again
unfolding server_named str_eq
reload_keeps_servers_example =
    reload_keeps_servers test_startup written again text (refl, tt) refl refl refl reloads

abbrev network_listener : Endpoint
network_listener = record (new_network (codes "b") [] []) { listening = true }

as_set :
    (k : Str) (s : Server) (n : Endpoint)
    → server_named k moved_daemon.servers ≡ some s
    → s.core_api ≡ false
    → lookup k moved_daemon.listeners ≡ some n
    → (n.kind ≡ network) × (n.address ≡ s.address)
unfolding server_named lookup
as_set k s n h own l = ground arith

-- The server is configured as it is.
abbrev settled : Daemon
settled = record moved_daemon {
  config = record { name = codes "n"; address = codes "a"; servers = (codes "x", codes "b") ∷ [] };
}

update_servers_keeps_example :
    lookup (codes "x") (update_servers test_system settled).0.listeners ≡ some network_listener
unfolding update_servers stop_removed stop_changed extension_servers take_down down_by_name lookup
    has_key str_eq server_named set_server remove add_extension_servers collect is_wanted
    certificate_of add up insert_each insert list
update_servers_keeps_example =
    update_servers_keeps test_system settled (codes "x") (test_server (codes "b")) network_listener
      (refl, tt) (refl, tt) as_set refl refl refl refl refl

abbrev started : Daemon
started = (add_extension_servers test_system false (codes "k") (codes "a") test_daemon).0

add_extension_servers_lem_example :
    (((s : Server) × (wanted_server false (codes "a") [] (codes "x") test_daemon.servers ≡ some s)
        × (bare (lookup (codes "x") started.listeners)
            ≡ some (record (new_network s.address [] s.resources) { listening = true })))
      ⊎ ((wanted_server false (codes "a") [] (codes "x") test_daemon.servers ≡ none)
          × (lookup (codes "x") started.listeners ≡ none)))
    × SameButListeners test_daemon started
    × (add_extension_servers test_system false (codes "k") (codes "a") started ≡ (started, none))
unfolding add_extension_servers collect is_wanted certificate_of add up insert_each insert list
    str_eq has_key lookup
add_extension_servers_lem_example =
    add_extension_servers_lem test_system false (codes "k") (codes "a") test_daemon (codes "x") refl
