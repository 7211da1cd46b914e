-- ===== src/Control/Tests.antt =====
-- internal/rest/resources/control.go: a daemon that joins the cluster of another, at concrete values.
use microcluster.Prelude.{
  ◌≡◌, refl, codes, none, some, [], ◌∷◌, ok, err, Result, Str, lookup, insert, remove, has_key,
  str_eq, split, arith,
}
use microcluster.Extensions.{has_extension, is_same_version}
use microcluster.Fqdn.{validate_fqdn}
use microcluster.Members.{member_id, clashes, create_member}
use microcluster.Tokens.{with_secret, get_token, expired, delete_where, delete_token}
use microcluster.Trust
use microcluster.Trust.{Remote, Entry, file, add_one, has_suffix, load}
use microcluster.Trust.Samples.{test_yaml, take}
use microcluster.Config.{parse_addr_port, write_config, set_name, set_address}
use microcluster.Database
use microcluster.Database.{ready, open_handle, is_abort, join_loop, open_db}
use microcluster.Endpoints
use microcluster.Endpoints.{
  Endpoint, network, up, insert_each, down_by_name, list, down, update_tls,
}
use microcluster.Servers.{
  validate_endpoints, check_servers, in_use, check_resources, check_paths, has_pair, base_paths,
  first_path_element, paths_of,
}
use microcluster.Issue.{JoinToken, addresses}
use microcluster.Join
use microcluster.Join.{Response, State, remote_by_address, admit, welcome, lead, cluster_post}
use microcluster.Daemon.{
  Daemon, set_config, reload_cert, reload_cluster_cert, reload_server_cert, update_each,
}
use microcluster.Daemon.Listeners.{
  server_named, add_extension_servers, collect, is_wanted, certificate_of, add_core_servers,
  core_resources,
}
use microcluster.Daemon.Samples.{test_startup}
use microcluster.Daemon.Setup.{
  set_up, and_then, trust_local, validate, close_network, serve_core, serve_extensions,
}
use microcluster.Daemon.Start.{
  start_api, start_node, local_node, refresh, enter_cluster, join_database, announce, make_clients,
  cluster_clients, all_clients, confirm, is_confirmed, tell, all_told, is_told, with_hosts,
  hosts_for,
}
use microcluster.Daemon.Serving.{CoreServes, EachServes}
use microcluster.Control
use microcluster.Control.{
  Request, Error, Env, Undo, nothing, undo, remove_file, make_pair, reload, in_turn, renew,
}
use microcluster.Control.Token
use microcluster.Control.Token.{
  new_member, try_each, write_each, write_certs, trust_members, enter, ask, join_with_token,
}
use microcluster.Control.Post.{receive, initialize, go_ahead, apply, control_post}
use microcluster.Control.Joining.{Answered, IsOwn, control_post_joins}
use microcluster.Control.Admitted.{asked_of, control_post_admitted}
use microcluster.Control.Samples.{leader_env, leader, reply_of, request, env, idle, joined}

joins : control_post env idle ≡ some (joined, none, nothing)
unfolding start_api start_node local_node set_up and_then str_eq parse_addr_port trust_local
    Trust.add add_one has_key lookup reload_cert reload_cluster_cert validate validate_endpoints
    check_servers in_use check_resources check_paths has_pair base_paths close_network serve_core
    serve_extensions cluster_clients all_clients all_told announce confirm enter_cluster hosts_for
    is_confirmed is_told join_database make_clients refresh tell with_hosts add_core_servers
    add_extension_servers certificate_of collect core_resources is_wanted update_each is_abort
    Database.join join_loop open_db Endpoints.add down down_by_name insert_each list up update_tls
    addresses remote_by_address clashes create_member member_id insert remove split
    first_path_element paths_of has_suffix load take control_post receive apply set_config
    write_config set_name set_address go_ahead renew in_turn remove_file make_pair reload
    reload_server_cert initialize join_with_token ask try_each new_member enter write_certs
    write_each trust_members undo cluster_post Join.receive validate_fqdn lead is_same_version
    welcome admit get_token with_secret expired has_extension delete_token delete_where
    Join.new_member Control.Token.remote_of Join.remote_of
joins = refl

control_post_joins_example :
    (token : JoinToken) × (info : Response) × (m : Join.Request) × (env.decode (codes "t")
      ≡ some token)
    × ((m.secret ≡ token.secret) × (m.name ≡ codes "b") × (m.address ≡ codes "q"))
    × IsOwn env joined m
    × Answered env token.fingerprint m token.join_addresses info
    × ((joined.config.name ≡ codes "b") × (joined.config.address ≡ codes "q"))
    × (joined.db.status ≡ ready)
    × CoreServes test_startup joined
    × EachServes joined
unfolding server_named str_eq
control_post_joins_example =
    control_post_joins env idle joined nothing request (refl, tt) refl refl refl joins

reply-ok : (r : Result Join.Error Response) (info : Response) → reply_of r ≡ some info → r ≡ ok info
reply-ok (ok x) info h = ground arith
reply-ok (err x) info h = absurd (ground arith)

leader_answers :
    (host : Str) (m : Join.Request) (info : Response)
    → env.add_member host m ≡ some info
    → (cluster_post test_yaml (asked_of leader_env m) leader).1 ≡ ok info
leader_answers host m info h =
    reply-ok (cluster_post test_yaml (asked_of leader_env m) leader).1 info h

control_post_admitted_example :
    (token : JoinToken) × (m : Join.Request) × (env.decode (codes "t") ≡ some token)
    × ((m.secret ≡ token.secret)
        × (m.name ≡ joined.config.name)
        × (m.address ≡ joined.config.address))
    × IsOwn env joined m
    × (leader.extensions ≡ env.startup.own.extensions)
    × (admit (asked_of leader_env m) m leader.db
        ≡ ok (cluster_post test_yaml (asked_of leader_env m) leader).0.db)
    × (lookup m.name (cluster_post test_yaml (asked_of leader_env m) leader).0.remotes.content
        ≡ some (Join.remote_of m))
unfolding server_named str_eq
control_post_admitted_example =
    control_post_admitted env idle joined nothing request test_yaml leader_env leader (refl, tt)
      refl refl refl refl leader_answers joins

-- A daemon whose certificate has its name, and that no member answers.
abbrev refused : Env
refused = record env { add_member = λ host m. none }

abbrev named : Daemon
named = record idle { server_cert = codes "b" }

abbrev left : Daemon
left = record named {
  config = record { name = codes "b"; address = codes "q"; servers = [] };
  config_file = some (99 ∷ 0 ∷ 114 ∷ 0 ∷ []);
}
