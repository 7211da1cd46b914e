-- ===== src/Daemon/Samples.antt =====
-- Concrete data for runs of internal/daemon/daemon.go: a system in which everything succeeds, and a daemon
-- with one server that has a listener of its own.
use microcluster.Prelude.{Str, codes, true, false, none, some, [], ◌∷◌, ◌++◌}
use microcluster.Config.Samples.{test_config_yaml}
use microcluster.Endpoints.{Sockets}
use microcluster.Servers.{Resource, Server}
use microcluster.Database.{Own, Round, new_db, upgraded}
use microcluster.Trust.Samples.{test_yaml, empty_store}
use microcluster.Daemon.{Daemon, System}
use microcluster.Daemon.Setup.{Startup, done}

abbrev test_sockets : Sockets
test_sockets = record { listens = λ ls n. true; closes = λ k. true; drains = λ k. true }

abbrev pub test_system : System
test_system = record {
  sockets = test_sockets;
  config_yaml = test_config_yaml;
  writes_config = true;
  key_pair = λ files name subject. some (subject, files);
}

abbrev pub test_resource : Str → Resource
test_resource prefix = record { prefix = prefix; paths = codes "y" ∷ [] }

abbrev pub works : Round
works = record { starts = true; opens = true; upgrade = upgraded; prepares = true }

abbrev test_own : Own
test_own = record { internal = 1; external = 1; extensions = []; address = codes "a" }

abbrev pub test_startup : Startup
test_startup = record {
  system = test_system;
  yaml = test_yaml;
  join_paths = λ a b. a ++ codes "/" ++ b;
  unix_endpoints = [];
  internal_endpoints = test_resource (codes "i") ∷ [];
  public_endpoints = [];
  own = test_own;
  next_id = 1;
  public_key = λ cert. some cert;
  creates = λ hosts. true;
  round = works;
  rounds = λ hosts. works ∷ [];
  post_bootstrap = true;
  pre_join = true;
  post_join = true;
  new_client = λ host. true;
  confirms = λ host. true;
  sends = λ host. true;
  replies = λ host. done;
  has_info = true;
}

abbrev pub test_server : Str → Server
test_server address = record {
  name = codes "x";
  core_api = false;
  pre_init = false;
  serve_unix = false;
  dedicated_certificate = false;
  address = address;
  resources = test_resource (codes "v") ∷ [];
}

abbrev pub test_daemon : Daemon
test_daemon = record {
  config = record { name = codes "n"; address = codes "a"; servers = [] };
  config_file = none;
  servers = test_server (codes "b") ∷ [];
  listeners = [];
  state_dir = [];
  certificates_dir = [];
  server_cert = codes "server";
  cluster_cert = [];
  remotes = empty_store;
  db = new_db;
  rows = [];
}
