-- ===== src/Control/Samples.antt =====
-- internal/rest/resources/control.go: a leader, and a daemon that joins its cluster.
use microcluster.Prelude.{
  codes, true, false, none, some, [], ◌∷◌, ok, err, Option, Result, Str, Assoc,
}
use microcluster.Extensions.{has_extension}
use microcluster.Trust
use microcluster.Trust.{Remote, Entry, file, add_one, has_suffix, load}
use microcluster.Trust.Samples.{test_yaml, empty_store, empty_dir}
use microcluster.Database.{ready, open_handle}
use microcluster.Endpoints.{Endpoint, network}
use microcluster.Join
use microcluster.Join.{Response, State, remote_by_address, admit, welcome, lead, cluster_post}
use microcluster.Daemon.{Daemon}
use microcluster.Daemon.Samples.{test_startup, test_daemon, test_resource}
use microcluster.Control.{Request, Env}
use microcluster.Control.Admitted.{asked_of}

-- The leader, and what it gets from elsewhere.
abbrev pub leader_env : Join.Env
leader_env = record {
  request = none;
  leader_address = some (codes "l");
  forward = λ r. err Join.not_forwarded;
  is_hostname = λ h. true;
  in_slice = λ x l. has_extension l x;
  now = 3;
  next_id = 2;
  cluster_cert = some (codes "C");
  cluster_key = codes "K";
  additional_certs = some [];
}

abbrev pub leader : State
leader = record {
  is_open = true;
  name = codes "m";
  address = codes "l";
  extensions = [];
  db = record {
    tokens = record { id = 1; secret = codes "s"; name = codes "b"; expiry = some 4 } ∷ [];
    members = [];
  };
  remotes =
      (Trust.add test_yaml empty_store
        (record { name = codes "m"; address = codes "l"; certificate = some (codes "M") } ∷ [])).0;
}

abbrev pub reply_of : Result Join.Error Response → Option Response
reply_of (ok r) = some r
reply_of (err x) = none

-- The daemon that joins: its certificate is renewed, and it asks the leader.
abbrev pub request : Request
request = record {
  bootstrap = false;
  join_token = codes "t";
  address = codes "q";
  name = codes "b";
}

abbrev pub env : Env
env = record {
  startup = test_startup;
  request = some request;
  is_hostname = λ h. true;
  pre_init = true;
  dns_names = λ cert. cert ∷ [];
  in_slice = λ x l. has_extension l x;
  removes = λ name. true;
  decode = λ t.
      some
        (record { secret = codes "s"; fingerprint = codes "C"; join_addresses = codes "l" ∷ [] });
  remote_certificate = λ host. some (codes "C");
  fingerprint = λ cert. cert;
  add_member = λ host m. reply_of (cluster_post test_yaml (asked_of leader_env m) leader).1;
  write_cert = λ files name pair. some files;
}

abbrev pub idle : Daemon
idle = record test_daemon {
  state_dir = (codes "server.crt", codes "o") ∷ (codes "server.key", codes "o") ∷ [];
  server_cert = codes "o";
}

abbrev members : Assoc Remote
members =
    (codes "m", record { name = codes "m"; address = codes "l"; certificate = some (codes "M") })
    ∷ (codes "b", record { name = codes "b"; address = codes "q"; certificate = some (codes "b") })
    ∷ []

abbrev entries : Assoc Entry
entries =
    (codes "m.yaml", file (1 ∷ 109 ∷ 1 ∷ 108 ∷ 1 ∷ 77 ∷ []))
    ∷ (codes "b.yaml", file (1 ∷ 98 ∷ 1 ∷ 113 ∷ 1 ∷ 98 ∷ []))
    ∷ []

abbrev listening : Str → Str → Endpoint
listening address prefix = record {
  kind = network;
  address = address;
  cert = codes "b";
  resources = test_resource prefix ∷ [];
  listening = true;
}

abbrev pub joined : Daemon
joined = record idle {
  config = record { name = codes "b"; address = codes "q"; servers = [] };
  config_file = some (99 ∷ 0 ∷ 114 ∷ 0 ∷ []);
  listeners =
      (codes "core", listening (codes "q") (codes "i"))
      ∷ (codes "x", listening (codes "b") (codes "v"))
      ∷ [];
  state_dir = [];
  server_cert = codes "b";
  cluster_cert = codes "b";
  remotes = record { dir = record empty_dir { entries = entries }; content = members };
  db = record { status = ready; handle = open_handle; has_dqlite = true; cancelled = false };
}
