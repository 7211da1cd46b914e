-- ===== src/Heartbeat/Tests.antt =====
-- internal/rest/resources/heartbeat.go: a round of heartbeats at concrete values.
use microcluster.Prelude.{ℕ, Assoc, codes, Str, true, some, [], ◌∷◌}
use microcluster.Members.{Member, ApiMember, Parsers}
use microcluster.Trust.Samples.{test_yaml, empty_store}
use microcluster.Heartbeat.{Info, State, Env, begin_heartbeat}

abbrev parsers : Parsers
parsers = record { address = some; certificate = some }

abbrev row : Str → Str → ℕ → Member
row a role last = record {
  id = last;
  name = a;
  address = a;
  certificate = a;
  schema_internal = 6;
  schema_external = 0;
  api_extensions = [];
  heartbeat = last;
  role = role;
}

abbrev before : State
before = record {
  name = codes "a";
  address = codes "a";
  is_open = true;
  members = row (codes "a") (codes "voter") 1 ∷ row (codes "b") (codes "PENDING") 2 ∷ [];
  tokens = [];
  remotes = empty_store;
}

abbrev env : Env
env = record {
  now = 100;
  interval = 10;
  peers = some (codes "b" ∷ []);
  answered = λ sent a. some 101;
  ended = 102;
  updates = true;
  hook = true;
}

abbrev info : Info
info = record {
  begin_round = true;
  max_internal = 0;
  max_external = 0;
  members = [];
  leader = codes "a";
  roles = (codes "a", codes "voter") ∷ (codes "b", codes "spare") ∷ [];
}

abbrev after : State
after = (begin_heartbeat test_yaml parsers env info before).0

abbrev member : ApiMember
member = record {
  name = codes "b";
  address = codes "b";
  certificate = codes "b";
  role = codes "spare";
  schema_internal = 6;
  schema_external = 3;
  last_heartbeat = 2;
  extensions = [];
}

abbrev told : Assoc ApiMember
told = (codes "b", member) ∷ []
