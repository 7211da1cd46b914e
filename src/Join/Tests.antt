-- ===== src/Join/Tests.antt =====
-- A run of `clusterPost` of internal/rest/resources/cluster.go, and the theorems about it there.
use microcluster.Prelude.{
  codes, str_eq, split, ◌≡◌, refl, true, false, none, some, [], ◌∷◌, ok, err, lookup, insert,
  has_key, arith,
}
use microcluster.Extensions.{has_extension, is_same_version}
use microcluster.Fqdn.{validate_fqdn}
use microcluster.Members.{member_id, clashes, create_member}
use microcluster.Tokens
use microcluster.Tokens.{
  Token, with_secret, get_token, token_exists, name_taken, expired, delete_where, delete_token,
}
use microcluster.Tokens.Unique.{is_unique}
use microcluster.Trust.{IsOnDisk, add_one, add}
use microcluster.Trust.Samples.{test_yaml, empty_store}
use microcluster.Join.{
  Request, Response, Db, State, Env, token, not_forwarded, remote_by_address, new_member, admit,
  remote_of, welcome, lead, receive, cluster_post,
}
use microcluster.Join.Admission.{admit_once}
use microcluster.Join.Effects.{cluster_post_admits}

abbrev request : Request
request = record {
  name = codes "b";
  address = codes "10.0.0.2:1";
  certificate = some (codes "B");
  dns_names = codes "b" ∷ [];
  schema_internal = 1;
  schema_external = 2;
  extensions = codes "x" ∷ [];
  secret = codes "s";
}

abbrev env : Env
env = record {
  request = some request;
  leader_address = some (codes "10.0.0.1:1");
  forward = λ r. err not_forwarded;
  is_hostname = λ h. true;
  in_slice = λ x l. has_extension l x;
  now = 3;
  next_id = 2;
  cluster_cert = some (codes "C");
  cluster_key = codes "K";
  additional_certs = some [];
}

abbrev db : Db
db = record {
  tokens = record { id = 1; secret = codes "s"; name = codes "b"; expiry = some 4 } ∷ [];
  members = [];
}

abbrev state : State
state = record {
  is_open = true;
  name = codes "a";
  address = codes "10.0.0.1:1";
  extensions = codes "x" ∷ [];
  db = db;
  remotes = empty_store;
}

abbrev admitted : Db
admitted = record { tokens = []; members = new_member env request ∷ [] }

b_admitted : admit env request db ≡ ok admitted
unfolding admit get_token with_secret str_eq expired has_extension create_member member_id clashes
    delete_token delete_where
b_admitted = refl

db_unique : is_unique db.tokens ≡ true
unfolding name_taken token_exists
db_unique = refl

admit_once_example : admit env request admitted ≡ err (token Tokens.not_found)
admit_once_example = admit_once env env request request db admitted db_unique b_admitted refl

abbrev reply : Response
reply = record {
  cluster_cert = codes "C";
  cluster_key = codes "K";
  trusted_member = record { name = codes "a"; address = []; certificate = none };
  cluster_members = [];
  additional_certs = [];
}

b_welcome : (cluster_post test_yaml env state).1 ≡ ok reply
unfolding cluster_post receive validate_fqdn split remote_by_address lead is_same_version welcome
    add add_one has_key lookup insert admit get_token with_secret str_eq expired has_extension
    create_member member_id clashes delete_token delete_where
b_welcome = refl

cluster_post_admits_example :
    (req : Request) × (some request ≡ some req)
    × (true ≡ true)
    × (remote_by_address req.address [] ≡ none)
    × (codes "x" ∷ [] ≡ req.extensions)
    × (admit env req db ≡ ok (cluster_post test_yaml env state).0.db)
    × (has_key req.name empty_store.content ≡ false)
    × (lookup req.name (cluster_post test_yaml env state).0.remotes.content ≡ some (remote_of req))
cluster_post_admits_example = cluster_post_admits test_yaml env state reply refl b_welcome

empty_store-IsOnDisk : IsOnDisk test_yaml empty_store.dir empty_store.content
unfolding lookup
empty_store-IsOnDisk k r p = absurd (ground arith)
