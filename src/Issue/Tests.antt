-- ===== src/Issue/Tests.antt =====
-- Runs of internal/rest/resources/tokens.go, and the theorems about it at a concrete table of tokens.
use microcluster.Prelude.{
  Str, codes, str_eq, split, ◌≡◌, refl, true, false, none, some, List, [], ◌∷◌, ok, err,
}
use microcluster.Extensions.{has_extension}
use microcluster.Fqdn.{validate_fqdn}
use microcluster.Members.{member_id, clashes, create_member}
use microcluster.Tokens
use microcluster.Tokens.{
  Token, get_token, create_token, token_exists, name_taken, expired, delete_expired, delete_token,
  delete_where,
}
use microcluster.Tokens.Unique.{is_unique}
use microcluster.Join
use microcluster.Join.{admit, new_member, not_forwarded}
use microcluster.Issue.{
  Env, State, Request, Listed, ahead, prepare, issue, new_token, addresses, tokens_post, to_api,
  tokens_get, database,
}
use microcluster.Issue.Use.{issued_admits}

abbrev old : Token
old = record { id = 1; secret = codes "s"; name = codes "a"; expiry = some 5 }

abbrev kept : Token
kept = record { id = 2; secret = codes "t"; name = codes "c"; expiry = none }

abbrev tokens : List Token
tokens = old ∷ kept ∷ []

abbrev asked : Str → Request
asked name = record { name = name; expire_after = ahead 10 }

abbrev env_for : Str → Env
env_for name = record {
  request = some (asked name);
  is_hostname = λ h. true;
  secret = some (codes "u");
  fingerprint = some (codes "f");
  own_address = some (codes "10.0.0.1:1");
  encode = λ t. some t.secret;
  path_name = none;
  now = 9;
  next_id = 3;
}

abbrev env : Env
env = env_for (codes "b")

abbrev state : State
state = record { tokens = tokens; remotes = [] }

abbrev after : State
after = (tokens_post env state).0

tokens_unique : is_unique tokens ≡ true
unfolding name_taken token_exists str_eq
tokens_unique = refl

posted : tokens_post env state ≡ (after, ok (codes "u"))
unfolding tokens_post prepare validate_fqdn split addresses issue delete_expired delete_token
    delete_where expired create_token token_exists name_taken new_token str_eq
posted = refl

name_in_use : tokens_post (env_for (codes "c")) state ≡ (state, err (database Tokens.constraint))
unfolding tokens_post prepare validate_fqdn split addresses issue delete_expired delete_token
    delete_where expired create_token token_exists name_taken new_token str_eq
name_in_use = refl

abbrev listed : List Listed
listed = record { name = codes "c"; token = codes "t"; expires_at = 0 } ∷ []

tokens_listed : tokens_get env state ≡ ok listed
unfolding tokens_get to_api expired addresses
tokens_listed = refl

abbrev request : Join.Request
request = record {
  name = codes "b";
  address = codes "10.0.0.2:1";
  certificate = some (codes "B");
  dns_names = codes "b" ∷ [];
  schema_internal = 1;
  schema_external = 2;
  extensions = [];
  secret = codes "u";
}

abbrev join : Join.Env
join = record {
  request = some request;
  leader_address = none;
  forward = λ r. err not_forwarded;
  is_hostname = λ h. true;
  in_slice = λ x l. has_extension l x;
  now = 12;
  next_id = 1;
  cluster_cert = none;
  cluster_key = [];
  additional_certs = none;
}

named_b : join.in_slice (codes "b") (codes "b" ∷ []) ≡ true
unfolding has_extension str_eq
named_b = refl

not_yet_expired : expired 12 (new_token env (asked (codes "b")) (codes "u")) ≡ false
unfolding expired new_token
not_yet_expired = refl

first_member : create_member (new_member join request) [] ≡ ok (new_member join request ∷ [])
unfolding create_member member_id clashes
first_member = refl

issued_admits_example :
    (left : List Token) × (admit join request (record { tokens = after.tokens; members = [] })
      ≡ ok (record { tokens = left; members = new_member join request ∷ [] }))
    × (get_token (codes "u") left ≡ err Tokens.not_found)
issued_admits_example =
    issued_admits env state after (codes "u") (asked (codes "b")) (codes "u") join request
      (codes "B") [] (new_member join request ∷ []) tokens_unique posted refl refl refl refl named_b
      not_yet_expired first_member
