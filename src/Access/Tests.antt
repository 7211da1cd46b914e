-- ===== src/Access/Tests.antt =====
-- The theorems about rest/access/handlers.go and internal/rest/rest.go at a concrete daemon, whose
-- state counts the runs of a handler.
use Prim.Native.Nat.{suc}
use microcluster.Prelude.{
  ℕ, Str, codes, str_eq, ◌≡◌, ◌≢◌, ◌↔◌, ◌⊎◌, inl, refl, true, false, none, some, List, [], ◌∷◌, ok,
  arith,
}
use microcluster.Access.{
  Request, Listener, no_access, authenticate, allow_authenticated, set_authentication, sync,
}
use microcluster.Access.Trusted.{SomeTrusted, authenticate_iff}
use microcluster.Access.Endpoints.{
  Action, Endpoint, Daemon, action_of, proxy_target, handle_api, handle_endpoint,
}
use microcluster.Access.Endpoints.Untrusted.{handle_endpoint-untrusted}

abbrev listener : Listener
listener = record {
  core_fingerprint = some (codes "c");
  server_fingerprint = codes "s";
  host_address = codes "a:1";
  trusted_certs = codes "t" ∷ [];
  parse = λ h. some h;
  check_tls = λ c certs. str_eq c (codes "t");
}

abbrev with_certificate : Str → Request
with_certificate c = record {
  remote_addr = codes "b:1";
  host = codes "a:1";
  peers = some (c ∷ []);
  method = codes "PUT";
  has_url = true;
  target = [];
  access = no_access;
}

abbrev count : Action ℕ
count = record {
  handler = some (λ n r. (suc n, sync []));
  access_handler = none;
  allow_untrusted = false;
  proxy_target = true;
}

abbrev nothing : Action ℕ
nothing = record {
  handler = none;
  access_handler = none;
  allow_untrusted = false;
  proxy_target = false;
}

abbrev endpoint : Endpoint ℕ
endpoint = record {
  path = codes "x";
  get = nothing;
  put = count;
  post = nothing;
  delete = nothing;
  patch = nothing;
  allowed_during_shutdown = false;
  allowed_before_init = false;
}

-- It shuts down when the counter is at 5.
abbrev daemon : Daemon ℕ
daemon = record {
  name = λ n. codes "a";
  members = λ n. [];
  has_cluster_cert = λ n. true;
  shutting_down = λ n. str_eq (n ∷ []) (5 ∷ []);
  is_open = λ n. true;
  listener = λ n. listener;
  connects = λ a. true;
  send = λ a r. none;
  renders = λ r. true;
  hijacks = true;
  accept = λ n. n;
}

trusted_runs : handle_endpoint daemon endpoint 0 (with_certificate (codes "t")) ≡ (1, sync [] ∷ [])
unfolding handle_endpoint authenticate str_eq action_of handle_api allow_authenticated
    set_authentication proxy_target
trusted_runs = refl

authenticate_iff_example : (authenticate listener (with_certificate (codes "t")) ≡ ok true) ↔ (
    (codes "b:1" ≡ codes "@")
    ⊎ (some (codes "c") ≡ some (codes "s"))
    ⊎ ((certs : List Str) × (some (codes "a:1") ≡ some (codes "a:1"))
        × (some (codes "t" ∷ []) ≡ some certs)
        × SomeTrusted listener certs))
authenticate_iff_example = authenticate_iff listener (with_certificate (codes "t"))

not_trusted : authenticate (daemon.listener 0) (with_certificate (codes "u")) ≢ ok true
unfolding authenticate str_eq
not_trusted h = ground arith

put_counts : action_of daemon endpoint (codes "PUT") ≡ some count
unfolding action_of str_eq
put_counts = refl

handle_endpoint-untrusted_example :
    (handle_endpoint daemon endpoint 0 (with_certificate (codes "u"))).0 ≡ 0
handle_endpoint-untrusted_example =
    handle_endpoint-untrusted daemon endpoint count 0 (with_certificate (codes "u")) not_trusted
      put_counts (inl refl)
