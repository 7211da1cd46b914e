-- ===== src/Access.antt =====
-- rest/access/handlers.go and internal/rest/access/authentication.go: which requests are trusted.
pub mod Endpoints
pub mod Trusted
mod Tests
use microcluster.Prelude.{
  Str, codes, str_eq, Bool, true, false, Option, none, some, List, [], ◌∷◌, Result, ok, err,
  if◌then◌else◌,
}

-- The value of `request.CtxAccess` in the context of the request.
pub data Access : Type 0 where
  no_access other_value : Access
  trusted_request : Bool → Access

-- `peers` is none where `r.TLS` is nil; `target` is the parameter of the query, empty where there is
-- none.
pub record Request : Type 0 where
  pub remote_addr : Str
  pub host : Str
  pub peers : Option (List Str)
  pub method : Str
  pub has_url : Bool
  pub target : Str
  pub access : Access

pub data Response : Type 0 where
  not_implemented forbidden not_found bad_request unavailable : Response
  internal_error smart_error empty_sync : Response
  sync : Str → Response

pub data Error : Type 0 where
  bad_host_address invalid_host : Error

-- What `Authenticate` reads of the daemon: the fingerprint of the core listener where it is a network
-- one, that of the server's certificate, and the certificates of the trust store. `parse` is
-- `ParseAddrPort` followed by `String`, and `check_tls` is `util.CheckMutualTLS`.
pub record Listener : Type 0 where
  pub core_fingerprint : Option Str
  pub server_fingerprint : Str
  pub host_address : Str
  pub trusted_certs : List Str
  pub parse : Str → Option Str
  pub check_tls : Str → List Str → Bool

-- `AllowAuthenticated`; none is a request that may go on.
unfoldable pub allow_authenticated : Request → Option Response
allow_authenticated r = elim r.access [
  | no_access ↦ some forbidden
  | other_value ↦ some forbidden
  | trusted_request t ↦ if t then none else some forbidden
]

any_trusted : Listener → List Str → Bool
any_trusted l [] = false
any_trusted l (c ∷ certs) = if l.check_tls c l.trusted_certs then true else any_trusted l certs

check_peers : Listener → Option (List Str) → Bool
check_peers l none = false
check_peers l (some certs) = any_trusted l certs

before_init : Listener → Bool
before_init l = elim l.core_fingerprint [ none ↦ false | some f ↦ str_eq l.server_fingerprint f ]

-- `Authenticate`
unfoldable pub authenticate : Listener → Request → Result Error Bool
unfolding check_peers any_trusted before_init
authenticate l r =
    if str_eq r.remote_addr (codes "@")
    then ok true
    else if before_init l
    then ok true
    else (elim (l.parse l.host_address) [
      | none ↦ err bad_host_address
      | some h ↦ if str_eq r.host h then ok (check_peers l r.peers) else err invalid_host
    ])

-- `SetRequestAuthentication`
unfoldable pub set_authentication : Request → Bool → Request
set_authentication r t = record r { access = trusted_request t }
