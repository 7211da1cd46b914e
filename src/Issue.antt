-- ===== src/Issue.antt =====
-- internal/rest/resources/tokens.go: the join tokens that a member issues, lists and takes back.
pub mod Issued
pub mod Use
mod Tests
use microcluster.Prelude.{
  ℕ, zero, ◌+◌, ◌-◌, Str, Bool, true, false, Option, none, some, List, [], ◌∷◌, map, Result, ok,
  err, ◌>>=◌, ◌>>◌, Assoc, insert, if◌then◌else◌,
}
use microcluster.Fqdn.{validate_fqdn}
use microcluster.Tokens
use microcluster.Tokens.{Token, create_token, delete_token, delete_expired, expired}
use microcluster.Trust.{Remote}

-- `time.Duration`, ahead of now or behind it. The time 0 is before every other time.
pub data Duration : Type 0 where
  ahead behind : ℕ → Duration

-- `TokenRequest`
pub record Request : Type 0 where
  pub name : Str
  pub expire_after : Duration

-- `Token` of internal/rest/types/tokens.go, what the joining member is given.
pub record JoinToken : Type 0 where
  pub secret : Str
  pub fingerprint : Str
  pub join_addresses : List Str

-- `TokenRecord`; `expires_at` is 0 for the zero time.
pub record Listed : Type 0 where
  pub name : Str
  pub token : Str
  pub expires_at : ℕ

pub data Error : Type 0 where
  bad_request bad_name no_random no_certificate bad_address not_encoded bad_path : Error
  database : Tokens.Error → Error

-- The decoded body, the random secret, the fingerprint of the cluster's certificate, the member's own
-- address where it can be parsed, the written form of a token, and the name in the path.
pub record Env : Type 0 where
  pub request : Option Request
  pub is_hostname : Str → Bool
  pub secret : Option Str
  pub fingerprint : Option Str
  pub own_address : Option Str
  pub encode : JoinToken → Option Str
  pub path_name : Option Str
  pub now : ℕ
  pub next_id : ℕ

pub record State : Type 0 where
  pub tokens : List Token
  pub remotes : Assoc Remote

-- `Addresses`
unfoldable pub addresses : Assoc Remote → Assoc Str → Assoc Str
addresses [] found = found
addresses ((k, r) ∷ m) found = addresses m (insert r.name r.address found)

-- The addresses to join by, in the order of the map: the member's own where none is known.
join_addresses : Env → State → Result Error (List Str)
join_addresses env s = elim (addresses s.remotes []) [
  | a ∷ more ↦ ok (map (λ p. p.1) (a ∷ more))
  | [] ↦ elim env.own_address [ none ↦ err bad_address | some a ↦ ok (a ∷ []) ]
]

expiry_of : ℕ → Duration → Option ℕ
expiry_of now (ahead zero) = none
expiry_of now (behind zero) = none
expiry_of now (ahead d) = some (now + d)
expiry_of now (behind d) = some (now - d)

unfoldable pub new_token : Env → Request → Str → Token
unfolding expiry_of
new_token env req secret = record {
  id = env.next_id;
  secret = secret;
  name = req.name;
  expiry = expiry_of env.now req.expire_after;
}

pub or_err {ℓ} : {E A : Type ℓ} → E → Option A → Result E A
or_err e none = err e
or_err e (some a) = ok a

named : Env → Request → Result Error Unit
named env req = elim (validate_fqdn env.is_hostname req.name) [
  | ok _ ↦ ok tt
  | err e ↦ err bad_name
]

-- All of `tokensPost` that is before the transaction: the request, the secret, and the written token.
unfoldable pub prepare : Env → State → Result Error (Request × Str × Str)
unfolding or_err named join_addresses
prepare env s = do
  req ← or_err bad_request env.request
  named env req
  secret ← or_err no_random env.secret
  fingerprint ← or_err no_certificate env.fingerprint
  joins ← join_addresses env s
  let token : JoinToken = record {
    secret = secret;
    fingerprint = fingerprint;
    join_addresses = joins;
  }
  written ← or_err not_encoded (env.encode token)
  ok (req, secret, written)

-- The transaction.
unfoldable pub issue : ℕ → Token → List Token → Result Tokens.Error (List Token)
issue now t ts = do left ← delete_expired now ts; create_token t left

-- `tokensPost`
unfoldable pub tokens_post : Env → State → State × Result Error Str
tokens_post env s = elim (prepare env s) [
  | err e ↦ (s, err e)
  | ok (req, secret, written) ↦ elim (issue env.now (new_token env req secret) s.tokens) [
    | err e ↦ (s, err (database e))
    | ok tokens ↦ (record s { tokens = tokens }, ok written)
  ]
]

-- `ToAPI`
unfoldable pub to_api : Env → Str → List Str → Token → Result Error Listed
unfolding or_err
to_api env fingerprint joins t = do
  written ←
      or_err not_encoded (
        env.encode
          (record { secret = t.secret; fingerprint = fingerprint; join_addresses = joins }))
  ok (record {
    name = t.name;
    token = written;
    expires_at = elim t.expiry [ none ↦ 0 | some e ↦ e ];
  })

list_tokens : Env → Str → List Str → List Token → Result Error (List Listed)
list_tokens env fingerprint joins [] = ok []
list_tokens env fingerprint joins (t ∷ ts) =
    let rest = list_tokens env fingerprint joins ts in
    if expired env.now t
    then rest
    else (do one ← to_api env fingerprint joins t; more ← rest; ok (one ∷ more))

-- `tokensGet`
unfoldable pub tokens_get : Env → State → Result Error (List Listed)
unfolding list_tokens or_err
tokens_get env s = do
  fingerprint ← or_err no_certificate env.fingerprint
  list_tokens env fingerprint (map (λ p. p.1) (addresses s.remotes [])) s.tokens

-- `tokenDelete`
unfoldable pub token_delete : Env → State → State × Result Error Unit
token_delete env s = elim env.path_name [
  | none ↦ (s, err bad_path)
  | some name ↦ elim (delete_token name s.tokens) [
    | err e ↦ (s, err (database e))
    | ok tokens ↦ (record s { tokens = tokens }, ok tt)
  ]
]
