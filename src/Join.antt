-- ===== src/Join.antt =====
-- internal/rest/resources/cluster.go: `clusterPost`, by which the leader admits a joining member.
pub mod Admission
pub mod Effects
mod Tests
use microcluster.Prelude.{
  ℕ, Str, str_eq, Bool, true, false, not, Option, none, some, List, [], ◌∷◌, map, Result, ok, err,
  ◌>>=◌, ◌>>◌, refuse_if, Assoc, lookup, if◌then◌else◌,
}
use microcluster.Extensions.{Extensions, is_same_version}
use microcluster.Fqdn.{validate_fqdn}
use microcluster.Members
use microcluster.Members.{Member, pending, create_member}
use microcluster.Tokens
use microcluster.Tokens.{Token, get_token, expired, delete_token}
use microcluster.Trust
use microcluster.Trust.{Remote, Remotes, Yaml, add}

-- `types.ClusterMember`, as the joining member sends it. `certificate` is the text of the certificate.
pub record Request : Type 0 where
  pub name : Str
  pub address : Str
  pub certificate : Option Str
  pub dns_names : List Str
  pub schema_internal : ℕ
  pub schema_external : ℕ
  pub extensions : Extensions
  pub secret : Str

-- `types.ClusterMemberLocal`
pub record Local : Type 0 where
  pub name : Str
  pub address : Str
  pub certificate : Option Str

-- `types.KeyPair`; the CA is empty where there is none.
pub record KeyPair : Type 0 where
  pub cert : Str
  pub key : Str
  pub ca : Str

-- `internalTypes.TokenResponse`
pub record Response : Type 0 where
  pub cluster_cert : Str
  pub cluster_key : Str
  pub trusted_member : Local
  pub cluster_members : List Local
  pub additional_certs : Assoc KeyPair

-- The tables of the database.
pub record Db : Type 0 where
  pub tokens : List Token
  pub members : List Member

-- What the handler reads and writes. The member's own name and address are set when it joined.
pub record State : Type 0 where
  pub is_open : Bool
  pub name : Str
  pub address : Str
  pub extensions : Extensions
  pub db : Db
  pub remotes : Remotes

pub data Error : Type 0 where
  not_open bad_request no_leader bad_name address_in_use not_forwarded : Error
  other_extensions token_expired nil_certificate name_not_in_certificate : Error
  token : Tokens.Error → Error
  member : Members.Error → Error
  trust : Trust.Error → Error
  no_certificate certificates_unread : Error

-- What the handler gets from the system, from the other members and from packages outside the
-- repository: the decoded body, the leader's address, the reply of the leader to a forwarded
-- request, the time, the cluster's certificate and key, the certificates of the extension servers,
-- the id of a new row.
pub record Env : Type 0 where
  pub request : Option Request
  pub leader_address : Option Str
  pub forward : Request → Result Error Response
  pub is_hostname : Str → Bool
  pub in_slice : Str → List Str → Bool  -- `shared.ValueInSlice`
  pub now : ℕ
  pub next_id : ℕ
  pub cluster_cert : Option Str
  pub cluster_key : Str
  pub additional_certs : Option (Assoc KeyPair)

-- `RemoteByAddress`
unfoldable pub remote_by_address : Str → Assoc Remote → Option Remote
remote_by_address a [] = none
remote_by_address a ((k, r) ∷ m) = if str_eq r.address a then some r else remote_by_address a m

text_of : Option Str → Str
text_of none = []
text_of (some c) = c

-- The record of a joining member: it is pending.
unfoldable pub new_member : Env → Request → Member
unfolding text_of
new_member env req = record {
  id = env.next_id;
  name = req.name;
  address = req.address;
  certificate = text_of req.certificate;
  schema_internal = req.schema_internal;
  schema_external = req.schema_external;
  api_extensions = req.extensions;
  heartbeat = 0;
  role = pending;
}

-- The checks on the token that was found. Without a certificate the handler panics; the server
-- recovers, and nothing is committed.
check_token : Env → Request → Token → Result Error Unit
check_token env req t = if expired env.now t then err token_expired else (elim req.certificate [
  | none ↦ err nil_certificate
  | some c ↦ if not (env.in_slice t.name req.dns_names) then err name_not_in_certificate else ok tt
])

-- The transaction of `clusterPost`; an error of it leaves the database as it was.
unfoldable pub admit : Env → Request → Db → Result Error Db
unfolding check_token
admit env req db = elim (get_token req.secret db.tokens) [
  | err e ↦ err (token e)
  | ok t ↦ elim (check_token env req t) [
    | err e ↦ err e
    | ok _ ↦ elim (create_member (new_member env req) db.members) [
      | err e ↦ err (member e)
      | ok members ↦ elim (delete_token t.name db.tokens) [
        | err e ↦ err (token e)
        | ok tokens ↦ ok (record { tokens = tokens; members = members })
      ]
    ]
  ]
]

local_of : Remote → Local
local_of r = record { name = r.name; address = r.address; certificate = r.certificate }

-- `TrustedMember`; a Go map gives the zero `Remote` for a name that it does not have.
trusted : Str → Option Remote → Local
trusted name none = record { name = name; address = []; certificate = none }
trusted name (some r) = record { name = name; address = r.address; certificate = r.certificate }

response : Env → State → Str → Assoc KeyPair → Response
unfolding local_of trusted
response env s cert additional = record {
  cluster_cert = cert;
  cluster_key = env.cluster_key;
  trusted_member = trusted s.name (lookup s.name s.remotes.content);
  cluster_members = map (λ p. local_of p.1) s.remotes.content;
  additional_certs = additional;
}

unfoldable pub remote_of : Request → Remote
remote_of req = record { name = req.name; address = req.address; certificate = req.certificate }

-- From the commit on: `s` is the state with the transaction's tables. The response names the members
-- that were trusted before the new one.
unfoldable pub welcome : Yaml → Env → Request → State → State × Result Error Response
unfolding response remote_of
welcome y env req s = elim env.cluster_cert [
  | none ↦ (s, err no_certificate)
  | some cert ↦
      let (remotes, e) = add y s.remotes (remote_of req ∷ []) in
      let s' = record s { remotes = remotes } in
      elim e [
        | some z ↦ (s', err (trust z))
        | none ↦ elim env.additional_certs [
          | none ↦ (s', err certificates_unread)
          | some additional ↦ (s', ok (response env s cert additional))
        ]
      ]
]

-- What the leader does with the request.
unfoldable pub lead : Yaml → Env → Request → State → State × Result Error Response
lead y env req s = elim (is_same_version s.extensions req.extensions) [
  | err e ↦ (s, err other_extensions)
  | ok _ ↦ elim (admit env req s.db) [
    | err e ↦ (s, err e)
    | ok db ↦ welcome y env req (record s { db = db })
  ]
]

decoded : Env → Result Error Request
decoded env = elim env.request [ none ↦ err bad_request | some req ↦ ok req ]

known_leader : Env → Result Error Str
known_leader env = elim env.leader_address [ none ↦ err no_leader | some a ↦ ok a ]

check_name : Env → Request → Result Error Unit
check_name env req = elim (validate_fqdn env.is_hostname req.name) [
  | ok _ ↦ ok tt
  | err e ↦ err bad_name
]

in_use : State → Request → Bool
in_use s req = elim (remote_by_address req.address s.remotes.content) [
  | none ↦ false
  | some r ↦ true
]

-- What is checked before it matters who leads.
unfoldable pub receive : Env → State → Result Error (Request × Str)
unfolding decoded known_leader check_name in_use
receive env s = do
  refuse_if (not s.is_open) not_open
  req ← decoded env
  leader ← known_leader env
  check_name env req
  refuse_if (in_use s req) address_in_use
  ok (req, leader)

-- `clusterPost`
unfoldable pub cluster_post : Yaml → Env → State → State × Result Error Response
cluster_post y env s = elim (receive env s) [
  | err e ↦ (s, err e)
  | ok (req, leader) ↦
      if not (str_eq leader s.address) then (s, env.forward req) else lead y env req s
]
