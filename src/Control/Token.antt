-- ===== src/Control/Token.antt =====
-- internal/rest/resources/control.go: `joinWithToken`.
use microcluster.Prelude.{
  Str, str_eq, false, not, Option, none, some, List, [], ◌∷◌, ◌++◌, map, Result, ok, err, Assoc,
  if◌then◌else◌,
}
use microcluster.Trust.{Remote, add}
use microcluster.Issue.{JoinToken}
use microcluster.Join
use microcluster.Join.{Local, Response, KeyPair}
use microcluster.Daemon
use microcluster.Daemon.{Daemon, set_config, server_name, cluster_name, reload_cert, is_not_ready}
use microcluster.Daemon.Start.{start_api}
use microcluster.Control.{
  Request, Error, bad_token, bad_certificate, not_joined, no_client, not_written, trust, daemon,
  Env, in_turn,
}

-- `newClusterMember`
unfoldable pub new_member : Env → Request → JoinToken → Str → Str → Join.Request
new_member e req token server_cert cert = record {
  name = req.name;
  address = req.address;
  certificate = some cert;
  dns_names = e.dns_names server_cert;
  schema_internal = e.startup.own.internal;
  schema_external = e.startup.own.external;
  extensions = e.startup.own.extensions;
  secret = token.secret;
}

-- The loop over the addresses of the token: the first member that has the certificate of the token and
-- accepts the new member.
unfoldable pub try_each : Env → Str → Join.Request → List Str → Result Error Response
try_each e fingerprint member [] = err not_joined
try_each e fingerprint member (a ∷ hosts) =
    let rest = try_each e fingerprint member hosts in
    elim (e.remote_certificate a) [
      | none ↦ rest
      | some cert ↦
          if not (str_eq (e.fingerprint cert) fingerprint)
          then rest
          else if not (e.startup.new_client a)
          then err no_client
          else (elim (e.add_member a member) [ none ↦ rest | some info ↦ ok info ])
    ]

-- The certificates that came with the answer are written, each with its key and, where there is one, its CA.
unfoldable pub write_each : Env → Assoc KeyPair → Daemon → Daemon × Option Error
write_each e [] d = (d, none)
write_each e ((name, pair) ∷ certs) d = elim (e.write_cert d.certificates_dir name pair) [
  | none ↦ (d, some not_written)
  | some files ↦ write_each e certs (record d { certificates_dir = files })
]

-- The certificate of the cluster, which comes without a CA.
abbrev pub cluster_pair : Response → KeyPair
cluster_pair info = record { cert = info.cluster_cert; key = info.cluster_key; ca = [] }

unfoldable pub write_certs : Env → Response → Daemon → Daemon × Option Error
write_certs e info d = elim (e.write_cert d.state_dir cluster_name (cluster_pair info)) [
  | none ↦ (d, some not_written)
  | some files ↦ write_each e info.additional_certs (record d { state_dir = files })
]

unfoldable pub remote_of : Local → Remote
remote_of m = record { name = m.name; address = m.address; certificate = m.certificate }

-- The members and the new one are trusted.
unfoldable pub trust_members : Env → Request → Str → Response → Daemon → Daemon × Option Error
trust_members e req cert info d =
    let own : Remote = record { name = req.name; address = req.address; certificate = some cert } in
    let (remotes, failed) =
      add e.startup.yaml d.remotes (map remote_of info.cluster_members ++ own ∷ []) in
    (
      record d { remotes = remotes },
      elim failed [ none ↦ none | some x ↦ some (trust (Daemon.trust x)) ],
    )

abbrev pub from_daemon : Option (Daemon × Option Daemon.Error) → Option (Daemon × Option Error)
from_daemon none = none
from_daemon (some (d, none)) = some (d, none)
from_daemon (some (d, some x)) = some (d, some (daemon x))

-- `joinWithToken` once a member has answered.
unfoldable pub enter : Env → Request → Str → Response → Daemon → Option (Daemon × Option Error)
enter e req cert info d =
    let (d', stopped) = in_turn (write_certs e info ∷ trust_members e req cert info ∷ []) d in
    let started = start_api e.startup false (map (λ m. m.address) info.cluster_members) d' in
    elim stopped [ some x ↦ some (d', some x) | none ↦ from_daemon started ]

-- `joinWithToken` up to the answer of a member, with the certificate of the new one.
unfoldable pub ask : Env → Request → Daemon → Result Error (Str × Response)
ask e req d = elim (e.decode req.join_token) [
  | none ↦ err bad_token
  | some token ↦ elim (e.startup.public_key d.server_cert) [
    | none ↦ err bad_certificate
    | some cert ↦
        elim (try_each e token.fingerprint (new_member e req token d.server_cert cert)
          token.join_addresses) [ err x ↦ err x | ok info ↦ ok (cert, info) ]
  ]
]

-- What `controlPost` gets: the error, and the response as `joinInfo`.
abbrev pub Ended : Type 0
Ended = Daemon × Option Error × Option Response

-- `joinWithToken` returns the response of the member only at its very end.
abbrev pub returned : Response → Option (Daemon × Option Error) → Option Ended
returned info none = none
returned info (some (d, none)) = some (d, none, some info)
returned info (some (d, some x)) = some (d, some x, none)

-- `joinWithToken`
unfoldable pub join_with_token : Env → Request → Daemon → Option Ended
join_with_token e req d = elim (ask e req d) [
  | err x ↦ some (d, some x, none)
  | ok (cert, info) ↦ returned info (enter e req cert info d)
]
