-- ===== src/Control/Post.antt =====
-- internal/rest/resources/control.go: `controlPost`.
use microcluster.Prelude.{
  str_eq, Bool, not, ◌&&◌, Option, none, some, [], Result, ok, err, ◌>>=◌, ◌>>◌, refuse_if,
  if◌then◌else◌,
}
use microcluster.Fqdn.{validate_fqdn}
use microcluster.Daemon.{Daemon, set_config, is_not_ready}
use microcluster.Daemon.Start.{start_api}
use microcluster.Control.{
  not_initial, bad_request, bad_options, bad_name, not_configured, hook_failed, Request, Error,
  bad_certificate, Env, Undo, nothing, undo, renew,
}
use microcluster.Control.Token.{Ended, from_daemon, join_with_token}

decoded : Env → Result Error Request
decoded e = elim e.request [ none ↦ err bad_request | some req ↦ ok req ]

check_name : Env → Request → Result Error Unit
check_name e req = elim (validate_fqdn e.is_hostname req.name) [
  | ok _ ↦ ok tt
  | err x ↦ err bad_name
]

-- What is checked before anything is changed.
unfoldable pub receive : Env → Daemon → Result Error Request
unfolding decoded check_name
receive e d = do
  refuse_if (not (is_not_ready d.db.status)) not_initial
  req ← decoded e
  refuse_if (req.bootstrap && not (str_eq req.join_token [])) bad_options
  check_name e req
  ok req

-- A daemon that does not join has no response.
abbrev pub without_response : Option (Daemon × Option Error) → Option Ended
without_response none = none
without_response (some (d, r)) = some (d, r, none)

-- The end of `controlPost`: joined by the token, or without_response.
unfoldable pub initialize : Env → Request → Daemon → Option Ended
initialize e req d =
    if not (str_eq req.join_token [])
    then join_with_token e req d
    else without_response (from_daemon (start_api e.startup req.bootstrap [] d))

-- A failure, with what the reverter does, which has the `joinInfo` of by then.
abbrev pub reverted : Bool → Request → Ended → Daemon × Option Error × Undo
reverted name_matches req (d, none, info) = (d, none, nothing)
reverted name_matches req (d, some x, info) = (d, some x, undo name_matches req info)

unfoldable pub go_ahead : Env → Request → Bool → Daemon → Option (Daemon × Option Error × Undo)
go_ahead e req name_matches d =
    let (d', stopped) = renew e req name_matches d in
    let ends = initialize e req d' in
    elim stopped [
      | some x ↦ some (reverted name_matches req (d', some x, none))
      | none ↦ elim ends [ none ↦ none | some p ↦ some (reverted name_matches req p) ]
    ]

-- `controlPost` once its request is checked.
unfoldable pub apply : Env → Request → Daemon → Option (Daemon × Option Error × Undo)
apply e req d =
    let (d', written) = set_config e.startup.system req.name req.address d in
    if not written
    then some (d', some not_configured, nothing)
    else if not e.pre_init
    then some (d', some hook_failed, nothing)
    else (elim (e.startup.public_key d'.server_cert) [
      | none ↦ some (d', some bad_certificate, nothing)
      | some cert ↦ go_ahead e req (e.in_slice req.name (e.dns_names d'.server_cert)) d'
    ])

-- `controlPost`; none where the database is still trying to join.
unfoldable pub control_post : Env → Daemon → Option (Daemon × Option Error × Undo)
control_post e d = elim (receive e d) [ err x ↦ some (d, some x, nothing) | ok req ↦ apply e req d ]
