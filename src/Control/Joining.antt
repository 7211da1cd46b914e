-- ===== src/Control/Joining.antt =====
-- internal/rest/resources/control.go: what a daemon has when `controlPost` succeeds with a token.
use microcluster.Prelude.{
  ◌≡◌, ◌≢◌, refl, sym, ap, subst, ◌∙◌, Str, str_eq, str_eq_iff, Bool, false, Option, none, some,
  List, [], ◌∷◌, map, Elem, Bool-cases, Option-cases, Result-cases, inl, inr, ok, arith,
}
use microcluster.Issue.{JoinToken}
use microcluster.Join
use microcluster.Join.{Response}
use microcluster.Servers.{core}
use microcluster.Database.{ready}
use microcluster.Daemon
use microcluster.Daemon.{
  Daemon, set_config, server_name, cluster_name, reload_cert, reload_server_cert,
}
use microcluster.Daemon.Listeners.{server_named}
use microcluster.Daemon.Named.{DistinctNames}
use microcluster.Daemon.Serving.{CoreServes, EachServes, Kept}
use microcluster.Daemon.Starting.{start_api_serves}
use microcluster.Config.{set_name, set_address}
use microcluster.Daemon.Entered.{start_api_ready, start_api-server_cert}
use microcluster.Daemon.Start.{start_api}
use microcluster.Control.{Request, Env, Undo, in_turn, renew}
use microcluster.Control.Token.{
  new_member, try_each, write_certs, trust_members, from_daemon, returned, enter, ask,
  join_with_token,
}
use microcluster.Control.Post.{initialize, go_ahead, control_post}
use microcluster.Control.Failing.{post-cases}
use microcluster.Control.Keeping.{keeps-renew, keeps-enter, server_cert-enter}

-- A member that answered the request of the new one: it is one of the token's, and has its certificate.
abbrev pub Answered : Env → Str → Join.Request → List Str → Response → Type 0
Answered e fingerprint m hosts info =
    (a : Str) × (cert : Str) × Elem a hosts
    × (e.remote_certificate a ≡ some cert)
    × (e.fingerprint cert ≡ fingerprint)
    × (e.add_member a m ≡ some info)

try_each-Answered :
    (e : Env) (fingerprint : Str) (m : Join.Request) (hosts : List Str) (info : Response)
    → try_each e fingerprint m hosts ≡ ok info
    → Answered e fingerprint m hosts info
unfolding try_each
try_each-Answered e fingerprint m [] info h = absurd (ground arith)
try_each-Answered e fingerprint m (a ∷ hosts) info h =
    let later : try_each e fingerprint m hosts ≡ ok info
        → Answered e fingerprint m (a ∷ hosts) info =
      λ q.
        let (b, cert, at, shown, same, asked) = try_each-Answered e fingerprint m hosts info q in
        (b, cert, inr at, shown, same, asked) in
    elim (Option-cases (e.remote_certificate a)) [
      | inl p ↦ later (ground arith)
      | inr (cert, p) ↦ elim (Bool-cases (str_eq (e.fingerprint cert) fingerprint)) [
        | inr other ↦ later (ground arith)
        | inl same ↦ elim (Option-cases (e.add_member a m)) [
          | inl q ↦ later (ground arith)
          | inr (info', q) ↦ (
            a,
            cert,
            inl refl,
            p,
            (str_eq_iff (e.fingerprint cert) fingerprint).0 same,
            ground arith,
          )
        ]
      ]
    ]

returned-ok :
    (info : Response) (x : Option (Daemon × Option Daemon.Error)) (d : Daemon) (i : Option Response)
    → returned info (from_daemon x) ≡ some (d, none, i)
    → x ≡ some (d, none)
returned-ok info none d i h = absurd (ground arith)
returned-ok info (some (d', none)) d i h = ground arith
returned-ok info (some (d', some x)) d i h = absurd (ground arith)

-- How `joinWithToken` succeeds.
join-cases :
    (e : Env) (req : Request) (d d' : Daemon) (i : Option Response)
    → join_with_token e req d ≡ some (d', none, i)
    → (token : JoinToken) × (cert : Str) × (info : Response) × (d₁ : Daemon) × (e.decode
          req.join_token
        ≡ some token)
      × Answered e token.fingerprint
          (new_member e req token d.server_cert cert)
          token.join_addresses
          info
      × Kept d d₁
      × ((e.startup.public_key d.server_cert ≡ some cert) × (d₁.server_cert ≡ d.server_cert))
      × (start_api e.startup false (map (λ m. m.address) info.cluster_members) d₁ ≡ some (d', none))
unfolding join_with_token ask enter
join-cases e req d d' i h = elim (Option-cases (e.decode req.join_token)) [
  | inl p ↦ absurd (ground arith)
  | inr (token, p) ↦ elim (Option-cases (e.startup.public_key d.server_cert)) [
    | inl q ↦ absurd (ground arith)
    | inr (cert, q) ↦
        let m = new_member e req token d.server_cert cert in
        elim (Result-cases (try_each e token.fingerprint m token.join_addresses)) [
          | inr (x, t) ↦ absurd (ground arith)
          | inl (info, t) ↦
              let ends = in_turn (write_certs e info ∷ trust_members e req cert info ∷ []) d in
              let kept = keeps-enter e req cert info d in
              elim (Option-cases ends.1) [
                | inr (x, w) ↦ absurd (ground arith)
                | inl w ↦ (
                  token,
                  cert,
                  info,
                  ends.0,
                  p,
                  try_each-Answered e token.fingerprint m token.join_addresses info t,
                  kept,
                  (q, server_cert-enter e req cert info d),
                  returned-ok info
                      (start_api e.startup false (map (λ x. x.address) info.cluster_members) ends.0)
                      d' i (ground arith),
                )
              ]
        ]
  ]
]

go_ahead-ok :
    (e : Env) (req : Request) (b : Bool) (d d' : Daemon) (u : Undo)
    → go_ahead e req b d ≡ some (d', none, u)
    → (d₁ : Daemon) × (i : Option Response) × Kept d d₁ × (initialize e req d₁ ≡ some (d', none, i))
unfolding go_ahead
go_ahead-ok e req b d d' u h = elim (Option-cases (renew e req b d).1) [
  | inr (x, p) ↦ absurd (ground arith)
  | inl p ↦ elim (Option-cases (initialize e req (renew e req b d).0)) [
    | inl q ↦ absurd (ground arith)
    | inr ((d₂, none, i), q) ↦ ((renew e req b d).0, i, keeps-renew e req b d, ground arith)
    | inr ((d₂, some x, i), q) ↦ absurd (ground arith)
  ]
]

-- A request has the certificate of the daemon, and its versions and extensions.
abbrev pub IsOwn : Env → Daemon → Join.Request → Type 0
IsOwn e d m =
    ((m.certificate ≡ e.startup.public_key d.server_cert) × (m.certificate ≢ none))
    × (m.dns_names ≡ e.dns_names d.server_cert)
    × ((m.schema_internal ≡ e.startup.own.internal) × (m.schema_external ≡ e.startup.own.external))
    × (m.extensions ≡ e.startup.own.extensions)

-- Where `controlPost` succeeds with a token, one of the token's members, whose certificate has the token's
-- fingerprint, has accepted a request with the token's secret, the name and address that were asked for, the
-- certificate that the daemon has now, and its versions and extensions.
-- The daemon has that name and address now, its database is ready, and its listeners serve there. No two of
-- its servers have one name, and none that of the core.
pub control_post_joins :
    (e : Env) (d d' : Daemon) (u : Undo) (req : Request)
    → DistinctNames d.servers
    → server_named core d.servers ≡ none
    → e.request ≡ some req
    → str_eq req.join_token [] ≡ false
    → control_post e d ≡ some (d', none, u)
    → (token : JoinToken) × (info : Response) × (m : Join.Request) × (e.decode req.join_token
        ≡ some token)
      × ((m.secret ≡ token.secret) × (m.name ≡ req.name) × (m.address ≡ req.address))
      × IsOwn e d' m
      × Answered e token.fingerprint m token.join_addresses info
      × ((d'.config.name ≡ req.name) × (d'.config.address ≡ req.address))
      × (d'.db.status ≡ ready)
      × CoreServes e.startup d'
      × EachServes d'
unfolding initialize set_config new_member set_name set_address
control_post_joins e d d' u req names unnamed asked joining h = elim (post-cases e d d' none u h) [
  | inl (bad, p, early) ↦ absurd (bad refl)
  | inr (req', asked', on) ↦
      let same : req' ≡ req = ground arith in
      let d₀ = (set_config e.startup.system req'.name req'.address d).0 in
      let (d₁, i, kept₁, ends) =
        go_ahead-ok e req' (e.in_slice req'.name (e.dns_names d.server_cert)) d₀ d' u on in
      let (token, cert, info, d₂, decoded, answered, kept₂, (key, same_cert), started) =
        join-cases e req' d₁ d' i (ground arith) in
      let certs : d'.server_cert ≡ d₁.server_cert =
        start_api-server_cert e.startup (map (λ m. m.address) info.cluster_members) d₂ d' started
        ∙ same_cert in
      let servers : d₂.servers ≡ d.servers = kept₂.0 ∙ kept₁.0 in
      let config : d₂.config ≡ d₀.config = kept₂.1 ∙ kept₁.1 in
      let hosts = map (λ m. m.address) info.cluster_members in
      elim (start_api_serves e.startup false hosts d₂ d' none
        (subst DistinctNames (sym servers) names) (ap (server_named core) servers ∙ unnamed)
        started) [
          | inl (bad, p, q) ↦ absurd (bad refl)
          | inr (core_serves, each_serves, kept₃) ↦
              let left : d'.config ≡ d₀.config = kept₃.1 ∙ config in
              (
                token,
                info,
                new_member e req' token d₁.server_cert cert,
                ap (λ r. e.decode r.join_token) (sym same) ∙ decoded,
                (refl, ap (λ r. r.name) same, ap (λ r. r.address) same),
                (
                  (sym key ∙ ap e.startup.public_key (sym certs), λ no. ground arith),
                  ap e.dns_names (sym certs),
                  (refl, refl),
                  refl,
                ),
                answered,
                (
                  ap (λ c. c.name) left ∙ ap (λ r. r.name) same,
                  ap (λ c. c.address) left ∙ ap (λ r. r.address) same,
                ),
                start_api_ready e.startup false hosts d₂ d' started,
                core_serves,
                each_serves,
              )
        ]
]
