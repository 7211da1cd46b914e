-- ===== src/Control/Failing.antt =====
-- internal/rest/resources/control.go: what is undone when `controlPost` fails.
use microcluster.Prelude.{
  ◌≡◌, ◌≢◌, ◌⊎◌, str_eq, Bool, ◌||◌, Option, none, some, [], Bool-cases, Option-cases, Result-cases,
  inl, inr, ok, err, false, if◌then◌else◌, arith,
}
use microcluster.Daemon.{Daemon, set_config}
use microcluster.Control.{Request, Error, Env, Undo, nothing, reset}
use microcluster.Control.Post.{receive, go_ahead, apply, control_post}

pub receive-ok :
    (e : Env) (d : Daemon) (req : Request) → receive e d ≡ ok req → e.request ≡ some req
unfolding receive
receive-ok e d req h = elim (Option-cases e.request) [
  | inl p ↦ absurd (ground arith)
  | inr (req', p) ↦ ground arith
]

-- What the reverter does once a request has failed: the member is reset, unless it was to join and its
-- certificate did not have its name.
abbrev pub undone : Bool → Request → Undo
undone name_matches req = if str_eq req.join_token [] || name_matches then reset else nothing

-- A request that fails before the reverter is there: at the checks, at the configuration, at the hook, or at
-- the certificate of the server.
abbrev pub FailsEarly : Env → Daemon → Type 0
FailsEarly e d =
    ((x : Error) × (receive e d ≡ err x))
    ⊎ ((req : Request) × (receive e d ≡ ok req)
        × (((set_config e.startup.system req.name req.address d).1 ≡ false)
            ⊎ (e.pre_init ≡ false)
            ⊎ (e.startup.public_key d.server_cert ≡ none)))

-- How `controlPost` ends: before its reverter, or where it turns to the cluster.
pub post-cases :
    (e : Env) (d d' : Daemon) (r : Option Error) (u : Undo)
    → control_post e d ≡ some (d', r, u)
    → ((r ≢ none) × (u ≡ nothing) × FailsEarly e d)
      ⊎ ((req : Request) × (e.request ≡ some req)
          × (go_ahead e req
                (e.in_slice req.name (e.dns_names d.server_cert))
                (set_config e.startup.system req.name req.address d).0
              ≡ some (d', r, u)))
unfolding control_post apply set_config
post-cases e d d' r u h = elim (Result-cases (receive e d)) [
  | inr (x, p) ↦ inl (ground arith, ground arith, inl (x, p))
  | inl (req, p) ↦
      let asked = receive-ok e d req p in
      elim (Bool-cases (set_config e.startup.system req.name req.address d).1) [
        | inr q ↦ inl (ground arith, ground arith, inr (req, p, inl q))
        | inl q ↦ elim (Bool-cases e.pre_init) [
          | inr i ↦ inl (ground arith, ground arith, inr (req, p, inr (inl i)))
          | inl i ↦ elim (Option-cases (e.startup.public_key d.server_cert)) [
            | inl c ↦ inl (ground arith, ground arith, inr (req, p, inr (inr c)))
            | inr (cert, c) ↦ inr (req, asked, ground arith)
          ]
        ]
      ]
]
