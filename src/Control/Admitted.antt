-- ===== src/Control/Admitted.antt =====
-- internal/rest/resources/control.go with internal/rest/resources/cluster.go: a daemon that joins is
-- admitted by the member that leads.
use microcluster.Prelude.{Str, str_eq, ◌≡◌, sym, ◌∙◌, false, none, some, [], ok, lookup}
use microcluster.Trust.{Yaml}
use microcluster.Issue.{JoinToken}
use microcluster.Join
use microcluster.Join.{Response, State, admit, cluster_post, remote_of}
use microcluster.Join.Effects.{cluster_post_admits}
use microcluster.Servers.{core}
use microcluster.Daemon.{Daemon}
use microcluster.Daemon.Listeners.{server_named}
use microcluster.Daemon.Named.{DistinctNames}
use microcluster.Control.{Request, Env, Undo}
use microcluster.Control.Post.{control_post}
use microcluster.Control.Joining.{IsOwn, control_post_joins}

-- What a member that leads has received.
abbrev pub asked_of : Join.Env → Join.Request → Join.Env
asked_of env m = record env { request = some m }

-- Where the members of a token answer as the leader's `clusterPost` does, and `controlPost` succeeds with the
-- token: the leader has admitted, by its transaction, a request with the token's secret and with the name and
-- address that the daemon has now, its certificate, and its versions and extensions; these are the leader's
-- extensions, and the leader trusts the daemon with that certificate. No two of the daemon's servers have one
-- name, and none that of the core.
pub control_post_admitted :
    (e : Env) (d d' : Daemon) (u : Undo) (req : Request) (y : Yaml) (env : Join.Env) (s : State)
    → DistinctNames d.servers
    → server_named core d.servers ≡ none
    → e.request ≡ some req
    → str_eq req.join_token [] ≡ false
    → env.leader_address ≡ some s.address
    → ((a : Str) (m : Join.Request) (info : Response)
        → e.add_member a m ≡ some info
        → (cluster_post y (asked_of env m) s).1 ≡ ok info)
    → control_post e d ≡ some (d', none, u)
    → (token : JoinToken) × (m : Join.Request) × (e.decode req.join_token ≡ some token)
      × ((m.secret ≡ token.secret) × (m.name ≡ d'.config.name) × (m.address ≡ d'.config.address))
      × IsOwn e d' m
      × (s.extensions ≡ e.startup.own.extensions)
      × (admit (asked_of env m) m s.db ≡ ok (cluster_post y (asked_of env m) s).0.db)
      × (lookup m.name (cluster_post y (asked_of env m) s).0.remotes.content ≡ some (remote_of m))
control_post_admitted e d d' u req y env s names unnamed asked joining leads answers h =
    let (
      token,
      info,
      m,
      decoded,
      (secret, name, address),
      own,
      answered,
      (name', address'),
      is_ready,
      core_serves,
      each_serves,
    ) =
      control_post_joins e d d' u req names unnamed asked joining h in
    let (a, cert, at, shown, same, accepted) = answered in
    let (received, is_asked, opened, unused, extensions, admitted, fresh, trusted) =
      cluster_post_admits y (asked_of env m) s info leads (answers a m info accepted) in
    let this : received ≡ m = cc is_asked in
    (
      token,
      m,
      decoded,
      (secret, name ∙ sym name', address ∙ sym address'),
      own,
      cc (extensions, this, own.3),
      cc (admitted, this),
      cc (trusted, this),
    )
