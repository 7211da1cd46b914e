-- ===== src/Daemon/Setup.antt =====
-- internal/daemon/daemon.go: `StartAPI`, up to where it turns to the database. The lock on the extension
-- servers is left out.
use microcluster.Prelude.{
  ℕ, Str, Bool, true, false, Option, none, some, List, [], ◌∷◌, ◌++◌, ok, err, if◌then◌else◌,
}
use microcluster.Endpoints.{network, down}
use microcluster.Servers.{Resource, validate_endpoints}
use microcluster.Database.{Own, Round}
use microcluster.Trust.{Remote, Yaml, add}
use microcluster.Daemon.{
  Daemon, System, Error, not_closed, hook_failed, trust, invalid, cluster_name, reload_cert,
}
use microcluster.Daemon.Listeners.{add_core_servers, add_extension_servers}

-- How another member answers the request to run its hook.
pub data Reply : Type 0 where
  done unavailable refused : Reply

-- What `StartAPI` gets from elsewhere: the packages, the resources of the daemon's own API, the versions of
-- the daemon, the public key of a certificate, the hooks, dqlite (for the addresses that it is given) and
-- the other members (by address). `sends` says whether the request of a notification is made; that it is
-- not sent, or not answered, is only logged. `has_info` says whether info.yaml is there.
pub record Startup : Type 0 where
  pub system : System
  pub yaml : Yaml
  pub join_paths : Str → Str → Str
  pub unix_endpoints : List Resource
  pub internal_endpoints : List Resource
  pub public_endpoints : List Resource
  pub own : Own
  pub next_id : ℕ
  pub public_key : Str → Option Str
  pub creates : List Str → Bool
  pub round : Round
  pub rounds : List Str → List Round
  pub post_bootstrap : Bool
  pub pre_join : Bool
  pub post_join : Bool
  pub new_client : Str → Bool
  pub confirms : Str → Bool
  pub sends : Str → Bool
  pub replies : Str → Reply
  pub has_info : Bool

-- A part of an operation, and one after another.
abbrev pub Step : Type 0
Step = Daemon → Daemon × Option Error

unfoldable pub and_then : Step → Step → Step
and_then f g d =
    let (d', failed) = f d in let rest = g d' in elim failed [ some x ↦ (d', some x) | none ↦ rest ]

abbrev pub hook : Bool → Step
hook runs d = (d, if runs then none else some hook_failed)

unfoldable pub trust_local : Startup → Bool → Remote → Step
trust_local e false local d = (d, none)
trust_local e true local d =
    let (remotes, failed) = add e.yaml d.remotes (local ∷ []) in
    (record d { remotes = remotes }, elim failed [ none ↦ none | some x ↦ some (trust x) ])

unfoldable pub validate : Startup → Step
validate e d =
    elim (validate_endpoints e.join_paths
      (e.unix_endpoints ++ e.public_endpoints ++ e.internal_endpoints) d.config.address d.servers) [
        | ok _ ↦ (d, none)
        | err x ↦ (d, some (invalid x))
      ]

unfoldable pub close_network : Startup → Step
close_network e d =
    let (ls, fine) = down e.system.sockets (network ∷ []) d.listeners in
    (record d { listeners = ls }, if fine then none else some not_closed)

unfoldable pub serve_core : Startup → Step
serve_core e d =
    add_core_servers e.system false d.config.address d.cluster_cert
      (e.internal_endpoints ++ e.public_endpoints) d

unfoldable pub serve_extensions : Startup → Step
serve_extensions e d = add_extension_servers e.system false d.cluster_cert d.config.address d

-- `StartAPI` up to where it turns to the database.
unfoldable pub set_up : Startup → Bool → Remote → Step
set_up e boot local = and_then (trust_local e boot local) (
    and_then (reload_cert e.system cluster_name) (
      and_then (validate e)
        (and_then (close_network e) (and_then (serve_core e) (serve_extensions e)))))
