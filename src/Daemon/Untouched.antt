-- ===== src/Daemon/Untouched.antt =====
-- internal/daemon/daemon.go: what `StartAPI` leaves alone before it turns to the database.
use microcluster.Prelude.{◌≡◌, refl, ap, Bool, true, false, str_eq, arith}
use microcluster.Trust.{Remote}
use microcluster.Daemon.{Daemon, cluster_name, reload_cert, reload_cluster_cert}
use microcluster.Daemon.Listeners.{add_core_servers, add_extension_servers}
use microcluster.Daemon.Collected.{collect_keeps}
use microcluster.Daemon.Setup.{
  Startup, Step, and_then, trust_local, validate, close_network, serve_core, serve_extensions,
  set_up,
}

-- The database, its rows and the certificate of the server are the same.
abbrev pub SameDb : Daemon → Daemon → Type 0
SameDb d d' = (d'.db ≡ d.db) × (d'.rows ≡ d.rows) × (d'.server_cert ≡ d.server_cert)

abbrev KeepsDb : Step → Type 0
KeepsDb f = (d : Daemon) → SameDb d (f d).0

KeepsDb-and_then : (f g : Step) → KeepsDb f → KeepsDb g → KeepsDb (and_then f g)
unfolding and_then
KeepsDb-and_then f g kf kg d = ground (arith, kf d, kg (f d).0)

module _ (e : Startup) where
  KeepsDb-trust_local : (boot : Bool) (local : Remote) → KeepsDb (trust_local e boot local)
  unfolding trust_local
  KeepsDb-trust_local true local d = (refl, refl, refl)
  KeepsDb-trust_local false local d = (refl, refl, refl)

  KeepsDb-reload_cert : KeepsDb (reload_cert e.system cluster_name)
  unfolding reload_cert reload_cluster_cert str_eq
  KeepsDb-reload_cert d = ground arith

  KeepsDb-validate : KeepsDb (validate e)
  unfolding validate
  KeepsDb-validate d = ground arith

  KeepsDb-close_network : KeepsDb (close_network e)
  unfolding close_network
  KeepsDb-close_network d = (refl, refl, refl)

  KeepsDb-serve_core : KeepsDb (serve_core e)
  unfolding serve_core add_core_servers
  KeepsDb-serve_core d = ground arith

  KeepsDb-serve_extensions : KeepsDb (serve_extensions e)
  unfolding serve_extensions add_extension_servers
  KeepsDb-serve_extensions d =
      let same = collect_keeps e.system false d.cluster_cert d.config.address d.servers d in
      ground (arith, same, ap (λ x. x.db) same, ap (λ x. x.rows) same, ap (λ x. x.server_cert) same)

  -- Up to the database, `StartAPI` leaves it, its rows and the certificate of the server alone, also where it fails.
  pub db-set_up : (boot : Bool) (local : Remote) (d : Daemon) → SameDb d (set_up e boot local d).0
  unfolding set_up
  db-set_up boot local = KeepsDb-and_then _ _ (KeepsDb-trust_local boot local) (
      KeepsDb-and_then _ _ KeepsDb-reload_cert (
        KeepsDb-and_then _ _ KeepsDb-validate (
          KeepsDb-and_then _ _ KeepsDb-close_network
            (KeepsDb-and_then _ _ KeepsDb-serve_core KeepsDb-serve_extensions))))
