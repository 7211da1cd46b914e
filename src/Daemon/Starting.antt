-- ===== src/Daemon/Starting.antt =====
-- internal/daemon/daemon.go: what `StartAPI` and `reloadIfBootstrapped` leave.
use microcluster.Prelude.{
  ◌≡◌, ◌≢◌, ◌⊎◌, refl, sym, ap, subst, ◌∙◌, Str, Bool, true, false, Option, none, some, List,
  lookup, Bool-cases, Option-cases, Result-cases, inl, inr, ok, arith, if◌then◌else◌,
}
use microcluster.Database.{Own, Round, Db, ready, bootstrap, join_loop}
use microcluster.Database
use microcluster.Servers.{core}
use microcluster.Trust.{Remote}
use microcluster.Daemon.{Daemon, Error, database}
use microcluster.Daemon.Listeners.{server_named}
use microcluster.Daemon.Named.{DistinctNames}
use microcluster.Daemon.Setup.{Startup, and_then, set_up}
use microcluster.Daemon.Start.{
  is_joining, open_first, refresh, found_cluster, join_database, make_clients, confirm, tell,
  with_hosts, announce, hosts_for, enter_cluster, start_node, local_node, start_api,
}
use microcluster.Daemon.Collected.{bare}
use microcluster.Daemon.Updating.{needs_listener}
use microcluster.Daemon.Untouched.{db-set_up}
use microcluster.Daemon.Serving.{CoreServes, EachServes, Kept, set_up_serves}

-- Two daemons with the same listeners, servers, configuration and cluster certificate.
abbrev SameServing : Daemon → Daemon → Type 0
SameServing d d' =
    (d'.listeners ≡ d.listeners)
    × (d'.servers ≡ d.servers)
    × (d'.config ≡ d.config)
    × (d'.cluster_cert ≡ d.cluster_cert)

module _ (e : Startup) where
  pub announce_is : (joining : Bool) (d : Daemon) → (announce e joining d).0 ≡ (refresh e d).0
  unfolding announce and_then make_clients with_hosts confirm tell
  announce_is true d = ground arith
  announce_is false d = ground arith

  same-refresh : (d : Daemon) → SameServing d (refresh e d).0
  unfolding refresh
  same-refresh d = (refl, refl, refl, refl)

  same-announce : (joining : Bool) (d : Daemon) → SameServing d (announce e joining d).0
  same-announce joining d = subst (SameServing d) (sym (announce_is joining d)) (same-refresh d)

  found_is :
      (local : Remote) (d : Daemon)
      → ((found_cluster e local d).0 ≡ (open_first e local d).0)
        ⊎ ((found_cluster e local d).0 ≡ (refresh e (open_first e local d).0).0)
  unfolding found_cluster and_then
  found_is local d = ground arith

  same-open_first : (local : Remote) (d : Daemon) → SameServing d (open_first e local d).0
  unfolding open_first
  same-open_first local d = (refl, refl, refl, refl)

  same-found_cluster : (local : Remote) (d : Daemon) → SameServing d (found_cluster e local d).0
  unfolding open_first refresh
  same-found_cluster local d = elim (found_is local d) [
    | inl p ↦ subst (SameServing d) (sym p) (same-open_first local d)
    | inr p ↦ subst (SameServing d) (sym p) (refl, refl, refl, refl)
  ]

  -- How the database is entered: it is joined, and the others are told; or it is not.
  pub enter-cases :
      (hosts : List Str) (d d' : Daemon) (r : Option Error)
      → enter_cluster e hosts d ≡ some (d', r)
      → ((db : Db) × (Database.join
              (e.creates (hosts_for hosts d))
              (e.rounds (hosts_for hosts d))
              d.db
            ≡ some (db, none))
          × (announce e (is_joining hosts) (record d { db = db }) ≡ (d', r)))
        ⊎ ((db : Db) × (x : Database.Error) × (Database.join
                (e.creates (hosts_for hosts d))
                (e.rounds (hosts_for hosts d))
                d.db
              ≡ some (db, some x))
            × (d' ≡ record d { db = db })
            × (r ≡ some (database x)))
  unfolding enter_cluster join_database
  enter-cases hosts d d' r h =
      let a = hosts_for hosts d in
      elim (Option-cases (Database.join (e.creates a) (e.rounds a) d.db)) [
        | inl p ↦ absurd (ground arith)
        | inr ((db, none), p) ↦ inl (db, p, ground arith)
        | inr ((db, some x), p) ↦ inr (db, x, p, ground arith, ground arith)
      ]

  same-enter_cluster :
      (hosts : List Str) (d d' : Daemon) (r : Option Error)
      → enter_cluster e hosts d ≡ some (d', r)
      → SameServing d d'
  same-enter_cluster hosts d d' r h = elim (enter-cases hosts d d' r h) [
    | inl (db, p, on) ↦
        subst (λ x. SameServing d x.0) on (same-announce (is_joining hosts) (record d { db = db }))
    | inr (db, x, p, on, q) ↦ subst (SameServing d) (sym on) (refl, refl, refl, refl)
  ]

  -- How `StartAPI` comes to an end: at its checks, at its listeners, or in the database.
  pub start-cases :
      (boot : Bool) (hosts : List Str) (d d' : Daemon) (r : Option Error)
      → start_api e boot hosts d ≡ some (d', r)
      → ((d' ≡ d) × (r ≢ none))
        ⊎ ((local : Remote) × (local_node e d ≡ ok local)
            × (((d' ≡ (set_up e boot local d).0) × (r ≢ none))
                ⊎ (((set_up e boot local d).1 ≡ none)
                    × ((if boot
                          then some (found_cluster e local (set_up e boot local d).0)
                          else enter_cluster e hosts (set_up e boot local d).0)
                        ≡ some (d', r)))))
  unfolding start_api start_node
  start-cases boot hosts d d' r h = elim (Result-cases (local_node e d)) [
    | inr (x, p) ↦ inl (ground arith)
    | inl (local, p) ↦ inr (
      local,
      p,
      elim (Option-cases (set_up e boot local d).1) [
        | inl q ↦ inr (q, ground arith)
        | inr (x, q) ↦ inl (ground arith)
      ],
    )
  ]

  -- Whatever `StartAPI` ends with, either it fails and has changed neither the database nor its rows; or the
  -- core is served at the daemon's address, with the cluster's certificate and the resources of the core API,
  -- and each other server that is to have a listener has it, at its address and with its resources; the
  -- servers and the configuration are as they were. No two
  -- servers have one name, and none that of the core.
  pub start_api_serves :
      (boot : Bool) (hosts : List Str) (d d' : Daemon) (r : Option Error)
      → DistinctNames d.servers
      → server_named core d.servers ≡ none
      → start_api e boot hosts d ≡ some (d', r)
      → ((r ≢ none) × (d'.db ≡ d.db) × (d'.rows ≡ d.rows))
        ⊎ (CoreServes e d' × EachServes d' × Kept d d')
  start_api_serves boot hosts d d' r names unnamed h = elim (start-cases boot hosts d d' r h) [
    | inl (on, bad) ↦ inl (bad, ap (λ x. x.db) on, ap (λ x. x.rows) on)
    | inr (local, p, inl (on, bad)) ↦
        let (db, rows, cert) = db-set_up e boot local d in
        inl (bad, ap (λ x. x.db) on ∙ db, ap (λ x. x.rows) on ∙ rows)
    | inr (local, p, inr (fine, ends)) ↦
        let d₁ = (set_up e boot local d).0 in
        let serves = set_up_serves e boot local d names unnamed fine in
        let same : SameServing d₁ d' = elim (Bool-cases boot) [
          | inl first ↦
              let on : found_cluster e local d₁ ≡ (d', r) = ground arith in
              subst (λ x. SameServing d₁ x.0) on (same-found_cluster local d₁)
          | inr later ↦ same-enter_cluster hosts d₁ d' r (ground arith)
        ] in
        inr (
          cc (serves.0, same.0, same.1, same.2, same.3),
          λ k s found own needed.
              ap (λ ls. bare (lookup k ls)) same.0
              ∙ serves.1 k s (ap (server_named k) (sym same.1) ∙ found) own
                  (ap (λ c. needs_listener c.address s.address) (sym same.2) ∙ needed),
          (same.1 ∙ serves.2.0, same.2 ∙ serves.2.1),
        )
  ]
