-- ===== src/Daemon/Entered.antt =====
-- internal/daemon/daemon.go: what a member has when `StartAPI` succeeds.
use microcluster.Prelude.{
  ◌≡◌, refl, sym, ap, subst, ◌∙◌, Str, str_eq, Bool, true, false, none, some, List, [], ◌∷◌,
  Bool-cases, inl, inr, ok, Elem, All, Option-cases, arith,
}
use microcluster.Issue.{addresses}
use microcluster.Members.{Member, get_member, pending}
use microcluster.Database.{Own, Db, Round, ready, bootstrap, join_loop}
use microcluster.Database
use microcluster.Database.Rounds.{join_loop_ends, bootstrap_lem}
use microcluster.Join.Admission.{get-create_member}
use microcluster.Servers.{core}
use microcluster.Trust.{Remote}
use microcluster.Config.{load_config, parse_addr_port}
use microcluster.Daemon.{Daemon}
use microcluster.Daemon.Listeners.{server_named}
use microcluster.Daemon.Named.{DistinctNames}
use microcluster.Daemon.Setup.{Startup, and_then, set_up}
use microcluster.Daemon.Start.{
  first_member, open_first, refresh, found_cluster, texts, is_confirmed, all_told, text_of,
  is_joining, local_node, start_api, reload_if_bootstrapped,
}
use microcluster.Daemon.Serving.{EachServes}
use microcluster.Daemon.Untouched.{db-set_up}
use microcluster.Daemon.Starting.{announce_is, start-cases, enter-cases, start_api_serves}
use microcluster.Daemon.Announced.{is_confirmed-Elem, Told, announced, all_told-All, db-announce}

join-ready :
    (creates : Bool) (rounds : List Round) (s s' : Db)
    → Database.join creates rounds s ≡ some (s', none)
    → s'.status ≡ ready
unfolding Database.join
join-ready creates rounds s s' h = elim (Bool-cases creates) [
  | inr fails ↦ absurd (ground arith)
  | inl works ↦
      elim (join_loop_ends rounds (record s { has_dqlite = true }) s' none (ground arith)) [
        | inl (p, fine, q) ↦ fine
        | inr (p, q, z) ↦ absurd (p refl)
      ]
]

module _ (e : Startup) where
  -- A member that joins and succeeds has a database that is ready; some other member that it trusts by then has
  -- confirmed it, and each other member that it trusts by then is found there by its address and has not refused
  -- to run its hook for a new member, though it may have been unavailable.
  pub start_api_joins :
      (host : Str) (hosts : List Str) (d d' : Daemon)
      → start_api e false (host ∷ hosts) d ≡ some (d', none)
      → (d'.db.status ≡ ready)
        × ((x : Str) × Elem x (texts (addresses d'.remotes.content []))
            × (str_eq d'.config.address x ≡ false)
            × (e.confirms x ≡ true))
        × All (Told e d') (texts (addresses d'.remotes.content []))
  start_api_joins host hosts d d' h = elim (start-cases e false (host ∷ hosts) d d' none h) [
    | inl (on, bad) ↦ absurd (bad refl)
    | inr (local, p, inl (on, bad)) ↦ absurd (bad refl)
    | inr (local, p, inr (fine, ends)) ↦
        elim (enter-cases e (host ∷ hosts) (set_up e false local d).0 d' none ends) [
          | inr (db, x, q, on, bad) ↦ absurd (cc bad)
          | inl (db, q, on) ↦
              let d₁ = record (set_up e false local d).0 { db = db } in
              let told = ap (λ x. x.1) on in
              let (left, confirmed, all) = announced e d₁ told in
              let here : d' ≡ (refresh e d₁).0 = ap (λ x. x.0) (sym on) ∙ left in
              let was : d'.db ≡ db = ap (λ x. x.0.db) (sym on) ∙ db-announce e true d₁ in
              (
                ap (λ x. x.status) was ∙ join-ready _ _ _ db q,
                is_confirmed-Elem e d'.config.address (texts (addresses d'.remotes.content [])) (
                    subst
                      (λ x.
                        is_confirmed e x.config.address (texts (addresses x.remotes.content []))
                        ≡ true)
                      (sym here) confirmed),
                all_told-All e d' (texts (addresses d'.remotes.content [])) (
                    subst (λ x. all_told e true x (texts (addresses x.remotes.content [])) ≡ true)
                      (sym here) all),
              )
        ]
  ]

  founded :
      (local : Remote) (d : Daemon)
      → (found_cluster e local d).1 ≡ none
      → (bootstrap (e.creates []) e.own.extensions e.round (first_member e local) d.rows d.db
          ≡ ((open_first e local d).0.db, (open_first e local d).0.rows, none))
        × ((found_cluster e local d).0.rows ≡ (open_first e local d).0.rows)
        × ((found_cluster e local d).0.db ≡ (open_first e local d).0.db)
  unfolding found_cluster and_then open_first refresh
  founded local d h = ground arith

  local_node-ok :
      (d : Daemon) (local : Remote)
      → local_node e d ≡ ok local
      → (cert : Str) × (local.name ≡ d.config.name)
        × (parse_addr_port e.system.config_yaml.addresses d.config.address ≡ some local.address)
        × (e.public_key d.server_cert ≡ some cert)
        × (local.certificate ≡ some cert)
  unfolding local_node
  local_node-ok d local h = elim (Option-cases (e.public_key d.server_cert)) [
    | inl p ↦ absurd (ground arith)
    | inr (cert, p) ↦
        elim (Option-cases (parse_addr_port e.system.config_yaml.addresses d.config.address)) [
          | inl q ↦ absurd (ground arith)
          | inr (host, q) ↦ (cert, ground arith, ground arith, p, ground arith)
        ]
  ]

  -- The first member of a cluster that succeeds has a database that is ready, and a pending row there under its
  -- configured name, with its configured address, the public key of its server's certificate, and its own
  -- versions and extensions.
  pub start_api_founds :
      (hosts : List Str) (d d' : Daemon)
      → start_api e true hosts d ≡ some (d', none)
      → (m : Member) × (d'.db.status ≡ ready)
        × (get_member d.config.name d'.rows ≡ ok m)
        × (parse_addr_port e.system.config_yaml.addresses d.config.address ≡ some m.address)
        × (e.public_key d.server_cert ≡ some m.certificate)
        × ((m.schema_internal ≡ e.own.internal) × (m.schema_external ≡ e.own.external))
        × (m.api_extensions ≡ e.own.extensions)
        × (m.role ≡ pending)
  unfolding first_member
  start_api_founds hosts d d' h = elim (start-cases e true hosts d d' none h) [
    | inl (on, bad) ↦ absurd (bad refl)
    | inr (local, p, inl (on, bad)) ↦ absurd (bad refl)
    | inr (local, p, inr (fine, ends)) ↦
        let d₁ = (set_up e true local d).0 in
        let m = first_member e local in
        let (cert, named, at, key, certified) = local_node-ok d local p in
        let on : found_cluster e local d₁ ≡ (d', none) = ground arith in
        let (opens, rows, db) = founded local d₁ (ap (λ x. x.1) on) in
        let (is_up, made) =
          bootstrap_lem (e.creates []) e.own.extensions e.round m d₁.rows _ d₁.db _ opens in
        (
          record m { api_extensions = e.own.extensions },
          ap (λ x. x.0.db.status) (sym on) ∙ ap (λ x. x.status) db ∙ is_up,
          ap (λ n. get_member n d'.rows) (sym named)
              ∙ ap (λ x. get_member local.name x.0.rows) (sym on)
              ∙ ap (get_member local.name) rows
              ∙ get-create_member (record m { api_extensions = e.own.extensions }) d₁.rows _ made,
          at,
          key ∙ ap (λ c. some (text_of c)) (sym certified),
          (refl, refl),
          refl,
          refl,
        )
  ]

  -- Where `StartAPI` succeeds the database is ready.
  pub start_api_ready :
      (boot : Bool) (hosts : List Str) (d d' : Daemon)
      → start_api e boot hosts d ≡ some (d', none)
      → d'.db.status ≡ ready
  start_api_ready true hosts d d' h = (start_api_founds hosts d d' h).1
  start_api_ready false hosts d d' h = elim (start-cases e false hosts d d' none h) [
    | inl (on, bad) ↦ absurd (bad refl)
    | inr (local, p, inl (on, bad)) ↦ absurd (bad refl)
    | inr (local, p, inr (fine, ends)) ↦
        let d₁ = (set_up e false local d).0 in
        elim (enter-cases e hosts d₁ d' none ends) [
          | inr (db, x, q, on, bad) ↦ absurd (cc bad)
          | inl (db, q, on) ↦
              let was : d'.db ≡ db =
                ap (λ x. x.0.db) (sym on)
                ∙ db-announce e (is_joining hosts) (record d₁ { db = db }) in
              ap (λ x. x.status) was ∙ join-ready _ _ _ db q
        ]
  ]

  -- A member that joins keeps the certificate of its server.
  pub start_api-server_cert :
      (hosts : List Str) (d d' : Daemon)
      → start_api e false hosts d ≡ some (d', none)
      → d'.server_cert ≡ d.server_cert
  unfolding refresh
  start_api-server_cert hosts d d' h = elim (start-cases e false hosts d d' none h) [
    | inl (on, bad) ↦ absurd (bad refl)
    | inr (local, p, inl (on, bad)) ↦ absurd (bad refl)
    | inr (local, p, inr (fine, ends)) ↦
        let d₁ = (set_up e false local d).0 in
        elim (enter-cases e hosts d₁ d' none ends) [
          | inr (db, x, q, on, bad) ↦ absurd (cc bad)
          | inl (db, q, on) ↦
              ap (λ x. x.0.server_cert) (sym on)
              ∙ ap (λ x. x.server_cert) (announce_is e (is_joining hosts) (record d₁ { db = db }))
              ∙ (db-set_up e false local d).2
        ]
  ]

  -- A daemon that starts again and succeeds has loaded its configuration; its servers are those that it was
  -- run with, and each listens at the address it has there, whichever addresses are configured. No two
  -- servers have one name, and none that of the core.
  pub reload_keeps_servers :
      (d d' : Daemon) (text : Str)
      → DistinctNames d.servers
      → server_named core d.servers ≡ none
      → e.has_info ≡ true
      → d.config_file ≡ some text
      → reload_if_bootstrapped e d ≡ some (d', none)
      → (load_config e.system.config_yaml (some text) d.config ≡ (d'.config, true))
        × (d'.servers ≡ d.servers)
        × EachServes d'
  unfolding reload_if_bootstrapped
  reload_keeps_servers d d' text names unnamed info file h =
      let c = (load_config e.system.config_yaml (some text) d.config).0 in
      let fine : (load_config e.system.config_yaml (some text) d.config).1 ≡ true = ground arith in
      let started : start_api e false [] (record d { config = c }) ≡ some (d', none) =
        ground arith in
      elim (start_api_serves e false [] (record d { config = c }) d' none names unnamed started) [
        | inl (bad, p, q) ↦ absurd (bad refl)
        | inr (core_serves, each_serves, (servers, config)) ↦
            (cc (fine, config), servers, each_serves)
      ]
