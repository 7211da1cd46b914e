-- ===== src/Daemon/Serving.antt =====
-- internal/daemon/daemon.go: the listeners when `StartAPI` turns to the database.
use microcluster.Prelude.{
  ◌≡◌, refl, sym, ap, subst, ◌∙◌, Str, str_eq, str_eq_iff, Bool, true, false, none, some, [], ◌∷◌,
  ◌++◌, Assoc, lookup, has_key, Option-cases, inl, inr, arith,
}
use microcluster.Endpoints.{Endpoint, network, Sockets, list, down, add}
use microcluster.Endpoints.Changes.{add_listens}
use microcluster.Servers.{Server, core}
use microcluster.Trust.{Remote}
use microcluster.Daemon.{Daemon, cluster_name, reload_cert, reload_cluster_cert}
use microcluster.Daemon.Listeners.{new_network, core_resources, server_named, add_core_servers}
use microcluster.Daemon.Adding.{is_running, running-add}
use microcluster.Daemon.Added.{add_extension_servers_starts}
use microcluster.Daemon.Collected.{bare}
use microcluster.Daemon.Named.{DistinctNames, wanted-named}
use microcluster.Daemon.Setup.{
  Startup, Step, and_then, trust_local, validate, close_network, serve_core, serve_extensions,
  set_up,
}
use microcluster.Daemon.Updating.{needs_listener, under_name}

-- An operation that succeeds is made of its parts, which do.
and_then-ok :
    (f g : Step) (d : Daemon)
    → (and_then f g d).1 ≡ none
    → ((f d).1 ≡ none) × (and_then f g d ≡ g (f d).0)
unfolding and_then
and_then-ok f g d h = elim (Option-cases (f d).1) [
  | inl p ↦ (p, ground arith)
  | inr (x, p) ↦ absurd (ground arith)
]

-- The listeners of a daemon that serves: that of the core, with the cluster's certificate, the daemon's
-- address and the resources of the core API, and one for every other server that needs it.
abbrev pub CoreServes : Startup → Daemon → Type 0
CoreServes e d =
    lookup core d.listeners
    ≡ some
        (record (new_network d.config.address d.cluster_cert
          ((e.internal_endpoints ++ e.public_endpoints) ++ core_resources false d.servers)) {
            listening = true;
          })

abbrev pub EachServes : Daemon → Type 0
EachServes d =
    (k : Str) (s : Server)
    → server_named k d.servers ≡ some s
    → s.core_api ≡ false
    → needs_listener d.config.address s.address ≡ true
    → bare (lookup k d.listeners)
      ≡ some (record (new_network s.address [] s.resources) { listening = true })

-- The servers and the configuration are as they were.
abbrev pub Kept : Daemon → Daemon → Type 0
Kept d d' = (d'.servers ≡ d.servers) × (d'.config ≡ d.config)

down_network :
    (e : Sockets) (ls : Assoc Endpoint)
    → (down e (network ∷ []) ls).1 ≡ true
    → list (network ∷ []) (down e (network ∷ []) ls).0 ≡ []
unfolding down list
down_network e [] h = refl
down_network e ((k, n) ∷ ls) h = ground (arith, down_network e ls)

module _ (e : Startup) where
  serve_core-ok :
      (d : Daemon)
      → (serve_core e d).1 ≡ none
      → (k : Str) → list (network ∷ []) d.listeners ≡ []
      → CoreServes e (serve_core e d).0
        × (is_running k (serve_core e d).0.listeners ≡ str_eq core k)
        × ((serve_core e d).0.servers ≡ d.servers)
        × ((serve_core e d).0.config ≡ d.config)
  unfolding serve_core add_core_servers has_key
  serve_core-ok d h k closed =
      let all = (e.internal_endpoints ++ e.public_endpoints) ++ core_resources false d.servers in
      let added : Assoc Endpoint = (core, new_network d.config.address d.cluster_cert all) ∷ [] in
      let up : (add e.system.sockets added d.listeners).1 ≡ true = ground arith in
      let listens = (add_listens e.system.sockets added d.listeners (refl, tt) up).0 in
      let running = running-add e.system.sockets added d.listeners k (refl, tt) up in
      (ground arith, ground arith, ground arith, ground arith)

  serve_extensions-ok :
      (d : Daemon)
      → DistinctNames d.servers
      → server_named core d.servers ≡ none
      → CoreServes e d
      → ((k : Str) → is_running k d.listeners ≡ str_eq core k)
      → (serve_extensions e d).1 ≡ none
      → CoreServes e (serve_extensions e d).0
        × EachServes (serve_extensions e d).0
        × Kept d (serve_extensions e d).0
  unfolding serve_extensions
  serve_extensions-ok d names unnamed serves only h =
      let d' = (serve_extensions e d).0 in
      let (starts, keeps, same, again) =
        add_extension_servers_starts e.system false d.cluster_cert d.config.address d h in
      let servers : d'.servers ≡ d.servers = ap (λ x. x.servers) same in
      let config : d'.config ≡ d.config = ap (λ x. x.config) same in
      let cert : d'.cluster_cert ≡ d.cluster_cert = ap (λ x. x.cluster_cert) same in
      let kept : lookup core d'.listeners ≡ lookup core d.listeners =
        keeps core
          (ground (arith, wanted-named false d.config.address d.listeners core d.servers names)) in
      (
        cc (serves, kept, servers, config, cert),
        λ k s found own needed.
            let named : server_named k d.servers ≡ some s =
              ap (server_named k) (sym servers) ∙ found in
            let (wanted, other, done) =
              under_name e.system d d.config.address k s names named own h in
            let idle = only k in
            wanted (ground (arith, ap (λ c. c.address) config, str_eq_iff core k)),
        (servers, config),
      )

  Kept-trust_local :
      (boot : Bool) (local : Remote) (d : Daemon) → Kept d (trust_local e boot local d).0
  unfolding trust_local
  Kept-trust_local true local d = (refl, refl)
  Kept-trust_local false local d = (refl, refl)

  Kept-reload_cert : (d : Daemon) → Kept d (reload_cert e.system cluster_name d).0
  unfolding reload_cert reload_cluster_cert str_eq
  Kept-reload_cert d = ground arith

  kept-validate : (d : Daemon) → (validate e d).0 ≡ d
  unfolding validate
  kept-validate d = ground arith

  Kept-close_network :
      (d : Daemon)
      → (close_network e d).1 ≡ none
      → Kept d (close_network e d).0 × (list (network ∷ []) (close_network e d).0.listeners ≡ [])
  unfolding close_network
  Kept-close_network d h =
      let closed = down_network e.system.sockets d.listeners in ((refl, refl), ground arith)

  -- Where `StartAPI` comes to the database, the listeners serve; the servers and the configuration are as
  -- they were.
  pub set_up_serves :
      (boot : Bool) (local : Remote) (d : Daemon)
      → DistinctNames d.servers
      → server_named core d.servers ≡ none
      → (set_up e boot local d).1 ≡ none
      → CoreServes e (set_up e boot local d).0
        × EachServes (set_up e boot local d).0
        × Kept d (set_up e boot local d).0
  unfolding set_up
  set_up_serves boot local d names unnamed h =
      let (r₁, on₁) = and_then-ok (trust_local e boot local) _ d h in
      let d₁ = (trust_local e boot local d).0 in
      let k₁ = Kept-trust_local boot local d in
      let (r₂, on₂) =
        and_then-ok (reload_cert e.system cluster_name) _ d₁ (ap (λ x. x.1) (sym on₁) ∙ h) in
      let d₂ = (reload_cert e.system cluster_name d₁).0 in
      let k₂ = Kept-reload_cert d₁ in
      let (r₃, on₃) = and_then-ok (validate e) _ d₂ (ap (λ x. x.1) (sym (on₁ ∙ on₂)) ∙ h) in
      let d₃ = (validate e d₂).0 in
      let k₃ = kept-validate d₂ in
      let (r₄, on₄) =
        and_then-ok (close_network e) _ d₃ (ap (λ x. x.1) (sym (on₁ ∙ on₂ ∙ on₃)) ∙ h) in
      let d₄ = (close_network e d₃).0 in
      let (k₄, closed) = Kept-close_network d₃ r₄ in
      let to₄ = on₁ ∙ on₂ ∙ on₃ ∙ on₄ in
      let (r₅, on₅) =
        and_then-ok (serve_core e) (serve_extensions e) d₄ (ap (λ x. x.1) (sym to₄) ∙ h) in
      let d₅ = (serve_core e d₄).0 in
      let serves = λ (k : Str). serve_core-ok d₄ r₅ k closed in
      let servers : d₅.servers ≡ d.servers =
        (serves core).2 ∙ k₄.0 ∙ ap (λ x. x.servers) k₃ ∙ k₂.0 ∙ k₁.0 in
      let config : d₅.config ≡ d.config =
        (serves core).3 ∙ k₄.1 ∙ ap (λ x. x.config) k₃ ∙ k₂.1 ∙ k₁.1 in
      let (core_serves, each_serves, same₆) =
        serve_extensions-ok d₅ (subst DistinctNames (sym servers) names)
          (ap (server_named core) servers ∙ unnamed) (serves core).0 (λ k. (serves k).1)
          (ap (λ x. x.1) (sym (to₄ ∙ on₅)) ∙ h) in
      subst (λ x. CoreServes e x.0 × EachServes x.0 × Kept d x.0) (sym (to₄ ∙ on₅))
        (core_serves, each_serves, (same₆.0 ∙ servers, same₆.1 ∙ config))
