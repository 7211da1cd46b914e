-- ===== src/Daemon/Updating.antt =====
-- internal/daemon/daemon.go: the listeners after `UpdateServers`.
use microcluster.Prelude.{
  ◌≡◌, sym, ap, ◌∙◌, Str, str_eq, str_eq_iff, Bool, true, false, not, ◌&&◌, Option, none, some,
  List, [], ◌∷◌, Assoc, lookup, has_key, has_key-lookup, Option-cases, inl, inr, arith,
  if◌then◌else◌,
}
use microcluster.Endpoints.{Endpoint, network}
use microcluster.Endpoints.Changes.{Distinct}
use microcluster.Servers.{Server}
use microcluster.Daemon.{Daemon, System}
use microcluster.Daemon.Listeners.{
  new_network, is_wanted, add_extension_servers, extension_servers, server_named, stop_removed,
  stop_changed, update_servers,
}
use microcluster.Daemon.Adding.{is_running}
use microcluster.Daemon.Added.{add_extension_servers_starts}
use microcluster.Daemon.Collected.{wanted_server, bare}
use microcluster.Daemon.Named.{
  DistinctNames, in_use-extension_servers, wanted-named, running-has_key, lookup-running,
}
use microcluster.Daemon.Stopping.{
  stop_removed-ok, stop_removed-DistinctNames, stop_changed-ok, stop_changed-DistinctNames,
}

-- The listeners of the servers that can be changed are on the network, at the servers' addresses.
abbrev pub ListensAsSet : Daemon → Type 0
ListensAsSet d =
    (k : Str) (s : Server) (n : Endpoint)
    → server_named k d.servers ≡ some s
    → s.core_api ≡ false
    → lookup k d.listeners ≡ some n
    → (n.kind ≡ network) × (n.address ≡ s.address)

abbrev pub address_at : Option Endpoint → Option Str
address_at none = none
address_at (some n) = some n.address

-- The address that is configured for a server, which is empty where there is none.
abbrev pub configured_address : Str → Assoc Str → Str
configured_address k configured = elim (lookup k configured) [ none ↦ [] | some a ↦ a ]

-- Where a server is to listen: not where it has no address, or that of the core listener.
abbrev pub needs_listener : Str → Str → Bool
needs_listener core_address a = not (str_eq a []) && not (str_eq a core_address)

named_name :
    (k : Str) (servers : List Server) (s : Server)
    → server_named k servers ≡ some s
    → str_eq s.name k ≡ true
unfolding server_named
named_name k [] s h = absurd (ground arith)
named_name k (x ∷ servers) s h = ground (arith, named_name k servers s)

module _ (e : System) where
  -- The daemon when its listeners are stopped.
  abbrev stopped : Daemon → Daemon
  stopped d =
      (stop_changed e d.config.servers
        (stop_removed e d.config.servers (extension_servers d.servers) d).0).0

  after_stopping :
      (d : Daemon) (k : Str) (s : Server)
      → DistinctNames d.servers
      → Distinct d.config.servers
      → (update_servers e d).1 ≡ none
      → server_named k d.servers ≡ some s
      → s.core_api ≡ false
      → (server_named k (stopped d).servers
          ≡ some (record s { address = configured_address k d.config.servers }))
        × (lookup k (stopped d).listeners ≡ (
            if has_key k d.config.servers
              && str_eq s.address (configured_address k d.config.servers)
            then lookup k d.listeners
            else none))
        × ((stopped d).config ≡ d.config)
        × DistinctNames (stopped d).servers
        × (update_servers e d
            ≡ add_extension_servers e false (stopped d).cluster_cert d.config.address (stopped d))
  unfolding update_servers
  after_stopping d k s names distinct h found own =
      let ks = extension_servers d.servers in
      let d₁ = (stop_removed e d.config.servers ks d).0 in
      let first : (stop_removed e d.config.servers ks d).1 ≡ none = ground arith in
      let second : (stop_changed e d.config.servers d₁).1 ≡ none = ground arith in
      let (left, named, same) = stop_removed-ok e d.config.servers ks d k first in
      let (left', named', same') = stop_changed-ok e d.config.servers d₁ k distinct second in
      let own_name = in_use-extension_servers k d.servers s names found in
      let key = has_key-lookup k d.config.servers in
      (
        ground arith,
        ground arith,
        same' ∙ same,
        stop_changed-DistinctNames e d.config.servers d₁
            (stop_removed-DistinctNames e d.config.servers ks d names),
        ground arith,
      )

  -- What `addExtensionServers` leaves under the name of a server.
  pub under_name :
      (d : Daemon) (core_address k : Str) (s : Server)
      → DistinctNames d.servers
      → server_named k d.servers ≡ some s
      → s.core_api ≡ false
      → (add_extension_servers e false d.cluster_cert core_address d).1 ≡ none
      → (needs_listener core_address s.address && not (is_running k d.listeners) ≡ true
          → bare
              (lookup k (add_extension_servers e false d.cluster_cert core_address d).0.listeners)
            ≡ some (record (new_network s.address [] s.resources) { listening = true }))
        × (needs_listener core_address s.address && not (is_running k d.listeners) ≡ false
            → lookup k (add_extension_servers e false d.cluster_cert core_address d).0.listeners
              ≡ lookup k d.listeners)
        × ((add_extension_servers e false d.cluster_cert core_address d).0.servers ≡ d.servers)
  unfolding is_wanted
  under_name d core_address k s names found own h =
      let (starts, keeps, same, again) =
        add_extension_servers_starts e false d.cluster_cert core_address d h in
      let key = (str_eq_iff s.name k).0 (named_name k d.servers s found) in
      let wanted : wanted_server false core_address d.listeners k d.servers ≡ (
          if needs_listener core_address s.address && not (is_running k d.listeners)
          then some s
          else none) =
        ground (arith, wanted-named false core_address d.listeners k d.servers names) in
      (λ w. starts k s (ground arith), λ w. keeps k (ground arith), ap (λ x. x.servers) same)

  -- Where `UpdateServers` succeeds, each server that can be changed has the address that is configured for
  -- it, none where there is none; and it has a listener at just that address where it is to listen, which is
  -- where the address is neither empty nor that of the core listener. Otherwise it has one only where it is
  -- configured as it was and had one. Names are given once, and the listeners are as set before.
  pub address-update_servers :
      (d : Daemon) (k : Str) (s : Server)
      → DistinctNames d.servers
      → Distinct d.config.servers
      → ListensAsSet d
      → (update_servers e d).1 ≡ none
      → server_named k d.servers ≡ some s
      → s.core_api ≡ false
      → (server_named k (update_servers e d).0.servers
          ≡ some (record s { address = configured_address k d.config.servers }))
        × (address_at (lookup k (update_servers e d).0.listeners) ≡ (
            if needs_listener d.config.address (configured_address k d.config.servers)
            then some (configured_address k d.config.servers)
            else if has_key k d.config.servers
                && str_eq s.address (configured_address k d.config.servers)
            then address_at (lookup k d.listeners)
            else none))
  address-update_servers d k s names distinct as_set h found own =
      let (named, left, config, names₂, on) = after_stopping d k s names distinct h found own in
      let a = configured_address k d.config.servers in
      let d₂ = stopped d in
      let (wanted, kept, servers) =
        under_name d₂ d.config.address k (record s { address = a }) names₂ named own
          (ap (λ x. x.1) (sym on) ∙ h) in
      let running = running-has_key k d₂.listeners in
      let key = has_key-lookup k d₂.listeners in
      (
        ap (λ x. server_named k x.0.servers) on ∙ ap (server_named k) servers ∙ named,
        elim (Option-cases (lookup k d.listeners)) [
          | inl p ↦ ground arith
          | inr (n, p) ↦
              let (network_kind, at) = as_set k s n found own p in
              ground (arith, str_eq_iff s.address a)
        ],
      )

  -- Where `UpdateServers` succeeds, a server that is configured with the address that it has keeps its
  -- listener: it is not started again.
  pub update_servers_keeps :
      (d : Daemon) (k : Str) (s : Server) (n : Endpoint)
      → DistinctNames d.servers
      → Distinct d.config.servers
      → ListensAsSet d
      → (update_servers e d).1 ≡ none
      → server_named k d.servers ≡ some s
      → s.core_api ≡ false
      → lookup k d.config.servers ≡ some s.address
      → lookup k d.listeners ≡ some n
      → lookup k (update_servers e d).0.listeners ≡ some n
  update_servers_keeps d k s n names distinct as_set h found own same was =
      let (named, left, config, names₂, on) = after_stopping d k s names distinct h found own in
      let a = configured_address k d.config.servers in
      let d₂ = stopped d in
      let (wanted, kept, servers) =
        under_name d₂ d.config.address k (record s { address = a }) names₂ named own
          (ap (λ x. x.1) (sym on) ∙ h) in
      let (network_kind, at) = as_set k s n found own was in
      let here : lookup k d₂.listeners ≡ some n =
        ground (arith, str_eq_iff s.address s.address, has_key-lookup k d.config.servers) in
      let running = lookup-running k n d₂.listeners here network_kind in ground arith
