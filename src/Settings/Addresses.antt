-- ===== src/Settings/Addresses.antt =====
-- internal/rest/resources/daemon.go: the listeners after `daemonServersPut`.
use microcluster.Prelude.{
  ◌≡◌, ap, ◌∙◌, Str, str_eq, false, ◌&&◌, none, some, Assoc, lookup, has_key, arith, if◌then◌else◌,
}
use microcluster.Config.{set_servers}
use microcluster.Endpoints.Changes.{Distinct}
use microcluster.Servers.{Server}
use microcluster.Daemon.{Daemon}
use microcluster.Daemon.Listeners.{server_named, update_servers}
use microcluster.Daemon.Named.{DistinctNames}
use microcluster.Daemon.Updating.{
  ListensAsSet, address_at, configured_address, needs_listener, address-update_servers,
}
use microcluster.Settings.{Env, checked, store, put_servers, daemon_servers_put}

module _ (e : Env) (d d' : Daemon) (req : Assoc Str) where
  put_servers-ok :
      put_servers e req d ≡ (d', none)
      → ((update_servers e.system (store e req d).0).1 ≡ none)
        × (d' ≡ (update_servers e.system (store e req d).0).0)
  unfolding put_servers
  put_servers-ok h = ground arith

  put-cases :
      e.request ≡ some req → daemon_servers_put e d ≡ (d', none) → put_servers e req d ≡ (d', none)
  unfolding daemon_servers_put checked
  put-cases asked h = ground arith

  -- Where `daemonServersPut` succeeds, each server that can be changed has the address of the request, none
  -- where there is none, and a listener at just that address where it is to listen. Names are given once, and
  -- the listeners are as set before.
  pub address-daemon_servers_put :
      (k : Str) (s : Server)
      → DistinctNames d.servers
      → Distinct req
      → ListensAsSet d
      → e.request ≡ some req
      → daemon_servers_put e d ≡ (d', none)
      → server_named k d.servers ≡ some s
      → s.core_api ≡ false
      → (server_named k d'.servers ≡ some (record s { address = configured_address k req }))
        × (address_at (lookup k d'.listeners) ≡ (
            if needs_listener d.config.address (configured_address k req)
            then some (configured_address k req)
            else if has_key k req && str_eq s.address (configured_address k req)
            then address_at (lookup k d.listeners)
            else none))
  unfolding store set_servers
  address-daemon_servers_put k s names distinct as_set asked h found own =
      let (fine, on) = put_servers-ok (put-cases asked h) in
      let (named, listens) =
        address-update_servers e.system (store e req d).0 k s names distinct as_set fine found
          own in
      (
        ap (λ x. server_named k x.servers) on ∙ named,
        ap (λ x. address_at (lookup k x.listeners)) on ∙ listens,
      )
