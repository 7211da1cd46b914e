-- ===== src/Daemon/Added.antt =====
-- internal/daemon/daemon.go: what `addExtensionServers` does.
use microcluster.Prelude.{
  ◌≡◌, ◌⊎◌, sym, ap, subst, ◌∙◌, Str, Bool, true, false, ◌||◌, none, some, [], ◌∷◌, Assoc, lookup,
  has_key, has_key-lookup, All, All-mono, Option-cases, inl, inr, arith,
}
use microcluster.Endpoints.{Endpoint, up, insert_each, add}
use microcluster.Endpoints.Changes.{add_listens, lookup-add_other}
use microcluster.Servers.{Server}
use microcluster.Daemon.{Daemon, System}
use microcluster.Daemon.Listeners.{new_network, is_wanted, collect, add_extension_servers}
use microcluster.Daemon.Adding.{All-lookup, is_running, running-add}
use microcluster.Daemon.Collected.{
  wanted_server, bare, collect_keeps, collect-Distinct, collect_wanted, collect_each, collect_none,
}

-- Of a daemon, `d'` differs from `d` in nothing but the listeners and the files of key pairs.
abbrev pub SameButListeners : Daemon → Daemon → Type 0
SameButListeners d d' =
    d' ≡ record d { listeners = d'.listeners; certificates_dir = d'.certificates_dir }

is_wanted_now :
    (before : Bool) (core_address : Str) (ls ls' : Assoc Endpoint) (s : Server)
    → (is_running s.name ls ≡ true → is_running s.name ls' ≡ true)
    → (is_wanted before core_address ls s ≡ true → is_running s.name ls' ≡ true)
    → is_wanted before core_address ls' s ≡ false
unfolding is_wanted
is_wanted_now before core_address ls ls' s keeps starts = ground arith

module _ (e : System) (before : Bool) (fallback core_address : Str) where
  -- What the end of `addExtensionServers` does with the listeners that were collected.
  end_ok :
      (d : Daemon) (networks : Assoc Endpoint)
      → (collect e before fallback core_address d.servers d).1 ≡ some networks
      → (add_extension_servers e before fallback core_address d).1 ≡ none
      → ((add e.sockets networks d.listeners).1 ≡ true)
        × ((add_extension_servers e before fallback core_address d).0.listeners
            ≡ (add e.sockets networks d.listeners).0)
        × SameButListeners d (add_extension_servers e before fallback core_address d).0
  unfolding add_extension_servers add up insert_each
  end_ok d [] p h = ground (arith, collect_keeps e before fallback core_address d.servers d)
  end_ok d (n ∷ networks) p h =
      ground (arith, collect_keeps e before fallback core_address d.servers d)

  added_by :
      (d : Daemon)
      → (add_extension_servers e before fallback core_address d).1 ≡ none
      → (networks : Assoc Endpoint) × ((collect e before fallback core_address d.servers d).1
          ≡ some networks)
  unfolding add_extension_servers
  added_by d h = elim (Option-cases (collect e before fallback core_address d.servers d).1) [
    | inl p ↦ absurd (ground arith)
    | inr (networks, p) ↦ (networks, p)
  ]

  idle :
      (d : Daemon)
      → All (λ s. is_wanted before core_address d.listeners s ≡ false) d.servers
      → add_extension_servers e before fallback core_address d ≡ (d, none)
  unfolding add_extension_servers
  idle d a = ground (arith, collect_none e before fallback core_address d.servers d a)

  pub add_extension_servers_starts :
      (d : Daemon)
      → (add_extension_servers e before fallback core_address d).1 ≡ none
      → ((k : Str) (s : Server)
          → wanted_server before core_address d.listeners k d.servers ≡ some s
          → bare (lookup k (add_extension_servers e before fallback core_address d).0.listeners)
            ≡ some (record (new_network s.address [] s.resources) { listening = true }))
        × ((k : Str)
            → wanted_server before core_address d.listeners k d.servers ≡ none
            → lookup k (add_extension_servers e before fallback core_address d).0.listeners
              ≡ lookup k d.listeners)
        × SameButListeners d (add_extension_servers e before fallback core_address d).0
        × (add_extension_servers e before fallback core_address
              (add_extension_servers e before fallback core_address d).0
            ≡ ((add_extension_servers e before fallback core_address d).0, none))
  add_extension_servers_starts d h =
      let (networks, p) = added_by d h in
      let (up, on, same) = end_ok d networks p h in
      let (distinct, all) =
        collect-Distinct e before fallback core_address d.servers d networks p in
      let d' = (add_extension_servers e before fallback core_address d).0 in
      (
        λ k s w.
            let asked = collect_wanted e before fallback core_address d.servers d networks k p in
            elim (Option-cases (lookup k networks)) [
              | inl q ↦ absurd (ground arith)
              | inr (n, q) ↦
                  let listens =
                    All-lookup
                      (λ j m.
                        lookup j (add e.sockets networks d.listeners).0
                        ≡ some (record m { listening = true }))
                      k n networks (add_listens e.sockets networks d.listeners distinct up) q in
                  ground arith
            ],
        λ k w.
            let asked = collect_wanted e before fallback core_address d.servers d networks k p in
            let absent : has_key k networks ≡ false = ground (arith, has_key-lookup k networks) in
            ap (lookup k) on ∙ lookup-add_other e.sockets networks d.listeners k absent,
        same,
        idle d' (
            subst
              (λ servers. All (λ s. is_wanted before core_address d'.listeners s ≡ false) servers)
              (sym (ap (λ x. x.servers) same))
              (All-mono _ _ d.servers
                (λ s f.
                  let now : is_running s.name d'.listeners
                      ≡ has_key s.name networks || is_running s.name d.listeners =
                    ap (is_running s.name) on
                    ∙ running-add e.sockets networks d.listeners s.name all up in
                  is_wanted_now before core_address d.listeners d'.listeners s (λ r. ground arith)
                    (λ w. ground (arith, f w)))
                (collect_each e before fallback core_address d.servers d networks p))),
      )

  -- Where `addExtensionServers` succeeds, under each name either a server wanted a listener that was not
  -- there, and it has one now, with the server's address and resources; or the listener is as it was.
  -- Nothing else but files of key pairs is changed, and a second call finds nothing to do.
  pub add_extension_servers_lem :
      (d : Daemon) (k : Str)
      → (add_extension_servers e before fallback core_address d).1 ≡ none
      → (((s : Server) × (wanted_server before core_address d.listeners k d.servers ≡ some s)
            × (bare (lookup k (add_extension_servers e before fallback core_address d).0.listeners)
                ≡ some (record (new_network s.address [] s.resources) { listening = true })))
          ⊎ ((wanted_server before core_address d.listeners k d.servers ≡ none)
              × (lookup k (add_extension_servers e before fallback core_address d).0.listeners
                  ≡ lookup k d.listeners)))
        × SameButListeners d (add_extension_servers e before fallback core_address d).0
        × (add_extension_servers e before fallback core_address
              (add_extension_servers e before fallback core_address d).0
            ≡ ((add_extension_servers e before fallback core_address d).0, none))
  add_extension_servers_lem d k h =
      let (starts, keeps, same, again) = add_extension_servers_starts d h in
      (
        elim (Option-cases (wanted_server before core_address d.listeners k d.servers)) [
          | inl w ↦ inr (w, keeps k w)
          | inr (s, w) ↦ inl (s, w, starts k s w)
        ],
        same,
        again,
      )
