-- ===== src/Daemon/Stopping.antt =====
-- internal/daemon/daemon.go: the two loops by which `UpdateServers` stops listeners.
use microcluster.Prelude.{
  ◌≡◌, refl, sym, subst, Str, str_eq, str_eq_iff, not, ◌&&◌, Option, none, some, List, [], ◌∷◌,
  Assoc, lookup, has_key, has_key-lookup, lookup-remove, Bool-cases, Option-cases, inl, inr, arith,
  if◌then◌else◌,
}
use microcluster.Endpoints.{down_by_name}
use microcluster.Endpoints.Changes.{Distinct}
use microcluster.Servers.{in_use}
use microcluster.Daemon.{Daemon, System, Error}
use microcluster.Daemon.Listeners.{set_server, server_named, take_down, stop_removed, stop_changed}
use microcluster.Daemon.Named.{DistinctNames, moved, named-set_server, set_server-DistinctNames}

module _ (e : System) where
  take_down-ok :
      (j k : Str) (d : Daemon)
      → (take_down e j d).1 ≡ none
      → (lookup k (take_down e j d).0.listeners
          ≡ (if str_eq j k then none else lookup k d.listeners))
        × ((take_down e j d).0.servers ≡ d.servers)
        × ((take_down e j d).0.config ≡ d.config)
  unfolding take_down down_by_name
  take_down-ok j k d h =
      (ground (arith, lookup-remove j k d.listeners, str_eq_iff j k), ground arith, ground arith)

  -- The first loop, where it succeeds.
  pub stop_removed-ok :
      (configured : Assoc Str) (names : List Str) (d : Daemon) (k : Str)
      → (stop_removed e configured names d).1 ≡ none
      → (lookup k (stop_removed e configured names d).0.listeners
          ≡ (if in_use k names && not (has_key k configured) then none else lookup k d.listeners))
        × (server_named k (stop_removed e configured names d).0.servers ≡ (
            if in_use k names && not (has_key k configured)
            then moved [] (server_named k d.servers)
            else server_named k d.servers))
        × ((stop_removed e configured names d).0.config ≡ d.config)
  unfolding stop_removed in_use
  stop_removed-ok configured [] d k h = (refl, refl, refl)
  stop_removed-ok configured (j ∷ names) d k h =
      let d₀ = record d { servers = set_server j [] d.servers } in
      let d₁ = (take_down e j d₀).0 in
      elim (Bool-cases (has_key j configured)) [
        | inl kept ↦
            let (left, named, same) = stop_removed-ok configured names d k (ground arith) in
            (ground (arith, str_eq_iff j k), ground (arith, str_eq_iff j k), ground arith)
        | inr gone ↦
            let taken : (take_down e j d₀).1 ≡ none = ground arith in
            let (down, servers, config) = take_down-ok j k d₀ taken in
            let (left, named, same) = stop_removed-ok configured names d₁ k (ground arith) in
            let set = named-set_server j k [] d.servers in
            (ground (arith, str_eq_iff j k), ground (arith, str_eq_iff j k), ground arith)
      ]

  servers-take_down : (j : Str) (d : Daemon) → (take_down e j d).0.servers ≡ d.servers
  unfolding take_down
  servers-take_down j d = refl

  pub stop_removed-DistinctNames :
      (configured : Assoc Str) (names : List Str) (d : Daemon)
      → DistinctNames d.servers
      → DistinctNames (stop_removed e configured names d).0.servers
  unfolding stop_removed
  stop_removed-DistinctNames configured [] d n = n
  stop_removed-DistinctNames configured (j ∷ names) d n =
      let d₀ = record d { servers = set_server j [] d.servers } in
      let d₁ = (take_down e j d₀).0 in
      let kept = stop_removed-DistinctNames configured names d n in
      let n₀ = set_server-DistinctNames j [] d.servers n in
      let n₁ = subst DistinctNames (sym (servers-take_down j d₀)) n₀ in
      elim (Bool-cases (has_key j configured)) [
        | inl p ↦ rw p kept
        | inr p ↦ elim (Option-cases (take_down e j d₀).1) [
          | inr (x, q) ↦ rw p (rw q n₁)
          | inl q ↦ rw p (rw q (stop_removed-DistinctNames configured names d₁ n₁))
        ]
      ]

  -- The second loop, where it succeeds.
  pub stop_changed-ok :
      (configured : Assoc Str) (d : Daemon) (k : Str)
      → Distinct configured
      → (stop_changed e configured d).1 ≡ none
      → (lookup k (stop_changed e configured d).0.listeners ≡ (elim (lookup k configured) [
        | none ↦ lookup k d.listeners
        | some address ↦ elim (server_named k d.servers) [
          | none ↦ lookup k d.listeners
          | some s ↦ if str_eq s.address address then lookup k d.listeners else none
        ]
      ]))
        × (server_named k (stop_changed e configured d).0.servers ≡ (elim (lookup k configured) [
          | none ↦ server_named k d.servers
          | some address ↦ moved address (server_named k d.servers)
        ]))
        × ((stop_changed e configured d).0.config ≡ d.config)
  unfolding stop_changed lookup
  stop_changed-ok [] d k n h = (refl, refl, refl)
  stop_changed-ok ((j, address) ∷ configured) d k n h =
      let absent = has_key-lookup j configured in
      elim (Option-cases (server_named j d.servers)) [
        | inl p ↦
            let (left, named, same) = stop_changed-ok configured d k n.1 (ground arith) in
            (ground (arith, n.0, str_eq_iff j k), ground (arith, n.0, str_eq_iff j k), ground arith)
        | inr (s, p) ↦
            let d₀ = record d { servers = set_server j address d.servers } in
            let d₁ = (take_down e j d₀).0 in
            let set = named-set_server j k address d.servers in
            elim (Bool-cases (str_eq s.address address)) [
              | inl q ↦
                  let (left, named, same) = stop_changed-ok configured d₀ k n.1 (ground arith) in
                  (
                    ground (arith, n.0, str_eq_iff j k),
                    ground (arith, n.0, str_eq_iff j k),
                    ground arith,
                  )
              | inr q ↦
                  let taken : (take_down e j d₀).1 ≡ none = ground arith in
                  let (down, servers, config) = take_down-ok j k d₀ taken in
                  let (left, named, same) = stop_changed-ok configured d₁ k n.1 (ground arith) in
                  (
                    ground (arith, n.0, str_eq_iff j k),
                    ground (arith, n.0, str_eq_iff j k),
                    ground arith,
                  )
            ]
      ]

  pub stop_changed-DistinctNames :
      (configured : Assoc Str) (d : Daemon)
      → DistinctNames d.servers
      → DistinctNames (stop_changed e configured d).0.servers
  unfolding stop_changed
  stop_changed-DistinctNames [] d n = n
  stop_changed-DistinctNames ((j, address) ∷ configured) d n =
      let d₀ = record d { servers = set_server j address d.servers } in
      let d₁ = (take_down e j d₀).0 in
      let n₀ = set_server-DistinctNames j address d.servers n in
      let n₁ = subst DistinctNames (sym (servers-take_down j d₀)) n₀ in
      let by : (x : Daemon × Option Error)
          → stop_changed e ((j, address) ∷ configured) d ≡ x
          → DistinctNames x.0.servers
          → DistinctNames (stop_changed e ((j, address) ∷ configured) d).0.servers =
        λ x on. subst (λ t. DistinctNames t.0.servers) (sym on) in
      elim (Option-cases (server_named j d.servers)) [
        | inl p ↦
            by (stop_changed e configured d) (ground arith)
              (stop_changed-DistinctNames configured d n)
        | inr (s, p) ↦ elim (Bool-cases (str_eq s.address address)) [
          | inl q ↦
              by (stop_changed e configured d₀) (ground arith)
                (stop_changed-DistinctNames configured d₀ n₀)
          | inr q ↦ elim (Option-cases (take_down e j d₀).1) [
            | inr (x, r) ↦ by (d₁, some x) (ground arith) n₁
            | inl r ↦
                by (stop_changed e configured d₁) (ground arith)
                  (stop_changed-DistinctNames configured d₁ n₁)
          ]
        ]
      ]
