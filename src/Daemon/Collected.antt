-- ===== src/Daemon/Collected.antt =====
-- internal/daemon/daemon.go: the listeners that the loop of `addExtensionServers` collects.
use microcluster.Prelude.{
  ◌≡◌, refl, sym, subst, ◌∙◌, Str, str_eq, str_eq_iff, Bool, true, false, ◌&&◌, Option, none, some,
  List, [], ◌∷◌, Assoc, lookup, insert, has_key, lookup-insert, All, All-mono, Bool-cases,
  Option-cases, inl, inr, arith, if◌then◌else◌,
}
use microcluster.Endpoints.{Endpoint, network}
use microcluster.Endpoints.Changes.{Distinct}
use microcluster.Servers.{Server}
use microcluster.Daemon.{Daemon, System}
use microcluster.Daemon.Listeners.{new_network, is_wanted, certificate_of, collect}
use microcluster.Daemon.Adding.{has_key-insert, insert-Distinct}

-- The server that a listener is wanted for under a name.
unfoldable pub wanted_server : Bool → Str → Assoc Endpoint → Str → List Server → Option Server
wanted_server before core_address ls k [] = none
wanted_server before core_address ls k (s ∷ servers) =
    if str_eq s.name k && is_wanted before core_address ls s
    then some s
    else wanted_server before core_address ls k servers

-- A listener, but for its certificate.
abbrev pub bare : Option Endpoint → Option Endpoint
bare none = none
bare (some n) = some (record n { cert = [] })

abbrev listener_of : Option Server → Option Endpoint
listener_of none = none
listener_of (some s) = some (new_network s.address [] s.resources)

insert-networks :
    (k : Str) (n : Endpoint) (m : Assoc Endpoint)
    → n.kind ≡ network
    → All (λ p. p.1.kind ≡ network) m
    → All (λ p. p.1.kind ≡ network) (insert k n m)
unfolding insert
insert-networks k n [] h a = (h, tt)
insert-networks k n ((j, w) ∷ m) h a = elim (Bool-cases (str_eq j k)) [
  | inl same ↦ rw (same, insert) (h, a.1)
  | inr other ↦ rw (other, insert) (a.0, insert-networks k n m h a.1)
]

module _ (e : System) (before : Bool) (fallback core_address : Str) where
  -- The loop writes nothing but the files of key pairs.
  pub collect_keeps :
      (servers : List Server) (d : Daemon)
      → (collect e before fallback core_address servers d).0 ≡ record d {
        certificates_dir = (collect e before fallback core_address servers d).0.certificates_dir;
      }
  unfolding collect
  collect_keeps [] d = refl
  collect_keeps (s ∷ servers) d = elim (Option-cases (certificate_of e fallback d s)) [
    | inl p ↦ ground (arith, collect_keeps servers d)
    | inr ((cert, files), p) ↦ ground (
      arith,
      collect_keeps servers d,
      collect_keeps servers (record d { certificates_dir = files }),
    )
  ]

  -- What a step of the loop is, where it succeeds.
  collect_step :
      (s : Server) (servers : List Server) (d : Daemon) (networks : Assoc Endpoint)
      → (collect e before fallback core_address (s ∷ servers) d).1 ≡ some networks
      → is_wanted before core_address d.listeners s ≡ true
      → (cert : Str) × (files : Assoc Str) × (more : Assoc Endpoint) × ((collect e before fallback
            core_address servers
            (record d { certificates_dir = files })).1
          ≡ some more)
        × (networks ≡ insert s.name (new_network s.address cert s.resources) more)
  unfolding collect
  collect_step s servers d networks h w = elim (Option-cases (certificate_of e fallback d s)) [
    | inl p ↦ absurd (ground arith)
    | inr ((cert, files), p) ↦
        elim (Option-cases
          (collect e before fallback core_address servers
            (record d { certificates_dir = files })).1) [
              | inl q ↦ absurd (ground arith)
              | inr (more, q) ↦ (cert, files, more, q, ground arith)
            ]
  ]

  collect_skip :
      (s : Server) (servers : List Server) (d : Daemon)
      → is_wanted before core_address d.listeners s ≡ false
      → collect e before fallback core_address (s ∷ servers) d
        ≡ collect e before fallback core_address servers d
  unfolding collect
  collect_skip s servers d w = ground arith

  pub collect-Distinct :
      (servers : List Server) (d : Daemon) (networks : Assoc Endpoint)
      → (collect e before fallback core_address servers d).1 ≡ some networks
      → Distinct networks × All (λ p. p.1.kind ≡ network) networks
  unfolding collect
  collect-Distinct [] d networks h =
      let none_left : [] ≡ networks = ground arith in
      subst (λ m. Distinct m × All (λ p. p.1.kind ≡ network) m) none_left (tt, tt)
  collect-Distinct (s ∷ servers) d networks h =
      elim (Bool-cases (is_wanted before core_address d.listeners s)) [
        | inr idle ↦ collect-Distinct servers d networks (rw (collect_skip s servers d idle) at h)
        | inl w ↦
            let (cert, files, more, q, made) = collect_step s servers d networks h w in
            let (distinct, all) =
              collect-Distinct servers (record d { certificates_dir = files }) more q in
            let n = new_network s.address cert s.resources in
            subst (λ m. Distinct m × All (λ p. p.1.kind ≡ network) m) (sym made)
              (insert-Distinct s.name n more distinct, insert-networks s.name n more refl all)
      ]

  -- Under each name the loop collects a listener for the first server that wants one there, and none else.
  pub collect_wanted :
      (servers : List Server) (d : Daemon) (networks : Assoc Endpoint) (k : Str)
      → (collect e before fallback core_address servers d).1 ≡ some networks
      → bare (lookup k networks)
        ≡ listener_of (wanted_server before core_address d.listeners k servers)
  unfolding collect wanted_server lookup
  collect_wanted [] d networks k h = ground arith
  collect_wanted (s ∷ servers) d networks k h =
      elim (Bool-cases (is_wanted before core_address d.listeners s)) [
        | inr idle ↦ ground (
          arith,
          idle,
          collect_skip s servers d idle,
          collect_wanted servers d networks k (rw (collect_skip s servers d idle) at h),
        )
        | inl w ↦
            let (cert, files, more, q, made) = collect_step s servers d networks h w in
            let n = new_network s.address cert s.resources in
            ground (
              arith,
              made,
              lookup-insert s.name k n more,
              collect_wanted servers (record d { certificates_dir = files }) more k q,
            )
      ]

  -- Each server that wants a listener has one among those that are collected.
  pub collect_each :
      (servers : List Server) (d : Daemon) (networks : Assoc Endpoint)
      → (collect e before fallback core_address servers d).1 ≡ some networks
      → All
          (λ s. is_wanted before core_address d.listeners s ≡ true → has_key s.name networks ≡ true)
          servers
  unfolding collect
  collect_each [] d networks h = tt
  collect_each (s ∷ servers) d networks h =
      elim (Bool-cases (is_wanted before core_address d.listeners s)) [
        | inr idle ↦ (
          λ w. absurd (ground arith),
          collect_each servers d networks (rw (collect_skip s servers d idle) at h),
        )
        | inl w ↦
            let (cert, files, more, q, made) = collect_step s servers d networks h w in
            let n = new_network s.address cert s.resources in
            (
              λ v.
                  ground
                    (arith, made, has_key-insert s.name s.name n more, str_eq_iff s.name s.name),
              All-mono _ _ servers
                  (λ x f v. ground (arith, made, f v, has_key-insert s.name x.name n more))
                  (collect_each servers (record d { certificates_dir = files }) more q),
            )
      ]

  -- Where no server wants a listener the loop does nothing.
  pub collect_none :
      (servers : List Server) (d : Daemon)
      → All (λ s. is_wanted before core_address d.listeners s ≡ false) servers
      → collect e before fallback core_address servers d ≡ (d, some [])
  unfolding collect
  collect_none [] d a = refl
  collect_none (s ∷ servers) d a = collect_skip s servers d a.0 ∙ collect_none servers d a.1
