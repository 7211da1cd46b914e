-- ===== src/Daemon/Announced.antt =====
-- internal/daemon/daemon.go: what the other members answer to one that joins by `StartAPI`.
use microcluster.Prelude.{
  ◌≡◌, refl, ap, Str, str_eq, Bool, true, false, not, ◌&&◌, none, some, List, [], ◌∷◌, Bool-cases,
  inl, inr, Elem, All, Option-cases, ◌≢◌, ◌⊎◌, arith,
}
use microcluster.Issue.{addresses}
use microcluster.Join.{remote_by_address}
use microcluster.Trust.{Remote}
use microcluster.Config.{parse_addr_port}
use microcluster.Daemon.{Daemon}
use microcluster.Daemon.Setup.{Startup, refused, and_then}
use microcluster.Daemon.Start.{
  refresh, texts, is_confirmed, is_told, all_told, make_clients, confirm, tell, with_hosts,
  announce,
}
use microcluster.Daemon.Starting.{announce_is}

pub is_confirmed-Elem :
    (e : Startup) (own : Str) (hosts : List Str)
    → is_confirmed e own hosts ≡ true
    → (x : Str) × Elem x hosts × (str_eq own x ≡ false) × (e.confirms x ≡ true)
unfolding is_confirmed
is_confirmed-Elem e own [] h = absurd (ground arith)
is_confirmed-Elem e own (a ∷ hosts) h = elim (Bool-cases (not (str_eq own a) && e.confirms a)) [
  | inl here ↦ (a, inl refl, ground arith, ground arith)
  | inr there ↦
      let (x, at, other, fine) = is_confirmed-Elem e own hosts (ground arith) in
      (x, inr at, other, fine)
]

module _ (e : Startup) where
  -- A member, by its address, that is the daemon itself, or is a remote that did not refuse to run its hook.
  abbrev pub Told : Daemon → Str → Type 0
  Told d a =
      (str_eq d.config.address a ≡ true)
      ⊎ ((e.replies a ≢ refused)
          × ((host : Str) × (r : Remote) × (parse_addr_port e.system.config_yaml.addresses a
                ≡ some host)
              × (remote_by_address host d.remotes.content ≡ some r)))

  pub announced :
      (d : Daemon)
      → (announce e true d).1 ≡ none
      → ((announce e true d).0 ≡ (refresh e d).0)
        × (is_confirmed e
              (refresh e d).0.config.address
              (texts (addresses (refresh e d).0.remotes.content []))
            ≡ true)
        × (all_told e true (refresh e d).0 (texts (addresses (refresh e d).0.remotes.content []))
            ≡ true)
  unfolding announce and_then make_clients with_hosts confirm tell
  announced d h = ground arith

  pub db-announce : (joining : Bool) (d : Daemon) → (announce e joining d).0.db ≡ d.db
  unfolding refresh
  db-announce joining d = ap (λ x. x.db) (announce_is e joining d)

  pub all_told-All :
      (d : Daemon) (hosts : List Str) → all_told e true d hosts ≡ true → All (Told d) hosts
  unfolding all_told is_told
  all_told-All d [] h = tt
  all_told-All d (a ∷ hosts) h = elim (Bool-cases (str_eq d.config.address a)) [
    | inl own ↦ (inl own, all_told-All d hosts (ground arith))
    | inr other ↦ elim (Option-cases (parse_addr_port e.system.config_yaml.addresses a)) [
      | inl p ↦ absurd (ground arith)
      | inr (host, p) ↦ elim (Option-cases (remote_by_address host d.remotes.content)) [
        | inl q ↦ absurd (ground arith)
        | inr (r, q) ↦
            (inr (λ no. ground arith, (host, r, p, q)), all_told-All d hosts (ground arith))
      ]
    ]
  ]
