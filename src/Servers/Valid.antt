-- ===== src/Servers/Valid.antt =====
-- internal/rest/resources/resources.go: the servers that `ValidateEndpoints` accepts.
use microcluster.Prelude.{
  ◌≡◌, ◌↔◌, refl, subst, inl, inr, Str, str_eq, Bool, true, false, not, ◌&&◌, List, [], ◌∷◌, ◌++◌,
  ok, All, Result-cases, Bool-cases, arith, if◌then◌else◌,
}
use microcluster.Servers.{
  Resource, Server, in_use, is_none, check_resources, has_resources, check_servers, base_paths,
  validate_endpoints,
}
use microcluster.Servers.Paths.{
  NewPairs, NewPairs-append, push, pairs_of, all_free, resources_sound, resources_complete,
}

-- What is asked of a server by itself.
abbrev is_sane : Server → Bool
is_sane s =
    has_resources s
    && not (s.serve_unix && not s.core_api)
    && not (s.core_api && s.dedicated_certificate)
    && not (s.core_api && not (str_eq s.address []))

abbrev pub Sane : (Str → Str → Str) → Server → Type 0
Sane join s =
    (is_sane s ≡ true)
    × All (λ r. is_none r.paths ≡ false) s.resources
    × (all_free s (pairs_of join s s.resources) ≡ true)

unfoldable pub addresses_of : List Server → List Str
addresses_of [] = []
addresses_of (s ∷ servers) =
    let rest = addresses_of servers in if str_eq s.address [] then rest else s.address ∷ rest

abbrev pub NewAddresses : List Str → List Str → Type 0
NewAddresses seen [] = Unit
NewAddresses seen (a ∷ addresses) = (in_use a seen ≡ false) × NewAddresses (a ∷ seen) addresses

unfoldable pub all_pairs : (Str → Str → Str) → List Server → List (Str × Str)
all_pairs join [] = []
all_pairs join (s ∷ servers) = pairs_of join s s.resources ++ all_pairs join servers

servers_sound :
    (join : Str → Str → Str) (servers : List Server) (seen : List Str) (ex : List (Str × Str))
    → check_servers join servers seen ex ≡ ok tt
    → All (Sane join) servers
      × NewAddresses seen (addresses_of servers)
      × NewPairs ex (all_pairs join servers)
unfolding check_servers addresses_of all_pairs
servers_sound join [] seen ex h = (tt, tt, tt)
servers_sound join (s ∷ servers) seen ex h =
    elim (Result-cases (check_resources join s s.resources ex)) [
      | inr (e, p) ↦ absurd (ground arith)
      | inl (added, p) ↦
          let here = pairs_of join s s.resources in
          let (full, new, free, left) = resources_sound join s s.resources ex added p in
          elim (Bool-cases (str_eq s.address [])) [
            | inl none_given ↦
                let (sane, addresses, pairs) =
                  servers_sound join servers seen added (ground arith) in
                (
                  ((ground arith, full, free), sane),
                  rw none_given addresses,
                  (NewPairs-append ex here (all_pairs join servers)).1
                      (new, subst (λ z. NewPairs z (all_pairs join servers)) left pairs),
                )
            | inr given ↦
                let (sane, addresses, pairs) =
                  servers_sound join servers (s.address ∷ seen) added (ground arith) in
                (
                  ((ground arith, full, free), sane),
                  rw given (ground arith, addresses),
                  (NewPairs-append ex here (all_pairs join servers)).1
                      (new, subst (λ z. NewPairs z (all_pairs join servers)) left pairs),
                )
          ]
    ]

servers_complete :
    (join : Str → Str → Str) (servers : List Server) (seen : List Str) (ex : List (Str × Str))
    → All (Sane join) servers
    → NewAddresses seen (addresses_of servers)
    → NewPairs ex (all_pairs join servers)
    → check_servers join servers seen ex ≡ ok tt
unfolding check_servers addresses_of all_pairs
servers_complete join [] seen ex a n p = refl
servers_complete join (s ∷ servers) seen ex ((sane, full, free), others) n p =
    let here = pairs_of join s s.resources in
    let (new, news) = (NewPairs-append ex here (all_pairs join servers)).0 p in
    let one = resources_complete join s s.resources ex full new free in
    elim (Bool-cases (str_eq s.address [])) [
      | inl none_given ↦
          let rest =
            servers_complete join servers seen (push ex here) others (rw none_given at n) news in
          ground arith
      | inr given ↦
          let fresh : (in_use s.address seen ≡ false)
              × NewAddresses (s.address ∷ seen) (addresses_of servers) =
            rw given at n in
          let used = fresh.0 in
          let rest =
            servers_complete join servers (s.address ∷ seen) (push ex here) others fresh.1 news in
          ground arith
    ]

-- Servers are accepted exactly when each is sound by itself (it has resources, and these have endpoints; only
-- a server of the core API is served on the unix socket, and such a server has no certificate, address or
-- path under `core` of its own), no address is given twice or is that of the core, and no path is there
-- twice on one listener, the daemon's own paths included.
pub validate_endpoints_iff :
    (join : Str → Str → Str) (base : List Resource) (core_addr : Str) (servers : List Server)
    → (validate_endpoints join base core_addr servers ≡ ok tt) ↔ (
        All (Sane join) servers
        × NewAddresses (core_addr ∷ []) (addresses_of servers)
        × NewPairs (base_paths join base) (all_pairs join servers))
unfolding validate_endpoints
validate_endpoints_iff join base core_addr servers = (
  λ h. servers_sound join servers (core_addr ∷ []) (base_paths join base) h,
  λ (a, n, p). servers_complete join servers (core_addr ∷ []) (base_paths join base) a n p,
)
