-- ===== src/Daemon/Named.antt =====
-- internal/daemon/daemon.go: the extension servers by name.
use microcluster.Prelude.{
  ◌≡◌, refl, Str, str_eq, str_eq_iff, Bool, true, false, not, Option, none, some, List, [], ◌∷◌,
  Assoc, lookup, has_key, Bool-cases, inl, inr, arith, if◌then◌else◌,
}
use microcluster.Endpoints.{Endpoint, network, list}
use microcluster.Servers.{Server, in_use}
use microcluster.Daemon.Listeners.{is_wanted, extension_servers, set_server, server_named}
use microcluster.Daemon.Adding.{is_running}
use microcluster.Daemon.Collected.{wanted_server}

-- No two servers have one name.
abbrev pub DistinctNames : List Server → Type 0
DistinctNames [] = Unit
DistinctNames (s ∷ servers) = (server_named s.name servers ≡ none) × DistinctNames servers

abbrev pub moved : Str → Option Server → Option Server
moved address none = none
moved address (some s) = some (record s { address = address })

pub named-set_server :
    (j k address : Str) (servers : List Server)
    → server_named k (set_server j address servers)
      ≡ (if str_eq j k then moved address (server_named k servers) else server_named k servers)
unfolding set_server server_named
named-set_server j k address [] = ground arith
named-set_server j k address (s ∷ servers) = ground (
  arith,
  named-set_server j k address servers,
  str_eq_iff s.name j,
  str_eq_iff s.name k,
  str_eq_iff j k,
)

pub set_server-DistinctNames :
    (j address : Str) (servers : List Server)
    → DistinctNames servers
    → DistinctNames (set_server j address servers)
unfolding set_server
set_server-DistinctNames j address [] d = tt
set_server-DistinctNames j address (s ∷ servers) d = elim (Bool-cases (str_eq s.name j)) [
  | inl same ↦ rw same (d.0, d.1)
  | inr other ↦ rw other (
    ground (arith, d.0, named-set_server j s.name address servers),
    set_server-DistinctNames j address servers d.1,
  )
]

unnamed :
    (k : Str) (servers : List Server)
    → server_named k servers ≡ none
    → in_use k (extension_servers servers) ≡ false
unfolding in_use extension_servers server_named
unnamed k [] h = refl
unnamed k (s ∷ servers) h = ground (arith, unnamed k servers)

pub in_use-extension_servers :
    (k : Str) (servers : List Server) (s : Server)
    → DistinctNames servers
    → server_named k servers ≡ some s
    → in_use k (extension_servers servers) ≡ not s.core_api
unfolding in_use extension_servers server_named
in_use-extension_servers k [] s d h = absurd (ground arith)
in_use-extension_servers k (x ∷ servers) s d h =
    ground
      (arith, d.0, in_use-extension_servers k servers s d.1, unnamed k servers, str_eq_iff x.name k)

pub wanted-named :
    (before : Bool) (core_address : Str) (ls : Assoc Endpoint) (k : Str) (servers : List Server)
    → DistinctNames servers
    → wanted_server before core_address ls k servers ≡ (elim (server_named k servers) [
      | none ↦ none
      | some s ↦ if is_wanted before core_address ls s then some s else none
    ])
unfolding wanted_server server_named
wanted-named before core_address ls k [] d = refl
wanted-named before core_address ls k (s ∷ servers) d =
    ground (arith, wanted-named before core_address ls k servers d.1, d.0, str_eq_iff s.name k)

-- A name that has a network listener has a listener, and where the first of its listeners is one of the
-- network it has one.
pub running-has_key : (k : Str) (ls : Assoc Endpoint) → is_running k ls ≡ true → has_key k ls ≡ true
unfolding list has_key
running-has_key k [] h = ground arith
running-has_key k ((j, n) ∷ ls) h = ground (arith, running-has_key k ls)

pub lookup-running :
    (k : Str) (n : Endpoint) (ls : Assoc Endpoint)
    → lookup k ls ≡ some n
    → n.kind ≡ network
    → is_running k ls ≡ true
unfolding list has_key lookup
lookup-running k n [] h t = absurd (ground arith)
lookup-running k n ((j, m) ∷ ls) h t = ground (arith, lookup-running k n ls)
