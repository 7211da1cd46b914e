-- ===== src/Endpoints.antt =====
-- internal/endpoints/endpoints.go: the listeners of a daemon by name. A loop over a map goes through its
-- entries in some order; an operation that fails returns the map as it is then.
pub mod Changes
mod Tests
use microcluster.Prelude.{
  Str, Bool, true, false, not, ◌&&◌, ◌||◌, Option, none, some, List, [], ◌∷◌, Assoc, lookup, insert,
  remove, if◌then◌else◌,
}
use microcluster.Servers.{Resource}

-- `EndpointType`
pub data EndpointType : Type 0 where
  control network : EndpointType

-- A `Socket` or a `Network`: its address, its certificate (empty for a socket), what its server serves, and
-- whether it has a listener.
pub record Endpoint : Type 0 where
  pub kind : EndpointType
  pub address : Str
  pub cert : Str
  pub resources : List Resource
  pub listening : Bool

-- What the system answers: whether `Listen` succeeds beside the endpoints that there are, whether the
-- listener of a name is closed, and whether its server is shut down.
pub record Sockets : Type 0 where
  pub listens : Assoc Endpoint → Endpoint → Bool
  pub closes : Str → Bool
  pub drains : Str → Bool

abbrev pub same_kind : EndpointType → EndpointType → Bool
same_kind control control = true
same_kind network network = true
same_kind _ _ = false

-- `shared.ValueInSlice` on types.
abbrev kind_in : EndpointType → List EndpointType → Bool
kind_in t [] = false
kind_in t (u ∷ types) = same_kind u t || kind_in t types

abbrev no_types : List EndpointType → Bool
no_types [] = true
no_types (t ∷ types) = false

unfoldable pub insert_each : Assoc Endpoint → Assoc Endpoint → Assoc Endpoint
insert_each [] ls = ls
insert_each ((k, n) ∷ added) ls = insert_each added (insert k n ls)

module _ (e : Sockets) where
  -- `Close`: where there is no listener there is nothing to close.
  abbrev is_closed : Str → Endpoint → Bool
  is_closed k n = not n.listening || e.closes k

  -- `up`, and whether it succeeds.
  unfoldable pub up : Assoc Endpoint → Assoc Endpoint → Assoc Endpoint × Bool
  up [] ls = (ls, true)
  up ((k, n) ∷ started) ls =
      let rest = up started (insert k (record n { listening = true }) ls) in
      if e.listens ls n then rest else (ls, false)

  -- `DownByName`
  unfoldable pub down_by_name : Str → Assoc Endpoint → Assoc Endpoint × Bool
  down_by_name k ls = elim (lookup k ls) [
    | none ↦ (ls, true)
    | some n ↦ if is_closed k n then (remove k ls, true) else (ls, false)
  ]

  -- The end of `Add` where it fails; the errors of `DownByName` are ignored.
  unfoldable pub down_each : Assoc Endpoint → Assoc Endpoint → Assoc Endpoint
  down_each [] ls = ls
  down_each ((k, n) ∷ added) ls = down_each added (down_by_name k ls).0

  -- `Add`
  unfoldable pub add : Assoc Endpoint → Assoc Endpoint → Assoc Endpoint × Bool
  add added ls =
      let (ls', is_up) = up added (insert_each added ls) in
      if is_up then (ls', true) else (down_each added ls', false)

  -- `Down`, for the types given, or for all where none is.
  unfoldable pub down : List EndpointType → Assoc Endpoint → Assoc Endpoint × Bool
  down types [] = ([], true)
  down types ((k, n) ∷ ls) =
      let (left, fine) = down types ls in
      if not (no_types types || kind_in n.kind types)
      then ((k, n) ∷ left, fine)
      else if is_closed k n
      then (left, fine)
      else ((k, n) ∷ ls, false)

  -- `Up`
  unfoldable pub up_all : Assoc Endpoint → Assoc Endpoint × Bool
  up_all ls = let (ls', is_up) = up ls ls in if is_up then (ls', true) else ((down [] ls').0, false)

  -- `Shutdown`: the names whose servers are shut down, what is left, and whether it succeeds.
  unfoldable pub shutdown : Assoc Endpoint → List Str × Assoc Endpoint × Bool
  shutdown [] = ([], [], true)
  shutdown ((k, n) ∷ ls) =
      let (names, left, fine) = shutdown ls in
      if is_closed k n && e.drains k then (k ∷ names, left, fine) else ([], (k, n) ∷ ls, false)

  -- The end of `stop` in internal/daemon/daemon.go, once the database is stopped; the names are those of
  -- the servers that are shut down.
  unfoldable pub stop_endpoints : Assoc Endpoint → List Str × Assoc Endpoint × Bool
  stop_endpoints ls =
      let (left, fine) = down [] ls in if fine then shutdown left else ([], left, false)

-- `List`
unfoldable pub list : List EndpointType → Assoc Endpoint → Assoc Endpoint
list types [] = []
list types ((k, n) ∷ ls) =
    let rest = list types ls in if kind_in n.kind types then (k, n) ∷ rest else rest

-- `UpdateTLSByName`: only a network endpoint that listens takes the certificate.
unfoldable pub update_tls : Str → Str → Assoc Endpoint → Assoc Endpoint
update_tls k cert ls = elim (lookup k ls) [
  | none ↦ ls
  | some n ↦
      if same_kind n.kind network && n.listening then insert k (record n { cert = cert }) ls else ls
]
