-- ===== src/Endpoints/Tests.antt =====
-- internal/endpoints/endpoints.go: listeners at concrete values.
use microcluster.Prelude.{
  ◌≡◌, ◌⊎◌, has_key, refl, codes, true, false, none, some, [], ◌∷◌, Assoc, Str, lookup, insert,
  remove, str_eq, All,
}
use microcluster.Endpoints.{
  Endpoint, network, Sockets, up, insert_each, add, stop_endpoints, down_each, down_by_name,
}
use microcluster.Endpoints.Changes.{add_atomic, stop_drains_none}

abbrev listener : Str → Endpoint
listener address = record {
  kind = network;
  address = address;
  cert = [];
  resources = [];
  listening = false;
}

-- Two listeners at one address do not go.
abbrev sockets : Sockets
sockets = record {
  listens = λ ls n. str_eq n.address (codes "a");
  closes = λ k. true;
  drains = λ k. true;
}

abbrev added : Assoc Endpoint
added = (codes "x", listener (codes "a")) ∷ (codes "y", listener (codes "b")) ∷ []

fails : add sockets added [] ≡ ([], false)
unfolding add up insert_each down_each down_by_name lookup insert remove str_eq
fails = refl

stop_drains_none_example : (stop_endpoints sockets ((codes "x", listener (codes "a")) ∷ [])).0 ≡ []
stop_drains_none_example = stop_drains_none sockets ((codes "x", listener (codes "a")) ∷ [])

add_atomic_example :
    (lookup (codes "z") (add sockets added []).0 ≡ none)
    × (((add sockets added []).1 ≡ true)
          × All
              (λ p. lookup p.0 (add sockets added []).0 ≡ some (record p.1 { listening = true }))
              added
        ⊎ ((add sockets added []).1 ≡ false)
          × All (λ p. lookup p.0 (add sockets added []).0 ≡ none) added)
unfolding has_key lookup str_eq
add_atomic_example =
    add_atomic sockets added [] (codes "z") (refl, (refl, tt)) (refl, (refl, tt)) refl
