-- ===== src/Servers/Tests.antt =====
-- internal/rest/resources/resources.go: servers at concrete values.
use microcluster.Prelude.{
  ◌≡◌, ◌↔◌, refl, codes, Str, str_eq, split, true, false, List, [], ◌∷◌, ◌++◌, ok, err, All,
}
use microcluster.Servers.{
  Resource, Server, reserved, path_in_use, first_path_element, has_pair, in_use, check_paths,
  check_resources, check_servers, paths_of, base_paths, validate_endpoints,
}
use microcluster.Servers.Paths.{NewPairs}
use microcluster.Servers.Valid.{Sane, NewAddresses, addresses_of, all_pairs, validate_endpoints_iff}

-- For paths without a slash at either end.
abbrev joined : Str → Str → Str
joined a b = a ++ codes "/" ++ b

abbrev resource : Str → Str → Resource
resource prefix path = record { prefix = prefix; paths = path ∷ [] }

abbrev server : Str → Str → Server
server prefix path = record {
  name = codes "x";
  core_api = true;
  pre_init = false;
  serve_unix = true;
  dedicated_certificate = false;
  address = [];
  resources = resource prefix path ∷ [];
}

abbrev base : List Resource
base = resource (codes "cluster") (codes "control") ∷ []

reserved_path :
    validate_endpoints joined base (codes "a") (server (codes "core") (codes "y") ∷ [])
    ≡ err reserved
unfolding validate_endpoints check_servers check_resources check_paths base_paths paths_of has_pair
    first_path_element split str_eq in_use
reserved_path = refl

same_path :
    validate_endpoints joined base (codes "a") (server (codes "cluster") (codes "control") ∷ [])
    ≡ err path_in_use
unfolding validate_endpoints check_servers check_resources check_paths base_paths paths_of has_pair
    first_path_element split str_eq in_use
same_path = refl

validate_endpoints_iff_example :
    (validate_endpoints joined base (codes "a") (server (codes "v1") (codes "y") ∷ []) ≡ ok tt) ↔ (
      All (Sane joined) (server (codes "v1") (codes "y") ∷ [])
      × NewAddresses (codes "a" ∷ []) (addresses_of (server (codes "v1") (codes "y") ∷ []))
      × NewPairs (base_paths joined base) (all_pairs joined (server (codes "v1") (codes "y") ∷ [])))
validate_endpoints_iff_example =
    validate_endpoints_iff joined base (codes "a") (server (codes "v1") (codes "y") ∷ [])
