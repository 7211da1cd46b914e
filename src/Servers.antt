-- ===== src/Servers.antt =====
-- internal/rest/resources/resources.go: `ValidateEndpoints`, the check of the servers that an application
-- adds to the daemon.
pub mod Paths
pub mod Valid
mod Tests
use microcluster.Prelude.{
  Str, codes, str_eq, split, Bool, true, false, not, ◌&&◌, ◌||◌, Option, none, some, List, [], ◌∷◌,
  ◌++◌, Result, ok, err, ◌>>=◌, ◌>>◌, refuse_if, if◌then◌else◌,
}

-- `rest.Resources`: the prefix, and the paths of the endpoints.
pub record Resource : Type 0 where
  pub prefix : Str
  pub paths : List Str

-- `rest.Server` under its name. The address is empty where none is defined.
pub record Server : Type 0 where
  pub name : Str
  pub core_api : Bool
  pub pre_init : Bool
  pub serve_unix : Bool
  pub dedicated_certificate : Bool
  pub address : Str
  pub resources : List Resource

pub data Error : Type 0 where
  no_resources unix_not_core core_certificate core_address : Error
  address_in_use no_endpoints reserved path_in_use : Error

-- `endpoints.EndpointsCore`
abbrev pub core : Str
core = codes "core"

-- The first two parts of `strings.SplitN(path, "/", 3)`, or its only one.
unfoldable pub first_path_element : Str → Str
first_path_element path = elim (split 47 path) [
  | [] ↦ path
  | p ∷ parts ↦ elim parts [ [] ↦ p | q ∷ more ↦ if str_eq p [] then q else p ]
]

-- `existingEndpointPaths`, as the list of its pairs of a server's name and a path.
unfoldable pub has_pair : Str × Str → List (Str × Str) → Bool
has_pair p [] = false
has_pair (n, u) ((m, v) ∷ pairs) = (str_eq m n && str_eq v u) || has_pair (n, u) pairs

unfoldable pub in_use : Str → List Str → Bool
in_use a [] = false
in_use a (b ∷ addresses) = str_eq b a || in_use a addresses

-- The paths of a server of the core API count as those of the core server.
abbrev pub internal_name : Server → Str
internal_name s = if s.core_api then core else s.name

-- The loop over the endpoints of a resource; the parameter is `filepath.Join`.
unfoldable pub check_paths :
    (Str → Str → Str) → Server → Str → List Str → List (Str × Str) → Result Error (List (Str × Str))
check_paths join s prefix [] existing = ok existing
check_paths join s prefix (p ∷ paths) existing =
    let pair : Str × Str = (internal_name s, join prefix p) in
    let rest = check_paths join s prefix paths (pair ∷ existing) in
    if s.core_api && str_eq (first_path_element (join prefix p)) core
    then err reserved
    else if has_pair pair existing
    then err path_in_use
    else rest

abbrev pub is_none : List Str → Bool
is_none [] = true
is_none (x ∷ xs) = false

unfoldable pub check_resources :
    (Str → Str → Str) → Server → List Resource → List (Str × Str) → Result Error (List (Str × Str))
check_resources join s [] existing = ok existing
check_resources join s (r ∷ resources) existing = do
  refuse_if (is_none r.paths) no_endpoints
  added ← check_paths join s r.prefix r.paths existing
  check_resources join s resources added

abbrev pub has_resources : Server → Bool
has_resources s = elim s.resources [ [] ↦ false | r ∷ rs ↦ true ]

-- The loop over the servers, in any order of the map.
unfoldable pub check_servers :
    (Str → Str → Str) → List Server → List Str → List (Str × Str) → Result Error Unit
check_servers join [] addresses existing = ok tt
check_servers join (s ∷ servers) addresses existing = do
  refuse_if (not (has_resources s)) no_resources
  refuse_if (s.serve_unix && not s.core_api) unix_not_core
  refuse_if (s.core_api && s.dedicated_certificate) core_certificate
  refuse_if (s.core_api && not (str_eq s.address [])) core_address
  refuse_if (not (str_eq s.address []) && in_use s.address addresses) address_in_use
  let used : List Str = if str_eq s.address [] then addresses else s.address ∷ addresses
  added ← check_resources join s s.resources existing
  check_servers join servers used added

-- The paths of the core listener.
unfoldable pub paths_of : (Str → Str → Str) → Str → Str → List Str → List (Str × Str)
paths_of join name prefix [] = []
paths_of join name prefix (p ∷ paths) = (name, join prefix p) ∷ paths_of join name prefix paths

unfoldable pub base_paths : (Str → Str → Str) → List Resource → List (Str × Str)
base_paths join [] = []
base_paths join (r ∷ base) = paths_of join core r.prefix r.paths ++ base_paths join base

-- `ValidateEndpoints`; `base` are the daemon's own resources.
unfoldable pub validate_endpoints :
    (Str → Str → Str) → List Resource → Str → List Server → Result Error Unit
validate_endpoints join base core_addr servers =
    check_servers join servers (core_addr ∷ []) (base_paths join base)
