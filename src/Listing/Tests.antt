-- ===== src/Listing/Tests.antt =====
-- internal/rest/resources/cluster.go: the list of members at concrete values.
use microcluster.Prelude.{
  ◌≡◌, refl, codes, Str, str_eq, insert, lookup, true, some, List, [], ◌∷◌, ok,
}
use microcluster.Extensions.{is_same_version}
use microcluster.Members.{Member, ApiMember, Parsers, to_api}
use microcluster.Upgrade.{Tables, get_cluster_table}
use microcluster.Upgrade.Awaiting.{get_upgrading, is_awaited, order_by_name}
use microcluster.Database.{waiting, Own}
use microcluster.Listing.{
  Listed, upgrading, needs_upgrade, Env, listed, list_waiting, get_waiting, cluster_get,
}

abbrev parsers : Parsers
parsers = record { address = some; certificate = some }

abbrev row : Str → Member
row a = record {
  id = 0;
  name = a;
  address = a;
  certificate = a;
  schema_internal = 6;
  schema_external = 0;
  api_extensions = [];
  heartbeat = 0;
  role = codes "voter";
}

abbrev behind : Member
behind = record (row (codes "b")) { schema_internal = 5 }

abbrev tables : Tables
tables = record { table = some (row (codes "a") ∷ behind ∷ []); has_api_column = true }

abbrev own : Own
own = record { internal = 6; external = 0; extensions = []; address = codes "a" }

abbrev env : Env
env = record { has_certificate = true; makes_client = λ a. true; is_ready = λ a. true }

abbrev api : Member → ApiMember
api m = record {
  name = m.name;
  address = m.address;
  certificate = m.certificate;
  role = m.role;
  schema_internal = m.schema_internal;
  schema_external = m.schema_external;
  last_heartbeat = m.heartbeat;
  extensions = m.api_extensions;
}

abbrev both : List Listed
both =
    record { member = api (row (codes "a")); status = upgrading }
    ∷ record { member = api behind; status = needs_upgrade }
    ∷ []

lists : cluster_get parsers env own waiting tables ≡ ok both
unfolding cluster_get get_waiting get_upgrading get_cluster_table is_awaited order_by_name
    is_same_version insert str_eq list_waiting listed to_api lookup
lists = refl
