-- ===== src/Upgrade/Tests.antt =====
-- The theorems about the version checks of internal/db/db.go at concrete tables.
use mathlib.Core.Logic.{inr}
use microcluster.Prelude.{
  ℕ, Str, codes, str_eq, ◌≡◌, ◌≢◌, inl, refl, Bool, true, false, some, List, [], ◌∷◌, ok, All,
  Assoc, insert, arith,
}
use microcluster.Extensions.{Extensions, is_same_version}
use microcluster.Members.{Member, pending}
use microcluster.Upgrade.{
  Tables, node_behind, update_where, get_cluster_table, update_schema_version,
  update_api_extensions, not_pending, get_schema_versions,
}
use microcluster.Upgrade.Check.{wait, fail, compare_versions, check_schema_version, check_versions}
use microcluster.Upgrade.Check.Verdicts.{verdict, others_fail}
use microcluster.Upgrade.Awaiting.{
  distinct_names, name_in, get_upgrading, is_awaited, order_by_name,
}

abbrev member_of : Str → ℕ → ℕ → Extensions → Member
member_of name internal external e = record {
  id = 1;
  name = name;
  address = name;
  certificate = name;
  schema_internal = internal;
  schema_external = external;
  api_extensions = e;
  heartbeat = 0;
  role = pending;
}

abbrev old : Member
old = member_of (codes "a") 2 1 (codes "x" ∷ [])

abbrev new : Member
new = member_of (codes "b") 3 1 (codes "x" ∷ codes "y" ∷ [])

abbrev rows : List Member
rows = old ∷ new ∷ []

abbrev tables : Tables
tables = record { table = some rows; has_api_column = true }

new_waits : verdict new rows ≡ wait
unfolding compare_versions check_schema_version
new_waits = refl

others_fail_example : verdict old rows ≡ fail node_behind
others_fail_example =
    others_fail rows new old (inr (inl refl)) (inl refl) new_waits (inl (omega arith))

abbrev newer : List Member
newer = new ∷ member_of (codes "c") 3 1 [] ∷ []

level_of_newer : verdict new newer ≢ fail node_behind
unfolding compare_versions check_schema_version
level_of_newer h = ground arith

old_fails : (check_versions 2 1 (codes "x" ∷ []) (codes "a") tables).1 ≡ fail node_behind
unfolding check_versions update_schema_version update_api_extensions update_where get_cluster_table
    get_schema_versions not_pending compare_versions check_schema_version str_eq
old_fails = refl

new_waits_in_table : (check_versions 4 1 [] (codes "b") tables).1 ≡ wait
unfolding check_versions update_schema_version update_api_extensions update_where get_cluster_table
    get_schema_versions not_pending compare_versions check_schema_version str_eq
new_waits_in_table = refl

abbrev new_marks : Assoc Bool
new_marks = (codes "a", true) ∷ (codes "b", true) ∷ []

upgrading_runs : get_upgrading 3 1 (codes "x" ∷ []) tables ≡ ok (rows, new_marks)
unfolding get_upgrading get_cluster_table order_by_name is_awaited is_same_version insert str_eq
upgrading_runs = refl

rows_distinct : distinct_names rows ≡ true
unfolding name_in str_eq
rows_distinct = refl

none_awaited : All (λ m. is_awaited 2 1 (codes "x" ∷ []) true m ≡ false) (old ∷ [])
unfolding is_awaited is_same_version str_eq
none_awaited = (refl, tt)
