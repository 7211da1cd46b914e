-- ===== src/Upgrade/Agreement.antt =====
-- The marks that a waiting daemon reports (cluster/cluster_members.go) against the decision to wait
-- (internal/db/db.go), and the role that the statements of internal/db/update/cluster.go leave out.
use microcluster.Prelude.{
  ℕ, str_eq, ◌≡◌, ◌≢◌, refl, Bool, true, false, ◌||◌, some, List, [], ◌∷◌, map, ok, is_ok, All,
  arith,
}
use microcluster.Extensions.{Extensions, is_same_version}
use microcluster.Extensions.Versions.{is_same_version_iff}
use microcluster.Members.{Member, pending}
use microcluster.Upgrade.{
  Tables, get_cluster_table, not_pending, get_schema_versions, get_api_extensions,
}
use microcluster.Upgrade.Check.{wait, compare_versions, check_api_extensions}
use microcluster.Upgrade.Check.Verdicts.{
  any_below, any_other, compare_versions_lem, check_api_extensions_lem,
}
use microcluster.Upgrade.Awaiting.{is_awaited}

abbrev internals : List Member → List ℕ
internals = map (λ m. m.schema_internal)

abbrev externals : List Member → List ℕ
externals = map (λ m. m.schema_external)

same_version_comm : (e x : Extensions) → is_ok (is_same_version e x) ≡ is_ok (is_same_version x e)
same_version_comm e x = ground (arith, is_same_version_iff e x, is_same_version_iff x e)

none_below :
    (i e : ℕ) (x : Extensions) (c : Bool) (rows : List Member)
    → All (λ m. is_awaited i e x c m ≡ false) rows
    → any_below i (internals rows) || any_below e (externals rows) ≡ false
unfolding is_awaited
none_below i e x c [] h = refl
none_below i e x c (m ∷ rows) h = ground (arith, h.0, none_below i e x c rows h.1)

none_other :
    (i e : ℕ) (x : Extensions) (rows : List Member)
    → All (λ m. is_awaited i e x true m ≡ false) rows
    → any_other x (map (λ m. m.api_extensions) rows) ≡ false
unfolding is_awaited
none_other i e x [] h = refl
none_other i e x (m ∷ rows) h =
    ground (arith, h.0, same_version_comm m.api_extensions x, none_other i e x rows h.1)

-- When none of the members is awaited, neither comparison of `waitUpgrade` decides to wait.
none_awaited-ne-wait :
    (i e : ℕ) (x : Extensions) (rows : List Member)
    → All (λ m. is_awaited i e x true m ≡ false) rows
    → (compare_versions i e (internals rows, externals rows) ≢ wait)
      × (check_api_extensions x (map (λ m. m.api_extensions) rows) ≢ ok true)
none_awaited-ne-wait i e x rows h = (
  λ w. ground (
    arith,
    none_below i e x true rows h,
    compare_versions_lem i e (internals rows) (externals rows),
  ),
  λ w. ground (
    arith,
    none_other i e x rows h,
    check_api_extensions_lem x (map (λ m. m.api_extensions) rows),
  ),
)

keeps_pending : (rows : List Member) → All (λ m. m.role ≡ pending) rows → not_pending rows ≡ rows
unfolding not_pending str_eq
keeps_pending [] h = refl
keeps_pending (m ∷ rows) h = rw (h.0, keeps_pending rows h.1)

-- The statements that leave out the members of role `pending` leave out none of those that have the
-- role `PENDING`, which is how a member that is about to be added is stored: its versions are among
-- those that are compared.
pending_compared :
    (db : Tables) (rows : List Member)
    → db.table ≡ some rows
    → All (λ m. m.role ≡ pending) rows
    → (get_schema_versions db ≡ ok (internals rows, externals rows))
      × (get_api_extensions db ≡ ok (map (λ m. m.api_extensions) rows))
unfolding get_schema_versions get_api_extensions get_cluster_table
pending_compared db rows t h = (rw (t, keeps_pending rows h), rw (t, keeps_pending rows h))
