-- ===== src/Upgrade/Check/Proceed.antt =====
-- internal/db/db.go: what the two comparisons of `waitUpgrade` have found where they let a member go on.
use microcluster.Prelude.{
  ℕ, Str, ◌≡◌, inl, inr, true, false, some, List, [], ◌∷◌, map, is_ok, All, Option-cases,
  Result-cases, arith,
}
use microcluster.Extensions.{Extensions, is_same_version}
use microcluster.Members.{Member}
use microcluster.Upgrade.{
  Tables, get_cluster_table, not_pending, get_schema_versions, update_api_extensions,
  get_api_extensions,
}
use microcluster.Upgrade.Check.{
  proceed, check_versions, check_extensions, check_in, settle, judge, announce, extensions_in,
  compare_extensions,
}
use microcluster.Upgrade.Check.Verdicts.{proceed_iff, any_other, check_api_extensions_lem}
use microcluster.Upgrade.Check.Commit.{announced, check_versions_commit}

-- The rows that a member compares have its versions.
abbrev pub SameSchema : ℕ → ℕ → Member → Type 0
SameSchema i e m = (m.schema_internal ≡ i) × (m.schema_external ≡ e)

level :
    (i e : ℕ) (rows : List Member)
    → All (λ x. x ≡ i) (map (λ r. r.schema_internal) rows)
    → All (λ x. x ≡ e) (map (λ r. r.schema_external) rows)
    → All (SameSchema i e) rows
level i e [] h k = tt
level i e (m ∷ rows) h k = ((h.0, k.0), level i e rows h.1 k.1)

pub check_versions_proceed :
    (i e : ℕ) (x : Extensions) (name : Str) (db : Tables) (rows : List Member)
    → db.table ≡ some rows
    → (check_versions i e x name db).1 ≡ proceed
    → All (SameSchema i e) (not_pending (map (announced i e x db.has_api_column name) rows))
unfolding check_versions check_in settle judge get_schema_versions get_cluster_table
check_versions_proceed i e x name db rows t h =
    let all = map (announced i e x db.has_api_column name) rows in
    let left = check_versions_commit i e x name db rows t (inr h) in
    let (is, es) =
      (proceed_iff i e (map (λ r. r.schema_internal) (not_pending all))
          (map (λ r. r.schema_external) (not_pending all))).0
        (elim (Result-cases (announce i e x name db)) [
          | inr (z, p) ↦ absurd (ground arith)
          | inl (y, p) ↦ ground arith
        ]) in
    level i e (not_pending all) is es

-- The rows that are compared have no other extensions than the member.
abbrev pub SameExtensions : Extensions → List Member → Type 0
SameExtensions x rows = All (λ m. is_ok (is_same_version x m.api_extensions) ≡ true) rows

no_other :
    (x : Extensions) (rows : List Member)
    → any_other x (map (λ m. m.api_extensions) rows) ≡ false
    → SameExtensions x rows
no_other x [] h = tt
no_other x (m ∷ rows) h = (ground arith, no_other x rows (ground arith))

pub check_extensions_proceed :
    (x : Extensions) (name : Str) (db : Tables)
    → (check_extensions x name db).1 ≡ proceed
    → (rows : List Member) × ((check_extensions x name db).0.table ≡ some rows)
      × SameExtensions x (not_pending rows)
unfolding check_extensions extensions_in compare_extensions settle get_api_extensions
    get_cluster_table
check_extensions_proceed x name db h = elim (Result-cases (update_api_extensions x name db)) [
  | inr (z, p) ↦ absurd (ground arith)
  | inl (t, p) ↦ elim (Option-cases t.table) [
    | inl q ↦ absurd (ground arith)
    | inr (rows, q) ↦ (
      rows,
      ground (arith, check_api_extensions_lem x (map (λ m. m.api_extensions) (not_pending rows))),
      no_other x (not_pending rows) (
          ground
            (arith, check_api_extensions_lem x (map (λ m. m.api_extensions) (not_pending rows)))),
    )
  ]
]
