-- ===== src/Upgrade/Check/Verdicts.antt =====
-- internal/db/db.go: what the version checks of `waitUpgrade` decide, and that members do not wait
-- for one another.
use microcluster.Prelude.{
  ℕ, ◌≤◌, ◌≡◌, ◌≢◌, ◌↔◌, refl, Bool, true, false, ◌||◌, List, [], ◌∷◌, ltb, All, Elem, map, inl,
  inr, ◌⊎◌, ok, err, is_ok, arith, if◌then◌else◌, Bool-cases,
}
use microcluster.Extensions.{Extensions, is_same_version, version}
use microcluster.Members.{Member}
use microcluster.Upgrade.{node_behind, api_behind}
use microcluster.Upgrade.Check.{
  schema_loop, check_schema_version, api_loop, check_api_extensions, Verdict, proceed, wait, fail,
  compare_versions,
}

-- Some member has a version above `v`.
abbrev any_above : ℕ → List ℕ → Bool
any_above v [] = false
any_above v (x ∷ l) = ltb v x || any_above v l

abbrev pub any_below : ℕ → List ℕ → Bool
any_below v [] = false
any_below v (x ∷ l) = ltb x v || any_below v l

schema_loop_lem :
    (v : ℕ) (behind : Bool) (l : List ℕ)
    → schema_loop v behind l
      ≡ (if any_above v l then err node_behind else ok (behind || any_below v l))
unfolding schema_loop
schema_loop_lem v behind [] = ground arith
schema_loop_lem v behind (x ∷ l) =
    ground (arith, schema_loop_lem v behind l, schema_loop_lem v true l)

-- The comparison of schema versions fails exactly when some member is above, and otherwise says
-- whether some member is below; the order of the members is of no account.
check_schema_version_lem :
    (v : ℕ) (l : List ℕ)
    → check_schema_version v l ≡ (if any_above v l then err node_behind else ok (any_below v l))
unfolding check_schema_version
check_schema_version_lem v l = schema_loop_lem v false l

-- A member of another list of extensions that is not shorter.
abbrev any_ahead : Extensions → List Extensions → Bool
any_ahead e [] = false
any_ahead e (x ∷ l) =
    (if is_ok (is_same_version e x)
      then false
      else (if ltb (version x) (version e) then false else true))
    || any_ahead e l

abbrev pub any_other : Extensions → List Extensions → Bool
any_other e [] = false
any_other e (x ∷ l) = (if is_ok (is_same_version e x) then false else true) || any_other e l

api_loop_lem :
    (e : Extensions) (behind : Bool) (l : List Extensions)
    → api_loop e behind l ≡ (if any_ahead e l then err api_behind else ok (behind || any_other e l))
unfolding api_loop
api_loop_lem e behind [] = ground arith
api_loop_lem e behind (x ∷ l) = ground (arith, api_loop_lem e behind l, api_loop_lem e true l)

-- The comparison of API extensions fails exactly when some member has another list that is not
-- shorter, and otherwise says whether some member has another list.
pub check_api_extensions_lem :
    (e : Extensions) (l : List Extensions)
    → check_api_extensions e l ≡ (if any_ahead e l then err api_behind else ok (any_other e l))
unfolding check_api_extensions
check_api_extensions_lem e l = api_loop_lem e false l

-- The decision of the member `m` where the table holds `rows`.
abbrev pub verdict : Member → List Member → Verdict
verdict m rows =
    compare_versions m.schema_internal m.schema_external
      (map (λ r. r.schema_internal) rows, map (λ r. r.schema_external) rows)

above-map :
    (f : Member → ℕ) (v : ℕ) (rows : List Member) (m : Member)
    → Elem m rows
    → any_above v (map f rows) ≡ false
    → f m ≤ v
above-map f v [] m h n = absurd h
above-map f v (r ∷ rows) m (inl p) n = rw (← p) (ground arith)
above-map f v (r ∷ rows) m (inr h) n = above-map f v rows m h (ground arith)

-- What a comparison of both versions says, read off the two lists.
pub compare_versions_lem :
    (i e : ℕ) (is es : List ℕ)
    → compare_versions i e (is, es) ≡ (
        if any_above i is || any_above e es
        then fail node_behind
        else if any_below i is || any_below e es
        then wait
        else proceed)
unfolding compare_versions
compare_versions_lem i e is es =
    ground (arith, check_schema_version_lem i is, check_schema_version_lem e es)

not-above_of_ne_fail :
    (m : Member) (rows : List Member)
    → verdict m rows ≢ fail node_behind
    → (any_above m.schema_internal (map (λ r. r.schema_internal) rows) ≡ false)
      × (any_above m.schema_external (map (λ r. r.schema_external) rows) ≡ false)
not-above_of_ne_fail m rows h = ground (
  arith,
  compare_versions_lem m.schema_internal m.schema_external (map (λ r. r.schema_internal) rows)
      (map (λ r. r.schema_external) rows),
)

-- Of two members of one table that do not find themselves behind, neither has the greater version of
-- either kind: so members that wait all have the same versions, and never wait for one another.
same_versions_of_ne_fail :
    (rows : List Member) (a b : Member)
    → Elem a rows
    → Elem b rows
    → verdict a rows ≢ fail node_behind
    → verdict b rows ≢ fail node_behind
    → (a.schema_internal ≡ b.schema_internal) × (a.schema_external ≡ b.schema_external)
same_versions_of_ne_fail rows a b ha hb va vb =
    let (ai, ae) = not-above_of_ne_fail a rows va in
    let (bi, be) = not-above_of_ne_fail b rows vb in
    let p = above-map (λ r. r.schema_internal) a.schema_internal rows b hb ai in
    let q = above-map (λ r. r.schema_internal) b.schema_internal rows a ha bi in
    let r = above-map (λ r. r.schema_external) a.schema_external rows b hb ae in
    let s = above-map (λ r. r.schema_external) b.schema_external rows a ha be in
    (omega arith, omega arith)

fails_or_not :
    (m : Member) (rows : List Member)
    → (verdict m rows ≡ fail node_behind) ⊎ (verdict m rows ≢ fail node_behind)
fails_or_not m rows =
    let is = map (λ r. r.schema_internal) rows in
    let es = map (λ r. r.schema_external) rows in
    let i = m.schema_internal in
    let e = m.schema_external in
    elim (Bool-cases (any_above i is || any_above e es)) [
      | inl above ↦ inl (rw (compare_versions_lem i e is es, above))
      | inr level ↦ inr (λ h. ground (arith, compare_versions_lem i e is es))
    ]

apart : {a b c d : ℕ} → (a ≢ b) ⊎ (c ≢ d) → (a ≡ b) × (c ≡ d) → ⊥
apart (inl h) p = h p.0
apart (inr h) p = h p.1

-- On a table where one member finds that it has to wait, every member of the table with other versions
-- finds that it is behind.
pub others_fail :
    (rows : List Member) (a b : Member)
    → Elem a rows
    → Elem b rows
    → verdict a rows ≡ wait
    → (a.schema_internal ≢ b.schema_internal) ⊎ (a.schema_external ≢ b.schema_external)
    → verdict b rows ≡ fail node_behind
others_fail rows a b ha hb w d = elim (fails_or_not b rows) [
  | inl failed ↦ failed
  | inr not_failed ↦
      let same = same_versions_of_ne_fail rows a b ha hb (λ h. cc (w, h)) not_failed in
      absurd (apart d same)
]

level-above : (v : ℕ) (l : List ℕ) → All (λ x. x ≡ v) l → any_above v l || any_below v l ≡ false
level-above v [] h = refl
level-above v (x ∷ l) h = ground (arith, level-above v l h.1)

level_of_neither :
    (v : ℕ) (l : List ℕ) → any_above v l ≡ false → any_below v l ≡ false → All (λ x. x ≡ v) l
level_of_neither v [] a b = tt
level_of_neither v (x ∷ l) a b = (ground arith, level_of_neither v l (ground arith) (ground arith))

-- A member goes on without waiting exactly when every version that it reads, of both kinds, is its own.
pub proceed_iff :
    (i e : ℕ) (is es : List ℕ)
    → (compare_versions i e (is, es) ≡ proceed) ↔ (All (λ x. x ≡ i) is × All (λ x. x ≡ e) es)
proceed_iff i e is es = (
  λ h. (
    level_of_neither i is (ground (arith, compare_versions_lem i e is es))
        (ground (arith, compare_versions_lem i e is es)),
    level_of_neither e es (ground (arith, compare_versions_lem i e is es))
        (ground (arith, compare_versions_lem i e is es)),
  ),
  λ h. ground (arith, compare_versions_lem i e is es, level-above i is h.0, level-above e es h.1),
)
