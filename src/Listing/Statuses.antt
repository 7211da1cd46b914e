-- ===== src/Listing/Statuses.antt =====
-- internal/rest/resources/cluster.go: the status that `clusterGet` gives each member.
use microcluster.Prelude.{
  ◌≡◌, refl, ap, subst, inl, inr, Bool, true, not, ◌&&◌, ◌||◌, some, List, [], ◌∷◌, ltb, map, is_ok,
  ok, Assoc, lookup, All, Elem, Result-cases, arith, if◌then◌else◌,
}
use microcluster.Extensions.{is_same_version}
use microcluster.Members.{Member, ApiMember, Parsers, to_api}
use microcluster.Upgrade.{Tables}
use microcluster.Upgrade.Awaiting.{get_upgrading, distinct_names, lookup-get_upgrading}
use microcluster.Database.{waiting, Own}
use microcluster.Listing.{
  MemberStatus, online, unreachable, upgrading, needs_upgrade, Listed, Env, marked, listed,
  list_waiting, check_ready, get_waiting, cluster_get,
}

-- A listed member is one of the rows.
abbrev pub IsRow : Parsers → List Member → (Member → MemberStatus) → Listed → Type 0
IsRow p rows status x =
    (m : Member) × Elem m rows × (to_api p m ≡ ok x.member) × (x.status ≡ status m)

name-to_api : (p : Parsers) (m : Member) (a : ApiMember) → to_api p m ≡ ok a → a.name ≡ m.name
unfolding to_api
name-to_api p m a h = ground arith

list_waiting-IsRow :
    (p : Parsers) (marks : Assoc Bool) (g : Member → Bool) (rows members : List Member)
    (l : List Listed)
    → ((m : Member) → Elem m members → (lookup m.name marks ≡ some (g m)) × Elem m rows)
    → list_waiting p marks members ≡ ok l
    → All (IsRow p rows (λ m. if g m then needs_upgrade else upgrading)) l
unfolding list_waiting marked listed
list_waiting-IsRow p marks g rows [] [] f h = tt
list_waiting-IsRow p marks g rows [] (x ∷ l) f h = absurd (ground arith)
list_waiting-IsRow p marks g rows (m ∷ members) l f h = elim (Result-cases (to_api p m)) [
  | inr (e, q) ↦ absurd (ground arith)
  | inl (a, q) ↦ elim (Result-cases (list_waiting p marks members)) [
    | inr (e, r) ↦ absurd (ground arith)
    | inl (rest, r) ↦
        let x : Listed = record {
          member = a;
          status = if marked a.name marks then needs_upgrade else upgrading;
        } in
        let all : x ∷ rest ≡ l = ground arith in
        let (mark, el) = f m (inl refl) in
        let name = name-to_api p m a q in
        subst (All (IsRow p rows (λ m. if g m then needs_upgrade else upgrading))) all (
          (m, el, q, ground arith),
          list_waiting-IsRow p marks g rows members rest (λ n i. f n (inr i)) r,
        )
  ]
]

-- Where the database waits for an upgrade and no two of the members have the same name, each listed member
-- is one of them; it needs the upgrade exactly where one of its schema versions is below the daemon's or,
-- where the table has a column for them, its extensions are others.
cluster_get_waiting :
    (p : Parsers) (e : Env) (o : Own) (t : Tables) (members : List Member) (marks : Assoc Bool)
    (l : List Listed)
    → get_upgrading o.internal o.external o.extensions t ≡ ok (members, marks)
    → distinct_names members ≡ true
    → cluster_get p e o waiting t ≡ ok l
    → All
        (IsRow p members (λ m.
          if ltb m.schema_internal o.internal
            || ltb m.schema_external o.external
            || (t.has_api_column && not (is_ok (is_same_version m.api_extensions o.extensions)))
          then needs_upgrade
          else upgrading))
        l
unfolding cluster_get get_waiting
cluster_get_waiting p e o t members marks l h d k =
    let g : Member → Bool = λ m.
      ltb m.schema_internal o.internal
      || ltb m.schema_external o.external
      || (t.has_api_column && not (is_ok (is_same_version m.api_extensions o.extensions))) in
    list_waiting-IsRow p marks g members members l
      (λ m el.
        (lookup-get_upgrading o.internal o.external o.extensions t members marks m h d el, el))
      (ground arith)

abbrev IsChecked : Env → Listed → Type 0
IsChecked e x = x.status ≡ (if e.is_ready x.member.address then online else unreachable)

check_ready_lem :
    (e : Env) (members : List ApiMember) (l : List Listed)
    → check_ready e members ≡ ok l
    → (map (λ x. x.member) l ≡ members) × All (IsChecked e) l
unfolding check_ready
check_ready_lem e [] [] h = (refl, tt)
check_ready_lem e [] (x ∷ l) h = absurd (ground arith)
check_ready_lem e (a ∷ members) l h = elim (Result-cases (check_ready e members)) [
  | inr (z, r) ↦ absurd (ground arith)
  | inl (rest, r) ↦
      let x : Listed = record {
        member = a;
        status = if e.is_ready a.address then online else unreachable;
      } in
      let all : x ∷ rest ≡ l = ground arith in
      let (same, each) = check_ready_lem e members rest r in
      subst (λ l. (map (λ x. x.member) l ≡ a ∷ members) × All (IsChecked e) l) all
        (ap (λ ms. a ∷ ms) same, (refl, each))
]
