-- ===== src/Upgrade/Awaiting.antt =====
-- cluster/cluster_members.go: the members as they stand during an upgrade, with the marks of those
-- that are awaited.
pub mod Order
use microcluster.Prelude.{
  ℕ, Str, ◌≡◌, ◌∙◌, ap, inl, inr, refl, Bool, true, false, not, ◌&&◌, ◌||◌, some, List, [], ◌∷◌,
  ltb, ◌==◌, map, Result, ok, ◌>>=◌, >>=-eq-ok, is_ok, Assoc, lookup, insert, lookup-insert,
  lookup-insert_self, str_eq, Elem, arith, if◌then◌else◌,
}
use microcluster.Extensions.{Extensions, is_same_version}
use microcluster.Members.{Member}
use microcluster.Upgrade.{Tables, Error, get_cluster_table}

-- `ORDER BY name`: SQLite orders texts byte by byte.
name_le : Str → Str → Bool
name_le [] t = true
name_le (x ∷ s) [] = false
name_le (x ∷ s) (y ∷ t) =
    let rest = name_le s t in if ltb x y then true else if x == y then rest else false

by_name : Member → List Member → List Member
by_name m [] = m ∷ []
by_name m (r ∷ rows) = if name_le m.name r.name then m ∷ r ∷ rows else r ∷ by_name m rows

unfoldable pub order_by_name : List Member → List Member
unfolding by_name name_le
order_by_name [] = []
order_by_name (r ∷ rows) = by_name r (order_by_name rows)

-- `'[]' as api_extensions`, where the column is not there yet.
abbrev pub select_extensions : Bool → Member → Member
select_extensions true m = m
select_extensions false m = record m { api_extensions = [] }

-- The mark of one member.
unfoldable pub is_awaited : ℕ → ℕ → Extensions → Bool → Member → Bool
is_awaited internal external e has_column m =
    let behind = ltb m.schema_internal internal || ltb m.schema_external external in
    if has_column
    then (if is_ok (is_same_version m.api_extensions e) then behind else true)
    else behind

mark_all : (Member → Bool) → Assoc Bool → List Member → Assoc Bool
mark_all f marks [] = marks
mark_all f marks (m ∷ members) = mark_all f (insert m.name (f m) marks) members

-- `GetUpgradingClusterMembers`
unfoldable pub get_upgrading : ℕ → ℕ → Extensions → Tables → Result Error (List Member × Assoc Bool)
unfolding mark_all order_by_name
get_upgrading internal external e db = do
  rows ← get_cluster_table db
  let members = map (select_extensions db.has_api_column) (order_by_name rows)
  ok (members, mark_all (is_awaited internal external e db.has_api_column) [] members)

unfoldable pub name_in : Str → List Member → Bool
name_in k [] = false
name_in k (m ∷ members) = str_eq m.name k || name_in k members

-- No two members have the same name, as the table's `UNIQUE (name)` demands.
abbrev pub distinct_names : List Member → Bool
distinct_names [] = true
distinct_names (m ∷ members) =
    (if name_in m.name members then false else true) && distinct_names members

lookup-mark_all_ne :
    (f : Member → Bool) (k : Str) (members : List Member) (marks : Assoc Bool)
    → name_in k members ≡ false
    → lookup k (mark_all f marks members) ≡ lookup k marks
unfolding mark_all name_in
lookup-mark_all_ne f k [] marks h = refl
lookup-mark_all_ne f k (m ∷ members) marks h = ground (
  arith,
  lookup-mark_all_ne f k members (insert m.name (f m) marks),
  lookup-insert m.name k (f m) marks,
)

lookup-mark_all :
    (f : Member → Bool) (m : Member) (members : List Member) (marks : Assoc Bool)
    → distinct_names members ≡ true
    → Elem m members
    → lookup m.name (mark_all f marks members) ≡ some (f m)
unfolding mark_all
lookup-mark_all f m [] marks d h = absurd h
lookup-mark_all f m (r ∷ members) marks d (inl p) = rw (← p) (
    ground (
      arith,
      lookup-mark_all_ne f r.name members (insert r.name (f r) marks),
      lookup-insert_self r.name (f r) marks,
    ))
lookup-mark_all f m (r ∷ members) marks d (inr h) =
    lookup-mark_all f m members (insert r.name (f r) marks) (ground arith) h

marks-get_upgrading :
    (i e : ℕ) (x : Extensions) (db : Tables) (members : List Member) (marks : Assoc Bool)
    → get_upgrading i e x db ≡ ok (members, marks)
    → marks ≡ mark_all (is_awaited i e x db.has_api_column) [] members
unfolding get_upgrading
marks-get_upgrading i e x db members marks h =
    let (rows, found, made) = >>=-eq-ok (get_cluster_table db) _ h in cc made

is_awaited_lem :
    (i e : ℕ) (x : Extensions) (c : Bool) (m : Member)
    → is_awaited i e x c m
      ≡ ltb m.schema_internal i
        || ltb m.schema_external e
        || (c && not (is_ok (is_same_version m.api_extensions x)))
unfolding is_awaited
is_awaited_lem i e x c m = ground arith

-- Where no two members have the same name, the map that comes with the members gives each of them its
-- own mark: awaited exactly when one of its schema versions is below the given one or, where the table
-- has extensions, when its extensions are others.
pub lookup-get_upgrading :
    (i e : ℕ) (x : Extensions) (db : Tables) (members : List Member) (marks : Assoc Bool)
    (m : Member)
    → get_upgrading i e x db ≡ ok (members, marks)
    → distinct_names members ≡ true
    → Elem m members
    → lookup m.name marks
      ≡ some (
          ltb m.schema_internal i
          || ltb m.schema_external e
          || (db.has_api_column && not (is_ok (is_same_version m.api_extensions x))))
lookup-get_upgrading i e x db members marks m h d el =
    let f = is_awaited i e x db.has_api_column in
    rw (marks-get_upgrading i e x db members marks h)
      (lookup-mark_all f m members [] d el ∙ ap some (is_awaited_lem i e x db.has_api_column m))
