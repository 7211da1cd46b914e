-- ===== src/Upgrade/Awaiting/Order.antt =====
-- cluster/cluster_members.go: the order of the members that await an upgrade is of no account when they
-- are counted.
use microcluster.Prelude.{
  ℕ, suc, Str, str_eq, str_eq_comm, ◌≡◌, refl, ◌∙◌, Bool, true, false, ◌||◌, List, [], ◌∷◌, map,
  arith, if◌then◌else◌,
}
use microcluster.Members.{Member}
use microcluster.Upgrade.Awaiting.{
  by_name, order_by_name, name_in, distinct_names, select_extensions,
}

-- How many members pass a test.
unfoldable pub count : (Member → Bool) → List Member → ℕ
count p [] = 0
count p (m ∷ ms) = let rest = count p ms in if p m then suc rest else rest

count-by_name :
    (p : Member → Bool) (m : Member) (rows : List Member)
    → count p (by_name m rows) ≡ count p (m ∷ rows)
unfolding count by_name
count-by_name p m [] = refl
count-by_name p m (r ∷ rows) = ground (arith, count-by_name p m rows)

pub count-order_by_name :
    (p : Member → Bool) (rows : List Member) → count p (order_by_name rows) ≡ count p rows
unfolding count order_by_name
count-order_by_name p [] = refl
count-order_by_name p (r ∷ rows) =
    ground (arith, count-by_name p r (order_by_name rows), count-order_by_name p rows)

name_in-by_name :
    (k : Str) (m : Member) (rows : List Member)
    → name_in k (by_name m rows) ≡ str_eq m.name k || name_in k rows
unfolding name_in by_name
name_in-by_name k m [] = refl
name_in-by_name k m (r ∷ rows) = ground (arith, name_in-by_name k m rows)

name_in-order_by_name :
    (k : Str) (rows : List Member) → name_in k (order_by_name rows) ≡ name_in k rows
unfolding name_in order_by_name
name_in-order_by_name k [] = refl
name_in-order_by_name k (r ∷ rows) =
    ground (arith, name_in-by_name k r (order_by_name rows), name_in-order_by_name k rows)

distinct-by_name :
    (m : Member) (rows : List Member)
    → name_in m.name rows ≡ false
    → distinct_names rows ≡ true
    → distinct_names (by_name m rows) ≡ true
unfolding by_name name_in
distinct-by_name m [] h d = refl
distinct-by_name m (r ∷ rows) h d =
    ground
      (arith, name_in-by_name r.name m rows, str_eq_comm r.name m.name, distinct-by_name m rows)

pub distinct-order_by_name :
    (rows : List Member) → distinct_names rows ≡ true → distinct_names (order_by_name rows) ≡ true
unfolding order_by_name
distinct-order_by_name [] h = refl
distinct-order_by_name (r ∷ rows) h =
    distinct-by_name r (order_by_name rows) (name_in-order_by_name r.name rows ∙ ground arith)
      (distinct-order_by_name rows (ground arith))

name_in-map_select :
    (c : Bool) (k : Str) (rows : List Member)
    → name_in k (map (select_extensions c) rows) ≡ name_in k rows
unfolding name_in
name_in-map_select c k [] = refl
name_in-map_select true k (r ∷ rows) = ground (arith, name_in-map_select true k rows)
name_in-map_select false k (r ∷ rows) = ground (arith, name_in-map_select false k rows)

pub distinct-map_select :
    (c : Bool) (rows : List Member)
    → distinct_names rows ≡ true
    → distinct_names (map (select_extensions c) rows) ≡ true
distinct-map_select c [] h = refl
distinct-map_select true (r ∷ rows) h =
    ground (arith, name_in-map_select true r.name rows, distinct-map_select true rows)
distinct-map_select false (r ∷ rows) h =
    ground (arith, name_in-map_select false r.name rows, distinct-map_select false rows)

pub count-map_select :
    (c : Bool) (p q : Member → Bool) (rows : List Member)
    → ((m : Member) → p (select_extensions c m) ≡ q m)
    → count p (map (select_extensions c) rows) ≡ count q rows
unfolding count
count-map_select c p q [] h = refl
count-map_select c p q (r ∷ rows) h = rw (h r, count-map_select c p q rows h) refl
