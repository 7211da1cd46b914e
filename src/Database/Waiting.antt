-- ===== src/Database/Waiting.antt =====
-- internal/db/dqlite.go: what `IsOpen` says of a database that waits for an upgrade.
use microcluster.Prelude.{
  Str, str_eq, ◌≡◌, refl, ap, ◌∙◌, inl, inr, Bool, true, false, not, ◌&&◌, ◌||◌, some, List, [],
  ◌∷◌, map, Assoc, lookup, ltb, ok, is_ok, Elem, arith,
}
use microcluster.Extensions.{is_same_version}
use microcluster.Members.{Member}
use microcluster.Upgrade.{Tables, get_cluster_table}
use microcluster.Upgrade.Awaiting.{
  get_upgrading, order_by_name, select_extensions, distinct_names, lookup-get_upgrading,
}
use microcluster.Upgrade.Awaiting.Order.{
  count, count-order_by_name, count-map_select, distinct-order_by_name, distinct-map_select,
}
use microcluster.Database.{Db, waiting, awaiting, Own, is_open, awaiting_systems}

awaiting_systems-count :
    (address : Str) (marks : Assoc Bool) (g : Member → Bool) (members : List Member)
    → ((m : Member) → Elem m members → lookup m.name marks ≡ some (g m))
    → awaiting_systems address marks members
      ≡ count (λ m. not (str_eq m.address address) && g m) members
unfolding awaiting_systems count
awaiting_systems-count address marks g [] h = refl
awaiting_systems-count address marks g (m ∷ members) h =
    ground
      (arith, h m (inl refl), awaiting_systems-count address marks g members (λ n el. h n (inr el)))

-- A member at another address that has not received the update: a schema version of its is below the
-- daemon's, or, where the table has a column for them, its extensions are others.
abbrev pub lags : Own → Bool → Member → Bool
lags o has_column m =
    not (str_eq m.address o.address)
    && (ltb m.schema_internal o.internal
        || ltb m.schema_external o.external
        || (has_column && not (is_ok (is_same_version m.api_extensions o.extensions))))

lags_select : (o : Own) (c : Bool) (m : Member) → lags o c (select_extensions c m) ≡ lags o c m
lags_select o true m = refl
lags_select o false m = refl

get_upgrading_ok :
    (o : Own) (t : Tables) (rows : List Member)
    → t.table ≡ some rows
    → (marks : Assoc Bool) × (get_upgrading o.internal o.external o.extensions t
        ≡ ok (map (select_extensions t.has_api_column) (order_by_name rows), marks))
unfolding get_upgrading get_cluster_table
get_upgrading_ok o t rows p = rw p (_, refl)

is_open_lem :
    (o : Own) (t : Tables) (s : Db) (members : List Member) (marks : Assoc Bool)
    → s.status ≡ waiting
    → get_upgrading o.internal o.external o.extensions t ≡ ok (members, marks)
    → is_open o t s ≡ some (awaiting (awaiting_systems o.address marks members))
unfolding is_open
is_open_lem o t s members marks w h = ground arith

-- Where no two rows have the same name, a database that waits says how many of the members at other
-- addresses have not received the update.
is_open_waiting :
    (o : Own) (t : Tables) (s : Db) (rows : List Member)
    → s.status ≡ waiting
    → t.table ≡ some rows
    → distinct_names rows ≡ true
    → is_open o t s ≡ some (awaiting (count (lags o t.has_api_column) rows))
is_open_waiting o t s rows w p d =
    let members = map (select_extensions t.has_api_column) (order_by_name rows) in
    let distinct =
      distinct-map_select t.has_api_column (order_by_name rows) (distinct-order_by_name rows d) in
    let (marks, found) = get_upgrading_ok o t rows p in
    let g : Member → Bool = λ m.
      ltb m.schema_internal o.internal
      || ltb m.schema_external o.external
      || (t.has_api_column && not (is_ok (is_same_version m.api_extensions o.extensions))) in
    let counted = awaiting_systems-count o.address marks g members (λ m el.
      lookup-get_upgrading o.internal o.external o.extensions t members marks m found distinct
        el) in
    is_open_lem o t s members marks w found
    ∙ ap (λ n. some (awaiting n))
        (counted
          ∙ count-map_select t.has_api_column (lags o t.has_api_column) (lags o t.has_api_column)
              (order_by_name rows) (lags_select o t.has_api_column)
          ∙ count-order_by_name (lags o t.has_api_column) rows)
