-- ===== src/Upgrade/Check/Commit.antt =====
-- internal/db/db.go: what the transaction of `checkVersions` leaves in the table.
use microcluster.Prelude.{
  ℕ, Str, str_eq, ◌≡◌, ◌⊎◌, refl, Bool, true, false, some, List, [], ◌∷◌, map, Result, ok, err,
  arith, if◌then◌else◌,
}
use microcluster.Extensions.{Extensions}
use microcluster.Members.{Member}
use microcluster.Upgrade.{
  Tables, Error, update_where, with_versions, with_extensions, get_cluster_table,
  update_schema_version, update_api_extensions, get_schema_versions,
}
use microcluster.Upgrade.Check.{
  Verdict, proceed, wait, fail, check_versions, announce, check_in, settle, judge,
}

settle-fail :
    (before db : Tables) (v : Verdict) (z : Error)
    → (settle before (db, v)).1 ≡ fail z
    → (settle before (db, v)).0 ≡ before
unfolding settle
settle-fail before db proceed z h = cc
settle-fail before db wait z h = cc
settle-fail before db (fail x) z h = refl

check_in-fail :
    (i e : ℕ) (before : Tables) (r : Result Error Tables) (z : Error)
    → (check_in i e before r).1 ≡ fail z
    → (check_in i e before r).0 ≡ before
unfolding check_in
check_in-fail i e before (err x) z h = refl
check_in-fail i e before (ok db) z h =
    let (t, v) = judge i e db (get_schema_versions db) in settle-fail before t v z h

-- A check that fails leaves the database as it was.
check_versions_rollback :
    (i e : ℕ) (x : Extensions) (name : Str) (db : Tables) (z : Error)
    → (check_versions i e x name db).1 ≡ fail z
    → (check_versions i e x name db).0 ≡ db
unfolding check_versions
check_versions_rollback i e x name db z h = check_in-fail i e db (announce i e x name db) z h

check_in-commit :
    (i e : ℕ) (before : Tables) (r : Result Error Tables)
    → ((check_in i e before r).1 ≡ wait) ⊎ ((check_in i e before r).1 ≡ proceed)
    → r ≡ ok (check_in i e before r).0
unfolding check_in settle judge
check_in-commit i e before (err x) h = ground arith
check_in-commit i e before (ok db) h = ground arith

-- The row of the member, with its versions and, where there is a column for them, its extensions.
abbrev pub announced : ℕ → ℕ → Extensions → Bool → Str → Member → Member
announced i e x has_column name r =
    if str_eq r.name name
    then (if has_column then with_extensions x (with_versions i e r) else with_versions i e r)
    else r

update_versions-map :
    (i e : ℕ) (x : Extensions) (name : Str) (rows : List Member)
    → (update_where name (with_versions i e) rows).0 ≡ map (announced i e x false name) rows
unfolding update_where
update_versions-map i e x name [] = refl
update_versions-map i e x name (r ∷ rows) = ground (arith, update_versions-map i e x name rows)

update_both-map :
    (i e : ℕ) (x : Extensions) (name : Str) (rows : List Member)
    → (update_where name (with_extensions x) (update_where name (with_versions i e) rows).0).0
      ≡ map (announced i e x true name) rows
unfolding update_where
update_both-map i e x name [] = refl
update_both-map i e x name (r ∷ rows) = ground (arith, update_both-map i e x name rows)

announce_lem :
    (i e : ℕ) (x : Extensions) (name : Str) (db t : Tables) (rows : List Member)
    → db.table ≡ some rows
    → announce i e x name db ≡ ok t
    → t.table ≡ some (map (announced i e x db.has_api_column name) rows)
unfolding announce update_schema_version update_api_extensions get_cluster_table
announce_lem i e x name db t rows p h =
    ground (arith, update_versions-map i e x name rows, update_both-map i e x name rows)

-- A check that goes on or waits has written the member's versions to the rows of its name, and left
-- the other rows as they were.
pub check_versions_commit :
    (i e : ℕ) (x : Extensions) (name : Str) (db : Tables) (rows : List Member)
    → db.table ≡ some rows
    → ((check_versions i e x name db).1 ≡ wait) ⊎ ((check_versions i e x name db).1 ≡ proceed)
    → (check_versions i e x name db).0.table
      ≡ some (map (announced i e x db.has_api_column name) rows)
unfolding check_versions
check_versions_commit i e x name db rows t h =
    announce_lem i e x name db (check_in i e db (announce i e x name db)).0 rows t
      (check_in-commit i e db (announce i e x name db) h)
