-- ===== src/Removal/Reset.antt =====
-- internal/rest/resources/cluster.go: `resetClusterMember`.
use microcluster.Prelude.{
  ◌≡◌, ◌↔◌, Bool, true, false, not, ◌&&◌, ◌||◌, Option, none, some, arith, if◌then◌else◌,
}
use microcluster.Database.{Db, Own, stop}
use microcluster.Database
use microcluster.Upgrade.{Tables}

-- The database, the listeners and the directory of a daemon.
pub record Daemon : Type 0 where
  pub db : Db
  pub listening : Bool
  pub has_state_dir : Bool

pub data Error : Type 0 where
  database : Database.Error → Error
  not_stopped not_removed : Error

-- Whether dqlite closes, the listeners stop and the directory is removed.
pub record Answers : Type 0 where
  pub closes : Bool
  pub stops : Bool
  pub removes : Bool

remove_dir : Bool → Answers → Daemon → Daemon × Option Error
remove_dir force a d =
    if a.removes
    then (record d { has_state_dir = false }, none)
    else if force
    then (d, none)
    else (d, some not_removed)

stop_listeners : Bool → Answers → Daemon → Daemon × Option Error
unfolding remove_dir
stop_listeners force a d =
    let stopped = remove_dir force a (record d { listening = false }) in
    let kept = remove_dir force a d in
    if a.stops then stopped else if force then kept else (d, some not_stopped)

after_stop : Bool → Answers → Daemon → Db × Option Database.Error → Daemon × Option Error
unfolding stop_listeners
after_stop force a d (db, none) = stop_listeners force a (record d { db = db })
after_stop force a d (db, some x) =
    if force
    then stop_listeners force a (record d { db = db })
    else (record d { db = db }, some (database x))

-- `resetClusterMember`, up to the function that starts the daemon again.
reset_member : Own → Tables → Bool → Answers → Daemon → Daemon × Option Error
unfolding after_stop
reset_member o t force a d = after_stop force a d (stop o t a.closes d.db)

-- With force a reset never fails, and does each of its three parts that can be done; without, it succeeds
-- exactly where each of them can be done, or there is no dqlite to close.
reset_member_lem :
    (o : Own) (t : Tables) (a : Answers) (d : Daemon)
    → (reset_member o t true a d ≡ (
      record {
        db = (stop o t a.closes d.db).0;
        listening = d.listening && not a.stops;
        has_state_dir = d.has_state_dir && not a.removes;
      },
      none,
    ))
      × (((reset_member o t false a d).1 ≡ none)
          ↔ ((a.closes || not d.db.has_dqlite) && (a.stops && a.removes) ≡ true))
unfolding reset_member stop
reset_member_lem o t a d = (ground arith, (λ h. ground arith, λ h. ground arith))
