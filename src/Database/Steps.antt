-- ===== src/Database/Steps.antt =====
-- internal/db/dqlite.go and internal/db/db.go: `Open` in the steps between which other requests run, of
-- which `Stop` is one that changes the state too.
use microcluster.Prelude.{◌≡◌, ◌≢◌, true, arith}
use microcluster.Database.{
  Status, offline, starting, waiting, ready, no_handle, open_handle, Db, new_db,
}

-- Where the one thread is that opens the database. `paused` is the wait for an upgrade, `preparing` is
-- after `waitUpgrade`.
pub data Pc : Type 0 where
  idle begun upgrading paused preparing : Pc

pub record System : Type 0 where
  pub db : Db
  pub pc : Pc

abbrev pub status_to : Status → Pc → System → System
status_to v p s = record { db = record s.db { status = v }; pc = p }

pub data Step (s : System) : System → Type 0 where
  begin : s.pc ≡ idle → Step s (status_to starting begun s)
  start_fails : s.pc ≡ begun → Step s (status_to offline idle s)
  keep_handle : s.pc ≡ begun → s.db.handle ≢ no_handle → Step s (record s { pc = upgrading })
  open_fresh :
      s.pc ≡ begun
      → s.db.handle ≡ no_handle
      → Step s (record { db = record s.db { handle = open_handle }; pc = upgrading })
  go_on : s.pc ≡ upgrading → Step s (record s { pc = preparing })
  pause : s.pc ≡ upgrading → Step s (status_to waiting paused s)
  abort : s.pc ≡ paused → Step s (status_to offline idle s)
  upgrade_fails : s.pc ≡ upgrading → Step s (status_to offline idle s)
  prepare_fails :
      s.pc ≡ preparing
      → Step s (record { db = record s.db { handle = no_handle; status = offline }; pc = idle })
  finish : s.pc ≡ preparing → Step s (status_to ready idle s)
  stop : Step s (record s { db = record s.db { cancelled = true; status = offline } })

pub data Steps (s : System) : System → Type 0 where
  here : Steps s s
  next : {t u : System} → Steps s t → Step t u → Steps s u

abbrev pub start : System
start = record { db = new_db; pc = idle }

-- From opening the handle on, and while the database is ready, there is a handle.
pub record IsSound (s : System) : Type 0 where
  pub ready_handle : s.db.status ≡ ready → s.db.handle ≢ no_handle
  pub upgrading_handle : s.pc ≡ upgrading → s.db.handle ≢ no_handle
  pub paused_handle : s.pc ≡ paused → s.db.handle ≢ no_handle
  pub preparing_handle : s.pc ≡ preparing → s.db.handle ≢ no_handle
  pub ready_idle : s.db.status ≡ ready → s.pc ≡ idle

Step-IsSound : {s t : System} → IsSound s → Step s t → IsSound t
Step-IsSound v (begin p) = ground arith
Step-IsSound v (start_fails p) = ground arith
Step-IsSound v (keep_handle p h) = ground arith
Step-IsSound v (open_fresh p h) = ground arith
Step-IsSound v (go_on p) = ground arith
Step-IsSound v (pause p) = ground arith
Step-IsSound v (abort p) = ground arith
Step-IsSound v (upgrade_fails p) = ground arith
Step-IsSound v (prepare_fails p) = ground arith
Step-IsSound v (finish p) = ground arith
Step-IsSound v stop = ground arith

-- However the steps of `Open` and `Stop` mix, a database that is ready has a handle.
pub Steps-IsSound : {t : System} → Steps start t → IsSound t
Steps-IsSound here = ground arith
Steps-IsSound (next r st) = Step-IsSound (Steps-IsSound r) st
