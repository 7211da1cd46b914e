-- ===== src/Database.antt =====
-- internal/db/dqlite.go and internal/db/db.go: the life of the database of a daemon. Each operation is a
-- function on its state; Database/Steps has the smaller steps between which others may run.
pub mod Upgrading
pub mod Steps
pub mod Rounds
pub mod Refinement
pub mod Waiting
mod Tests
use microcluster.Prelude.{
  ℕ, suc, ◌+◌, Str, str_eq, Bool, true, false, not, ◌&&◌, Option, none, some, List, [], ◌∷◌, Result,
  ok, err, Assoc, lookup, if◌then◌else◌,
}
use microcluster.Extensions.{Extensions}
use microcluster.Members
use microcluster.Members.{Member, create_member}
use microcluster.Upgrade
use microcluster.Upgrade.{Tables}
use microcluster.Upgrade.Awaiting.{get_upgrading}

-- `types.DatabaseStatus`
pub data Status : Type 0 where
  not_ready offline starting waiting ready : Status

-- `db.db`: nil, open, or closed.
pub data Handle : Type 0 where
  no_handle open_handle closed_handle : Handle

-- `DqliteDB`. `has_dqlite` says whether `db.dqlite` is set, `cancelled` whether `db.ctx` is cancelled.
pub record Db : Type 0 where
  pub status : Status
  pub handle : Handle
  pub has_dqlite : Bool
  pub cancelled : Bool

pub data Error : Type 0 where
  unavailable : Status → Error
  awaiting : ℕ → Error
  not_fetched : Upgrade.Error → Error
  not_created not_started not_opened : Error
  graceful_abort upgrade_failed not_prepared : Error
  not_closed deadline : Error
  table : Members.Error → Error

-- `NewDB`
abbrev pub new_db : Db
new_db = record { status = not_ready; handle = no_handle; has_dqlite = false; cancelled = false }

-- How `waitUpgrade` ends.
pub data Upgraded : Type 0 where
  upgraded must_wait refused : Upgraded

-- What dqlite and the database answer in one round of `Open`.
pub record Round : Type 0 where
  pub starts : Bool
  pub opens : Bool
  pub upgrade : Upgraded
  pub prepares : Bool

-- `Reverter`: an `Open` that fails leaves the status offline.
give_up : Db → Error → Db × Option Error
give_up s e = (record s { status = offline }, some e)

-- `Open`, from the end of `waitUpgrade` on.
prepare : Round → Db → Db × Option Error
unfolding give_up
prepare r s =
    if r.prepares
    then (record s { status = ready }, none)
    else give_up (record s { handle = no_handle }) not_prepared

-- The handle of an earlier round is kept.
opened : Round → Db → Option Db
opened r s = elim s.handle [
  | no_handle ↦ if r.opens then some (record s { handle = open_handle }) else none
  | open_handle ↦ some s
  | closed_handle ↦ some s
]

after_opening : Round → Db → Db × Option Error
unfolding give_up prepare
after_opening r s = elim r.upgrade [
  | upgraded ↦ prepare r s
  | must_wait ↦ give_up s graceful_abort
  | refused ↦ give_up s upgrade_failed
]

after_handle : Round → Db → Option Db → Db × Option Error
unfolding give_up after_opening
after_handle r s none = give_up s not_opened
after_handle r s (some s₁) = after_opening r s₁

-- `Open`. While it waits for an upgrade its status is `waiting`, which the reverter then replaces.
unfoldable pub open_db : Round → Db → Db × Option Error
unfolding give_up opened after_handle
open_db r s =
    let s₀ = record s { status = starting } in
    if r.starts then after_handle r s₀ (opened r s₀) else give_up s₀ not_started

-- `errors.Is(err, schema.ErrGracefulAbort)`
unfoldable pub is_abort : Option Error → Bool
is_abort none = false
is_abort (some graceful_abort) = true
is_abort (some e) = false

-- The loop of `Join`, over the rounds that come; none where it is still trying after them.
unfoldable pub join_loop : List Round → Db → Option (Db × Option Error)
join_loop [] s = none
join_loop (r ∷ rounds) s =
    let rest = join_loop rounds (open_db r s).0 in
    if is_abort (open_db r s).1 then rest else some (open_db r s)

-- `Join`; `creates` says whether `dqlite.New` succeeds.
unfoldable pub join : Bool → List Round → Db → Option (Db × Option Error)
join creates rounds s =
    if creates
    then join_loop rounds (record s { has_dqlite = true })
    else some (s, some not_created)

-- How one run of a transaction ends.
pub data Tried (D : Type 0) : Type 0 where
  committed : D → Tried D
  timed_out : Tried D
  rolled_back : Error → Tried D

ended : {D : Type 0} → Tried D → D × Option Error → D × Option Error
ended (committed d) p = (d, none)
ended timed_out p = p
ended (rolled_back e) p = (p.0, some e)

-- `Transaction`, where `query.Retry` runs it once: it needs a database that is ready or waiting, and is run
-- again after a deadline. A run that fails rolls back.
unfoldable pub transaction : {D : Type 0} → Status → Tried D → Tried D → D → D × Option Error
unfolding ended
transaction ready first second d = ended first (ended second (d, some deadline))
transaction waiting first second d = ended first (ended second (d, some deadline))
transaction not_ready first second d = (d, some (unavailable not_ready))
transaction offline first second d = (d, some (unavailable offline))
transaction starting first second d = (d, some (unavailable starting))

created : Member → List Member → Tried (List Member)
created m rows = elim (create_member m rows) [
  | err x ↦ rolled_back (table x)
  | ok rows' ↦ committed rows'
]

record_member : Member → List Member → Db × Option Error → Db × List Member × Option Error
unfolding created transaction
record_member m rows (s, some e) = (s, rows, some e)
record_member m rows (s, none) =
    let (rows', e) = transaction s.status (created m rows) (created m rows) rows in (s, rows', e)

-- `Bootstrap`: the row of the member gets the extensions that it starts with.
unfoldable pub bootstrap :
    Bool → Extensions → Round → Member → List Member → Db → Db × List Member × Option Error
unfolding record_member
bootstrap creates x r m rows s =
    if creates
    then record_member (record m { api_extensions = x }) rows
        (open_db r (record s { has_dqlite = true }))
    else (s, rows, some not_created)

-- The other members that have not received the update.
unfoldable pub awaiting_systems : Str → Assoc Bool → List Member → ℕ
awaiting_systems address marks [] = 0
awaiting_systems address marks (m ∷ members) =
    let rest = awaiting_systems address marks members in
    if str_eq m.address address
    then rest
    else (elim (lookup m.name marks) [ none ↦ rest | some b ↦ if b then suc rest else rest ])

-- The schema versions, the extensions and the address of the daemon.
pub record Own : Type 0 where
  pub internal : ℕ
  pub external : ℕ
  pub extensions : Extensions
  pub address : Str

-- `IsOpen`: none is a nil error.
unfoldable pub is_open : Own → Tables → Db → Option Error
is_open o t s = elim s.status [
  | ready ↦ none
  | not_ready ↦ some (unavailable not_ready)
  | offline ↦ some (unavailable offline)
  | starting ↦ some (unavailable starting)
  | waiting ↦ elim (get_upgrading o.internal o.external o.extensions t) [
    | err e ↦ some (not_fetched e)
    | ok (members, marks) ↦ some (awaiting (awaiting_systems o.address marks members))
  ]
]

close_handle : Option Error → Db → Db
close_handle none s = record s { handle = closed_handle }
close_handle (some e) s = s

-- `Stop`; `closes` says whether dqlite closes.
unfoldable pub stop : Own → Tables → Bool → Db → Db × Option Error
unfolding close_handle
stop o t closes s =
    let s₀ = record s { cancelled = true; status = offline } in
    let s₁ = close_handle (is_open o t s₀) s₀ in
    if s.has_dqlite && not closes then (s₁, some not_closed) else (s₁, none)
