-- ===== src/Database/Rounds.antt =====
-- internal/db/dqlite.go and internal/db/db.go: what `Open`, `Join` and `Stop` leave.
use microcluster.Prelude.{
  ◌≡◌, ◌≢◌, ◌⊎◌, inl, inr, refl, sym, ap, ◌∙◌, Bool, true, Option, ok, Result-cases, none, some,
  List, [], ◌∷◌, Elem, Option-cases, Bool-cases, arith,
}
use microcluster.Extensions.{Extensions}
use microcluster.Members.{Member, create_member}
use microcluster.Upgrade.{Tables}
use microcluster.Database.{
  ready, offline, no_handle, Db, Error, graceful_abort, unavailable, Round, upgraded, must_wait,
  open_db, bootstrap, transaction, record_member, created, is_abort, join_loop, Own, is_open, stop,
}

-- What `Open` leaves in a round.
pub record Ends (r : Round) (p : Db × Option Error) : Type 0 where
  pub opens : p.1 ≡ none → (p.0.status ≡ ready) × (p.0.handle ≢ no_handle)
  pub fails : p.1 ≢ none → p.0.status ≡ offline
  pub upgrades : p.1 ≡ none → r.upgrade ≡ upgraded
  pub waits : p.1 ≡ some graceful_abort → r.upgrade ≡ must_wait

-- `Open` ends in one of two states: with no error the status is ready, there is a handle and the schema
-- did not have to wait; with an error the status is offline. It is a graceful abort only where the round
-- decides to wait.
open_db-Ends : (r : Round) (s : Db) → Ends r (open_db r s)
unfolding open_db
open_db-Ends r s = record {
  opens = λ h. ground arith;
  fails = λ h. ground arith;
  upgrades = λ h. ground arith;
  waits = λ h. ground arith;
}

abort_of : (e : Option Error) → is_abort e ≡ true → e ≡ some graceful_abort
unfolding is_abort
abort_of e h = ground arith

-- `Join` that returns has opened the database or left it offline, and its error is never the graceful
-- abort.
pub join_loop_ends :
    (rounds : List Round) (s s' : Db) (e : Option Error)
    → join_loop rounds s ≡ some (s', e)
    → ((e ≡ none) × (s'.status ≡ ready) × (s'.handle ≢ no_handle))
      ⊎ ((e ≢ none) × (e ≢ some graceful_abort) × (s'.status ≡ offline))
unfolding join_loop is_abort
join_loop_ends [] s s' e h = absurd (ground arith)
join_loop_ends (r ∷ rounds) s s' e h =
    let end = open_db-Ends r s in
    elim (Bool-cases (is_abort (open_db r s).1)) [
      | inl again ↦ join_loop_ends rounds (open_db r s).0 s' e (rw again at h)
      | inr over ↦ elim (Option-cases (open_db r s).1) [
        | inl p ↦ inl (ground (arith, end.opens p))
        | inr (x, p) ↦ inr (ground (arith, end.fails (λ q. cc (p, q))))
      ]
    ]

-- `Join` returns as soon as a round of `Open` does not decide to wait.
pub join_loop_returns :
    (rounds : List Round) (r : Round) (s : Db)
    → Elem r rounds
    → r.upgrade ≢ must_wait
    → (p : Db × Option Error) × (join_loop rounds s ≡ some p)
unfolding join_loop
join_loop_returns [] r s h w = absurd h
join_loop_returns (x ∷ rounds) r s h w = elim (Bool-cases (is_abort (open_db x s).1)) [
  | inr over ↦ (open_db x s, rw over refl)
  | inl again ↦ elim h [
    | inl here ↦ absurd (
        w (
          ap (λ y. y.upgrade) (sym here)
          ∙ (open_db-Ends x s).waits (abort_of (open_db x s).1 again)))
    | inr there ↦ rw again (join_loop_returns rounds r (open_db x s).0 there w)
  ]
]

-- `Stop` leaves the handle of the database as it was, open where it was open: the database counts as
-- offline before the test that is to close it.
stop_keeps_handle :
    (o : Own) (t : Tables) (closes : Bool) (s : Db)
    → ((stop o t closes s).0.handle ≡ s.handle)
      × (is_open o t (stop o t closes s).0 ≡ some (unavailable offline))
unfolding stop is_open
stop_keeps_handle o t closes s = ground arith

-- `Bootstrap` that succeeds leaves a database that is ready and the row of the member, with its extensions, in
-- the table.
pub bootstrap_lem :
    (creates : Bool) (x : Extensions) (r : Round) (m : Member) (rows rows' : List Member)
    (s s' : Db)
    → bootstrap creates x r m rows s ≡ (s', rows', none)
    → (s'.status ≡ ready) × (create_member (record m { api_extensions = x }) rows ≡ ok rows')
unfolding bootstrap transaction record_member created
bootstrap_lem creates x r m rows rows' s s' h =
    let end = open_db-Ends r (record s { has_dqlite = true }) in
    elim (Bool-cases creates) [
      | inr fails ↦ absurd (ground arith)
      | inl works ↦ elim (Option-cases (open_db r (record s { has_dqlite = true })).1) [
        | inr (e, p) ↦ absurd (ground arith)
        | inl p ↦
            let is_ready = (end.opens p).0 in
            elim (Result-cases (create_member (record m { api_extensions = x }) rows)) [
              | inr (e, q) ↦ absurd (ground arith)
              | inl (made, q) ↦ (ground arith, ground arith)
            ]
      ]
    ]
