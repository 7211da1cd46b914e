-- ===== src/Database/Refinement.antt =====
-- internal/db/dqlite.go and internal/db/db.go: the operations of Database against the steps of
-- Database/Steps.
use microcluster.Prelude.{
  ◌≡◌, ◌≢◌, ◌⊎◌, inl, inr, refl, sym, ap, ◌∙◌, subst, Bool, true, false, Option, none, some, List,
  [], ◌∷◌, Bool-cases, arith,
}
use microcluster.Database.{
  starting, ready, Handle, no_handle, open_handle, closed_handle, Db, Error, graceful_abort,
  upgrade_failed, not_prepared, not_started, not_opened, Round, Upgraded, upgraded, must_wait,
  refused, open_db, after_handle, opened, after_opening, prepare, give_up, is_abort, join_loop,
}
use microcluster.Database.Steps
use microcluster.Database.Steps.{
  Pc, idle, begun, upgrading, paused, preparing, System, Step, Steps, status_to, here, next, begin,
  start_fails, keep_handle, open_fresh, go_on, pause, abort, upgrade_fails, prepare_fails, finish,
}

abbrev pub resting : Db → System
resting s = record { db = s; pc = idle }

abbrev pub opening : Db → System
opening s = status_to starting begun (resting s)

-- What a round answers where `Open` takes a step in it, and what error the whole ends with where it is the
-- last one. It begins once, and it does not stop the database.
abbrev pub Answers : {s t : System} → Round → Option Error → Step s t → Type 0
Answers r e (begin p) = ⊥
Answers r e (start_fails p) =
    ((r.starts ≡ false) × (e ≡ some not_started))
    ⊎ ((r.starts ≡ true) × (r.opens ≡ false) × (e ≡ some not_opened))
Answers r e (keep_handle p h) = r.starts ≡ true
Answers r e (open_fresh p h) = (r.starts ≡ true) × (r.opens ≡ true)
Answers r e (go_on p) = r.upgrade ≡ upgraded
Answers r e (pause p) = r.upgrade ≡ must_wait
Answers r e (abort p) = e ≡ some graceful_abort
Answers r e (upgrade_fails p) = (r.upgrade ≡ refused) × (e ≡ some upgrade_failed)
Answers r e (prepare_fails p) = (r.prepares ≡ false) × (e ≡ some not_prepared)
Answers r e (finish p) = (r.prepares ≡ true) × (e ≡ none)
Answers r e Steps.stop = ⊥

-- Steps that follow the answers of a round, to an end with this error.
pub data Follows (r : Round) (e : Option Error) (s : System) : System → Type 0 where
  start : Follows r e s s
  step : {t u : System} → Follows r e s t → (st : Step t u) → Answers r e st → Follows r e s u

-- The rounds of `Join`: each that is aborted is followed by another, and one that is not is the last.
pub data Joins (e : Option Error) (s' : Db) : List Round → Db → Type 0 where
  over :
      {r : Round} {rounds : List Round} {s : Db}
      → e ≢ some graceful_abort
      → Follows r e (opening s) (resting s')
      → Joins e s' (r ∷ rounds) s
  again :
      {r : Round} {rounds : List Round} {s t : Db}
      → Follows r (some graceful_abort) (opening s) (resting t)
      → Joins e s' rounds t
      → Joins e s' (r ∷ rounds) s

-- What an operation ends with.
abbrev Lands : Round → System → Db × Option Error → Type 0
Lands r a p = Follows r p.1 a (resting p.0)

-- From the opened handle on.
after_opening-Lands :
    (a : System) (r : Round) (s : Db) (u : Upgraded) (b : Bool)
    → r.upgrade ≡ u
    → r.prepares ≡ b
    → ((e : Option Error) → Follows r e a (record { db = s; pc = upgrading }))
    → Lands r a (after_opening r s)
unfolding after_opening prepare give_up
after_opening-Lands a r s upgraded true i j p =
    subst (Lands r a) (ground arith) (step (step (p _) (go_on refl) i) (finish refl) (j, refl))
after_opening-Lands a r s upgraded false i j p =
    subst (Lands r a) (ground arith)
      (step (step (p _) (go_on refl) i) (prepare_fails refl) (j, refl))
after_opening-Lands a r s must_wait b i j p =
    subst (Lands r a) (ground arith) (step (step (p _) (pause refl) i) (abort refl) refl)
after_opening-Lands a r s refused b i j p =
    subst (Lands r a) (ground arith) (step (p _) (upgrade_fails refl) (i, refl))

-- With the handle of an earlier round.
kept-Lands :
    (r : Round) (s : Db)
    → r.starts ≡ true
    → some s ≡ opened r s
    → s.handle ≢ no_handle
    → Lands r (record { db = s; pc = begun }) (after_handle r s (opened r s))
unfolding after_handle
kept-Lands r s g k n =
    subst (λ x. Lands r (record { db = s; pc = begun }) (after_handle r s x)) k
      (after_opening-Lands _ r s r.upgrade r.prepares refl refl
        (λ e. step start (keep_handle refl n) g))

-- From the start of dqlite on.
begun-Lands :
    (r : Round) (s : Db) (h : Handle) (b : Bool)
    → r.starts ≡ true
    → s.handle ≡ h
    → r.opens ≡ b
    → Lands r (record { db = s; pc = begun }) (after_handle r s (opened r s))
unfolding opened after_handle give_up
begun-Lands r s no_handle true g h i =
    let fresh : some (record s { handle = open_handle }) ≡ opened r s = ground arith in
    subst (λ x. Lands r (record { db = s; pc = begun }) (after_handle r s x)) fresh
      (after_opening-Lands _ r (record s { handle = open_handle }) r.upgrade r.prepares refl refl
        (λ e. step start (open_fresh refl h) (g, i)))
begun-Lands r s no_handle false g h i =
    let failed : none ≡ opened r s = ground arith in
    subst (λ x. Lands r (record { db = s; pc = begun }) (after_handle r s x)) failed
      (step start (start_fails refl) (inr (g, i, refl)))
begun-Lands r s open_handle b g h i = kept-Lands r s g (ground arith) (λ n. ground arith)
begun-Lands r s closed_handle b g h i = kept-Lands r s g (ground arith) (λ n. ground arith)

open_db-Lands_from :
    (r : Round) (s : Db) (b : Bool) → r.starts ≡ b → Lands r (opening s) (open_db r s)
unfolding open_db give_up
open_db-Lands_from r s true e =
    subst (Lands r (opening s)) (ground arith)
      (begun-Lands r (record s { status = starting }) s.handle r.opens e refl refl)
open_db-Lands_from r s false e =
    subst (Lands r (opening s)) (ground arith) (step start (start_fails refl) (inl (e, refl)))

-- Each `Open` follows the answers of its round.
open_db-Lands : (r : Round) (s : Db) → Lands r (opening s) (open_db r s)
open_db-Lands r s = open_db-Lands_from r s r.starts refl

is_abort-eq : (e : Option Error) → is_abort e ≡ true → e ≡ some graceful_abort
unfolding is_abort
is_abort-eq e h = ground arith

not_abort : {e : Option Error} → is_abort e ≡ false → e ≢ some graceful_abort
unfolding is_abort
not_abort h a = ground arith

-- Where `Join` ends, its rounds are sequences of steps that follow the answers of each round, from the start of
-- an `Open` to a state at rest: each round but the last is aborted, which ends it for the upgrade of others,
-- and the last one ends with the error of the whole, which is not the abort.
pub join_loop-Joins :
    (rounds : List Round) (s s' : Db) (e : Option Error)
    → join_loop rounds s ≡ some (s', e)
    → Joins e s' rounds s
unfolding join_loop
join_loop-Joins [] s s' e h = absurd (ground arith)
join_loop-Joins (r ∷ rounds) s s' e h = elim (Bool-cases (is_abort (open_db r s).1)) [
  | inl aborted ↦
      again
        (subst (λ x. Follows r x (opening s) (resting (open_db r s).0))
          (is_abort-eq (open_db r s).1 aborted) (open_db-Lands r s))
        (join_loop-Joins rounds (open_db r s).0 s' e (rw aborted at h))
  | inr ended ↦
      let is : open_db r s ≡ (s', e) = ground arith in
      over (not_abort (ap is_abort (sym (ap (λ x. x.1) is)) ∙ ended))
        (subst (λ x. Follows r x.1 (opening s) (resting x.0)) is (open_db-Lands r s))
]

-- `Stop` while `Open` is about to succeed does not stop the database: the next step of `Open` sets the
-- status to ready, on a context that is cancelled.
stop_then_ready :
    (t : System)
    → t.pc ≡ preparing
    → (u : System) × Steps t u × (u.db.status ≡ ready) × (u.db.cancelled ≡ true)
stop_then_ready t p = (_, next (next here Steps.stop) (finish p), refl, refl)
