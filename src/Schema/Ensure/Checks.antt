-- ===== src/Schema/Ensure/Checks.antt =====
-- internal/db/update/schema.go: the check of `Ensure` before the updates, and the updates that stay where
-- later ones fail.
use microcluster.Prelude.{
  ℕ, ◌≡◌, ◌≢◌, ◌⊎◌, refl, sym, ap, ◌∙◌, inl, inr, Bool, true, false, none, some, ltb, ok, err,
  Option-cases, Result-cases, arith,
}
use microcluster.Schema.{Db, Error}
use microcluster.Schema.Ensure.{
  Schema, Conn, Outcome, done, aborted, failed, Checked, go_on, wait, refuse, versions, is_untyped,
  exec_from_file, set_foreign_keys, run_check, internal_stage, external_stage, finish, update,
  checked, ensure,
}
use microcluster.Schema.Ensure.Current.{exec-ok, set-ok, checked-outcome}

Checked-cases :
    {D : Type 0} (x : Checked D)
    → ((d : D) × (x ≡ go_on d)) ⊎ (((d : D) × (x ≡ wait d)) ⊎ (x ≡ refuse))
Checked-cases (go_on d) = inl (d, refl)
Checked-cases (wait d) = inr (inl (d, refl))
Checked-cases refuse = inr (inr refl)

module _ {D : Type 0} (c : Schema D) where
  update-ne-aborted : (b : Bool) (s : Conn D) → (update c b s).1 ≢ aborted
  unfolding update finish
  update-ne-aborted b s h = ground arith

  checked-aborted :
      (u : Bool) (p : Conn D × Outcome) (s' : Conn D)
      → checked c u p ≡ (s', aborted)
      → (s'.db ≡ p.0.db) × (p.1 ≡ aborted)
  unfolding checked set_foreign_keys
  checked-aborted u (s, done) s' h = absurd (
      ground (
        arith,
        update-ne-aborted (ltb (versions s.db.schemas).0 6) s,
        update-ne-aborted (ltb (versions s.db.schemas).0 6) (record s { foreign_keys = false }),
      ))
  checked-aborted u (s, aborted) s' h = ground arith
  checked-aborted u (s, failed e) s' h = absurd (ground arith)

  check-aborted :
      (s : Conn D)
      → (run_check c s).1 ≡ aborted
      → (f : D → Checked D) × (c.check ≡ some f)
        × (f s.db.rest ≡ wait (run_check c s).0.db.rest)
        × ((run_check c s).0.db.schemas ≡ s.db.schemas)
  unfolding run_check
  check-aborted s h = elim (Option-cases c.check) [
    | inl p ↦ absurd (ground arith)
    | inr (f, p) ↦ (f, p, ground arith, ground arith)
  ]

  -- Where `Ensure` waits and there is no file with queries, it runs no update: what it leaves is what
  -- the check wrote, and the table `schemas` is as it was.
  pub ensure_waits :
      (s s' : Conn D)
      → s.file ≡ none
      → ensure c s ≡ (s', aborted)
      → (f : D → Checked D) × (c.check ≡ some f)
        × (f s.db.rest ≡ wait s'.db.rest)
        × (s'.db.schemas ≡ s.db.schemas)
  unfolding ensure run_check
  ensure_waits s s' n h = elim (Result-cases (exec_from_file s)) [
    | inr (e, p) ↦ absurd (ground arith)
    | inl (a, p) ↦ elim (Result-cases (set_foreign_keys (is_untyped a.db.schemas) false a)) [
      | inr (e, q) ↦ absurd (ground arith)
      | inl (b, q) ↦
          let (used, keys, idle) = exec-ok c s a p in
          let (same_db, same_file, off) = set-ok c (is_untyped a.db.schemas) false a b q in
          let after : checked c (is_untyped a.db.schemas) (run_check c b) ≡ (s', aborted) =
            ground arith in
          let (kept, stopped) =
            checked-aborted (is_untyped a.db.schemas) (run_check c b) s' after in
          let here : b.db ≡ s.db = same_db ∙ ap (λ x. x.db) (idle n) in
          let (f, is_f, waits, table) = check-aborted b stopped in
          let left : (run_check c b).0.db ≡ s'.db = sym kept in
          (
            f,
            is_f,
            ap (λ x. f x.rest) (sym here) ∙ waits ∙ ap (λ x. wait x.rest) left,
            ap (λ x. x.schemas) (sym left) ∙ table ∙ ap (λ x. x.schemas) here,
          )
    ]
  ]

  -- `Ensure` is not one transaction: where the external updates fail, the internal ones that it applied
  -- before them stay.
  ensure_external_fails :
      (s : Conn D) (db : Db D) (v : ℕ) (e : Error)
      → c.check ≡ none
      → s.file ≡ none
      → s.pragmas ≡ true
      → internal_stage c s.db ≡ ok (db, v, false)
      → external_stage c v false db ≡ err e
      → ((ensure c s).0.db ≡ db) × ((ensure c s).1 ≡ failed e)
  unfolding ensure exec_from_file checked run_check set_foreign_keys update finish
  ensure_external_fails s db v e k n p i x = (ground arith, ground arith)

  passed :
      (b : Conn D) (f : D → Checked D)
      → c.check ≡ some f
      → run_check c b ≡ ((run_check c b).0, done)
      → (d : D) × (f b.db.rest ≡ go_on d)
  unfolding run_check
  passed b f k h = elim (Checked-cases (f b.db.rest)) [
    | inl (d, p) ↦ (d, p)
    | inr (inl (d, p)) ↦ absurd (ground arith)
    | inr (inr p) ↦ absurd (ground arith)
  ]

  -- Where `Ensure` succeeds and there is no file with queries, the check has let it go on.
  pub ensure-go_on :
      (f : D → Checked D) (s s' : Conn D)
      → c.check ≡ some f
      → s.file ≡ none
      → ensure c s ≡ (s', done)
      → (d : D) × (f s.db.rest ≡ go_on d)
  unfolding ensure run_check
  ensure-go_on f s s' k n h = elim (Result-cases (exec_from_file s)) [
    | inr (e, p) ↦ absurd (ground arith)
    | inl (a, p) ↦ elim (Result-cases (set_foreign_keys (is_untyped a.db.schemas) false a)) [
      | inr (e, q) ↦ absurd (ground arith)
      | inl (b, q) ↦
          let (used, keys, idle) = exec-ok c s a p in
          let (same_db, same_file, off) = set-ok c (is_untyped a.db.schemas) false a b q in
          let after : checked c (is_untyped a.db.schemas) (run_check c b) ≡ (s', done) =
            ground arith in
          let went_on = checked-outcome c (is_untyped a.db.schemas) (run_check c b) s' after in
          let here : b.db ≡ s.db = same_db ∙ ap (λ x. x.db) (idle n) in
          let (d, passes) = passed b f k went_on in (d, ap (λ x. f x.rest) (sym here) ∙ passes)
    ]
  ]
