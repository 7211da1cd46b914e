-- ===== src/Schema/Ensure/Current.antt =====
-- internal/db/update/schema.go: where `Ensure` succeeds the schema is current, and where it is current
-- `Ensure` does nothing.
use microcluster.Prelude.{
  ℕ, ◌≡◌, refl, sym, ap, ap₂, ◌∙◌, inl, inr, Bool, true, false, not, ◌&&◌, none, List, [], ◌∷◌,
  length, drop, map, ltb, ◌-◌, ◌++◌, subst, ok, Option-cases, Result-cases, Bool-cases, arith,
  if◌then◌else◌,
}
use microcluster.Schema.{
  Db, Schemas, Kind, external, max_of, of_kind, lift, internal_updates, ensure_applied, apply_from,
}
use microcluster.Schema.Ensure.{
  Schema, Conn, Outcome, done, aborted, failed, versions, is_untyped, exec_from_file,
  set_foreign_keys, run_check, internal_stage, external_stage, finish, update, checked, ensure,
}
use microcluster.Schema.Ensure.Rows.{
  HasVersions, HasRows, start_rows, with_internals, rows_after, length-map,
}
use microcluster.Schema.Ensure.Stages.{internal_stage-HasVersions, external_stage-HasVersions}

module _ {D : Type 0} (c : Schema D) where
  update-done :
      (has_internal : Bool) (s s' : Conn D)
      → update c has_internal s ≡ (s', done)
      → (db : Db D) × (v : ℕ) × (created : Bool) × (internal_stage c s.db ≡ ok (db, v, created))
        × (external_stage c v created db ≡ ok s'.db)
        × (s'.file ≡ s.file)
        × (s'.foreign_keys ≡ (if has_internal then true else s.foreign_keys))
  unfolding update finish set_foreign_keys
  update-done has_internal s s' h = elim (Result-cases (internal_stage c s.db)) [
    | inr (e, p) ↦ absurd (ground arith)
    | inl ((db, v, created), p) ↦ elim (Result-cases (external_stage c v created db)) [
      | inr (e, q) ↦ absurd (ground arith)
      | inl (db', q) ↦ (db, v, created, p, ground arith, ground arith, ground arith)
    ]
  ]

  checked-done :
      (was_untyped : Bool) (s s' : Conn D)
      → checked c was_untyped (s, done) ≡ (s', done)
      → (s₁ : Conn D) × (update c (ltb (versions s.db.schemas).0 6) s₁ ≡ (s', done))
        × (s₁.db ≡ s.db)
        × (s₁.file ≡ s.file)
        × (s₁.foreign_keys ≡ (
            if ltb (versions s.db.schemas).0 6 && not was_untyped then false else s.foreign_keys))
  unfolding checked set_foreign_keys internal_updates
  checked-done was_untyped s s' h =
      let off = ltb (versions s.db.schemas).0 6 && not was_untyped in
      elim (Bool-cases off) [
        | inr keep ↦ (s, ground arith, refl, refl, rw keep refl)
        | inl turn ↦ elim (Bool-cases s.pragmas) [
          | inr no_pragmas ↦ absurd (ground arith)
          | inl works ↦ (record s { foreign_keys = false }, ground arith, refl, refl, rw turn refl)
        ]
      ]

  pub exec-ok :
      (s s₁ : Conn D)
      → exec_from_file s ≡ ok s₁
      → (s₁.file ≡ none) × (s₁.foreign_keys ≡ s.foreign_keys) × (s.file ≡ none → s₁ ≡ s)
  unfolding exec_from_file
  exec-ok s s₁ h = elim (Option-cases s.file) [
    | inl n ↦ let same : s ≡ s₁ = ground arith in (ground arith, ground arith, λ u. sym same)
    | inr (f, p) ↦ elim (Option-cases (f.query s.db)) [
      | inl q ↦ absurd (ground arith)
      | inr (db, q) ↦ (ground arith, ground arith, λ n. absurd (cc (n, p)))
    ]
  ]

  pub set-ok :
      (b v : Bool) (s s₁ : Conn D)
      → set_foreign_keys b v s ≡ ok s₁
      → (s₁.db ≡ s.db) × (s₁.file ≡ s.file) × (s₁.foreign_keys ≡ (if b then v else s.foreign_keys))
  unfolding set_foreign_keys
  set-ok b v s s₁ h = (ground arith, ground arith, ground arith)

  check_keeps :
      (s : Conn D)
      → ((run_check c s).0.db.schemas ≡ s.db.schemas)
        × ((run_check c s).0.file ≡ s.file)
        × ((run_check c s).0.foreign_keys ≡ s.foreign_keys)
  unfolding run_check
  check_keeps s = (ground arith, ground arith, ground arith)

  pub checked-outcome :
      (u : Bool) (p : Conn D × Outcome) (s' : Conn D) → checked c u p ≡ (s', done) → p ≡ (p.0, done)
  unfolding checked
  checked-outcome u (s, done) s' h = refl
  checked-outcome u (s, aborted) s' h = absurd (ground arith)
  checked-outcome u (s, failed e) s' h = absurd (ground arith)

  -- The table `schemas` is left alone from the file with queries to the updates.
  prologue-done :
      (s s' : Conn D)
      → ensure c s ≡ (s', done)
      → (a : Conn D) × (s₁ : Conn D) × (exec_from_file s ≡ ok a)
        × (s₁.db.schemas ≡ a.db.schemas)
        × (checked c (is_untyped s₁.db.schemas) (s₁, done) ≡ (s', done))
        × (s₁.file ≡ none)
        × (s₁.foreign_keys ≡ (if is_untyped s₁.db.schemas then false else s.foreign_keys))
  unfolding ensure
  prologue-done s s' h = elim (Result-cases (exec_from_file s)) [
    | inr (e, p) ↦ absurd (ground arith)
    | inl (a, p) ↦ elim (Result-cases (set_foreign_keys (is_untyped a.db.schemas) false a)) [
      | inr (e, q) ↦ absurd (ground arith)
      | inl (b, q) ↦
          let (used, keys, idle) = exec-ok s a p in
          let (same_db, same_file, off) = set-ok (is_untyped a.db.schemas) false a b q in
          let (same, file, keys') = check_keeps b in
          let after : checked c (is_untyped a.db.schemas) (run_check c b) ≡ (s', done) =
            ground arith in
          let went_on = checked-outcome (is_untyped a.db.schemas) (run_check c b) s' after in
          let table : (run_check c b).0.db.schemas ≡ a.db.schemas =
            same ∙ ap (λ x. x.schemas) same_db in
          (
            a,
            (run_check c b).0,
            p,
            table,
            ap₂ (λ x y. checked c (is_untyped x) y) table (sym went_on) ∙ after,
            file ∙ same_file ∙ used,
            rw table (keys' ∙ off ∙ ap (λ x. if is_untyped a.db.schemas then false else x) keys),
          )
    ]
  ]

  untyped_behind : (s : Schemas) → is_untyped s ≡ true → ltb (versions s).0 6 ≡ true
  unfolding is_untyped versions
  untyped_behind s h = ground arith

  -- The rows that `Ensure` ends with, from those of a table.
  abbrev pub current_rows : Schemas → List (Kind × ℕ)
  current_rows table =
      let v = max_of (of_kind external (start_rows table)) in
      with_internals (start_rows table) ++ rows_after external v (length c.external - v)

  -- Where `Ensure` succeeds and there is no fresh schema, the table `schemas` has the rows that the file with
  -- queries left, with their types where these were missing, then a row for each internal update after the
  -- highest internal version there, up to 6, then one for each external update after the highest external
  -- version; the highest versions are those of the last updates. The file is used up, and foreign keys are on
  -- if they were.
  pub ensure_current :
      (s s' : Conn D)
      → c.fresh ≡ none
      → ensure c s ≡ (s', done)
      → (a : Conn D) × (exec_from_file s ≡ ok a)
        × HasRows s'.db 6 (length c.external) (current_rows a.db.schemas)
        × (s'.file ≡ none)
        × (s.foreign_keys ≡ true → s'.foreign_keys ≡ true)
  ensure_current s s' f h =
      let (a, s₁, queried, table, after_check, used, keys) = prologue-done s s' h in
      let (s₂, updated, same_db, file_kept, keys₂) =
        checked-done (is_untyped s₁.db.schemas) s₁ s' after_check in
      let (db, v, created, internals, externals, file₃, keys₃) = update-done _ s₂ s' updated in
      let (mid, is, not_created) =
        internal_stage-HasVersions c f s₂.db.schemas s₂.db.rest db v created internals in
      let ends =
        external_stage-HasVersions c f v db.schemas db.rest s'.db
          (with_internals (start_rows s₂.db.schemas)) mid (rw not_created at externals) in
      let before : s₂.db.schemas ≡ a.db.schemas = ap (λ x. x.schemas) same_db ∙ table in
      (
        a,
        queried,
        subst (λ t. HasRows s'.db 6 (length c.external) (current_rows t)) before
            (subst
              (λ x. HasRows s'.db 6 (length c.external) (
                with_internals (start_rows s₂.db.schemas)
                ++ rows_after external x (length c.external - x)))
              is ends),
        file₃ ∙ file_kept ∙ used,
        λ on. ground (arith, untyped_behind s₁.db.schemas),
      )

  internal_idle :
      (db : Db D) (v : ℕ)
      → c.fresh ≡ none
      → HasVersions db 6 v
      → internal_stage c db ≡ ok (db, v, false)
  unfolding internal_stage is_untyped versions ensure_applied apply_from internal_updates
  internal_idle db v f h = ground arith

  drop_all : {A : Type 0} (xs : List A) → drop (length xs) xs ≡ []
  drop_all [] = refl
  drop_all (x ∷ xs) = drop_all xs

  external_idle : (db : Db D) → external_stage c (length c.external) false db ≡ ok db
  unfolding external_stage ensure_applied apply_from
  external_idle db =
      rw (← length-map lift c.external) (rw (drop_all (map lift c.external)) (ground arith))

  -- Where the schema is current, there is no file and no check, `Ensure` succeeds and changes nothing.
  ensure_idle :
      (s : Conn D)
      → c.fresh ≡ none
      → c.check ≡ none
      → s.file ≡ none
      → HasVersions s.db 6 (length c.external)
      → ensure c s ≡ (s, done)
  unfolding ensure exec_from_file checked run_check set_foreign_keys is_untyped versions update
      finish internal_updates
  ensure_idle s f k n h =
      ground (arith, internal_idle s.db (length c.external) f h, external_idle s.db)
