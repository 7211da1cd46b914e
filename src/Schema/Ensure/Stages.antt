-- ===== src/Schema/Ensure/Stages.antt =====
-- internal/db/update/schema.go: what the two transactions with updates leave.
use microcluster.Prelude.{
  ℕ, zero, suc, ◌+◌, ◌-◌, ◌≡◌, refl, sym, ap, ap₂, subst, ◌∙◌, inl, inr, Bool, false, Option, none,
  some, List, [], ◌∷◌, ◌++◌, length, drop, map, ltb, ok, >>=-eq-ok, refuse_if, Option-cases,
  Result-cases, arith,
}
use microcluster.Schema.{
  Kind, internal, external, Db, Schemas, typed, missing, untyped, Sql, max_of, of_kind, lift,
  update_from_v0, update_from_v1, internal_updates, apply_from, ensure_applied, insert_version,
  has_row, first_rows, later_rows, too_recent,
}
use microcluster.Schema.Apply.{
  new_rows, run_all, apply_from-map-lift, max_of-new_rows, other_kind-new_rows,
}
use microcluster.Schema.Ensure.{Schema, versions, is_untyped, internal_stage, external_stage}
use microcluster.Schema.Ensure.Rows.{
  HasRows, rows_after, new_rows-is, start_rows, with_internals, drop-map, length-drop, length-map,
}

module _ {D : Type 0} (q : Sql D) where
  -- A run of updates that leave the table alone, from the highest version of their kind.
  apply-HasVersions :
      (k : Kind) (v : ℕ) (fs : List (D → Option D)) (rows : List (Kind × ℕ)) (d : D) (db : Db D)
      → max_of (of_kind k rows) ≡ v
      → apply_from q k v (map lift fs) (record { schemas = typed rows; rest = d }) ≡ ok db
      → db.schemas ≡ typed (rows ++ new_rows k v fs)
  apply-HasVersions k v fs rows d db m h =
      let same = apply_from-map-lift q k v fs rows d (omega (arith, m)) in
      elim (Result-cases (run_all v fs d)) [
        | inl (d', p) ↦ ground (arith, same)
        | inr (e, p) ↦ absurd (ground (arith, same))
      ]

  abbrev later : List (D → Option D)
  later = q.v2 ∷ q.v3 ∷ q.v4 ∷ q.v5 ∷ []

  run-HasVersions :
      (k : ℕ) (fs : List (D → Option D)) (rows : List (Kind × ℕ)) (d : D) (db : Db D)
      → max_of (of_kind internal rows) ≡ k
      → k + length fs ≡ 6
      → apply_from q internal k (map lift fs) (record { schemas = typed rows; rest = d }) ≡ ok db
      → HasRows db 6 (max_of (of_kind external rows)) (rows ++ rows_after internal k (6 - k))
  run-HasVersions k fs rows d db m six h =
      let left : length fs ≡ 6 - k = omega (arith, six) in
      (
        record {
          rows = rows ++ new_rows internal k fs;
          is_typed = apply-HasVersions internal k fs rows d db m h;
          internals = max_of-new_rows internal k fs rows m ∙ six;
          externals = ap max_of (other_kind-new_rows internal external k fs rows refl);
        },
        ap (λ x. rows ++ x) (new_rows-is internal k fs ∙ ap (rows_after internal k) left),
      )

  second_update :
      (us : List (Db D → Option (Db D))) (rows : List (Kind × ℕ)) (d : D)
      → apply_from q internal 1 (update_from_v1 q ∷ us) (record { schemas = typed rows; rest = d })
        ≡ apply_from q internal 1 (lift some ∷ us) (record { schemas = typed rows; rest = d })
  unfolding apply_from update_from_v1 lift
  second_update us rows d = ground arith

  typed_stage :
      (rows : List (Kind × ℕ)) (d : D) (db : Db D) (n : ℕ)
      → max_of (of_kind internal rows) ≡ n
      → ensure_applied q internal n (internal_updates q) (record { schemas = typed rows; rest = d })
        ≡ ok db
      → HasRows db 6 (max_of (of_kind external rows)) (rows ++ rows_after internal n (6 - n))
  unfolding ensure_applied internal_updates apply_from update_from_v0
  typed_stage rows d db zero m h = absurd (ground arith)
  typed_stage rows d db (suc zero) m h =
      run-HasVersions 1 (some ∷ later) rows d db m refl
        (sym (second_update (map lift later) rows d) ∙ h)
  typed_stage rows d db (suc (suc n)) m h =
      let (u, in_range, applied) =
        >>=-eq-ok (refuse_if (ltb 6 (suc (suc n))) (too_recent (suc (suc n)))) _ h in
      run-HasVersions (suc (suc n)) (drop n later) rows d db m (ground (arith, length-drop n later))
        (ap
            (λ us.
              apply_from q internal (suc (suc n)) us (record { schemas = typed rows; rest = d }))
            (sym (drop-map lift n later))
          ∙ applied)

  -- The first two updates, on a database without the table.
  first_updates :
      (us : List (Db D → Option (Db D))) (d d₁ d₂ : D)
      → q.v0 d ≡ some d₁
      → q.v1 d₁ ≡ some d₂
      → apply_from q internal 0 (update_from_v0 q ∷ us) (record { schemas = missing; rest = d })
        ≡ apply_from q internal 1 us (record { schemas = typed ((internal, 1) ∷ []); rest = d₂ })
  unfolding apply_from update_from_v0 update_from_v1 insert_version first_rows later_rows has_row
      of_kind
  first_updates us d d₁ d₂ p r = ground arith

  first-ok :
      (us : List (Db D → Option (Db D))) (d : D) (db : Db D)
      → apply_from q internal 0 (update_from_v0 q ∷ us) (record { schemas = missing; rest = d })
        ≡ ok db
      → (d₁ : D) × (d₂ : D) × (q.v0 d ≡ some d₁) × (q.v1 d₁ ≡ some d₂)
  unfolding apply_from update_from_v0 update_from_v1
  first-ok us d db h = elim (Option-cases (q.v0 d)) [
    | inl p ↦ absurd (ground arith)
    | inr (d₁, p) ↦ elim (Option-cases (q.v1 d₁)) [
      | inl r ↦ absurd (ground arith)
      | inr (d₂, r) ↦ (d₁, d₂, p, r)
    ]
  ]

  missing_stage :
      (d : D) (db : Db D)
      → ensure_applied q internal 0 (internal_updates q) (record { schemas = missing; rest = d })
        ≡ ok db
      → HasRows db 6 0 (rows_after internal 0 6)
  unfolding ensure_applied internal_updates max_of of_kind
  missing_stage d db h =
      let us = update_from_v1 q ∷ map lift later in
      let (d₁, d₂, p, r) = first-ok us d db h in
      run-HasVersions 1 (some ∷ later) ((internal, 1) ∷ []) d₂ db refl refl (
        sym (second_update (map lift later) ((internal, 1) ∷ []) d₂)
        ∙ sym (first_updates us d d₁ d₂ p r)
        ∙ h)

module _ {D : Type 0} (c : Schema D) (f : c.fresh ≡ none) where
  stage_lem :
      (db : Db D) (r : Db D × ℕ × Bool)
      → is_untyped db.schemas ≡ false
      → internal_stage c db ≡ ok r
      → (ensure_applied c.sql internal (versions db.schemas).0 (internal_updates c.sql) db ≡ ok r.0)
        × (r.1 ≡ (versions db.schemas).1)
        × (r.2 ≡ false)
  unfolding internal_stage
  stage_lem db r u h = ground arith

  untyped_lem :
      (vs : List ℕ) (d : D) (r : Db D × ℕ × Bool)
      → internal_stage c (record { schemas = untyped vs; rest = d }) ≡ ok r
      → (d' : D) × (internal_stage c
            (record { schemas = typed (first_rows vs ++ later_rows vs); rest = d' })
          ≡ ok r)
  unfolding internal_stage update_from_v1 is_untyped
  untyped_lem vs d r h = elim (Option-cases (c.sql.v1 d)) [
    | inl p ↦ absurd (ground arith)
    | inr (d', p) ↦ (d', ground arith)
  ]

  typed_lem :
      (rows : List (Kind × ℕ)) (d : D) (db' : Db D) (v : ℕ) (created : Bool)
      → internal_stage c (record { schemas = typed rows; rest = d }) ≡ ok (db', v, created)
      → HasRows db' 6 v (with_internals rows)
        × (v ≡ max_of (of_kind external rows))
        × (created ≡ false)
  unfolding versions is_untyped
  typed_lem rows d db' v created h =
      let (applied, e, done) =
        stage_lem (record { schemas = typed rows; rest = d }) (db', v, created) refl h in
      (
        subst (λ x. HasRows db' 6 x (with_internals rows)) (sym e)
            (typed_stage c.sql rows d db' _ refl applied),
        e,
        done,
      )

  -- After the transaction of the internal updates those that were left are recorded after the rows from
  -- before, and the external version is the one that it hands on.
  pub internal_stage-HasVersions :
      (s : Schemas) (d : D) (db' : Db D) (v : ℕ) (created : Bool)
      → internal_stage c (record { schemas = s; rest = d }) ≡ ok (db', v, created)
      → HasRows db' 6 v (with_internals (start_rows s))
        × (v ≡ max_of (of_kind external (start_rows s)))
        × (created ≡ false)
  unfolding versions is_untyped max_of of_kind
  internal_stage-HasVersions missing d db' v created h =
      let (applied, e, done) =
        stage_lem (record { schemas = missing; rest = d }) (db', v, created) refl h in
      (
        subst (λ x. HasRows db' 6 x (rows_after internal 0 6)) (sym e)
            (missing_stage c.sql d db' applied),
        e,
        done,
      )
  internal_stage-HasVersions (untyped vs) d db' v created h =
      let (d', typed_first) = untyped_lem vs d (db', v, created) h in
      typed_lem (first_rows vs ++ later_rows vs) d' db' v created typed_first
  internal_stage-HasVersions (typed rows) d db' v created h = typed_lem rows d db' v created h

  -- After the transaction of the external updates those that were left are recorded too.
  pub external_stage-HasVersions :
      (v : ℕ) (s : Schemas) (d : D) (db' : Db D) (rows : List (Kind × ℕ))
      → HasRows (record { schemas = s; rest = d }) 6 v rows
      → external_stage c v false (record { schemas = s; rest = d }) ≡ ok db'
      → HasRows db' 6 (length c.external) (rows ++ rows_after external v (length c.external - v))
  unfolding external_stage ensure_applied
  external_stage-HasVersions v s d db' start (h, from) done =
      let fs = c.external in
      let here : ◌≡◌ {A = Db D} (record { schemas = s; rest = d })
          (record { schemas = typed h.rows; rest = d }) =
        ap (λ t. record { schemas = t; rest = d }) h.is_typed in
      let (u, in_range, run) =
        >>=-eq-ok (refuse_if (ltb (length (map lift fs)) v) (too_recent v)) _ done in
      let applied : apply_from c.sql external v (map lift (drop v fs))
            (record { schemas = typed h.rows; rest = d })
          ≡ ok db' =
        ap₂ (λ us x. apply_from c.sql external v us x) (sym (drop-map lift v fs)) (sym here)
        ∙ run in
      (
        record {
          rows = h.rows ++ new_rows external v (drop v fs);
          is_typed =
              apply-HasVersions c.sql external v (drop v fs) h.rows d db' h.externals applied;
          internals =
              ap max_of (other_kind-new_rows external internal v (drop v fs) h.rows refl)
              ∙ h.internals;
          externals =
              max_of-new_rows external v (drop v fs) h.rows h.externals
              ∙ ground (arith, length-drop v fs, length-map lift fs);
        },
        ap₂ (λ x y. x ++ y) from
            (new_rows-is external v (drop v fs) ∙ ap (rows_after external v) (length-drop v fs)),
      )
