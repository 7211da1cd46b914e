-- ===== src/Database/Upgrading.antt =====
-- internal/db/db.go: `waitUpgrade`, which puts the comparison of the members' versions
-- (internal/db/update/cluster.go) into the updates of the schema (internal/db/update/schema.go).
use microcluster.Prelude.{
  Str, ◌≡◌, ◌⊎◌, inl, inr, refl, ap, ◌∙◌, Bool, false, none, some, List, length, map, All, arith,
  if◌then◌else◌,
}
use microcluster.Members.{Member}
use microcluster.Upgrade
use microcluster.Upgrade.{Tables, not_pending}
use microcluster.Upgrade.Check
use microcluster.Upgrade.Check.{Verdict, proceed, fail, check_versions, check_extensions}
use microcluster.Upgrade.Check.Commit.{announced, check_versions_commit}
use microcluster.Upgrade.Check.Proceed.{
  SameSchema, SameExtensions, check_versions_proceed, check_extensions_proceed,
}
use microcluster.Schema.Ensure.{
  Schema, Conn, Outcome, done, aborted, failed, Checked, go_on, wait, refuse, ensure,
}
use microcluster.Schema.Ensure.Rows.{HasVersions}
use microcluster.Schema.Ensure.Current.{ensure_current}
use microcluster.Schema.Ensure.Checks.{ensure_waits, ensure-go_on}
use microcluster.Database.{Upgraded, upgraded, must_wait, refused, Own}

-- The tables that the versions are kept in, as a part of the database.
pub record View (D : Type 0) : Type 0 where
  pub tables : D → Tables
  pub put : Tables → D → D
  pub tables-put : (t : Tables) (d : D) → tables (put t d) ≡ t

Verdict-cases :
    (x : Verdict) → (x ≡ proceed) ⊎ ((x ≡ Check.wait) ⊎ ((z : Upgrade.Error) × (x ≡ fail z)))
Verdict-cases proceed = inl refl
Verdict-cases Check.wait = inr (inl refl)
Verdict-cases (fail z) = inr (inr (z, refl))

module _ {D : Type 0} (v : View D) (o : Own) (name : Str) where
  -- `checkVersions`, as the schema's check.
  unfoldable pub version_check : D → Checked D
  version_check d =
      let (t, verdict) = check_versions o.internal o.external o.extensions name (v.tables d) in
      elim verdict [ proceed ↦ go_on (v.put t d) | Check.wait ↦ wait (v.put t d) | fail x ↦ refuse ]

  put_tables : Conn D → Tables → Conn D
  put_tables s t = record s { db = record s.db { rest = v.put t s.db.rest } }

  -- The transaction after `Ensure`; the one that waits has committed what it wrote.
  extension_check : Conn D → Conn D × Upgraded
  unfolding put_tables
  extension_check s =
      let (t, verdict) = check_extensions o.extensions name (v.tables s.db.rest) in
      elim verdict [
        | proceed ↦ (put_tables s t, upgraded)
        | Check.wait ↦ (put_tables s t, must_wait)
        | fail x ↦ (s, refused)
      ]

  after_ensure : Bool → Conn D × Outcome → Conn D × Upgraded
  unfolding extension_check
  after_ensure bootstrap (s, done) = if bootstrap then (s, upgraded) else extension_check s
  after_ensure bootstrap (s, aborted) = (s, must_wait)
  after_ensure bootstrap (s, failed e) = (s, refused)

  abbrev with_check : Bool → Schema D → Schema D
  with_check bootstrap c = if bootstrap then c else record c { check = some version_check }

  -- `waitUpgrade`, one attempt of its `retry`.
  unfoldable pub wait_upgrade : Bool → Schema D → Conn D → Conn D × Upgraded
  unfolding after_ensure
  wait_upgrade bootstrap c s = after_ensure bootstrap (ensure (with_check bootstrap c) s)

  version_check-go_on :
      (d d' : D)
      → version_check d ≡ go_on d'
      → (check_versions o.internal o.external o.extensions name (v.tables d)).1 ≡ proceed
  unfolding version_check
  version_check-go_on d d' h = ground arith

  after-upgraded :
      (p : Conn D × Outcome) (s' : Conn D)
      → after_ensure false p ≡ (s', upgraded)
      → (p ≡ (p.0, done))
        × ((check_extensions o.extensions name (v.tables p.0.db.rest)).1 ≡ proceed)
        × (v.tables s'.db.rest ≡ (check_extensions o.extensions name (v.tables p.0.db.rest)).0)
  unfolding after_ensure extension_check put_tables
  after-upgraded (s, done) s' h =
      elim (Verdict-cases (check_extensions o.extensions name (v.tables s.db.rest)).1) [
        | inl p ↦ (
          refl,
          p,
          ground (
            arith,
            v.tables-put (check_extensions o.extensions name (v.tables s.db.rest)).0 s.db.rest,
          ),
        )
        | inr (inl p) ↦ absurd (ground arith)
        | inr (inr (z, p)) ↦ absurd (ground arith)
      ]
  after-upgraded (s, aborted) s' h = absurd (ground arith)
  after-upgraded (s, failed e) s' h = absurd (ground arith)

  -- Where there is a members' table and no file with queries, and `waitUpgrade` lets a member that joins go
  -- on, every member whose row it has compared has the schema versions that it has itself, and in the table
  -- that is left the same extensions.
  pub wait_upgrade_agrees :
      (c : Schema D) (s s' : Conn D) (rows : List Member)
      → s.file ≡ none
      → (v.tables s.db.rest).table ≡ some rows
      → wait_upgrade false c s ≡ (s', upgraded)
      → All (SameSchema o.internal o.external) (
          not_pending (
            map
              (announced o.internal o.external o.extensions
                (v.tables s.db.rest).has_api_column
                name)
              rows))
        × ((left : List Member) × ((v.tables s'.db.rest).table ≡ some left)
            × SameExtensions o.extensions (not_pending left))
  unfolding wait_upgrade
  wait_upgrade_agrees c s s' rows n t h =
      let (went_on, agree, left) = after-upgraded (ensure (with_check false c) s) s' h in
      let (d, passes) =
        ensure-go_on (with_check false c) version_check s (ensure (with_check false c) s).0 refl n
          went_on in
      let (rows', found, same) =
        check_extensions_proceed o.extensions name
          (v.tables (ensure (with_check false c) s).0.db.rest) agree in
      (
        check_versions_proceed o.internal o.external o.extensions name (v.tables s.db.rest) rows t
            (version_check-go_on s.db.rest d passes),
        (rows', ap (λ x. x.table) left ∙ found, same),
      )

  version_check-wait :
      (d d' : D)
      → version_check d ≡ wait d'
      → ((check_versions o.internal o.external o.extensions name (v.tables d)).1 ≡ Check.wait)
        × (v.tables d' ≡ (check_versions o.internal o.external o.extensions name (v.tables d)).0)
  unfolding version_check
  version_check-wait d d' h =
      elim (Verdict-cases (check_versions o.internal o.external o.extensions name (v.tables d)).1) [
        | inl p ↦ absurd (ground arith)
        | inr (inl p) ↦ (
          p,
          ground (
            arith,
            v.tables-put (check_versions o.internal o.external o.extensions name (v.tables d)).0 d,
          ),
        )
        | inr (inr (z, p)) ↦ absurd (ground arith)
      ]

  after-must_wait :
      (p : Conn D × Outcome) (s' : Conn D)
      → after_ensure false p ≡ (s', must_wait)
      → (p ≡ (s', aborted)) ⊎ ((p ≡ (p.0, done)) × (s'.db.schemas ≡ p.0.db.schemas))
  unfolding after_ensure extension_check put_tables
  after-must_wait (s, done) s' h = inr (refl, ground arith)
  after-must_wait (s, aborted) s' h = inl (ground arith)
  after-must_wait (s, failed e) s' h = absurd (ground arith)

  -- Where there is a members' table, no fresh schema and no file with queries, a member that joins and waits
  -- has either run no update, with the table `schemas` as it was and its own row announced, or it has run
  -- them all and waits for the extensions of others.
  wait_upgrade_waits :
      (c : Schema D) (s s' : Conn D) (rows : List Member)
      → c.fresh ≡ none
      → s.file ≡ none
      → (v.tables s.db.rest).table ≡ some rows
      → wait_upgrade false c s ≡ (s', must_wait)
      → ((s'.db.schemas ≡ s.db.schemas)
          × ((v.tables s'.db.rest).table
              ≡ some (
                  map
                    (announced o.internal o.external o.extensions
                      (v.tables s.db.rest).has_api_column
                      name)
                    rows)))
        ⊎ HasVersions s'.db 6 (length c.external)
  unfolding wait_upgrade
  wait_upgrade_waits c s s' rows f n t h =
      let p = ensure (with_check false c) s in
      elim (after-must_wait p s' h) [
        | inl waited ↦
            let (g, is_g, paused, table) = ensure_waits (with_check false c) s s' n waited in
            let is_own : version_check ≡ g = ground arith in
            let own : version_check s.db.rest ≡ wait s'.db.rest =
              ap (λ k. k s.db.rest) is_own ∙ paused in
            let (waits, left) = version_check-wait s.db.rest s'.db.rest own in
            inl (
              table,
              ap (λ x. x.table) left
                  ∙ check_versions_commit o.internal o.external o.extensions name
                      (v.tables s.db.rest) rows t (inl waits),
            )
        | inr (went_on, same) ↦
            let (a, queried, (has, rows'), used, keys) =
              ensure_current (with_check false c) s p.0 f went_on in
            inr (record {
              rows = has.rows;
              is_typed = same ∙ has.is_typed;
              internals = has.internals;
              externals = has.externals;
            })
      ]
