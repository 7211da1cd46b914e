-- ===== src/Schema/Ensure.antt =====
-- internal/db/update/schema.go: `Ensure`, which brings the schema up to date in several transactions.
pub mod Rows
pub mod Stages
pub mod Current
pub mod Checks
use microcluster.Prelude.{
  ℕ, ◌-◌, Bool, true, false, not, ◌&&◌, ◌||◌, Option, none, some, List, [], ◌∷◌, length, map, ltb,
  ◌==◌, Result, ok, err, ◌>>=◌, ◌>>◌, refuse_if, if◌then◌else◌,
}
use microcluster.Schema.{
  Kind, internal, external, Schemas, missing, untyped, typed, Db, Error, unreadable_file, bad_query,
  not_removed, refused, pragma_failed, bad_fresh, no_schemas, max_of, of_kind, or_fail, Sql, lift,
  update_from_v1, internal_updates, ensure_applied,
}

-- What the check before the updates finds, with the tables that it leaves.
pub data Checked (D : Type 0) : Type 0 where
  go_on wait : D → Checked D
  refuse : Checked D

-- `SchemaUpdate`. No check is none; `external` are the updates that the application appended.
pub record Schema (D : Type 0) : Type 0 where
  pub sql : Sql D
  pub external : List (D → Option D)
  pub fresh : Option (Db D → Option (Db D))
  pub check : Option (D → Checked D)

-- The file with extra queries, and whether the system lets it be read and removed.
pub record File (D : Type 0) : Type 0 where
  pub query : Db D → Option (Db D)
  pub readable : Bool
  removable : Bool

-- `pragmas` says whether the connection takes the two `PRAGMA` statements; `foreign_keys` is what they
-- set.
pub record Conn (D : Type 0) : Type 0 where
  pub db : Db D
  pub file : Option (File D)
  pub pragmas : Bool
  pub foreign_keys : Bool

pub data Outcome : Type 0 where
  done aborted : Outcome
  failed : Error → Outcome

-- The versions that are stored, internal and external.
unfoldable pub versions : Schemas → ℕ × ℕ
versions missing = (0, 0)
versions (untyped vs) = let c = max_of vs in if ltb 0 c then (1, c - 1) else (0, 0)
versions (typed rows) = (max_of (of_kind internal rows), max_of (of_kind external rows))

unfoldable pub is_untyped : Schemas → Bool
is_untyped missing = false
is_untyped (untyped vs) = true
is_untyped (typed rows) = false

module _ {D : Type 0} where
  -- `execFromFile`, in its transaction.
  unfoldable pub exec_from_file : Conn D → Result Error (Conn D)
  unfolding or_fail
  exec_from_file s = elim s.file [
    | none ↦ ok s
    | some f ↦ do
      refuse_if (not f.readable) unreadable_file
      db ← or_fail bad_query (f.query s.db)
      refuse_if (not f.removable) not_removed
      ok (record s { db = db; file = none })
  ]

  unfoldable pub set_foreign_keys : Bool → Bool → Conn D → Result Error (Conn D)
  set_foreign_keys needed b s =
      if not needed
      then ok s
      else if s.pragmas
      then ok (record s { foreign_keys = b })
      else err pragma_failed

  -- The transaction of the check.
  run_check : Schema D → Conn D → Conn D × Outcome
  run_check c s = elim c.check [
    | none ↦ (s, done)
    | some f ↦ elim (f s.db.rest) [
      | go_on d ↦ (record s { db = record s.db { rest = d } }, done)
      | wait d ↦ (record s { db = record s.db { rest = d } }, aborted)
      | refuse ↦ (s, failed refused)
    ]
  ]

  is_fresh : Schema D → Db D → Bool
  is_fresh c db = elim c.fresh [
    | none ↦ false
    | some f ↦ (versions db.schemas).0 == 0 && (versions db.schemas).1 == 0
  ]

  -- The updates of `internal_stage`, or what creates the schema from scratch.
  create_or_update : Schema D → Db D → Result Error (Db D)
  unfolding or_fail
  create_or_update c db = elim c.fresh [
    | none ↦ ensure_applied c.sql internal (versions db.schemas).0 (internal_updates c.sql) db
    | some f ↦
        if is_fresh c db
        then or_fail bad_fresh (f db)
        else ensure_applied c.sql internal (versions db.schemas).0 (internal_updates c.sql) db
  ]

  -- The transaction of the internal updates: the table it leaves, and the external version that the
  -- external updates go on from.
  unfoldable pub internal_stage : Schema D → Db D → Result Error (Db D × ℕ × Bool)
  unfolding or_fail create_or_update is_fresh
  internal_stage c db = do
    typed_db ←
        (if is_untyped db.schemas then or_fail no_schemas (update_from_v1 c.sql db) else ok db)
    updated ← create_or_update c typed_db
    ok (updated, (versions typed_db.schemas).1, is_fresh c typed_db)

  -- The transaction of the external updates.
  unfoldable pub external_stage : Schema D → ℕ → Bool → Db D → Result Error (Db D)
  external_stage c v created db =
      if created then ok db else ensure_applied c.sql external v (map lift c.external) db

  -- From the commit of the internal updates on.
  finish : Schema D → Bool → ℕ → Bool → Conn D → Conn D × Outcome
  finish c has_internal v created s = elim (set_foreign_keys has_internal true s) [
    | err e ↦ (s, failed e)
    | ok s₁ ↦ elim (external_stage c v created s₁.db) [
      | err e ↦ (s₁, failed e)
      | ok db ↦ (record s₁ { db = db }, done)
    ]
  ]

  update : Schema D → Bool → Conn D → Conn D × Outcome
  unfolding finish
  update c has_internal s = elim (internal_stage c s.db) [
    | err e ↦ (s, failed e)
    | ok (db, v, created) ↦ finish c has_internal v created (record s { db = db })
  ]

  -- From the check on: `was_untyped` is `updateSchemaTable`.
  unfoldable pub checked : Schema D → Bool → Conn D × Outcome → Conn D × Outcome
  unfolding update
  checked c was_untyped (s, failed e) = (s, failed e)
  checked c was_untyped (s, aborted) = elim (set_foreign_keys was_untyped true s) [
    | err e ↦ (s, failed e)
    | ok s₁ ↦ (s₁, aborted)
  ]
  checked c was_untyped (s, done) =
      let has_internal = ltb (versions s.db.schemas).0 (length (internal_updates c.sql)) in
      elim (set_foreign_keys (has_internal && not was_untyped) false s) [
        | err e ↦ (s, failed e)
        | ok s₁ ↦ update c has_internal s₁
      ]

  -- `Ensure`
  unfoldable pub ensure : Schema D → Conn D → Conn D × Outcome
  unfolding checked run_check
  ensure c s = elim (exec_from_file s) [
    | err e ↦ (s, failed e)
    | ok s₁ ↦ elim (set_foreign_keys (is_untyped s₁.db.schemas) false s₁) [
      | err e ↦ (s₁, failed e)
      | ok s₂ ↦ checked c (is_untyped s₁.db.schemas) (run_check c s₂)
    ]
  ]
