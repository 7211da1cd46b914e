-- ===== src/Recovery/Unpack.antt =====
-- internal/recover/recover.go: `MaybeUnpackRecoveryTarball`, by which the other members of a recovered
-- cluster take over its database when they start.
pub mod Outcome
use microcluster.Prelude.{
  ℕ, suc, ◌+◌, Str, str_eq, Bool, true, false, not, Option, none, some, List, [], ◌∷◌, ◌==◌, Result,
  ok, err, if◌then◌else◌,
}
use microcluster.Trust.{Dir, Yaml}
use microcluster.Recovery
use microcluster.Recovery.{DqliteMember, update_trust_store}

-- `dqlite.NodeInfo`, in the file info.yaml.
pub record LocalInfo : Type 0 where
  pub id : ℕ
  pub address : Str

-- The tarball: the database in it, and its recovery.yaml where that can be read. `extracts` says whether
-- it can be unpacked, which takes that no name in it has two dots.
pub record Tarball (D : Type 0) : Type 0 where
  pub extracts : Bool
  pub members : Option (List DqliteMember)
  pub content : D

-- A directory of a database.
pub record Files (D : Type 0) : Type 0 where
  pub info : Option LocalInfo
  pub members : Option (List DqliteMember)
  pub content : D

-- The state directory: the tarball, the directory that it is unpacked to, that of the database, the trust
-- store and the address in daemon.yaml.
pub record Fs (D : Type 0) : Type 0 where
  pub tarball : Option (Tarball D)
  pub unpacked : Option (Files D)
  pub database : Option (Files D)
  pub trust : Dir
  pub daemon : Str
  pub backups : ℕ

-- What the system lets the daemon do.
pub record Env : Type 0 where
  pub writes_info : Bool
  pub backs_up : Bool
  pub removes_database : Bool
  pub removes_yaml : Bool
  pub renames : Bool
  pub removes_tarball : Bool
  pub writes_daemon : Bool

pub data Error : Type 0 where
  not_unpacked no_info not_in_recovery not_written : Error
  recovery : Recovery.Error → Error
  not_backed_up not_removed yaml_not_removed not_renamed tarball_not_removed daemon_not_written :
      Error

-- The address of the local member in the new configuration.
unfoldable pub new_address : ℕ → List DqliteMember → Option Str
new_address id [] = none
new_address id (m ∷ members) =
    let rest = new_address id members in if id == m.id then some m.address else rest

unpacked_info : {D : Type 0} → Option (Files D) → Option LocalInfo
unpacked_info none = none
unpacked_info (some f) = f.info

module _ {D : Type 0} (y : Yaml) (parse : Str → Option Str) (e : Env) where
  -- `updateDaemonAddress`
  unfoldable pub update_daemon : Str → Fs D → Fs D × Option Error
  update_daemon a fs = elim (parse a) [
    | none ↦ (fs, some daemon_not_written)
    | some b ↦
        if e.writes_daemon then (record fs { daemon = b }, none) else (fs, some daemon_not_written)
  ]

  -- From the removal of the database on.
  unfoldable pub replace_database : LocalInfo → Tarball D → Fs D → Fs D × Option Error
  replace_database l t fs =
      let bare : Files D = record { info = some l; members = none; content = t.content } in
      let removed = record fs { database = none } in
      let no_yaml = record removed { unpacked = some bare } in
      let renamed = record no_yaml { unpacked = none; database = some bare } in
      if not e.removes_database
      then (fs, some not_removed)
      else if not e.removes_yaml
      then (removed, some yaml_not_removed)
      else if not e.renames
      then (no_yaml, some not_renamed)
      else if not e.removes_tarball
      then (renamed, some tarball_not_removed)
      else update_daemon l.address (record renamed { tarball = none })

  -- From the new info.yaml on.
  unfoldable pub take_over : LocalInfo → List DqliteMember → Tarball D → Fs D → Fs D × Option Error
  take_over l members t fs =
      let with_info = record fs {
        unpacked = some (record { info = some l; members = some members; content = t.content });
      } in
      let (trust, failed) = update_trust_store y parse members fs.trust in
      let updated = record with_info { trust = trust } in
      if not e.writes_info then (fs, some not_written) else (elim failed [
        | some x ↦ (updated, some (recovery x))
        | none ↦
            if e.backs_up
            then replace_database l t (record updated { backups = suc fs.backups })
            else (updated, some not_backed_up)
      ])

  -- From the unpacked tarball on. A recovery.yaml that cannot be read ends it without an error.
  unfoldable pub check_recovery : Tarball D → Option (Files D) → Fs D → Fs D × Option Error
  check_recovery t none fs = (fs, some no_info)
  check_recovery t (some d) fs = elim d.info [
    | none ↦ (fs, some no_info)
    | some l ↦ elim t.members [
      | none ↦ (fs, none)
      | some members ↦ elim (new_address l.id members) [
        | none ↦ (fs, some not_in_recovery)
        | some a ↦ take_over (record l { address = a }) members t fs
      ]
    ]
  ]

  -- `MaybeUnpackRecoveryTarball`
  unfoldable pub maybe_unpack : Fs D → Fs D × Option Error
  unfolding unpacked_info
  maybe_unpack fs = elim fs.tarball [
    | none ↦ (fs, none)
    | some t ↦
        if t.extracts
        then check_recovery t fs.database (record fs {
          unpacked = some (record {
            info = unpacked_info fs.unpacked;
            members = t.members;
            content = t.content;
          });
        })
        else (fs, some not_unpacked)
  ]
