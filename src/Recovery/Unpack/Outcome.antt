-- ===== src/Recovery/Unpack/Outcome.antt =====
-- internal/recover/recover.go: what the recovery of another member leaves, and where it gets stuck.
use microcluster.Prelude.{
  ◌≡◌, ◌⊎◌, inl, inr, sym, ap, subst, ◌∙◌, Str, true, Option, none, some, List, Option-cases,
  Bool-cases, arith,
}
use microcluster.Trust.{Yaml}
use microcluster.Recovery.{DqliteMember, update_trust_store}
use microcluster.Recovery.Unpack.{
  LocalInfo, Tarball, Files, Fs, Env, Error, no_info, yaml_not_removed, not_renamed, new_address,
  update_daemon, replace_database, take_over, check_recovery, maybe_unpack, unpacked_info,
}

-- A step that fails for either reason has removed the database and kept the tarball.
abbrev IsHalf : Option Error → Type 0
IsHalf x = (x ≡ some yaml_not_removed) ⊎ (x ≡ some not_renamed)

module _ {D : Type 0} (y : Yaml) (parse : Str → Option Str) where
  take_over-ok :
      (e : Env) (l : LocalInfo) (members : List DqliteMember) (t : Tarball D) (fs fs' : Fs D)
      → take_over y parse e l members t fs ≡ (fs', none)
      → (fs'.database ≡ some (record { info = some l; members = none; content = t.content }))
        × (fs'.tarball ≡ none)
        × (fs'.unpacked ≡ none)
        × (parse l.address ≡ some fs'.daemon)
        × (update_trust_store y parse members fs.trust ≡ (fs'.trust, none))
  unfolding take_over replace_database update_daemon
  take_over-ok e l members t fs fs' h =
      elim (Option-cases (update_trust_store y parse members fs.trust).1) [
        | inr (x, p) ↦ absurd (ground arith)
        | inl p ↦ elim (Option-cases (parse l.address)) [
          | inl q ↦ absurd (ground arith)
          | inr (b, q) ↦ (ground arith, ground arith, ground arith, ground arith, ground arith)
        ]
      ]

  abbrev extracted : Tarball D → Fs D → Fs D
  extracted t fs = record fs {
    unpacked =
        some
          (record { info = unpacked_info fs.unpacked; members = t.members; content = t.content });
  }

  -- Where a tarball with a configuration that can be read is unpacked without an error, the database is
  -- that of the tarball, with the id of the local member and its new address; daemon.yaml has that address
  -- as well, the trust store is updated, and the tarball is gone.
  pub maybe_unpack_replaces :
      (e : Env) (t : Tarball D) (members : List DqliteMember) (fs fs' : Fs D)
      → fs.tarball ≡ some t
      → t.members ≡ some members
      → maybe_unpack y parse e fs ≡ (fs', none)
      → (d : Files D) × (l : LocalInfo) × (a : Str) × (fs.database ≡ some d)
        × (d.info ≡ some l)
        × (new_address l.id members ≡ some a)
        × (fs'.database
            ≡ some (record {
              info = some (record { id = l.id; address = a });
              members = none;
              content = t.content;
            }))
        × (fs'.tarball ≡ none)
        × (parse a ≡ some fs'.daemon)
        × (update_trust_store y parse members fs.trust ≡ (fs'.trust, none))
  unfolding maybe_unpack check_recovery
  maybe_unpack_replaces e t members fs fs' p q h = elim (Option-cases fs.database) [
    | inl n ↦ absurd (ground arith)
    | inr (d, has) ↦ elim (Option-cases d.info) [
      | inl n ↦ absurd (ground arith)
      | inr (l, known) ↦ elim (Option-cases (new_address l.id members)) [
        | inl n ↦ absurd (ground arith)
        | inr (a, new) ↦
            let (database, gone, unpacked, daemon, trust) =
              take_over-ok e (record { id = l.id; address = a }) members t (extracted t fs) fs'
                (ground arith) in
            (d, l, a, has, known, new, database, gone, daemon, trust)
      ]
    ]
  ]

  take_over-half :
      (e : Env) (l : LocalInfo) (members : List DqliteMember) (t : Tarball D) (fs : Fs D)
      → IsHalf (take_over y parse e l members t fs).1
      → ((take_over y parse e l members t fs).0.database ≡ none)
        × ((take_over y parse e l members t fs).0.tarball ≡ fs.tarball)
  unfolding take_over replace_database update_daemon
  take_over-half e l members t fs h =
      elim (Option-cases (update_trust_store y parse members fs.trust).1) [
        | inr (x, p) ↦ absurd (ground arith)
        | inl p ↦ elim (Option-cases (parse l.address)) [
          | inl q ↦ (ground arith, ground arith)
          | inr (b, q) ↦ (ground arith, ground arith)
        ]
      ]

  check_recovery-half :
      (e : Env) (t : Tarball D) (d : Option (Files D)) (fs : Fs D)
      → IsHalf (check_recovery y parse e t d fs).1
      → ((check_recovery y parse e t d fs).0.database ≡ none)
        × ((check_recovery y parse e t d fs).0.tarball ≡ fs.tarball)
  unfolding check_recovery
  check_recovery-half e t none fs h = absurd (ground arith)
  check_recovery-half e t (some d) fs h = elim (Option-cases d.info) [
    | inl p ↦ absurd (ground arith)
    | inr (l, p) ↦ elim (Option-cases t.members) [
      | inl q ↦ absurd (ground arith)
      | inr (members, q) ↦ elim (Option-cases (new_address l.id members)) [
        | inl r ↦ absurd (ground arith)
        | inr (a, r) ↦
            let eq : check_recovery y parse e t (some d) fs
                ≡ take_over y parse e (record l { address = a }) members t fs =
              ground arith in
            subst (λ p. IsHalf p.1 → (p.0.database ≡ none) × (p.0.tarball ≡ fs.tarball)) (sym eq)
              (take_over-half e (record l { address = a }) members t fs) h
      ]
    ]
  ]

  maybe_unpack-half :
      (e : Env) (fs : Fs D)
      → IsHalf (maybe_unpack y parse e fs).1
      → (t : Tarball D) × (fs.tarball ≡ some t)
        × (t.extracts ≡ true)
        × ((maybe_unpack y parse e fs).0.database ≡ none)
        × ((maybe_unpack y parse e fs).0.tarball ≡ some t)
  unfolding maybe_unpack
  maybe_unpack-half e fs h = elim (Option-cases fs.tarball) [
    | inl p ↦ absurd (ground arith)
    | inr (t, p) ↦ elim (Bool-cases t.extracts) [
      | inr broken ↦ absurd (ground arith)
      | inl extracts ↦
          let eq : maybe_unpack y parse e fs
              ≡ check_recovery y parse e t fs.database (extracted t fs) =
            ground arith in
          let (database, tarball) =
            check_recovery-half e t fs.database (extracted t fs) (subst (λ p. IsHalf p.1) eq h) in
          (
            t,
            p,
            extracts,
            ap (λ p. p.0.database) eq ∙ database,
            ap (λ p. p.0.tarball) eq ∙ tarball ∙ p,
          )
    ]
  ]

  again_fails :
      (e : Env) (t : Tarball D) (fs : Fs D)
      → fs.tarball ≡ some t
      → t.extracts ≡ true
      → fs.database ≡ none
      → ((maybe_unpack y parse e fs).1 ≡ some no_info)
        × ((maybe_unpack y parse e fs).0.database ≡ none)
  unfolding maybe_unpack check_recovery
  again_fails e t fs p x d = (ground arith, ground arith)

  -- A recovery that has removed the database and then cannot remove recovery.yaml or rename the directory is
  -- stuck: whatever the system lets the daemon do later, the next attempt fails, without a database.
  maybe_unpack_stuck :
      (e later : Env) (fs : Fs D)
      → ((maybe_unpack y parse e fs).1 ≡ some yaml_not_removed)
        ⊎ ((maybe_unpack y parse e fs).1 ≡ some not_renamed)
      → ((maybe_unpack y parse later (maybe_unpack y parse e fs).0).1 ≡ some no_info)
        × ((maybe_unpack y parse later (maybe_unpack y parse e fs).0).0.database ≡ none)
  maybe_unpack_stuck e later fs h =
      let (t, had, extracts, database, tarball) = maybe_unpack-half e fs h in
      again_fails later t (maybe_unpack y parse e fs).0 tarball extracts database
