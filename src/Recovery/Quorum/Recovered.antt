-- ===== src/Recovery/Quorum/Recovered.antt =====
-- internal/recover/recover.go: what `RecoverFromQuorumLoss` leaves.
use microcluster.Prelude.{
  suc, ◌≡◌, ◌≢◌, ◌⊎◌, Str, false, Option, none, some, List, [], Option-cases, Result-cases, inl,
  inr, ok, arith,
}
use microcluster.Trust.{load}
use microcluster.Issue.{addresses}
use microcluster.Recovery.{DqliteMember}
use microcluster.Recovery.Unpack.{LocalInfo}
use microcluster.Recovery.Quorum.{
  NodeInfo, Node, Error, Env, node_infos, texts, any_of, ready_nodes, moved, archived,
  finish_recovery, write_database, recover,
}

module _ {D : Type 0} (e : Env D) (members : List DqliteMember) where
  -- The addresses of the trust store.
  abbrev pub known_hosts : Node D → List Str
  known_hosts n =
      texts (addresses (load e.yaml (record { dir = n.trust; content = [] })).0.content [])

  ready-ok :
      (n : Node D) (infos : List NodeInfo)
      → ready_nodes e members n ≡ ok infos
      → (node_infos members ≡ some infos)
        × (n.has_socket ≡ false)
        × (any_of e.is_reachable (known_hosts n) ≡ false)
  unfolding ready_nodes
  ready-ok n infos h = elim (Option-cases (node_infos members)) [
    | inl p ↦ absurd (ground arith)
    | inr (infos', p) ↦ (ground arith, ground arith, ground arith)
  ]

  finish-backups :
      (info : LocalInfo) (n : Node D) → (finish_recovery e members info n).0.backups ≡ n.backups
  unfolding finish_recovery
  finish-backups info n = ground arith

  write-backups :
      (infos : List NodeInfo) (n : Node D)
      → (write_database e members infos n).0.backups ≡ n.backups
  unfolding write_database
  write-backups infos n = elim (Option-cases n.info) [
    | inl p ↦ ground arith
    | inr (old, p) ↦ ground (
      arith,
      finish-backups (moved e members old) (archived e members infos (moved e members old) n),
    )
  ]

  -- Whatever `RecoverFromQuorumLoss` ends with, either it fails and has changed nothing; or the daemon does not
  -- run, no member of the trust store can be reached, and a backup was made.
  pub recover_safe :
      (n n' : Node D) (r : Option Error)
      → recover e members n ≡ (n', r)
      → ((n' ≡ n) × (r ≢ none))
        ⊎ ((n.has_socket ≡ false)
            × (any_of e.is_reachable (known_hosts n) ≡ false)
            × (n'.backups ≡ suc n.backups))
  unfolding recover
  recover_safe n n' r h = elim (Result-cases (ready_nodes e members n)) [
    | inr (x, p) ↦ inl (ground arith)
    | inl (infos, p) ↦
        let (roles, stopped, alone) = ready-ok n infos p in
        elim (Option-cases (e.reconfigure infos n.content)) [
          | inl q ↦ ground arith
          | inr (content, q) ↦
              ground (
                arith,
                write-backups infos (record n { backups = suc n.backups; content = content }),
              )
        ]
  ]
