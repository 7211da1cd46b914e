-- ===== src/Heartbeat/Round.antt =====
-- internal/rest/resources/heartbeat.go: when a round of heartbeats is run, and what it leaves.
use microcluster.Prelude.{
  ◌+◌, ◌≤◌, ◌<◌, ◌≡◌, ◌⊎◌, Str, some, List, [], map, ok, Assoc, lookup, insert,
}
use microcluster.Members.{ApiMember}
use microcluster.Tokens.{delete_expired}
use microcluster.Trust.{Yaml}
use microcluster.Trust.Replace.Memory.{last_named}
use microcluster.Upgrade.Awaiting.{order_by_name}
use microcluster.Heartbeat.{Info, State, Env, remote_of, entry, send_all, write_rows}

-- The members as they were told: the leader now, the others when they answered.
abbrev told_by : Env → List ApiMember → Assoc ApiMember → State → List Str → Assoc ApiMember
told_by e members found s peers =
    send_all e members peers
      (insert s.address (record (entry s.address found) { last_heartbeat = e.now }) found)

-- Why a round is not run: the table or dqlite has no members yet, or the leader's last heartbeat is less than
-- an interval ago.
abbrev pub IsSkipped : Env → Info → Assoc ApiMember → List ApiMember → State → Type 0
IsSkipped e info found members s =
    (members ≡ [])
    ⊎ (info.roles ≡ [])
    ⊎ (e.now < (entry s.address found).last_heartbeat + e.interval)

-- A round that was run and succeeded.
pub record Ran (y : Yaml) (e : Env) (found : Assoc ApiMember) (members : List ApiMember)
    (s s' : State) : Type 0 where
  pub peers : List Str
  pub has_peers : e.peers ≡ some peers
  pub old : (entry s.address found).last_heartbeat + e.interval ≤ e.now
  pub remotes : (k : Str) → lookup k s'.remotes.content ≡ last_named k (map remote_of members)
  pub rows :
      write_rows (told_by e members found s peers) (order_by_name s.members) s.members
      ≡ ok s'.members
  pub tokens : delete_expired e.ended s.tokens ≡ ok s'.tokens
