-- ===== src/Heartbeat/Sent.antt =====
-- internal/rest/resources/heartbeat.go: what the leader announces, and which members it reaches.
use microcluster.Prelude.{
  ℕ, ◌+◌, ◌≤◌, ◌≡◌, ◌⊎◌, Str, false, some, List, Assoc, lookup, insert, All, Elem,
}
use microcluster.Members.{ApiMember}
use microcluster.Heartbeat.{Info, Env, is_recent, max_internal, max_external, sent_info, send_all}

-- The least number that no member exceeds: 0, or the number of a member.
abbrev pub Greatest : (ApiMember → ℕ) → List ApiMember → ℕ → Type 0
Greatest f members v =
    All (λ m. f m ≤ v) members × ((v ≡ 0) ⊎ ((m : ApiMember) × Elem m members × (f m ≡ v)))

-- A heartbeat that the leader sends: it begins no round, and it announces the greatest versions of the table.
abbrev pub Announces : List ApiMember → Info → Type 0
Announces members info =
    (info.begin_round ≡ false)
    × Greatest (λ m. m.schema_internal) members info.max_internal
    × Greatest (λ m. m.schema_external) members info.max_external

module _ (e : Env) (members : List ApiMember) where
  -- What one peer changes.
  abbrev Sent : Str → Assoc ApiMember → Assoc ApiMember → Type 0
  Sent b told told' =
      (x : ApiMember) × (time : ℕ) × (lookup b told ≡ some x)
      × (is_recent e x ≡ false)
      × (e.answered (sent_info members told) b ≡ some time)
      × (told' ≡ insert b (record x { last_heartbeat = time }) told)

  -- The entry of `a`, which was `m`, after a round.
  abbrev pub Beat : List Str → Assoc ApiMember → Str → ApiMember → Type 0
  Beat peers told a m =
      (lookup a (send_all e members peers told) ≡ some m)
      ⊎ ((m.last_heartbeat + e.interval ≤ e.now)
          × Elem a peers
          × ((info : Info) × (time : ℕ) × Announces members info
              × (e.answered info a ≡ some time)
              × (lookup a (send_all e members peers told)
                  ≡ some (record m { last_heartbeat = time }))))
