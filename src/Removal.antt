-- ===== src/Removal.antt =====
-- internal/rest/resources/cluster.go: `clusterMemberDelete`, which takes a member out of the cluster, and
-- `resetClusterMember`, which clears what the removed daemon has stored.
pub mod Handover
pub mod TwoNodes
pub mod Removed
pub mod Gone
pub mod Reset
mod Tests
use microcluster.Prelude.{
  ℕ, zero, suc, ◌-◌, Str, str_eq, Bool, true, false, not, ◌&&◌, Option, none, some, List, [], ◌∷◌,
  length, Result, ok, err, Assoc, lookup, ltb, ◌==◌, if◌then◌else◌,
}
use microcluster.Members
use microcluster.Members.{Member, pending, delete_member}
use microcluster.Trust.{Remote}

-- The roles of dqlite.
pub data Role : Type 0 where
  voter stand_by spare : Role

abbrev pub is_voter : Role → Bool
is_voter voter = true
is_voter stand_by = false
is_voter spare = false

-- `dqliteClient.NodeInfo`
pub record Node : Type 0 where
  pub id : ℕ
  pub address : Str
  pub role : Role

-- The address of the daemon, the nodes that dqlite has, the table of members and the remotes by name.
pub record State : Type 0 where
  pub address : Str
  pub nodes : List Node
  pub members : List Member
  pub remotes : Assoc Remote

pub data Error : Type 0 where
  no_remote no_leader unread no_members : Error
  too_few : ℕ → Error
  not_assigned no_voters not_transferred : Error
  no_client hook_failed not_removed not_forgotten not_reset : Error
  table : Members.Error → Error
  out_of_range : Error

-- What dqlite and the other daemons answer. `first` and `again` are the two readings of the nodes;
-- `chosen` is the random index below a length, `forward` the same request at the leader.
pub record Env : Type 0 where
  pub force : Bool
  pub leader : Option Str
  pub forward : State → State × Option Error
  pub first : List Node → Option (List Node)
  pub again : List Node → Option (List Node)
  pub assign : ℕ → List Node → Option (List Node)
  pub chosen : ℕ → ℕ
  pub transfer : ℕ → Bool
  pub has_client : Bool
  pub pre_remove : Bool
  pub remove : ℕ → List Node → Option (List Node)
  pub delete_entry : Str → Assoc Remote → Option (Assoc Remote)
  pub resets : Bool
  pub post_remove : Bool

unfoldable pub index_of : Str → List Node → Option ℕ
index_of a [] = none
index_of a (n ∷ nodes) =
    let rest = index_of a nodes in
    if str_eq n.address a then some 0 else (elim rest [ none ↦ none | some i ↦ some (suc i) ])

unfoldable pub nth : {A : Type 0} → ℕ → List A → Option A
nth i [] = none
nth zero (x ∷ xs) = some x
nth (suc i) (x ∷ xs) = nth i xs

-- `numPending`
unfoldable pub num_pending : List Member → ℕ
num_pending [] = 0
num_pending (m ∷ ms) = let rest = num_pending ms in if str_eq m.role pending then suc rest else rest

-- The nodes at other addresses than the leader's become voters.
unfoldable pub assign_voters : Env → Str → List Node → List Node → Option (List Node)
assign_voters e leader [] nodes = some nodes
assign_voters e leader (n ∷ info) nodes =
    let next = e.assign n.id nodes in
    let skipped = assign_voters e leader info nodes in
    if not (str_eq n.address leader) && not (is_voter n.role)
    then (elim next [ none ↦ none | some nodes' ↦ assign_voters e leader info nodes' ])
    else skipped

-- `otherNodes`
unfoldable pub other_voters : Str → List Node → List Node
other_voters a [] = []
other_voters a (n ∷ info) =
    let rest = other_voters a info in
    if not (str_eq n.address a) && is_voter n.role then n ∷ rest else rest

-- The leader removes itself: another voter takes over, and removes it.
unfoldable pub hand_over : Env → Str → List Node → State → State × Option Error
hand_over e a info s =
    let others = other_voters a info in
    elim (nth (e.chosen (length others)) others) [
      | none ↦ (s, some no_voters)
      | some n ↦ if e.transfer n.id then e.forward s else (s, some not_transferred)
    ]

-- From the request to the removed member on: it is reset, and the hooks run.
unfoldable pub conclude : Env → State → State × Option Error
conclude e s =
    if not e.has_client
    then (s, some no_client)
    else if not e.resets && not e.force
    then (s, some not_reset)
    else if e.post_remove
    then (s, none)
    else (s, some hook_failed)

unfoldable pub forget : Env → Str → State → State × Option Error
forget e name s = elim (e.delete_entry name s.remotes) [
  | none ↦ if e.force then conclude e s else (s, some not_forgotten)
  | some remotes ↦ conclude e (record s { remotes = remotes })
]

-- `info[index]` is out of range where the second reading is shorter.
unfoldable pub drop_node : Env → Str → Option ℕ → List Node → State → State × Option Error
drop_node e name none info s = forget e name s
drop_node e name (some i) info s = elim (nth i info) [
  | none ↦ (s, some out_of_range)
  | some n ↦ elim (e.remove n.id s.nodes) [
    | none ↦ (s, some not_removed)
    | some nodes ↦ forget e name (record s { nodes = nodes })
  ]
]

-- The removal of another member.
unfoldable pub remove_other :
    Env → Str → Remote → Option ℕ → List Node → State → State × Option Error
remove_other e name r index info s =
    if not e.has_client
    then (s, some no_client)
    else if not e.pre_remove && not e.force
    then (s, some hook_failed)
    else (elim (delete_member r.address s.members) [
      | err x ↦ (s, some (table x))
      | ok members ↦ drop_node e name index info (record s { members = members })
    ])

-- From the second reading of the nodes on.
unfoldable pub after_roles : Env → Str → Remote → Str → Option ℕ → State → State × Option Error
after_roles e name r leader index s = elim (e.again s.nodes) [
  | none ↦ (s, some unread)
  | some info ↦
      if str_eq r.address leader
      then hand_over e r.address info s
      else remove_other e name r index info s
]

-- Where the leader of two nodes is removed, the other becomes a voter first.
unfoldable pub fix_roles : Env → Remote → Str → List Node → List Node → Option (List Node)
fix_roles e r leader info nodes =
    if length info == 2 && str_eq r.address leader
    then assign_voters e leader info nodes
    else some nodes

-- `clusterMemberDelete` on the leader.
unfoldable pub lead : Env → Str → Remote → Str → State → State × Option Error
lead e name r leader s = elim (e.first s.nodes) [
  | none ↦ (s, some unread)
  | some info ↦
      if ltb (length s.members - num_pending s.members) 1
      then (s, some no_members)
      else if ltb (length info) 2
      then (s, some (too_few (length info)))
      else (elim (fix_roles e r leader info s.nodes) [
        | none ↦ (s, some not_assigned)
        | some nodes ↦
            after_roles e name r leader (index_of r.address info) (record s { nodes = nodes })
      ])
]

-- `clusterMemberDelete`
unfoldable pub member_delete : Env → Str → State → State × Option Error
member_delete e name s = elim (lookup name s.remotes) [
  | none ↦ (s, some no_remote)
  | some r ↦ elim e.leader [
    | none ↦ (s, some no_leader)
    | some leader ↦ if str_eq leader s.address then lead e name r leader s else e.forward s
  ]
]
