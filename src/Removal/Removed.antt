-- ===== src/Removal/Removed.antt =====
-- internal/rest/resources/cluster.go: what a removal by the leader leaves.
use microcluster.Prelude.{
  ℕ, ◌-◌, ◌≤◌, ◌≡◌, ◌≢◌, ◌⊎◌, inl, inr, refl, sym, ap, ◌∙◌, Str, str_eq, str_eq_iff, false, Option,
  none, some, List, length, ok, lookup, ltb, Option-cases, Result-cases, arith,
}
use microcluster.Members.{delete_member}
use microcluster.Trust.{Remote}
use microcluster.Removal.{
  Node, State, Env, index_of, nth, num_pending, fix_roles, conclude, forget, drop_node,
  remove_other, after_roles, lead, member_delete,
}

-- The node at a position of the second reading, or none where there was no position.
abbrev pub picked : Option ℕ → List Node → Option Node
picked none info = none
picked (some i) info = nth i info

-- What a removal that succeeds has found and left, by the two readings of the nodes.
pub record Removed (e : Env) (r : Remote) (info info' : List Node) (before after : State)
    : Type 0 where
  pub some_member : 1 ≤ length before.members - num_pending before.members
  pub two_nodes : 2 ≤ length info
  pub members_left : delete_member r.address before.members ≡ ok after.members
  pub node_left :
      ((index_of r.address info ≡ none) × (after.nodes ≡ before.nodes))
      ⊎ ((n : Node) × (picked (index_of r.address info) info' ≡ some n)
          × (e.remove n.id before.nodes ≡ some after.nodes))

conclude_keeps : (e : Env) (s : State) → (conclude e s).0 ≡ s
unfolding conclude
conclude_keeps e s = ground arith

forget_keeps :
    (e : Env) (name : Str) (s : State)
    → ((forget e name s).0.nodes ≡ s.nodes) × ((forget e name s).0.members ≡ s.members)
unfolding forget conclude
forget_keeps e name s = (ground arith, ground arith)

drop_node_keeps :
    (e : Env) (name : Str) (index : Option ℕ) (info : List Node) (s s' : State)
    → drop_node e name index info s ≡ (s', none)
    → (s'.members ≡ s.members)
      × (((index ≡ none) × (s'.nodes ≡ s.nodes))
          ⊎ ((n : Node) × (picked index info ≡ some n) × (e.remove n.id s.nodes ≡ some s'.nodes)))
unfolding drop_node
drop_node_keeps e name none info s s' h =
    let (nodes, members) = forget_keeps e name s in
    (ap (λ p. p.0.members) (sym h) ∙ members, inl (refl, ap (λ p. p.0.nodes) (sym h) ∙ nodes))
drop_node_keeps e name (some i) info s s' h = elim (Option-cases (nth i info)) [
  | inl p ↦ absurd (ground arith)
  | inr (n, p) ↦ elim (Option-cases (e.remove n.id s.nodes)) [
    | inl q ↦ absurd (ground arith)
    | inr (nodes, q) ↦
        let left : forget e name (record s { nodes = nodes }) ≡ (s', none) = ground arith in
        let (kept, members) = forget_keeps e name (record s { nodes = nodes }) in
        (
          ap (λ p. p.0.members) (sym left) ∙ members,
          inr (n, p, q ∙ ap some (sym (ap (λ p. p.0.nodes) (sym left) ∙ kept))),
        )
  ]
]

remove_other_lem :
    (e : Env) (name : Str) (r : Remote) (index : Option ℕ) (info : List Node) (s s' : State)
    → remove_other e name r index info s ≡ (s', none)
    → (delete_member r.address s.members ≡ ok s'.members)
      × (((index ≡ none) × (s'.nodes ≡ s.nodes))
          ⊎ ((n : Node) × (picked index info ≡ some n) × (e.remove n.id s.nodes ≡ some s'.nodes)))
unfolding remove_other
remove_other_lem e name r index info s s' h =
    elim (Result-cases (delete_member r.address s.members)) [
      | inr (x, p) ↦ absurd (ground arith)
      | inl (members, p) ↦
          let dropped : drop_node e name index info (record s { members = members }) ≡ (s', none) =
            ground arith in
          let (same, node) =
            drop_node_keeps e name index info (record s { members = members }) s' dropped in
          (p ∙ ap ok (sym same), node)
    ]

lead_lem :
    (e : Env) (name : Str) (r : Remote) (leader : Str) (info info' : List Node) (s s' : State)
    → str_eq r.address leader ≡ false
    → e.first s.nodes ≡ some info
    → e.again s.nodes ≡ some info'
    → lead e name r leader s ≡ (s', none)
    → (ltb (length s.members - num_pending s.members) 1 ≡ false)
      × (ltb (length info) 2 ≡ false)
      × (remove_other e name r (index_of r.address info) info' s ≡ (s', none))
unfolding lead fix_roles after_roles
lead_lem e name r leader info info' s s' d f g h = (ground arith, ground arith, ground arith)

-- Where the leader removes another member, and dqlite answers both readings, a removal that succeeds has
-- found a member that is not pending and two nodes; it deletes the rows with the address of the remote,
-- and removes the node that is, in the second reading, at the position of that address in the first, or
-- none where there the address was not in it.
pub member_delete-Removed :
    (e : Env) (name : Str) (r : Remote) (info info' : List Node) (s s' : State)
    → lookup name s.remotes ≡ some r
    → e.leader ≡ some s.address
    → r.address ≢ s.address
    → e.first s.nodes ≡ some info
    → e.again s.nodes ≡ some info'
    → member_delete e name s ≡ (s', none)
    → Removed e r info info' s s'
unfolding member_delete
member_delete-Removed e name r info info' s s' p l d f g h =
    let other : str_eq r.address s.address ≡ false =
      ground (arith, str_eq_iff r.address s.address) in
    let led : lead e name r s.address s ≡ (s', none) =
      ground (arith, str_eq_iff s.address s.address) in
    let (some_left, two, removed) = lead_lem e name r s.address info info' s s' other f g led in
    let (members, node) = remove_other_lem e name r (index_of r.address info) info' s s' removed in
    record {
      some_member = ground arith;
      two_nodes = ground arith;
      members_left = members;
      node_left = node;
    }
