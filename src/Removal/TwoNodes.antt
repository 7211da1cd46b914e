-- ===== src/Removal/TwoNodes.antt =====
-- internal/rest/resources/cluster.go: the leader of two nodes that is asked to remove itself.
use microcluster.Prelude.{
  ℕ, ◌-◌, ◌<◌, ◌≤◌, ◌≡◌, ◌≢◌, inl, inr, sym, ap, ◌∙◌, Str, str_eq, str_eq_refl, str_eq_iff, map,
  true, false, some, List, [], ◌∷◌, length, lookup, ltb, ◌==◌, Bool-cases, arith, if◌then◌else◌,
}
use microcluster.Trust.{Remote}
use microcluster.Removal.{
  Node, voter, is_voter, State, Env, nth, num_pending, assign_voters, other_voters, hand_over,
  fix_roles, after_roles, lead, member_delete,
}
use microcluster.Removal.Gone.{Faithful}

-- `Assign` makes the node of the id a voter.
abbrev pub promote : ℕ → Node → Node
promote id n = if n.id == id then record n { role = voter } else n

-- What dqlite and the random index promise in a handover that works.
pub record Willing (e : Env) : Type 0 where
  pub assigns : (id : ℕ) (nodes : List Node) → e.assign id nodes ≡ some (map (promote id) nodes)
  pub chooses : (n : ℕ) → 0 < n → e.chosen n < n
  pub transfers : (id : ℕ) → e.transfer id ≡ true

assigned :
    (e : Env) (a b : Node)
    → Willing e
    → str_eq b.address a.address ≡ false
    → assign_voters e a.address (a ∷ b ∷ []) (a ∷ b ∷ [])
      ≡ some (if is_voter b.role then a ∷ b ∷ [] else promote b.id a ∷ promote b.id b ∷ [])
unfolding assign_voters
assigned e a b w d = ground (arith, str_eq_refl a.address, w.assigns b.id (a ∷ b ∷ []))

one_voter :
    (a b : Node)
    → str_eq b.address a.address ≡ false
    → (x : Node) × (other_voters a.address
          (if is_voter b.role then a ∷ b ∷ [] else promote b.id a ∷ promote b.id b ∷ [])
        ≡ x ∷ [])
unfolding other_voters
one_voter a b d = elim (Bool-cases (is_voter b.role)) [
  | inl votes ↦ (b, ground (arith, str_eq_refl a.address))
  | inr not_yet ↦ elim (Bool-cases (a.id == b.id)) [
    | inl same ↦ (record b { role = voter }, ground (arith, str_eq_refl a.address))
    | inr others ↦ (record b { role = voter }, ground (arith, str_eq_refl a.address))
  ]
]

hands_to :
    (e : Env) (a : Str) (info : List Node) (s : State) (x : Node)
    → Willing e
    → other_voters a info ≡ x ∷ []
    → hand_over e a info s ≡ e.forward s
unfolding hand_over nth
hands_to e a info s x w h = ground (arith, w.chooses 1 (omega arith), w.transfers x.id)

led_to :
    (e : Env) (name : Str) (r : Remote) (info nodes : List Node) (s : State)
    → lookup name s.remotes ≡ some r
    → e.leader ≡ some s.address
    → r.address ≡ s.address
    → e.first s.nodes ≡ some info
    → e.again nodes ≡ some nodes
    → ltb (length s.members - num_pending s.members) 1 ≡ false
    → ltb (length info) 2 ≡ false
    → fix_roles e r s.address info s.nodes ≡ some nodes
    → member_delete e name s ≡ hand_over e r.address nodes (record s { nodes = nodes })
unfolding member_delete lead after_roles
led_to e name r info nodes s p l q f g c d x =
    ground (arith, str_eq_iff s.address s.address, str_eq_iff r.address s.address)

-- In a cluster of two nodes with a member that is not pending, and where dqlite assigns the roles and transfers
-- the leadership that it is asked to, the leader that is to remove itself never lacks a voter to hand over to:
-- whatever the role of the other node was, it hands the request over.
pub two_nodes_hand_over :
    (e : Env) (name : Str) (r : Remote) (a b : Node) (s : State)
    → Faithful e
    → Willing e
    → lookup name s.remotes ≡ some r
    → e.leader ≡ some s.address
    → r.address ≡ s.address
    → s.nodes ≡ a ∷ b ∷ []
    → a.address ≡ s.address
    → b.address ≢ s.address
    → 1 ≤ length s.members - num_pending s.members
    → (nodes : List Node) × (member_delete e name s ≡ e.forward (record s { nodes = nodes }))
unfolding fix_roles
two_nodes_hand_over e name r a b s f w p l q n at other some_one =
    let apart : str_eq b.address a.address ≡ false =
      ground (arith, str_eq_iff b.address a.address) in
    let nodes = if is_voter b.role then a ∷ b ∷ [] else promote b.id a ∷ promote b.id b ∷ [] in
    let self : str_eq r.address s.address ≡ true = ground (arith, str_eq_iff r.address s.address) in
    let fixed : fix_roles e r s.address (a ∷ b ∷ []) s.nodes ≡ some nodes =
      rw (n, self)
        (ap (λ z. assign_voters e z (a ∷ b ∷ []) (a ∷ b ∷ [])) (sym at) ∙ assigned e a b w apart) in
    let (x, alone) = one_voter a b apart in
    (
      nodes,
      led_to e name r (a ∷ b ∷ []) nodes s p l q (f.reads_first s.nodes ∙ ap some n)
            (f.reads_again nodes) (ground arith) (ground arith) fixed
          ∙ hands_to e r.address nodes (record s { nodes = nodes }) x w
              (ap (λ z. other_voters z nodes) (q ∙ sym at) ∙ alone),
    )
