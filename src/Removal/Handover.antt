-- ===== src/Removal/Handover.antt =====
-- internal/rest/resources/cluster.go: the leader that is asked to remove itself.
use microcluster.Prelude.{
  ℕ, zero, suc, ◌-◌, ◌≡◌, ◌≢◌, ◌⊎◌, inl, inr, sym, ap, ◌∙◌, Str, str_eq, str_eq_iff, true, not,
  ◌&&◌, Option, none, some, List, [], ◌∷◌, length, lookup, ltb, Elem, Option-cases, Bool-cases,
  arith,
}
use microcluster.Trust.{Remote}
use microcluster.Removal.{
  Node, Role, voter, is_voter, State, Error, Env, nth, num_pending, other_voters, hand_over,
  fix_roles, after_roles, lead, member_delete,
}

voter_of : (r : Role) → is_voter r ≡ true → r ≡ voter
voter_of r h = ground arith

first_or_later :
    {A : Type 0} (i : ℕ) (x : A) (xs : List A) (y : A)
    → nth i (x ∷ xs) ≡ some y
    → (x ≡ y) ⊎ ((j : ℕ) × (nth j xs ≡ some y))
unfolding nth
first_or_later zero x xs y h = inl (ground arith)
first_or_later (suc i) x xs y h = inr (i, h)

nth-other_voters :
    (a : Str) (info : List Node) (i : ℕ) (n : Node)
    → nth i (other_voters a info) ≡ some n
    → Elem n info × (n.role ≡ voter) × (n.address ≢ a)
unfolding other_voters nth
nth-other_voters a [] i n h = absurd (ground arith)
nth-other_voters a (m ∷ info) i n h =
    elim (Bool-cases (not (str_eq m.address a) && is_voter m.role)) [
      | inr skip ↦ let (el, v, ne) = nth-other_voters a info i n (rw skip at h) in (inr el, v, ne)
      | inl takes ↦ elim (first_or_later i m (other_voters a info) n (rw takes at h)) [
        | inl same ↦ (
          inl same,
          ap (λ x. x.role) (sym same) ∙ voter_of m.role (ground arith),
          λ p. ground (arith, str_eq_iff m.address a, ap (λ x. x.address) same),
        )
        | inr (j, later) ↦ let (el, v, ne) = nth-other_voters a info j n later in (inr el, v, ne)
      ]
    ]

-- The request is handed to a voter at another address, once it is the leader.
pub record HandedOver (e : Env) (info : List Node) (s : State) (p : State × Option Error)
    : Type 0 where
  pub to : Node
  pub is_node : Elem to info
  pub is_voter : to.role ≡ voter
  pub is_other : to.address ≢ s.address
  pub transferred : e.transfer to.id ≡ true
  pub nodes : List Node
  pub forwarded : p ≡ e.forward (record s { nodes = nodes })

hand_over_lem :
    (e : Env) (a : Str) (info : List Node) (s : State)
    → s.address ≡ a
    → (((hand_over e a info s).0 ≡ s) × ((hand_over e a info s).1 ≢ none))
      ⊎ HandedOver e info s (hand_over e a info s)
unfolding hand_over
hand_over_lem e a info s q =
    let others = other_voters a info in
    elim (Option-cases (nth (e.chosen (length others)) others)) [
      | inl p ↦ inl (ground arith, ground arith)
      | inr (n, p) ↦ elim (Bool-cases (e.transfer n.id)) [
        | inr fails ↦ inl (ground arith, ground arith)
        | inl works ↦
            let (el, v, ne) = nth-other_voters a info (e.chosen (length others)) n p in
            inr (record {
              to = n;
              is_node = el;
              is_voter = v;
              is_other = λ t. ne (t ∙ q);
              transferred = works;
              nodes = s.nodes;
              forwarded = ground arith;
            })
      ]
    ]

-- Where the guards let it, a leader that is to remove itself comes to `hand_over`.
to_hand_over :
    (e : Env) (name : Str) (r : Remote) (info : List Node) (s : State)
    → lookup name s.remotes ≡ some r
    → e.leader ≡ some s.address
    → r.address ≡ s.address
    → ((nodes : List Node) → e.again nodes ≡ some info)
    → (((member_delete e name s).1 ≢ none) × ((member_delete e name s).0 ≡ s))
      ⊎ ((nodes : List Node) × (member_delete e name s
            ≡ hand_over e r.address info (record s { nodes = nodes })))
unfolding member_delete lead fix_roles after_roles
to_hand_over e name r info s p l q g =
    let own = str_eq_iff s.address s.address in
    let self = str_eq_iff r.address s.address in
    elim (Option-cases (e.first s.nodes)) [
      | inl none_read ↦ inl (ground (arith, own), ground (arith, own))
      | inr (i, read) ↦ elim (Bool-cases (ltb (length s.members - num_pending s.members) 1)) [
        | inl no_one ↦ inl (ground (arith, own), ground (arith, own))
        | inr some_one ↦ elim (Bool-cases (ltb (length i) 2)) [
          | inl few ↦ inl (ground (arith, own), ground (arith, own))
          | inr enough ↦ elim (Option-cases (fix_roles e r s.address i s.nodes)) [
            | inl fails ↦ inl (ground (arith, own), ground (arith, own))
            | inr (nodes, fixed) ↦ inr (nodes, ground (arith, own, self, g nodes))
          ]
        ]
      ]
    ]

-- Where the second reading of the nodes gives `info`, a leader that is asked to remove itself either fails
-- and leaves the rows and the remotes as they were, or it hands the request over, with the rows and the
-- remotes as they were, to a voter of `info` at another address that it has made the leader.
pub leader_hands_over :
    (e : Env) (name : Str) (r : Remote) (info : List Node) (s : State)
    → lookup name s.remotes ≡ some r
    → e.leader ≡ some s.address
    → r.address ≡ s.address
    → ((nodes : List Node) → e.again nodes ≡ some info)
    → (((member_delete e name s).1 ≢ none)
        × ((member_delete e name s).0.members ≡ s.members)
        × ((member_delete e name s).0.remotes ≡ s.remotes))
      ⊎ HandedOver e info s (member_delete e name s)
leader_hands_over e name r info s p l q g = elim (to_hand_over e name r info s p l q g) [
  | inl (fails, same) ↦ inl (fails, ap (λ x. x.members) same, ap (λ x. x.remotes) same)
  | inr (nodes, eq) ↦ elim (hand_over_lem e r.address info (record s { nodes = nodes }) (sym q)) [
    | inl (same, fails) ↦ inl (
      λ n. fails (ap (λ x. x.1) (sym eq) ∙ n),
      ap (λ x. x.0.members) eq ∙ ap (λ x. x.members) same,
      ap (λ x. x.0.remotes) eq ∙ ap (λ x. x.remotes) same,
    )
    | inr handed ↦ inr (record {
      to = handed.to;
      is_node = handed.is_node;
      is_voter = handed.is_voter;
      is_other = handed.is_other;
      transferred = handed.transferred;
      nodes = handed.nodes;
      forwarded = eq ∙ handed.forwarded;
    })
  ]
]
