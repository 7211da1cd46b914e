-- ===== src/Removal/Gone.antt =====
-- internal/rest/resources/cluster.go: a removal from a cluster that does not change otherwise.
use microcluster.Prelude.{
  ℕ, ◌≡◌, ◌≢◌, inl, inr, sym, ap, ◌∙◌, Str, str_eq, str_eq_iff, none, some, List, [], ◌∷◌, lookup,
  Elem, Option-cases, Bool-cases, arith,
}
use microcluster.Members.{Member}
use microcluster.Members.Deleting.{delete_member_lem}
use microcluster.Trust.{Remote}
use microcluster.Removal.{Node, State, Env, index_of, nth, member_delete}
use microcluster.Removal.Removed.{picked, member_delete-Removed}

-- What dqlite promises: a reading gives the nodes that there are, and a removal takes away the node of
-- that id and no other.
pub record Faithful (e : Env) : Type 0 where
  pub reads_first : (nodes : List Node) → e.first nodes ≡ some nodes
  pub reads_again : (nodes : List Node) → e.again nodes ≡ some nodes
  pub removes :
      (id : ℕ) (nodes nodes' : List Node)
      → e.remove id nodes ≡ some nodes'
      → (n : Node) → Elem n nodes'
      → Elem n nodes × (n.id ≢ id)

-- No two nodes have the same address.
abbrev pub DistinctNodes : List Node → Type 0
DistinctNodes nodes = (m n : Node) → Elem m nodes → Elem n nodes → m.address ≡ n.address → m ≡ n

absent :
    (a : Str) (nodes : List Node) (n : Node)
    → index_of a nodes ≡ none
    → Elem n nodes
    → n.address ≢ a
unfolding index_of
absent a [] n h el = absurd el
absent a (m ∷ nodes) n h (inl here) =
    λ p. ground (arith, str_eq_iff m.address a, ap (λ y. y.address) here)
absent a (m ∷ nodes) n h (inr there) = absent a nodes n (ground arith) there

picked_at :
    (a : Str) (nodes : List Node) (n : Node)
    → picked (index_of a nodes) nodes ≡ some n
    → Elem n nodes × (n.address ≡ a)
unfolding index_of nth
picked_at a [] n h = absurd (ground arith)
picked_at a (m ∷ nodes) n h = elim (Bool-cases (str_eq m.address a)) [
  | inl here ↦
      let same : m ≡ n = ground arith in
      (inl same, ap (λ y. y.address) (sym same) ∙ (str_eq_iff m.address a).0 here)
  | inr other ↦ elim (Option-cases (index_of a nodes)) [
    | inl p ↦ absurd (ground arith)
    | inr (i, p) ↦ let (el, at) = picked_at a nodes n (ground arith) in (inr el, at)
  ]
]

-- Where dqlite is faithful and no two of its nodes have the same address, a removal of another member
-- that succeeds on the leader leaves no row and no node at the address of that member, and keeps the
-- rows at other addresses.
pub member_delete_gone :
    (e : Env) (name : Str) (r : Remote) (s s' : State)
    → Faithful e
    → DistinctNodes s.nodes
    → lookup name s.remotes ≡ some r
    → e.leader ≡ some s.address
    → r.address ≢ s.address
    → member_delete e name s ≡ (s', none)
    → ((m : Member) → Elem m s'.members → m.address ≢ r.address)
      × ((m : Member) → Elem m s.members → m.address ≢ r.address → Elem m s'.members)
      × ((n : Node) → Elem n s'.nodes → n.address ≢ r.address)
member_delete_gone e name r s s' f d p l ne h =
    let left =
      member_delete-Removed e name r s.nodes s.nodes s s' p l ne (f.reads_first s.nodes)
        (f.reads_again s.nodes) h in
    let rows = delete_member_lem r.address s.members s'.members left.members_left in
    (
      λ m el. ((rows m).0 el).1,
      λ m el other. (rows m).1 (el, other),
      λ n el at. elim left.node_left [
        | inl (no_index, same) ↦ absent r.address s.nodes n no_index (rw same at el) at
        | inr (found, is_found, removed) ↦
            let (was, other_id) = f.removes found.id s.nodes s'.nodes removed n el in
            let (el', at') = picked_at r.address s.nodes found is_found in
            other_id (ap (λ y. y.id) (d n found was el' (at ∙ sym at')))
      ],
    )
