-- ===== src/Removal/Tests.antt =====
-- internal/rest/resources/cluster.go: removals at concrete values.
use microcluster.Prelude.{
  ℕ, ◌≡◌, ◌≢◌, ◌⊎◌, inl, inr, refl, sym, ap, subst, ◌∙◌, ◌==◌, Bool-cases, if◌then◌else◌, codes,
  Str, str_eq, str_eq_iff, true, false, none, some, List, [], ◌∷◌, map, lookup, remove, Elem, arith,
}
use microcluster.Members.{Member, delete_member, delete_where}
use microcluster.Trust.{Remote}
use microcluster.Upgrade.{Tables}
use microcluster.Database.{Own, new_db}
use microcluster.Removal.{
  Node, voter, spare, State, Env, index_of, nth, num_pending, conclude, forget, drop_node,
  remove_other, after_roles, fix_roles, lead, member_delete,
}
use microcluster.Removal.Gone.{Faithful, DistinctNodes, member_delete_gone}
use microcluster.Removal.Handover.{HandedOver, leader_hands_over}
use microcluster.Removal.TwoNodes.{Willing, promote, two_nodes_hand_over}
use microcluster.Removal.Reset.{Daemon, Answers}

without : ℕ → List Node → List Node
without id [] = []
without id (n ∷ nodes) = let rest = without id nodes in if n.id == id then rest else n ∷ rest

abbrev env : Env
env = record {
  force = false;
  leader = some (codes "a:1");
  forward = λ s. (s, none);
  first = some;
  again = some;
  assign = λ id nodes. some (map (promote id) nodes);
  chosen = λ n. 0;
  transfer = λ id. true;
  has_client = true;
  pre_remove = true;
  remove = λ id nodes. some (without id nodes);
  delete_entry = λ k m. some (remove k m);
  resets = true;
  post_remove = true;
}

abbrev row : Str → Member
row a = record {
  id = 0;
  name = a;
  address = a;
  certificate = a;
  schema_internal = 6;
  schema_external = 0;
  api_extensions = [];
  heartbeat = 0;
  role = codes "voter";
}

abbrev remote : Str → Remote
remote a = record { name = a; address = a; certificate = some a }

abbrev node_a : Node
node_a = record { id = 1; address = codes "a:1"; role = voter }

abbrev node_b : Node
node_b = record { id = 2; address = codes "b:1"; role = spare }

abbrev before : State
before = record {
  address = codes "a:1";
  nodes = node_a ∷ node_b ∷ [];
  members = row (codes "a:1") ∷ row (codes "b:1") ∷ [];
  remotes = (codes "a", remote (codes "a:1")) ∷ (codes "b", remote (codes "b:1")) ∷ [];
}

abbrev after : State
after = record {
  address = codes "a:1";
  nodes = node_a ∷ [];
  members = row (codes "a:1") ∷ [];
  remotes = (codes "a", remote (codes "a:1")) ∷ [];
}

removes_b : member_delete env (codes "b") before ≡ (after, none)
unfolding member_delete lead fix_roles after_roles remove_other drop_node forget conclude index_of
    nth num_pending delete_member delete_where without lookup str_eq remove
removes_b = refl

-- Where the second reading has another order, another node is removed.
abbrev reordered : Env
reordered = record env { again = λ nodes. some (node_b ∷ node_a ∷ []) }

removes_a : (member_delete reordered (codes "b") before).0.nodes ≡ node_b ∷ []
unfolding member_delete lead fix_roles after_roles remove_other drop_node forget conclude index_of
    nth num_pending delete_member delete_where without lookup str_eq remove
removes_a = refl

apart : codes "b:1" ≢ codes "a:1"
apart h = ground (arith, str_eq_iff (codes "b:1") (codes "a:1"))

in_without :
    (id : ℕ) (nodes : List Node) (n : Node) → Elem n (without id nodes) → Elem n nodes × (n.id ≢ id)
unfolding without
in_without id [] n h = absurd h
in_without id (m ∷ nodes) n h = elim (Bool-cases (m.id == id)) [
  | inl same ↦ let (el, ne) = in_without id nodes n (rw same at h) in (inr el, ne)
  | inr others ↦ elim (rw others at h) [
    | inl here ↦ (inl here, λ p. ground (arith, ap (λ x. x.id) here))
    | inr there ↦ let (el, ne) = in_without id nodes n there in (inr el, ne)
  ]
]

faithful : Faithful env
faithful = record {
  reads_first = λ nodes. refl;
  reads_again = λ nodes. refl;
  removes =
      λ id nodes nodes' h n el. in_without id nodes n (subst (Elem n) (sym (ground arith)) el);
}

willing : Willing env
willing = record {
  assigns = λ id nodes. refl;
  chooses = λ n h. omega arith;
  transfers = λ id. refl;
}

distinct : DistinctNodes (node_a ∷ node_b ∷ [])
distinct m n (inl p) (inl q) h = sym p ∙ q
distinct m n (inl p) (inr (inl q)) h =
    absurd (apart (ap (λ x. x.address) q ∙ sym h ∙ sym (ap (λ x. x.address) p)))
distinct m n (inr (inl p)) (inl q) h =
    absurd (apart (ap (λ x. x.address) p ∙ h ∙ sym (ap (λ x. x.address) q)))
distinct m n (inr (inl p)) (inr (inl q)) h = sym p ∙ q
distinct m n (inr (inr p)) q h = absurd p
distinct m n (inl p) (inr (inr q)) h = absurd q
distinct m n (inr (inl p)) (inr (inr q)) h = absurd q

member_delete_gone_example :
    ((m : Member) → Elem m after.members → m.address ≢ codes "b:1")
    × ((m : Member) → Elem m before.members → m.address ≢ codes "b:1" → Elem m after.members)
    × ((n : Node) → Elem n after.nodes → n.address ≢ codes "b:1")
unfolding lookup str_eq
member_delete_gone_example =
    member_delete_gone env (codes "b") (remote (codes "b:1")) before after faithful distinct refl
      refl apart removes_b

abbrev voter_b : Node
voter_b = record node_b { role = voter }

abbrev moved : Env
moved = record env { again = λ nodes. some (voter_b ∷ []) }

leader_hands_over_example :
    (((member_delete moved (codes "a") before).1 ≢ none)
      × ((member_delete moved (codes "a") before).0.members ≡ before.members)
      × ((member_delete moved (codes "a") before).0.remotes ≡ before.remotes))
    ⊎ HandedOver moved (voter_b ∷ []) before (member_delete moved (codes "a") before)
unfolding lookup str_eq
leader_hands_over_example =
    leader_hands_over moved (codes "a") (remote (codes "a:1")) (voter_b ∷ []) before refl refl refl
      (λ nodes. refl)

two_nodes_hand_over_example :
    (nodes : List Node) × (member_delete env (codes "a") before
      ≡ (record before { nodes = nodes }, none))
unfolding lookup str_eq num_pending
two_nodes_hand_over_example =
    two_nodes_hand_over env (codes "a") (remote (codes "a:1")) node_a node_b before faithful willing
      refl refl refl refl refl apart (omega arith)

abbrev own : Own
own = record { internal = 6; external = 0; extensions = []; address = codes "a:1" }

abbrev tables : Tables
tables = record { table = none; has_api_column = true }

abbrev daemon : Daemon
daemon = record { db = new_db; listening = true; has_state_dir = true }

abbrev jammed : Answers
jammed = record { closes = true; stops = false; removes = true }
