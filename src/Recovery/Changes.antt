-- ===== src/Recovery/Changes.antt =====
-- internal/recover/recover.go: the changes of members that `ValidateMemberChanges` accepts.
use microcluster.Prelude.{
  ℕ, suc, ◌+◌, ◌≤◌, ◌≡◌, ◌≢◌, ◌↔◌, inl, inr, refl, Str, codes, str_eq, str_eq_refl, str_eq_iff,
  true, false, Option, some, List, [], ◌∷◌, length, ok, Option-cases, Result-cases, arith,
  if◌then◌else◌,
}
use microcluster.Recovery.{DqliteMember, elem, is_known, check_members, validate_member_changes}

-- The new members have addresses that are not among the ones seen and not twice, and each has the id and
-- the name of an old one.
abbrev pub Accepted : (Str → Option Str) → List DqliteMember → List Str → List DqliteMember → Type 0
Accepted parse old seen [] = Unit
Accepted parse old seen (m ∷ members) =
    (a : Str) × (parse m.address ≡ some a)
    × (elem a seen ≡ false)
    × (is_known m old ≡ true)
    × Accepted parse old (a ∷ seen) members

unfoldable pub num_voters : List DqliteMember → ℕ
num_voters [] = 0
num_voters (m ∷ members) =
    let rest = num_voters members in if str_eq m.role (codes "voter") then suc rest else rest

check_members_sound :
    (parse : Str → Option Str) (old : List DqliteMember) (seen : List Str) (v w : ℕ)
    (members : List DqliteMember)
    → check_members parse old seen v members ≡ ok w
    → Accepted parse old seen members × (w ≡ v + num_voters members)
unfolding check_members num_voters
check_members_sound parse old seen v w [] h = (tt, ground arith)
check_members_sound parse old seen v w (m ∷ members) h = elim (Option-cases (parse m.address)) [
  | inl p ↦ absurd (ground arith)
  | inr (a, p) ↦
      let counted = if str_eq m.role (codes "voter") then suc v else v in
      let (each, sum) = check_members_sound parse old (a ∷ seen) counted w members (ground arith) in
      ((a, p, ground arith, ground arith, each), ground arith)
]

check_members_complete :
    (parse : Str → Option Str) (old : List DqliteMember) (seen : List Str) (v : ℕ)
    (members : List DqliteMember)
    → Accepted parse old seen members
    → check_members parse old seen v members ≡ ok (v + num_voters members)
unfolding check_members num_voters
check_members_complete parse old seen v [] h = ground arith
check_members_complete parse old seen v (m ∷ members) (a, p, new, known, each) =
    let counted = if str_eq m.role (codes "voter") then suc v else v in
    ground (arith, check_members_complete parse old (a ∷ seen) counted members each)

-- A change of members is accepted exactly when there are as many as before, one of them is a voter, their
-- addresses can be parsed and differ, and each has the id and the name of one of the old members.
pub validate_member_changes_iff :
    (parse : Str → Option Str) (old new : List DqliteMember)
    → (validate_member_changes parse old new ≡ ok tt)
      ↔ ((length new ≡ length old) × (1 ≤ num_voters new) × Accepted parse old [] new)
unfolding validate_member_changes
validate_member_changes_iff parse old new = (
  λ h. elim (Result-cases (check_members parse old [] 0 new)) [
    | inr (e, p) ↦ absurd (ground arith)
    | inl (w, p) ↦
        let (each, sum) = check_members_sound parse old [] 0 w new p in
        (ground arith, ground arith, each)
  ],
  λ (same, voters, each). ground (arith, check_members_complete parse old [] 0 new each),
)

voter_counts :
    (m : DqliteMember) (members : List DqliteMember)
    → m.role ≡ codes "voter"
    → 1 ≤ num_voters (m ∷ members)
unfolding num_voters
voter_counts m members v = ground (arith, str_eq_iff m.role (codes "voter"))

-- That the old members are all still there is not checked: of two members, one may take the place of the
-- other, at another address.
validate_accepts_twice :
    (parse : Str → Option Str) (m o : DqliteMember) (address a b : Str)
    → m.role ≡ codes "voter"
    → parse m.address ≡ some a
    → parse address ≡ some b
    → a ≢ b
    → validate_member_changes parse (m ∷ o ∷ []) (m ∷ record m { address = address } ∷ []) ≡ ok tt
unfolding elem is_known
validate_accepts_twice parse m o address a b v p q d =
    let not_seen : elem a [] ≡ false = refl in
    let known : is_known m (m ∷ o ∷ []) ≡ true = ground (arith, str_eq_refl m.name) in
    (validate_member_changes_iff parse (m ∷ o ∷ []) (m ∷ record m { address = address } ∷ [])).1 (
      refl,
      voter_counts m (record m { address = address } ∷ []) v,
      (a, p, not_seen, known, (b, q, ground (arith, str_eq_iff a b), known, tt)),
    )
