-- ===== src/Members/Deleting.antt =====
-- cluster/cluster_members.mapper.go: what `DeleteCoreClusterMember` leaves.
use microcluster.Prelude.{
  ◌≡◌, ◌≢◌, ◌↔◌, inl, inr, Str, str_eq, str_eq_iff, List, [], ◌∷◌, ok, Elem, Bool-cases, arith, sym,
  ap, ◌∙◌,
}
use microcluster.Members.{Member, delete_member, delete_where, affected}

left_of :
    (a : Str) (m : Member) (ms : List Member)
    → Elem m (delete_where a ms).0
    → Elem m ms × (m.address ≢ a)
unfolding delete_where
left_of a m [] h = absurd h
left_of a m (x ∷ ms) h = elim (Bool-cases (str_eq x.address a)) [
  | inl same ↦ let (el, ne) = left_of a m ms (rw same at h) in (inr el, ne)
  | inr other ↦ elim (rw other at h) [
    | inl here ↦ (inl here, λ p. ground (arith, str_eq_iff x.address a, ap (λ y. y.address) here))
    | inr there ↦ let (el, ne) = left_of a m ms there in (inr el, ne)
  ]
]

kept_in :
    (a : Str) (m : Member) (ms : List Member)
    → Elem m ms
    → m.address ≢ a
    → Elem m (delete_where a ms).0
unfolding delete_where
kept_in a m [] h d = absurd h
kept_in a m (x ∷ ms) h d = elim (Bool-cases (str_eq x.address a)) [
  | inl same ↦ rw same (elim h [
    | inl here ↦ absurd (d (ap (λ y. y.address) (sym here) ∙ (str_eq_iff x.address a).0 same))
    | inr there ↦ kept_in a m ms there d
  ])
  | inr other ↦ rw other (elim h [ inl here ↦ inl here | inr there ↦ inr (kept_in a m ms there d) ])
]

rows_left :
    (a : Str) (ms ms' : List Member) → delete_member a ms ≡ ok ms' → (delete_where a ms).0 ≡ ms'
unfolding delete_member affected
rows_left a ms ms' h = ground arith

-- Deleting a member by its address leaves exactly the rows with other addresses.
pub delete_member_lem :
    (a : Str) (ms ms' : List Member)
    → delete_member a ms ≡ ok ms'
    → (m : Member) → Elem m ms' ↔ (Elem m ms × (m.address ≢ a))
delete_member_lem a ms ms' h m =
    rw (← rows_left a ms ms' h) (left_of a m ms, λ p. kept_in a m ms p.0 p.1)
