-- ===== src/Recovery.antt =====
-- internal/recover/recover.go and cluster/recover.go: the changes of members that a recovery accepts, and
-- what it writes to the trust store. Recovery/Unpack has the recovery of the other members.
pub mod Changes
pub mod TrustStore
pub mod Unpack
pub mod Quorum
mod Tests
use microcluster.Prelude.{
  ℕ, suc, ◌+◌, Str, codes, str_eq, Bool, true, false, not, ◌&&◌, ◌||◌, Option, none, some, List, [],
  ◌∷◌, length, ltb, ◌==◌, Result, ok, err, ◌>>=◌, ◌>>◌, refuse_if, Assoc, lookup, if◌then◌else◌,
}
use microcluster.Trust
use microcluster.Trust.{Remote, Dir, Remotes, Yaml, load}
use microcluster.Trust.Replace.{replace}

-- `cluster.DqliteMember`
pub record DqliteMember : Type 0 where
  pub id : ℕ
  pub address : Str
  pub role : Str
  pub name : Str

pub data Error : Type 0 where
  other_length bad_address duplicate_address changed no_voter : Error
  trust : Trust.Error → Error

unfoldable pub elem : Str → List Str → Bool
elem a [] = false
elem a (b ∷ bs) = str_eq b a || elem a bs

-- The inner loop: a member of the same id and name.
unfoldable pub is_known : DqliteMember → List DqliteMember → Bool
is_known m [] = false
is_known m (o ∷ old) = (m.id == o.id && str_eq m.name o.name) || is_known m old

-- The outer loop. `parse` is `netip.ParseAddrPort`, which gives an address in its one form; `seen` are the
-- addresses so far.
unfoldable pub check_members :
    (Str → Option Str) → List DqliteMember → List Str → ℕ → List DqliteMember → Result Error ℕ
check_members parse old seen voters [] = ok voters
check_members parse old seen voters (m ∷ members) = elim (parse m.address) [
  | none ↦ err bad_address
  | some a ↦
      let counted = if str_eq m.role (codes "voter") then suc voters else voters in
      let rest = check_members parse old (a ∷ seen) counted members in
      if elem a seen then err duplicate_address else if is_known m old then rest else err changed
]

-- `ValidateMemberChanges`
unfoldable pub validate_member_changes :
    (Str → Option Str) → List DqliteMember → List DqliteMember → Result Error Unit
validate_member_changes parse old new = do
  refuse_if (not (length new == length old)) other_length
  voters ← check_members parse old [] 0 new
  refuse_if (ltb voters 1) no_voter

-- The remotes of the new members, with the certificates that the trust store has for their names.
unfoldable pub new_remotes :
    (Str → Option Str) → Assoc Remote → List DqliteMember → Result Error (List Remote)
new_remotes parse known [] = ok []
new_remotes parse known (m ∷ members) = elim (parse m.address) [
  | none ↦ err bad_address
  | some a ↦ do
    rest ← new_remotes parse known members
    let certificate : Option Str = elim (lookup m.name known) [
      | none ↦ none
      | some r ↦ r.certificate
    ]
    ok (record { name = m.name; address = a; certificate = certificate } ∷ rest)
]

replace_with : Yaml → Remotes → Result Error (List Remote) → Dir × Option Error
replace_with y s (err x) = (s.dir, some x)
replace_with y s (ok remotes) =
    let (s', e) = replace y s remotes in (s'.dir, elim e [ none ↦ none | some x ↦ some (trust x) ])

-- `updateTrustStore`
unfoldable pub update_trust_store :
    Yaml → (Str → Option Str) → List DqliteMember → Dir → Dir × Option Error
unfolding replace_with
update_trust_store y parse members dir =
    let (loaded, e) = load y (record { dir = dir; content = [] }) in
    elim e [
      | some x ↦ (dir, some (trust x))
      | none ↦ replace_with y loaded (new_remotes parse loaded.content members)
    ]
