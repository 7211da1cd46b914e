-- ===== src/Trust/Replace/Memory.antt =====
-- internal/trust/remotes.go: the map in memory after `Replace`.
use microcluster.Prelude.{
  Str, ◌≡◌, refl, Option, none, some, List, [], ◌∷◌, Result, ok, err, Assoc, lookup, lookup-insert,
  str_eq, arith, if◌then◌else◌,
}
use microcluster.Trust.{Remote, Dir, Remotes, Error, Yaml}
use microcluster.Trust.Replace.{write_one, write_all, prune, finish, replace}

-- The last remote of the list that has the name.
unfoldable pub last_named : Str → List Remote → Option Remote
last_named k [] = none
last_named k (r ∷ rs) = elim (last_named k rs) [
  | some x ↦ some x
  | none ↦ if str_eq r.name k then some r else none
]

module _ (y : Yaml) where
  lookup-write_one :
      (dir : Dir) (r : Remote) (kept kept' : Assoc Remote) (k : Str)
      → (write_one y dir r kept).1 ≡ ok kept'
      → lookup k kept' ≡ (if str_eq r.name k then some r else lookup k kept)
  unfolding write_one
  lookup-write_one dir r kept kept' k h = ground (arith, lookup-insert r.name k r kept)

  -- A successful first loop wrote its first remote and then the others.
  pub write_all-cons :
      (dir : Dir) (r : Remote) (rs : List Remote) (kept kept' : Assoc Remote)
      → (write_all y dir kept (r ∷ rs)).1 ≡ ok kept'
      → (kept₁ : Assoc Remote) × ((write_one y dir r kept).1 ≡ ok kept₁)
        × (write_all y dir kept (r ∷ rs) ≡ write_all y (write_one y dir r kept).0 kept₁ rs)
  unfolding write_all
  write_all-cons dir r rs kept kept' h =
      let d = (write_one y dir r kept).0 in
      (elim ((write_one y dir r kept).1)
          as (λ m.
            ◌≡◌ {A = Result Error (Assoc Remote)}
              (elim m as (λ _. Dir × Result Error (Assoc Remote)) [
                | err z ↦ (d, err z)
                | ok k ↦ write_all y d k rs
              ]).1
              (ok kept')
            → (k₁ : Assoc Remote) × (m ≡ ok k₁)
              × ((elim m as (λ _. Dir × Result Error (Assoc Remote)) [
                | err z ↦ (d, err z)
                | ok k ↦ write_all y d k rs
              ])
                  ≡ write_all y d k₁ rs)) [ err z ↦ λ p. cc | ok k ↦ λ p. (k, refl, refl) ])
        h

  lookup-write_all :
      (rs : List Remote) (dir : Dir) (kept kept' : Assoc Remote) (k : Str)
      → (write_all y dir kept rs).1 ≡ ok kept'
      → lookup k kept' ≡ (elim (last_named k rs) [ some x ↦ some x | none ↦ lookup k kept ])
  unfolding last_named write_all
  lookup-write_all [] dir kept kept' k h = ground arith
  lookup-write_all (r ∷ rs) dir kept kept' k h =
      let (kept₁, one, rest) = unfold_cons in
      ground (
        arith,
        lookup-write_one dir r kept kept₁ k one,
        lookup-write_all rs (write_one y dir r kept).0 kept₁ kept' k (rw rest at h),
      )
    where
      unfold_cons :
          (kept₁ : Assoc Remote) × ((write_one y dir r kept).1 ≡ ok kept₁)
          × (write_all y dir kept (r ∷ rs) ≡ write_all y (write_one y dir r kept).0 kept₁ rs)
      unfold_cons = write_all-cons dir r rs kept kept' h

-- A successful end took what was kept and pruned the rest.
pub finish-ok :
    (s s' : Remotes) (dir : Dir) (made : Result Error (Assoc Remote))
    → finish s (dir, made) ≡ (s', none)
    → (kept : Assoc Remote) × (made ≡ ok kept)
      × (s'.content ≡ kept)
      × (prune kept dir dir.entries ≡ (s'.dir, none))
unfolding finish
finish-ok s s' dir (err z) h = ground arith
finish-ok s s' dir (ok []) h = ground arith
finish-ok s s' dir (ok (k ∷ kept)) h = (k ∷ kept, refl, ground arith, ground arith)

finish-error :
    (s : Remotes) (dir : Dir) (made : Result Error (Assoc Remote)) (z : Error)
    → (finish s (dir, made)).1 ≡ some z
    → (finish s (dir, made)).0.content ≡ s.content
unfolding finish
finish-error s dir (err x) z h = refl
finish-error s dir (ok []) z h = ground arith
finish-error s dir (ok (k ∷ kept)) z h = ground arith

module _ (y : Yaml) where
  -- After a successful `Replace` the map in memory has under each name the last remote of that name in
  -- the given list, and nothing else.
  pub lookup-replace :
      (s s' : Remotes) (rs : List Remote) (k : Str)
      → replace y s rs ≡ (s', none)
      → lookup k s'.content ≡ last_named k rs
  unfolding replace lookup
  lookup-replace s s' [] k h = ground arith
  lookup-replace s s' (r ∷ rs) k h =
      let (dir, made) = write_all y s.dir [] (r ∷ rs) in
      let (kept, good, same, pruned) = finish-ok s s' dir made h in
      rw same (ground (arith, lookup-write_all y (r ∷ rs) s.dir [] kept k good))

  -- A `Replace` that fails leaves the map in memory as it was.
  replace_error_keeps :
      (s : Remotes) (rs : List Remote) (z : Error)
      → (replace y s rs).1 ≡ some z
      → (replace y s rs).0.content ≡ s.content
  unfolding replace
  replace_error_keeps s [] z h = refl
  replace_error_keeps s (r ∷ rs) z h =
      let (dir, made) = write_all y s.dir [] (r ∷ rs) in finish-error s dir made z h
