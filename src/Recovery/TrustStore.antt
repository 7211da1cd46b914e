-- ===== src/Recovery/TrustStore.antt =====
-- internal/recover/recover.go: what `updateTrustStore` writes.
use microcluster.Prelude.{
  ◌≡◌, inl, inr, refl, sym, ap, subst, ◌∙◌, Str, Option, none, some, List, [], ◌∷◌, Result, ok, err,
  Assoc, lookup, Option-cases, Result-cases, arith,
}
use microcluster.Trust.{Remote, Dir, Remotes, Yaml, file, yaml_path, load}
use microcluster.Trust.Replace.{replace}
use microcluster.Trust.Replace.Memory.{last_named, lookup-replace}
use microcluster.Trust.Replace.Files.{replace-IsOnDisk}
use microcluster.Recovery.{DqliteMember, Error, new_remotes, replace_with, update_trust_store}

-- What the new remotes are, by the remotes that are known.
abbrev pub Carried : (Str → Option Str) → Assoc Remote → List DqliteMember → List Remote → Type 0
Carried parse known [] [] = Unit
Carried parse known (m ∷ members) (r ∷ remotes) =
    (r.name ≡ m.name)
    × (parse m.address ≡ some r.address)
    × (r.certificate ≡ (elim (lookup m.name known) as (λ x. Option Str) [
      | none ↦ none
      | some k ↦ k.certificate
    ]))
    × Carried parse known members remotes
Carried parse known [] (r ∷ remotes) = ⊥
Carried parse known (m ∷ members) [] = ⊥

new_remotes-Carried :
    (parse : Str → Option Str) (known : Assoc Remote) (members : List DqliteMember)
    (remotes : List Remote)
    → new_remotes parse known members ≡ ok remotes
    → Carried parse known members remotes
unfolding new_remotes
new_remotes-Carried parse known [] [] h = tt
new_remotes-Carried parse known [] (r ∷ remotes) h = absurd (ground arith)
new_remotes-Carried parse known (m ∷ members) remotes h = elim (Option-cases (parse m.address)) [
  | inl p ↦ absurd (ground arith)
  | inr (a, p) ↦ elim (Result-cases (new_remotes parse known members)) [
    | inr (e, q) ↦ absurd (ground arith)
    | inl (rest, q) ↦
        let r : Remote = record {
          name = m.name;
          address = a;
          certificate = elim (lookup m.name known) [ none ↦ none | some k ↦ k.certificate ];
        } in
        let all : r ∷ rest ≡ remotes = ground arith in
        subst (Carried parse known (m ∷ members)) all
          (refl, p, refl, new_remotes-Carried parse known members rest q)
  ]
]

replace_with-ok :
    (y : Yaml) (s : Remotes) (made : Result Error (List Remote)) (dir : Dir)
    → replace_with y s made ≡ (dir, none)
    → (remotes : List Remote) × (made ≡ ok remotes)
      × ((s' : Remotes) × (replace y s remotes ≡ (s', none)) × (s'.dir ≡ dir))
unfolding replace_with
replace_with-ok y s (err x) dir h = absurd (ground arith)
replace_with-ok y s (ok remotes) dir h =
    (remotes, refl, ((replace y s remotes).0, ground arith, ground arith))

load-ok :
    (y : Yaml) (parse : Str → Option Str) (members : List DqliteMember) (dir dir' : Dir)
    → update_trust_store y parse members dir ≡ (dir', none)
    → (loaded : Remotes) × (load y (record { dir = dir; content = [] }) ≡ (loaded, none))
      × (replace_with y loaded (new_remotes parse loaded.content members) ≡ (dir', none))
unfolding update_trust_store
load-ok y parse members dir dir' h =
    elim (Option-cases (load y (record { dir = dir; content = [] })).1) [
      | inr (x, p) ↦ absurd (ground arith)
      | inl p ↦ ((load y (record { dir = dir; content = [] })).0, cc p, ground arith)
    ]

-- Where the trust store is updated, it could be loaded; the new remotes have the names of the members,
-- their parsed addresses and the certificates that the store had for their names; and the last of each name
-- is in the file of the name.
update_trust_store_lem :
    (y : Yaml) (parse : Str → Option Str) (members : List DqliteMember) (dir dir' : Dir)
    → update_trust_store y parse members dir ≡ (dir', none)
    → (loaded : Remotes) × (remotes : List Remote) × (load y (record { dir = dir; content = [] })
        ≡ (loaded, none))
      × Carried parse loaded.content members remotes
      × ((k : Str) (r : Remote)
          → last_named k remotes ≡ some r
          → (text : Str) × (y.marshal r ≡ some text)
            × (lookup (yaml_path k) dir'.entries ≡ some (file text)))
update_trust_store_lem y parse members dir dir' h =
    let (loaded, is_loaded, replaced) = load-ok y parse members dir dir' h in
    let (remotes, made, (s', done, same)) =
      replace_with-ok y loaded (new_remotes parse loaded.content members) dir' replaced in
    (
      loaded,
      remotes,
      is_loaded,
      new_remotes-Carried parse loaded.content members remotes made,
      λ k r last.
          let (text, written, here) =
            replace-IsOnDisk y loaded s' remotes done k r
              (lookup-replace y loaded s' remotes k done ∙ last) in
          (text, written, ap (λ d. lookup (yaml_path k) d.entries) (sym same) ∙ here),
    )
