-- ===== src/Trust/Replace.antt =====
-- internal/trust/remotes.go: `Replace`, which writes the given remotes, removes the files of all others
-- and then takes the given remotes for the map in memory.
pub mod Memory
pub mod Prune
pub mod Files
use microcluster.Prelude.{
  Str, Bool, true, false, Option, none, some, List, [], ◌∷◌, Result, ok, err, Assoc, lookup, insert,
  remove, has_key, if◌then◌else◌,
}
use microcluster.Trust.{
  Remote, Entry, file, directory, Dir, Remotes, Error, unreadable, unwritable, unparsable,
  empty_certificate, no_remotes, not_removed, Yaml, yaml_path, cut_yaml,
}

module _ (y : Yaml) where
  -- One remote of the first loop, which writes its file and its entry of `remoteData`.
  pub write_one : Dir → Remote → Assoc Remote → Dir × Result Error (Assoc Remote)
  write_one dir r kept = elim r.certificate [
    | none ↦ (dir, err empty_certificate)
    | some c ↦ elim (y.marshal r) [
      | none ↦ (dir, err unparsable)
      | some text ↦
          if dir.fails (yaml_path r.name)
          then (dir, err unwritable)
          else (elim (lookup (yaml_path r.name) dir.entries) [
            | some (directory b) ↦ (dir, err unwritable)
            | _ ↦ (
              record dir { entries = insert (yaml_path r.name) (file text) dir.entries },
              ok (insert r.name r kept),
            )
          ])
    ]
  ]

  pub write_all : Dir → Assoc Remote → List Remote → Dir × Result Error (Assoc Remote)
  write_all dir kept [] = (dir, ok kept)
  write_all dir kept (r ∷ rs) =
      let (dir', made) = write_one dir r kept in
      elim made [ err z ↦ (dir', err z) | ok kept' ↦ write_all dir' kept' rs ]

-- `os.Remove`, which removes a file or an empty directory.
pub remove_file : Dir → Str → Option Dir
remove_file dir name = if dir.fails name then none else (elim (lookup name dir.entries) [
  | some (directory false) ↦ none
  | some e ↦ some (record dir { entries = remove name dir.entries })
  | none ↦ none
])

-- The second loop, over the listing of the directory.
pub prune : Assoc Remote → Dir → Assoc Entry → Dir × Option Error
prune kept dir [] = (dir, none)
prune kept dir ((name, e) ∷ listed) =
    let rest = prune kept dir listed in
    if has_key (cut_yaml name) kept
    then rest
    else (elim (remove_file dir (yaml_path (cut_yaml name))) [
      | none ↦ (dir, some not_removed)
      | some dir' ↦ prune kept dir' listed
    ])

pub finish : Remotes → Dir × Result Error (Assoc Remote) → Remotes × Option Error
finish s (dir, err z) = (record s { dir = dir }, some z)
finish s (dir, ok kept) =
    if dir.readable
    then (let (dir', e) = prune kept dir dir.entries in
        elim e [
          | some z ↦ (record s { dir = dir' }, some z)
          | none ↦ elim kept [
            | [] ↦ (record s { dir = dir' }, some no_remotes)
            | k ∷ more ↦ (record { dir = dir'; content = k ∷ more }, none)
          ]
        ])
    else (record s { dir = dir }, some unreadable)

unfoldable pub replace : Yaml → Remotes → List Remote → Remotes × Option Error
unfolding finish write_all write_one prune remove_file
replace y s [] = (s, some no_remotes)
replace y s (r ∷ rs) = finish s (write_all y s.dir [] (r ∷ rs))
