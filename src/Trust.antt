-- ===== src/Trust.antt =====
-- internal/trust/remotes.go: the trust store, a directory of yaml files and its copy in memory. The
-- lock makes each operation one step; an operation that changes the directory before it fails returns
-- the directory beside the error.
pub mod Writes
pub mod Replace
pub mod Samples
mod Tests
use microcluster.Prelude.{
  ℕ, suc, Str, codes, str_eq, cut_prefix, Bool, true, false, ◌||◌, Option, none, some, List, [],
  ◌∷◌, ◌++◌, length, ◌==◌, Result, ok, err, ◌≡◌, Assoc, lookup, insert, remove, has_key,
  if◌then◌else◌,
}

-- `Remote` with its embedded `Location`. An address is written as its text, which is empty for the
-- zero `AddrPort`; a certificate is its bytes, and none where the pointer is nil.
pub record Remote : Type 0 where
  pub name : Str
  pub address : Str
  pub certificate : Option Str

pub data Entry : Type 0 where
  file : Str → Entry
  directory : Bool → Entry  -- whether it is empty

-- The directory of the trust store. `fails` says which names the system refuses to read or write.
pub record Dir : Type 0 where
  pub entries : Assoc Entry
  pub readable : Bool
  pub fails : Str → Bool

-- `Remotes`: the directory and the map in memory.
pub record Remotes : Type 0 where
  pub dir : Dir
  pub content : Assoc Remote

pub data Error : Type 0 where
  unreadable unwritable unparsable : Error
  empty_certificate already_exists file_exists : Error
  no_remotes not_removed : Error

-- The yaml library.
pub record Yaml : Type 0 where
  pub marshal : Remote → Option Str
  pub unmarshal : Str → Option Remote

abbrev pub yaml_suffix : Str
yaml_suffix = codes ".yaml"

abbrev pub yaml_path : Str → Str
yaml_path name = name ++ yaml_suffix

-- `strings.HasSuffix`
unfoldable pub has_suffix : Str → Str → Bool
has_suffix suffix [] = str_eq [] suffix
has_suffix suffix (c ∷ s) = str_eq (c ∷ s) suffix || has_suffix suffix s

-- `strings.Cut(s, ".yaml")`, the part before.
unfoldable pub cut_yaml : Str → Str
cut_yaml [] = []
cut_yaml (c ∷ s) =
    let rest = cut_yaml s in elim (cut_prefix yaml_suffix (c ∷ s)) [ some t ↦ [] | none ↦ c ∷ rest ]

-- Every remote of the map has its yaml in the file of its name.
abbrev pub IsOnDisk : Yaml → Dir → Assoc Remote → Type 0
IsOnDisk y dir m =
    (k : Str) (r : Remote)
    → lookup k m ≡ some r
    → (text : Str) × (y.marshal r ≡ some text)
      × (lookup (yaml_path k) dir.entries ≡ some (file text))

module _ (y : Yaml) where
  -- One file of `Load`.
  load_file : Dir → Str → Entry → Assoc Remote → Result Error (Assoc Remote)
  load_file dir name (directory b) found = ok found
  load_file dir name (file s) found =
      if has_suffix yaml_suffix name
      then (if dir.fails name then err unreadable else (elim (y.unmarshal s) [
        | none ↦ err unparsable
        | some r ↦ elim r.certificate [
          | none ↦ err empty_certificate
          | some c ↦ ok (insert r.name r found)
        ]
      ]))
      else ok found

  load_files : Dir → Assoc Entry → Assoc Remote → Result Error (Assoc Remote)
  load_files dir [] found = ok found
  load_files dir ((name, e) ∷ rest) found = elim (load_file dir name e found) [
    | err z ↦ err z
    | ok found' ↦ load_files dir rest found'
  ]

  -- The end of `Load`: nothing found does not replace something known.
  keep_known : Assoc Remote → Assoc Remote → Assoc Remote
  keep_known (k ∷ known) [] = k ∷ known
  keep_known known found = found

  unfoldable pub load : Remotes → Remotes × Option Error
  unfolding load_files load_file keep_known
  load s =
      if s.dir.readable
      then (elim (load_files s.dir s.dir.entries []) [
        | err z ↦ (s, some z)
        | ok found ↦ (record s { content = keep_known s.content found }, none)
      ])
      else (s, some unreadable)

  -- `renameio.WriteFile`, which cannot replace a directory.
  write_file : Dir → Str → Str → Option Dir
  write_file dir name s = if dir.fails name then none else (elim (lookup name dir.entries) [
    | some (directory b) ↦ none
    | _ ↦ some (record dir { entries = insert name (file s) dir.entries })
  ])

  -- One remote of `Add`.
  unfoldable pub add_one : Remotes → Remote → Remotes × Option Error
  unfolding write_file
  add_one s r = elim r.certificate [
    | none ↦ (s, some empty_certificate)
    | some c ↦ if has_key r.name s.content then (s, some already_exists) else (elim (y.marshal r) [
      | none ↦ (s, some unparsable)
      | some text ↦
          if dir.fails (yaml_path r.name)
          then (s, some unreadable)
          else (elim (lookup (yaml_path r.name) dir.entries) [
            | some e ↦ (s, some file_exists)
            | none ↦ elim (write_file dir (yaml_path r.name) text) [
              | none ↦ (s, some unwritable)
              | some dir' ↦ (record { dir = dir'; content = insert r.name r s.content }, none)
            ]
          ])
    ])
  ]
    where
      open s use {dir}

  unfoldable pub add : Remotes → List Remote → Remotes × Option Error
  add s [] = (s, none)
  add s (r ∷ rs) = let (s', e) = add_one s r in elim e [ some z ↦ (s', some z) | none ↦ add s' rs ]
