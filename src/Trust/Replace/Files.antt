-- ===== src/Trust/Replace/Files.antt =====
-- internal/trust/remotes.go: the files of the directory after `Replace`.
use microcluster.Prelude.{
  Str, ◌≡◌, sym, subst, false, none, List, [], ◌∷◌, Assoc, lookup, has_key, has_key-lookup,
  Bool-cases, inl, inr, arith,
}
use microcluster.Trust.{IsOnDisk, Remote, Dir, Remotes, Yaml, yaml_path, cut_yaml}
use microcluster.Trust.Replace.{write_all, prune, replace}
use microcluster.Trust.Replace.Memory.{last_named, finish-ok, lookup-replace}
use microcluster.Trust.Replace.Prune.{write_all-IsOnDisk, prune-keeps, prune-absent, prune-removes}

module _ (y : Yaml) where
  prune-IsOnDisk :
      (kept : Assoc Remote) (dir dir' : Dir)
      → IsOnDisk y dir kept
      → prune kept dir dir.entries ≡ (dir', none)
      → IsOnDisk y dir' kept
  prune-IsOnDisk kept dir dir' h e k r p =
      let (text, made, here) = h k r p in
      (
        text,
        made,
        ground (
          arith,
          prune-keeps kept dir.entries dir dir' k (ground (arith, has_key-lookup k kept)) e,
        ),
      )

  -- After a successful `Replace` each remote of the map in memory has its yaml in the file of its name.
  pub replace-IsOnDisk :
      (s s' : Remotes) (rs : List Remote)
      → replace y s rs ≡ (s', none)
      → IsOnDisk y s'.dir s'.content
  unfolding replace lookup
  replace-IsOnDisk s s' [] h = ground arith
  replace-IsOnDisk s s' (r ∷ rs) h =
      let p = write_all y s.dir [] (r ∷ rs) in
      let (kept, good, same, pruned) = finish-ok s s' p.0 p.1 h in
      let written =
        write_all-IsOnDisk y (r ∷ rs) s.dir [] kept (λ k x e. absurd (ground arith)) good in
      subst (IsOnDisk y s'.dir) (sym same) (prune-IsOnDisk kept p.0 s'.dir written pruned)

  -- After a successful `Replace` there is no file for a name that is not in the given list. (The name
  -- holds no `.yaml`, which its file's name would be cut at.)
  replace_removes :
      (s s' : Remotes) (rs : List Remote) (k : Str)
      → replace y s rs ≡ (s', none)
      → last_named k rs ≡ none
      → cut_yaml (yaml_path k) ≡ k
      → lookup (yaml_path k) s'.dir.entries ≡ none
  unfolding replace
  replace_removes s s' [] k h l c = ground arith
  replace_removes s s' (r ∷ rs) k h l c =
      let p = write_all y s.dir [] (r ∷ rs) in
      let (kept, good, same, pruned) = finish-ok s s' p.0 p.1 h in
      let gone : has_key k kept ≡ false =
        ground (arith, has_key-lookup k kept, lookup-replace y s s' (r ∷ rs) k h) in
      elim (Bool-cases (has_key (yaml_path k) p.0.entries)) [
        | inl listed ↦ prune-removes kept p.0.entries p.0 s'.dir k gone c listed pruned
        | inr absent ↦
            prune-absent kept p.0.entries p.0 s'.dir (yaml_path k)
              (ground (arith, has_key-lookup (yaml_path k) p.0.entries)) pruned
      ]
