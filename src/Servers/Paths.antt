-- ===== src/Servers/Paths.antt =====
-- internal/rest/resources/resources.go: the paths that `ValidateEndpoints` accepts for one server.
use microcluster.Prelude.{
  ◌≡◌, ◌↔◌, refl, sym, ap, subst, ◌∙◌, inl, inr, Str, str_eq, Bool, true, false, not, ◌&&◌, List,
  [], ◌∷◌, ◌++◌, ok, All, Result-cases, arith,
}
use microcluster.Servers.{
  Resource, Server, core, first_path_element, has_pair, internal_name, check_paths, is_none,
  check_resources, paths_of,
}

-- No pair is among the ones before it.
abbrev pub NewPairs : List (Str × Str) → List (Str × Str) → Type 0
NewPairs existing [] = Unit
NewPairs existing (p ∷ pairs) = (has_pair p existing ≡ false) × NewPairs (p ∷ existing) pairs

abbrev pub push : List (Str × Str) → List (Str × Str) → List (Str × Str)
push existing [] = existing
push existing (p ∷ pairs) = push (p ∷ existing) pairs

-- The pairs of a server.
unfoldable pub pairs_of : (Str → Str → Str) → Server → List Resource → List (Str × Str)
pairs_of join s [] = []
pairs_of join s (r ∷ resources) =
    paths_of join (internal_name s) r.prefix r.paths ++ pairs_of join s resources

-- A path is not in the namespace of the core, where it would be on the core listener.
abbrev is_free : Server → Str × Str → Bool
is_free s (n, u) = not (s.core_api && str_eq (first_path_element u) core)

abbrev pub all_free : Server → List (Str × Str) → Bool
all_free s [] = true
all_free s (p ∷ pairs) = is_free s p && all_free s pairs

pub NewPairs-append :
    (ex xs ys : List (Str × Str))
    → NewPairs ex (xs ++ ys) ↔ (NewPairs ex xs × NewPairs (push ex xs) ys)
NewPairs-append ex [] ys = (λ h. (tt, h), λ h. h.1)
NewPairs-append ex (x ∷ xs) ys =
    let both = NewPairs-append (x ∷ ex) xs ys in
    (λ h. ((h.0, (both.0 h.1).0), (both.0 h.1).1), λ h. (h.0.0, both.1 (h.0.1, h.1)))

push-append : (ex xs ys : List (Str × Str)) → push ex (xs ++ ys) ≡ push (push ex xs) ys
push-append ex [] ys = refl
push-append ex (x ∷ xs) ys = push-append (x ∷ ex) xs ys

all_free-append :
    (s : Server) (xs ys : List (Str × Str)) → all_free s (xs ++ ys) ≡ all_free s xs && all_free s ys
all_free-append s [] ys = refl
all_free-append s (x ∷ xs) ys = ground (arith, all_free-append s xs ys)

module _ (join : Str → Str → Str) where
  paths_sound :
      (s : Server) (prefix : Str) (paths : List Str) (ex ex' : List (Str × Str))
      → check_paths join s prefix paths ex ≡ ok ex'
      → NewPairs ex (paths_of join (internal_name s) prefix paths)
        × (all_free s (paths_of join (internal_name s) prefix paths) ≡ true)
        × (ex' ≡ push ex (paths_of join (internal_name s) prefix paths))
  unfolding check_paths paths_of
  paths_sound s prefix [] ex ex' h = (tt, refl, ground arith)
  paths_sound s prefix (p ∷ paths) ex ex' h =
      let (new, free, left) =
        paths_sound s prefix paths ((internal_name s, join prefix p) ∷ ex) ex' (ground arith) in
      ((ground arith, new), ground arith, left)

  paths_complete :
      (s : Server) (prefix : Str) (paths : List Str) (ex : List (Str × Str))
      → NewPairs ex (paths_of join (internal_name s) prefix paths)
      → all_free s (paths_of join (internal_name s) prefix paths) ≡ true
      → check_paths join s prefix paths ex
        ≡ ok (push ex (paths_of join (internal_name s) prefix paths))
  unfolding check_paths paths_of
  paths_complete s prefix [] ex n f = refl
  paths_complete s prefix (p ∷ paths) ex n f =
      ground (arith, n.0, paths_complete s prefix paths ((internal_name s, join prefix p) ∷ ex) n.1)

  pub resources_sound :
      (s : Server) (rs : List Resource) (ex ex' : List (Str × Str))
      → check_resources join s rs ex ≡ ok ex'
      → All (λ r. is_none r.paths ≡ false) rs
        × NewPairs ex (pairs_of join s rs)
        × (all_free s (pairs_of join s rs) ≡ true)
        × (ex' ≡ push ex (pairs_of join s rs))
  unfolding check_resources pairs_of
  resources_sound s [] ex ex' h = (tt, tt, refl, ground arith)
  resources_sound s (r ∷ rs) ex ex' h =
      elim (Result-cases (check_paths join s r.prefix r.paths ex)) [
        | inr (e, p) ↦ absurd (ground arith)
        | inl (added, p) ↦
            let here = paths_of join (internal_name s) r.prefix r.paths in
            let rest = pairs_of join s rs in
            let (new, free, left) = paths_sound s r.prefix r.paths ex added p in
            let (full, news, frees, lefts) = resources_sound s rs added ex' (ground arith) in
            (
              (ground arith, full),
              (NewPairs-append ex here rest).1 (new, subst (λ z. NewPairs z rest) left news),
              all_free-append s here rest ∙ ground arith,
              lefts ∙ ap (λ z. push z rest) left ∙ sym (push-append ex here rest),
            )
      ]

  pub resources_complete :
      (s : Server) (rs : List Resource) (ex : List (Str × Str))
      → All (λ r. is_none r.paths ≡ false) rs
      → NewPairs ex (pairs_of join s rs)
      → all_free s (pairs_of join s rs) ≡ true
      → check_resources join s rs ex ≡ ok (push ex (pairs_of join s rs))
  unfolding check_resources pairs_of
  resources_complete s [] ex a n f = refl
  resources_complete s (r ∷ rs) ex a n f =
      let here = paths_of join (internal_name s) r.prefix r.paths in
      let rest = pairs_of join s rs in
      let both = (NewPairs-append ex here rest).0 n in
      let frees : all_free s here && all_free s rest ≡ true =
        sym (all_free-append s here rest) ∙ f in
      let one = paths_complete s r.prefix r.paths ex both.0 (ground arith) in
      let more = resources_complete s rs (push ex here) a.1 both.1 (ground arith) in
      rw (a.0, one) (more ∙ ap ok (sym (push-append ex here rest)))
