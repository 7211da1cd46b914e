-- ===== src/Extensions/Versions.antt =====
-- internal/extensions/extensions.go: comparing registries, and a registry from an API response.
use mathlib.Core.List.{append-nil, append_assoc}
use microcluster.Prelude.{
  Str, str_eq_refl, str_eq_iff, ◌≡◌, ◌↔◌, ◌⊎◌, refl, ap, ◌∙◌, List, [], ◌∷◌, ◌++◌, length, All, ok,
  >>=-eq-ok, arith,
}
use microcluster.Extensions.{Extensions, is_same_version, compare_items, new_registry_from_list}
use microcluster.Extensions.{validate_any, append_all}
use microcluster.Extensions.Names.{validate_external, validate_internal}

compare_items_sound : (e t : Extensions) → length e ≡ length t → compare_items e t ≡ ok tt → e ≡ t
unfolding compare_items
compare_items_sound [] [] n h = refl
compare_items_sound [] (y ∷ t) n h = absurd (omega arith)
compare_items_sound (x ∷ e) [] n h = ground arith
compare_items_sound (x ∷ e) (y ∷ t) n h =
    ground (arith, str_eq_iff x y, compare_items_sound e t (omega arith))

compare_items_refl : (e : Extensions) → compare_items e e ≡ ok tt
unfolding compare_items
compare_items_refl [] = refl
compare_items_refl (x ∷ e) = rw (str_eq_refl x) (compare_items_refl e)

-- Two registries have the same version exactly when they are the same list, order included.
pub is_same_version_iff : (e t : Extensions) → (is_same_version e t ≡ ok tt) ↔ (e ≡ t)
unfolding is_same_version
is_same_version_iff e t =
    (λ h. ground (arith, compare_items_sound e t), λ p. rw p (ground (arith, compare_items_refl t)))

-- A name that one of the two patterns accepts.
abbrev pub IsName : Str → Type 0
IsName x = (validate_external x ≡ ok tt) ⊎ (validate_internal x ≡ ok tt)

validate_any_iff : (x : Str) → (validate_any x ≡ ok tt) ↔ IsName x
unfolding validate_any
validate_any_iff x = ground arith

append_all_sound :
    (l : List Str) (e r : Extensions) → append_all e l ≡ ok r → (r ≡ e ++ l) × All IsName l
unfolding append_all
append_all_sound [] e r h = (rw append-nil (ground arith), tt)
append_all_sound (x ∷ l) e r h =
    let (u, valid, more) = >>=-eq-ok (validate_any x) (λ _. append_all (e ++ x ∷ []) l) h in
    let (same, names) = append_all_sound l (e ++ x ∷ []) r more in
    (same ∙ append_assoc e (x ∷ []) l, ((validate_any_iff x).0 valid, names))

append_all_complete : (l : List Str) (e : Extensions) → All IsName l → append_all e l ≡ ok (e ++ l)
unfolding append_all
append_all_complete [] e h = rw append-nil
append_all_complete (x ∷ l) e h =
    rw ((validate_any_iff x).1 h.0)
      (append_all_complete l (e ++ x ∷ []) h.1 ∙ ap ok (append_assoc e (x ∷ []) l))

-- A registry is read from a list exactly when every name is well formed, and it then holds the names
-- in the order of the list.
new_registry_from_list_iff :
    (l : List Str) (r : Extensions) → (new_registry_from_list l ≡ ok r) ↔ ((r ≡ l) × All IsName l)
unfolding new_registry_from_list
new_registry_from_list_iff l r =
    (append_all_sound l [] r, λ h. rw (h.0) (append_all_complete l [] h.1))
