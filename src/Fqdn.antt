-- ===== src/Fqdn.antt =====
-- internal/utils/validation.go. `validate.IsHostname` is a package outside the repository, and
-- enters as a test on one label.
mod Tests
use microcluster.Prelude.{
  ℕ, Str, split, Bool, true, false, ◌||◌, List, [], ◌∷◌, length, ltb, ◌≡◌, refl, ◌↔◌, ◌≤◌, All,
  Result, ok, err, arith, if◌then◌else◌,
}

pub data Error : Type 0 where
  bad_length bad_label : Error

labels : (Str → Bool) → List Str → Result Error Unit
labels is_hostname [] = ok tt
labels is_hostname (h ∷ hs) =
    let rest = labels is_hostname hs in if is_hostname h then rest else err bad_label

-- `ValidateFQDN`
unfoldable pub validate_fqdn : (Str → Bool) → Str → Result Error Unit
unfolding labels
validate_fqdn is_hostname name =
    if ltb (length name) 1 || ltb 255 (length name)
    then err bad_length
    else labels is_hostname (split b'.' name)

labels_iff :
    (is_hostname : Str → Bool) (hs : List Str)
    → (labels is_hostname hs ≡ ok tt) ↔ All (λ h. is_hostname h ≡ true) hs
unfolding labels
labels_iff is_hostname [] = (λ h. tt, λ h. refl)
labels_iff is_hostname (h ∷ hs) = ground (arith, labels_iff is_hostname hs)

-- A name is accepted exactly when it has 1 to 255 bytes and each part between dots is a host name.
validate_fqdn_iff :
    (is_hostname : Str → Bool) (name : Str)
    → (validate_fqdn is_hostname name ≡ ok tt) ↔ (
        (1 ≤ length name) × (length name ≤ 255) × All (λ h. is_hostname h ≡ true) (split b'.' name))
unfolding validate_fqdn
validate_fqdn_iff is_hostname name = ground (arith, labels_iff is_hostname (split b'.' name))
