-- ===== src/Fqdn/Tests.antt =====
-- Runs of internal/utils/validation.go, and the theorem about it at a concrete name.
use microcluster.Prelude.{Str, codes, split, Bool, true, false, [], ◌∷◌, ◌≡◌, refl, ok, err}
use microcluster.Fqdn.{validate_fqdn, bad_length, bad_label}

-- A test on labels that refuses the empty one.
abbrev not_empty : Str → Bool
not_empty [] = false
not_empty (c ∷ s) = true

names_checked :
    (validate_fqdn not_empty (codes "a.b") ≡ ok tt)
    × (validate_fqdn not_empty (codes "a..b") ≡ err bad_label)
    × (validate_fqdn not_empty [] ≡ err bad_length)
unfolding validate_fqdn split
names_checked = (refl, refl, refl)
