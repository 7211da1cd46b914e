-- ===== src/Extensions/Tests.antt =====
-- Runs of internal/extensions/extensions.go, and the theorems about it at concrete registries.
use microcluster.Prelude.{
  Str, codes, ◌≡◌, refl, true, some, List, [], ◌∷◌, ◌++◌, ok, err, is_ok, str_eq, cut_prefix,
}
use microcluster.Extensions.{has_extension, register, internal_extensions, new_registry}
use microcluster.Extensions.Names.{
  match_words, is_word_byte, bad_external, validate_external, validate_internal,
}

abbrev two_names : List Str
two_names = codes "a_0_b" ∷ codes "b" ∷ []

abbrev bad_names : List Str
bad_names = codes "a" ∷ codes "_b" ∷ codes "c" ∷ []

names_checked :
    (validate_external (codes "a_0_a_0") ≡ ok tt)
    × (validate_external (codes "a__0") ≡ err bad_external)
    × (is_ok (validate_internal (codes "internal:a_0")) ≡ true)
    × (new_registry true ≡ ok internal_extensions)
unfolding validate_external validate_internal str_eq match_words is_word_byte cut_prefix
    new_registry
names_checked = (refl, refl, refl, refl)

register_stops :
    register internal_extensions bad_names
    ≡ (internal_extensions ++ codes "a" ∷ [], some bad_external)
unfolding register has_extension validate_external str_eq match_words is_word_byte
register_stops = refl

abbrev external_first : List Str
external_first = codes "b" ∷ codes "internal:a" ∷ []
