-- ===== src/Extensions/Names.antt =====
-- internal/extensions/extensions.go: the two patterns for extension names and their validators.
-- The patterns are `^[a-z0-9]+(_[a-z0-9]+)*$` and the same behind `internal:`.
use microcluster.Prelude.{
  ℕ, Str, codes, split, cut_prefix, cons_head, str_eq, ◌≡◌, ◌↔◌, refl, Bool, true, false, ◌&&◌,
  ◌||◌, Option, none, some, List, [], ◌∷◌, leb, ◌==◌, Result, ok, err, arith, if◌then◌else◌,
}

pub data Error : Type 0 where
  empty_name bad_external bad_internal : Error
  invalid_extension already_registered : Error
  different_count different_items : Error
  bad_item bad_value : Error

unfoldable pub is_word_byte : ℕ → Bool
is_word_byte c = (leb b'a' c && leb c b'z') || (leb b'0' c && leb c b'9')

-- The pattern as an automaton; `inside` says that the last byte was a letter or a digit.
unfoldable pub match_words : Bool → Str → Bool
match_words inside [] = inside
match_words inside (c ∷ s) =
    let rest = match_words (is_word_byte c) s in (is_word_byte c || (inside && c == b'_')) && rest

match_internal : Option Str → Bool
match_internal none = false
match_internal (some s) = match_words false s

unfoldable pub validate_external : Str → Result Error Unit
validate_external x =
    if str_eq x [] then err empty_name else if match_words false x then ok tt else err bad_external

unfoldable pub validate_internal : Str → Result Error Unit
unfolding match_internal
validate_internal x =
    if str_eq x []
    then err empty_name
    else if match_internal (cut_prefix (codes "internal:") x)
    then ok tt
    else err bad_internal

-- What the pattern asks for, read off the parts between underscores.
abbrev all_word_bytes : Str → Bool
all_word_bytes [] = true
all_word_bytes (c ∷ s) = is_word_byte c && all_word_bytes s

-- A part is one or more lowercase letters or digits.
abbrev is_part : Str → Bool
is_part [] = false
is_part (c ∷ s) = is_word_byte c && all_word_bytes s

abbrev all_parts : List Str → Bool
all_parts [] = true
all_parts (w ∷ ws) = is_part w && all_parts ws

-- The same, where the first part continues a letter or a digit.
abbrev all_parts_open : List Str → Bool
all_parts_open [] = true
all_parts_open (w ∷ ws) = all_word_bytes w && all_parts ws

all_parts-cons_head :
    (c : ℕ) (ws : List Str) → all_parts (cons_head c ws) ≡ is_word_byte c && all_parts_open ws
all_parts-cons_head c [] = ground arith
all_parts-cons_head c (w ∷ ws) = ground arith

all_parts_open-cons_head :
    (c : ℕ) (ws : List Str) → all_parts_open (cons_head c ws) ≡ is_word_byte c && all_parts_open ws
all_parts_open-cons_head c [] = ground arith
all_parts_open-cons_head c (w ∷ ws) = ground arith

word_byte-ne-underscore : (c : ℕ) → is_word_byte c ≡ true → (c == b'_') ≡ false
unfolding is_word_byte
word_byte-ne-underscore c h = ground arith

match_words_lem :
    (s : Str)
    → (match_words false s ≡ all_parts (split b'_' s))
      × (match_words true s ≡ all_parts_open (split b'_' s))
unfolding match_words split
match_words_lem [] = (refl, refl)
match_words_lem (c ∷ s) = ground (
  arith,
  match_words_lem s,
  word_byte-ne-underscore c,
  all_parts-cons_head c (split b'_' s),
  all_parts_open-cons_head c (split b'_' s),
)

-- An external name is accepted exactly when each of its parts between underscores is a run of one
-- or more lowercase letters and digits.
validate_external_iff :
    (x : Str) → (validate_external x ≡ ok tt) ↔ (all_parts (split b'_' x) ≡ true)
unfolding validate_external split str_eq
validate_external_iff [] = ground arith
validate_external_iff (c ∷ s) = ground (arith, match_words_lem (c ∷ s))
