-- ===== src/Tokens/Tests.antt =====
-- Runs of cluster/token_records.go, and the theorems about it at a concrete table.
use microcluster.Prelude.{codes, str_eq, ◌≡◌, refl, true, none, some, List, [], ◌∷◌, ◌++◌, ok}
use microcluster.Tokens.{Token, with_secret, get_token, token_exists, name_taken, create_token}
use microcluster.Tokens.Unique.{is_unique}

abbrev token_a : Token
token_a = record { id = 1; secret = codes "s"; name = codes "a"; expiry = none }

abbrev token_b : Token
token_b = record { id = 2; secret = codes "t"; name = codes "b"; expiry = some 5 }

abbrev tokens : List Token
tokens = token_a ∷ token_b ∷ []

tokens_unique : is_unique tokens ≡ true
unfolding name_taken token_exists str_eq
tokens_unique = refl

b_found : get_token (codes "t") tokens ≡ ok token_b
unfolding get_token with_secret str_eq
b_found = refl

abbrev token_c : Token
token_c = record { id = 3; secret = codes "u"; name = codes "c"; expiry = some 7 }

c_created : create_token token_c tokens ≡ ok (tokens ++ token_c ∷ [])
unfolding create_token token_exists name_taken str_eq
c_created = refl
