-- ===== src/Tokens/Unique.antt =====
-- cluster/token_records.mapper.go: no two tokens have the same name or the same secret, and what
-- `CreateCoreTokenRecord` and `GetCoreTokenRecord` make of that.
use microcluster.Prelude.{
  Str, str_eq_refl, str_eq_iff, ◌≡◌, refl, Bool, true, false, not, ◌&&◌, ◌||◌, List, [], ◌∷◌, ◌++◌,
  ok, arith,
}
use microcluster.Tokens.{Token, name_taken, token_exists, with_secret, get_token, create_token}

-- The two `UNIQUE` constraints of the table.
abbrev pub is_unique : List Token → Bool
is_unique [] = true
is_unique (t ∷ ts) = not (name_taken t.name ts) && not (token_exists t.secret ts) && is_unique ts

pub name_taken-append :
    (k : Str) (xs ys : List Token) → name_taken k (xs ++ ys) ≡ name_taken k xs || name_taken k ys
unfolding name_taken
name_taken-append k [] ys = refl
name_taken-append k (x ∷ xs) ys = ground (arith, name_taken-append k xs ys)

pub token_exists-append :
    (k : Str) (xs ys : List Token)
    → token_exists k (xs ++ ys) ≡ token_exists k xs || token_exists k ys
unfolding token_exists
token_exists-append k [] ys = refl
token_exists-append k (x ∷ xs) ys = ground (arith, token_exists-append k xs ys)

is_unique-snoc :
    (ts : List Token) (t : Token)
    → is_unique ts ≡ true
    → name_taken t.name ts ≡ false
    → token_exists t.secret ts ≡ false
    → is_unique (ts ++ t ∷ []) ≡ true
unfolding name_taken token_exists
is_unique-snoc [] t u n s = refl
is_unique-snoc (x ∷ ts) t u n s = ground (
  arith,
  is_unique-snoc ts t,
  name_taken-append x.name ts (t ∷ []),
  token_exists-append x.secret ts (t ∷ []),
  str_eq_iff t.name x.name,
  str_eq_iff x.name t.name,
  str_eq_iff t.secret x.secret,
  str_eq_iff x.secret t.secret,
)

pub with_secret-append :
    (k : Str) (xs ys : List Token) → with_secret k (xs ++ ys) ≡ with_secret k xs ++ with_secret k ys
unfolding with_secret
with_secret-append k [] ys = refl
with_secret-append k (x ∷ xs) ys = ground (arith, with_secret-append k xs ys)

pub with_secret_none :
    (k : Str) (ts : List Token) → token_exists k ts ≡ false → with_secret k ts ≡ []
unfolding with_secret token_exists
with_secret_none k [] h = refl
with_secret_none k (t ∷ ts) h = ground (arith, with_secret_none k ts)

-- Where no two tokens have the same name or secret, that stays so when a token is created, and the new
-- token is then the one found under its secret.
pub create_token_lem :
    (t : Token) (ts ts' : List Token)
    → is_unique ts ≡ true
    → create_token t ts ≡ ok ts'
    → (is_unique ts' ≡ true) × (get_token t.secret ts' ≡ ok t)
unfolding create_token get_token with_secret
create_token_lem t ts ts' u h = (
  ground (arith, is_unique-snoc ts t),
  ground (
    arith,
    with_secret-append t.secret ts (t ∷ []),
    with_secret_none t.secret ts,
    str_eq_refl t.secret,
  ),
)
