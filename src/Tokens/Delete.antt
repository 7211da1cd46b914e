-- ===== src/Tokens/Delete.antt =====
-- cluster/token_records.go: what is left when tokens are deleted.
use mathlib.Core.List.{append_assoc}
use microcluster.Prelude.{
  ℕ, Str, str_eq, str_eq_refl, str_eq_iff, ◌≡◌, refl, ap, sym, ◌∙◌, Bool-cases, inl, inr, true,
  false, List, [], ◌∷◌, ◌++◌, ok, err, arith, if◌then◌else◌,
}
use microcluster.Tokens.{
  Token, not_found, name_taken, token_exists, with_secret, get_token, delete_where, delete_token,
  expired, delete_each, delete_expired, only,
}
use microcluster.Tokens.Unique.{
  is_unique, name_taken-append, token_exists-append, with_secret-append, with_secret_none,
}

delete_where_none :
    (k : Str) (ts : List Token) → name_taken k ts ≡ false → delete_where k ts ≡ (ts, 0)
unfolding delete_where name_taken
delete_where_none k [] h = refl
delete_where_none k (t ∷ ts) h = ground (arith, delete_where_none k ts)

delete_where_middle :
    (pre post : List Token) (t : Token)
    → is_unique (pre ++ t ∷ post) ≡ true
    → delete_where t.name (pre ++ t ∷ post) ≡ (pre ++ post, 1)
unfolding delete_where name_taken
delete_where_middle [] post t u = ground (arith, delete_where_none t.name post, str_eq_refl t.name)
delete_where_middle (p ∷ pre) post t u = ground (
  arith,
  delete_where_middle pre post t,
  name_taken-append p.name pre (t ∷ post),
  str_eq_iff t.name p.name,
  str_eq_iff p.name t.name,
)

is_unique_middle :
    (pre post : List Token) (t : Token)
    → is_unique (pre ++ t ∷ post) ≡ true
    → is_unique (pre ++ post) ≡ true
unfolding name_taken token_exists
is_unique_middle [] post t u = ground arith
is_unique_middle (p ∷ pre) post t u = ground (
  arith,
  is_unique_middle pre post t,
  name_taken-append p.name pre (t ∷ post),
  name_taken-append p.name pre post,
  token_exists-append p.secret pre (t ∷ post),
  token_exists-append p.secret pre post,
)

delete_token_middle :
    (pre post : List Token) (t : Token)
    → is_unique (pre ++ t ∷ post) ≡ true
    → delete_token t.name (pre ++ t ∷ post) ≡ ok (pre ++ post)
unfolding delete_token
delete_token_middle pre post t u = rw (delete_where_middle pre post t u)

-- The tokens that have not expired.
unfoldable pub live : ℕ → List Token → List Token
live now [] = []
live now (t ∷ ts) = let rest = live now ts in if expired now t then rest else t ∷ rest

delete_each_lem :
    (now : ℕ) (read pre : List Token)
    → is_unique (pre ++ read) ≡ true
    → delete_each now read (pre ++ read) ≡ ok (pre ++ live now read)
unfolding delete_each live
delete_each_lem now [] pre u = refl
delete_each_lem now (t ∷ read) pre u = elim (Bool-cases (expired now t)) [
  | inl old ↦
      rw (old, delete_token_middle pre read t u)
        (delete_each_lem now read pre (is_unique_middle pre read t u))
  | inr fresh ↦
      rw (fresh, ← append_assoc pre (t ∷ []) read, ← append_assoc pre (t ∷ []) (live now read))
        (delete_each_lem now read (pre ++ t ∷ []) (rw append_assoc u))
]

-- Where no two tokens have the same name or secret, `DeleteExpiredCoreTokenRecords` succeeds, and
-- leaves exactly the tokens that have not expired.
pub delete_expired_lem :
    (now : ℕ) (ts : List Token) → is_unique ts ≡ true → delete_expired now ts ≡ ok (live now ts)
unfolding delete_expired
delete_expired_lem now ts u = delete_each_lem now ts [] u

only_first : (x : Token) (xs : List Token) (t : Token) → only (x ∷ xs) ≡ ok t → x ≡ t
unfolding only
only_first x [] t h = cc
only_first x (y ∷ xs) t h = cc

secret_once :
    (pre post : List Token) (t : Token)
    → is_unique (pre ++ t ∷ post) ≡ true
    → (token_exists t.secret pre ≡ false) × (token_exists t.secret post ≡ false)
unfolding token_exists
secret_once [] post t u = (refl, ground arith)
secret_once (p ∷ pre) post t u = ground (
  arith,
  secret_once pre post t,
  token_exists-append p.secret pre (t ∷ post),
  str_eq_iff t.secret p.secret,
  str_eq_iff p.secret t.secret,
)

split_at :
    (k : Str) (ts : List Token) (t : Token)
    → get_token k ts ≡ ok t
    → (pre : List Token) × (post : List Token) × (ts ≡ pre ++ t ∷ post) × (t.secret ≡ k)
unfolding get_token with_secret
split_at k [] t h = ground arith
split_at k (x ∷ ts) t h = elim (Bool-cases (str_eq x.secret k)) [
  | inl here ↦
      let same : x ≡ t = only_first x (with_secret k ts) t (rw here at h) in
      (
        [],
        ts,
        ap (λ y. y ∷ ts) same,
        ap (λ y. y.secret) (sym same) ∙ (str_eq_iff x.secret k).0 here,
      )
  | inr later ↦
      let (pre, post, parts, key) = split_at k ts t (rw later at h) in
      (x ∷ pre, post, ap (λ l. x ∷ l) parts, key)
]

get_token_other :
    (j : Str) (pre post : List Token) (t : Token)
    → str_eq j t.secret ≡ false
    → get_token j (pre ++ post) ≡ get_token j (pre ++ t ∷ post)
unfolding get_token with_secret
get_token_other j pre post t h = ground (
  arith,
  with_secret-append j pre post,
  with_secret-append j pre (t ∷ post),
  str_eq_iff j t.secret,
  str_eq_iff t.secret j,
)

-- The token found under a secret is deleted by its name, and then there is none under the secret,
-- while what is found under any other secret is unchanged.
pub delete_token_consumes :
    (k : Str) (ts : List Token) (t : Token)
    → is_unique ts ≡ true
    → get_token k ts ≡ ok t
    → (ts' : List Token) × (delete_token t.name ts ≡ ok ts')
      × (get_token k ts' ≡ err not_found)
      × (is_unique ts' ≡ true)
      × ((j : Str) → (str_eq j k ≡ false) → get_token j ts' ≡ get_token j ts)
unfolding get_token
delete_token_consumes k ts t u h =
    let (pre, post, parts, key) = split_at k ts t h in
    let u' : is_unique (pre ++ t ∷ post) ≡ true = rw parts at u in
    let (before, after) = secret_once pre post t u' in
    (
      pre ++ post,
      rw parts (delete_token_middle pre post t u'),
      rw (
        ← key,
        with_secret-append t.secret pre post,
        with_secret_none t.secret pre before,
        with_secret_none t.secret post after,
      ),
      is_unique_middle pre post t u',
      λ j other. rw parts (get_token_other j pre post t (rw (← key) at other)),
    )
