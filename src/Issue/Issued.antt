-- ===== src/Issue/Issued.antt =====
-- internal/rest/resources/tokens.go: what the handlers leave in the table of tokens, and that a
-- token that was issued admits a member.
use microcluster.Prelude.{
  ℕ, Str, ◌≡◌, refl, inl, inr, true, false, some, List, [], ◌∷◌, ◌++◌, map, ok, err, >>=-eq-ok,
  Bool-cases, Option-cases, ◌∙◌, Result-cases, arith, if◌then◌else◌,
}
use microcluster.Tokens
use microcluster.Tokens.{
  Token, get_token, create_token, token_exists, name_taken, expired, delete_token,
}
use microcluster.Tokens.Unique.{is_unique, create_token_lem}
use microcluster.Tokens.Delete.{live, delete_expired_lem}
use microcluster.Issue.{
  Env, State, Request, Listed, prepare, issue, new_token, tokens_post, to_api, list_tokens,
  tokens_get, or_err, no_certificate, addresses,
}

-- Where no two tokens have the same name or secret, the transaction of `tokensPost` fails exactly
-- when a token that has not expired has the secret or the name, and otherwise leaves the tokens that
-- have not expired with the new one behind them.
issue_lem :
    (now : ℕ) (t : Token) (ts : List Token)
    → is_unique ts ≡ true
    → issue now t ts ≡ (
        if token_exists t.secret (live now ts)
        then err Tokens.conflict
        else if name_taken t.name (live now ts)
        then err Tokens.constraint
        else ok (live now ts ++ t ∷ []))
unfolding issue create_token
issue_lem now t ts u = rw (delete_expired_lem now ts u) (ground arith)

name_taken-live :
    (k : Str) (now : ℕ) (ts : List Token)
    → name_taken k ts ≡ false
    → name_taken k (live now ts) ≡ false
unfolding name_taken live
name_taken-live k now [] h = refl
name_taken-live k now (t ∷ ts) h = ground (arith, name_taken-live k now ts)

token_exists-live :
    (k : Str) (now : ℕ) (ts : List Token)
    → token_exists k ts ≡ false
    → token_exists k (live now ts) ≡ false
unfolding token_exists live
token_exists-live k now [] h = refl
token_exists-live k now (t ∷ ts) h = ground (arith, token_exists-live k now ts)

is_unique-live : (now : ℕ) (ts : List Token) → is_unique ts ≡ true → is_unique (live now ts) ≡ true
unfolding live name_taken token_exists
is_unique-live now [] u = refl
is_unique-live now (t ∷ ts) u =
    ground (
      arith,
      is_unique-live now ts,
      name_taken-live t.name now ts,
      token_exists-live t.secret now ts,
    )

prepare-ok :
    (env : Env) (s : State) (req : Request) (secret written : Str)
    → prepare env s ≡ ok (req, secret, written)
    → (env.request ≡ some req) × (env.secret ≡ some secret)
unfolding prepare
prepare-ok env s req secret written h = elim (Option-cases env.request) [
  | inl p ↦ absurd (ground arith)
  | inr (r, p) ↦ elim (Option-cases env.secret) [
    | inl q ↦ absurd (ground arith)
    | inr (k, q) ↦ ground arith
  ]
]

issue-ok :
    (now : ℕ) (t : Token) (ts ts' : List Token)
    → is_unique ts ≡ true
    → issue now t ts ≡ ok ts'
    → (ts' ≡ live now ts ++ t ∷ []) × (is_unique ts' ≡ true) × (get_token t.secret ts' ≡ ok t)
unfolding issue
issue-ok now t ts ts' u h =
    let created : create_token t (live now ts) ≡ ok ts' = rw (delete_expired_lem now ts u) at h in
    let (unique, found) = create_token_lem t (live now ts) ts' (is_unique-live now ts u) created in
    (ground (arith, issue_lem now t ts u), unique, found)

-- Where no two tokens have the same name or secret, a `tokensPost` that succeeds was asked for a
-- token and has a secret for it; it leaves the tokens that have not expired with the new one behind
-- them, still no two have the same name or secret, and the new one is found under its secret.
pub tokens_post_issues :
    (env : Env) (s s' : State) (written : Str)
    → is_unique s.tokens ≡ true
    → tokens_post env s ≡ (s', ok written)
    → (req : Request) × (secret : Str) × (env.request ≡ some req)
      × (env.secret ≡ some secret)
      × (s'.tokens ≡ live env.now s.tokens ++ new_token env req secret ∷ [])
      × (is_unique s'.tokens ≡ true)
      × (get_token secret s'.tokens ≡ ok (new_token env req secret))
unfolding tokens_post new_token
tokens_post_issues env s s' written u h = elim (Result-cases (prepare env s)) [
  | inr (e, p) ↦ absurd (ground arith)
  | inl ((req, secret, w), p) ↦
      elim (Result-cases (issue env.now (new_token env req secret) s.tokens)) [
        | inr (e, q) ↦ absurd (ground arith)
        | inl (ts, q) ↦
            let (asked, random) = prepare-ok env s req secret w p in
            let (left, unique, found) =
              issue-ok env.now (new_token env req secret) s.tokens ts u q in
            let now : s'.tokens ≡ ts = ground arith in
            (req, secret, asked, random, now ∙ left, rw now unique, rw now found)
      ]
]

names-list_tokens :
    (env : Env) (f : Str) (joins : List Str) (ts : List Token) (l : List Listed)
    → list_tokens env f joins ts ≡ ok l
    → map (λ x. x.name) l ≡ map (λ t. t.name) (live env.now ts)
unfolding list_tokens live to_api
names-list_tokens env f joins [] l h = ground arith
names-list_tokens env f joins (t ∷ ts) l h = elim (Bool-cases (expired env.now t)) [
  | inl old ↦ ground (arith, names-list_tokens env f joins ts l)
  | inr fresh ↦ elim (Result-cases (list_tokens env f joins ts)) [
    | inr (e, q) ↦ absurd (ground arith)
    | inl (more, q) ↦ ground (arith, names-list_tokens env f joins ts more q)
  ]
]

-- A `tokensGet` that succeeds lists the tokens that have not expired, and no other, by their names.
tokens_get_lists :
    (env : Env) (s : State) (l : List Listed)
    → tokens_get env s ≡ ok l
    → map (λ x. x.name) l ≡ map (λ t. t.name) (live env.now s.tokens)
unfolding tokens_get
tokens_get_lists env s l h =
    let (f, p, made) = >>=-eq-ok (or_err no_certificate env.fingerprint) _ h in
    names-list_tokens env f (map (λ p. p.1) (addresses s.remotes [])) s.tokens l made
