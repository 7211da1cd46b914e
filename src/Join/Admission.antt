-- ===== src/Join/Admission.antt =====
-- internal/rest/resources/cluster.go: the transaction that admits a member.
use microcluster.Prelude.{
  Str, str_eq, str_eq_refl, ◌≡◌, refl, ap, inl, inr, Result-cases, true, false, none, List, [], ◌∷◌,
  ◌++◌, ok, err, arith,
}
use microcluster.Members.{Member, member_id, create_member, get_member, with_name}
use microcluster.Tokens
use microcluster.Tokens.{Token, get_token, expired, delete_token}
use microcluster.Tokens.Unique.{is_unique}
use microcluster.Tokens.Delete.{delete_token_consumes}
use microcluster.Join.{Request, Db, Env, token, new_member, admit}

-- What a member needs to be admitted, and what admission does to the tables.
pub record IsAdmitted (env : Env) (req : Request) (db db' : Db) (t : Token) : Type 0 where
  pub found : get_token req.secret db.tokens ≡ ok t
  pub not_expired : expired env.now t ≡ false
  pub named : env.in_slice t.name req.dns_names ≡ true
  pub created : create_member (new_member env req) db.members ≡ ok db'.members
  pub consumed : delete_token t.name db.tokens ≡ ok db'.tokens

-- A member is admitted only with a token that is stored, has not expired and has one of the names in
-- the member's certificate; the token is deleted and the member recorded in one transaction.
admit-IsAdmitted :
    (env : Env) (req : Request) (db db' : Db)
    → admit env req db ≡ ok db'
    → (t : Token) × IsAdmitted env req db db' t
unfolding admit
admit-IsAdmitted env req db db' h = elim (Result-cases (get_token req.secret db.tokens)) [
  | inr (e, p) ↦ absurd (ground arith)
  | inl (t, p) ↦ (
    t,
    record {
      found = p;
      not_expired = ground arith;
      named = ground arith;
      created = ground arith;
      consumed = ground arith;
    },
  )
]

with_name-none : (k : Str) (ms : List Member) → member_id k ms ≡ none → with_name k ms ≡ []
unfolding member_id with_name
with_name-none k [] h = refl
with_name-none k (m ∷ ms) h = ground (arith, with_name-none k ms)

with_name-append :
    (k : Str) (xs ys : List Member) → with_name k (xs ++ ys) ≡ with_name k xs ++ with_name k ys
unfolding with_name
with_name-append k [] ys = refl
with_name-append k (x ∷ xs) ys = ground (arith, with_name-append k xs ys)

-- A member that is created is the one found under its name.
pub get-create_member :
    (m : Member) (ms ms' : List Member) → create_member m ms ≡ ok ms' → get_member m.name ms' ≡ ok m
unfolding create_member get_member with_name
get-create_member m ms ms' h =
    ground
      (arith, with_name-append m.name ms (m ∷ []), with_name-none m.name ms, str_eq_refl m.name)

-- After an admission the member is found under its name, as pending, with the versions and
-- extensions that it sent; no token is found under its secret, and every other token is found as
-- before.
admit_effect :
    (env : Env) (req : Request) (db db' : Db)
    → is_unique db.tokens ≡ true
    → admit env req db ≡ ok db'
    → (get_member req.name db'.members ≡ ok (new_member env req))
      × (get_token req.secret db'.tokens ≡ err Tokens.not_found)
      × (is_unique db'.tokens ≡ true)
      × ((k : Str) → str_eq k req.secret ≡ false → get_token k db'.tokens ≡ get_token k db.tokens)
unfolding new_member
admit_effect env req db db' u h =
    let (t, a) = admit-IsAdmitted env req db db' h in
    let (ts, gone, absent, still, others) =
      delete_token_consumes req.secret db.tokens t u a.found in
    let same : db'.tokens ≡ ts = cc (a.consumed, gone) in
    (
      get-create_member (new_member env req) db.members db'.members a.created,
      rw same absent,
      rw same still,
      λ k other. rw same (others k other),
    )

-- A secret admits one member: on the tables that an admission leaves, any request with the same secret
-- is refused, as its token is not found. (No two tokens have the same name or secret.)
pub admit_once :
    (env env' : Env) (req req' : Request) (db db' : Db)
    → is_unique db.tokens ≡ true
    → admit env req db ≡ ok db'
    → req'.secret ≡ req.secret
    → admit env' req' db' ≡ err (token Tokens.not_found)
unfolding admit
admit_once env env' req req' db db' u h same =
    let (recorded, gone, still, others) = admit_effect env req db db' u h in
    ground (arith, gone, ap (λ k. get_token k db'.tokens) same)
