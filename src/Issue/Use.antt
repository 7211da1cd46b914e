-- ===== src/Issue/Use.antt =====
-- internal/rest/resources/tokens.go with internal/rest/resources/cluster.go: a token that was issued
-- admits the member that it was issued for.
use microcluster.Prelude.{Str, ◌≡◌, ap, ◌∙◌, true, false, some, List, ok, err, arith}
use microcluster.Members.{Member, create_member}
use microcluster.Tokens
use microcluster.Tokens.{Token, get_token, expired, delete_token}
use microcluster.Tokens.Unique.{is_unique}
use microcluster.Tokens.Delete.{delete_token_consumes}
use microcluster.Join
use microcluster.Join.{Db, admit, new_member}
use microcluster.Issue.{Env, State, Request, new_token, tokens_post}
use microcluster.Issue.Issued.{tokens_post_issues}

admit-ok :
    (env : Join.Env) (req : Join.Request) (db : Db) (cert : Str) (t : Token) (members : List Member)
    (tokens : List Token)
    → get_token req.secret db.tokens ≡ ok t
    → expired env.now t ≡ false
    → req.certificate ≡ some cert
    → env.in_slice t.name req.dns_names ≡ true
    → create_member (new_member env req) db.members ≡ ok members
    → delete_token t.name db.tokens ≡ ok tokens
    → admit env req db ≡ ok (record { tokens = tokens; members = members })
unfolding admit
admit-ok env req db cert t members tokens g e c n m d = ground arith

-- Where no two tokens have the same name or secret, after a `tokensPost` that succeeds the
-- transaction of `clusterPost` admits a request that has the new token's secret and a certificate
-- with the new token's name, as long as the token has not expired and the member can be created;
-- afterwards the secret is found no more.
pub issued_admits :
    (env : Env) (s s' : State) (written : Str) (asked : Request) (secret : Str) (join : Join.Env)
    (req : Join.Request) (cert : Str) (members members' : List Member)
    → is_unique s.tokens ≡ true
    → tokens_post env s ≡ (s', ok written)
    → env.request ≡ some asked
    → env.secret ≡ some secret
    → req.secret ≡ secret
    → req.certificate ≡ some cert
    → join.in_slice asked.name req.dns_names ≡ true
    → expired join.now (new_token env asked secret) ≡ false
    → create_member (new_member join req) members ≡ ok members'
    → (tokens : List Token) × (admit join req (record { tokens = s'.tokens; members = members })
        ≡ ok (record { tokens = tokens; members = members' }))
      × (get_token secret tokens ≡ err Tokens.not_found)
unfolding new_token
issued_admits env s s' written asked secret join req cert members members' u h p q k c n e m =
    let (asked', secret', p', q', left, unique, found) = tokens_post_issues env s s' written u h in
    let same_request : asked' ≡ asked = cc (p, p') in
    let same_secret : secret' ≡ secret = cc (q, q') in
    let t = new_token env asked secret in
    let here : get_token secret s'.tokens ≡ ok t = cc (found, same_request, same_secret) in
    let (tokens, deleted, gone, still, others) =
      delete_token_consumes secret s'.tokens t unique here in
    let there : get_token req.secret s'.tokens ≡ ok t = ap (λ x. get_token x s'.tokens) k ∙ here in
    (
      tokens,
      admit-ok join req (record { tokens = s'.tokens; members = members }) cert t members' tokens
          there e c n m deleted,
      gone,
    )
