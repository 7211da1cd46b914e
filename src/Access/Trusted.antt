-- ===== src/Access/Trusted.antt =====
-- rest/access/handlers.go: which requests `Authenticate` trusts.
use microcluster.Prelude.{
  Str, codes, str_eq, str_eq_iff, ◌≡◌, ◌↔◌, ◌⊎◌, inl, inr, refl, subst, sym, true, false, Option,
  none, some, List, [], ◌∷◌, ok, Elem, Bool-cases, Option-cases, arith,
}
use microcluster.Access.{Request, Listener, any_trusted, check_peers, before_init, authenticate}

-- Some certificate of the request is that of a trusted member.
abbrev pub SomeTrusted : Listener → List Str → Type 0
SomeTrusted l certs = (c : Str) × Elem c certs × (l.check_tls c l.trusted_certs ≡ true)

any_trusted_iff :
    (l : Listener) (certs : List Str) → (any_trusted l certs ≡ true) ↔ SomeTrusted l certs
unfolding any_trusted
any_trusted_iff l [] = (λ h. absurd (ground arith), λ h. absurd h.1)
any_trusted_iff l (c ∷ certs) = elim (Bool-cases (l.check_tls c l.trusted_certs)) [
  | inl here ↦ (λ h. (c, inl refl, here), λ h. rw here refl)
  | inr later ↦ (
    λ h. let (x, there, t) = (any_trusted_iff l certs).0 (rw later at h) in (x, inr there, t),
    λ h.
        let (x, place, t) = h in
        elim place [
          | inl p ↦ absurd (cc (p, t, later))
          | inr there ↦ rw later ((any_trusted_iff l certs).1 (x, there, t))
        ],
  )
]

check_peers_iff :
    (l : Listener) (peers : Option (List Str))
    → (check_peers l peers ≡ true)
      ↔ ((certs : List Str) × (peers ≡ some certs) × SomeTrusted l certs)
unfolding check_peers
check_peers_iff l none = (λ h. absurd (ground arith), λ h. let (certs, p, t) = h in absurd (cc p))
check_peers_iff l (some certs) = (
  λ h. (certs, refl, (any_trusted_iff l certs).0 h),
  λ h.
      let (xs, p, t) = h in (any_trusted_iff l certs).1 (subst (SomeTrusted l) (some_eq (sym p)) t),
)
  where
    some_eq : {a b : List Str} → some a ≡ some b → a ≡ b
    some_eq q = cc q

before_init_iff :
    (l : Listener) → (before_init l ≡ true) ↔ (l.core_fingerprint ≡ some l.server_fingerprint)
unfolding before_init
before_init_iff l = elim (Option-cases l.core_fingerprint) [
  | inl p ↦ ground arith
  | inr (f, p) ↦ ground (arith, str_eq_iff l.server_fingerprint f)
]

authenticate_peers :
    (l : Listener) (r : Request)
    → str_eq r.remote_addr (codes "@") ≡ false
    → before_init l ≡ false
    → (authenticate l r ≡ ok true)
      ↔ ((l.parse l.host_address ≡ some r.host) × (check_peers l r.peers ≡ true))
unfolding authenticate
authenticate_peers l r u b = elim (Option-cases (l.parse l.host_address)) [
  | inl p ↦ ground arith
  | inr (h, p) ↦ ground (arith, str_eq_iff r.host h)
]

-- `Authenticate` trusts a request exactly when it comes over the unix socket, when the core listener
-- has the certificate of the server, or when it is for the daemon's own address, and one of its
-- certificates is trusted.
pub authenticate_iff :
    (l : Listener) (r : Request)
    → (authenticate l r ≡ ok true) ↔ (
        (r.remote_addr ≡ codes "@")
        ⊎ (l.core_fingerprint ≡ some l.server_fingerprint)
        ⊎ ((certs : List Str) × (l.parse l.host_address ≡ some r.host)
            × (r.peers ≡ some certs)
            × SomeTrusted l certs))
unfolding authenticate
authenticate_iff l r = elim (Bool-cases (str_eq r.remote_addr (codes "@"))) [
  | inl unix ↦
      (λ h. inl ((str_eq_iff r.remote_addr (codes "@")).0 unix), λ h. rw (authenticate, unix) refl)
  | inr net ↦ elim (Bool-cases (before_init l)) [
    | inl pre ↦ (λ h. inr (inl ((before_init_iff l).0 pre)), λ h. rw (authenticate, net, pre) refl)
    | inr post ↦ (
      λ h.
          let (host, ok_peers) = (authenticate_peers l r net post).0 h in
          let (certs, p, t) = (check_peers_iff l r.peers).0 ok_peers in
          inr (inr (certs, host, p, t)),
      λ h. elim h [
        | inl u ↦ absurd (cc (net, (str_eq_iff r.remote_addr (codes "@")).1 u))
        | inr (inl q) ↦ absurd (cc (post, (before_init_iff l).1 q))
        | inr (inr (certs, host, p, t)) ↦
            (authenticate_peers l r net post).1 (host, (check_peers_iff l r.peers).1 (certs, p, t))
      ],
    )
  ]
]
