-- ===== src/Join/Effects.antt =====
-- internal/rest/resources/cluster.go: what `clusterPost` does to the member's state.
use microcluster.Prelude.{
  Str, str_eq, str_eq_iff, ◌≡◌, ◌⊎◌, refl, ap, sym, subst, ◌∙◌, inl, inr, Result-cases,
  Option-cases, Bool-cases, true, false, none, some, [], ◌∷◌, ok, lookup, has_key, arith,
}
use microcluster.Extensions.{is_same_version}
use microcluster.Extensions.Versions.{is_same_version_iff}
use microcluster.Trust.{Yaml, add, IsOnDisk}
use microcluster.Trust.Writes.{add-IsOnDisk, add_each_added}
use microcluster.Join.{
  Request, Response, State, Env, admit, welcome, lead, receive, cluster_post, remote_of,
  remote_by_address,
}

module _ (y : Yaml) (env : Env) where
  db-welcome : (req : Request) (s : State) → (welcome y env req s).0.db ≡ s.db
  unfolding welcome
  db-welcome req s = ground arith

  remotes-welcome :
      (req : Request) (s : State)
      → ((welcome y env req s).0.remotes ≡ s.remotes)
        ⊎ ((welcome y env req s).0.remotes ≡ (add y s.remotes (remote_of req ∷ [])).0)
  unfolding welcome
  remotes-welcome req s = ground arith

  welcome-ok :
      (req : Request) (s : State) (r : Response)
      → (welcome y env req s).1 ≡ ok r
      → ((add y s.remotes (remote_of req ∷ [])).1 ≡ none)
        × ((welcome y env req s).0.remotes ≡ (add y s.remotes (remote_of req ∷ [])).0)
  unfolding welcome
  welcome-ok req s r h = ground arith

  db-lead :
      (req : Request) (s : State)
      → ((lead y env req s).0.db ≡ s.db) ⊎ (admit env req s.db ≡ ok (lead y env req s).0.db)
  unfolding lead
  db-lead req s = elim (Result-cases (admit env req s.db)) [
    | inr (e, p) ↦ inl (ground arith)
    | inl (db, p) ↦ ground (arith, db-welcome req (record s { db = db }))
  ]

  -- Where the leader replies with a success, the member had the same extensions in the same order;
  -- it was admitted by the transaction, and its remote, whose name was not trusted before, is in the
  -- trust store.
  lead-ok :
      (req : Request) (s : State) (r : Response)
      → (lead y env req s).1 ≡ ok r
      → (s.extensions ≡ req.extensions)
        × (admit env req s.db ≡ ok (lead y env req s).0.db)
        × (has_key req.name s.remotes.content ≡ false)
        × (lookup req.name (lead y env req s).0.remotes.content ≡ some (remote_of req))
  unfolding lead remote_of
  lead-ok req s r h = elim (Result-cases (admit env req s.db)) [
    | inr (e, p) ↦ absurd (ground arith)
    | inl (db, p) ↦
        let s₁ = record s { db = db } in
        let same : is_same_version s.extensions req.extensions ≡ ok tt = ground arith in
        let on : lead y env req s ≡ welcome y env req s₁ = ground arith in
        let (added, now) = welcome-ok req s₁ r (rw on at h) in
        let (trusted, fresh) = (add_each_added y (remote_of req ∷ []) s.remotes added).0 in
        (
          (is_same_version_iff s.extensions req.extensions).0 same,
          cc (p, on, db-welcome req s₁),
          fresh,
          cc (trusted, now, on),
        )
  ]

  IsOnDisk-lead :
      (req : Request) (s : State)
      → IsOnDisk y s.remotes.dir s.remotes.content
      → IsOnDisk y (lead y env req s).0.remotes.dir (lead y env req s).0.remotes.content
  unfolding lead
  IsOnDisk-lead req s h = elim (Result-cases (is_same_version s.extensions req.extensions)) [
    | inr (e, p) ↦ rw (p, lead) h
    | inl (u, same) ↦ elim (Result-cases (admit env req s.db)) [
      | inr (e, p) ↦ rw (same, p, lead) h
      | inl (db, p) ↦
          let s₁ = record s { db = db } in
          let on : (lead y env req s).0.remotes ≡ (welcome y env req s₁).0.remotes = ground arith in
          elim (remotes-welcome req s₁) [
            | inl kept ↦ subst (λ t. IsOnDisk y t.dir t.content) (sym (on ∙ kept)) h
            | inr added ↦
                subst (λ t. IsOnDisk y t.dir t.content) (sym (on ∙ added))
                  (add-IsOnDisk y (remote_of req ∷ []) s.remotes h)
          ]
    ]
  ]

  -- `clusterPost` keeps the trust store's map in memory in step with its files, on every branch.
  pub IsOnDisk-cluster_post :
      (s : State)
      → IsOnDisk y s.remotes.dir s.remotes.content
      → IsOnDisk y (cluster_post y env s).0.remotes.dir (cluster_post y env s).0.remotes.content
  unfolding cluster_post
  IsOnDisk-cluster_post s h = elim (Result-cases (receive env s)) [
    | inr (e, p) ↦ rw (p, cluster_post) h
    | inl ((req, leader), p) ↦ elim (Bool-cases (str_eq leader s.address)) [
      | inr other ↦ rw (p, cluster_post) (rw other h)
      | inl own ↦ rw (p, cluster_post) (rw own (IsOnDisk-lead req s h))
    ]
  ]

  receive-ok :
      (s : State) (req : Request) (leader : Str)
      → receive env s ≡ ok (req, leader)
      → (env.request ≡ some req)
        × (env.leader_address ≡ some leader)
        × (s.is_open ≡ true)
        × (remote_by_address req.address s.remotes.content ≡ none)
  unfolding receive
  receive-ok s req leader h = elim (Option-cases env.request) [
    | inl p ↦ absurd (ground arith)
    | inr (req', p) ↦ elim (Option-cases env.leader_address) [
      | inl q ↦ absurd (ground arith)
      | inr (a, q) ↦ ground arith
    ]
  ]

  -- `clusterPost` changes the tables only by the transaction of an admission, for the request that it
  -- received.
  db-cluster_post :
      (s : State)
      → ((cluster_post y env s).0.db ≡ s.db)
        ⊎ ((req : Request) × (env.request ≡ some req)
            × (admit env req s.db ≡ ok (cluster_post y env s).0.db))
  unfolding cluster_post
  db-cluster_post s = elim (Result-cases (receive env s)) [
    | inr (e, p) ↦ inl (rw (p, cluster_post) refl)
    | inl ((req, leader), p) ↦ elim (Bool-cases (str_eq leader s.address)) [
      | inr other ↦ inl (rw (p, cluster_post) (rw other refl))
      | inl own ↦
          let on : cluster_post y env s ≡ lead y env req s = rw (p, cluster_post) (rw own refl) in
          elim (db-lead req s) [
            | inl same ↦ inl (ap (λ t. t.0.db) on ∙ same)
            | inr done ↦
                inr (req, (receive-ok s req leader p).0, done ∙ ap (λ t. ok t.0.db) (sym on))
          ]
    ]
  ]

  -- Where the member leads and `clusterPost` succeeds, the database was open, no trusted remote had the
  -- address, and the sender had the member's extensions in the same order; it was admitted by the
  -- transaction, and its remote, whose name was not trusted before, is now in the trust store.
  pub cluster_post_admits :
      (s : State) (r : Response)
      → env.leader_address ≡ some s.address
      → (cluster_post y env s).1 ≡ ok r
      → (req : Request) × (env.request ≡ some req)
        × (s.is_open ≡ true)
        × (remote_by_address req.address s.remotes.content ≡ none)
        × (s.extensions ≡ req.extensions)
        × (admit env req s.db ≡ ok (cluster_post y env s).0.db)
        × (has_key req.name s.remotes.content ≡ false)
        × (lookup req.name (cluster_post y env s).0.remotes.content ≡ some (remote_of req))
  unfolding cluster_post
  cluster_post_admits s r own h = elim (Result-cases (receive env s)) [
    | inr (e, p) ↦ absurd (ground arith)
    | inl ((req, leader), p) ↦
        let (asked, known, opened, unused) = receive-ok s req leader p in
        let here : str_eq leader s.address ≡ true =
          (str_eq_iff leader s.address).1 (cc (known, own)) in
        let on : cluster_post y env s ≡ lead y env req s = rw (p, cluster_post) (rw here refl) in
        let (same, admitted, fresh, trusted) = lead-ok req s r (ap (λ t. t.1) (sym on) ∙ h) in
        (
          req,
          asked,
          opened,
          unused,
          same,
          admitted ∙ ap (λ t. ok t.0.db) (sym on),
          fresh,
          cc (trusted, on),
        )
  ]
