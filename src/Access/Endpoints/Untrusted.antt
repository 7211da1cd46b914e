-- ===== src/Access/Endpoints/Untrusted.antt =====
-- internal/rest/rest.go: a request that is not trusted reaches no handler but those of actions that
-- allow it.
use microcluster.Prelude.{
  codes, str_eq, str_eq_iff, ◌≡◌, ◌≢◌, ◌⊎◌, inl, inr, refl, Bool, true, false, some, [], Result, ok,
  err, Bool-cases, arith,
}
use microcluster.Access.{
  Request, Error, forbidden, not_implemented, bad_host_address, invalid_host, allow_authenticated,
  authenticate, set_authentication,
}
use microcluster.Access.Endpoints.{
  Action, Endpoint, Daemon, Reply, handle_api, handle_database, action_of, handle_method,
  authenticated, finish, reply, handle_endpoint,
}

module _ {S : Type 0} (d : Daemon S) where
  -- Without a trusted request, an action that does not allow untrusted ones runs nothing.
  handle_api-untrusted :
      (a : Action S) (s : S) (r : Request)
      → a.allow_untrusted ≡ false
      → allow_authenticated r ≡ some forbidden
      → ((handle_api d a s r).state ≡ s)
        × ((handle_api d a s r).rendered ≡ [])
        × (((handle_api d a s r).response ≡ forbidden)
            ⊎ ((handle_api d a s r).response ≡ not_implemented))
  unfolding handle_api reply
  handle_api-untrusted a s r u h = ground arith

  handle_database-untrusted :
      (a : Action S) (s : S) (r : Request)
      → allow_authenticated r ≡ some forbidden
      → ((handle_database d a s r).state ≡ s)
        × ((handle_database d a s r).rendered ≡ [])
        × ((handle_database d a s r).response ≡ forbidden)
  unfolding handle_database reply
  handle_database-untrusted a s r h = ground arith

  state-finish : (e : Endpoint S) (p : Reply S) → (finish d e p).0 ≡ p.state
  unfolding finish
  state-finish e p = ground arith

  state-handle_method :
      (e : Endpoint S) (a : Action S) (s : S) (r : Request)
      → allow_authenticated r ≡ some forbidden
      → action_of d e r.method ≡ some a
      → (a.allow_untrusted ≡ false) ⊎ (e.path ≡ codes "database")
      → (handle_method d e s r).state ≡ s
  unfolding handle_method
  state-handle_method e a s r h m u = elim (Bool-cases (str_eq e.path (codes "database"))) [
    | inl database ↦ rw (handle_method, m, database) (handle_database-untrusted a s r h).0
    | inr other ↦ elim u [
      | inl refused ↦ rw (handle_method, m, other) (handle_api-untrusted a s r refused h).0
      | inr p ↦ absurd (cc (other, (str_eq_iff e.path (codes "database")).1 p))
    ]
  ]

  state-authenticated :
      (e : Endpoint S) (a : Action S) (s : S) (r : Request) (t : Result Error Bool)
      → t ≢ ok true
      → action_of d e r.method ≡ some a
      → (a.allow_untrusted ≡ false) ⊎ (e.path ≡ codes "database")
      → (authenticated d e s r t).state ≡ s
  unfolding authenticated reply set_authentication allow_authenticated
  state-authenticated e a s r (ok true) h m u = absurd (h refl)
  state-authenticated e a s r (ok false) h m u =
      state-handle_method e a s (set_authentication r false) refl m u
  state-authenticated e a s r (err invalid_host) h m u =
      state-handle_method e a s (set_authentication r false) refl m u
  state-authenticated e a s r (err bad_host_address) h m u = refl

  -- For a request that is not authenticated, `HandleEndpoint` leaves the state as it was, where the
  -- action of the request's method does not allow untrusted requests or the endpoint is the database.
  pub handle_endpoint-untrusted :
      (e : Endpoint S) (a : Action S) (s : S) (r : Request)
      → authenticate (d.listener s) r ≢ ok true
      → action_of d e r.method ≡ some a
      → (a.allow_untrusted ≡ false) ⊎ (e.path ≡ codes "database")
      → (handle_endpoint d e s r).0 ≡ s
  unfolding handle_endpoint
  handle_endpoint-untrusted e a s r h m u =
      let tried = authenticate (d.listener s) r in
      ground (
        arith,
        state-finish e (authenticated d e s r tried),
        state-authenticated e a s r tried h m u,
      )
