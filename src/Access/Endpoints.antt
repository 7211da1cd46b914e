-- ===== src/Access/Endpoints.antt =====
-- internal/rest/rest.go: how a request reaches the handler of an endpoint. A handler returns the
-- daemon's state beside its response, and what was rendered is a list.
pub mod Untrusted
use microcluster.Prelude.{
  Str, codes, str_eq, Bool, true, false, not, ◌||◌, ◌&&◌, Option, none, some, List, [], ◌∷◌, ◌++◌,
  Result, ok, err, if◌then◌else◌,
}
use microcluster.Members.{Member, get_member}
use microcluster.Access.{
  Request, Response, not_implemented, forbidden, not_found, bad_request, unavailable,
  internal_error, smart_error, empty_sync, sync, Error, bad_host_address, invalid_host, Listener,
  allow_authenticated, authenticate, set_authentication,
}

-- `EndpointAction`. An access handler says whether the request is trusted, and may have a response.
pub record Action (S : Type 0) : Type 0 where
  pub handler : Option (S → Request → S × Response)
  pub access_handler : Option (S → Request → S × Bool × Option Response)
  pub allow_untrusted : Bool
  pub proxy_target : Bool

-- `Endpoint`
pub record Endpoint (S : Type 0) : Type 0 where
  pub path : Str
  pub get : Action S
  pub put : Action S
  pub post : Action S
  pub delete : Action S
  pub patch : Action S
  pub allowed_during_shutdown : Bool
  pub allowed_before_init : Bool

-- The daemon, and what the requests need of the packages outside the repository: the reply of another
-- member (`send`, none where there is no client or the request fails), whether a response can be
-- rendered, whether the connection can be hijacked, and what dqlite does with it.
pub record Daemon (S : Type 0) : Type 0 where
  pub name : S → Str
  pub members : S → List Member
  pub has_cluster_cert : S → Bool
  pub shutting_down : S → Bool
  pub is_open : S → Bool
  pub listener : S → Listener
  pub connects : Str → Bool
  pub send : Str → Request → Option Str
  pub renders : Response → Bool
  pub hijacks : Bool
  pub accept : S → S

-- What was rendered on the way, and the response that is returned.
pub record Reply (S : Type 0) : Type 0 where
  pub state : S
  pub rendered : List Response
  pub response : Response

module _ {S : Type 0} (d : Daemon S) where
  -- `proxyTarget`, for an action with the given handler.
  unfoldable pub proxy_target : (S → Request → S × Response) → S → Request → S × Response
  proxy_target run s r =
      if not r.has_url || (str_eq r.target [] || str_eq r.target (d.name s))
      then run s r
      else (elim (get_member r.target (d.members s)) [
        | err e ↦ (s, bad_request)
        | ok m ↦
            if not (d.has_cluster_cert s) || not (d.connects m.address)
            then (s, internal_error)
            else (elim (d.send m.address r) [
              | none ↦ (s, smart_error)
              | some body ↦ (s, sync body)
            ])
      ])

  reply : List Response → S × Response → Reply S
  reply rendered (s, resp) = record { state = s; rendered = rendered; response = resp }

  dispatch : Bool → (S → Request → S × Response) → S → Request → List Response → Reply S
  dispatch proxied run s r rendered =
      if proxied then reply rendered (proxy_target run s r) else reply rendered (run s r)

  -- An access handler that refuses without a response forbids.
  refusal : Option Response → Response
  refusal none = forbidden
  refusal (some resp) = resp

  admitted : Bool → (S → Request → S × Response) → Request → S × Bool × Option Response → Reply S
  admitted proxied run r (s, trusted, resp) =
      if not trusted then reply [] (s, refusal resp) else (elim resp [
        | none ↦ dispatch proxied run s r []
        | some x ↦
            if d.renders x then dispatch proxied run s r (x ∷ []) else reply [] (s, internal_error)
      ])

  after_trust : Action S → (S → Request → S × Response) → S → Request → Reply S
  after_trust a run s r = elim a.access_handler [
    | none ↦ dispatch a.proxy_target run s r []
    | some check ↦ admitted a.proxy_target run r (check s r)
  ]

  -- `handleAPIRequest`
  unfoldable pub handle_api : Action S → S → Request → Reply S
  unfolding reply dispatch refusal admitted after_trust
  handle_api a s r = elim a.handler [
    | none ↦ reply [] (s, not_implemented)
    | some run ↦
        if a.allow_untrusted then after_trust a run s r else (elim (allow_authenticated r) [
          | some resp ↦ reply [] (s, resp)
          | none ↦ after_trust a run s r
        ])
  ]

  hijack : Request → S × Response → S × Response
  hijack r (s, resp) = elim resp [
    | empty_sync ↦
        if str_eq r.method (codes "POST")
        then (if d.hijacks then (d.accept s, empty_sync) else (s, internal_error))
        else (s, empty_sync)
    | other ↦ (s, other)
  ]

  -- `handleDatabaseRequest`
  unfoldable pub handle_database : Action S → S → Request → Reply S
  unfolding reply hijack
  handle_database a s r = elim (allow_authenticated r) [
    | some resp ↦ reply [] (s, resp)
    | none ↦ elim a.handler [
      | none ↦ reply [] (s, not_implemented)
      | some run ↦ reply [] (hijack r (run s r))
    ]
  ]

  -- The action of the request's method.
  unfoldable pub action_of : Endpoint S → Str → Option (Action S)
  action_of e m =
      if str_eq m (codes "GET")
      then some e.get
      else if str_eq m (codes "PUT")
      then some e.put
      else if str_eq m (codes "POST")
      then some e.post
      else if str_eq m (codes "DELETE")
      then some e.delete
      else if str_eq m (codes "PATCH")
      then some e.patch
      else none

  handle_method : Endpoint S → S → Request → Reply S
  handle_method e s r = elim (action_of e r.method) [
    | none ↦ reply [] (s, not_found)
    | some a ↦ if str_eq e.path (codes "database") then handle_database a s r else handle_api a s r
  ]

  -- An invalid host goes on, as a request that is not trusted.
  authenticated : Endpoint S → S → Request → Result Error Bool → Reply S
  authenticated e s r (ok t) = handle_method e s (set_authentication r t)
  authenticated e s r (err invalid_host) = handle_method e s (set_authentication r false)
  authenticated e s r (err bad_host_address) = reply [] (s, forbidden)

  rendered_as : Response → List Response
  rendered_as resp = if d.renders resp then resp ∷ [] else internal_error ∷ []

  -- A hijacked connection is not written to.
  finish : Endpoint S → Reply S → S × List Response
  finish e p = elim p.response [
    | empty_sync ↦
        if str_eq e.path (codes "database")
        then (p.state, p.rendered)
        else (p.state, p.rendered ++ rendered_as empty_sync)
    | other ↦ (p.state, p.rendered ++ rendered_as other)
  ]

  -- The function that `HandleEndpoint` registers.
  unfoldable pub handle_endpoint : Endpoint S → S → Request → S × List Response
  unfolding handle_method authenticated finish rendered_as reply
  handle_endpoint e s r =
      if d.shutting_down s && not e.allowed_during_shutdown
      then (s, unavailable ∷ [])
      else if not e.allowed_before_init && not (d.is_open s)
      then (s, smart_error ∷ [])
      else finish e (authenticated e s r (authenticate (d.listener s) r))
