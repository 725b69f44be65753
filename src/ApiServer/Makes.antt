-- ===== src/ApiServer/Makes.antt =====
-- Which calls an action makes.
use guest_components.Prelude.{
  ◌≡◌, refl, inl, inr, codes, Bool-cases, Result-cases, Bool, true, false, Str, Bytes, All,
  if◌then◌else◌, Result, ok, err,
}
use guest_components.ApiServer.Clients.{
  Call, Answer, Services, M, Peer, attestation_agent, confidential_data_hub, peer_of,
  reconnect_failed, RpcError, local_closed, other_error, Session, is_cached, set_cached,
  ensure_client, send, reconnect, resume, ◌>>=◌, pure, lift, attempt, call,
}
use guest_components.ApiServer.Router.{Response, respond}

-- Every call that an action makes satisfies `P`.
module _ (P : Call → Type 0) where
  abbrev pub Makes : {A : Type 0} → M A → Type 0
  Makes m = (s : Session) → All P s.calls → All P (m s).0.calls

  pub Makes-pure : {A : Type 0} (a : A) → Makes (pure a)
  Makes-pure a s h = h

  pub Makes-lift : {A : Type 0} (r : Result Str A) → Makes (lift r)
  Makes-lift r s h = h

  Makes-resume :
      {A B : Type 0} (o : Session × Result Str A) (f : A → M B)
      → All P o.0.calls
      → ((a : A) → Makes (f a))
      → All P (resume o f).0.calls
  Makes-resume (s, ok a) f h g = g a s h
  Makes-resume (s, err e) f h g = h

  pub Makes-bind :
      {A B : Type 0} (m : M A) (f : A → M B) → Makes m → ((a : A) → Makes (f a)) → Makes (m >>= f)
  Makes-bind m f p q s h = Makes-resume (m s) f (p s h) q

  Makes-ensure_client : (services : Services) (peer : Peer) → Makes (ensure_client services peer)
  unfolding ensure_client
  Makes-ensure_client services peer s h = elim (Bool-cases (is_cached peer s)) [
    | inl cached ↦ rw cached h
    | inr missing ↦ elim (Result-cases (services.connect s.calls peer)) [
      | inr (e, refused) ↦ rw (missing, refused) h
      | inl (u, connected) ↦ rw (missing, connected) (same peer)
    ]
  ]
    where
      same : (peer : Peer) → All P (set_cached peer true s).calls
      same attestation_agent = h
      same confidential_data_hub = h

  Makes-send : (services : Services) (c : Call) → P c → Makes (send services c)
  Makes-send services c p s h = (p, h)

  -- An action that may fail.
  Makes-attempt :
      {A B : Type 0} (m : M A) (f : Result Str A → M B)
      → Makes m
      → ((r : Result Str A) → Makes (f r))
      → Makes (attempt m >>= f)
  Makes-attempt m f p q s h = q (m s).1 (m s).0 (p s h)

  Makes-set_cached :
      (peer : Peer) (b : Bool) → Makes {A = Unit {0}} (λ s. (set_cached peer b s, ok tt))
  Makes-set_cached attestation_agent b s h = h
  Makes-set_cached confidential_data_hub b s h = h

  Makes-reconnect : (services : Services) (c : Call) → P c → Makes (reconnect services c)
  unfolding reconnect
  Makes-reconnect services c p =
      Makes-bind (λ s. (set_cached (peer_of c) false s, ok tt))
        (λ u. attempt (ensure_client services (peer_of c)) >>= connected)
        (Makes-set_cached (peer_of c) false)
        (λ u.
          Makes-attempt (ensure_client services (peer_of c)) connected
            (Makes-ensure_client services (peer_of c)) by_client)
    where
      last : Result RpcError Answer → M Answer
      last r = elim r [
        | ok a ↦ pure a
        | err _ ↦ lift (err (codes "ttrpc request error after reconnect"))
      ]

      answered : (r : Result RpcError Answer) → Makes (last r)
      answered (ok a) = λ t g. g
      answered (err e) = λ t g. g

      connected : Result Str (Unit {0}) → M Answer
      connected r = elim r [
        | err _ ↦ lift (err (reconnect_failed (peer_of c)))
        | ok _ ↦ send services c >>= last
      ]

      by_client : (r : Result Str (Unit {0})) → Makes (connected r)
      by_client (err e) = λ t g. g
      by_client (ok u) = Makes-bind (send services c) last (Makes-send services c p) answered

  pub Makes-call : (services : Services) (c : Call) → P c → Makes (call services c)
  unfolding call
  Makes-call services c p =
      Makes-bind (ensure_client services (peer_of c)) (λ u. send services c >>= next)
        (Makes-ensure_client services (peer_of c))
        (λ u. Makes-bind (send services c) next (Makes-send services c p) first)
    where
      next : Result RpcError Answer → M Answer
      next r = elim r [
        | ok a ↦ pure a
        | err local_closed ↦ reconnect services c
        | err other_error ↦ lift (err (codes "ttrpc request error"))
      ]

      first : (r : Result RpcError Answer) → Makes (next r)
      first (ok a) = λ t g. g
      first (err local_closed) = Makes-reconnect services c p
      first (err other_error) = λ t g. g

  Makes-respond : (build : Bytes → Response) (r : Result Str Bytes) → Makes (respond build r)
  Makes-respond build (ok b) s h = h
  Makes-respond build (err e) s h = h

  pub Makes-if :
      {A : Type 0} (b : Bool) (x y : M A)
      → (b ≡ true → Makes x)
      → (b ≡ false → Makes y)
      → Makes (if b then x else y)
  Makes-if true x y p q = p refl
  Makes-if false x y p q = q refl

  -- A client's call that answers the request.
  pub Makes-ask :
      (services : Services) (c : Call) (f : Answer → Bytes) (build : Bytes → Response)
      → P c
      → Makes (attempt (call services c >>= λ a. pure (f a)) >>= respond build)
  Makes-ask services c f build p =
      Makes-attempt (call services c >>= λ a. pure (f a)) (respond build)
        (Makes-bind (call services c) (λ a. pure (f a)) (Makes-call services c p)
          (λ a. Makes-pure (f a)))
        (Makes-respond build)
