-- ===== src/ApiServer/Retry.antt =====
-- How often a request is sent to a service: client/ttrpc_client.rs of api-server-rest/src.
use guest_components.Prelude.{◌≡◌, refl, Bool, false, List, ◌∷◌, Str, codes, Result, ok, err}
use guest_components.ApiServer.Clients.{
  reconnect_failed, Call, Answer, Services, Session, Peer, attestation_agent, confidential_data_hub,
  peer_of, RpcError, local_closed, other_error, M, ◌>>=◌, pure, lift, is_cached, set_cached, send,
  reconnect,
}

module _ (services : Services) (c : Call) where
  -- The result is the service's answer, or an error if it answered with one.
  abbrev pub IsAnswer : Result RpcError Answer → Result Str Answer → Type 0
  IsAnswer (ok a) r = r ≡ ok a
  IsAnswer (err _) r = (e : Str) × (r ≡ err e)

  -- What became of a request: how often it was sent behind the calls before, and its result.
  pub data IsSent (cached : Bool) (before : List Call) : Session × Result Str Answer → Type 0 where
    not_connected :
        {s : Session} {e : Str}
        → cached ≡ false
        → services.connect before (peer_of c) ≡ err e
        → s.calls ≡ before
        → IsSent cached before (s, err e)
    once :
        {s : Session} {r : Result Str Answer}
        → ¬ (services.answer before c ≡ err local_closed)
        → IsAnswer (services.answer before c) r
        → s.calls ≡ c ∷ before
        → IsSent cached before (s, r)
    not_reconnected :
        {s : Session} {x e : Str}
        → services.answer before c ≡ err local_closed
        → services.connect (c ∷ before) (peer_of c) ≡ err x
        → s.calls ≡ c ∷ before
        → IsSent cached before (s, err e)
    twice :
        {s : Session} {r : Result Str Answer}
        → services.answer before c ≡ err local_closed
        → IsAnswer (services.answer (c ∷ before) c) r
        → s.calls ≡ c ∷ c ∷ before
        → IsSent cached before (s, r)

  is_cached-set_cached :
      (peer : Peer) (b : Bool) (s : Session) → is_cached peer (set_cached peer b s) ≡ b
  is_cached-set_cached attestation_agent b s = refl
  is_cached-set_cached confidential_data_hub b s = refl

  -- A client is there, or none can be made, and no request is sent.
  pub data IsEnsured (s : Session) : Session × Result Str (Unit {0}) → Type 0 where
    ready : {t : Session} → t.calls ≡ s.calls → IsEnsured s (t, ok tt)
    refused :
        {t : Session} {e : Str}
        → is_cached (peer_of c) s ≡ false
        → services.connect s.calls (peer_of c) ≡ err e
        → t.calls ≡ s.calls
        → IsEnsured s (t, err e)

  -- The second time.
  abbrev last : Result RpcError Answer → M Answer
  last r = elim r [
    | ok a ↦ pure a
    | err _ ↦ lift (err (codes "ttrpc request error after reconnect"))
  ]

  abbrev connected : Result Str (Unit {0}) → M Answer
  connected r = elim r [
    | err _ ↦ lift (err (reconnect_failed (peer_of c)))
    | ok _ ↦ send services c >>= last
  ]

  -- The first time.
  abbrev next : Result RpcError Answer → M Answer
  next r = elim r [
    | ok a ↦ pure a
    | err local_closed ↦ reconnect services c
    | err other_error ↦ lift (err (codes "ttrpc request error"))
  ]
