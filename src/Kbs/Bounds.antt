-- ===== src/Kbs/Bounds.antt =====
-- How often a client that wants a token or a resource asks for them: both clients.
use guest_components.Prelude.{
  ℕ, if◌then◌else◌, true, false, zero, suc, ◌+◌, ◌≤◌, Option, none, some, Str, Bytes, arith, Result,
  ok, err,
}
use guest_components.Kbs.Token.{Token, TokenError, check_valid}
use guest_components.Kbs.Client.{
  Error, Answer, Outside, KbsClient, Op, after, ◌>>◌, pure, throw, need, call, readable,
  open_response, remote_url, Status, status_ok, unauthorized, not_found, another, get_resource_at,
  provide_token, http_error, un_authorized, kbs_internal_error, resource_not_found,
  get_token_failed, kbs_response_deserialization_failed, decrypt_response_failed,
}
use guest_components.Kbs.Rcar.{
  handshake, try_handshake, repeat_rcar_handshake, try_resource, get_token, token_and_key,
}
use guest_components.Kbs.Rcar
use guest_components.Kbs.Bearer.{bearer, update_token, ensure_token, try_with_token}
use guest_components.Kbs.Bearer
use guest_components.Kbs.Resources.{by_status}
use guest_components.Kbs.Requests.{
  attestations, requests, Adds, Adds-more, Adds-after, Adds-need, Adds-call, Adds-pure,
  Adds-handshake,
}

module _ {Key : Type 0} (out : Outside Key) where
  Adds-within :
      {A B : Type 0} (n k m l x y : ℕ) (self : KbsClient Key) (r : KbsClient Key × Result Error A)
      (rest : A → Op Key B)
      → Adds n k self r
      → ((a : A) (done : KbsClient Key) → Adds m l done (rest a done))
      → n + m ≤ x
      → k + l ≤ y
      → Adds x y self (after r rest)
  Adds-within n k m l x y self r rest h later =
      Adds-more (n + m) (k + l) x y self (after r rest) (Adds-after n k m l self r rest h later)

  Adds-try_handshake :
      (more : ℕ) (self : KbsClient Key) → Adds (suc more) 0 self (try_handshake out more self)
  unfolding try_handshake
  Adds-try_handshake zero self = Adds-handshake out self
  Adds-try_handshake (suc more) self =
      again (handshake out self) (Adds-handshake out self)
        (Adds-try_handshake more (handshake out self).0)
    where
      again :
          (r : KbsClient Key × Result Error (Unit {0}))
          → Adds 1 0 self r
          → Adds (suc more) 0 r.0 (try_handshake out more r.0)
          → Adds {A = Unit {0}}
              (suc (suc more))
              0
              self
              (elim r.1 [ ok _ ↦ (r.0, ok tt) | err e ↦ try_handshake out more r.0 ])
      again (done, ok u) h g =
          Adds-more 1 0 (suc (suc more)) 0 self (done, ok tt)
            (record { attested = h.attested; asked = h.asked }) (omega arith) (omega arith)
      again (done, err e) h g =
          let x = h.attested in
          let y = h.asked in
          let z = g.attested in
          let w = g.asked in record { attested = omega (arith, x, z); asked = omega (arith, y, w) }

  Adds-readable : (res : Answer) (self : KbsClient Key) → Adds 0 0 self (readable out res self)
  unfolding readable
  Adds-readable res self =
      elim (out.is_error_information res.body)
        as (λ b.
          Adds 0 0 self ((if b then pure tt else throw kbs_response_deserialization_failed) self)) [
            | true ↦ Adds-pure _ self (ok tt)
            | false ↦ Adds-pure _ self (err kbs_response_deserialization_failed)
          ]

  Adds-open_response :
      (res : Answer) (self : KbsClient Key) → Adds 0 0 self (open_response out res self)
  unfolding open_response
  Adds-open_response res self =
      Adds-after 0 0 0 0 self
        (need (out.response_of res.body) kbs_response_deserialization_failed self) _
        (Adds-need 0 0 self self (out.response_of res.body) kbs_response_deserialization_failed
          (omega arith) (omega arith))
        (λ response done.
          Adds-need 0 0 done done (out.decrypt_response done.tee_key response)
            decrypt_response_failed (omega arith) (omega arith))

  Adds-by_status :
      (n m k most : ℕ) (res : Answer) (s : Status) (renew : Op Key (Unit {0}))
      (again : Op Key Bytes)
      → n + m ≤ most
      → ((self : KbsClient Key) → Adds n 0 self (renew self))
      → ((self : KbsClient Key) → Adds m k self (again self))
      → (self : KbsClient Key) → Adds most k self (by_status out res s renew again self)
  Adds-by_status n m k most res status_ok renew again fits h g self =
      Adds-more 0 0 most k self (open_response out res self) (Adds-open_response res self)
        (omega arith) (omega arith)
  Adds-by_status n m k most res unauthorized renew again fits h g self =
      Adds-within 0 0 (n + m) k most k self (readable out res self) _ (Adds-readable res self)
        (λ u done.
          Adds-within n 0 m k (n + m) k done (renew done) _ (h done) (λ v next. g next)
            (omega arith) (omega arith))
        (omega (arith, fits)) (omega arith)
  Adds-by_status n m k most res not_found renew again fits h g self =
      Adds-within 0 0 0 0 most k self (readable out res self) _ (Adds-readable res self)
        (λ u done. Adds-pure Bytes done (err resource_not_found)) (omega arith) (omega arith)
  Adds-by_status n m k most res another renew again fits h g self =
      Adds-within 0 0 0 0 most k self (readable out res self) _ (Adds-readable res self)
        (λ u done. Adds-pure Bytes done (err kbs_internal_error)) (omega arith) (omega arith)

  Adds-try_resource :
      (tries : ℕ) (url : Str) (self : KbsClient Key)
      → Adds tries tries self (try_resource out tries url self)
  unfolding try_resource attestations requests
  Adds-try_resource zero url self = Adds-pure Bytes self (err un_authorized)
  Adds-try_resource (suc more) url self =
      Adds-within 0 1 (suc more) more (suc more) (suc more) self
        (call (get_resource_at none url) out.http http_error self) _
        (Adds-call 0 1 self (get_resource_at none url) out.http http_error (omega arith)
          (omega arith))
        (λ res done.
          Adds-by_status 1 more more (suc more) res res.status (handshake out)
            (try_resource out more url) (omega arith) (Adds-handshake out)
            (Adds-try_resource more url) done)
        (omega arith) (omega arith)

  Adds-update_token : (self : KbsClient Key) → Adds 0 0 self (update_token out self)
  unfolding update_token attestations requests
  Adds-update_token self =
      Adds-after 0 0 0 0 self (call provide_token out.provided get_token_failed self) _
        (Adds-call 0 0 self provide_token out.provided get_token_failed (omega arith) (omega arith))
        (λ given done. record { attested = omega arith; asked = omega arith })

  Adds-ensure_token : (self : KbsClient Key) → Adds 0 0 self (ensure_token out self)
  unfolding ensure_token
  Adds-ensure_token self = by_token self.token
    where
      by_token :
          (opt : Option Token)
          → Adds {A = Option Token} 0 0 self (elim opt [
            | some token ↦ (self, ok (some token))
            | none ↦ after (update_token out self) (λ done client. (client, ok client.token))
          ])
      by_token (some token) = Adds-pure _ self _
      by_token none =
          Adds-after 0 0 0 0 self (update_token out self) _ (Adds-update_token self)
            (λ u done. Adds-pure _ done _)

  Adds-try_with_token :
      (tries : ℕ) (url : Str) (self : KbsClient Key)
      → Adds 0 tries self (try_with_token out tries url self)
  unfolding try_with_token attestations requests
  Adds-try_with_token zero url self = Adds-pure Bytes self (err un_authorized)
  Adds-try_with_token (suc more) url self =
      Adds-within 0 0 0 (suc more) 0 (suc more) self (ensure_token out self) _
        (Adds-ensure_token self)
        (λ token ready.
          Adds-within 0 1 0 more 0 (suc more) ready
            (call (get_resource_at (bearer token) url) out.http http_error ready) _
            (Adds-call 0 1 ready (get_resource_at (bearer token) url) out.http http_error
              (omega arith) (omega arith))
            (λ res done.
              Adds-by_status 0 0 more 0 res res.status (update_token out)
                (try_with_token out more url) (omega arith) Adds-update_token
                (Adds-try_with_token more url) done)
            (omega arith) (omega arith))
        (omega arith) (omega arith)

  Adds-get_token : (self : KbsClient Key) → Adds 5 0 self (get_token out self)
  unfolding get_token token_and_key repeat_rcar_handshake
  Adds-get_token self = by_token self.token
    where
      renewed : Adds 5 0 self ((repeat_rcar_handshake out >> token_and_key out) self)
      renewed =
          Adds-after 5 0 0 0 self (try_handshake out 4 self) _ (Adds-try_handshake 4 self)
            (λ u done. Adds-pure _ done _)

      checked :
          (token : Token) (r : Result TokenError (Unit {0}))
          → Adds {A = Option Token × Key} 5 0 self (elim r [
            | ok _ ↦ token_and_key out self
            | err e ↦ (repeat_rcar_handshake out >> token_and_key out) self
          ])
      checked token (ok u) =
          Adds-more 0 0 5 0 self _
            (Adds-pure (Option Token × Key) self (ok (self.token, self.tee_key))) (omega arith)
            (omega arith)
      checked token (err e) = renewed

      by_token :
          (opt : Option Token)
          → Adds {A = Option Token × Key} 5 0 self (elim opt [
            | some token ↦ elim (check_valid token (out.now self.calls)) [
              | ok _ ↦ token_and_key out self
              | err e ↦ (repeat_rcar_handshake out >> token_and_key out) self
            ]
            | none ↦ (repeat_rcar_handshake out >> token_and_key out) self
          ])
      by_token (some token) = checked token (check_valid token (out.now self.calls))
      by_token none = renewed

  -- For any behaviour of the service, the providers and the crates, and any state of the client:
  -- `get_token` sends at most five attestations and asks for no resource. `get_resource`
  -- of the client that attests itself asks for the resource at most three times and sends at most
  -- three attestations, and that of the client that is given its tokens asks at most three times and
  -- sends none.
  pub get_resource-Adds :
      (plugin resource_path : Str) (query : Option Str) (self : KbsClient Key)
      → Adds 5 0 self (get_token out self)
        × Adds 3 3 self (Rcar.get_resource out plugin resource_path query self)
        × Adds 0 3 self (Bearer.get_resource out plugin resource_path query self)
  unfolding Rcar.get_resource Bearer.get_resource
  get_resource-Adds plugin resource_path query self = (
    Adds-get_token self,
    Adds-try_resource 3 (remote_url self.kbs_host_url plugin resource_path query) self,
    Adds-try_with_token 3 (remote_url self.kbs_host_url plugin resource_path query) self,
  )
