-- ===== src/Kbs/Resources.antt =====
-- What a resource that was got stands for: both clients of attestation-agent/kbs_protocol/src.
use mathlib.Core.Path.{subst}
use guest_components.Prelude.{
  ℕ, zero, suc, ◌≡◌, refl, Option, none, some, List, ◌∷◌, Str, Bytes, Result, ok, err,
}
use guest_components.Kbs.Client.{
  Error, Status, Answer, Call, Outside, KbsClient, Op, after, ◌>>=◌, ◌>>◌, throw, need, call,
  readable, open_response, remote_url, status_ok, unauthorized, not_found, another, get_resource_at,
  http_error, resource_not_found, kbs_internal_error, kbs_response_deserialization_failed,
  decrypt_response_failed,
}
use guest_components.Kbs.Rcar.{handshake, try_resource}
use guest_components.Kbs.Rcar
use guest_components.Kbs.Bearer.{bearer, update_token, ensure_token, try_with_token}
use guest_components.Kbs.Bearer

-- What holds of the client and the value when an operation succeeds.
abbrev pub Succeeds :
    {Key A : Type 0} → (KbsClient Key → A → Type 0) → KbsClient Key × Result Error A → Type 0
Succeeds P (done, ok a) = P done a
Succeeds P (done, err e) = Unit {0}

module _ {Key : Type 0} {B : Type 0} (P : KbsClient Key → B → Type 0) where
  pub Succeeds-after :
      {A : Type 0} (r : KbsClient Key × Result Error A) (rest : A → Op Key B)
      → ((a : A) (done : KbsClient Key) → Succeeds P (rest a done))
      → Succeeds P (after r rest)
  Succeeds-after (done, ok a) rest h = h a done
  Succeeds-after (done, err e) rest h = tt

  pub Succeeds-need :
      {A : Type 0} (opt : Option A) (e : Error) (self : KbsClient Key) (rest : A → Op Key B)
      → ((a : A) → opt ≡ some a → Succeeds P (rest a self))
      → Succeeds P (after (need opt e self) rest)
  Succeeds-need none e self rest h = tt
  Succeeds-need (some a) e self rest h = h a refl

-- The resource's last call is the one that asks for it, whose answer is of status OK and decrypts to
-- it with the client's key.
pub record Obtained {Key : Type 0} (out : Outside Key) (url : Str) (self : KbsClient Key)
    (resource : Bytes) : Type 0 where
  pub token : Option Str
  pub before : List Call
  pub is_last : self.calls ≡ get_resource_at token url ∷ before
  pub res : Answer
  pub answered : out.http self.calls ≡ some res
  pub is_ok : res.status ≡ status_ok
  pub response : Bytes
  pub is_read : out.response_of res.body ≡ some response
  pub is_decrypted : out.decrypt_response self.tee_key response ≡ some resource

module _ {Key : Type 0} (out : Outside Key) where
  -- What both loops do with an answer: `renew` and start again when it says unauthorized.
  abbrev pub by_status : Answer → Status → Op Key (Unit {0}) → Op Key Bytes → Op Key Bytes
  by_status res s renew again = elim s [
    | status_ok ↦ open_response out res
    | unauthorized ↦ readable out res >> (renew >> again)
    | not_found ↦ readable out res >> throw resource_not_found
    | another ↦ readable out res >> throw kbs_internal_error
  ]

module _ {Key : Type 0} (out : Outside Key) (url : Str) where
  open_response-Obtained :
      (token : Option Str) (before : List Call) (self : KbsClient Key) (res : Answer)
      → self.calls ≡ get_resource_at token url ∷ before
      → out.http self.calls ≡ some res
      → res.status ≡ status_ok
      → Succeeds (Obtained out url) (open_response out res self)
  unfolding open_response
  open_response-Obtained token before self res is_last answered is_ok =
      Succeeds-need (Obtained out url) (out.response_of res.body)
        kbs_response_deserialization_failed self
        (λ response client.
          need (out.decrypt_response client.tee_key response) decrypt_response_failed client)
        (λ response is_read.
          opened response is_read (out.decrypt_response self.tee_key response) refl)
    where
      opened :
          (response : Bytes)
          → out.response_of res.body ≡ some response
          → (opt : Option Bytes) → out.decrypt_response self.tee_key response ≡ opt
          → Succeeds (Obtained out url) (need opt decrypt_response_failed self)
      opened response is_read none h = tt
      opened response is_read (some resource) h = record {
        token = token;
        before = before;
        is_last = is_last;
        res = res;
        answered = answered;
        is_ok = is_ok;
        response = response;
        is_read = is_read;
        is_decrypted = h;
      }

  by_status-Obtained :
      (token : Option Str) (before : List Call) (self : KbsClient Key) (res : Answer)
      → self.calls ≡ get_resource_at token url ∷ before
      → out.http self.calls ≡ some res
      → (renew : Op Key (Unit {0})) (again : Op Key Bytes)
      → ((next : KbsClient Key) → Succeeds (Obtained out url) (again next))
      → (s : Status) → res.status ≡ s
      → Succeeds (Obtained out url) (by_status out res s renew again self)
  by_status-Obtained token before self res is_last answered renew again later status_ok h =
      open_response-Obtained token before self res is_last answered h
  by_status-Obtained token before self res is_last answered renew again later unauthorized h =
      Succeeds-after (Obtained out url) (readable out res self) (λ u. renew >> again)
        (λ u done.
          Succeeds-after (Obtained out url) (renew done) (λ v. again) (λ v next. later next))
  by_status-Obtained token before self res is_last answered renew again later not_found h =
      Succeeds-after (Obtained out url) (readable out res self) (λ u. throw resource_not_found)
        (λ u done. tt)
  by_status-Obtained token before self res is_last answered renew again later another h =
      Succeeds-after (Obtained out url) (readable out res self) (λ u. throw kbs_internal_error)
        (λ u done. tt)

  try_resource-Obtained :
      (tries : ℕ) (self : KbsClient Key)
      → Succeeds (Obtained out url) (try_resource out tries url self)
  unfolding try_resource
  try_resource-Obtained zero self = tt
  try_resource-Obtained (suc more) self =
      let again = try_resource out more url in
      let made = get_resource_at none url ∷ self.calls in
      let asked = record self { calls = made } in
      Succeeds-need (Obtained out url) (out.http made) http_error asked
        (λ res. by_status out res res.status (handshake out) again)
        (λ res answered.
          by_status-Obtained none self.calls asked res refl answered (handshake out) again
            (try_resource-Obtained more) res.status refl)

  try_with_token-Obtained :
      (tries : ℕ) (self : KbsClient Key)
      → Succeeds (Obtained out url) (try_with_token out tries url self)
  unfolding try_with_token
  try_with_token-Obtained zero self = tt
  try_with_token-Obtained (suc more) self =
      let again = try_with_token out more url in
      let renew = update_token out in
      Succeeds-after (Obtained out url) (ensure_token out self)
        (λ token. call (get_resource_at (bearer token) url) out.http http_error >>= λ res.
          by_status out res res.status renew again)
        (λ token ready.
          let made = get_resource_at (bearer token) url ∷ ready.calls in
          let asked = record ready { calls = made } in
          Succeeds-need (Obtained out url) (out.http made) http_error asked
            (λ res. by_status out res res.status renew again)
            (λ res answered.
              by_status-Obtained (bearer token) ready.calls asked res refl answered renew again
                (try_with_token-Obtained more) res.status refl))

module _ {Key : Type 0} (out : Outside Key) (plugin resource_path : Str) (query : Option Str) where
  -- For any behaviour of the service, the evidence provider and the crates, and any state of the
  -- client that attests itself: when its `get_resource` succeeds, the last of its calls asks for the
  -- URL of the resource, the answer to that call has status OK, and its body is a response that the
  -- client's key decrypts to the resource returned.
  pub get_resource-Obtained :
      (self done : KbsClient Key) (resource : Bytes)
      → Rcar.get_resource out plugin resource_path query self ≡ (done, ok resource)
      → Obtained out (remote_url self.kbs_host_url plugin resource_path query) done resource
  unfolding Rcar.get_resource
  get_resource-Obtained self done resource h =
      let url = remote_url self.kbs_host_url plugin resource_path query in
      subst (Succeeds (Obtained out url)) h (try_resource-Obtained out url 3 self)

  -- The same of the client that is given its tokens: when its `get_resource` succeeds, the last of its
  -- calls asks for the URL of the resource, the answer to that call has status OK, and its body is a
  -- response that the client's key decrypts to the resource returned.
  pub get_resource-Obtained_by_token :
      (self done : KbsClient Key) (resource : Bytes)
      → Bearer.get_resource out plugin resource_path query self ≡ (done, ok resource)
      → Obtained out (remote_url self.kbs_host_url plugin resource_path query) done resource
  unfolding Bearer.get_resource
  get_resource-Obtained_by_token self done resource h =
      let url = remote_url self.kbs_host_url plugin resource_path query in
      subst (Succeeds (Obtained out url)) h (try_with_token-Obtained out url 3 self)
