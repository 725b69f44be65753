-- ===== src/ApiServer/Clients.antt =====
-- The calls that the server makes to the attestation agent and the confidential data hub:
-- api-server-rest/src/client/{aa.rs, cdh.rs, ttrpc_client.rs}.
use guest_components.Prelude.{
  ℕ, List, [], ◌∷◌, ◌++◌, Str, Bytes, codes, Result, ok, err, ◌==◌, Bool, true, false,
  if◌then◌else◌,
}

-- A request to one of the two services.
pub data Call : Type 0 where
  tee_type additional_tees : Call
  token : Str → Call
  evidence additional_evidence : Bytes → Call
  runtime_measurement : Str → Str → Str → Call
  resource : Str → Call

-- What a service answers: a text or bytes, several texts, or the code of a measurement's result.
pub data Answer : Type 0 where
  bytes : Bytes → Answer
  texts : List Str → Answer
  measured : ℕ → Answer

-- The two services, each with a connection of its own.
pub data Peer : Type 0 where
  attestation_agent confidential_data_hub : Peer

abbrev pub peer_of : Call → Peer
peer_of (resource _) = confidential_data_hub
peer_of _ = attestation_agent

abbrev pub reconnect_failed : Peer → Str
reconnect_failed attestation_agent =
    codes "failed to reconnect to Attestation Agent after LocalClosed"
reconnect_failed confidential_data_hub = codes "failed to reconnect to CDH after LocalClosed"

-- The errors of the crate ttrpc that are told apart.
pub data RpcError : Type 0 where
  local_closed other_error : RpcError

-- The services as the server meets them: an answer or an error to a call, and whether a connection
-- is made or the error's text, which may depend on all the calls before.
pub record Services : Type 0 where
  pub answer : List Call → Call → Result RpcError Answer
  pub connect : List Call → Peer → Result Str (Unit {0})

-- The calls made, the last one first, and of which service a client is cached.
pub record Session : Type 0 where
  pub calls : List Call
  pub aa_cached : Bool
  pub cdh_cached : Bool

abbrev pub is_cached : Peer → Session → Bool
is_cached attestation_agent s = s.aa_cached
is_cached confidential_data_hub s = s.cdh_cached

abbrev pub set_cached : Peer → Bool → Session → Session
set_cached attestation_agent b s = record s { aa_cached = b }
set_cached confidential_data_hub b s = record s { cdh_cached = b }

-- A handler: the session after it, and its result.
abbrev pub M : Type 0 → Type 0
M A = Session → Session × Result Str A

abbrev pub resume : {A B : Type 0} → Session × Result Str A → (A → M B) → Session × Result Str B
resume (s, ok a) f = f a s
resume (s, err e) f = (s, err e)

infixl 5 ◌>>=◌
abbrev pub ◌>>=◌ : {A B : Type 0} → M A → (A → M B) → M B
◌>>=◌ m f s = resume (m s) f

abbrev pub pure : {A : Type 0} → A → M A
pure a s = (s, ok a)

abbrev pub lift : {A : Type 0} → Result Str A → M A
lift r s = (s, r)

-- An action whose error its caller handles.
abbrev pub attempt : {A : Type 0} → M A → M (Result Str A)
attempt m s = ((m s).0, ok (m s).1)

-- The fields of the protocol's replies; an answer of another shape has the field's default.
abbrev pub bytes_of : Answer → Bytes
bytes_of (bytes b) = b
bytes_of _ = []

abbrev pub texts_of : Answer → List Str
texts_of (texts t) = t
texts_of _ = []

abbrev pub code_of : Answer → ℕ
code_of (measured n) = n
code_of _ = 0

abbrev pub extend_message : ℕ → Str
extend_message n =
    if n == 0
    then codes "{\"success\":\"true\"}"
    else if n == 1
    then codes
        "{\"success\":\"false\",\"message\": \"The platform does not support runtime measurement\"}"
    else if n == 2
    then codes
        "{\"success\":\"false\",\"message\": \"Attestation Agent does not enable eventlog recording\"}"
    else codes "{\"success\":\"false\",\"message\": \"Unknown runtime measurement result\"}"

module _ (services : Services) where
  -- The client that is cached, or a new one.
  unfoldable pub ensure_client : Peer → M (Unit {0})
  ensure_client peer s =
      if is_cached peer s then (s, ok tt) else elim (services.connect s.calls peer) [
        | ok _ ↦ (set_cached peer true s, ok tt)
        | err e ↦ (s, err e)
      ]

  -- A request as it is sent once.
  abbrev pub send : Call → M (Result RpcError Answer)
  send c s = (record s { calls = c ∷ s.calls }, ok (services.answer s.calls c))

  -- The client is dropped, and the request is sent to a new one.
  unfoldable pub reconnect : Call → M Answer
  reconnect c = do
    dropped ← λ s. (set_cached (peer_of c) false s, ok tt)
    connected ← attempt (ensure_client (peer_of c))
    elim connected [
      | err _ ↦ lift (err (reconnect_failed (peer_of c)))
      | ok _ ↦ do
        again ← send c
        elim again [
          | ok a ↦ pure a
          | err _ ↦ lift (err (codes "ttrpc request error after reconnect"))
        ]
    ]

  -- `call_with_retry`
  unfoldable pub call : Call → M Answer
  call c = do
    client ← ensure_client (peer_of c)
    first ← send c
    elim first [
      | ok a ↦ pure a
      | err local_closed ↦ reconnect c
      | err other_error ↦ lift (err (codes "ttrpc request error"))
    ]

  -- `AAClient`
  abbrev pub get_token : Str → M Bytes
  get_token token_type = do a ← call (token token_type); pure (bytes_of a)

  abbrev pub get_evidence : Bytes → M Bytes
  get_evidence runtime_data = do a ← call (evidence runtime_data); pure (bytes_of a)

  abbrev pub get_additional_evidence : Bytes → M Bytes
  get_additional_evidence runtime_data = do
    a ← call (additional_evidence runtime_data)
    pure (bytes_of a)

  abbrev pub extend_aael_entry : Str → Str → Str → M Str
  extend_aael_entry domain operation content = do
    a ← call (runtime_measurement domain operation content)
    pure (extend_message (code_of a))

  abbrev pub get_tee_type : M Str
  get_tee_type = do a ← call tee_type; pure (bytes_of a)

  abbrev pub get_additional_tees : M (List Str)
  get_additional_tees = do a ← call additional_tees; pure (texts_of a)

  -- `CDHClient`
  abbrev pub get_resource : Str → M Bytes
  get_resource resource_path = do
    a ← call (resource (codes "kbs://" ++ resource_path))
    pure (bytes_of a)
