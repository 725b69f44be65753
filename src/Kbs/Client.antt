-- ===== src/Kbs/Client.antt =====
-- The state of a client of the key broker service and its calls: client/mod.rs and error.rs of
-- attestation-agent/kbs_protocol/src. All that is asked of the service, the evidence provider and the
-- token provider is a call; the answers may depend on all the calls before.
use guest_components.Prelude.{
  ℕ, Bool, Option, none, some, List, ◌∷◌, ◌++◌, Str, Bytes, codes, if◌then◌else◌, Result, ok, err,
}
use guest_components.Kbs.Token.{Token, Claims}

pub data Error : Type 0 where
  decrypt_response_failed get_token_failed http_error kbs_internal_error : Error
  kbs_response_deserialization_failed rcar_handshake_failed resource_not_found : Error
  un_authorized invalid_hash_algorithm unexpected_json_data_type get_evidence : Error
  aa_evidence_provider aa_token_provider generate_key_pair_failed native_evidence_provider : Error

pub data Tee : Type 0 where
  se : Tee
  other : Str → Tee

pub data HashAlgorithm : Type 0 where
  sha256 sha384 sha512 : HashAlgorithm

-- The choice of an algorithm in a challenge: none, no string, or a name.
pub data Selected : Type 0 where
  absent : Selected
  not_string : Selected
  named : Str → Selected

pub record Challenge : Type 0 where
  pub nonce : Str
  pub extra_params : Selected

pub data Status : Type 0 where
  status_ok : Status
  unauthorized : Status
  not_found : Status
  another : Status

pub record Answer : Type 0 where
  pub status : Status
  pub body : Bytes

-- What is sent to be attested.
pub record Attestation : Type 0 where
  pub init_data : Option Str
  pub nonce : Str
  pub tee_pubkey : Str
  pub primary_evidence : Str
  pub additional_evidence : Str

pub data Call : Type 0 where
  get_tee_type : Call
  auth : Tee → Call
  get_additional_evidence : Bytes → Call
  primary_evidence : Bytes → Call
  attest : Attestation → Call
  get_resource_at : Option Str → Str → Call
  provide_token : Call

-- The answers to a call, which come after the calls listed, the last one first; and the crates'
-- parsers and hashes. A key pair is its public key's text, with what it decrypts.
pub record Outside (Key : Type 0) : Type 0 where
  pub tee_type : List Call → Option Tee
  pub http : List Call → Option Answer
  pub evidence : List Call → Option Str
  pub provided : List Call → Option (Token × Key)
  pub now : List Call → ℕ
  pub challenge_of : Bytes → Option Challenge
  pub is_error_information : Bytes → Bool
  -- of a name in lower case
  pub algorithm_named : Str → Option HashAlgorithm
  pub token_of : Bytes → Option Str
  pub decode : Str → Option Bytes
  pub claims_of : Bytes → Option Claims
  pub digest : HashAlgorithm → Bytes → Bytes
  -- canonical JSON of a nonce and a key, without and with the additional evidence
  pub device_data : Str → Str → Option Bytes
  pub primary_data : Str → Str → Str → Option Bytes
  pub export_pubkey : Key → Option Str
  pub response_of : Bytes → Option Bytes
  pub decrypt_response : Key → Bytes → Option Bytes

pub record KbsClient (Key : Type 0) : Type 0 where
  pub tee : Option Tee
  pub tee_key : Key
  pub kbs_host_url : Str
  pub token : Option Token
  pub initdata : Option Str
  -- the calls that were made, the last one first
  pub calls : List Call

-- An operation of the client.
abbrev pub Op : Type 0 → Type 0 → Type 0
Op Key A = KbsClient Key → KbsClient Key × Result Error A

module _ {Key : Type 0} where
  -- `op?` with the rest of the function behind it
  abbrev pub after :
      {A B : Type 0}
      → KbsClient Key × Result Error A
      → (A → Op Key B)
      → KbsClient Key × Result Error B
  after (self, err e) rest = (self, err e)
  after (self, ok a) rest = rest a self

  infixl 5 ◌>>=◌ ◌>>◌
  abbrev pub ◌>>=◌ : {A B : Type 0} → Op Key A → (A → Op Key B) → Op Key B
  (op >>= rest) self = after (op self) rest

  abbrev pub ◌>>◌ : {B : Type 0} → Op Key (Unit {0}) → Op Key B → Op Key B
  op >> rest = op >>= λ done. rest

  abbrev pub pure : {A : Type 0} → A → Op Key A
  pure a self = (self, ok a)

  abbrev pub throw : {A : Type 0} → Error → Op Key A
  throw e self = (self, err e)

  -- `opt.ok_or(e)?`
  abbrev pub need : {A : Type 0} → Option A → Error → Op Key A
  need none e = throw e
  need (some a) e = pure a

  -- A call, with its answer
  abbrev pub call : {A : Type 0} → Call → (List Call → Option A) → Error → Op Key A
  call c answers e self =
      let made = c ∷ self.calls in need (answers made) e (record self { calls = made })

-- The body of an error has to be readable.
unfoldable pub readable : {Key : Type 0} → Outside Key → Answer → Op Key (Unit {0})
readable out res =
    if out.is_error_information res.body then pure tt else throw kbs_response_deserialization_failed

-- What is done with the resource in an answer: it is read, and decrypted.
unfoldable pub open_response : {Key : Type 0} → Outside Key → Answer → Op Key Bytes
open_response out res = do
  response ← need (out.response_of res.body) kbs_response_deserialization_failed
  λ self. need (out.decrypt_response self.tee_key response) decrypt_response_failed self

-- `{}/{KBS_PREFIX}/{}/{}`, with the query if there is one
unfoldable pub remote_url : Str → Str → Str → Option Str → Str
remote_url kbs_host_url plugin resource_path query =
    let url = kbs_host_url ++ (codes "/kbs/v0/" ++ (plugin ++ (b'/' ∷ resource_path))) in
    elim query [ none ↦ url | some q ↦ url ++ (b'?' ∷ q) ]
