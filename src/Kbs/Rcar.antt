-- ===== src/Kbs/Rcar.antt =====
-- The client that attests itself: client/rcar_client.rs of attestation-agent/kbs_protocol/src. The
-- waiting between tries is left out.
use guest_components.Prelude.{
  ℕ, zero, suc, ◌+◌, ◌&&◌, Option, none, some, [], ◌∷◌, Str, Bytes, ltb, if◌then◌else◌, Result, ok,
  err,
}
use guest_components.Kbs.Token.{Token, check_valid}
use guest_components.Kbs.Token
use guest_components.Kbs.Client.{
  Error, Tee, HashAlgorithm, sha384, Selected, Challenge, Answer, Outside, Op, after, ◌>>=◌, ◌>>◌,
  pure, throw, need, call, remote_url, readable, open_response, status_ok, unauthorized, not_found,
  another, http_error, kbs_internal_error, get_evidence, kbs_response_deserialization_failed,
  rcar_handshake_failed, resource_not_found, un_authorized, invalid_hash_algorithm,
  unexpected_json_data_type, se, other, absent, not_string, named, get_tee_type, auth,
  get_additional_evidence, primary_evidence, attest, get_resource_at,
}

-- `to_lowercase` of ASCII
unfoldable pub to_lowercase : Str → Str
to_lowercase [] = []
to_lowercase (c ∷ s) =
    let rest = to_lowercase s in if ltb b'@' c && ltb c b'[' then (c + 32) ∷ rest else c ∷ rest

module _ {Key : Type 0} (out : Outside Key) where
  unfoldable pub get_hash_algorithm : Selected → Result Error HashAlgorithm
  get_hash_algorithm absent = ok sha384
  get_hash_algorithm not_string = err unexpected_json_data_type
  get_hash_algorithm (named selected) = elim (out.algorithm_named (to_lowercase selected)) [
    | none ↦ err invalid_hash_algorithm
    | some algorithm ↦ ok algorithm
  ]

  -- The digest that the first device attests; the attester of SE machines is a feature that is off.
  unfoldable pub primary_runtime_data : Tee → Bytes → Result Error Bytes
  primary_runtime_data se digest = err get_evidence
  primary_runtime_data (other name) digest = ok digest

  abbrev pub lift : {A : Type 0} → Result Error A → Op Key A
  lift (ok a) = pure a
  lift (err e) = throw e

  -- Both evidences, the first one's of the other as well.
  unfoldable pub get_composite_evidence : Str → Str → HashAlgorithm → Tee → Op Key (Str × Str)
  get_composite_evidence nonce tee_pubkey algorithm tee = do
    device_runtime_data ← need (out.device_data nonce tee_pubkey) get_evidence
    additional ←
        call (get_additional_evidence (out.digest algorithm device_runtime_data)) out.evidence
          get_evidence
    runtime_data ← need (out.primary_data nonce tee_pubkey additional) get_evidence
    primary_data ← lift (primary_runtime_data tee (out.digest algorithm runtime_data))
    primary ← call (primary_evidence primary_data) out.evidence get_evidence
    pure (primary, additional)

  unfoldable pub tee_of : Op Key Tee
  tee_of self = elim self.tee [
    | some tee ↦ (self, ok tee)
    | none ↦
        after (call get_tee_type out.tee_type get_evidence self)
          (λ tee client. (record client { tee = some tee }, ok tee))
  ]

  -- Only an answer of status OK is gone on with.
  unfoldable pub accepted : Answer → Op Key Bytes
  accepted res = elim res.status [
    | status_ok ↦ pure res.body
    | unauthorized ↦ throw un_authorized
    | not_found ↦ throw kbs_internal_error
    | another ↦ throw kbs_internal_error
  ]

  -- The token in an answer is kept.
  unfoldable pub set_token : Bytes → Op Key (Unit {0})
  set_token body self = elim (out.token_of body) [
    | none ↦ (self, err kbs_response_deserialization_failed)
    | some text ↦ elim (Token.new out.decode out.claims_of text) [
      | err e ↦ (self, err kbs_response_deserialization_failed)
      | ok token ↦ (record self { token = some token }, ok tt)
    ]
  ]

  -- The evidence is sent, with what it is about.
  unfoldable pub attest_with : Challenge → Str → Str × Str → Op Key (Unit {0})
  attest_with challenge tee_pubkey evidence self =
      (call
            (attest record {
              init_data = self.initdata;
              nonce = challenge.nonce;
              tee_pubkey = tee_pubkey;
              primary_evidence = evidence.0;
              additional_evidence = evidence.1;
            })
            out.http http_error
          >>= λ attest_response. accepted attest_response >>= set_token)
        self

  unfoldable pub rcar_handshake : Op Key (Unit {0})
  rcar_handshake = do
    tee ← tee_of
    resp ← call (auth tee) out.http http_error
    body ← accepted resp
    challenge ← need (out.challenge_of body) kbs_response_deserialization_failed
    algorithm ← lift (get_hash_algorithm challenge.extra_params)
    tee_pubkey ← λ self. need (out.export_pubkey self.tee_key) get_evidence self
    tee_evidence ← get_composite_evidence challenge.nonce tee_pubkey algorithm tee
    attest_with challenge tee_pubkey tee_evidence

  -- `.map_err(|e| Error::RcarHandshake(…))`
  unfoldable pub handshake : Op Key (Unit {0})
  handshake self =
      let (done, res) = rcar_handshake self in
      elim res [ ok _ ↦ (done, ok tt) | err e ↦ (done, err rcar_handshake_failed) ]

  -- The loop, with how many more tries there are.
  unfoldable pub try_handshake : ℕ → Op Key (Unit {0})
  try_handshake zero self = handshake self
  try_handshake (suc more) self =
      let (done, res) = handshake self in
      let next = try_handshake more done in elim res [ ok _ ↦ (done, ok tt) | err e ↦ next ]

  unfoldable pub repeat_rcar_handshake : Op Key (Unit {0})
  repeat_rcar_handshake = try_handshake 4

  -- The token and the key, which the code takes for granted then.
  unfoldable pub token_and_key : Op Key (Option Token × Key)
  token_and_key self = (self, ok (self.token, self.tee_key))

  unfoldable pub get_token : Op Key (Option Token × Key)
  get_token self = elim self.token [
    | some token ↦ elim (check_valid token (out.now self.calls)) [
      | ok _ ↦ token_and_key self
      | err e ↦ (repeat_rcar_handshake >> token_and_key) self
    ]
    | none ↦ (repeat_rcar_handshake >> token_and_key) self
  ]

  -- The loop of `get_resource`, with how many tries there are.
  unfoldable pub try_resource : ℕ → Str → Op Key Bytes
  try_resource zero url = throw un_authorized
  try_resource (suc more) url = call (get_resource_at none url) out.http http_error >>= λ res.
      elim res.status [
        | status_ok ↦ open_response out res
        | unauthorized ↦ readable out res >> (handshake >> try_resource more url)
        | not_found ↦ readable out res >> throw resource_not_found
        | another ↦ readable out res >> throw kbs_internal_error
      ]

  unfoldable pub get_resource : Str → Str → Option Str → Op Key Bytes
  get_resource plugin resource_path query self =
      try_resource 3 (remote_url self.kbs_host_url plugin resource_path query) self
