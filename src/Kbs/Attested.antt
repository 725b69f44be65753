-- ===== src/Kbs/Attested.antt =====
-- What a token that was attested for stands for: client/rcar_client.rs of
-- attestation-agent/kbs_protocol/src.
use mathlib.Core.Path.{subst}
use guest_components.Prelude.{
  ◌≡◌, refl, sym, ap, ◌∙◌, Option, none, some, List, ◌∷◌, Str, Bytes, Result, ok, err,
}
use guest_components.Kbs.Token.{Token, TokenError}
use guest_components.Kbs.Token
use guest_components.Kbs.Client.{
  Error, un_authorized, kbs_internal_error, Tee, Challenge, Answer, Attestation, Call, Outside,
  KbsClient, Op, after, ◌>>=◌, pure, throw, need, status_ok, Status, unauthorized, not_found,
  another, attest, auth, get_evidence, http_error, kbs_response_deserialization_failed,
}
use guest_components.Kbs.Rcar.{
  get_hash_algorithm, lift, get_composite_evidence, tee_of, accepted, set_token, attest_with,
  rcar_handshake,
}
use guest_components.Kbs.Resources.{Succeeds, Succeeds-after, Succeeds-need}
use guest_components.Kbs.Evidence.{Succeeds-then, Evidenced, get_composite_evidence-Evidenced}

-- The last call asked for a challenge, and the answer, of status OK, is one with this nonce.
pub record Challenged {Key : Type 0} (out : Outside Key) (nonce : Str) (calls : List Call)
    : Type 0 where
  pub tee : Tee
  pub before : List Call
  pub is_last : calls ≡ auth tee ∷ before
  pub res : Answer
  pub answered : out.http calls ≡ some res
  pub is_ok : res.status ≡ status_ok
  pub challenge : Challenge
  pub is_challenge : out.challenge_of res.body ≡ some challenge
  pub is_nonce : nonce ≡ challenge.nonce

-- The last call is of an attestation: of evidence that was given for the nonce it has and the public
-- key it has, which is the client's own. Its answer is of status OK, and the client's token is the one
-- in the answer.
pub record Attested {Key : Type 0} (out : Outside Key) (self : KbsClient Key) (done : Unit {0})
    : Type 0 where
  pub attestation : Attestation
  pub before : List Call
  pub challenged : Challenged out attestation.nonce before
  pub asked : KbsClient Key
  pub evidence :
      Evidenced out attestation.nonce attestation.tee_pubkey self.tee_key before asked
        (attestation.primary_evidence, attestation.additional_evidence)
  pub own_key : out.export_pubkey self.tee_key ≡ some attestation.tee_pubkey
  pub is_last : self.calls ≡ attest attestation ∷ asked.calls
  pub res : Answer
  pub answered : out.http self.calls ≡ some res
  pub is_ok : res.status ≡ status_ok
  pub text : Str
  pub is_text : out.token_of res.body ≡ some text
  pub given : Token
  pub is_new : Token.new out.decode out.claims_of text ≡ ok given
  pub is_kept : self.token ≡ some given

module _ {Key : Type 0} (out : Outside Key) where
  -- `accepted` of an answer whose status is `s`
  abbrev accepted_if : Status → Bytes → Op Key Bytes
  accepted_if s body = elim s [
    | status_ok ↦ pure body
    | unauthorized ↦ throw un_authorized
    | not_found ↦ throw kbs_internal_error
    | another ↦ throw kbs_internal_error
  ]

  set_token-Attested :
      (attestation : Attestation) (before : List Call) (asked self : KbsClient Key) (res : Answer)
      → Challenged out attestation.nonce before
      → Evidenced out attestation.nonce attestation.tee_pubkey self.tee_key before asked
          (attestation.primary_evidence, attestation.additional_evidence)
      → out.export_pubkey self.tee_key ≡ some attestation.tee_pubkey
      → self.calls ≡ attest attestation ∷ asked.calls
      → out.http self.calls ≡ some res
      → (s : Status) → res.status ≡ s
      → Succeeds (Attested out) (after (accepted_if s res.body self) (set_token out))
  unfolding set_token
  set_token-Attested attestation before asked self res challenged evidence own_key is_last answered
        status_ok is_ok =
      read (out.token_of res.body) refl
    where
      parsed :
          (text : Str)
          → out.token_of res.body ≡ some text
          → (r : Result TokenError Token) → Token.new out.decode out.claims_of text ≡ r
          → Succeeds (Attested out) (elim r [
            | err e ↦ (self, err kbs_response_deserialization_failed)
            | ok token ↦ (record self { token = some token }, ok tt)
          ])
      parsed text is_text (err e) h = tt
      parsed text is_text (ok given) is_new = record {
        attestation = attestation;
        before = before;
        challenged = challenged;
        asked = asked;
        evidence = evidence;
        own_key = own_key;
        is_last = is_last;
        res = res;
        answered = answered;
        is_ok = is_ok;
        text = text;
        is_text = is_text;
        given = given;
        is_new = is_new;
        is_kept = refl;
      }

      read :
          (opt : Option Str)
          → out.token_of res.body ≡ opt
          → Succeeds (Attested out) (elim opt [
            | none ↦ (self, err kbs_response_deserialization_failed)
            | some text ↦ elim (Token.new out.decode out.claims_of text) [
              | err e ↦ (self, err kbs_response_deserialization_failed)
              | ok token ↦ (record self { token = some token }, ok tt)
            ]
          ])
      read none h = tt
      read (some text) h = parsed text h (Token.new out.decode out.claims_of text) refl
  set_token-Attested attestation before asked self res challenged evidence own_key is_last answered
        unauthorized h =
      tt
  set_token-Attested attestation before asked self res challenged evidence own_key is_last answered
        not_found h =
      tt
  set_token-Attested attestation before asked self res challenged evidence own_key is_last answered
        another h =
      tt

  attest_with-Attested :
      (challenge : Challenge) (tee_pubkey : Str) (evidence : Str × Str) (before : List Call)
      (self : KbsClient Key)
      → Challenged out challenge.nonce before
      → Evidenced out challenge.nonce tee_pubkey self.tee_key before self evidence
      → out.export_pubkey self.tee_key ≡ some tee_pubkey
      → Succeeds (Attested out) (attest_with out challenge tee_pubkey evidence self)
  unfolding attest_with accepted
  attest_with-Attested challenge tee_pubkey evidence before self challenged h own_key =
      Succeeds-need (Attested out) (out.http _) http_error _ _ (λ res answered.
        set_token-Attested _ before self _ res challenged h own_key refl answered res.status refl)

  abbrev IsTaken : List Call → Answer → KbsClient Key → Bytes → Type 0
  IsTaken made resp next body = (resp.status ≡ status_ok) × (body ≡ resp.body) × (next.calls ≡ made)

  accepted-IsTaken :
      (resp : Answer) (asked : KbsClient Key) (s : Status)
      → resp.status ≡ s
      → Succeeds (IsTaken asked.calls resp) (accepted_if s resp.body asked)
  accepted-IsTaken resp asked status_ok h = (h, refl, refl)
  accepted-IsTaken resp asked unauthorized h = tt
  accepted-IsTaken resp asked not_found h = tt
  accepted-IsTaken resp asked another h = tt

  lift_calls :
      {A : Type 0} (r : Result Error A) (self : KbsClient Key)
      → Succeeds (λ next a. next.calls ≡ self.calls) (lift out r self)
  lift_calls (ok a) self = refl
  lift_calls (err e) self = tt

  -- The rest of the handshake, once there is a challenge.
  rest_of_handshake-Attested :
      (challenge : Challenge) (tee : Tee) (next : KbsClient Key) (made : List Call)
      → Challenged out challenge.nonce made
      → next.calls ≡ made
      → Succeeds (Attested out) (
          (lift out (get_hash_algorithm out challenge.extra_params) >>= λ algorithm.
          (λ self. need (out.export_pubkey self.tee_key) get_evidence self) >>= λ tee_pubkey.
          get_composite_evidence out challenge.nonce tee_pubkey algorithm tee
          >>= attest_with out challenge tee_pubkey)
            next)
  rest_of_handshake-Attested challenge tee next made challenged same =
      Succeeds-then (λ last a. last.calls ≡ next.calls) (Attested out)
        (lift out (get_hash_algorithm out challenge.extra_params) next) _
        (lift_calls (get_hash_algorithm out challenge.extra_params) next)
        (λ algorithm last unchanged.
          Succeeds-need (Attested out) (out.export_pubkey last.tee_key) get_evidence last _
            (λ tee_pubkey own_key.
              Succeeds-then (Evidenced out challenge.nonce tee_pubkey last.tee_key last.calls)
                (Attested out)
                (get_composite_evidence out challenge.nonce tee_pubkey algorithm tee last) _
                (get_composite_evidence-Evidenced out challenge.nonce tee_pubkey algorithm tee last)
                (λ evidence final given.
                  attest_with-Attested challenge tee_pubkey evidence last.calls final
                    (subst (Challenged out challenge.nonce) (sym (unchanged ∙ same)) challenged)
                    (subst
                      (λ k. Evidenced out challenge.nonce tee_pubkey k last.calls final evidence)
                      (sym given.same_key) given)
                    (ap out.export_pubkey given.same_key ∙ own_key))))

  -- For any behaviour of the service, the evidence provider and the crates, and any state of the
  -- client: when the handshake succeeds, its last call sends an attestation. The nonce in it is the
  -- one of the challenge that the service gave, with status OK, to the authentication request before.
  -- The two evidences are the provider's answers after that, to the digests of canonical JSON of that
  -- nonce and the public key in the attestation, and, for the primary one, of the additional evidence
  -- as well; the public key is the client's own. The answer to the attestation has status OK, and the token in it, with
  -- the times of its claims, is the client's.
  pub rcar_handshake-Attested :
      (self done : KbsClient Key) → rcar_handshake out self ≡ (done, ok tt) → Attested out done tt
  unfolding rcar_handshake accepted
  rcar_handshake-Attested self done h = subst (Succeeds (Attested out)) h (
      Succeeds-after (Attested out) (tee_of out self) _ (λ tee ready.
        Succeeds-need (Attested out) (out.http _) http_error _ _ (λ resp answered.
          let made = auth tee ∷ ready.calls in
          let asked = record ready { calls = made } in
          Succeeds-then (IsTaken made resp) (Attested out) (accepted out resp asked) _
            (accepted-IsTaken resp asked resp.status refl)
            (λ body next (is_ok, is_body, same).
              Succeeds-need (Attested out) (out.challenge_of body)
                kbs_response_deserialization_failed next _
                (λ challenge is_challenge.
                  rest_of_handshake-Attested challenge tee next made
                    record {
                      tee = tee;
                      before = ready.calls;
                      is_last = refl;
                      res = resp;
                      answered = answered;
                      is_ok = is_ok;
                      challenge = challenge;
                      is_challenge = ap out.challenge_of (sym is_body) ∙ is_challenge;
                      is_nonce = refl;
                    }
                    same)))))
