-- ===== src/Kbs/Requests.antt =====
-- How often the service is asked.
use guest_components.Prelude.{
  ℕ, suc, ◌+◌, ◌≤◌, Option, none, some, List, [], ◌∷◌, Str, Bytes, arith, Result, ok, err,
}
use guest_components.Kbs.Token.{Token, TokenError}
use guest_components.Kbs.Token
use guest_components.Kbs.Client.{
  Error, Tee, HashAlgorithm, Challenge, Answer, Call, Outside, KbsClient, Op, after, pure, throw,
  need, call, Status, status_ok, unauthorized, not_found, another, attest, get_resource_at, auth,
  get_additional_evidence, primary_evidence, get_evidence, http_error, Attestation,
  kbs_response_deserialization_failed, rcar_handshake_failed, un_authorized, kbs_internal_error,
}
use guest_components.Kbs.Rcar.{
  get_hash_algorithm, primary_runtime_data, lift, get_composite_evidence, tee_of, accepted,
  set_token, attest_with, rcar_handshake, handshake,
}

-- How many of the calls ask for an attestation, and for a resource.
unfoldable pub attestations : List Call → ℕ
attestations [] = 0
attestations (attest a ∷ calls) = suc (attestations calls)
attestations (_ ∷ calls) = attestations calls

unfoldable pub requests : List Call → ℕ
requests [] = 0
requests (get_resource_at token url ∷ calls) = suc (requests calls)
requests (_ ∷ calls) = requests calls

-- So many attestations and requests at most came on top of those before.
pub record Adds {Key A : Type 0} (n k : ℕ) (self : KbsClient Key)
    (r : KbsClient Key × Result Error A) : Type 0 where
  pub attested : attestations r.0.calls ≤ n + attestations self.calls
  pub asked : requests r.0.calls ≤ k + requests self.calls

module _ {Key : Type 0} where
  pub Adds-more :
      {A : Type 0} (n k m l : ℕ) (self : KbsClient Key) (r : KbsClient Key × Result Error A)
      → Adds n k self r
      → n ≤ m
      → k ≤ l
      → Adds m l self r
  Adds-more n k m l self r h x y =
      let a = h.attested in
      let b = h.asked in record { attested = omega (arith, a, x); asked = omega (arith, b, y) }

  pub Adds-after :
      {A B : Type 0} (n k m l : ℕ) (self : KbsClient Key) (r : KbsClient Key × Result Error A)
      (rest : A → Op Key B)
      → Adds n k self r
      → ((a : A) (done : KbsClient Key) → Adds m l done (rest a done))
      → Adds (n + m) (k + l) self (after r rest)
  Adds-after n k m l self (done, ok a) rest h later =
      let x = h.attested in
      let y = h.asked in
      let z = (later a done).attested in
      let w = (later a done).asked in
      record { attested = omega (arith, x, z); asked = omega (arith, y, w) }
  Adds-after n k m l self (done, err e) rest h later =
      let x = h.attested in
      let y = h.asked in record { attested = omega (arith, x); asked = omega (arith, y) }

  pub Adds-need :
      {A : Type 0} (n k : ℕ) (self asked : KbsClient Key) (opt : Option A) (e : Error)
      → attestations asked.calls ≤ n + attestations self.calls
      → requests asked.calls ≤ k + requests self.calls
      → Adds n k self (need opt e asked)
  Adds-need n k self asked none e x y = record { attested = x; asked = y }
  Adds-need n k self asked (some a) e x y = record { attested = x; asked = y }

  pub Adds-call :
      {A : Type 0} (n k : ℕ) (self : KbsClient Key) (c : Call) (answers : List Call → Option A)
      (e : Error)
      → attestations (c ∷ self.calls) ≤ n + attestations self.calls
      → requests (c ∷ self.calls) ≤ k + requests self.calls
      → Adds n k self (call c answers e self)
  Adds-call n k self c answers e x y =
      Adds-need n k self (record self { calls = c ∷ self.calls }) (answers (c ∷ self.calls)) e x y

  pub Adds-lift :
      (out : Outside Key) {A : Type 0} (r : Result Error A) (self : KbsClient Key)
      → Adds 0 0 self (lift out r self)
  Adds-lift out (ok a) self = record { attested = omega arith; asked = omega arith }
  Adds-lift out (err e) self = record { attested = omega arith; asked = omega arith }

  pub Adds-pure :
      (A : Type 0) (self : KbsClient Key) (res : Result Error A) → Adds 0 0 self (self, res)
  Adds-pure A self res = record { attested = omega arith; asked = omega arith }

module _ {Key : Type 0} (out : Outside Key) where
  pub Adds-tee_of : (self : KbsClient Key) → Adds 0 0 self (tee_of out self)
  unfolding tee_of attestations requests
  Adds-tee_of self = by_tee self.tee
    where
      by_tee :
          (opt : Option Tee)
          → Adds {A = Tee} 0 0 self (elim opt [
            | some tee ↦ (self, ok tee)
            | none ↦
                after
                  (call Call.get_tee_type out.tee_type get_evidence self)
                  (λ tee client. (record client { tee = some tee }, ok tee))
          ])
      by_tee (some tee) = Adds-pure Tee self (ok tee)
      by_tee none =
          Adds-after 0 0 0 0 self (call Call.get_tee_type out.tee_type get_evidence self) _
            (Adds-call 0 0 self Call.get_tee_type out.tee_type get_evidence (omega arith)
              (omega arith))
            (λ tee done. record { attested = omega arith; asked = omega arith })

  pub Adds-accepted : (res : Answer) (self : KbsClient Key) → Adds 0 0 self (accepted out res self)
  unfolding accepted
  Adds-accepted res self = by_status res.status
    where
      by_status :
          (s : Status)
          → Adds 0 0 self (
              (elim s as (λ s. Op Key Bytes) [
                | status_ok ↦ pure res.body
                | unauthorized ↦ throw un_authorized
                | not_found ↦ throw kbs_internal_error
                | another ↦ throw kbs_internal_error
              ])
                self)
      by_status status_ok = Adds-pure Bytes self (ok res.body)
      by_status unauthorized = Adds-pure Bytes self (err un_authorized)
      by_status not_found = Adds-pure Bytes self (err kbs_internal_error)
      by_status another = Adds-pure Bytes self (err kbs_internal_error)

  pub Adds-get_composite_evidence :
      (nonce tee_pubkey : Str) (algorithm : HashAlgorithm) (tee : Tee) (self : KbsClient Key)
      → Adds 0 0 self (get_composite_evidence out nonce tee_pubkey algorithm tee self)
  unfolding get_composite_evidence attestations requests
  Adds-get_composite_evidence nonce tee_pubkey algorithm tee self =
      Adds-after 0 0 0 0 self (need (out.device_data nonce tee_pubkey) get_evidence self) _
        (Adds-need 0 0 self self _ get_evidence (omega arith) (omega arith))
        (λ device done.
          Adds-after 0 0 0 0 done _ _
            (Adds-call 0 0 done (get_additional_evidence (out.digest algorithm device)) out.evidence
              get_evidence (omega arith) (omega arith))
            (λ additional next.
              Adds-after 0 0 0 0 next _ _
                (Adds-need 0 0 next next (out.primary_data nonce tee_pubkey additional) get_evidence
                  (omega arith) (omega arith))
                (λ runtime last.
                  Adds-after 0 0 0 0 last _ _ (Adds-lift out (primary_runtime_data out tee _) last)
                    (λ primary_data final.
                      Adds-after 0 0 0 0 final _ _
                        (Adds-call 0 0 final (primary_evidence primary_data) out.evidence
                          get_evidence (omega arith) (omega arith))
                        (λ primary end. Adds-pure _ end _)))))

  pub Adds-set_token :
      (body : Bytes) (self : KbsClient Key) → Adds 0 0 self (set_token out body self)
  unfolding set_token
  Adds-set_token body self = read (out.token_of body)
    where
      parsed :
          (r : Result TokenError Token)
          → Adds {A = Unit {0}} 0 0 self (elim r [
            | err e ↦ (self, err kbs_response_deserialization_failed)
            | ok token ↦ (record self { token = some token }, ok tt)
          ])
      parsed (err e) = Adds-pure _ self _
      parsed (ok token) = record { attested = omega arith; asked = omega arith }

      read :
          (opt : Option Str)
          → Adds {A = Unit {0}} 0 0 self (elim opt [
            | none ↦ (self, err kbs_response_deserialization_failed)
            | some text ↦ elim (Token.new out.decode out.claims_of text) [
              | err e ↦ (self, err kbs_response_deserialization_failed)
              | ok token ↦ (record self { token = some token }, ok tt)
            ]
          ])
      read none = Adds-pure _ self _
      read (some text) = parsed (Token.new out.decode out.claims_of text)

  pub Adds-attest_with :
      (challenge : Challenge) (tee_pubkey : Str) (evidence : Str × Str) (self : KbsClient Key)
      → Adds 1 0 self (attest_with out challenge tee_pubkey evidence self)
  unfolding attest_with attestations requests
  Adds-attest_with challenge tee_pubkey evidence self =
      Adds-after 1 0 0 0 self (call (attest sent) out.http http_error self) _
        (Adds-call 1 0 self (attest sent) out.http http_error (omega arith) (omega arith))
        (λ res done.
          Adds-after 0 0 0 0 done (accepted out res done) _ (Adds-accepted res done)
            (λ body next. Adds-set_token body next))
    where
      sent : Attestation
      sent = record {
        init_data = self.initdata;
        nonce = challenge.nonce;
        tee_pubkey = tee_pubkey;
        primary_evidence = evidence.0;
        additional_evidence = evidence.1;
      }

  pub Adds-rcar_handshake : (self : KbsClient Key) → Adds 1 0 self (rcar_handshake out self)
  unfolding rcar_handshake attestations requests
  Adds-rcar_handshake self =
      Adds-after 0 0 1 0 self (tee_of out self) _ (Adds-tee_of self) (λ tee a.
        Adds-after 0 0 1 0 a _ _
          (Adds-call 0 0 a (auth tee) out.http http_error (omega arith) (omega arith))
          (λ resp b. Adds-after 0 0 1 0 b _ _ (Adds-accepted resp b) (λ body c.
            Adds-after 0 0 1 0 c _ _
              (Adds-need 0 0 c c (out.challenge_of body) kbs_response_deserialization_failed
                (omega arith) (omega arith))
              (λ challenge d.
                Adds-after 0 0 1 0 d _ _
                  (Adds-lift out (get_hash_algorithm out challenge.extra_params) d)
                  (λ algorithm f.
                    Adds-after 0 0 1 0 f _ _
                      (Adds-need 0 0 f f (out.export_pubkey f.tee_key) get_evidence (omega arith)
                        (omega arith))
                      (λ tee_pubkey g.
                        Adds-after 0 0 1 0 g _ _
                          (Adds-get_composite_evidence challenge.nonce tee_pubkey algorithm tee g)
                          (λ evidence h. Adds-attest_with challenge tee_pubkey evidence h)))))))

  pub Adds-handshake : (self : KbsClient Key) → Adds 1 0 self (handshake out self)
  unfolding handshake
  Adds-handshake self = named (rcar_handshake out self) (Adds-rcar_handshake self)
    where
      named :
          (r : KbsClient Key × Result Error (Unit {0}))
          → Adds 1 0 self r
          → Adds {A = Unit {0}} 1 0 self
              (elim r.1 [ ok _ ↦ (r.0, ok tt) | err e ↦ (r.0, err rcar_handshake_failed) ])
      named (done, ok u) h = record { attested = h.attested; asked = h.asked }
      named (done, err e) h = record { attested = h.attested; asked = h.asked }
