-- ===== src/Kbs/Evidence.antt =====
-- What the evidence that is sent was asked for: `get_composite_evidence` of client/rcar_client.rs of
-- attestation-agent/kbs_protocol/src.
use guest_components.Prelude.{◌≡◌, refl, some, List, ◌∷◌, Str, Bytes, Result, ok, err}
use guest_components.Kbs.Client.{
  Error, Tee, se, other, HashAlgorithm, Call, Outside, KbsClient, Op, after, primary_evidence,
  get_additional_evidence, get_evidence,
}
use guest_components.Kbs.Rcar.{primary_runtime_data, get_composite_evidence}
use guest_components.Kbs.Resources.{Succeeds, Succeeds-need}

module _ {Key : Type 0} {A B : Type 0} where
  pub Succeeds-then :
      (Q : KbsClient Key → A → Type 0) (P : KbsClient Key → B → Type 0)
      (r : KbsClient Key × Result Error A) (rest : A → Op Key B)
      → Succeeds Q r
      → ((a : A) (done : KbsClient Key) → Q done a → Succeeds P (rest a done))
      → Succeeds P (after r rest)
  Succeeds-then Q P (done, ok a) rest q h = h a done q
  Succeeds-then Q P (done, err e) rest q h = tt

-- The last two calls asked for evidence of the nonce and the public key, the primary one over the
-- additional one as well, and they were answered with these.
pub record Evidenced {Key : Type 0} (out : Outside Key) (nonce tee_pubkey : Str) (key : Key)
    (before : List Call) (self : KbsClient Key) (evidence : Str × Str) : Type 0 where
  pub algorithm : HashAlgorithm
  pub device_runtime_data : Bytes
  pub runtime_data : Bytes
  pub is_device_data : out.device_data nonce tee_pubkey ≡ some device_runtime_data
  pub is_runtime_data : out.primary_data nonce tee_pubkey evidence.1 ≡ some runtime_data
  pub is_additional :
      out.evidence (get_additional_evidence (out.digest algorithm device_runtime_data) ∷ before)
      ≡ some evidence.1
  pub is_primary : out.evidence self.calls ≡ some evidence.0
  pub are_last :
      self.calls
      ≡ primary_evidence (out.digest algorithm runtime_data)
        ∷ get_additional_evidence (out.digest algorithm device_runtime_data)
        ∷ before
  pub same_key : self.tee_key ≡ key

module _ {Key : Type 0} (out : Outside Key) where
  pub get_composite_evidence-Evidenced :
      (nonce tee_pubkey : Str) (algorithm : HashAlgorithm) (tee : Tee) (self : KbsClient Key)
      → Succeeds
          (Evidenced out nonce tee_pubkey self.tee_key self.calls)
          (get_composite_evidence out nonce tee_pubkey algorithm tee self)
  unfolding get_composite_evidence primary_runtime_data
  get_composite_evidence-Evidenced nonce tee_pubkey algorithm se self =
      Succeeds-need (Evidenced out nonce tee_pubkey self.tee_key self.calls)
        (out.device_data nonce tee_pubkey) get_evidence self _
        (λ device is_device.
          Succeeds-need (Evidenced out nonce tee_pubkey self.tee_key self.calls) (out.evidence _)
            get_evidence _ _
            (λ additional is_additional.
              Succeeds-need (Evidenced out nonce tee_pubkey self.tee_key self.calls)
                (out.primary_data nonce tee_pubkey additional) get_evidence _ _
                (λ runtime is_runtime. tt)))
  get_composite_evidence-Evidenced nonce tee_pubkey algorithm (other name) self =
      Succeeds-need (Evidenced out nonce tee_pubkey self.tee_key self.calls)
        (out.device_data nonce tee_pubkey) get_evidence self _
        (λ device is_device.
          Succeeds-need (Evidenced out nonce tee_pubkey self.tee_key self.calls) (out.evidence _)
            get_evidence _ _
            (λ additional is_additional.
              Succeeds-need (Evidenced out nonce tee_pubkey self.tee_key self.calls)
                (out.primary_data nonce tee_pubkey additional) get_evidence _ _
                (λ runtime is_runtime.
                  Succeeds-need (Evidenced out nonce tee_pubkey self.tee_key self.calls)
                    (out.evidence _) get_evidence _ _
                    (λ primary is_primary. record {
                      algorithm = algorithm;
                      device_runtime_data = device;
                      runtime_data = runtime;
                      is_device_data = is_device;
                      is_runtime_data = is_runtime;
                      is_additional = is_additional;
                      is_primary = is_primary;
                      are_last = refl;
                      same_key = refl;
                    }))))
