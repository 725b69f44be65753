-- ===== src/Ocicrypt/Tests.antt =====
-- A toy cipher at work.
use guest_components.Prelude.{
  ◌==◌, ◌++◌, if◌then◌else◌, true, contains, join, str_eq_iff, suc, ◌≡◌, ◌↔◌, refl, false, Option,
  none, some, List, [], ◌∷◌, Bytes, codes, str_eq, is_empty, get, length, All, ok,
}
use native.Mathlib.Omega.{arith}
use guest_components.Ocicrypt.Options.{LayerBlockCipherOptions, get_opt}
use guest_components.Ocicrypt.Cipher.{
  Crypto, AesCtrBlockCipher, aes256ctr, nonce_of, init, encrypt, decrypt, apply_keystream,
  finalized_lbco,
}
use guest_components.Ocicrypt.Streams.{read_to_end, giving, concat}
use guest_components.Ocicrypt.Keys.{
  DecryptConfig, EncryptConfig, KeyWrapper, Annotations, pubopts, pre_wrap_key, pre_unwrap_key,
}
use guest_components.Ocicrypt.Layers.{
  EncLayerFinalizer, encrypt_layer, finalize_annotations, decrypt_layer,
}
use guest_components.Ocicrypt.Wrapping.{pre_unwrap_key-pre_wrap_key}
use guest_components.Ocicrypt.Rounds.{IsOpened, decrypt_layer-encrypt_layer}
use guest_components.Ocicrypt.Toy.{texts, texts-IsReadBack}
use guest_components.Ocicrypt.Sealed.{IsLawful, set_up, decrypt-encrypt, decrypt-authentic}

-- Its key stream changes nothing, and its code is the first byte of the text behind a one.
abbrev toy : Crypto
toy = record { mask = λ key nonce place b. b; mac = λ key text. 1 ∷ text }

toy-IsLawful : IsLawful toy
unfolding is_empty
toy-IsLawful = record { twice = λ key nonce place b. refl; some_code = λ key text. refl }

abbrev cipher : AesCtrBlockCipher
cipher = record { key_len = 32; encrypting = false; state = none }

abbrev opts : LayerBlockCipherOptions
opts = record {
  shared = record { cipher_type = []; cipher_options = []; hmac = [] };
  secret = record { symmetric_key = []; cipher_options = []; digest = [] };
}

abbrev key : Bytes
key = codes "0123456789abcdef0123456789abcdef"

abbrev nonce : Bytes
nonce = codes "0123456789abcdef"

abbrev layer : List Bytes
layer = codes "some" ∷ codes "layer" ∷ []

abbrev coded_opts : LayerBlockCipherOptions
coded_opts = record {
  shared = record { cipher_type = aes256ctr; cipher_options = []; hmac = 1 ∷ codes "somelayer" };
  secret = record {
    symmetric_key = key;
    cipher_options = (codes "nonce", nonce) ∷ [];
    digest = [];
  };
}

decrypt-encrypt_example :
    (c : AesCtrBlockCipher) × (with_key : LayerBlockCipherOptions) × (encrypt cipher
        (giving layer)
        aes256ctr
        opts
        (some key)
        (some nonce)
      ≡ ok (c, with_key))
    × (last : AesCtrBlockCipher) × (sealed : Bytes) × (read_to_end toy 3 c ≡ (last, ok sealed))
    × (finished : LayerBlockCipherOptions) × (finalized_lbco last with_key ≡ ok finished)
    × ((pieces : List Bytes) (random : Option Bytes)
        → All (λ p. is_empty p ≡ false) pieces
        → concat pieces ≡ sealed
        → (d : AesCtrBlockCipher) × (o : LayerBlockCipherOptions) × (decrypt cipher
              (giving pieces)
              finished
              random
            ≡ ok (d, o))
          × ((read_to_end toy (suc (length pieces)) d).1 ≡ ok (concat layer)))
unfolding get is_empty
decrypt-encrypt_example =
    decrypt-encrypt toy toy-IsLawful cipher opts key nonce layer (refl, refl, refl, refl)
      (refl, (refl, tt))

abbrev started : AesCtrBlockCipher
started = set_up cipher false key nonce coded_opts (giving layer)

decrypt-authentic_example :
    (n : Bytes) × (nonce_of coded_opts none ≡ ok n)
    × ((text : Bytes)
        → ((read_to_end toy 3 started).1 ≡ ok text) ↔ (
            (toy.mac key (concat layer) ≡ coded_opts.shared.hmac)
            × (text ≡ apply_keystream toy key n 0 (concat layer))))
unfolding get is_empty decrypt init nonce_of get_opt str_eq
decrypt-authentic_example =
    decrypt-authentic toy cipher layer coded_opts coded_opts none started (refl, (refl, tt)) refl

abbrev unprefixed : Bytes → Option Bytes
unprefixed [] = none
unprefixed (b ∷ o) = if b == 7 then some o else none

-- A wrapper that puts a byte before the options.
abbrev wrapper : KeyWrapper
wrapper = record {
  wrap_keys = λ ec o. some (7 ∷ o);
  unwrap_keys = λ dc p. unprefixed p;
  annotation_id = codes "org.opencontainers.image.enc.keys.jwe";
  probe = λ p. true;
  private_keys = λ p. true;
}

abbrev recipients : EncryptConfig
recipients = record { param = []; decrypt_config = none }

abbrev private_key : DecryptConfig
private_key = record { param = [] }

wrapper-IsOpened : IsOpened texts texts-IsReadBack (codes "jwe") wrapper recipients private_key
unfolding is_empty str_eq
wrapper-IsOpened = record {
  probed = refl;
  packet_of = λ o. 7 ∷ o;
  wraps = λ o. refl;
  full = λ o. refl;
  opens = λ o. refl;
  named = λ same.
      let equal = (str_eq_iff wrapper.annotation_id pubopts).1 same in ground (arith, equal);
}

decrypt_layer-encrypt_layer_example :
    (c : AesCtrBlockCipher) × (finalizer : EncLayerFinalizer) × (encrypt_layer texts
        ((codes "jwe", wrapper) ∷ [])
        recipients
        (giving layer)
        none
        (codes "sha256:a")
        (some key)
        (some nonce)
      ≡ ok (some c, finalizer))
    × (last : AesCtrBlockCipher) × (sealed : Bytes) × (read_to_end toy 3 c ≡ (last, ok sealed))
    × (annotations : Annotations) × (finalize_annotations texts
          ((codes "jwe", wrapper) ∷ [])
          finalizer
          recipients
          none
          (some last)
        ≡ ok annotations)
    × ((pieces : List Bytes) (random : Option Bytes)
        → All (λ p. is_empty p ≡ false) pieces
        → concat pieces ≡ sealed
        → (d : AesCtrBlockCipher) × (decrypt_layer texts
              ((codes "jwe", wrapper) ∷ [])
              private_key
              (giving pieces)
              (some annotations)
              false
              random
            ≡ ok (some d, codes "sha256:a"))
          × ((read_to_end toy (suc (length pieces)) d).1 ≡ ok (concat layer)))
unfolding is_empty
decrypt_layer-encrypt_layer_example =
    decrypt_layer-encrypt_layer texts texts-IsReadBack (codes "jwe") wrapper recipients private_key
      wrapper-IsOpened toy toy-IsLawful layer (codes "sha256:a") key nonce refl refl
      (refl, (refl, tt))

-- Another key's packet is in front.
wrap_run :
    pre_wrap_key texts wrapper recipients (join b',' (texts.encode (8 ∷ []) ∷ [])) (codes "o")
    ≡ ok (join b',' (texts.encode (8 ∷ []) ∷ []) ++ (b',' ∷ texts.encode (7 ∷ codes "o")))
unfolding pre_wrap_key join is_empty
wrap_run = refl

pre_unwrap_key-pre_wrap_key_example :
    pre_unwrap_key texts wrapper private_key
      (join b',' (texts.encode (8 ∷ []) ∷ []) ++ (b',' ∷ texts.encode (7 ∷ codes "o")))
    ≡ ok (codes "o")
unfolding contains join is_empty
pre_unwrap_key-pre_wrap_key_example =
    pre_unwrap_key-pre_wrap_key texts texts-IsReadBack wrapper recipients private_key
      (texts.encode (8 ∷ []) ∷ []) (codes "o") (7 ∷ codes "o")
      (join b',' (texts.encode (8 ∷ []) ∷ []) ++ (b',' ∷ texts.encode (7 ∷ codes "o")))
      ((refl, (8 ∷ [], refl, refl)), tt) refl refl wrap_run

abbrev jwe_annotations : Annotations
jwe_annotations = (wrapper.annotation_id, texts.encode (7 ∷ codes "o")) ∷ []
