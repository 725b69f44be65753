-- ===== src/Ocicrypt/Cipher.antt =====
-- The cipher as a reader: ocicrypt-rs/src/blockcipher/{aes_ctr, mod}.rs.
use guest_components.Prelude.{
  ℕ, suc, ◌+◌, ◌*◌, Bool, true, false, not, ◌&&◌, Option, none, some, List, [], ◌∷◌, ◌++◌, Str,
  Bytes, codes, str_eq, is_empty, get, insert, length, ◌==◌, if◌then◌else◌, Result, ok, err, ◌>>=◌,
  ◌>>◌, bail_if, ok_or,
}
use guest_components.Ocicrypt.Options.{LayerBlockCipherOptions, get_opt}

-- The crates behind it: a byte of the key stream applied to a byte, by key, nonce and place, and the
-- authentication code of a text under a key.
pub record Crypto : Type 0 where
  pub mask : Bytes → Bytes → ℕ → ℕ → ℕ
  pub mac : Bytes → Bytes → Bytes

pub data CipherError : Type 0 where
  unsupported_bits invalid_key_length no_hmac invalid_nonce_length no_random not_initialized :
      CipherError
  not_complete unsupported_type io_error hmac_mismatch : CipherError

-- What a reader's calls give, one after the other: bytes or an error; at the end no bytes.
abbrev pub Reader : Type 0
Reader = List (Option Bytes)

-- `cipher` is the key, the nonce and the place; `hmac` the key and what it was updated with.
pub record CipherState : Type 0 where
  pub done : Bool
  pub key : Bytes
  pub nonce : Bytes
  pub place : ℕ
  pub exp_hmac : Bytes
  pub hashed : Bytes
  pub reader : Reader

pub record AesCtrBlockCipher : Type 0 where
  pub key_len : ℕ
  pub encrypting : Bool
  pub state : Option CipherState

abbrev pub aes256_key_size : ℕ
aes256_key_size = 32

abbrev pub aes256_nonce_size : ℕ
aes256_nonce_size = 16

abbrev pub aes256ctr : Str
aes256ctr = codes "AES_256_CTR_HMAC_SHA256"

unfoldable pub new : ℕ → Result CipherError AesCtrBlockCipher
new bits = do
  bail_if (not (bits == aes256_key_size * 8)) unsupported_bits
  ok (record { key_len = aes256_key_size; encrypting = false; state = none })

-- The nonce of the options, or what `rand_bytes` gives.
unfoldable pub nonce_of : LayerBlockCipherOptions → Option Bytes → Result CipherError Bytes
nonce_of opts random = elim (get_opt opts (codes "nonce")) [
  | some v ↦ if length v == aes256_nonce_size then ok v else err invalid_nonce_length
  | none ↦ ok_or random no_random
]

-- `entry("nonce").or_insert(nonce)`
abbrev pub with_nonce : LayerBlockCipherOptions → Bytes → LayerBlockCipherOptions
with_nonce opts nonce = elim (get (codes "nonce") opts.secret.cipher_options) [
  | some _ ↦ opts
  | none ↦ record opts {
    secret = record opts.secret {
      cipher_options = insert (codes "nonce") nonce opts.secret.cipher_options;
    };
  }
]

unfoldable pub init :
    AesCtrBlockCipher
    → Bool
    → Reader
    → LayerBlockCipherOptions
    → Option Bytes
    → Result CipherError (AesCtrBlockCipher × LayerBlockCipherOptions)
init self encrypting reader opts random = do
  bail_if (not (length opts.secret.symmetric_key == aes256_key_size)) invalid_key_length
  bail_if (not encrypting && is_empty opts.shared.hmac) no_hmac
  nonce ← nonce_of opts random
  ok (
    record self {
      encrypting = encrypting;
      state = some (record {
        done = false;
        key = opts.secret.symmetric_key;
        nonce = nonce;
        place = 0;
        exp_hmac = opts.shared.hmac;
        hashed = [];
        reader = reader;
      });
    },
    with_nonce opts nonce,
  )

unfoldable pub finalized_lbco :
    AesCtrBlockCipher → LayerBlockCipherOptions → Result CipherError LayerBlockCipherOptions
finalized_lbco self opts = elim self.state [
  | none ↦ err not_initialized
  | some state ↦
      if state.done
      then ok (record opts { shared = record opts.shared { hmac = state.exp_hmac } })
      else err not_complete
]

-- `LayerBlockCipherHandler::encrypt`, with the random bytes of the key and the nonce. On an error the
-- caller drops the options.
unfoldable pub encrypt :
    AesCtrBlockCipher
    → Reader
    → Str
    → LayerBlockCipherOptions
    → Option Bytes
    → Option Bytes
    → Result CipherError (AesCtrBlockCipher × LayerBlockCipherOptions)
encrypt self plain_data_reader typ opts random_key random_nonce = do
  bail_if (not (str_eq typ aes256ctr)) unsupported_type
  key ← ok_or random_key no_random
  init self true plain_data_reader
      (record opts {
        shared = record opts.shared { cipher_type = aes256ctr };
        secret = record opts.secret { symmetric_key = key };
      })
      random_nonce

-- `LayerBlockCipherHandler::decrypt`
unfoldable pub decrypt :
    AesCtrBlockCipher
    → Reader
    → LayerBlockCipherOptions
    → Option Bytes
    → Result CipherError (AesCtrBlockCipher × LayerBlockCipherOptions)
decrypt self enc_data_reader opts random_nonce = do
  bail_if (not (str_eq opts.shared.cipher_type aes256ctr)) unsupported_type
  init self false enc_data_reader opts random_nonce

module _ (crypto : Crypto) where
  -- `apply_keystream`, from a place on
  unfoldable pub apply_keystream : Bytes → Bytes → ℕ → Bytes → Bytes
  apply_keystream key nonce place [] = []
  apply_keystream key nonce place (b ∷ text) =
      crypto.mask key nonce place b ∷ apply_keystream key nonce (suc place) text

  -- One read that gave these bytes.
  unfoldable pub filled : Bool → CipherState → Bytes → CipherState × Result CipherError Bytes
  filled true state [] =
      (record state { done = true; exp_hmac = crypto.mac state.key state.hashed }, ok [])
  filled false state [] = (
    record state { done = true },
    if str_eq (crypto.mac state.key state.hashed) state.exp_hmac then ok [] else err hmac_mismatch,
  )
  filled true state (b ∷ text) =
      let out = apply_keystream state.key state.nonce state.place (b ∷ text) in
      (
        record state { place = state.place + length (b ∷ text); hashed = state.hashed ++ out },
        ok out,
      )
  filled false state (b ∷ text) = (
    record state { place = state.place + length (b ∷ text); hashed = state.hashed ++ (b ∷ text) },
    ok (apply_keystream state.key state.nonce state.place (b ∷ text)),
  )

  unfoldable pub read_state : Bool → CipherState → CipherState × Result CipherError Bytes
  read_state encrypting state = if state.done then (state, ok []) else elim state.reader [
    | [] ↦ filled encrypting state []
    | none ∷ reader ↦ (record state { reader = reader }, err io_error)
    | some text ∷ reader ↦ filled encrypting (record state { reader = reader }) text
  ]

  -- `Read::read`
  unfoldable pub read : AesCtrBlockCipher → AesCtrBlockCipher × Result CipherError Bytes
  read self = elim self.state [
    | none ↦ (self, err not_initialized)
    | some state ↦
        let (next, result) = read_state self.encrypting state in
        (record self { state = some next }, result)
  ]
