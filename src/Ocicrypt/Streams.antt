-- ===== src/Ocicrypt/Streams.antt =====
-- Reading a cipher to its end.
use guest_components.Prelude.{
  ℕ, zero, suc, ◌+◌, ◌≡◌, refl, sym, ap, ◌∙◌, Bool, true, false, none, some, List, [], ◌∷◌, ◌++◌,
  append-nil, append_assoc, arith, Bytes, str_eq, is_empty, length, All, if◌then◌else◌, Result, ok,
  err,
}
use guest_components.Ocicrypt.Cipher.{
  Crypto, CipherError, hmac_mismatch, not_complete, not_initialized, Reader, CipherState,
  AesCtrBlockCipher, apply_keystream, filled, read_state,
}

-- The bytes of the reads up to the first that gives none, or the error that ends them.
abbrev pub prepend : Bytes → Result CipherError Bytes → Result CipherError Bytes
prepend text (ok rest) = ok (text ++ rest)
prepend text (err e) = err e

abbrev pub concat : List Bytes → Bytes
concat [] = []
concat (text ∷ chunks) = text ++ concat chunks

-- A reader that gives these bytes without an error.
abbrev pub giving : List Bytes → Reader
giving [] = []
giving (text ∷ chunks) = some text ∷ giving chunks

abbrev pub reading : Bytes → Bytes → ℕ → Bytes → Bytes → Reader → CipherState
reading key nonce place exp_hmac hashed reader = record {
  done = false;
  key = key;
  nonce = nonce;
  place = place;
  exp_hmac = exp_hmac;
  hashed = hashed;
  reader = reader;
}

-- A state at the end, with this code.
abbrev pub EndsWith : CipherState → Bytes → Type 0
EndsWith last hmac = (last.done ≡ true) × (last.exp_hmac ≡ hmac)

-- What comes of the comparison at the end.
abbrev pub verdict : Bool → Bytes → Result CipherError Bytes
verdict good text = if good then ok text else err hmac_mismatch

module _ (crypto : Crypto) where
  -- Bytes, and then those of the further reads.
  abbrev pub read_more :
      (CipherState → CipherState × Result CipherError Bytes)
      → CipherState × Result CipherError Bytes
      → CipherState × Result CipherError Bytes
  read_more further (next, err e) = (next, err e)
  read_more further (next, ok []) = (next, ok [])
  read_more further (next, ok (b ∷ text)) = ((further next).0, prepend (b ∷ text) (further next).1)

  unfoldable pub read_states : ℕ → Bool → CipherState → CipherState × Result CipherError Bytes
  read_states zero encrypting state = (state, err not_complete)
  read_states (suc fuel) encrypting state =
      read_more (read_states fuel encrypting) (read_state crypto encrypting state)

  -- `Read::read_to_end`, in at most so many reads.
  abbrev pub read_to_end : ℕ → AesCtrBlockCipher → AesCtrBlockCipher × Result CipherError Bytes
  read_to_end fuel self = elim self.state [
    | none ↦ (self, err not_initialized)
    | some state ↦ (
      record self { state = some (read_states fuel self.encrypting state).0 },
      (read_states fuel self.encrypting state).1,
    )
  ]

  abbrev pub ciphered : Bytes → Bytes → ℕ → Bytes → Bytes
  ciphered key nonce place text = apply_keystream crypto key nonce place text

  pub apply_keystream-append :
      (key nonce : Bytes) (place : ℕ) (a b : Bytes)
      → ciphered key nonce place (a ++ b)
        ≡ ciphered key nonce place a ++ ciphered key nonce (place + length a) b
  unfolding apply_keystream
  apply_keystream-append key nonce place [] b =
      ap (λ p. apply_keystream crypto key nonce p b) (omega arith)
  apply_keystream-append key nonce place (x ∷ a) b = ap (◌∷◌ (crypto.mask key nonce place x)) (
      apply_keystream-append key nonce (suc place) a b
      ∙ ap (λ p. ciphered key nonce (suc place) a ++ ciphered key nonce p b) (omega arith))

  -- Ciphering twice at one place gives the text back.
  pub apply_keystream_twice :
      (key nonce : Bytes) (place : ℕ) (text : Bytes)
      → ((p b : ℕ) → crypto.mask key nonce p (crypto.mask key nonce p b) ≡ b)
      → ciphered key nonce place (ciphered key nonce place text) ≡ text
  unfolding apply_keystream
  apply_keystream_twice key nonce place [] twice = refl
  apply_keystream_twice key nonce place (x ∷ text) twice =
      rw (twice place x) (ap (◌∷◌ x) (apply_keystream_twice key nonce (suc place) text twice))

  -- What is authenticated is the ciphered text, which is what comes out when encrypting.
  pub read_states-encrypting :
      (chunks : List Bytes) (key nonce : Bytes) (place : ℕ) (exp_hmac hashed : Bytes)
      → All (λ c. is_empty c ≡ false) chunks
      → (last : CipherState) × (read_states
            (suc (length chunks))
            true
            (reading key nonce place exp_hmac hashed (giving chunks))
          ≡ (last, ok (ciphered key nonce place (concat chunks))))
        × EndsWith last (crypto.mac key (hashed ++ ciphered key nonce place (concat chunks)))
  unfolding read_states read_state filled apply_keystream is_empty
  read_states-encrypting [] key nonce place exp_hmac hashed full =
      (_, refl, (refl, ap (crypto.mac key) (sym (append-nil hashed))))
  read_states-encrypting ([] ∷ chunks) key nonce place exp_hmac hashed full = let e = full.0 in cc
  read_states-encrypting ((x ∷ text) ∷ chunks) key nonce place exp_hmac hashed full =
      let out = ciphered key nonce place (x ∷ text) in
      let (last, rest, end) =
        read_states-encrypting chunks key nonce (place + length (x ∷ text)) exp_hmac (hashed ++ out)
          full.1 in
      let whole = apply_keystream-append key nonce place (x ∷ text) (concat chunks) in
      (
        last,
        rw rest (ap (λ o. (last, ok o)) (sym whole)),
        (
          end.0,
          end.1 ∙ ap (crypto.mac key) (append_assoc hashed out _ ∙ ap (◌++◌ hashed) (sym whole)),
        ),
      )

  prepend-verdict :
      (a : Bytes) (good : Bool) (text : Bytes)
      → prepend a (verdict good text) ≡ verdict good (a ++ text)
  prepend-verdict a true text = refl
  prepend-verdict a false text = refl

  end_read :
      (further : CipherState → CipherState × Result CipherError Bytes) (state : CipherState)
      (good : Bool)
      → (read_more further (state, verdict good [])).1 ≡ verdict good []
  end_read further state true = refl
  end_read further state false = refl

  -- When decrypting, the ciphered text is what goes in, and its code is compared at the end.
  pub read_states-decrypting :
      (chunks : List Bytes) (key nonce : Bytes) (place : ℕ) (exp_hmac hashed : Bytes)
      → All (λ c. is_empty c ≡ false) chunks
      → (read_states
          (suc (length chunks))
          false
          (reading key nonce place exp_hmac hashed (giving chunks))).1
        ≡ verdict
            (str_eq (crypto.mac key (hashed ++ concat chunks)) exp_hmac)
            (ciphered key nonce place (concat chunks))
  unfolding read_states read_state filled apply_keystream is_empty
  read_states-decrypting [] key nonce place exp_hmac hashed full =
      end_read (read_states 0 false) _ (str_eq (crypto.mac key hashed) exp_hmac)
      ∙ ap (λ h. verdict (str_eq (crypto.mac key h) exp_hmac) []) (sym (append-nil hashed))
  read_states-decrypting ([] ∷ chunks) key nonce place exp_hmac hashed full = let e = full.0 in cc
  read_states-decrypting ((x ∷ text) ∷ chunks) key nonce place exp_hmac hashed full =
      let rest =
        read_states-decrypting chunks key nonce (place + length (x ∷ text)) exp_hmac
          (hashed ++ (x ∷ text)) full.1 in
      let out = ciphered key nonce place (x ∷ text) in
      let more = ciphered key nonce (place + length (x ∷ text)) (concat chunks) in
      ap (prepend out) rest
      ∙ prepend-verdict out _ _
      ∙ ap (λ h. verdict (str_eq (crypto.mac key h) exp_hmac) (out ++ more))
          (append_assoc hashed (x ∷ text) (concat chunks))
      ∙ ap (verdict (str_eq (crypto.mac key (hashed ++ ((x ∷ text) ++ concat chunks))) exp_hmac))
          (sym (apply_keystream-append key nonce place (x ∷ text) (concat chunks)))
