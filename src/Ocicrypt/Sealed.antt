-- ===== src/Ocicrypt/Sealed.antt =====
-- A layer that is encrypted, finished, and decrypted.
use guest_components.Prelude.{
  ℕ, suc, ◌≡◌, ◌↔◌, refl, sym, ap, ◌∙◌, Bool, true, false, not, ◌&&◌, Option, none, some, List, [],
  Bytes, codes, str_eq, str_eq_iff, str_eq_refl, is_empty, get, insert, length, ◌==◌, ==_iff, All,
  Result, ok, >>=-eq-ok, bail_if, >>=-eq-ok,
}
use guest_components.Prelude.Maps.{get-insert}
use guest_components.Ocicrypt.Options.{LayerBlockCipherOptions, get_opt}
use guest_components.Ocicrypt.Cipher.{
  Crypto, CipherError, Reader, AesCtrBlockCipher, aes256ctr, nonce_of, with_nonce, init, encrypt,
  decrypt, apply_keystream, finalized_lbco,
}
use guest_components.Ocicrypt.Streams.{
  read_to_end, reading, giving, concat, verdict, read_states-encrypting, read_states-decrypting,
  apply_keystream_twice,
}

-- What is assumed of the crates: the key stream undoes itself, and a code is never empty.
pub record IsLawful (crypto : Crypto) : Type 0 where
  pub twice :
      (key nonce : Bytes) (place b : ℕ)
      → crypto.mask key nonce place (crypto.mask key nonce place b) ≡ b
  pub some_code : (key text : Bytes) → is_empty (crypto.mac key text) ≡ false

-- Set up with these options, a cipher reads with this key and nonce.
abbrev pub set_up :
    AesCtrBlockCipher → Bool → Bytes → Bytes → LayerBlockCipherOptions → Reader → AesCtrBlockCipher
set_up self encrypting key nonce opts reader = record self {
  encrypting = encrypting;
  state = some (reading key nonce 0 opts.shared.hmac [] reader);
}

init-nonce :
    (self : AesCtrBlockCipher) (encrypting : Bool) (reader : Reader)
    (opts : LayerBlockCipherOptions) (random : Option Bytes) (nonce : Bytes)
    → length opts.secret.symmetric_key ≡ 32
    → (not encrypting && is_empty opts.shared.hmac) ≡ false
    → nonce_of opts random ≡ ok nonce
    → init self encrypting reader opts random
      ≡ ok (
        set_up self encrypting opts.secret.symmetric_key nonce opts reader,
        with_nonce opts nonce,
      )
unfolding init
init-nonce self encrypting reader opts random nonce long code chosen =
    rw ((==_iff (length opts.secret.symmetric_key) 32).1 long) (rw code (rw chosen refl))

-- The options with the nonce noted among the private ones.
abbrev pub noted : LayerBlockCipherOptions → Bytes → LayerBlockCipherOptions
noted opts nonce = record opts {
  secret = record opts.secret {
    cipher_options = insert (codes "nonce") nonce opts.secret.cipher_options;
  };
}

with_nonce-noted :
    (opts : LayerBlockCipherOptions) (nonce : Bytes)
    → get (codes "nonce") opts.secret.cipher_options ≡ none
    → with_nonce opts nonce ≡ noted opts nonce
with_nonce-noted opts nonce missing = rw (missing, with_nonce) refl

module _ (crypto : Crypto) (law : IsLawful crypto) (self : AesCtrBlockCipher)
    (opts : LayerBlockCipherOptions) (key nonce : Bytes) where
  -- Fresh options, and random bytes of the right lengths.
  abbrev pub IsFresh : Type 0
  IsFresh =
      (get (codes "nonce") opts.shared.cipher_options ≡ none)
      × (get (codes "nonce") opts.secret.cipher_options ≡ none)
      × (length key ≡ 32)
      × (length nonce ≡ 16)

  abbrev pub keyed : LayerBlockCipherOptions
  keyed = record opts {
    shared = record opts.shared { cipher_type = aes256ctr };
    secret = record opts.secret { symmetric_key = key };
  }

  pub encrypt-fresh :
      (reader : Reader)
      → IsFresh
      → encrypt self reader aes256ctr opts (some key) (some nonce)
        ≡ ok (set_up self true key nonce keyed reader, noted keyed nonce)
  unfolding encrypt nonce_of get_opt
  encrypt-fresh reader (shared, secret, long_key, long_nonce) = rw (str_eq_refl aes256ctr) (
      init-nonce self true reader keyed (some nonce) nonce long_key refl
        (rw (shared, secret, nonce_of) refl)
      ∙ ap (λ o. ok (set_up self true key nonce keyed reader, o))
          (with_nonce-noted keyed nonce secret))

  -- The options when the layer has been read, with its code.
  abbrev pub coded : Bytes → LayerBlockCipherOptions
  coded hmac = record (noted keyed nonce) { shared = record keyed.shared { hmac = hmac } }

  noted_nonce :
      get (codes "nonce") (insert (codes "nonce") nonce opts.secret.cipher_options) ≡ some nonce
  noted_nonce =
      get-insert (codes "nonce") (codes "nonce") nonce opts.secret.cipher_options
      ∙ rw (str_eq_refl (codes "nonce")) refl

  pub decrypt-coded :
      (reader : Reader) (hmac : Bytes) (random : Option Bytes)
      → IsFresh
      → is_empty hmac ≡ false
      → decrypt self reader (coded hmac) random
        ≡ ok (set_up self false key nonce (coded hmac) reader, with_nonce (coded hmac) nonce)
  unfolding decrypt nonce_of get_opt
  decrypt-coded reader hmac random (shared, secret, long_key, long_nonce) code =
      rw (str_eq_refl aes256ctr) (
        init-nonce self false reader (coded hmac) random nonce long_key code
          (rw (shared, noted_nonce, nonce_of) (rw ((==_iff (length nonce) 16).1 long_nonce) refl)))

  -- A layer that is encrypted with fresh options and read to its end can be finished, and what was
  -- read, however it comes in pieces, is decrypted with the finished options to the layer's bytes.
  pub decrypt-encrypt :
      (chunks : List Bytes)
      → IsFresh
      → All (λ c. is_empty c ≡ false) chunks
      → (c : AesCtrBlockCipher) × (with_key : LayerBlockCipherOptions) × (encrypt self
            (giving chunks)
            aes256ctr
            opts
            (some key)
            (some nonce)
          ≡ ok (c, with_key))
        × (last : AesCtrBlockCipher) × (sealed : Bytes) × (read_to_end crypto
              (suc (length chunks))
              c
            ≡ (last, ok sealed))
        × (finished : LayerBlockCipherOptions) × (finalized_lbco last with_key ≡ ok finished)
        × ((pieces : List Bytes) (random : Option Bytes)
            → All (λ p. is_empty p ≡ false) pieces
            → concat pieces ≡ sealed
            → (d : AesCtrBlockCipher) × (o : LayerBlockCipherOptions) × (decrypt self
                  (giving pieces)
                  finished
                  random
                ≡ ok (d, o))
              × ((read_to_end crypto (suc (length pieces)) d).1 ≡ ok (concat chunks)))
  unfolding finalized_lbco
  decrypt-encrypt chunks fresh full =
      let sealed = apply_keystream crypto key nonce 0 (concat chunks) in
      let (last, reads, (done, code)) =
        read_states-encrypting crypto chunks key nonce 0 opts.shared.hmac [] full in
      let hmac = crypto.mac key sealed in
      (
        set_up self true key nonce keyed (giving chunks),
        noted keyed nonce,
        encrypt-fresh (giving chunks) fresh,
        record self { encrypting = true; state = some last },
        sealed,
        ap (λ r. (record self { encrypting = true; state = some r.0 }, r.1)) reads,
        coded hmac,
        rw done (ap (λ h. ok (coded h)) code),
        λ pieces random whole same. (
          set_up self false key nonce (coded hmac) (giving pieces),
          with_nonce (coded hmac) nonce,
          decrypt-coded (giving pieces) hmac random fresh (law.some_code key sealed),
          read_states-decrypting crypto pieces key nonce 0 hmac [] whole
              ∙ ap
                  (λ text.
                    verdict (str_eq (crypto.mac key text) hmac)
                      (apply_keystream crypto key nonce 0 text))
                  same
              ∙ ap (λ good. verdict good (apply_keystream crypto key nonce 0 sealed))
                  (str_eq_refl hmac)
              ∙ ap ok
                  (apply_keystream_twice crypto key nonce 0 (concat chunks) (law.twice key nonce)),
        ),
      )

same_ok : {A : Type 0} {a b : A} (r : Result CipherError A) → r ≡ ok a → r ≡ ok b → a ≡ b
same_ok r h k = cc

verdict-eq-ok :
    (good : Bool) (text out : Bytes) → (verdict good text ≡ ok out) ↔ ((good ≡ true) × (out ≡ text))
verdict-eq-ok true text out =
    (λ h. (refl, sym (same_ok (verdict true text) refl h)), λ h. ap ok (sym h.1))
verdict-eq-ok false text out = (λ h. cc, λ h. let e = h.0 in cc)

-- A cipher that was set up for decryption has the options' key, code and nonce.
decrypt-eq-ok :
    (self : AesCtrBlockCipher) (reader : Reader) (opts o : LayerBlockCipherOptions)
    (random : Option Bytes) (d : AesCtrBlockCipher)
    → decrypt self reader opts random ≡ ok (d, o)
    → (nonce : Bytes) × (nonce_of opts random ≡ ok nonce)
      × (d ≡ set_up self false opts.secret.symmetric_key nonce opts reader)
unfolding decrypt init
decrypt-eq-ok self reader opts o random d h =
    let (_, typed, begun) =
      >>=-eq-ok (bail_if (not (str_eq opts.shared.cipher_type aes256ctr)) _) _ h in
    let (_, keyed, more) =
      >>=-eq-ok (bail_if (not (length opts.secret.symmetric_key == 32)) _) _ begun in
    let (_, coded, rest) = >>=-eq-ok (bail_if (is_empty opts.shared.hmac) _) _ more in
    let (nonce, chosen, last) = >>=-eq-ok (nonce_of opts random) _ rest in
    (nonce, chosen, ap (λ p. p.0) (same_ok (ok (d, o)) refl (sym last)))

-- Reading a decrypting cipher to its end succeeds exactly if the text that it takes in pieces has the
-- code of the options under their key, and what was read is then all of the text, deciphered under the
-- nonce. The pieces that are read before the end are not covered: they are given out before the code
-- is compared.
pub decrypt-authentic :
    (crypto : Crypto) (self : AesCtrBlockCipher) (pieces : List Bytes)
    (opts o : LayerBlockCipherOptions) (random : Option Bytes) (d : AesCtrBlockCipher)
    → All (λ p. is_empty p ≡ false) pieces
    → decrypt self (giving pieces) opts random ≡ ok (d, o)
    → (nonce : Bytes) × (nonce_of opts random ≡ ok nonce)
      × ((text : Bytes)
          → ((read_to_end crypto (suc (length pieces)) d).1 ≡ ok text) ↔ (
              (crypto.mac opts.secret.symmetric_key (concat pieces) ≡ opts.shared.hmac)
              × (text ≡ apply_keystream crypto opts.secret.symmetric_key nonce 0 (concat pieces))))
decrypt-authentic crypto self pieces opts o random d full h =
    let (nonce, chosen, same) = decrypt-eq-ok self (giving pieces) opts o random d h in
    let key = opts.secret.symmetric_key in
    let reads =
      ap (λ c. (read_to_end crypto (suc (length pieces)) c).1) same
      ∙ read_states-decrypting crypto pieces key nonce 0 opts.shared.hmac [] full in
    (
      nonce,
      chosen,
      λ text.
          let good =
            verdict-eq-ok (str_eq (crypto.mac key (concat pieces)) opts.shared.hmac) _ text in
          let code = str_eq_iff (crypto.mac key (concat pieces)) opts.shared.hmac in
          (
            λ r. let (valid, all) = good.0 (sym reads ∙ r) in (code.0 valid, all),
            λ r. reads ∙ good.1 (code.1 r.0, r.1),
          ),
    )
