-- ===== src/Ocicrypt/Wrapping.antt =====
-- A key that was wrapped is unwrapped.
use guest_components.Prelude.{
  ℕ, append_assoc, ◌≡◌, inl, inr, refl, sym, ap, ◌∙◌, false, none, some, List, [], ◌∷◌, ◌++◌, Str,
  Bytes, is_empty, contains, split, join, if◌then◌else◌, Bool-cases, All, ok, >>=-eq-ok, ok_inj,
  ok_or, ok_or-eq-ok, bail_if, bail_if-eq-ok,
}
use guest_components.Prelude.Split.{split-join}
use guest_components.Ocicrypt.Options.{
  PublicLayerBlockCipherOptions, PrivateLayerBlockCipherOptions,
}
use guest_components.Ocicrypt.Keys.{
  DecryptConfig, EncryptConfig, KeyWrapper, Texts, wrap_failed, no_new_annotation, pre_wrap_key,
  unwrap_packets, pre_unwrap_key,
}

-- What is assumed of base64 and JSON: what is written is read back, and base64 has no comma.
pub record IsReadBack (texts : Texts) : Type 0 where
  pub decoded : (b : Bytes) → texts.decode (texts.encode b) ≡ some b
  pub no_comma : (b : Bytes) → contains b',' (texts.encode b) ≡ false
  pub nonempty : (b : Bytes) → is_empty b ≡ false → is_empty (texts.encode b) ≡ false
  pub secret_read :
      (o : PrivateLayerBlockCipherOptions)
      → texts.secret_from_slice (texts.secret_to_vec o) ≡ some o
  pub secret_some : (o : PrivateLayerBlockCipherOptions) → is_empty (texts.secret_to_vec o) ≡ false
  pub shared_read :
      (o : PublicLayerBlockCipherOptions) → texts.shared_from_slice (texts.shared_to_vec o) ≡ some o

join-snoc :
    (c : ℕ) (p : Str) (ps : List Str) (q : Str)
    → join c (p ∷ ps) ++ (c ∷ q) ≡ join c ((p ∷ ps) ++ (q ∷ []))
unfolding join
join-snoc c p [] q = refl
join-snoc c p (r ∷ ps) q =
    append_assoc p (c ∷ join c (r ∷ ps)) (c ∷ q) ∙ ap (λ t. p ++ (c ∷ t)) (join-snoc c r ps q)

module _ (texts : Texts) (law : IsReadBack texts) (keywrapper : KeyWrapper) (ec : EncryptConfig)
    (dc : DecryptConfig) where
  -- A packet that the key does not open.
  abbrev IsForeign : Str → Type 0
  IsForeign part =
      (contains b',' part ≡ false)
      × ((packet : Bytes) × (texts.decode part ≡ some packet)
          × (keywrapper.unwrap_keys dc packet ≡ none))

  unwrap_packets-last :
      (parts : List Str) (packet opts_data : Bytes)
      → All IsForeign parts
      → keywrapper.unwrap_keys dc packet ≡ some opts_data
      → unwrap_packets texts keywrapper dc (parts ++ (texts.encode packet ∷ [])) ≡ ok opts_data
  unfolding unwrap_packets
  unwrap_packets-last [] packet opts_data foreign opens =
      let read = law.decoded packet in rw read (rw opens refl)
  unwrap_packets-last (part ∷ parts) packet opts_data foreign opens =
      let (other, read, closed) = foreign.0.1 in
      rw read (rw closed (unwrap_packets-last parts packet opts_data foreign.1 opens))

  parts-NoComma :
      (parts : List Str) (packet : Bytes)
      → All IsForeign parts
      → All (λ q. contains b',' q ≡ false) (parts ++ (texts.encode packet ∷ []))
  parts-NoComma [] packet foreign = (law.no_comma packet, tt)
  parts-NoComma (part ∷ parts) packet foreign = (foreign.0.0, parts-NoComma parts packet foreign.1)

  -- What is made of the text that a wrapped key is added to.
  abbrev added : Str → Bytes → Str
  added before packet =
      if is_empty before then texts.encode packet else before ++ (b',' ∷ texts.encode packet)

  split-added :
      (parts : List Str) (packet : Bytes)
      → All IsForeign parts
      → (others : List Str) × All IsForeign others
        × (split b',' (added (join b',' parts) packet) ≡ others ++ (texts.encode packet ∷ []))
  unfolding join is_empty
  split-added [] packet foreign =
      ([], tt, split-join b',' (texts.encode packet) [] (law.no_comma packet, tt))
  split-added (p ∷ ps) packet foreign = elim (Bool-cases (is_empty (join b',' (p ∷ ps)))) [
    | inl none_yet ↦
        ([], tt, rw none_yet (split-join b',' (texts.encode packet) [] (law.no_comma packet, tt)))
    | inr before ↦ (
      p ∷ ps,
      foreign,
      rw before (
          ap (split b',') (join-snoc b',' p ps (texts.encode packet))
          ∙ split-join b',' p (ps ++ (texts.encode packet ∷ []))
              (parts-NoComma (p ∷ ps) packet foreign)),
    )
  ]

  added-some :
      (before : Str) (packet : Bytes)
      → is_empty packet ≡ false
      → is_empty (added before packet) ≡ false
  unfolding is_empty
  added-some [] packet some_packet = law.nonempty packet some_packet
  added-some (c ∷ before) packet some_packet = refl

  -- The options that a key wraps behind packets that the key does not open, each in base64 with
  -- commas between them, are given back when the whole is unwrapped with that key.
  pub pre_unwrap_key-pre_wrap_key :
      (parts : List Str) (opts_data packet : Bytes) (b64_annotations : Str)
      → All IsForeign parts
      → keywrapper.wrap_keys ec opts_data ≡ some packet
      → keywrapper.unwrap_keys dc packet ≡ some opts_data
      → pre_wrap_key texts keywrapper ec (join b',' parts) opts_data ≡ ok b64_annotations
      → pre_unwrap_key texts keywrapper dc b64_annotations ≡ ok opts_data
  unfolding pre_wrap_key pre_unwrap_key
  pre_unwrap_key-pre_wrap_key parts opts_data packet b64_annotations foreign wraps opens h =
      let (other, wrapped, begun) =
        >>=-eq-ok (ok_or (keywrapper.wrap_keys ec opts_data) wrap_failed) _ h in
      let one : other ≡ packet =
        let both = sym (ok_or-eq-ok (keywrapper.wrap_keys ec opts_data) _ other wrapped) ∙ wraps in
        cc in
      let (_, full, last) = >>=-eq-ok (bail_if (is_empty other) no_new_annotation) _ begun in
      let some_packet : is_empty packet ≡ false =
        rw (← one) (bail_if-eq-ok (is_empty other) _ full) in
      let text : added (join b',' parts) packet ≡ b64_annotations =
        ap (added (join b',' parts)) (sym one) ∙ ok_inj _ _ last in
      let (others, closed, shape) = split-added parts packet foreign in
      rw (← text) (
        rw (added-some (join b',' parts) packet some_packet) (
          ap (unwrap_packets texts keywrapper dc) shape
          ∙ unwrap_packets-last others packet opts_data closed opens))
