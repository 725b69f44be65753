-- ===== src/Ocicrypt/Opened.antt =====
-- Where the options of a layer come from, and when later wrappers are not asked.
use guest_components.Prelude.{
  ◌≡◌, true, false, some, List, ◌∷◌, Str, Bytes, get, starts_with, ◌⊎◌, split, Any,
}
use guest_components.Ocicrypt.Keys.{DecryptConfig, KeyWrapper, Texts, Annotations, provider_prefix}

-- This is the first annotation of a key provider.
pub data IsFirstProvider : Annotations → Str → Type 0 where
  first :
      {k v : Str} {annotations : Annotations}
      → starts_with provider_prefix k ≡ true
      → IsFirstProvider ((k, v) ∷ annotations) v
  later :
      {k v text : Str} {annotations : Annotations}
      → starts_with provider_prefix k ≡ false
      → IsFirstProvider annotations text
      → IsFirstProvider ((k, v) ∷ annotations) text

-- The text that is taken for a wrapper: for a key provider the first annotation of any key provider,
-- whatever its name, and for another wrapper the annotation it is known by.
abbrev pub IsAnnotated : Str → Annotations → Str → Type 0
IsAnnotated id annotations text =
    ((starts_with provider_prefix id ≡ true) × IsFirstProvider annotations text)
    ⊎ ((starts_with provider_prefix id ≡ false) × (get id annotations ≡ some text))

module _ (texts : Texts) (dc : DecryptConfig) where
  -- The packet of this part is opened by the key.
  abbrev IsOpenedBy : KeyWrapper → Bytes → Str → Type 0
  IsOpenedBy w opts_data part =
      (packet : Bytes) × (texts.decode part ≡ some packet)
      × (w.unwrap_keys dc packet ≡ some opts_data)

  module _ (wrappers : List (Str × KeyWrapper)) (annotations : Annotations) where
    -- The wrapper of this scheme can be asked, and opens a packet of the text that is taken for it.
    pub record IsOpener (opts_data : Bytes) (entry : Str × Str) : Type 0 where
      pub wrapper : KeyWrapper
      pub known : get entry.1 wrappers ≡ some wrapper
      pub text : Str
      pub annotated : IsAnnotated entry.0 annotations text
      pub probed : wrapper.probe dc.param ≡ true
      pub opened : Any (IsOpenedBy wrapper opts_data) (split b',' text)
