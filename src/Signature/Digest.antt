-- ===== src/Signature/Digest.antt =====
-- Digests of manifests: image-rs/src/signature/image/digest.rs.
use guest_components.Prelude.{
  ℕ, ◌≡◌, refl, sym, ap, ◌∙◌, Bool, false, ◌||◌, Option, none, some, List, [], ◌∷◌, ◌++◌, arith,
  inl, inr, Str, Bytes, codes, str_eq, str_eq_iff, is_empty, contains, split, join, length, ◌==◌,
  ==_iff, Bool-cases, Option-cases, if◌then◌else◌, Result, ok, err,
}
use guest_components.Prelude.Split.{join-split, split-join}

pub data Algorithm : Type 0 where
  sha256 sha384 sha512 : Algorithm

pub data ParseError : Type 0 where
  invalid_format invalid_length unsupported_algorithm : ParseError

pub record Digest : Type 0 where
  pub algorithm : Str
  pub value : Str

abbrev pub default : Digest
default = record { algorithm = []; value = [] }

unfoldable pub has_no_value : Digest → Bool
has_no_value d = is_empty d.algorithm || is_empty d.value

unfoldable pub display : Digest → Str
display d = d.algorithm ++ (b':' ∷ d.value)

-- The names and the lengths that the enumeration's attributes give.
abbrev pub name : Algorithm → Str
name sha256 = codes "sha256"
name sha384 = codes "sha384"
name sha512 = codes "sha512"

abbrev length_of : Algorithm → ℕ
length_of sha256 = 64
length_of sha384 = 96
length_of sha512 = 128

-- `Algorithm::from_str`
unfoldable pub from_str : Str → Option Algorithm
from_str s =
    if str_eq s (name sha256)
    then some sha256
    else if str_eq s (name sha384)
    then some sha384
    else if str_eq s (name sha512)
    then some sha512
    else none

-- The checks on the two parts; `decode` is the hex crate's.
unfoldable pub of_parts : (Str → Option Bytes) → Str → Str → Result ParseError Digest
of_parts decode algorithm value =
    if is_empty algorithm || is_empty value then err invalid_format else elim (decode value) [
      | none ↦ err invalid_format
      | some _ ↦ elim (from_str algorithm) [
        | none ↦ err unsupported_algorithm
        | some a ↦
            if length value == length_of a
            then ok (record { algorithm = algorithm; value = value })
            else err invalid_length
      ]
    ]

abbrev of_split : (Str → Option Bytes) → List Str → Result ParseError Digest
of_split decode (algorithm ∷ value ∷ []) = of_parts decode algorithm value
of_split decode _ = err invalid_format

-- `Digest::try_from`
unfoldable pub try_from : (Str → Option Bytes) → Str → Result ParseError Digest
try_from decode digest = of_split decode (split b':' digest)

-- A digest of a supported algorithm: hexadecimal, and as long as the algorithm's.
pub record IsDigest (decode : Str → Option Bytes) (d : Digest) : Type 0 where
  pub kind : Algorithm
  pub named : d.algorithm ≡ name kind
  pub long : length d.value ≡ length_of kind
  pub bytes : Bytes
  pub hexadecimal : decode d.value ≡ some bytes

from_str-eq-some : (s : Str) (a : Algorithm) → from_str s ≡ some a → s ≡ name a
unfolding from_str
from_str-eq-some s a h =
    ground
      (arith, str_eq_iff s (name sha256), str_eq_iff s (name sha384), str_eq_iff s (name sha512))

from_str-name : (a : Algorithm) → from_str (name a) ≡ some a
unfolding from_str str_eq
from_str-name sha256 = refl
from_str-name sha384 = refl
from_str-name sha512 = refl

of_parts-eq-ok :
    (decode : Str → Option Bytes) (algorithm value : Str) (d : Digest)
    → of_parts decode algorithm value ≡ ok d
    → IsDigest decode d × (d.algorithm ≡ algorithm) × (d.value ≡ value)
unfolding of_parts
of_parts-eq-ok decode algorithm value d h = elim (Option-cases (decode value)) [
  | inl missing ↦ ground arith
  | inr (b, decoded) ↦ elim (Option-cases (from_str algorithm)) [
    | inl unknown ↦ ground arith
    | inr (a, known) ↦ elim (Bool-cases (length value == length_of a)) [
      | inl long ↦
          let same : record { algorithm = algorithm; value = value } ≡ d = ground arith in
          let of_value : d.value ≡ value = ap (λ (e : Digest). e.value) (sym same) in
          let of_name : d.algorithm ≡ algorithm = ap (λ (e : Digest). e.algorithm) (sym same) in
          (
            record {
              kind = a;
              named = of_name ∙ from_str-eq-some algorithm a known;
              long = ap length of_value ∙ (==_iff (length value) (length_of a)).0 long;
              bytes = b;
              hexadecimal = ap decode of_value ∙ decoded;
            },
            of_name,
            of_value,
          )
      | inr short ↦ ground arith
    ]
  ]
]

of_split-eq-ok :
    (decode : Str → Option Bytes) (parts : List Str) (d : Digest)
    → of_split decode parts ≡ ok d
    → IsDigest decode d × (parts ≡ d.algorithm ∷ d.value ∷ [])
of_split-eq-ok decode [] d h = cc
of_split-eq-ok decode (a ∷ []) d h = cc
of_split-eq-ok decode (a ∷ v ∷ []) d h =
    let (fine, named, valued) = of_parts-eq-ok decode a v d h in (fine, rw (named, valued) refl)
of_split-eq-ok decode (a ∷ v ∷ w ∷ parts) d h = cc

-- A text that is read as a digest is that digest's text, and the digest is of a supported
-- algorithm, hexadecimal, and as long as that algorithm's digests are.
pub display-try_from :
    (decode : Str → Option Bytes) (s : Str) (d : Digest)
    → try_from decode s ≡ ok d
    → (display d ≡ s) × IsDigest decode d
unfolding try_from display join
display-try_from decode s d h =
    let (fine, parts) = of_split-eq-ok decode (split b':' s) d h in
    (sym (ap (join b':') parts) ∙ join-split b':' s, fine)

contains-name : (a : Algorithm) → contains b':' (name a) ≡ false
unfolding contains
contains-name sha256 = refl
contains-name sha384 = refl
contains-name sha512 = refl

name_nonempty : (a : Algorithm) → is_empty (name a) ≡ false
unfolding is_empty
name_nonempty sha256 = refl
name_nonempty sha384 = refl
name_nonempty sha512 = refl

long_nonempty : (s : Str) (a : Algorithm) → length s ≡ length_of a → is_empty s ≡ false
unfolding is_empty
long_nonempty (x ∷ s) a h = refl
long_nonempty [] sha256 h = cc
long_nonempty [] sha384 h = cc
long_nonempty [] sha512 h = cc

of_parts-IsDigest :
    (decode : Str → Option Bytes) (d : Digest)
    → IsDigest decode d
    → of_parts decode d.algorithm d.value ≡ ok d
unfolding of_parts is_empty
of_parts-IsDigest decode d fine =
    rw
      (
        ap is_empty fine.named ∙ name_nonempty fine.kind,
        long_nonempty d.value fine.kind fine.long,
        fine.hexadecimal,
        ap from_str fine.named ∙ from_str-name fine.kind,
        (==_iff (length d.value) (length_of fine.kind)).1 fine.long,
        of_parts,
      )
      refl

-- The text of a digest of a supported algorithm, hexadecimal and as long as that algorithm's, is
-- read back as the digest, if its value has no colon.
try_from-display :
    (decode : Str → Option Bytes) (d : Digest)
    → IsDigest decode d
    → contains b':' d.value ≡ false
    → try_from decode (display d) ≡ ok d
unfolding try_from display join
try_from-display decode d fine plain =
    rw
      (split-join b':' d.algorithm (d.value ∷ [])
        (ap (contains b':') fine.named ∙ contains-name fine.kind, (plain, tt)))
      (of_parts-IsDigest decode d fine)
