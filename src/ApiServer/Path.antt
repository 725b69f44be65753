-- ===== src/ApiServer/Path.antt =====
-- Splitting request paths, and reading `runtime_data`: api-server-rest/src/utils.rs.
use guest_components.Prelude.{
  ℕ, zero, suc, ◌+◌, ◌≤◌, ◌≡◌, refl, ap, ◌∙◌, inl, inr, false, Option, none, some, List, [], ◌∷◌,
  ◌++◌, arith, ◌⊎◌, Str, Bytes, codes, str_eq, ◌==◌, ==_iff, if◌then◌else◌, take, drop, length,
  take-length_append, drop-length_append, Bool-cases, Result, ok, err,
}

-- `url.match_indices('/')`: the places of the slashes, behind `offset` bytes
unfoldable pub slash_places : ℕ → Str → List ℕ
slash_places offset [] = []
slash_places offset (c ∷ url) =
    let rest = slash_places (suc offset) url in if c == b'/' then offset ∷ rest else rest

-- `for _ in 0..n { split_pos = splits.next(); }`
unfoldable pub next_times : ℕ → List ℕ → Option ℕ → Option ℕ
next_times zero splits split_pos = split_pos
next_times (suc n) [] split_pos = next_times n [] none
next_times (suc n) (p ∷ splits) split_pos = next_times n splits (some p)

unfoldable pub split_nth_slash : Str → ℕ → Option (Str × Str)
unfolding slash_places next_times
split_nth_slash url n = elim (next_times n (slash_places 0 url) none) [
  | none ↦ none
  | some place ↦ some (take place url, drop place url)
]

pub data DecodeError : Type 0 where
  invalid_base64 unsupported_encoding : DecodeError

-- The base64 decoder is a crate.
unfoldable pub decode_runtime_data :
    (Str → Option Bytes) → Str → Option Str → Result DecodeError Bytes
decode_runtime_data decode runtime_data none = ok runtime_data
decode_runtime_data decode runtime_data (some encoding) =
    if str_eq encoding (codes "base64")
    then elim (decode runtime_data) [ some bytes ↦ ok bytes | none ↦ err invalid_base64 ]
    else err unsupported_encoding

-- How many slashes a text has.
abbrev pub slashes : Str → ℕ
slashes [] = 0
slashes (c ∷ s) = (if c == b'/' then 1 else 0) + slashes s

-- The text up to the slash that has `n` slashes in front of it, and from there on.
pub record IsSplitAt (url : Str) (n : ℕ) (parts : Str × Str) : Type 0 where
  pub whole : parts.0 ++ parts.1 ≡ url
  pub before : slashes parts.0 ≡ n
  pub rest : Str
  pub at_slash : parts.1 ≡ b'/' ∷ rest

next_times-nil : (n : ℕ) → next_times n [] none ≡ none
unfolding next_times
next_times-nil zero = refl
next_times-nil (suc n) = next_times-nil n

-- What a byte that is no slash adds to the search.
abbrev Found : ℕ → Str → ℕ → Option ℕ → Type 0
Found offset url n last =
    ((parts : Str × Str) × (next_times (suc n) (slash_places offset url) last
        ≡ some (offset + length parts.0))
      × IsSplitAt url n parts)
    ⊎ ((next_times (suc n) (slash_places offset url) last ≡ none) × (slashes url ≤ n))

further :
    (offset c : ℕ) (url : Str) (n : ℕ) (last : Option ℕ)
    → c == b'/' ≡ false
    → Found (suc offset) url n last
    → Found offset (c ∷ url) n last
unfolding slash_places
further offset c url n last other (inl (parts, found, s)) = inl (
  (c ∷ parts.0, parts.1),
  rw other (found ∙ ap some (omega arith)),
  record {
    whole = ap (◌∷◌ c) s.whole;
    before = rw other (omega (arith, s.before));
    rest = s.rest;
    at_slash = s.at_slash;
  },
)
further offset c url n last other (inr (missing, few)) =
    inr (rw other missing, rw other (omega arith))

split_at :
    (parts : Str × Str) (url : Str)
    → parts.0 ++ parts.1 ≡ url
    → some (take (length parts.0) url, drop (length parts.0) url) ≡ some parts
split_at (a, b) url h = rw (← h) (rw (take-length_append a b) (rw (drop-length_append a b)))

-- The place found is the length of the part in front of it; none is found if there are too few.
next_times-slash_places :
    (offset : ℕ) (url : Str) (n : ℕ) (last : Option ℕ) → Found offset url n last
unfolding next_times slash_places
next_times-slash_places offset [] n last = inr (next_times-nil n, omega arith)
next_times-slash_places offset (c ∷ url) zero last = elim (Bool-cases (c == b'/')) [
  | inl slash ↦ inl (
    ([], c ∷ url),
    rw slash (ap some (omega arith)),
    record {
      whole = refl;
      before = refl;
      rest = url;
      at_slash = ap (λ (d : ℕ). d ∷ url) ((==_iff c b'/').0 slash);
    },
  )
  | inr other ↦
      further offset c url zero last other (next_times-slash_places (suc offset) url zero last)
]
next_times-slash_places offset (c ∷ url) (suc n) last = elim (Bool-cases (c == b'/')) [
  | inl slash ↦ elim (next_times-slash_places (suc offset) url n (some offset)) [
    | inl (parts, found, s) ↦ inl (
      (c ∷ parts.0, parts.1),
      rw slash (found ∙ ap some (omega arith)),
      record {
        whole = ap (◌∷◌ c) s.whole;
        before = rw slash (omega (arith, s.before));
        rest = s.rest;
        at_slash = s.at_slash;
      },
    )
    | inr (missing, few) ↦ inr (rw slash missing, ground arith)
  ]
  | inr other ↦
      further offset c url (suc n) last other
        (next_times-slash_places (suc offset) url (suc n) last)
]

-- The parts are those around the slash with `n` slashes in front of it; there are none exactly if
-- the text has no such slash.
pub split_nth_slash_lem :
    (url : Str) (n : ℕ)
    → ((parts : Str × Str) × (split_nth_slash url (suc n) ≡ some parts) × IsSplitAt url n parts)
      ⊎ ((split_nth_slash url (suc n) ≡ none) × (slashes url ≤ n))
unfolding split_nth_slash
split_nth_slash_lem url n = elim (next_times-slash_places 0 url n none) [
  | inl (parts, found, s) ↦
      let at : 0 + length parts.0 ≡ length parts.0 = omega arith in
      inl (parts, rw (found, split_nth_slash) (rw at (split_at parts url s.whole)), s)
  | inr (missing, few) ↦ inr (rw (missing, split_nth_slash), few)
]
