-- ===== src/Kbs/Token.antt =====
-- Tokens and their validity: attestation-agent/kbs_protocol/src/token_provider/mod.rs.
use guest_components.Prelude.{
  ℕ, Bool, false, Option, none, some, List, ◌∷◌, Str, Bytes, ltb, split, Result, ok, ◌>>=◌, ◌>>◌,
  bail_if, ok_or,
}

-- The times that are set in a token's claims.
pub record Claims : Type 0 where
  pub expires_at : Option ℕ
  pub invalid_before : Option ℕ

pub record Token : Type 0 where
  pub content : Str
  pub exp : Option ℕ
  pub nbf : Option ℕ

pub data TokenError : Type 0 where
  illegal_token_format bad_base64 bad_claims : TokenError
  token_expired before_validity : TokenError

-- `parts.nth(1)`
abbrev pub second : List Str → Option Str
second (a ∷ b ∷ parts) = some b
second _ = none

-- base64 and JSON are the crates'.
unfoldable pub new : (Str → Option Bytes) → (Bytes → Option Claims) → Str → Result TokenError Token
new decode from_slice token = do
  claims_b64 ← ok_or (second (split b'.' token)) illegal_token_format
  text ← ok_or (decode claims_b64) bad_base64
  claims ← ok_or (from_slice text) bad_claims
  ok (record { content = token; exp = claims.expires_at; nbf = claims.invalid_before })

-- `opt` is there, and before or after now.
abbrev pub is_past : Option ℕ → ℕ → Bool
is_past none now = false
is_past (some exp) now = ltb exp now

abbrev pub is_ahead : Option ℕ → ℕ → Bool
is_ahead none now = false
is_ahead (some nbf) now = ltb now nbf

unfoldable pub check_valid : Token → ℕ → Result TokenError (Unit {0})
check_valid self now =
    bail_if (is_past self.exp now) token_expired >> bail_if (is_ahead self.nbf now) before_validity
