-- ===== src/Kbs/Bearer.antt =====
-- The client that is given tokens: client/token_client.rs of attestation-agent/kbs_protocol/src.
use guest_components.Prelude.{ℕ, zero, suc, Option, none, some, Str, Bytes, ok}
use guest_components.Kbs.Token.{Token}
use guest_components.Kbs.Client.{
  Outside, Op, after, ◌>>=◌, ◌>>◌, throw, call, remote_url, readable, open_response, status_ok,
  unauthorized, not_found, another, http_error, kbs_internal_error, resource_not_found,
  un_authorized, get_token_failed, get_resource_at, provide_token,
}

-- The text of a token, which there is.
abbrev pub bearer : Option Token → Option Str
bearer none = none
bearer (some token) = some token.content

module _ {Key : Type 0} (out : Outside Key) where
  unfoldable pub update_token : Op Key (Unit {0})
  update_token self =
      after (call provide_token out.provided get_token_failed self)
        (λ given client. (record client { token = some given.0; tee_key = given.1 }, ok tt))

  -- The token that there is, or a new one.
  unfoldable pub ensure_token : Op Key (Option Token)
  ensure_token self = elim self.token [
    | some token ↦ (self, ok (some token))
    | none ↦ after (update_token self) (λ done client. (client, ok client.token))
  ]

  -- The loop, with how many tries there are.
  unfoldable pub try_with_token : ℕ → Str → Op Key Bytes
  try_with_token zero url = throw un_authorized
  try_with_token (suc more) url = do
    token ← ensure_token
    res ← call (get_resource_at (bearer token) url) out.http http_error
    elim res.status [
      | status_ok ↦ open_response out res
      | unauthorized ↦ readable out res >> (update_token >> try_with_token more url)
      | not_found ↦ readable out res >> throw resource_not_found
      | another ↦ readable out res >> throw kbs_internal_error
    ]

  unfoldable pub get_resource : Str → Str → Option Str → Op Key Bytes
  get_resource plugin resource_path query self =
      try_with_token 3 (remote_url self.kbs_host_url plugin resource_path query) self
