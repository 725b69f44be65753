-- ===== src/Kbs/Tests.antt =====
-- The clients at work: a service that wants an attestation before it gives the resource.
use guest_components.Prelude.{
  ℕ, split, if◌then◌else◌, ◌++◌, ◌≡◌, refl, Option, none, some, Bool, true, List, [], ◌∷◌, Str,
  Bytes, codes, ok, err,
}
use guest_components.Kbs.Token.{Token, Claims, check_valid, token_expired, before_validity}
use guest_components.Kbs.Token
use guest_components.Kbs.Client.{
  other, sha256, named, status_ok, unauthorized, Answer, Call, get_tee_type, auth,
  get_additional_evidence, primary_evidence, attest, get_resource_at, provide_token, Outside,
  KbsClient, readable, open_response, remote_url,
}
use guest_components.Kbs.Rcar.{
  to_lowercase, get_hash_algorithm, primary_runtime_data, get_composite_evidence, tee_of, accepted,
  set_token, attest_with, rcar_handshake, handshake, try_resource,
}
use guest_components.Kbs.Rcar
use guest_components.Kbs.Bearer.{update_token, ensure_token, try_with_token}
use guest_components.Kbs.Bearer
use guest_components.Kbs.Resources.{Obtained, get_resource-Obtained, get_resource-Obtained_by_token}
use guest_components.Kbs.Requests.{Adds}
use guest_components.Kbs.Bounds.{get_resource-Adds}
use guest_components.Kbs.Attested.{Attested, rcar_handshake-Attested}

abbrev attested_before : List Call → Bool
attested_before [] = Bool.false
attested_before (attest a ∷ calls) = true
attested_before (provide_token ∷ calls) = true
attested_before (call ∷ calls) = attested_before calls

abbrev http_of : List Call → Option Answer
http_of (auth tee ∷ calls) = some (record { status = status_ok; body = 1 ∷ [] })
http_of (attest a ∷ calls) = some (record { status = status_ok; body = 2 ∷ [] })
http_of (get_resource_at token url ∷ calls) =
    if attested_before calls
    then some (record { status = status_ok; body = 7 ∷ [] })
    else some (record { status = unauthorized; body = [] })
http_of _ = none

abbrev evidence_of : List Call → Option Str
evidence_of (get_additional_evidence d ∷ calls) = some (5 ∷ d)
evidence_of (primary_evidence d ∷ calls) = some (6 ∷ d)
evidence_of _ = none

abbrev attested_token : Token
attested_token = record { content = codes "h.p.s"; exp = some 90; nbf = none }

abbrev world : Outside ℕ
world = record {
  tee_type = λ calls. some (other (codes "tdx"));
  http = http_of;
  evidence = evidence_of;
  provided = λ calls. some (attested_token, 3);
  now = λ calls. 50;
  challenge_of =
      λ body. some (record { nonce = codes "nonce"; extra_params = named (codes "SHA256") });
  is_error_information = λ body. true;
  algorithm_named = λ name. some sha256;
  token_of = λ body. some (codes "h.p.s");
  decode = λ text. some text;
  claims_of = λ bytes. some (record { expires_at = some 90; invalid_before = none });
  digest = λ algorithm bytes. 0 ∷ bytes;
  device_data = λ nonce key. some (nonce ++ key);
  primary_data = λ nonce key evidence. some (nonce ++ (key ++ evidence));
  export_pubkey = λ key. some (key ∷ []);
  response_of = λ body. some body;
  decrypt_response = λ key body. some (key ∷ body);
}

abbrev client : KbsClient ℕ
client = record {
  tee = none;
  tee_key = 3;
  kbs_host_url = codes "http://kbs";
  token = none;
  initdata = none;
  calls = [];
}

-- A token that is past its time is not valid, nor one before it.
expired : check_valid attested_token 91 ≡ err token_expired
unfolding check_valid
expired = refl

lowered : to_lowercase (codes "SHA-384z") ≡ codes "sha-384z"
unfolding to_lowercase
lowered = refl

abbrev device : Bytes
device = 0 ∷ (codes "nonce" ++ (3 ∷ []))

abbrev runtime : Bytes
runtime = 0 ∷ (codes "nonce" ++ ((3 ∷ []) ++ (5 ∷ device)))

-- The calls of one handshake.
abbrev handshake_calls : List Call → List Call
handshake_calls calls =
    attest (record {
      init_data = none;
      nonce = codes "nonce";
      tee_pubkey = 3 ∷ [];
      primary_evidence = 6 ∷ runtime;
      additional_evidence = 5 ∷ device;
    })
    ∷ primary_evidence runtime
    ∷ get_additional_evidence device
    ∷ auth (other (codes "tdx"))
    ∷ get_tee_type
    ∷ calls

abbrev client_after : List Call → KbsClient ℕ
client_after calls = record client {
  tee = some (other (codes "tdx"));
  token = some attested_token;
  calls = calls;
}

handshake_run : rcar_handshake world client ≡ (client_after (handshake_calls []), ok tt)
unfolding rcar_handshake tee_of accepted get_hash_algorithm get_composite_evidence
    primary_runtime_data attest_with set_token Token.new to_lowercase split
handshake_run = refl

rcar_handshake-Attested_example : Attested world (client_after (handshake_calls [])) tt
rcar_handshake-Attested_example =
    rcar_handshake-Attested world client (client_after (handshake_calls [])) handshake_run

abbrev resource_url : Str
resource_url = codes "http://kbs/kbs/v0/resource/repo/type/tag?v=1"

-- The first request is refused, the second one served.
abbrev resource_calls : List Call
resource_calls =
    get_resource_at none resource_url ∷ handshake_calls (get_resource_at none resource_url ∷ [])

resource_run :
    Rcar.get_resource world (codes "resource") (codes "repo/type/tag") (some (codes "v=1")) client
    ≡ (client_after resource_calls, ok (3 ∷ 7 ∷ []))
unfolding Rcar.get_resource try_resource remote_url readable open_response handshake rcar_handshake
    tee_of accepted get_hash_algorithm get_composite_evidence primary_runtime_data attest_with
    set_token Token.new to_lowercase split
resource_run = refl

get_resource-Obtained_example :
    Obtained world
      (remote_url
        (codes "http://kbs")
        (codes "resource")
        (codes "repo/type/tag")
        (some (codes "v=1")))
      (client_after resource_calls)
      (3 ∷ 7 ∷ [])
get_resource-Obtained_example =
    get_resource-Obtained world (codes "resource") (codes "repo/type/tag") (some (codes "v=1"))
      client (client_after resource_calls) (3 ∷ 7 ∷ []) resource_run

-- The other client gets its token first.
abbrev token_calls : List Call
token_calls = get_resource_at (some (codes "h.p.s")) resource_url ∷ provide_token ∷ []

abbrev bearer_after : KbsClient ℕ
bearer_after = record client { token = some attested_token; calls = token_calls }

bearer_run :
    Bearer.get_resource world (codes "resource") (codes "repo/type/tag") (some (codes "v=1")) client
    ≡ (bearer_after, ok (3 ∷ 7 ∷ []))
unfolding Bearer.get_resource try_with_token remote_url readable open_response update_token
    ensure_token
bearer_run = refl

get_resource-Obtained_by_token_example :
    Obtained world
      (remote_url
        (codes "http://kbs")
        (codes "resource")
        (codes "repo/type/tag")
        (some (codes "v=1")))
      bearer_after
      (3 ∷ 7 ∷ [])
get_resource-Obtained_by_token_example =
    get_resource-Obtained_by_token world (codes "resource") (codes "repo/type/tag")
      (some (codes "v=1")) client bearer_after (3 ∷ 7 ∷ []) bearer_run

get_resource-Adds_example :
    Adds 5 0 client (Rcar.get_token world client)
    × Adds 3 3 client
        (Rcar.get_resource world (codes "resource") (codes "repo/type/tag") none client)
    × Adds 0 3 client
        (Bearer.get_resource world (codes "resource") (codes "repo/type/tag") none client)
get_resource-Adds_example =
    get_resource-Adds world (codes "resource") (codes "repo/type/tag") none client
