-- ===== src/ApiServer/Router.antt =====
-- `Router::route` of api-server-rest/src/router.rs.
use guest_components.Prelude.{
  ℕ, Bool, true, false, not, ◌&&◌, Option, none, some, List, [], ◌∷◌, Str, Bytes, codes, str_eq,
  get, insert, if◌then◌else◌, Result, ok, err,
}
use guest_components.ApiServer.Path.{split_nth_slash, decode_runtime_data}
use guest_components.ApiServer.Clients.{
  Services, M, ◌>>=◌, pure, lift, attempt, get_token, get_evidence, get_additional_evidence,
  extend_aael_entry, get_tee_type, get_additional_tees, get_resource,
}

pub data Method : Type 0 where
  get_method post_method other_method : Method

pub record Request : Type 0 where
  pub loopback : Bool
  pub method : Method
  pub path : Str
  pub query : Option Str
  pub body : Result Str Bytes

pub record AaelEvent : Type 0 where
  pub domain : Str
  pub operation : Str
  pub content : Str

pub record VersionInfo : Type 0 where
  pub version : Str
  pub tee : Option Str
  pub additional_tees : List Str
  pub feature : Str

pub record Response : Type 0 where
  pub status : ℕ
  pub content_type : Option Str
  pub body : Bytes

-- The server's fields: whether it has each of its clients, and what `/info` shows.
pub record Router : Type 0 where
  pub aa_client : Bool
  pub cdh_client : Bool
  pub version : Str
  pub feature : Str

-- The crates that read and write the formats.
pub record Formats : Type 0 where
  pub parse_query : Str → List (Str × Str)
  pub decode_base64 : Str → Option Bytes
  pub print_version : VersionInfo → Result Str Bytes
  pub parse_aael : Bytes → Result Str AaelEvent

abbrev pub aa_root : Str
aa_root = codes "/aa"

abbrev pub aa_token_url : Str
aa_token_url = codes "/token"

abbrev pub aa_evidence_url : Str
aa_evidence_url = codes "/evidence"

abbrev pub aa_additional_evidence_url : Str
aa_additional_evidence_url = codes "/additional-evidence"

abbrev pub aa_aael_url : Str
aa_aael_url = codes "/aael"

abbrev pub cdh_root : Str
cdh_root = codes "/cdh"

abbrev pub cdh_resource_url : Str
cdh_resource_url = codes "/resource"

abbrev pub json_response : Bytes → Response
json_response json = record {
  status = 200;
  content_type = some (codes "application/json");
  body = json;
}

abbrev pub octet_stream_response : Bytes → Response
octet_stream_response bytes = record {
  status = 200;
  content_type = some (codes "application/octet-stream");
  body = bytes;
}

abbrev pub plain : ℕ → Bytes → Response
plain status body = record { status = status; content_type = none; body = body }

abbrev pub bad_request : Response
bad_request = plain 400 (codes "BAD REQUEST")

abbrev pub forbidden : Response
forbidden = plain 403 (codes "Forbidden")

abbrev pub not_found : Response
not_found = plain 404 (codes "URL NOT FOUND")

abbrev pub not_allowed : Response
not_allowed = plain 405 (codes "Method Not Allowed")

abbrev pub internal_error : Str → Response
internal_error body = plain 500 body

-- `collect()` into a hash map: a later pair replaces an earlier one of the same key.
unfoldable pub collect : List (Str × Str) → List (Str × Str) → List (Str × Str)
collect m [] = m
collect m ((k, v) ∷ pairs) = collect (insert k v m) pairs

abbrev pub is_get : Method → Bool
is_get get_method = true
is_get _ = false

abbrev pub is_post : Method → Bool
is_post post_method = true
is_post _ = false

-- A client's answer as a response: bytes as they are, an error as status 500.
abbrev pub respond : (Bytes → Response) → Result Str Bytes → M Response
respond build (ok results) = pure (build results)
respond build (err e) = pure (internal_error e)

module _ (formats : Formats) (services : Services) where
  -- `/info`
  unfoldable pub info : Router → Method → M Response
  info self method =
      if not (is_get method)
      then pure not_allowed
      else if self.aa_client
      then (do
        tee ← get_tee_type services
        additional_tees ← get_additional_tees services
        json ← lift (
            formats.print_version (record {
              version = self.version;
              tee = some tee;
              additional_tees = additional_tees;
              feature = self.feature;
            }))
        pure (json_response json))
      else (do
        json ← lift (
            formats.print_version (record {
              version = self.version;
              tee = none;
              additional_tees = [];
              feature = self.feature;
            }))
        pure (json_response json))

  -- `/aa/token`
  unfoldable pub token_request : List (Str × Str) → M Response
  token_request params = elim (get (codes "token_type") params) [
    | none ↦ pure bad_request
    | some token_type ↦ do
      results ← attempt (get_token services token_type)
      respond octet_stream_response results
  ]

  -- `/aa/evidence` and `/aa/additional-evidence`, which differ in the call they make
  unfoldable pub evidence_request : (Bytes → M Bytes) → List (Str × Str) → M Response
  evidence_request ask params = elim (get (codes "runtime_data") params) [
    | none ↦ pure bad_request
    | some runtime_data ↦
        elim (decode_runtime_data formats.decode_base64 runtime_data
          (get (codes "encoding") params)) [
            | err _ ↦ pure bad_request
            | ok bytes ↦ do results ← attempt (ask bytes); respond octet_stream_response results
          ]
  ]

  abbrev pub read_aael : Result Str Bytes → Result Str AaelEvent
  read_aael (ok bytes) = formats.parse_aael bytes
  read_aael (err e) = err e

  -- `/aa/aael`
  unfoldable pub aael_request : Result Str Bytes → M Response
  aael_request body = elim (read_aael body) [
    | err e ↦ pure (internal_error e)
    | ok entry ↦ do
      message ← attempt (extend_aael_entry services entry.domain entry.operation entry.content)
      respond json_response message
  ]

  -- `match (url_path, method)`, in the order of its arms
  unfoldable pub aa_request : Request → List (Str × Str) → Str → M Response
  aa_request req params url_path =
      if str_eq url_path aa_token_url && is_get req.method
      then token_request params
      else if str_eq url_path aa_evidence_url && is_get req.method
      then evidence_request (get_evidence services) params
      else if str_eq url_path aa_additional_evidence_url && is_get req.method
      then evidence_request (get_additional_evidence services) params
      else if str_eq url_path aa_aael_url && is_post req.method
      then aael_request req.body
      else pure not_found

  -- `/cdh`: any method reads a resource
  unfoldable pub cdh_request : Str → M Response
  cdh_request url_path = elim (split_nth_slash url_path 2) [
    | none ↦ pure not_found
    | some (api, resource_path) ↦
        if str_eq api cdh_resource_url
        then (do
          results ← attempt (get_resource services resource_path)
          respond octet_stream_response results)
        else pure not_found
  ]

  unfoldable pub rooted_request : Router → Request → List (Str × Str) → M Response
  rooted_request self req params = elim (split_nth_slash req.path 2) [
    | none ↦ pure not_found
    | some (root_path, url_path) ↦
        if str_eq root_path aa_root
        then (if self.aa_client
            then aa_request req params url_path
            else pure (plain 404 (codes "Attestation Feature Not Enabled")))
        else if str_eq root_path cdh_root
        then (if self.cdh_client
            then cdh_request url_path
            else pure (plain 404 (codes "Resource Feature Not Enabled")))
        else pure not_found
  ]

  abbrev pub params_of : Option Str → List (Str × Str)
  params_of none = []
  params_of (some q) = collect [] (formats.parse_query q)

  unfoldable pub route : Router → Request → M Response
  route self req =
      if not req.loopback
      then pure forbidden
      else if str_eq req.path (codes "/info")
      then info self req.method
      else rooted_request self req (params_of req.query)
