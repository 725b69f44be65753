-- ===== src/ApiServer/Access.antt =====
-- Which requests reach the services behind the server.
use guest_components.Prelude.{
  ℕ, ◌≡◌, refl, sym, ap, ◌∙◌, inl, inr, Bool, true, false, ◌&&◌, not, some, List, [], ◌++◌, Str,
  Bytes, codes, str_eq, str_eq_iff, str_eq_refl, get, All, All-map, Bool-cases, Option-cases,
  Result, Result-cases, ok,
}
use guest_components.ApiServer.Path.{split_nth_slash_lem, decode_runtime_data, IsSplitAt}
use guest_components.ApiServer.Clients.{
  Call, Answer, tee_type, additional_tees, token, evidence, additional_evidence,
  runtime_measurement, resource, Services, Session, M, ◌>>=◌, pure, lift, call, bytes_of, texts_of,
  get_tee_type, get_additional_tees, code_of, extend_message,
}
use guest_components.ApiServer.Router.{
  Method, get_method, post_method, other_method, is_get, is_post, Request, Router, Formats, aa_root,
  cdh_root, cdh_resource_url, aa_token_url, aa_evidence_url, aa_additional_evidence_url,
  aa_aael_url, octet_stream_response, json_response, read_aael, params_of, info, token_request,
  evidence_request, aael_request, aa_request, cdh_request, rooted_request, route, not_allowed,
  bad_request, not_found, forbidden, internal_error, plain,
}
use guest_components.ApiServer.Makes.{
  Makes, Makes-pure, Makes-lift, Makes-call, Makes-bind, Makes-if, Makes-ask,
}

module _ (formats : Formats) (services : Services) (self : Router) (req : Request) where
  abbrev params : List (Str × Str)
  params = params_of formats services req.query

  abbrev Asks : Str → Method → Type 0
  Asks path method = (req.path ≡ path) × (req.method ≡ method) × (self.aa_client ≡ true)

  -- The `runtime_data` of the query, decoded.
  abbrev RuntimeData : Bytes → Type 0
  RuntimeData b =
      (text : Str) × (get (codes "runtime_data") params ≡ some text)
      × (decode_runtime_data formats.decode_base64 text (get (codes "encoding") params) ≡ ok b)

  -- What a request has to be for a call to be made on its behalf.
  abbrev pub Permits : Call → Type 0
  Permits tee_type = Asks (codes "/info") get_method
  Permits additional_tees = Asks (codes "/info") get_method
  Permits (token t) =
      Asks (codes "/aa/token") get_method × (get (codes "token_type") params ≡ some t)
  Permits (evidence b) = Asks (codes "/aa/evidence") get_method × RuntimeData b
  Permits (additional_evidence b) =
      Asks (codes "/aa/additional-evidence") get_method × RuntimeData b
  Permits (runtime_measurement d o c) =
      Asks (codes "/aa/aael") post_method
      × (read_aael formats services req.body
          ≡ ok (record { domain = d; operation = o; content = c }))
  Permits (resource r) =
      (rest : Str) × (req.path ≡ codes "/cdh/resource/" ++ rest)
      × (r ≡ codes "kbs:///" ++ rest)
      × (self.cdh_client ≡ true)

  abbrev IsFine : {A : Type 0} → M A → Type 0
  IsFine m = Makes Permits m

  Makes-json : (r : Result Str Bytes) → IsFine (lift r >>= λ json. pure (json_response json))
  Makes-json r =
      Makes-bind Permits (lift r) (λ json. pure (json_response json)) (Makes-lift Permits r)
        (λ json. Makes-pure Permits (json_response json))

  Makes-get :
      {A : Type 0} (c : Call) (f : Answer → A)
      → Permits c
      → IsFine (call services c >>= λ a. pure (f a))
  Makes-get c f p =
      Makes-bind Permits (call services c) (λ a. pure (f a)) (Makes-call Permits services c p)
        (λ a. Makes-pure Permits (f a))

  is_get-true : (m : Method) → is_get m ≡ true → m ≡ get_method
  is_get-true get_method h = refl
  is_get-true post_method h = cc
  is_get-true other_method h = cc

  is_post-true : (m : Method) → is_post m ≡ true → m ≡ post_method
  is_post-true get_method h = cc
  is_post-true post_method h = refl
  is_post-true other_method h = cc

  not-false : {b : Bool} → not b ≡ false → b ≡ true
  not-false {b = true} h = refl
  not-false {b = false} h = cc

  info-Permits : req.path ≡ codes "/info" → IsFine (info formats services self req.method)
  unfolding info
  info-Permits path =
      Makes-if Permits (not (is_get req.method)) _ _ (λ _. Makes-pure Permits not_allowed)
        (λ get.
          Makes-if Permits self.aa_client _ _
            (λ on.
              let asks : Asks (codes "/info") get_method =
                (path, is_get-true req.method (not-false get), on) in
              Makes-bind Permits (get_tee_type services) _ (Makes-get tee_type bytes_of asks)
                (λ tee.
                  Makes-bind Permits (get_additional_tees services) _
                    (Makes-get additional_tees texts_of asks) (λ tees. Makes-json _)))
            (λ off. Makes-json _))

  token-Permits :
      Asks (codes "/aa/token") get_method → IsFine (token_request formats services params)
  unfolding token_request
  token-Permits asks = elim (Option-cases (get (codes "token_type") params)) [
    | inl missing ↦ rw (missing, token_request) (Makes-pure Permits bad_request)
    | inr (t, found) ↦
        rw (found, token_request)
          (Makes-ask Permits services (token t) bytes_of octet_stream_response (asks, found))
  ]

  evidence-Permits :
      (c : Bytes → Call)
      → ((b : Bytes) → RuntimeData b → Permits (c b))
      → IsFine (
          evidence_request formats services
            (λ b. call services (c b) >>= λ a. pure (bytes_of a))
            params)
  unfolding evidence_request
  evidence-Permits c p = elim (Option-cases (get (codes "runtime_data") params)) [
    | inl missing ↦ rw (missing, evidence_request) (Makes-pure Permits bad_request)
    | inr (text, found) ↦
        elim (Result-cases
          (decode_runtime_data formats.decode_base64 text (get (codes "encoding") params))) [
            | inl (b, decoded) ↦
                rw (found, decoded, evidence_request)
                  (Makes-ask Permits services (c b) bytes_of octet_stream_response
                    (p b (text, found, decoded)))
            | inr (e, failed) ↦
                rw (found, failed, evidence_request) (Makes-pure Permits bad_request)
          ]
  ]

  aael-Permits :
      Asks (codes "/aa/aael") post_method → IsFine (aael_request formats services req.body)
  unfolding aael_request
  aael-Permits asks = elim (Result-cases (read_aael formats services req.body)) [
    | inl (entry, read) ↦
        rw (read, aael_request)
          (Makes-ask Permits services
            (runtime_measurement entry.domain entry.operation entry.content)
            (λ a. extend_message (code_of a)) json_response (asks, read))
    | inr (e, failed) ↦ rw (failed, aael_request) (Makes-pure Permits (internal_error e))
  ]

  both : (a b : Bool) → (a && b) ≡ true → (a ≡ true) × (b ≡ true)
  both true true h = (refl, refl)
  both true false h = cc
  both false b h = cc

  -- The path is made of the texts that the parts were compared with.
  path_of :
      (root url : Str) (n : ℕ) (a b : Str)
      → IsSplitAt req.path n (a, b)
      → str_eq a root ≡ true
      → str_eq b url ≡ true
      → req.path ≡ root ++ url
  path_of root url n a b s left right =
      sym s.whole ∙ rw ((str_eq_iff a root).0 left, (str_eq_iff b url).0 right) refl

  aa_request-Permits :
      (b : Str)
      → ((url : Str) → str_eq b url ≡ true → req.path ≡ aa_root ++ url)
      → self.aa_client ≡ true
      → IsFine (aa_request formats services req params b)
  unfolding aa_request
  aa_request-Permits b path on =
      Makes-if Permits (str_eq b aa_token_url && is_get req.method) _ _
        (λ h.
          let (at, get) = both _ _ h in
          token-Permits (path aa_token_url at, is_get-true req.method get, on))
        (λ _.
          Makes-if Permits (str_eq b aa_evidence_url && is_get req.method) _ _
            (λ h.
              let (at, get) = both _ _ h in
              evidence-Permits evidence (λ bytes decoded.
                ((path aa_evidence_url at, is_get-true req.method get, on), decoded)))
            (λ _.
              Makes-if Permits (str_eq b aa_additional_evidence_url && is_get req.method) _ _
                (λ h.
                  let (at, get) = both _ _ h in
                  evidence-Permits additional_evidence (λ bytes decoded. (
                    (path aa_additional_evidence_url at, is_get-true req.method get, on),
                    decoded,
                  )))
                (λ _.
                  Makes-if Permits (str_eq b aa_aael_url && is_post req.method) _ _
                    (λ h.
                      let (at, post) = both _ _ h in
                      aael-Permits (path aa_aael_url at, is_post-true req.method post, on))
                    (λ _. Makes-pure Permits not_found))))

  cdh_request-Permits :
      (b : Str)
      → req.path ≡ cdh_root ++ b
      → self.cdh_client ≡ true
      → IsFine (cdh_request formats services b)
  unfolding cdh_request
  cdh_request-Permits b path on = elim (split_nth_slash_lem b 1) [
    | inl ((api, resource_path), found, s) ↦
        rw (found, cdh_request)
          (Makes-if Permits (str_eq api cdh_resource_url) _ _
            (λ h. Makes-ask Permits services _ bytes_of octet_stream_response (
              s.rest,
              path
                  ∙ ap (◌++◌ cdh_root) (
                      sym s.whole
                      ∙ rw ((str_eq_iff api cdh_resource_url).0 h)
                          (ap (◌++◌ cdh_resource_url) s.at_slash)),
              ap (◌++◌ (codes "kbs://")) s.at_slash,
              on,
            ))
            (λ _. Makes-pure Permits not_found))
    | inr (missing, few) ↦ rw (missing, cdh_request) (Makes-pure Permits not_found)
  ]

  rooted_request-Permits : IsFine (rooted_request formats services self req params)
  unfolding rooted_request
  rooted_request-Permits = elim (split_nth_slash_lem req.path 1) [
    | inl ((root_path, url_path), found, s) ↦
        rw (found, rooted_request)
          (Makes-if Permits (str_eq root_path aa_root) _ _
            (λ aa.
              Makes-if Permits self.aa_client _ _
                (aa_request-Permits url_path (λ url at. path_of aa_root url 1 _ _ s aa at))
                (λ _. Makes-pure Permits (plain 404 (codes "Attestation Feature Not Enabled"))))
            (λ _.
              Makes-if Permits (str_eq root_path cdh_root) _ _
                (λ cdh.
                  Makes-if Permits self.cdh_client _ _
                    (cdh_request-Permits url_path
                      (path_of cdh_root url_path 1 _ _ s cdh (str_eq_refl url_path)))
                    (λ _. Makes-pure Permits (plain 404 (codes "Resource Feature Not Enabled"))))
                (λ _. Makes-pure Permits not_found)))
    | inr (missing, few) ↦ rw (missing, rooted_request) (Makes-pure Permits not_found)
  ]

  local-Permits : IsFine (route formats services self req)
  unfolding route
  local-Permits =
      Makes-if Permits (not req.loopback) _ _ (λ _. Makes-pure Permits forbidden)
        (λ _.
          Makes-if Permits (str_eq req.path (codes "/info")) _ _
            (λ at. info-Permits ((str_eq_iff _ _).0 at)) (λ _. rooted_request-Permits))

-- No call was made yet.
abbrev pub idle : Bool → Bool → Session
idle aa_cached cdh_cached = record { calls = []; aa_cached = aa_cached; cdh_cached = cdh_cached }

-- A request is the cause of a call to the attestation agent or the data hub only if it is the one
-- that the call's route is for: a GET of `/info`, `/aa/token` with its `token_type`, `/aa/evidence`
-- or `/aa/additional-evidence` with `runtime_data` that decodes to the call's bytes, a POST of
-- `/aa/aael` whose body reads as the event, or any method on `/cdh/resource/` and the resource's
-- path; in each case from the loopback address and with the service's client present. This holds of the
-- calls that are sent again after a connection was found closed as well.
pub route-Permits :
    (formats : Formats) (services : Services) (self : Router) (req : Request)
    (aa_cached cdh_cached : Bool)
    → All
        (λ c. (req.loopback ≡ true) × Permits formats services self req c)
        (route formats services self req (idle aa_cached cdh_cached)).0.calls
unfolding route
route-Permits formats services self req aa_cached cdh_cached = elim (Bool-cases req.loopback) [
  | inl local ↦
      All-map _ _ (λ c p. (local, p))
        (route formats services self req (idle aa_cached cdh_cached)).0.calls
        (local-Permits formats services self req (idle aa_cached cdh_cached) tt)
  | inr remote ↦ rw (remote, route) tt
]
