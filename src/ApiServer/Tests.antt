-- ===== src/ApiServer/Tests.antt =====
-- A server at work, with concrete services and readers of formats.
use guest_components.Prelude.{
  ◌≡◌, refl, true, false, List, Result, some, [], ◌∷◌, Str, get, insert, str_eq, codes, All, ok,
  err,
}
use guest_components.ApiServer.Path.{split_nth_slash, slash_places, next_times}
use guest_components.ApiServer.Clients.{
  Call, Answer, RpcError, local_closed, other_error, token, evidence, runtime_measurement, resource,
  bytes, measured, Services, call, reconnect, ensure_client,
}
use guest_components.ApiServer.Router.{
  Method, get_method, Request, AaelEvent, Router, Formats, octet_stream_response, route, collect,
  rooted_request, aa_request, token_request,
}
use guest_components.ApiServer.Access.{Permits, route-Permits, idle}

abbrev echo_answer : List Call → Call → Result RpcError Answer
echo_answer made (token t) = ok (bytes t)
echo_answer made (evidence b) = ok (bytes b)
echo_answer made (resource r) = ok (bytes r)
echo_answer made (runtime_measurement d o c) = ok (measured 0)
echo_answer made _ = err other_error

abbrev echo : Services
echo = record { answer = echo_answer; connect = λ made peer. ok tt }

abbrev server : Router
server = record { aa_client = true; cdh_client = true; version = codes "1"; feature = codes "all" }

abbrev event : AaelEvent
event = record { domain = codes "d"; operation = codes "o"; content = codes "c" }

abbrev formats : Formats
formats = record {
  parse_query = λ q. (codes "token_type", q) ∷ (codes "runtime_data", q) ∷ [];
  decode_base64 = λ s. some s;
  print_version = λ v. ok [];
  parse_aael = λ b. ok event;
}

abbrev asking : Method → Str → Request
asking method path = record {
  loopback = true;
  method = method;
  path = path;
  query = some (codes "kbs");
  body = ok [];
}

route-Permits_example :
    All
      (λ c. (true ≡ true) × Permits formats echo server (asking get_method (codes "/aa/token")) c)
      (route formats echo server (asking get_method (codes "/aa/token")) (idle false true)).0.calls
route-Permits_example =
    route-Permits formats echo server (asking get_method (codes "/aa/token")) false true

-- The connection is found closed once, and the request is sent again.
abbrev closing_answer : List Call → Call → Result RpcError Answer
closing_answer [] c = err local_closed
closing_answer (d ∷ made) c = echo_answer (d ∷ made) c

abbrev closing : Services
closing = record { answer = closing_answer; connect = λ made peer. ok tt }

retried : route formats closing server (asking get_method (codes "/aa/token")) (idle true true) ≡ (
  record {
    calls = token (codes "kbs") ∷ token (codes "kbs") ∷ [];
    aa_cached = true;
    cdh_cached = true;
  },
  ok (octet_stream_response (codes "kbs")),
)
unfolding route rooted_request aa_request token_request split_nth_slash slash_places next_times
    collect get insert str_eq call reconnect ensure_client
retried = refl
