-- ===== src/ResourceUri/Uri.antt =====
-- `ResourceUri`: reading it from a URL, printing it, and the path of the `resource` plugin.
use guest_components.Prelude.{
  ℕ, Bool, false, not, Option, none, some, List, [], ◌∷◌, ◌++◌, Str, codes, str_eq, is_empty, split,
  join, strip_prefix, length, ◌==◌, if◌then◌else◌, Result, ok, err, ◌>>=◌, ◌>>◌, bail_if, ok_or,
}

pub data UriError : Type 0 where
  resource_id no_plugin_name bad_scheme : UriError
  wrong_plugin wrong_segments bad_host no_leading_slash : UriError

abbrev pub scheme_kbs : Str
scheme_kbs = codes "kbs"

abbrev pub kbs_plus : Str
kbs_plus = codes "kbs+"

abbrev pub default_resource_plugin : Str
default_resource_plugin = codes "resource"

-- What `url::Url` gives of a parsed URL: `port` in decimal.
pub record Url : Type 0 where
  pub scheme : Str
  pub username : Str
  pub password : Option Str
  pub host : Option Str
  pub port : Option Str
  pub path : Str
  pub query : Option Str
  pub fragment : Option Str

pub record ResourceUri : Type 0 where
  pub kbs_address : Str
  pub plugin : Str
  pub path : List Str
  pub query : Option Str

pub record ResourcePluginPath : Type 0 where
  pub repo : Str
  pub type : Str
  pub tag : Str

abbrev unwrap_or : Option Str → Str → Str
unwrap_or none d = d
unwrap_or (some s) d = s

-- `s.trim_start_matches("kbs+")`, on the text behind the first one: it takes off every one that
-- follows. The fuel is the length of the text.
unfoldable pub trim_from : ℕ → Str → Str
trim_from ℕ.zero s = s
trim_from (ℕ.suc fuel) s = elim (strip_prefix kbs_plus s) [
  | none ↦ s
  | some rest ↦ trim_from fuel rest
]

unfoldable pub trim_start_kbs_plus : Str → Str
unfolding trim_from
trim_start_kbs_plus s = trim_from (length s) s

-- The host, with the port behind a colon where both are there.
unfoldable pub address_of : Url → Str
address_of u =
    let host = unwrap_or u.host [] in
    if is_empty host then host else elim u.port [ none ↦ host | some p ↦ host ++ (b':' ∷ p) ]

unfoldable pub plugin_of : Str → Result UriError Str
plugin_of scheme =
    if str_eq scheme scheme_kbs
    then ok default_resource_plugin
    else elim (strip_prefix kbs_plus scheme) [
      | none ↦ err bad_scheme
      | some _ ↦
          let name = trim_start_kbs_plus scheme in
          if is_empty name then err no_plugin_name else ok name
    ]

-- `&value.path()[1..]`, which takes off the first byte whatever it is.
unfoldable pub segments_of : Str → Result UriError (List Str)
segments_of [] = err resource_id
segments_of (_ ∷ path) = ok (split b'/' path)

-- `TryFrom<url::Url>`
unfoldable pub try_from_url : Url → Result UriError ResourceUri
try_from_url u = do
  plugin ← plugin_of u.scheme
  segments ← segments_of u.path
  ok (record { kbs_address = address_of u; plugin = plugin; path = segments; query = u.query })

unfoldable pub resource_path : ResourceUri → Str
resource_path r = join b'/' r.path

unfoldable pub scheme_of : Str → Str
scheme_of plugin =
    if str_eq plugin default_resource_plugin then scheme_kbs else scheme_kbs ++ (b'+' ∷ plugin)

unfoldable pub whole_uri : ResourceUri → Str
whole_uri r =
    let uri = scheme_of r.plugin ++ (codes "://" ++ (r.kbs_address ++ (b'/' ∷ resource_path r))) in
    elim r.query [ none ↦ uri | some q ↦ uri ++ (b'?' ∷ q) ]

unfoldable three_segments : List Str → Result UriError ResourcePluginPath
three_segments (repo ∷ type ∷ tag ∷ []) = ok (record { repo = repo; type = type; tag = tag })
three_segments _ = err wrong_segments

-- `TryFrom<ResourceUri> for ResourcePluginPath`
unfoldable pub plugin_path_try_from : ResourceUri → Result UriError ResourcePluginPath
unfolding three_segments
plugin_path_try_from r =
    if not (str_eq r.plugin default_resource_plugin)
    then err wrong_plugin
    else three_segments r.path

-- `Url::try_from` of the url crate, `none` where it refuses the text.
module _ (parse_url : Str → Option Url) where
  -- `TryFrom<&str>`
  unfoldable try_from_str : Str → Result UriError ResourceUri
  try_from_str s = do u ← ok_or (parse_url s) resource_id; try_from_url u

  -- `ResourceUri::new`: the address of a URL without a port is the host; a text that is no URL is
  -- the address itself.
  unfoldable pub new_address : Str → Result UriError Str
  new_address kbs_uri = elim (parse_url kbs_uri) [
    | none ↦ ok kbs_uri
    | some u ↦ do
      host ← ok_or u.host bad_host
      ok (elim u.port [ none ↦ host | some p ↦ host ++ (b':' ∷ p) ])
  ]

  abbrev starts_with_slash : Str → Bool
  starts_with_slash [] = false
  starts_with_slash (c ∷ _) = c == b'/'

  unfoldable pub new : Str → Str → Option Str → Option Str → Result UriError ResourceUri
  new kbs_uri path plugin query = do
    address ← new_address kbs_uri
    bail_if (not (starts_with_slash path)) no_leading_slash
    ok (record {
      kbs_address = address;
      plugin = unwrap_or plugin default_resource_plugin;
      path = split b'/' path;
      query = query;
    })
