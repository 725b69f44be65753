-- ===== src/ResourceUri/RoundTrip.antt =====
-- Reading and printing resource names.
use mathlib.Core.List.{List}
use guest_components.Prelude.{
  ◌≡◌, ◌≢◌, refl, sym, ap, ◌∙◌, inl, inr, false, Option, none, some, [], ◌∷◌, ◌++◌, arith, Str,
  codes, str_eq, str_eq_iff, is_empty, contains, split, join, strip_prefix, Bool-cases,
  Result-cases, ◌⊎◌, ok,
}
use guest_components.Prelude.Split.{split-join, strip_prefix-append}
use guest_components.ResourceUri.Uri.{
  Url, ResourceUri, ResourcePluginPath, scheme_kbs, kbs_plus, default_resource_plugin, trim_from,
  trim_start_kbs_plus, plugin_of, resource_path, scheme_of, plugin_path_try_from, new, new_address,
}

-- The query of a URL with its question mark.
unfoldable pub query_text : Option Str → Str
query_text none = []
query_text (some q) = b'?' ∷ q

-- The host of a URL, with a colon and its port if it has one.
unfoldable pub authority : Option Str → Option Str → Str
authority none port = []
authority (some []) port = []
authority (some (c ∷ host)) none = c ∷ host
authority (some (c ∷ host)) (some port) = (c ∷ host) ++ (b':' ∷ port)

-- A plugin name that is read back: not empty, and no second `kbs+` in front.
pub record IsPluginName (plugin : Str) : Type 0 where
  pub not_empty : plugin ≢ []
  pub one_prefix : strip_prefix kbs_plus plugin ≡ none

trim_start_kbs_plus-append :
    (plugin : Str) → IsPluginName plugin → trim_start_kbs_plus (kbs_plus ++ plugin) ≡ plugin
unfolding trim_start_kbs_plus
trim_start_kbs_plus-append plugin p =
    rw (strip_prefix-append kbs_plus plugin, trim_from) (rw p.one_prefix)

is_empty_of_ne : (s : Str) → s ≢ [] → is_empty s ≡ false
unfolding is_empty
is_empty_of_ne [] h = absurd (h refl)
is_empty_of_ne (c ∷ s) h = refl

plugin_of-append : (plugin : Str) → IsPluginName plugin → plugin_of (kbs_plus ++ plugin) ≡ ok plugin
unfolding plugin_of str_eq
plugin_of-append plugin p =
    rw (strip_prefix-append kbs_plus plugin)
      (rw (trim_start_kbs_plus-append plugin p) (rw (is_empty_of_ne plugin p.not_empty)))

scheme_of_cases :
    (plugin : Str)
    → ((plugin ≡ default_resource_plugin) × (scheme_of plugin ≡ scheme_kbs))
      ⊎ (scheme_of plugin ≡ kbs_plus ++ plugin)
unfolding scheme_of
scheme_of_cases plugin = elim (Bool-cases (str_eq plugin default_resource_plugin)) [
  | inl same ↦ inl ((str_eq_iff _ _).0 same, rw same)
  | inr other ↦ inr (rw other)
]

plugin_of_kbs : plugin_of scheme_kbs ≡ ok default_resource_plugin
unfolding plugin_of str_eq
plugin_of_kbs = refl

-- The scheme that is printed for a plugin is read as that plugin.
plugin_of-scheme_of :
    (plugin : Str) → IsPluginName plugin → plugin_of (scheme_of plugin) ≡ ok plugin
plugin_of-scheme_of plugin p = elim (scheme_of_cases plugin) [
  | inl (same, e) ↦ ap plugin_of e ∙ plugin_of_kbs ∙ ap ok (sym same)
  | inr e ↦ ap plugin_of e ∙ plugin_of-append plugin p
]

-- The scheme names the plugin: `kbs` the plugin `resource`, `kbs+` and a name another one.
pub data Names : Str → Str → Type 0 where
  kbs_scheme : Names (codes "kbs") (codes "resource")
  plugin_scheme :
      {plugin : Str}
      → IsPluginName plugin
      → plugin ≢ codes "resource"
      → Names (codes "kbs+" ++ plugin) plugin

split_slash :
    (names : List Str)
    → split b'/' (join b'/' names) ≡ names
    → split b'/' (b'/' ∷ join b'/' names) ≡ [] ∷ names
unfolding split
split_slash names h = ap (◌∷◌ []) h

-- `ResourceUri::new` keeps the leading slash as an empty first segment: a resource made with a path
-- of a slash and three names without slashes has four segments and prints the slash, and is none of
-- the `resource` plugin's.
pub new-leading_segment :
    (parse_url : Str → Option Url) (kbs_uri repo type tag : Str) (plugin query : Option Str)
    (r : ResourceUri)
    → contains b'/' repo ≡ false
    → contains b'/' type ≡ false
    → contains b'/' tag ≡ false
    → new parse_url kbs_uri (b'/' ∷ join b'/' (repo ∷ type ∷ tag ∷ [])) plugin query ≡ ok r
    → (r.path ≡ [] ∷ repo ∷ type ∷ tag ∷ [])
      × (resource_path r ≡ b'/' ∷ join b'/' (repo ∷ type ∷ tag ∷ []))
      × ¬ ((p : ResourcePluginPath) × (plugin_path_try_from r ≡ ok p))
unfolding new resource_path plugin_path_try_from join
new-leading_segment parse_url kbs_uri repo type tag plugin query r hr ht hg h =
    elim (Result-cases (new_address parse_url kbs_uri)) [
      | inr (x, e) ↦ ground arith
      | inl (address, e) ↦
          let names = repo ∷ type ∷ tag ∷ [] in
          let whole =
            split_slash names (split-join b'/' repo (type ∷ tag ∷ []) (hr, (ht, (hg, tt)))) in
          let path_is : r.path ≡ [] ∷ names = ground (arith, whole) in
          (path_is, ap (join b'/') path_is, λ (p, q). ground arith)
    ]
