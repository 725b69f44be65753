-- ===== src/ResourceUri/Tests.antt =====
-- Resource names at concrete inputs, those of the source's tests among them.
use guest_components.Prelude.{
  ◌≡◌, refl, none, some, [], ◌∷◌, ◌++◌, codes, contains, split, join, ok,
}
use guest_components.ResourceUri.Uri.{
  Url, ResourceUri, ResourcePluginPath, resource_path, new, new_address, plugin_path_try_from,
}
use guest_components.ResourceUri.RoundTrip.{new-leading_segment}

abbrev custom_url : Url
custom_url = record {
  scheme = codes "kbs+custom";
  username = [];
  password = none;
  host = some (codes "example.com");
  port = some (codes "8080");
  path = codes "/repo/type/tag";
  query = some (codes "p=1");
  fragment = some (codes "top");
}

abbrev custom : ResourceUri
custom = record {
  kbs_address = codes "example.com:8080";
  plugin = codes "custom";
  path = codes "repo" ∷ codes "type" ∷ codes "tag" ∷ [];
  query = some (codes "p=1");
}

-- No text is a URL, as for the empty address that the attester's command line passes.
abbrev attester_uri : ResourceUri
attester_uri = record {
  kbs_address = [];
  plugin = codes "resource";
  path = [] ∷ codes "repo" ∷ codes "type" ∷ codes "tag" ∷ [];
  query = none;
}

new-leading_segment_example :
    (attester_uri.path ≡ [] ∷ codes "repo" ∷ codes "type" ∷ codes "tag" ∷ [])
    × (resource_path attester_uri
        ≡ codes "/" ++ join 47 (codes "repo" ∷ codes "type" ∷ codes "tag" ∷ []))
    × ¬ ((p : ResourcePluginPath) × (plugin_path_try_from attester_uri ≡ ok p))
unfolding contains new new_address split join
new-leading_segment_example =
    new-leading_segment (λ s. none) [] (codes "repo") (codes "type") (codes "tag")
      (some (codes "resource")) none attester_uri refl refl refl refl
