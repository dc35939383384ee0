-- ===== src/Tags/Examples.antt =====
-- The claim about merging tags at a concrete input.
use doktok_ng.Prelude.{◌≡◌, refl, not, ◌&&◌, ◌||◌, none, [], ◌∷◌, String}
use doktok_ng.Tags.{Tag, Link, TagRepository, has_link, links_tag, merge_into}
use doktok_ng.Tags.Merge.{merge_into-links}

abbrev tag : String → String → Tag
tag id name = record {
  id = id;
  tenant_id = "acme";
  name = name;
  normalized = name;
  description = "";
  color = "slate";
  status = "active";
  merged_into = none;
  scope = "tenant";
  owner_user_id = none;
  created_at = 3;
  updated_at = none;
}

abbrev link_to : String → String → Link
link_to d id = record { tenant = "acme"; document = d; tag = id }

abbrev trips : TagRepository
trips = record {
  tags = ("g1", tag "g1" "rome") ∷ ("g2", tag "g2" "roma") ∷ [];
  links = link_to "d1" "g1" ∷ link_to "d2" "g2" ∷ [];
}

merge_into-links_example :
    has_link (link_to "d2" "g1") (merge_into "acme" "g2" "g1" trips).0.links ≡ (
      (has_link (link_to "d2" "g1") trips.links
        || (links_tag "acme" "g1" (link_to "d2" "g1") && has_link (link_to "d2" "g2") trips.links))
      && not (links_tag "acme" "g2" (link_to "d2" "g1")))
merge_into-links_example =
    merge_into-links "acme" "g2" "g1" (tag "g2" "roma") (tag "g1" "rome") trips (link_to "d2" "g1")
      refl refl refl
