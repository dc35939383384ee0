-- ===== src/Tags.antt =====
-- InMemoryTagRepository of core/doktok_core/tags/inmemory.py, and Tag of
-- contracts/doktok_contracts/schemas.py. A set of links is a list without repetition, whose order
-- is no part of a result.
pub mod Merge
mod Examples
use Prim.Native.Nat.{Ordering}
use Prim.Native.String.{compare}
use doktok_ng.Prelude.{
  ℕ, ◌+◌, Bool, true, false, not, ◌&&◌, Option, none, some, List, [], ◌∷◌, ◌++◌, map, String,
  str_eq, if◌then◌else◌, any, keep, count, length, find_first, sorted, dict_get, dict_set,
  dict_delete, dict_values,
}

pub record Tag : Type 0 where
  pub id : String
  pub tenant_id : String
  pub name : String
  pub normalized : String
  pub description : String
  pub color : String
  pub status : String
  pub merged_into : Option String
  pub scope : String
  pub owner_user_id : Option String
  pub created_at : ℕ
  pub updated_at : Option ℕ

-- (tenant_id, document_id, tag_id)
pub record Link : Type 0 where
  pub tenant : String
  pub document : String
  pub tag : String

pub record TagRepository : Type 0 where
  pub tags : List (String × Tag)
  pub links : List Link

abbrev pub same_link : Link → Link → Bool
same_link a b = str_eq a.tenant b.tenant && str_eq a.document b.document && str_eq a.tag b.tag

-- link in self._links
abbrev pub has_link : Link → List Link → Bool
has_link l links = any (same_link l) links

-- set.add
abbrev pub add_link : Link → List Link → List Link
add_link l links = if has_link l links then links else links ++ l ∷ []

abbrev pub is_of : String → String → Tag → Bool
is_of t normalized tag =
    str_eq tag.tenant_id t && str_eq tag.normalized normalized && str_eq tag.status "active"

-- none is the ValueError
pub create_tag : Tag → TagRepository → Option TagRepository
create_tag tag s =
    if any (is_of tag.tenant_id tag.normalized) (dict_values s.tags)
    then none
    else some (record s { tags = dict_set s.tags tag.id tag })

abbrev pub owned : String → Tag → Bool
owned t tag = str_eq tag.tenant_id t

get_found : String → Option Tag → Option Tag
get_found t none = none
get_found t (some tag) = if owned t tag then some tag else none

pub get_tag : String → String → TagRepository → Option Tag
unfolding get_found
get_tag t id s = get_found t (dict_get s.tags id)

pub find_by_normalized : String → String → TagRepository → Option Tag
find_by_normalized t normalized s = find_first (is_of t normalized) (dict_values s.tags)

-- `<` of the names, by code points
abbrev pub by_name : Tag → Tag → Bool
by_name a b = elim (compare a.name b.name) [ Ordering.lt ↦ true | _ ↦ false ]

pub list_tags : String → String → TagRepository → List Tag
list_tags t status s =
    sorted by_name (keep (λ tag. owned t tag && str_eq tag.status status) (dict_values s.tags))

abbrev pub or_old : Option String → String → String
or_old none old = old
or_old (some new) old = new

abbrev pub edited : Option String → Option String → Option String → Option String → Tag → Tag
edited name normalized description color tag = record tag {
  name = or_old name tag.name;
  normalized = or_old normalized tag.normalized;
  description = or_old description tag.description;
  color = or_old color tag.color;
}

update_found :
    (Tag → Tag) → String → String → Option Tag → TagRepository → TagRepository × Option Tag
update_found f t id none s = (s, none)
update_found f t id (some tag) s =
    if owned t tag
    then (record s { tags = dict_set s.tags id (f tag) }, some (f tag))
    else (s, none)

pub update_tag :
    String
    → String
    → Option String
    → Option String
    → Option String
    → Option String
    → TagRepository
    → TagRepository × Option Tag
unfolding update_found
update_tag t id name normalized description color s =
    update_found (edited name normalized description color) t id (dict_get s.tags id) s

pub set_tag_status : String → String → String → Option String → TagRepository → TagRepository
unfolding update_found
set_tag_status t id status merged_into s =
    let mark : Tag → Tag = λ tag. record tag { status = status; merged_into = merged_into } in
    (update_found mark t id (dict_get s.tags id) s).0

-- link[0] == tenant_id and link[2] == tag_id
abbrev pub links_tag : String → String → Link → Bool
links_tag t id l = str_eq l.tenant t && str_eq l.tag id

delete_found : String → String → Option Tag → TagRepository → TagRepository
delete_found t id none s = s
delete_found t id (some tag) s =
    if owned t tag
    then record { tags = dict_delete s.tags id; links = keep (λ l. not (links_tag t id l)) s.links }
    else s

pub delete_tag : String → String → TagRepository → TagRepository
unfolding delete_found
delete_tag t id s = delete_found t id (dict_get s.tags id) s

-- the loop over the documents of the loser
pub link_all : String → String → List String → List Link → List Link
link_all t tag [] links = links
link_all t tag (d ∷ ds) links =
    link_all t tag ds (add_link (record { tenant = t; document = d; tag = tag }) links)

abbrev pub documents_of : String → String → List Link → List String
documents_of t tag links = map (λ (l : Link). l.document) (keep (links_tag t tag) links)

-- The links after a merge.
pub merged_links : String → String → String → List Link → List Link
unfolding link_all
merged_links t loser_id survivor_id links =
    keep (λ l. not (links_tag t loser_id l))
      (link_all t survivor_id (documents_of t loser_id links) links)

abbrev pub lost_to : String → Tag → Tag
lost_to survivor_id tag = record tag { status = "merged"; merged_into = some survivor_id }

merge_found : String → String → String → Option Tag → Option Tag → TagRepository → TagRepository × ℕ
merge_found t loser_id survivor_id (some loser) (some survivor) s =
    if owned t loser
    then (
      record {
        tags = dict_set s.tags loser_id (lost_to survivor_id loser);
        links = merged_links t loser_id survivor_id s.links;
      },
      length (documents_of t loser_id s.links),
    )
    else (s, 0)
merge_found t loser_id survivor_id none survivor s = (s, 0)
merge_found t loser_id survivor_id (some loser) none s = (s, 0)

pub merge_into : String → String → String → TagRepository → TagRepository × ℕ
unfolding merge_found
merge_into t loser_id survivor_id s =
    merge_found t loser_id survivor_id (dict_get s.tags loser_id) (dict_get s.tags survivor_id) s

pub link : String → String → String → TagRepository → TagRepository
link t d id s = record s {
  links = add_link (record { tenant = t; document = d; tag = id }) s.links;
}

pub unlink : String → String → String → TagRepository → TagRepository
unlink t d id s = record s {
  links = keep (λ l. not (same_link l (record { tenant = t; document = d; tag = id }))) s.links;
}

pub document_count : String → String → TagRepository → ℕ
document_count t id s = count (links_tag t id) s.links
