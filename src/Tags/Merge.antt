-- ===== src/Tags/Merge.antt =====
-- What a merge of two tags does to the links.
use doktok_ng.Prelude.{
  ◌≡◌, refl, inl, inr, Bool, true, not, ◌&&◌, ◌||◌, some, List, [], ◌∷◌, ◌++◌, String, arith,
  eq_iff, any, keep, dict_get, Bool-cases,
}
use doktok_ng.Tags.{
  Tag, Link, TagRepository, same_link, has_link, add_link, owned, links_tag, link_all, documents_of,
  merged_links, merge_into, merge_found,
}

has_link-append :
    (l k : Link) (ls : List Link) → has_link l (ls ++ k ∷ []) ≡ (has_link l ls || same_link l k)
has_link-append l k [] = ground arith
has_link-append l k (j ∷ ls) = ground (arith, has_link-append l k ls)

same_link→has :
    (l k : Link) (ls : List Link)
    → same_link l k ≡ true
    → has_link k ls ≡ true
    → has_link l ls ≡ true
same_link→has l k [] h e = cc
same_link→has l k (j ∷ ls) h e = ground (
  arith,
  h,
  e,
  same_link→has l k ls h,
  eq_iff l.tenant k.tenant,
  eq_iff l.document k.document,
  eq_iff l.tag k.tag,
)

has_link-add :
    (l k : Link) (ls : List Link) → has_link l (add_link k ls) ≡ (has_link l ls || same_link l k)
has_link-add l k ls = elim (Bool-cases (has_link k ls)) [
  | inl e ↦ rw e (
      ground
        (arith, same_link→has l k ls, e, Bool-cases (same_link l k), Bool-cases (has_link l ls)))
  | inr e ↦ rw e (has_link-append l k ls)
]

-- A link to one of the documents.
abbrev links_some : Link → String → String → List String → Bool
links_some l t tag ds = any (λ d. same_link l (record { tenant = t; document = d; tag = tag })) ds

has_link-link_all :
    (l : Link) (t tag : String) (ds : List String) (ls : List Link)
    → has_link l (link_all t tag ds ls) ≡ (has_link l ls || links_some l t tag ds)
unfolding link_all
has_link-link_all l t tag [] ls = ground arith
has_link-link_all l t tag (d ∷ ds) ls =
    let k : Link = record { tenant = t; document = d; tag = tag } in
    ground (arith, has_link-link_all l t tag ds (add_link k ls), has_link-add l k ls)

has_link-keep :
    (l : Link) (t tag : String) (ls : List Link)
    → has_link l (keep (λ k. not (links_tag t tag k)) ls)
      ≡ (has_link l ls && not (links_tag t tag l))
has_link-keep l t tag [] = refl
has_link-keep l t tag (k ∷ ls) = ground (
  arith,
  has_link-keep l t tag ls,
  eq_iff l.tenant k.tenant,
  eq_iff l.document k.document,
  eq_iff l.tag k.tag,
)

links_some-documents :
    (l : Link) (t loser survivor : String) (ls : List Link)
    → links_some l t survivor (documents_of t loser ls) ≡ (
        links_tag t survivor l
        && has_link (record { tenant = t; document = l.document; tag = loser }) ls)
links_some-documents l t loser survivor [] = ground arith
links_some-documents l t loser survivor (k ∷ ls) = ground (
  arith,
  links_some-documents l t loser survivor ls,
  eq_iff k.tenant t,
  eq_iff t k.tenant,
  eq_iff k.tag loser,
  eq_iff loser k.tag,
)

-- Merging a tag of the tenant into one that is there: afterwards a document has a link if it is not
-- one of the tenant to the loser, and it was there before or leads to the survivor from a document
-- of the tenant that had the loser.
pub merge_into-links :
    (t loser_id survivor_id : String) (loser survivor : Tag) (s : TagRepository) (l : Link)
    → dict_get s.tags loser_id ≡ some loser
    → dict_get s.tags survivor_id ≡ some survivor
    → owned t loser ≡ true
    → has_link l (merge_into t loser_id survivor_id s).0.links ≡ (
        (has_link l s.links
          || (links_tag t survivor_id l
              && has_link (record { tenant = t; document = l.document; tag = loser_id }) s.links))
        && not (links_tag t loser_id l))
unfolding merge_into merge_found merged_links
merge_into-links t loser_id survivor_id loser survivor s l a b own =
    let ds = documents_of t loser_id s.links in
    rw a (
      rw b (
        rw own (
          ground (
            arith,
            has_link-keep l t loser_id (link_all t survivor_id ds s.links),
            has_link-link_all l t survivor_id ds s.links,
            links_some-documents l t loser_id survivor_id s.links,
          ))))
