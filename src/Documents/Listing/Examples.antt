-- ===== src/Documents/Listing/Examples.antt =====
-- The claim about the pages of the listing at a concrete input.
use doktok_ng.Prelude.{true, false, none, some, [], ◌∷◌, String}
use doktok_ng.Documents.Document.{Document, active}
use doktok_ng.Documents.Store.{Store}
use doktok_ng.Documents.Filters.{StrMethods, Seams, Filters, match_all, created}
use doktok_ng.Documents.Listing.{desc, ListAnchor}
use doktok_ng.Documents.Filters.{number}

abbrev plain : StrMethods
plain = record { lower = λ s. s; strip = λ s. s; has_part = λ n s. true }

abbrev no_seams : Seams
no_seams = record {
  attention_ids = [];
  categories_by_doc = [];
  tokens_by_doc = ("d1", ("ORG", "acme") ∷ []) ∷ ("d2", ("ORG", "acme") ∷ []) ∷ [];
  tag_links = [];
  entity_counts_by_doc = [];
  chunk_counts_by_doc = [];
}

abbrev of_acme : Filters
of_acme = record {
  status = some active;
  category = none;
  needs_attention = false;
  unidentifiable = some false;
  title = none;
  tokens = "acme" ∷ [];
  token_type = some "ORG";
  token_match = match_all;
  tag_ids = [];
  tag_match = match_all;
}

abbrev invoice : String → Document String
invoice id = record {
  id = id;
  tenant_id = "t1";
  current_version_id = none;
  sha256 = id;
  original_filename = "invoice.pdf";
  detected_mime = none;
  title = none;
  title_source = "auto";
  status = active;
  storage_path = none;
  created_at = 5;
  activated_at = none;
  ingested_at = none;
  document_date = some 19_000;
  location = none;
  summary = none;
  unidentifiable = none;
  duplicate_of = none;
  metadata = [];
}

abbrev invoices : Store String
invoices = record { docs = ("d1", invoice "d1") ∷ ("d2", invoice "d2") ∷ ("d3", invoice "d3") ∷ [] }

abbrev cursor : ListAnchor
cursor = record { sort = created; direction = desc; value = some (number 19_000); doc_id = "d2" }
