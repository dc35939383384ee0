-- ===== src/Documents/Listing/Wanted.antt =====
-- Which documents a listing asks for: `_filtered` of core/doktok_core/documents/inmemory.py, against
-- a reading of its filters one by one.
use doktok_ng.Prelude.{
  ◌≡◌, ◌≢◌, refl, ap, Bool, true, false, Option, none, some, List, String, sym, ◌∙◌, str_eq,
  str_eq_self, if◌then◌else◌, str_eq→eq, arith, dict_get,
}
use doktok_ng.Documents.Document.{
  Document, DocumentStatus, processing, active, failed, quarantined, duplicate,
}
use doktok_ng.Documents.Filters.{
  StrMethods, Seams, Filters, is_in, or_nothing, title_clean, has_title, matches_tokens,
  matches_tags, passes_status, passes_category, passes_title, passes_flag, status_value, passes,
}

abbrev status_of : String → DocumentStatus
status_of v =
    if str_eq v "processing"
    then processing
    else if str_eq v "active"
    then active
    else if str_eq v "failed"
    then failed
    else if str_eq v "quarantined"
    then quarantined
    else duplicate

status_of_value : (s : DocumentStatus) → status_of (status_value s) ≡ s
status_of_value processing = refl
status_of_value active = refl
status_of_value failed = refl
status_of_value quarantined = refl
status_of_value duplicate = refl

passes_status-same : (wanted s : DocumentStatus) → passes_status (some wanted) s ≡ true → s ≡ wanted
passes_status-same wanted s h =
    sym (status_of_value s)
    ∙ ap status_of (str_eq→eq (status_value s) (status_value wanted) h)
    ∙ status_of_value wanted

same-passes_status :
    (o : Option DocumentStatus) (s : DocumentStatus)
    → ((wanted : DocumentStatus) → o ≡ some wanted → s ≡ wanted)
    → passes_status o s ≡ true
same-passes_status none s h = refl
same-passes_status (some wanted) s h = rw (h wanted refl) (str_eq_self (status_value wanted))

in-passes_category :
    (o : Option String) (cats : List String)
    → ((c : String) → o ≡ some c → is_in c cats ≡ true)
    → passes_category o cats ≡ true
in-passes_category none cats h = refl
in-passes_category (some c) cats h = h c refl

has-passes_title :
    (str : StrMethods) (o title : Option String)
    → ((needle : String) → o ≡ some needle → has_title str needle title ≡ true)
    → passes_title str o title ≡ true
has-passes_title str none title h = refl
has-passes_title str (some needle) title h = h needle refl

flag-passes_flag :
    (o value : Option Bool)
    → (o ≡ some true → value ≡ some true)
    → (o ≡ some false → value ≢ some true)
    → passes_flag o value ≡ true
flag-passes_flag none value h l = refl
flag-passes_flag (some true) value h l = rw (h refl) refl
flag-passes_flag (some false) none h l = refl
flag-passes_flag (some false) (some true) h l = absurd (l refl refl)
flag-passes_flag (some false) (some false) h l = refl

module _ (str : StrMethods) {V : Type 0} (seams : Seams) (t : String) (f : Filters) where
  -- A document is wanted: it is of the tenant, and every filter that is set agrees with it.
  pub record IsWanted (d : Document V) : Type 0 where
    pub owned : d.tenant_id ≡ t
    pub status : (wanted : DocumentStatus) → f.status ≡ some wanted → d.status ≡ wanted
    pub attention : f.needs_attention ≡ true → is_in d.id seams.attention_ids ≡ true
    pub category :
        (c : String)
        → f.category ≡ some c
        → is_in c (or_nothing (dict_get seams.categories_by_doc d.id)) ≡ true
    pub title :
        (needle : String)
        → title_clean str f.title ≡ some needle
        → has_title str needle d.title ≡ true
    pub flagged : f.unidentifiable ≡ some true → d.unidentifiable ≡ some true
    pub unflagged : f.unidentifiable ≡ some false → d.unidentifiable ≢ some true
    pub tokens : matches_tokens str seams f.tokens f.token_type f.token_match d ≡ true
    pub tags : matches_tags str seams f.tag_ids f.tag_match d ≡ true

  pub passes-IsWanted : (d : Document V) → passes str seams t f d ≡ true → IsWanted d
  unfolding passes
  passes-IsWanted d h = record {
    owned = str_eq→eq d.tenant_id t (ground (arith, h));
    status = λ wanted e. ground (arith, h, e, passes_status-same wanted d.status);
    attention = λ e. ground (arith, h, e);
    category = λ c e. ground (arith, h, e);
    title = λ needle e. ground (arith, h, e);
    flagged = λ e. ground (arith, h, e);
    unflagged = λ e g. ground (arith, h, e, g);
    tokens = ground (arith, h);
    tags = ground (arith, h);
  }

  pub IsWanted-passes : (d : Document V) → IsWanted d → passes str seams t f d ≡ true
  unfolding passes
  IsWanted-passes d h =
      let own : str_eq d.tenant_id t ≡ true = rw h.owned (str_eq_self t) in
      ground (
        arith,
        h.attention,
        own,
        same-passes_status f.status d.status h.status,
        in-passes_category f.category (or_nothing (dict_get seams.categories_by_doc d.id))
            h.category,
        has-passes_title str (title_clean str f.title) d.title h.title,
        flag-passes_flag f.unidentifiable d.unidentifiable h.flagged h.unflagged,
        h.tokens,
        h.tags,
      )
