-- ===== src/Documents/Store.antt =====
-- InMemoryDocumentRepository of core/doktok_core/documents/inmemory.py: the documents, and the
-- operations on them but for the listings. `text` makes a value of the metadata of a text, and
-- `equals` is `==` between values; `now` is what `datetime.now(UTC)` returns.
pub mod Copies
pub mod Follows
pub mod Calls
pub mod Adds
pub mod Finishes
mod Examples
use doktok_ng.Prelude.{
  ℕ, Bool, true, false, not, ◌&&◌, ◌||◌, Option, none, some, List, [], ◌∷◌, String, str_eq, ltb,
  if◌then◌else◌, keep, find_first, dict_get, dict_set, dict_values, dict_delete,
}
use doktok_ng.Documents.Document.{Document, processing, active, failed, is_processing, is_active}

pub record Store (V : Type 0) : Type 0 where
  pub docs : List (String × Document V)

-- What a method gives that may raise.
pub data Result (A : Type 0) : Type 0 where
  returned : A → Result A
  value_error duplicate_active : Result A

-- the truth of `find_active_by_sha256(...)`: an empty id counts as no document
abbrev pub is_found : Option String → Bool
is_found none = false
is_found (some id) = not (str_eq id "")

module _ {V : Type 0} where
  abbrev pub owned_by : String → Document V → Bool
  owned_by t d = str_eq d.tenant_id t

  abbrev pub is_copy : String → String → Document V → Bool
  is_copy t sha d = str_eq d.tenant_id t && str_eq d.sha256 sha && is_active d.status

  abbrev pub is_unfinished : String → String → Document V → Bool
  is_unfinished t sha d =
      str_eq d.tenant_id t && str_eq d.sha256 sha && (is_active d.status || is_processing d.status)

  abbrev pub id_of : Option (Document V) → Option String
  id_of none = none
  id_of (some d) = some d.id

  unfoldable pub find_active_by_sha256 : String → String → Store V → Option String
  find_active_by_sha256 t sha s = id_of (find_first (is_copy t sha) (dict_values s.docs))

  pub find_unfinished_by_sha256 : String → String → Store V → Option String
  find_unfinished_by_sha256 t sha s = id_of (find_first (is_unfinished t sha) (dict_values s.docs))

  -- `document.status is ACTIVE and self.find_active_by_sha256(...)`
  abbrev pub has_twin : Document V → Store V → Bool
  has_twin d s = is_active d.status && is_found (find_active_by_sha256 d.tenant_id d.sha256 s)

  add_found : Document V → Option (Document V) → Store V → Store V × Result Unit
  add_found d (some old) s = (s, value_error)
  add_found d none s =
      if has_twin d s
      then (s, duplicate_active)
      else (record s { docs = dict_set s.docs d.id d }, returned tt)

  pub add : Document V → Store V → Store V × Result Unit
  unfolding add_found
  add d s = add_found d (dict_get s.docs d.id) s

  get_found : String → Option (Document V) → Option (Document V)
  get_found t none = none
  get_found t (some d) = if owned_by t d then some d else none

  pub get : String → String → Store V → Option (Document V)
  unfolding get_found
  get t id s = get_found t (dict_get s.docs id)

  abbrev and_then : Option (Document V) → List (Document V) → List (Document V)
  and_then none ds = ds
  and_then (some d) ds = d ∷ ds

  pub get_many : String → List String → Store V → List (Document V)
  unfolding get
  get_many t [] s = []
  get_many t (id ∷ ids) s = and_then (get t id s) (get_many t ids s)

  -- `doc is not None and doc.tenant_id == tenant_id`, and the assignments to the document
  change_found :
      (Document V → Document V) → String → String → Option (Document V) → Store V → Store V
  change_found f t id none s = s
  change_found f t id (some d) s =
      if owned_by t d then record s { docs = dict_set s.docs id (f d) } else s

  pub change : (Document V → Document V) → String → String → Store V → Store V
  unfolding change_found
  change f t id s = change_found f t id (dict_get s.docs id) s

  abbrev pub new_title : Option String → Document V → Option String
  new_title none d = d.title
  new_title (some title) d = if not (str_eq d.title_source "manual") then some title else d.title

  abbrev pub with_metadata :
      Option String → Option ℕ → Option String → Option String → Document V → Document V
  with_metadata title date location summary d = record d {
    title = new_title title d;
    document_date = date;
    location = location;
    summary = summary;
  }

  pub set_metadata :
      String → String → Option String → Option ℕ → Option String → Option String → Store V → Store V
  set_metadata t id title date location summary s =
      change (with_metadata title date location summary) t id s

  abbrev pub renamed : String → Document V → Document V
  renamed title d = record d { title = some title; title_source = "manual" }

  pub set_title : String → String → String → Store V → Store V
  set_title t id title s = change (renamed title) t id s

  pub clear_manual_title : String → String → Store V → Store V
  clear_manual_title t id s = change (λ d. record d { title_source = "auto" }) t id s

  abbrev pub assessed : Option Bool → Document V → Document V
  assessed value d = record d { unidentifiable = value }

  pub set_unidentifiable : String → String → Option Bool → Store V → Store V
  set_unidentifiable t id value s = change (assessed value) t id s

  -- {**old, **new}
  pub merged : List (String × V) → List (String × V) → List (String × V)
  merged old [] = old
  merged old ((k, v) ∷ new) = merged (dict_set old k v) new

  abbrev pub activated : ℕ → String → List (String × V) → Document V → Document V
  activated now path metadata d = record d {
    status = active;
    storage_path = some path;
    metadata = merged d.metadata metadata;
    activated_at = some now;
    ingested_at = some now;
  }

  abbrev pub in_progress : String → Document V → Bool
  in_progress t d = owned_by t d && is_processing d.status

  activate_found :
      ℕ
      → String
      → String
      → String
      → List (String × V)
      → Option (Document V)
      → Store V
      → Store V × Result Bool
  activate_found now t id path metadata none s = (s, returned false)
  activate_found now t id path metadata (some d) s =
      if not (in_progress t d)
      then (s, returned false)
      else if is_found (find_active_by_sha256 t d.sha256 s)
      then (s, duplicate_active)
      else (record s { docs = dict_set s.docs id (activated now path metadata d) }, returned true)

  pub activate : ℕ → String → String → String → List (String × V) → Store V → Store V × Result Bool
  unfolding activate_found
  activate now t id path metadata s = activate_found now t id path metadata (dict_get s.docs id) s

  module _ (text : String → V) where
    abbrev pub given_up : String → String → Document V → Document V
    given_up code message d = record d {
      status = failed;
      metadata =
          merged d.metadata (("error_code", text code) ∷ ("error_message", text message) ∷ []);
    }

    fail_found : String → String → String → String → Option (Document V) → Store V → Store V × Bool
    fail_found t id code message none s = (s, false)
    fail_found t id code message (some d) s =
        if not (in_progress t d)
        then (s, false)
        else (record s { docs = dict_set s.docs id (given_up code message d) }, true)

    pub fail : String → String → String → String → Store V → Store V × Bool
    unfolding fail_found
    fail t id code message s = fail_found t id code message (dict_get s.docs id) s

  abbrev is_value : (V → V → Bool) → Option V → V → Bool
  is_value equals none source = false
  is_value equals (some v) source = equals v source

  -- `source` is the value of the text that the caller asks for
  pub find_processing_by_staged_source : (V → V → Bool) → String → V → Store V → Option String
  find_processing_by_staged_source equals t source s = id_of (
      find_first
        (λ d. in_progress t d && is_value equals (dict_get d.metadata "staged_source") source)
        (dict_values s.docs))

  unfoldable pub list_processing : String → ℕ → Store V → List (Document V)
  list_processing t older_than s =
      keep (λ d. in_progress t d && ltb d.created_at older_than) (dict_values s.docs)

  delete_found : String → String → Option (Document V) → Store V → Store V
  delete_found t id none s = s
  delete_found t id (some d) s =
      if owned_by t d then record s { docs = dict_delete s.docs id } else s

  pub delete : String → String → Store V → Store V
  unfolding delete_found
  delete t id s = delete_found t id (dict_get s.docs id) s
