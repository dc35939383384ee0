-- ===== src/Documents/Store/Examples.antt =====
-- The claims about the document repository at concrete inputs.
use doktok_ng.Prelude.{refl, none, some, List, [], ◌∷◌, String, arith}
use doktok_ng.Documents.Document.{Document, processing}
use doktok_ng.Documents.Store.{Store}
use doktok_ng.Documents.Store.Copies.{HasOneCopy}
use doktok_ng.Documents.Store.Follows.{Kept}
use doktok_ng.Documents.Store.Calls.{
  StoreCall, add_document, activate_document, fail_document, fill_in, run_calls,
  run_calls-HasOneCopy, run_calls-Kept,
}

abbrev as_value : String → String
as_value s = s

-- A scan that is being processed, with a title of the user.
abbrev scan : String → Document String
scan id = record {
  id = id;
  tenant_id = "acme";
  current_version_id = none;
  sha256 = "aa";
  original_filename = "scan.pdf";
  detected_mime = some "application/pdf";
  title = some "Rent 2024";
  title_source = "manual";
  status = processing;
  storage_path = none;
  created_at = 5;
  activated_at = none;
  ingested_at = none;
  document_date = none;
  location = none;
  summary = none;
  unidentifiable = none;
  duplicate_of = none;
  metadata = ("staged_source", "/work/scan.pdf") ∷ [];
}

abbrev nothing : Store String
nothing = record { docs = [] }

-- Two scans with one content, and both are to be activated.
abbrev race : List (StoreCall String)
race =
    add_document (scan "d1")
    ∷ add_document (scan "d2")
    ∷ activate_document 7 "acme" "d2" "/files/d2" []
    ∷ activate_document 8 "acme" "d1" "/files/d1" []
    ∷ fail_document "acme" "d1" "duplicate" "exists"
    ∷ []

run_calls-HasOneCopy_example : HasOneCopy (run_calls as_value race nothing)
run_calls-HasOneCopy_example =
    run_calls-HasOneCopy as_value race nothing (refl, (refl, (refl, (refl, (refl, tt)))))
      (record { copies = λ t sha. omega arith; named = tt })

abbrev enrichment : List (StoreCall String)
enrichment = fill_in "acme" "d1" (some "Invoice") (some 19_700) none (some "An invoice") ∷ race

run_calls-Kept_example :
    Kept "d1" (scan "d1") (run_calls as_value enrichment (record { docs = ("d1", scan "d1") ∷ [] }))
run_calls-Kept_example =
    run_calls-Kept as_value enrichment "d1" (scan "d1") (record { docs = ("d1", scan "d1") ∷ [] })
      (refl, (refl, (refl, (refl, (refl, (refl, tt)))))) refl
