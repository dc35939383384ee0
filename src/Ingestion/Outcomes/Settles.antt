-- ===== src/Ingestion/Outcomes/Settles.antt =====
-- The job and the document that each outcome of the pipeline leaves, and where the file is:
-- `_record_terminal_document`, `_handle_duplicate`, `_fail` and `_quarantine` of
-- core/doktok_core/ingestion/pipeline.py.
use doktok_ng.Prelude.{
  ◌+◌, ◌≡◌, refl, ◌∙◌, inl, inr, true, false, Bool-cases, Option, none, some, List, [], String,
  arith, dict_set,
}
use doktok_ng.Documents.Document
use doktok_ng.Documents.Document.{DocumentStatus, is_active}
use doktok_ng.Documents.Store.Adds.{add-inactive}
use Prim.Native.String.{◌++◌ as str_append}
use doktok_ng.Jobs
use doktok_ng.Jobs.{JobStatus}
use doktok_ng.Jobs.Updates.{update-registered}
use doktok_ng.Ingestion.Files.{
  Folder, FilePath, workdir, failed_dir, quarantine_dir, duplicates_dir, file_at, move_if_there,
  has_files, same_folder,
}
use doktok_ng.Ingestion.Files.Laws.{file_at-rmtree, file_at-move, file_at-rename}
use doktok_ng.Ingestion.Services.{
  Value, Job, Services, AuditEvent, was_quarantined, Ingest, Tried, value,
}
use doktok_ng.Ingestion.Outcomes.{
  original_filename, relocate_source, terminal_document, record_terminal_document, settle,
  concluded, handle_duplicate, fail, quarantine, quarantine_workdir,
}
use doktok_ng.Ingestion.Outcomes.Accounts.{
  agrees, get_set_self, at_source, aside, Returns, Returns-map, Where, Booked, Fresh, Accounted,
  Ended, Caught, Returns-Caught,
}

module _ {B : Type 0} (svc : Services B) where
  -- The run was booked, with these files and this status.
  abbrev pub Settled : List (FilePath × B) → JobStatus → Job → Ingest B → Type 0
  Settled files status job s = Accounted svc job s × (s.files ≡ files) × (job.status ≡ status)

  -- The run was booked, and the bytes lie at this path.
  abbrev pub Parked : B → FilePath → Job → Ingest B → Type 0
  Parked bytes p job s = Accounted svc job s × (file_at s.files p ≡ some bytes)

  abbrev pub failed_path : Ingest B → FilePath
  failed_path s = record { folder = failed_dir s.job.id; name = original_filename s.job }

  -- The state after `_record_terminal_document` at an id that is new.
  abbrev pub recorded :
      DocumentStatus → Folder → Option String → List (String × Value) → Ingest B → Ingest B
  recorded status storage dup extra s =
      let id = svc.uuid s.drawn in
      let d = terminal_document svc s.job id (svc.now s.ticks) status storage dup extra in
      record s {
        store = record s.store { docs = dict_set s.store.docs id d };
        drawn = s.drawn + 1;
        ticks = s.ticks + 1;
      }

  pub record_terminal_document-recorded :
      (status : DocumentStatus) (storage : Folder) (dup : Option String)
      (extra : List (String × Value)) (s : Ingest B)
      → is_active status ≡ false
      → Fresh svc s.drawn s.store.docs
      → ◌≡◌ {A = Tried String × Ingest B}
          (record_terminal_document svc status storage dup extra s)
          (value (svc.uuid s.drawn), recorded status storage dup extra s)
  unfolding record_terminal_document
  record_terminal_document-recorded status storage dup extra s inactive fresh =
      let id = svc.uuid s.drawn in
      let d = terminal_document svc s.job id (svc.now s.ticks) status storage dup extra in
      rw (add-inactive d s.store (fresh s.drawn (omega arith)) inactive) refl

  pub settle-Accounted :
      (status : DocumentStatus) (storage : Folder) (dup : Option String)
      (extra : List (String × Value)) (event : AuditEvent) (details : List (String × Value))
      (s : Ingest B)
      → is_active status ≡ false
      → agrees s.job.status status ≡ true
      → Booked svc s
      → Returns (Settled s.files s.job.status) (settle svc status storage dup extra event details s)
  unfolding settle
  settle-Accounted status storage dup extra event details s inactive fits (row, fresh) =
      let id = svc.uuid s.drawn in
      let d = terminal_document svc s.job id (svc.now s.ticks) status storage dup extra in
      let job : Job = record s.job { document_id = some id } in
      let added = record_terminal_document-recorded status storage dup extra s inactive fresh in
      let updated = update-registered job row.row s.jobs row.at row.same in
      rw added (
        rw updated (
          record {
            stored = get_set_self s.jobs s.job.id job;
            id = id;
            named = refl;
            document = d;
            there = get_set_self s.store.docs id d;
            owner = refl;
            status = fits;
          },
          refl,
          refl,
        ))

  pub fail-Accounted :
      (code message : String) (s : Ingest B)
      → Booked svc s
      → Returns
          (Settled (relocate_source svc (failed_dir s.job.id) s).files Jobs.failed)
          (fail svc code message s)
  unfolding fail
  fail-Accounted code message s booked =
      let s' =
        relocate_source svc (failed_dir s.job.id) (concluded svc Jobs.failed code message s) in
      settle-Accounted Document.failed (failed_dir s.job.id) none [] _ _ s' refl refl booked

  pub handle_duplicate-Ended :
      (original : String) (bytes : B) (s : Ingest B)
      → Booked svc s
      → Returns (Ended svc bytes) (handle_duplicate svc original s)
  unfolding handle_duplicate
  handle_duplicate-Ended original bytes s booked =
      let s' = relocate_source svc (duplicates_dir s.job.id) (
        concluded svc Jobs.duplicate "duplicate_hash"
          (str_append "already ingested as document " original) s) in
      Returns-map (Settled s'.files Jobs.duplicate) (Ended svc bytes)
        (handle_duplicate svc original s) (λ job t ended. (ended.0, inl ended.2))
        (settle-Accounted Document.duplicate (duplicates_dir s.job.id) (some original) _ _ _ s' refl
          refl booked)

  -- `_relocate_source` parks the file in its folder,
  relocated-at_source :
      (dest : Folder) (bytes : B) (s : Ingest B)
      → same_folder dest (workdir s.job.id) ≡ false
      → file_at s.files s.job.source_path ≡ some bytes
      → file_at
          (relocate_source svc dest s).files
          (record { folder = dest; name = original_filename s.job })
        ≡ some bytes
  relocated-at_source dest bytes s apart h =
      let parked : FilePath = record { folder = dest; name = original_filename s.job } in
      let moved = file_at-move s.job.source_path parked s.files bytes h in
      file_at-rmtree (workdir s.job.id) (move_if_there s.job.source_path parked s.files) parked
        apart
      ∙ moved

  -- and leaves a file that is not the job's.
  relocated-aside :
      (dest : Folder) (bytes : B) (s : Ingest B) (p : FilePath)
      → file_at s.files s.job.source_path ≡ none
      → same_folder p.folder (workdir s.job.id) ≡ false
      → file_at s.files p ≡ some bytes
      → file_at (relocate_source svc dest s).files p ≡ some bytes
  relocated-aside dest bytes s p empty out h =
      rw empty (file_at-rmtree (workdir s.job.id) s.files p out ∙ h)

  pub fail-Parked :
      (code message : String) (bytes : B) (s : Ingest B)
      → Booked svc s
      → file_at s.files s.job.source_path ≡ some bytes
      → Returns (Parked bytes (failed_path s)) (fail svc code message s)
  fail-Parked code message bytes s booked h =
      let parked = relocated-at_source (failed_dir s.job.id) bytes s refl h in
      Returns-map (Settled (relocate_source svc (failed_dir s.job.id) s).files Jobs.failed)
        (Parked bytes (failed_path s)) (fail svc code message s)
        (λ job t ended. (ended.0, rw ended.1 parked)) (fail-Accounted code message s booked)

  pub fail-Ended :
      (code message : String) (bytes : B) (s : Ingest B)
      → Booked svc s
      → Where bytes s
      → Returns (Ended svc bytes) (fail svc code message s)
  fail-Ended code message bytes s booked (at_source h) =
      Returns-map (Parked bytes (failed_path s)) (Ended svc bytes) (fail svc code message s)
        (λ job t ended. (ended.0, inr (failed_path s, ended.1)))
        (fail-Parked code message bytes s booked h)
  fail-Ended code message bytes s booked (aside p empty out h) =
      let there = relocated-aside (failed_dir s.job.id) bytes s p empty out h in
      Returns-map (Settled (relocate_source svc (failed_dir s.job.id) s).files Jobs.failed)
        (Ended svc bytes) (fail svc code message s)
        (λ job t ended. (ended.0, inr (p, rw ended.1 there))) (fail-Accounted code message s booked)

  -- The last step of a quarantine.
  quarantine_settled :
      (bytes : B) (p : FilePath) (details : List (String × Value)) (s : Ingest B)
      → Booked svc s
      → (s.job.status ≡ Jobs.quarantined)
      → file_at s.files p ≡ some bytes
      → Caught svc bytes (
          settle svc Document.quarantined
            (quarantine_dir s.job.id)
            none
            []
            was_quarantined
            details
            s)
  quarantine_settled bytes p details s booked ended h =
      let r =
        settle svc Document.quarantined (quarantine_dir s.job.id) none [] was_quarantined details
          s in
      let settled =
        settle-Accounted Document.quarantined (quarantine_dir s.job.id) none [] was_quarantined
          details s refl (rw ended refl) booked in
      Returns-Caught svc bytes r (
        Returns-map (Settled s.files s.job.status) (Ended svc bytes) r
          (λ job t ended. (ended.0, inr (p, rw ended.1 h))) settled)

  -- The quarantined folder holds the file; where the quarantine folder is in use, the file stays.
  pub quarantine-Caught :
      (bytes : B) (name : String) (s : Ingest B)
      → Booked svc s
      → s.job.source_path ≡ record { folder = workdir s.job.id; name = name }
      → file_at s.files (record { folder = workdir s.job.id; name = name }) ≡ some bytes
      → Caught svc bytes (quarantine svc s)
  unfolding quarantine quarantine_workdir
  quarantine-Caught bytes name s booked src h =
      let source : FilePath = record { folder = workdir s.job.id; name = name } in
      let aside_dir = quarantine_dir s.job.id in
      let moved : FilePath = record { folder = aside_dir; name = name } in
      elim (Bool-cases (has_files (workdir s.job.id) s.files)) [
        | inl e ↦ rw e (elim (Bool-cases (has_files aside_dir s.files)) [
          | inl used ↦ rw used (booked, at_source (rw src h))
          | inr free ↦
              let there = file_at-rename (workdir s.job.id) aside_dir s.files name free ∙ h in
              rw free (quarantine_settled bytes moved _ _ booked refl there)
        ])
        | inr e ↦ rw e (quarantine_settled bytes source _ _ booked refl h)
      ]
