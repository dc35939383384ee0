-- ===== src/Ingestion/Files.antt =====
-- The files of a tenant: FilesystemLayout of core/doktok_core/ingestion/layout.py, and
-- LocalFileStorage and QuarantineService of
-- storage/filesystem/doktok_storage_filesystem/storage.py. A path is a folder of the layout and a
-- name in it; what a file holds is of any type, a parameter.
pub mod Laws
use doktok_ng.Prelude.{
  Bool, true, false, not, ◌&&◌, Option, none, some, List, [], ◌∷◌, String, str_eq, if◌then◌else◌,
  any, keep,
}

-- ingest; in.process/{id}, docs.active/{id}, docs.failed/{id}, quarantine/{id}, duplicates/{id}; and
-- a folder outside of the layout.
pub data Folder : Type 0 where
  ingest : Folder
  workdir active_dir failed_dir quarantine_dir duplicates_dir elsewhere : String → Folder

pub record FilePath : Type 0 where
  pub folder : Folder
  pub name : String

abbrev pub same_folder : Folder → Folder → Bool
same_folder ingest ingest = true
same_folder (workdir a) (workdir b) = str_eq a b
same_folder (active_dir a) (active_dir b) = str_eq a b
same_folder (failed_dir a) (failed_dir b) = str_eq a b
same_folder (quarantine_dir a) (quarantine_dir b) = str_eq a b
same_folder (duplicates_dir a) (duplicates_dir b) = str_eq a b
same_folder (elsewhere a) (elsewhere b) = str_eq a b
same_folder _ _ = false

abbrev pub same_path : FilePath → FilePath → Bool
same_path p q = same_folder p.folder q.folder && str_eq p.name q.name

module _ {B : Type 0} where
  abbrev pub file_at : List (FilePath × B) → FilePath → Option B
  file_at [] p = none
  file_at ((q, b) ∷ fs) p = let others = file_at fs p in if same_path q p then some b else others

  abbrev pub remove_file : List (FilePath × B) → FilePath → List (FilePath × B)
  remove_file fs p = keep (λ (q, b). not (same_path q p)) fs

  -- a file that is there is overwritten
  abbrev pub put_file : List (FilePath × B) → FilePath → B → List (FilePath × B)
  put_file fs p b = (p, b) ∷ remove_file fs p

  abbrev pub moved : Option B → FilePath → FilePath → List (FilePath × B) → List (FilePath × B)
  moved none src dst fs = fs
  moved (some b) src dst fs = put_file (remove_file fs src) dst b

  -- if Path(source).exists(): file_storage.move(source, destination)
  abbrev pub move_if_there : FilePath → FilePath → List (FilePath × B) → List (FilePath × B)
  move_if_there src dst fs = moved (file_at fs src) src dst fs

  abbrev moved_or_none :
      Option B → FilePath → FilePath → List (FilePath × B) → Option (List (FilePath × B))
  moved_or_none none src dst fs = none
  moved_or_none (some b) src dst fs = some (put_file (remove_file fs src) dst b)

  -- file_storage.move(source, destination); none is the error of a source that is not there
  abbrev pub move : FilePath → FilePath → List (FilePath × B) → Option (List (FilePath × B))
  move src dst fs = moved_or_none (file_at fs src) src dst fs

  -- shutil.rmtree(folder, ignore_errors=True)
  abbrev pub rmtree : Folder → List (FilePath × B) → List (FilePath × B)
  rmtree f fs = keep (λ (q, b). not (same_folder q.folder f)) fs

  abbrev pub has_files : Folder → List (FilePath × B) → Bool
  has_files f fs = any (λ (q, b). same_folder q.folder f) fs

  abbrev pub rename_folder : Folder → Folder → List (FilePath × B) → List (FilePath × B)
  rename_folder src dst [] = []
  rename_folder src dst ((q, b) ∷ fs) =
      (if same_folder q.folder src then record { folder = dst; name = q.name } else q, b)
      ∷ rename_folder src dst fs

  -- os.replace of a folder; none is the error of a destination that is not empty
  abbrev pub replace_folder : Folder → Folder → List (FilePath × B) → Option (List (FilePath × B))
  replace_folder src dst fs = if has_files dst fs then none else some (rename_folder src dst fs)
