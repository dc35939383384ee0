-- ===== src/Ingestion/Artifacts.antt =====
-- The artifacts of core/doktok_core/documents/artifacts.py as far as they are about the original, and
-- the file operations that may fail.
use Prim.Native.String.{◌++◌ as str_append}
use doktok_ng.Prelude.{Option, none, some, List, [], ◌∷◌, String, str_eq, if◌then◌else◌, dict_get}
use doktok_ng.Ingestion.Files.{FilePath, active_dir, file_at, move}
use doktok_ng.Ingestion.Services.{
  Services, ExtractionResult, Step, ◌>>=◌, ◌>>◌, pure, raise, gets, modify, or_raise,
}

-- `_MIME_EXTENSION`
pub mime_extension : List (String × String)
mime_extension =
    ("text/plain", ".txt")
    ∷ ("text/markdown", ".md")
    ∷ ("application/pdf", ".pdf")
    ∷ ("image/png", ".png")
    ∷ ("image/jpeg", ".jpg")
    ∷ ("image/tiff", ".tif")
    ∷ ("image/webp", ".webp")
    ∷ []

module _ {B : Type 0} where
  -- file_storage.move(source, destination)
  abbrev pub move_file : FilePath → FilePath → Step B Unit
  move_file src dst = do
    fs ← gets (λ s. move src dst s.files)
    fs' ← or_raise fs "no such file"
    modify (λ s. record s { files = fs' })

  -- A file that is read; it is there, or the error is that of the missing file.
  abbrev pub read_file : FilePath → Step B B
  read_file p = do found ← gets (λ s. file_at s.files p); or_raise found "no such file"

module _ {B : Type 0} (svc : Services B) where
  abbrev guessed : Option String → String → String
  guessed (some extension) name = extension
  guessed none name = svc.suffix name

  abbrev mapped : Option String → String → String → String
  mapped (some extension) mime name = extension
  mapped none mime name = guessed (svc.guess_extension mime) name

  pub extension_for : Option String → String → String
  extension_for none name = svc.suffix name
  extension_for (some mime) name =
      if str_eq mime "" then svc.suffix name else mapped (dict_get mime_extension mime) mime name

  -- `write_document_artifacts`: the original is moved; the other files are written from `result`
  abbrev pub artifact_path : String → Option String → String → FilePath
  artifact_path id mime filename = record {
    folder = active_dir id;
    name = str_append "original" (extension_for mime filename);
  }

  abbrev written : Option String → Step B Unit
  written none = pure tt
  written (some message) = raise message

  unfoldable pub write_document_artifacts :
      String → FilePath → Option String → String → ExtractionResult → Step B FilePath
  write_document_artifacts id source mime filename result = do
    move_file source (artifact_path id mime filename)
    written (svc.write_error id result)
    pure (artifact_path id mime filename)
