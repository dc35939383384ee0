-- ===== src/Ingestion/Files/Laws.antt =====
-- Laws of the files: core/doktok_core/ingestion/layout.py and
-- storage/filesystem/doktok_storage_filesystem/storage.py.
use doktok_ng.Prelude.{
  ◌≡◌, refl, ap, ◌∙◌, inl, inr, Bool, true, false, not, none, some, List, [], ◌∷◌, String, str_eq,
  arith, eq_iff, str_eq_self, keep, Bool-cases,
}
use doktok_ng.Ingestion.Files.{
  Folder, ingest, workdir, active_dir, failed_dir, quarantine_dir, duplicates_dir, elsewhere,
  FilePath, same_folder, same_path, file_at, remove_file, put_file, moved, move_if_there, rmtree,
  has_files, rename_folder,
}

pub same_folder_self : (f : Folder) → same_folder f f ≡ true
same_folder_self ingest = refl
same_folder_self (workdir a) = str_eq_self a
same_folder_self (active_dir a) = str_eq_self a
same_folder_self (failed_dir a) = str_eq_self a
same_folder_self (quarantine_dir a) = str_eq_self a
same_folder_self (duplicates_dir a) = str_eq_self a
same_folder_self (elsewhere a) = str_eq_self a

pub same_folder→eq : (f g : Folder) → same_folder f g ≡ true → f ≡ g
same_folder→eq ingest ingest h = refl
same_folder→eq (workdir a) (workdir b) h = ap workdir ((eq_iff a b).0 h)
same_folder→eq (active_dir a) (active_dir b) h = ap active_dir ((eq_iff a b).0 h)
same_folder→eq (failed_dir a) (failed_dir b) h = ap failed_dir ((eq_iff a b).0 h)
same_folder→eq (quarantine_dir a) (quarantine_dir b) h = ap quarantine_dir ((eq_iff a b).0 h)
same_folder→eq (duplicates_dir a) (duplicates_dir b) h = ap duplicates_dir ((eq_iff a b).0 h)
same_folder→eq (elsewhere a) (elsewhere b) h = ap elsewhere ((eq_iff a b).0 h)
same_folder→eq _ _ h = cc

pub same_path→eq : (p q : FilePath) → same_path p q ≡ true → p ≡ q
same_path→eq p q h =
    let folders = same_folder→eq p.folder q.folder (ground (arith, h)) in
    let names = (eq_iff p.name q.name).0 (ground (arith, h)) in cc

pub same_path_self : (p : FilePath) → same_path p p ≡ true
same_path_self p = ground (arith, same_folder_self p.folder, str_eq_self p.name)

module _ {B : Type 0} where
  -- Keeping the files of some paths does not show at such a path.
  pub file_at-keep :
      (t : FilePath → Bool) (fs : List (FilePath × B)) (p : FilePath)
      → t p ≡ true
      → file_at (keep (λ (q, b). t q) fs) p ≡ file_at fs p
  file_at-keep t [] p h = refl
  file_at-keep t ((q, b) ∷ fs) p h = elim (Bool-cases (same_path q p)) [
    | inl e ↦ let here : t q ≡ true = ap t (same_path→eq q p e) ∙ h in rw here (rw e refl)
    | inr e ↦ rw e (elim (Bool-cases (t q)) [
      | inl kept ↦ rw kept (rw e (file_at-keep t fs p h))
      | inr gone ↦ rw gone (file_at-keep t fs p h)
    ])
  ]

  file_at-keep-none :
      (t : FilePath → Bool) (fs : List (FilePath × B)) (p : FilePath)
      → file_at fs p ≡ none
      → file_at (keep (λ (q, b). t q) fs) p ≡ none
  file_at-keep-none t [] p h = refl
  file_at-keep-none t ((q, b) ∷ fs) p h = elim (Bool-cases (same_path q p)) [
    | inl e ↦ let h' : some b ≡ none = rw e at h in absurd (cc)
    | inr e ↦
        let h' : file_at fs p ≡ none = rw e at h in
        elim (Bool-cases (t q)) [
          | inl kept ↦ rw kept (rw e (file_at-keep-none t fs p h'))
          | inr gone ↦ rw gone (file_at-keep-none t fs p h')
        ]
  ]

  pub file_at-rmtree :
      (f : Folder) (fs : List (FilePath × B)) (p : FilePath)
      → same_folder p.folder f ≡ false
      → file_at (rmtree f fs) p ≡ file_at fs p
  file_at-rmtree f fs p h = file_at-keep (λ q. not (same_folder q.folder f)) fs p (ap not h)

  pub file_at-put :
      (fs : List (FilePath × B)) (p : FilePath) (b : B) → file_at (put_file fs p b) p ≡ some b
  file_at-put fs p b = rw (same_path_self p) refl

  pub file_at-move :
      (src dst : FilePath) (fs : List (FilePath × B)) (b : B)
      → file_at fs src ≡ some b
      → file_at (move_if_there src dst fs) dst ≡ some b
  file_at-move src dst fs b h = rw h (file_at-put (remove_file fs src) dst b)

  file_at-remove : (fs : List (FilePath × B)) (p : FilePath) → file_at (remove_file fs p) p ≡ none
  file_at-remove [] p = refl
  file_at-remove ((q, b) ∷ fs) p = elim (Bool-cases (same_path q p)) [
    | inl e ↦ rw e (file_at-remove fs p)
    | inr e ↦ rw e (rw e (file_at-remove fs p))
  ]

  -- A file that has moved to another path is not where it was.
  pub file_at-moved_away :
      (src dst : FilePath) (fs : List (FilePath × B)) (b : B)
      → same_path dst src ≡ false
      → file_at (moved (some b) src dst fs) src ≡ none
  file_at-moved_away src dst fs b apart = rw apart (
      file_at-keep-none (λ q. not (same_path q dst)) (remove_file fs src) src
        (file_at-remove fs src))

  -- A renamed folder holds the files under their names, if the destination held none.
  pub file_at-rename :
      (src dst : Folder) (fs : List (FilePath × B)) (name : String)
      → has_files dst fs ≡ false
      → file_at (rename_folder src dst fs) (record { folder = dst; name = name })
        ≡ file_at fs (record { folder = src; name = name })
  file_at-rename src dst [] name h = refl
  file_at-rename src dst ((q, b) ∷ fs) name h =
      let ih = file_at-rename src dst fs name (ground (arith, h)) in
      let apart : same_folder q.folder dst ≡ false = ground (arith, h) in
      elim (Bool-cases (same_folder q.folder src)) [
        | inl e ↦ rw e (
            rw (same_folder_self dst)
              (elim (Bool-cases (str_eq q.name name)) [ inl n ↦ rw n refl | inr n ↦ rw n ih ]))
        | inr e ↦ rw e (rw apart ih)
      ]
