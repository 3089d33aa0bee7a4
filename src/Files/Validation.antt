-- ===== src/Files/Validation.antt =====
-- core/storage/utils.py: validate_file.
use system_dashnote.Prelude.{ℕ, true, not, ltb, Option, none, some, List, [], ◌∷◌, if◌then◌else◌}
use system_dashnote.Prelude.Text.{Text, codes, text_eq, elem}
use system_dashnote.Prelude.Exec.{Exec, http, raise_if, Keeps, >>=-Keeps, raise_if-Keeps, ◌>>◌}

-- the keys of the map are ALLOWED_MIME_TYPES
abbrev pub mime_extension_map : List (Text × List Text)
mime_extension_map =
    (codes "application/pdf", codes ".pdf" ∷ [])
    ∷ (codes "application/msword", codes ".doc" ∷ [])
    ∷ (
      codes "application/vnd.openxmlformats-officedocument.wordprocessingml.document",
      codes ".docx" ∷ [],
    )
    ∷ (codes "application/vnd.ms-excel", codes ".xls" ∷ [])
    ∷ (
      codes "application/vnd.openxmlformats-officedocument.spreadsheetml.sheet",
      codes ".xlsx" ∷ [],
    )
    ∷ (codes "application/vnd.ms-powerpoint", codes ".ppt" ∷ [])
    ∷ (
      codes "application/vnd.openxmlformats-officedocument.presentationml.presentation",
      codes ".pptx" ∷ [],
    )
    ∷ (codes "text/plain", codes ".txt" ∷ [])
    ∷ (codes "text/csv", codes ".csv" ∷ [])
    ∷ []

abbrev pub extensions_in : List (Text × List Text) → Text → Option (List Text)
extensions_in [] mime_type = none
extensions_in ((mime, extensions) ∷ rest) mime_type =
    if text_eq mime mime_type then some extensions else extensions_in rest mime_type

abbrev pub check_extension : {S : Type 0} → Text → Option (List Text) → Exec S Unit
check_extension file_ext none = raise_if true (http 415 "Unsupported MIME type.")
check_extension file_ext (some extensions) =
    raise_if (not (elem file_ext extensions)) (http 415 "File extension does not match MIME type.")

-- `suffix` is `Path(filename).suffix.lower()`
unfoldable pub validate_file : {S : Type 0} → (Text → Text) → Text → ℕ → Text → Exec S Unit
validate_file suffix filename size mime_type = do
  raise_if (ltb 1048576 size) (http 413 "File exceeds maximum allowed size.")
  check_extension (suffix filename) (extensions_in mime_extension_map mime_type)

-- The checks change nothing.
module _ {S : Type 0} (P : S → Type 0) where
  check_extension-Keeps :
      (file_ext : Text) (o : Option (List Text)) → Keeps P (check_extension file_ext o)
  check_extension-Keeps file_ext none = raise_if-Keeps P true (http 415 "Unsupported MIME type.")
  check_extension-Keeps file_ext (some extensions) =
      raise_if-Keeps P (not (elem file_ext extensions))
        (http 415 "File extension does not match MIME type.")

  pub validate_file-Keeps :
      (suffix : Text → Text) (filename : Text) (size : ℕ) (mime_type : Text)
      → Keeps P (validate_file suffix filename size mime_type)
  unfolding validate_file
  validate_file-Keeps suffix filename size mime_type =
      >>=-Keeps P (raise_if (ltb 1048576 size) (http 413 "File exceeds maximum allowed size.")) _
        (raise_if-Keeps P (ltb 1048576 size) (http 413 "File exceeds maximum allowed size."))
        (λ u. check_extension-Keeps (suffix filename) (extensions_in mime_extension_map mime_type))
