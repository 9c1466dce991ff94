-- ===== src/FileService/Errors.antt =====
-- fileService/internal/domain/fileentity/errors.go and internal/transport/httpapi/errors.go. An error
-- is the list of the sentinels that it is or wraps, so `errors.Join` is the appended list and an
-- error of a library, which wraps none, is the empty one.
use simply_chat.Base.{ℕ, String, Bool, true, false, List, [], ◌∷◌, any, if◌then◌else◌}

pub data Sentinel : Type 0 where
  invalid_file file_too_large mime_type_not_allowed file_not_found storage_unavailable
        metadata_unavailable :
      Sentinel

abbrev pub FileError : Type 0
FileError = List Sentinel

abbrev same : Sentinel → Sentinel → Bool
same invalid_file invalid_file = true
same file_too_large file_too_large = true
same mime_type_not_allowed mime_type_not_allowed = true
same file_not_found file_not_found = true
same storage_unavailable storage_unavailable = true
same metadata_unavailable metadata_unavailable = true
same _ _ = false

-- errors.Is
abbrev pub is_err : FileError → Sentinel → Bool
is_err err target = any (same target) err

-- The status and the code of the answer; its message, a text for people, is left out.
unfoldable pub map_error : FileError → ℕ × String
map_error err =
    if is_err err invalid_file
    then (400, "invalid_file")
    else if is_err err file_too_large
    then (413, "file_too_large")
    else if is_err err mime_type_not_allowed
    then (415, "mime_type_not_allowed")
    else if is_err err file_not_found
    then (404, "file_not_found")
    else if is_err err metadata_unavailable
    then (503, "metadata_unavailable")
    else if is_err err storage_unavailable
    then (503, "storage_unavailable")
    else (500, "internal_error")

-- What net/http and mime/multipart report of a broken upload.
pub data MultipartError : Type 0 where
  missing_file max_bytes message_too_large other : MultipartError

unfoldable pub map_multipart_error : MultipartError → FileError
map_multipart_error missing_file = invalid_file ∷ []
map_multipart_error max_bytes = file_too_large ∷ []
map_multipart_error message_too_large = file_too_large ∷ []
map_multipart_error other = invalid_file ∷ []
