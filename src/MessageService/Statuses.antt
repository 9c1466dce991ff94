-- ===== src/MessageService/Statuses.antt =====
-- What an error of the file service becomes for the sender of a message: map_error of
-- fileService/internal/transport/httpapi/errors.go, the client's reading of the status, and
-- writeHTTPError of messageService/internal/transport/http/fileMessageHandler.go.
use simply_chat.Base.{
  ℕ, ◌||◌, ◌≡◌, refl, Option, some, ok, err, Bool-cases, inl, inr, if◌then◌else◌,
}
use simply_chat.FileService.Errors.{
  FileError, is_err, map_error, invalid_file, file_too_large, mime_type_not_allowed, file_not_found,
  metadata_unavailable, storage_unavailable,
}
use simply_chat.MessageService.FileClient.{UploadedFile, Answer, upload_result}
use simply_chat.MessageService.SendFileMessage.{upload_error}
use simply_chat.MessageService.Http.{of_service, write_http_error}

-- The status that the sender gets for the file service's answer, 201 where it goes on.
pub sender_status : Option Answer → ℕ
sender_status answer = elim (upload_result answer) [
  | ok file ↦ 201
  | err e ↦ write_http_error (of_service (upload_error e))
]

-- Of an upload that the file service refuses, the sender is told 422 where the file is at fault (it
-- is invalid, too large, or of a type that is not allowed), 500 where something was not found, and
-- 503 in all other cases.
pub sender_status-map_error :
    (e : FileError) (file : Option UploadedFile)
    → sender_status (some (record { status_code = (map_error e).0; file = file })) ≡ (
        if is_err e invalid_file || is_err e file_too_large || is_err e mime_type_not_allowed
        then 422
        else if is_err e file_not_found
        then 500
        else 503)
unfolding sender_status upload_result write_http_error map_error
sender_status-map_error e file = elim (Bool-cases (is_err e invalid_file)) [
  | inl a ↦ rw a refl
  | inr a ↦ elim (Bool-cases (is_err e file_too_large)) [
    | inl b ↦ rw (a, b) refl
    | inr b ↦ elim (Bool-cases (is_err e mime_type_not_allowed)) [
      | inl c ↦ rw (a, b, c) refl
      | inr c ↦ elim (Bool-cases (is_err e file_not_found)) [
        | inl f ↦ rw (a, b, c, f) refl
        | inr f ↦ elim (Bool-cases (is_err e metadata_unavailable)) [
          | inl g ↦ rw (a, b, c, f, g) refl
          | inr g ↦ elim (Bool-cases (is_err e storage_unavailable)) [
            | inl h ↦ rw (a, b, c, f, g, h) refl
            | inr h ↦ rw (a, b, c, f, g, h) refl
          ]
        ]
      ]
    ]
  ]
]
