-- ===== src/MessageService/Http/Access.antt =====
-- The access check, by its status.
use mathlib.Core.List.{Memᴰ}
use simply_chat.Base.{
  ℤ, String, Bool, true, false, ◌&&◌, ◌≡◌, ◌≢◌, refl, ap, some, List, [], ◌∷◌, any, Result, ok, err,
  Result-cases, Option-cases, Bool-cases, inl, inr, arith, ◌==◌, ==_iff, int_eq, string_eq,
  trim_space,
}
use simply_chat.Postgres.{Postgres}
use simply_chat.MessageStorage.Tables.{Tables, AttachmentRow, MessageRow, ChatUserRow}
use simply_chat.MessageStorage.Chats.{member, is_row}
use simply_chat.MessageStorage.Messages.{attached_for, chats_of_message, user_has_access_to_file}
use simply_chat.MessageService.FileClient.{FileServer}
use simply_chat.MessageService.Members.{Redis}
use simply_chat.MessageStorage.Paging.{IsHealthy}
use simply_chat.MessageService.SendFileMessage
use simply_chat.MessageService.SendFileMessage.{
  World, chat_not_found, sender_not_member, file_validation, file_service_unavailable,
  save_file_message, other_error,
}
use simply_chat.MessageService.Http.{
  Request, HttpError, check_file_access, parse_file_id, write_http_error, invalid_chat_id, no_files,
  too_many_files, invalid_login, bad_multipart, invalid_file_id, file_forbidden, of_service,
  can_access_file, status_of,
}

any-Mem :
    {A : Type 0} (p : A → Bool) (xs : List A) → any p xs ≡ true → (x : A) × Memᴰ x xs × (p x ≡ true)
any-Mem p [] h = absurd (ground arith)
any-Mem p (x ∷ xs) h = elim (Bool-cases (p x)) [
  | inl met ↦ (x, Memᴰ.head refl, met)
  | inr differs ↦ let (y, inside, met) = any-Mem p xs (ground arith) in (y, Memᴰ.tail inside, met)
]

any-of_Mem :
    {A : Type 0} (p : A → Bool) (x : A) (xs : List A) → Memᴰ x xs → p x ≡ true → any p xs ≡ true
any-of_Mem p x [] m h = elim m [ ]
any-of_Mem p x (y ∷ xs) (Memᴰ.head e) h = ground (arith, ap p e)
any-of_Mem p x (y ∷ xs) (Memᴰ.tail m) h = ground (arith, any-of_Mem p x xs m h)

-- The file was sent in a chat of which the login is a member.
pub record IsReadable (t : Tables) (login file_id : String) : Type 0 where
  pub attachment : AttachmentRow
  pub message : MessageRow
  pub membership : ChatUserRow
  pub attached : Memᴰ attachment t.message_attachment
  pub sent : Memᴰ message t.message
  pub belongs : Memᴰ membership t.chat_user
  pub of_file : attachment.file_id ≡ file_id
  pub of_message : message.id ≡ attachment.message_id
  pub of_chat : membership.chat_id ≡ message.chat_id
  pub of_login : membership.user_login ≡ login

chats-Mem :
    (p : ℤ → Bool) (id : ℤ) (rows : List MessageRow)
    → any p (chats_of_message id rows) ≡ any (λ m. m.id == id && p m.chat_id) rows
chats-Mem p id [] = refl
chats-Mem p id (m ∷ rows) = ground (arith, chats-Mem p id rows)

abbrev member_of : Tables → String → ℤ → Bool
member_of t login chat_id = member chat_id login t.chat_user

attached_for-IsReadable :
    (t : Tables) (login file_id : String)
    → attached_for t login file_id ≡ true
    → IsReadable t login file_id
attached_for-IsReadable t login file_id h =
    let (a, attached, met) = any-Mem _ t.message_attachment h in
    let messages : any (λ m. m.id == a.message_id && (member_of t login) m.chat_id) t.message
        ≡ true =
      ground (arith, chats-Mem (member_of t login) a.message_id t.message) in
    let (m, sent, its) = any-Mem _ t.message messages in
    let is_member : (member_of t login) m.chat_id ≡ true = ground arith in
    let (u, belongs, row) = any-Mem (is_row m.chat_id login) t.chat_user is_member in
    record {
      attachment = a;
      message = m;
      membership = u;
      attached = attached;
      sent = sent;
      belongs = belongs;
      of_file = ground (arith, ==_iff a.file_id file_id);
      of_message = ground (arith, ==_iff m.id a.message_id);
      of_chat = ground (arith, ==_iff u.chat_id m.chat_id);
      of_login = ground (arith, ==_iff u.user_login login);
    }

IsReadable-attached_for :
    (t : Tables) (login file_id : String)
    → IsReadable t login file_id
    → attached_for t login file_id ≡ true
IsReadable-attached_for t login file_id r =
    let is_member : (member_of t login) r.message.chat_id ≡ true =
      any-of_Mem _ r.membership t.chat_user r.belongs (
        ground (
          arith,
          ==_iff r.membership.chat_id r.message.chat_id,
          r.of_chat,
          r.of_login,
          ==_iff r.membership.user_login login,
        )) in
    let messages : any (λ m. m.id == r.attachment.message_id && (member_of t login) m.chat_id)
          t.message
        ≡ true =
      any-of_Mem _ r.message t.message r.sent
        (ground (arith, is_member, r.of_message, ==_iff r.message.id r.attachment.message_id)) in
    any-of_Mem _ r.attachment t.message_attachment r.attached (
      ground (
        arith,
        r.of_file,
        ==_iff r.attachment.file_id file_id,
        chats-Mem (member_of t login) r.attachment.message_id t.message,
        messages,
      ))

no_error_204 : (e : HttpError) → write_http_error e ≢ 204
unfolding write_http_error
no_error_204 invalid_chat_id h = omega (arith, h)
no_error_204 no_files h = omega (arith, h)
no_error_204 too_many_files h = omega (arith, h)
no_error_204 invalid_login h = omega (arith, h)
no_error_204 bad_multipart h = omega (arith, h)
no_error_204 invalid_file_id h = omega (arith, h)
no_error_204 file_forbidden h = omega (arith, h)
no_error_204 (of_service chat_not_found) h = omega (arith, h)
no_error_204 (of_service sender_not_member) h = omega (arith, h)
no_error_204 (of_service file_validation) h = omega (arith, h)
no_error_204 (of_service file_service_unavailable) h = omega (arith, h)
no_error_204 (of_service save_file_message) h = omega (arith, h)
no_error_204 (of_service other_error) h = omega (arith, h)
no_error_204 (of_service SendFileMessage.no_files) h = omega (arith, h)
no_error_204 (of_service SendFileMessage.too_many_files) h = omega (arith, h)

ok_of_204 : (r : Result HttpError (Unit {0})) → status_of 204 r ≡ 204 → r ≡ ok tt
ok_of_204 (ok _) h = refl
ok_of_204 (err e) h = absurd (no_error_204 e h)

module _ (pg : Postgres) (redis : Redis) (server : FileServer) (r : Request)
    (w : World pg redis server) where
  -- Nobody gets the status 204 for a file that was not sent in one of his chats, whatever fails: the
  -- file's id is a uuid in form, and the login is a member of a chat in which it was sent.
  pub check_file_access-IsReadable :
      status_of 204 (check_file_access pg redis server r w).0 ≡ 204
      → (file_id f : String) × (parse_file_id r ≡ ok file_id)
        × (pg.uuid (trim_space file_id) ≡ some f)
        × IsReadable w.online.sources.db.tables (trim_space r.login) f
  unfolding check_file_access can_access_file user_has_access_to_file
  check_file_access-IsReadable h = elim (Result-cases (parse_file_id r)) [
    | inr (e, bad) ↦ absurd (ground (arith, done, bad))
    | inl (file_id, parsed) ↦ elim (Option-cases (pg.uuid (trim_space file_id))) [
      | inl no_cast ↦ absurd (ground (arith, done, parsed, no_cast))
      | inr (f, cast) ↦ (
        file_id,
        f,
        parsed,
        cast,
        attached_for-IsReadable w.online.sources.db.tables (trim_space r.login) f
            (ground (arith, done, parsed, cast)),
      )
    ]
  ]
    where
      done : (check_file_access pg redis server r w).0 ≡ ok tt
      done = ok_of_204 _ h

  -- With a database that answers, a member of a chat in which the file was sent gets the status 204, and
  -- anybody else 403.
  pub check_file_access-status :
      (file_id f : String)
      → IsHealthy pg
      → (trim_space r.login == "") ≡ false
      → parse_file_id r ≡ ok file_id
      → pg.uuid (trim_space file_id) ≡ some f
      → let status = status_of 204 (check_file_access pg redis server r w).0 in
        (IsReadable w.online.sources.db.tables (trim_space r.login) f → status ≡ 204)
        × (¬ IsReadable w.online.sources.db.tables (trim_space r.login) f → status ≡ 403)
  unfolding check_file_access can_access_file user_has_access_to_file write_http_error
  check_file_access-status file_id f healthy named parsed cast = (
    λ readable.
        let attached =
          IsReadable-attached_for w.online.sources.db.tables (trim_space r.login) f readable in
        rw (named, parsed, healthy.no_fault w.online.sources.db.calls, cast, attached) refl,
    λ unreadable.
        elim (Bool-cases (attached_for w.online.sources.db.tables (trim_space r.login) f)) [
          | inl attached ↦ absurd (
              unreadable (
                attached_for-IsReadable w.online.sources.db.tables (trim_space r.login) f attached))
          | inr other ↦
              rw (named, parsed, healthy.no_fault w.online.sources.db.calls, cast, other) refl
        ],
  )
