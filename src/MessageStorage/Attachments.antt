-- ===== src/MessageStorage/Attachments.antt =====
-- createAttachmentsTx of messageStorage.go, and the tables.
use mathlib.Core.Path.{subst}
use simply_chat.Base.{
  suc, ℤ, pos, String, Bool, true, ◌||◌, ◌≡◌, refl, sym, ap, ◌∙◌, some, List, [], ◌∷◌, ◌++◌, any,
  any-append, All, ok, Result-cases, Bool-cases, Option-cases, inl, inr, arith, ==_refl, int_eq,
  string_eq,
}
use simply_chat.Postgres.{Postgres}
use simply_chat.MessageStorage.Tables.{Tables, Db, AttachmentRow, counted}
use simply_chat.MessageStorage.Messages.{
  FileAttachmentRecord, create_attachments_tx, insert_attachment, insert_attachment_row, same_file,
}

-- Attachments are only added to.
pub record Grows (s t : Tables) : Type 0 where
  pub same_messages : t.message ≡ s.message
  pub same_members : t.chat_user ≡ s.chat_user
  pub keeps :
      (p : AttachmentRow → Bool)
      → any p s.message_attachment ≡ true
      → any p t.message_attachment ≡ true

-- Recorded under the uuid that its id casts to.
abbrev pub IsRecorded : Postgres → Tables → ℤ → FileAttachmentRecord → Type 0
IsRecorded pg t message_id a =
    (f : String) × (pg.uuid a.file_id ≡ some f)
    × (any (same_file message_id f) t.message_attachment ≡ true)

abbrev pub new_row : ℤ → FileAttachmentRecord → String → Db → AttachmentRow
new_row message_id a f db = record {
  id = pos (suc db.attachment_seq);
  message_id = message_id;
  file_id = f;
  original_filename = a.original_filename;
  mime_type = a.mime_type;
  size = a.size;
  kind = a.kind;
}

pub insert_attachment_row-ok :
    (message_id : ℤ) (a : FileAttachmentRecord) (f : String) (db : Db)
    → (insert_attachment_row message_id a (some f) db).0 ≡ ok tt
    → (insert_attachment_row message_id a (some f) db).1.tables ≡ record db.tables {
      message_attachment = db.message_attachment ++ new_row message_id a f db ∷ [];
    }
insert_attachment_row-ok message_id a f db h = ground arith

-- One attachment recorded: what was there stays, and it is there.
pub insert_attachment-ok :
    (pg : Postgres) (message_id : ℤ) (a : FileAttachmentRecord) (db : Db)
    → (insert_attachment pg message_id a db).0 ≡ ok tt
    → Grows db.tables (insert_attachment pg message_id a db).1.tables
      × IsRecorded pg (insert_attachment pg message_id a db).1.tables message_id a
unfolding insert_attachment
insert_attachment-ok pg message_id a db h = elim (Bool-cases (pg.fault db.calls)) [
  | inl fault ↦ absurd (ground (arith, fault))
  | inr run ↦ elim (Option-cases (pg.uuid a.file_id)) [
    | inl none_ ↦ absurd (ground (arith, run, none_))
    | inr (f, cast) ↦
        let rows =
          insert_attachment_row-ok message_id a f (counted db) (ground (arith, run, cast)) in
        rw (run, cast, rows)
          (
            record {
              same_messages = refl;
              same_members = refl;
              keeps = λ p there.
                  any-append p db.message_attachment (new_row message_id a f (counted db) ∷ [])
                  ∙ ap (λ b. b || any p (new_row message_id a f (counted db) ∷ [])) there;
            },
            (
              f,
              refl,
              any-append (same_file message_id f) db.message_attachment
                    (new_row message_id a f (counted db) ∷ [])
                  ∙ ground (arith, ==_refl message_id, ==_refl f),
            ),
          )
  ]
]

pub Grows-trans : (r s t : Tables) → Grows r s → Grows s t → Grows r t
Grows-trans r s t g h = record {
  same_messages = h.same_messages ∙ g.same_messages;
  same_members = h.same_members ∙ g.same_members;
  keeps = λ p there. h.keeps p (g.keeps p there);
}

pub create_attachments_tx-ok :
    (pg : Postgres) (message_id : ℤ) (rows : List FileAttachmentRecord) (db : Db)
    → let (r, t) = create_attachments_tx pg message_id rows db in
      r ≡ ok tt → Grows db.tables t.tables × All (IsRecorded pg t.tables message_id) rows
unfolding create_attachments_tx
create_attachments_tx-ok pg message_id [] db h =
    (record { same_messages = refl; same_members = refl; keeps = λ p q. q }, tt)
create_attachments_tx-ok pg message_id (a ∷ rows) db h =
    elim (Result-cases (insert_attachment pg message_id a db).0) [
      | inr (e, failed) ↦ absurd (ground (arith, failed))
      | inl (_, done) ↦
          let (grown, (f, cast, there)) = insert_attachment-ok pg message_id a db done in
          let (more, all) =
            create_attachments_tx-ok pg message_id rows (insert_attachment pg message_id a db).1
              (ground (arith, done)) in
          let whole : (create_attachments_tx pg message_id (a ∷ rows) db).1
              ≡ (create_attachments_tx pg message_id rows
                  (insert_attachment pg message_id a db).1).1 =
            rw done refl in
          subst (λ t. Grows db.tables t.tables × All (IsRecorded pg t.tables message_id) (a ∷ rows))
            (sym whole)
            (
              Grows-trans _ _ _ grown more,
              ((f, cast, more.keeps (same_file message_id f) there), all),
            )
    ]
