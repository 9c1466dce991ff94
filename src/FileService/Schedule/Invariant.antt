-- ===== src/FileService/Schedule/Invariant.antt =====
-- What holds of the stores and of all requests between two turns.
use mathlib.Core.Path.{subst}
use mathlib.Core.List.{Memᴰ}
use simply_chat.Base.{
  ℕ, String, ◌≡◌, ◌≢◌, refl, sym, ap, ◌∙◌, ◌⊎◌, inl, inr, Option, none, some, List, ok, err,
  Bool-cases, arith, ◌==◌, ==_iff, ne-of_==-false, nat_eq,
}
use simply_chat.Postgres.{Postgres}
use simply_chat.FileService.Metadata.{FileRow}
use simply_chat.FileService.ObjectStorage.{ObjectStorage}
use simply_chat.FileService.Service.{State}
use simply_chat.FileService.Schedule.{
  Task, putting, creating, cleaning, reading_back, uploaded, asking, getting, downloaded, finding,
  marking, removing, dropping, deleted, Pool, with_turn,
}
use simply_chat.FileService.Schedule.Change.{
  IsLive, IsDead, untouched, own, removed, old, new, Change,
}

-- The key of an upload that has no row yet.
abbrev pub pending : Task → Option String
pending (putting file content) = some file.object_key
pending (creating file) = some file.object_key
pending (cleaning file) = some file.object_key
pending (reading_back id) = none
pending (uploaded r) = none
pending (asking id) = none
pending (getting file) = none
pending (downloaded r) = none
pending (finding id) = none
pending (marking id file) = none
pending (removing id file) = none
pending (dropping id) = none
pending (deleted r) = none

-- `original` is the content that is uploaded under a key.
module _ (pg : Postgres) (o : ObjectStorage) (original : String → List ℕ) where
  -- No upload is under way with the key.
  abbrev pub Free : Pool pg o → String → Type 0
  Free p key = (i : ℕ) → pending (p.tasks i) ≢ some key

  abbrev pub Holds : State pg o → String → Type 0
  Holds s key = o.holds s.store key ≡ some (original key)

  -- What a request knows of the stores.
  abbrev pub Knows : State pg o → (String → Type 0) → Task → Type 0
  Knows s F (putting file content) = content ≡ original file.object_key
  Knows s F (creating file) = Holds s file.object_key
  Knows s F (cleaning file) = Unit
  Knows s F (reading_back id) = Unit
  Knows s F (uploaded r) = Unit
  Knows s F (asking id) = Unit
  Knows s F (getting file) =
      (Holds s file.object_key ⊎ (o.holds s.store file.object_key ≡ none)) × F file.object_key
  Knows s F (downloaded (ok (file, body))) = body ≡ original file.object_key
  Knows s F (downloaded (err e)) = Unit
  Knows s F (finding id) = Unit
  Knows s F (marking id file) =
      ((r : FileRow) → Memᴰ r s.metadata.rows → r.object_key ≡ file.object_key → r.id ≡ id)
      × F file.object_key
  Knows s F (removing id file) = IsDead pg o s file.object_key × F file.object_key
  Knows s F (dropping id) = Unit
  Knows s F (deleted r) = Unit

  pub record Sound (p : Pool pg o) : Type 0 where
    pub intact :
        (r : FileRow) → Memᴰ r p.state.metadata.rows → IsLive r → Holds p.state r.object_key
    pub unique :
        (r q : FileRow)
        → Memᴰ r p.state.metadata.rows
        → Memᴰ q p.state.metadata.rows
        → r.object_key ≡ q.object_key
        → r.id ≡ q.id
    pub unused :
        (i : ℕ) (k : String) (r : FileRow)
        → pending (p.tasks i) ≡ some k
        → Memᴰ r p.state.metadata.rows
        → r.object_key ≢ k
    pub apart :
        (i j : ℕ) (k : String) → pending (p.tasks i) ≡ some k → pending (p.tasks j) ≡ some k → i ≡ j
    pub knows : (i : ℕ) → Knows p.state (Free p) (p.tasks i)

  -- What a request knows stays true when fewer uploads are under way.
  Knows-Free :
      (s : State pg o) (F G : String → Type 0) (t : Task)
      → ((k : String) → F k → G k)
      → Knows s F t
      → Knows s G t
  Knows-Free s F G (putting file content) f h = h
  Knows-Free s F G (creating file) f h = h
  Knows-Free s F G (cleaning file) f h = h
  Knows-Free s F G (reading_back id) f h = h
  Knows-Free s F G (uploaded r) f h = h
  Knows-Free s F G (asking id) f h = h
  Knows-Free s F G (getting file) f (held, free) = (held, f file.object_key free)
  Knows-Free s F G (downloaded (ok (file, body))) f h = h
  Knows-Free s F G (downloaded (err e)) f h = h
  Knows-Free s F G (finding id) f h = h
  Knows-Free s F G (marking id file) f (same, free) = (same, f file.object_key free)
  Knows-Free s F G (removing id file) f (dead, free) = (dead, f file.object_key free)
  Knows-Free s F G (dropping id) f h = h
  Knows-Free s F G (deleted r) f h = h

  module _ (p : Pool pg o) (i : ℕ) (t : Task) (s : State pg o) (id : String)
      (c : Change pg o (pending (p.tasks i)) (pending t) (Free p) id original p.state s) where
    -- An object that is held, under a key that is neither the turn's own nor can be removed.
    held_on :
        (k : String)
        → pending (p.tasks i) ≢ some k
        → ¬ (IsDead pg o p.state k × Free p k)
        → Holds p.state k
        → Holds s k
    held_on k other kept h = elim (c.store k) [
      | untouched same ↦ same ∙ h
      | own mine ↦ absurd (other mine)
      | removed gone dead free ↦ absurd (kept (dead, free))
    ]

    -- A request that does not take the turn keeps what it knows.
    Knows-turn :
        (j : ℕ) (u : Task)
        → p.tasks j ≡ u
        → ((k : String) → pending u ≡ some k → pending (p.tasks i) ≢ some k)
        → Knows p.state (Free p) u
        → Knows s (Free p) u
    Knows-turn j (putting file content) at other h = h
    Knows-turn j (creating file) at other h =
        held_on file.object_key (other file.object_key refl) (λ (dead, free). free j (rw at refl)) h
    Knows-turn j (cleaning file) at other h = h
    Knows-turn j (reading_back id) at other h = h
    Knows-turn j (uploaded r) at other h = h
    Knows-turn j (asking id) at other h = h
    Knows-turn j (getting file) at other (held, free) = (
      elim (c.store file.object_key) [
        | untouched same ↦ elim held [
          | inl there ↦ inl (same ∙ there)
          | inr gone ↦ inr (same ∙ gone)
        ]
        | own mine ↦ absurd (free i mine)
        | removed gone dead still_free ↦ inr gone
      ],
      free,
    )
    Knows-turn j (downloaded (ok (file, body))) at other h = h
    Knows-turn j (downloaded (err e)) at other h = h
    Knows-turn j (finding id) at other h = h
    Knows-turn j (marking id file) at other (same, free) = (
      λ r there key. elim (c.rows r there) [
        | old f ↦ sym f.id ∙ same f.old f.there (f.key ∙ key)
        | new mine done id_is held ↦ absurd (free i (mine ∙ ap some key))
      ],
      free,
    )
    Knows-turn j (removing id file) at other (dead, free) = (
      λ r there key live. elim (c.rows r there) [
        | old f ↦ dead f.old f.there (f.key ∙ key) (f.live live)
        | new mine done id_is held ↦ absurd (free i (mine ∙ ap some key))
      ],
      free,
    )
    Knows-turn j (dropping id) at other h = h
    Knows-turn j (deleted r) at other h = h

    abbrev q : Pool pg o
    q = with_turn pg o i p (t, s)

    module _ (h : Sound p)
        (mine : (k : String) → pending t ≡ some k → pending (p.tasks i) ≡ some k) where
      -- An upload that is under way after the turn was so before.
      pending_was :
          (j : ℕ) (k : String) → pending (q.tasks j) ≡ some k → pending (p.tasks j) ≡ some k
      pending_was j k now = elim (Bool-cases (j == i)) [
        | inl same ↦ rw ((==_iff j i).0 same) (mine k (rw same at now))
        | inr other ↦ rw other at now
      ]

      freer : (k : String) → Free p k → Free q k
      freer k free j now = free j (pending_was j k now)

      intact_after : (r : FileRow) → Memᴰ r s.metadata.rows → IsLive r → Holds s r.object_key
      intact_after r there live = elim (c.rows r there) [
        | new own_key done id_is held ↦ held
        | old f ↦
            held_on r.object_key (λ used. h.unused i r.object_key f.old used f.there f.key)
              (λ (dead, free). dead f.old f.there f.key (f.live live))
              (subst (Holds p.state) f.key (h.intact f.old f.there (f.live live)))
      ]

      unused_after :
          (j : ℕ) (k : String) (r : FileRow)
          → pending (q.tasks j) ≡ some k
          → Memᴰ r s.metadata.rows
          → r.object_key ≢ k
      unused_after j k r now there key = elim (c.rows r there) [
        | old f ↦ h.unused j k f.old (pending_was j k now) f.there (f.key ∙ key)
        | new own_key done id_is held ↦ elim (Bool-cases (j == i)) [
          | inl same ↦ absurd (ground (arith, rw same at now, done))
          | inr other ↦
              ne-of_==-false j i other (h.apart j i k (pending_was j k now) (own_key ∙ ap some key))
        ]
      ]

      unique_after :
          (r w : FileRow)
          → Memᴰ r s.metadata.rows
          → Memᴰ w s.metadata.rows
          → r.object_key ≡ w.object_key
          → r.id ≡ w.id
      unique_after r w there here same = elim (c.rows r there) [
        | old f ↦ elim (c.rows w here) [
          | old g ↦
              sym f.id ∙ h.unique f.old g.old f.there g.there (f.key ∙ same ∙ sym g.key) ∙ g.id
          | new own_key done id_is held ↦
              absurd (h.unused i w.object_key f.old own_key f.there (f.key ∙ same))
        ]
        | new own_key done id_is held ↦ elim (c.rows w here) [
          | old g ↦ absurd (h.unused i r.object_key g.old own_key g.there (g.key ∙ sym same))
          | new own_w done_w id_w held_w ↦ id_is ∙ sym id_w
        ]
      ]

      Knows-after : Knows s (Free p) t → (j : ℕ) → Knows s (Free q) (q.tasks j)
      Knows-after known j = elim (Bool-cases (j == i)) [
        | inl same ↦ rw same (Knows-Free s (Free p) (Free q) t freer known)
        | inr other ↦ rw other (
            Knows-Free s (Free p) (Free q) (p.tasks j) freer (
              Knows-turn j (p.tasks j) refl
                (λ k its used. ne-of_==-false j i other (h.apart j i k its used)) (h.knows j)))
      ]

      -- A turn that makes such a change, and leaves its request with knowledge that is true, keeps
      -- everything.
      pub Change-Sound : Knows s (Free p) t → Sound q
      Change-Sound known = record {
        intact = intact_after;
        unique = unique_after;
        unused = unused_after;
        apart = λ j l k one other. h.apart j l k (pending_was j k one) (pending_was l k other);
        knows = Knows-after known;
      }
