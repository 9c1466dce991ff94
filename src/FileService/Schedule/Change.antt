-- ===== src/FileService/Schedule/Change.antt =====
-- What one turn of a request can do to the two stores.
use mathlib.Core.Path.{subst}
use mathlib.Core.List.{Memᴰ}
use simply_chat.Base.{
  ℕ, String, Bool, true, ◌≡◌, refl, sym, ◌⊎◌, inl, inr, Option, none, some, List, [], ◌∷◌, ◌++◌,
  map, select, Bool-cases, arith, string_eq,
}
use simply_chat.Postgres.{Postgres}
use simply_chat.FileService.Metadata.{FileRow, is_live, mark_row, live_row}
use simply_chat.FileService.ObjectStorage.{ObjectStorage}
use simply_chat.FileService.Service.{State}

abbrev pub IsLive : FileRow → Type 0
IsLive row = is_live row.deleted_at ≡ true

-- A row that was there before, perhaps marked since.
pub record FromOld (rows : List FileRow) (row : FileRow) : Type 0 where
  pub old : FileRow
  pub there : Memᴰ old rows
  pub key : old.object_key ≡ row.object_key
  pub id : old.id ≡ row.id
  pub live : IsLive row → IsLive old

pub same_row : (rows : List FileRow) (row : FileRow) → Memᴰ row rows → FromOld rows row
same_row rows row m = record { old = row; there = m; key = refl; id = refl; live = λ h. h }

mark_row-FromOld :
    (now : ℕ) (id : String) (row : FileRow) (rows : List FileRow)
    → FromOld (row ∷ rows) (mark_row now id row)
mark_row-FromOld now id row rows = elim (Bool-cases (live_row id row)) [
  | inl marked ↦ rw marked (record {
    old = row;
    there = Memᴰ.head refl;
    key = refl;
    id = refl;
    live = λ h. absurd (ground (arith, h));
  })
  | inr other ↦
      rw other (record { old = row; there = Memᴰ.head refl; key = refl; id = refl; live = λ h. h })
]

deeper :
    (row : FileRow) (rows : List FileRow) (r : FileRow) → FromOld rows r → FromOld (row ∷ rows) r
deeper row rows r f = record {
  old = f.old;
  there = Memᴰ.tail f.there;
  key = f.key;
  id = f.id;
  live = f.live;
}

pub marked-FromOld :
    (now : ℕ) (id : String) (rows : List FileRow) (row : FileRow)
    → Memᴰ row (map (mark_row now id) rows)
    → FromOld rows row
marked-FromOld now id [] row m = elim m [ ]
marked-FromOld now id (r ∷ rows) row (Memᴰ.head e) =
    subst (FromOld (r ∷ rows)) (sym e) (mark_row-FromOld now id r rows)
marked-FromOld now id (r ∷ rows) row (Memᴰ.tail m) =
    deeper r rows row (marked-FromOld now id rows row m)

pub selected-FromOld :
    (keep : FileRow → Bool) (rows : List FileRow) (row : FileRow)
    → Memᴰ row (select keep rows)
    → FromOld rows row
selected-FromOld keep [] row m = elim m [ ]
selected-FromOld keep (r ∷ rows) row m = elim (Bool-cases (keep r)) [
  | inl kept ↦ elim (rw kept at m) [
    | Memᴰ.head e ↦ subst (FromOld (r ∷ rows)) (sym e) (same_row (r ∷ rows) r (Memᴰ.head refl))
    | Memᴰ.tail n ↦ deeper r rows row (selected-FromOld keep rows row n)
  ]
  | inr dropped ↦ deeper r rows row (selected-FromOld keep rows row (rw dropped at m))
]

pub appended :
    (row new : FileRow) (rows : List FileRow)
    → Memᴰ row (rows ++ new ∷ [])
    → Memᴰ row rows ⊎ (row ≡ new)
appended row new [] (Memᴰ.head e) = inr e
appended row new [] (Memᴰ.tail m) = elim m [ ]
appended row new (r ∷ rows) (Memᴰ.head e) = inl (Memᴰ.head e)
appended row new (r ∷ rows) (Memᴰ.tail m) = elim (appended row new rows m) [
  | inl there ↦ inl (Memᴰ.tail there)
  | inr e ↦ inr e
]

module _ (pg : Postgres) (o : ObjectStorage) where
  -- No row with the key is live.
  abbrev pub IsDead : State pg o → String → Type 0
  IsDead s key = (r : FileRow) → Memᴰ r s.metadata.rows → r.object_key ≡ key → ¬ IsLive r

  -- What becomes of the object under a key: nothing, or it is the turn's own, or it was removed, and no
  -- live row and no pending upload has the key.
  pub data Stored (mine : Option String) (Free : String → Type 0) (s t : State pg o) (k : String)
      : Type 0 where
    untouched : o.holds t.store k ≡ o.holds s.store k → Stored mine Free s t k
    own : mine ≡ some k → Stored mine Free s t k
    removed : o.holds t.store k ≡ none → IsDead s k → Free k → Stored mine Free s t k

  -- A row after the turn: it was there before, or it is the turn's own, with its object.
  pub data Recorded (mine still : Option String) (id : String) (original : String → List ℕ)
      (s t : State pg o) (r : FileRow) : Type 0 where
    old : FromOld s.metadata.rows r → Recorded mine still id original s t r
    new :
        mine ≡ some r.object_key
        → still ≡ none
        → r.id ≡ id
        → o.holds t.store r.object_key ≡ some (original r.object_key)
        → Recorded mine still id original s t r

  -- `mine` is the key of the upload that takes the turn, `still` the one it has afterwards.
  pub record Change (mine still : Option String) (Free : String → Type 0) (id : String)
      (original : String → List ℕ) (s t : State pg o) : Type 0 where
    pub store : (k : String) → Stored mine Free s t k
    pub rows : (r : FileRow) → Memᴰ r t.metadata.rows → Recorded mine still id original s t r
