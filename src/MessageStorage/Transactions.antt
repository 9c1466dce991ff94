-- ===== src/MessageStorage/Transactions.antt =====
-- withTx of messageStorage/tx.go, and the tables.
use simply_chat.Base.{
  ◌≡◌, refl, ◌⊎◌, Result, ok, err, Bool-cases, inl, inr, arith, int_eq, string_eq,
}
use simply_chat.Postgres.{Postgres}
use simply_chat.MessageStorage.Tables.{Tables, Db, Sql, StorageError, commit_failed, counted}
use simply_chat.MessageStorage.Messages.{with_tx, commit_or_rollback}

-- The tables `after` are those that the run `run` found, or the commit failed and was applied.
abbrev pub Undone :
    {A : Type 0} → Tables → StorageError → Result StorageError A × Db → Tables → Type 0
Undone {A} saved e run after =
    (after ≡ saved) ⊎ ((a : A) × (e ≡ commit_failed) × (run.0 ≡ ok a) × (after ≡ run.1.tables))

pub commit_or_rollback-err :
    {A : Type 0} (pg : Postgres) (saved : Tables) (run : Result StorageError A × Db)
    (e : StorageError)
    → (commit_or_rollback pg saved run).0 ≡ err e
    → Undone saved e run (commit_or_rollback pg saved run).1.tables
commit_or_rollback-err pg saved (err x, db) e h = inl refl
commit_or_rollback-err pg saved (ok a, db) e h = elim (Bool-cases (pg.fault db.calls)) [
  | inr run ↦ absurd (ground (arith, h, run))
  | inl fault ↦ elim (Bool-cases (pg.commit_applied db.calls)) [
    | inl applied ↦ inr (a, ground (arith, h, fault), refl, ground (arith, fault, applied))
    | inr lost ↦ inl (ground (arith, fault, lost))
  ]
]

pub commit_or_rollback-ok :
    {A : Type 0} (pg : Postgres) (saved : Tables) (run : Result StorageError A × Db) (a : A)
    → (commit_or_rollback pg saved run).0 ≡ ok a
    → (run.0 ≡ ok a) × ((commit_or_rollback pg saved run).1.tables ≡ run.1.tables)
commit_or_rollback-ok pg saved (err x, db) a h = absurd (ground arith)
commit_or_rollback-ok pg saved (ok b, db) a h = ground arith

-- A transaction that ends in an error, whatever runs in it and wherever it fails, leaves the
-- tables as they were, unless it is the commit that failed, and was applied.
pub with_tx-err :
    {A : Type 0} (pg : Postgres) (fn : Sql A) (db : Db) (e : StorageError)
    → (with_tx pg fn db).0 ≡ err e
    → Undone db.tables e (fn (counted db)) (with_tx pg fn db).1.tables
unfolding with_tx
with_tx-err pg fn db e h = elim (Bool-cases (pg.fault db.calls)) [
  | inl fault ↦ rw fault (inl refl)
  | inr begun ↦
      rw begun (commit_or_rollback-err pg db.tables (fn (counted db)) e (ground (arith, begun)))
]

pub with_tx-ok :
    {A : Type 0} (pg : Postgres) (fn : Sql A) (db : Db) (a : A)
    → (with_tx pg fn db).0 ≡ ok a
    → ((fn (counted db)).0 ≡ ok a) × ((with_tx pg fn db).1.tables ≡ (fn (counted db)).1.tables)
unfolding with_tx
with_tx-ok pg fn db a h = elim (Bool-cases (pg.fault db.calls)) [
  | inl fault ↦ absurd (ground (arith, fault))
  | inr begun ↦
      rw begun (commit_or_rollback-ok pg db.tables (fn (counted db)) a (ground (arith, begun)))
]
