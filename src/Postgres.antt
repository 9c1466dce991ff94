-- ===== src/Postgres.antt =====
-- PostgreSQL, which both services call: which statements fail for reasons of the server's own
-- (connection, timeout), how many rows of a result arrive before the connection breaks (all, where
-- there is no cut), the clock at a statement, and the cast of a text to a uuid. Statements are
-- numbered by the state that they run on. `commit_applied` says of a commit that ends in an error whether
-- the server applied it all the same, and only its acknowledgement was lost.
use simply_chat.Base.{ℕ, String, Bool, Option}

pub record Postgres : Type 0 where
  pub fault : ℕ → Bool
  pub commit_applied : ℕ → Bool
  pub cut : ℕ → Option ℕ
  pub now : ℕ → ℕ
  pub uuid : String → Option String
