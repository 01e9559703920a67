-- ===== src/World.antt =====
-- The state behind `storage.Storage` (backend/storage/storageImpl.go): the session store in memory
-- and the tables, and what a run takes from its surroundings.
use human_guard.Base.{ℕ, String}
use human_guard.Value.{FloatOps}
use human_guard.Clock.{Time}
use human_guard.Session.{Sessions}
use human_guard.Sites.{Db, Faults}

pub record World : Type 0 where
  pub sessions : Sessions
  pub db : Db

-- What a run reads from outside: the arithmetic of floats, the Unicode table of `strings.ToLower`
-- past ASCII, decimal printing (`%d`), the statements that fail, the time, and the identifier that
-- `uuid.New` draws.
pub record Env : Type 0 where
  pub floats : FloatOps
  pub lower : ℕ → ℕ
  pub show_int : ℕ → String
  pub faults : Faults
  pub now : Time
  pub fresh : String
