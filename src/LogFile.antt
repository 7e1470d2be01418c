-- ===== src/LogFile.antt =====
-- log_file.rs: what a log file offers, and what its users rely on.
use block_rust.Base.{◌≡◌, ◌⊎◌, Bool, Option, some, Outcome, ok, err, Error}
use block_rust.Base.Exec.{Exec}
use block_rust.Types.{Address}

-- The closures of `LogFile` share a state. Only `append` changes what the log holds.
pub record LogFile (Cmd : Type 0) : Type 1 where
  pub State : Type 0
  pub is_empty : State → Outcome Bool
  pub append : Cmd → Exec State Address
  pub read_at : Address → State → Outcome (Cmd × Option Address)
  pub sync : State → Outcome (Unit {0})

-- An append-only log: a command stays at its address, and is what a read of the address returns
-- unless the read fails.
pub record IsLog {Cmd : Type 0} (f : LogFile Cmd) : Type 0 where
  pub entry : LogFile.State f → Address → Option Cmd
  pub append_keeps :
      (s : LogFile.State f) (cmd cmd' : Cmd) (a : Address)
      → entry s a ≡ some cmd'
      → entry (LogFile.append f cmd s).1 a ≡ some cmd'
  pub append_entry :
      (s : LogFile.State f) (cmd : Cmd) (a : Address)
      → (LogFile.append f cmd s).0 ≡ ok a
      → entry (LogFile.append f cmd s).1 a ≡ some cmd
  pub read_entry :
      (s : LogFile.State f) (cmd : Cmd) (a : Address)
      → entry s a ≡ some cmd
      → ((next : Option Address) × (LogFile.read_at f a s ≡ ok (cmd, next)))
        ⊎ ((e : Error) × (LogFile.read_at f a s ≡ err e))
