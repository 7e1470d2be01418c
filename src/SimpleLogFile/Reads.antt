-- ===== src/SimpleLogFile/Reads.antt =====
-- simple_log_file.rs: the methods that leave the file as it is.
use block_rust.Base.{
  ◌+◌, ◌-◌, Bool, ◌==◌, if◌then◌else◌, Option, none, some, length, drop, Outcome, ok, err, ◌>>=◌,
  io,
}
use block_rust.Types.{Address}
use block_rust.FsThread.{State, open_append, open_read}
use block_rust.Frame
use block_rust.Frame.{Libraries}

unfoldable pub is_empty : State → Outcome Bool
unfolding open_read
is_empty s = do content ← open_read s; ok (length content == 0)

-- A handle that this opens stands at 0, as one does that is opened later.
unfoldable pub sync : State → Outcome (Unit {0})
unfolding open_append
sync s = do pos ← (open_append s).0; if s.no_sync then err io else ok tt

module _ {Cmd : Type 0} (libs : Libraries Cmd) where
  -- The address behind the frame, unless the file ends there.
  unfoldable pub read_at : Address → State → Outcome (Cmd × Option Address)
  unfolding open_read
  read_at addr s = do
    content ← open_read s
    (cmd, left) ← Frame.read libs (drop addr content)
    let pos = addr + (length (drop addr content) - length left)
    ok (cmd, if pos == length content then none else some pos)
