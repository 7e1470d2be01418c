-- ===== src/SimpleLogFile.antt =====
-- simple_log_file.rs: a log of frames in a file.
pub mod Reads
pub mod Appends
pub mod Replay
use block_rust.Base.Exec.{Exec, pure, lift, ◌>>=◌, ◌>>◌}
use block_rust.Types.{Address}
use block_rust.LogFile.{LogFile}
use block_rust.FsThread.{State, open_append, write_all}
use block_rust.Frame.{Libraries, frame}
use block_rust.SimpleLogFile.Reads.{is_empty, sync, read_at}

module _ {Cmd : Type 0} (libs : Libraries Cmd) where
  -- The address is the position of the handle before the frame is written.
  unfoldable pub append : Cmd → Exec State Address
  append cmd = do pos ← open_append; text ← lift (frame libs cmd); write_all text; pure pos

-- `create`.
abbrev pub create : {Cmd : Type 0} → Libraries Cmd → LogFile Cmd
create libs = record {
  State = State;
  is_empty = is_empty;
  append = append libs;
  read_at = read_at libs;
  sync = sync;
}
