-- ===== src/FsThread.antt =====
-- fs_thread.rs: the file of one log and its handles. The thread runs the closures one after the other,
-- so that each is one step.
pub mod Context
pub mod Thread
pub mod Served
use block_rust.Base.{
  ℕ, Bool, ltb, if◌then◌else◌, Option, none, some, List, [], ◌∷◌, ◌++◌, length, take, Outcome, ok,
  err, io,
}
use block_rust.Base.Exec.{Exec}

-- What becomes of a call of `write_all`: the device takes all bytes, or fails behind some of them.
pub data Write : Type 0 where
  whole : Write
  broken : ℕ → Write

-- The file of the log, with the handle in `append_handles` by its position. `writes` says what the
-- calls of `write_all` to come meet, which take all bytes behind its end; `no_open`, `no_read` and
-- `no_sync` say that the file system refuses.
pub record State : Type 0 where
  pub content : List ℕ
  pub append_handle : Option ℕ
  pub writes : List Write
  pub no_open : Bool
  pub no_read : Bool
  pub no_sync : Bool

-- `FsThreadContext::open_append` and the position of its handle. A file that is opened for appending
-- starts at the position 0 (POSIX), and stands at the end of the file behind each write.
unfoldable pub open_handle : Option ℕ → Exec State ℕ
open_handle (some pos) s = (ok pos, s)
open_handle none s = if s.no_open then (err io, s) else (ok 0, record s { append_handle = some 0 })

unfoldable pub open_append : Exec State ℕ
unfolding open_handle
open_append s = open_handle s.append_handle s

-- Bytes that reach the file.
unfoldable pub put : List ℕ → State → State
put [] s = s
put (b ∷ text) s = record s {
  content = s.content ++ b ∷ text;
  append_handle = some (length (s.content ++ b ∷ text));
}

unfoldable pub write_against : List Write → List ℕ → Exec State (Unit {0})
unfolding put
write_against [] text s = (ok tt, put text (record s { writes = [] }))
write_against (whole ∷ writes) text s = (ok tt, put text (record s { writes = writes }))
write_against (broken n ∷ writes) text s =
    if ltb n (length text)
    then (err io, put (take n text) (record s { writes = writes }))
    else (ok tt, put text (record s { writes = writes }))

unfoldable pub write_all : List ℕ → Exec State (Unit {0})
unfolding write_against
write_all text s = write_against s.writes text s

-- `FsThreadContext::open_read` and the bytes of the file.
unfoldable pub open_read : State → Outcome (List ℕ)
open_read s = if s.no_read then err io else ok s.content
