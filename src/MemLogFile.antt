-- ===== src/MemLogFile.antt =====
-- mem_log_file.rs: a log in memory, one buffer for each command.
pub mod Laws
use Prim.Native.Nat.{◌*◌}
use block_rust.Base.{
  ℕ, ◌+◌, ◌-◌, ◌^◌, ltb, if◌then◌else◌, Bool, true, false, Option, none, some, List, [], ◌∷◌, ◌++◌,
  length, get_elem?, u64_mod, checked_add, Outcome, ok, err, panic, Error, no_command, codec, ok_or,
  expect, ◌>>=◌, ◌≡◌,
}
use block_rust.Base.Exec
use block_rust.Base.Exec.{Exec}
use block_rust.Types.{Address}
use block_rust.LogFile.{LogFile}

-- `serde_cbor::to_vec` and `from_slice` at the type of the commands: what is encoded is decoded again.
pub record Codec (Cmd : Type 0) : Type 0 where
  pub to_vec : Cmd → Outcome (List ℕ)
  pub from_slice : List ℕ → Outcome Cmd
  pub round_trip : (cmd : Cmd) (bin : List ℕ) → to_vec cmd ≡ ok bin → from_slice bin ≡ ok cmd

-- `State` is its buffers.
abbrev pub State : Type 0
State = List (List ℕ)

-- `Vec::push` panics when the vector would pass `isize::MAX` bytes; a buffer's header takes 24.
unfoldable pub has_room : State → Bool
has_room buffers = ltb (24 * (length buffers + 1)) (2 ^ 63)

unfoldable pub is_empty : State → Outcome Bool
is_empty [] = ok true
is_empty (b ∷ buffers) = ok false

abbrev pub push_buffer : Outcome (List ℕ) → Exec State Address
push_buffer (ok bin) buffers =
    if has_room buffers
    then (ok (length (buffers ++ bin ∷ []) - 1), buffers ++ bin ∷ [])
    else (panic, buffers)
push_buffer (err e) buffers = (err e, buffers)
push_buffer panic buffers = (panic, buffers)

module _ {Cmd : Type 0} (c : Codec Cmd) where
  unfoldable pub append : Cmd → Exec State Address
  unfolding has_room
  append cmd = push_buffer (c.to_vec cmd)

  unfoldable pub read_at : Address → State → Outcome (Cmd × Option Address)
  read_at addr buffers = do
    bin ← ok_or (get_elem? buffers addr) no_command
    cmd ← c.from_slice bin
    next ← expect (checked_add u64_mod addr 1)
    ok (cmd, elim (get_elem? buffers next) [ none ↦ none | some b ↦ some next ])

-- `create`.
abbrev pub create : {Cmd : Type 0} → Codec Cmd → LogFile Cmd
create c = record {
  State = State;
  is_empty = is_empty;
  append = append c;
  read_at = read_at c;
  sync = λ s. ok tt;
}
