-- ===== src/MemLogFile/Laws.antt =====
-- mem_log_file.rs: the log in memory is an append-only log, and a replay yields what was appended.
use block_rust.Base.{
  ℕ, ◌+◌, ◌≡◌, refl, ap, ◌∙◌, ◌⊎◌, inl, inr, true, Option, none, some, List, [], ◌∷◌, ◌++◌, arith,
  length, get_elem?, get_elem?-append_left, get_elem?-append_self, length-append, u64_mod, Outcome,
  ok, err, panic, Error, Option-cases, ltb, if◌then◌else◌, Bool-cases,
}
use block_rust.Types.{Address}
use block_rust.LogFile.{IsLog}
use block_rust.MemLogFile.{Codec, State, append, read_at, create, push_buffer, has_room}

module _ {Cmd : Type 0} (c : Codec Cmd) where
  decoded : Outcome Cmd → Option Cmd
  decoded (ok cmd) = some cmd
  decoded (err e) = none
  decoded panic = none

  -- The command at an address whose successor is an address too.
  unfoldable pub entry_at : State → Address → Option Cmd
  unfolding decoded
  entry_at buffers a =
      if ltb (a + 1) u64_mod
      then elim (get_elem? buffers a) [ none ↦ none | some bin ↦ decoded (c.from_slice bin) ]
      else none

  entry_at-append :
      (buffers : State) (bin : List ℕ) (cmd : Cmd) (a : Address)
      → entry_at buffers a ≡ some cmd
      → entry_at (buffers ++ bin ∷ []) a ≡ some cmd
  unfolding entry_at
  entry_at-append buffers bin cmd a h = elim (Option-cases (get_elem? buffers a)) [
    | inl e ↦ ground arith
    | inr (b, e) ↦ ground (arith, get_elem?-append_left a buffers (bin ∷ []) b e)
  ]

  append_keeps :
      (s : State) (cmd cmd' : Cmd) (a : Address)
      → entry_at s a ≡ some cmd'
      → entry_at (append c cmd s).1 a ≡ some cmd'
  unfolding append
  append_keeps s cmd cmd' a h = go (c.to_vec cmd)
    where
      go : (r : Outcome (List ℕ)) → entry_at (push_buffer r s).1 a ≡ some cmd'
      go (ok bin) = elim (Bool-cases (has_room s)) [
        | inl room ↦ ground (arith, entry_at-append s bin cmd' a h)
        | inr full ↦ ground arith
      ]
      go (err e) = h
      go panic = h

  entry_at-last :
      (s : State) (cmd : Cmd) (bin : List ℕ) (a : Address)
      → c.to_vec cmd ≡ ok bin
      → a ≡ length s
      → has_room s ≡ true
      → entry_at (s ++ bin ∷ []) a ≡ some cmd
  unfolding entry_at has_room
  entry_at-last s cmd bin a e h room =
      let small : ltb (a + 1) u64_mod ≡ true = ground arith in
      let here : get_elem? (s ++ bin ∷ []) a ≡ some bin =
        ap (get_elem? (s ++ bin ∷ [])) h ∙ get_elem?-append_self s bin in
      ground (arith, small, here, c.round_trip cmd bin e)

  append_entry :
      (s : State) (cmd : Cmd) (a : Address)
      → (append c cmd s).0 ≡ ok a
      → entry_at (append c cmd s).1 a ≡ some cmd
  unfolding append
  append_entry s cmd a h = go (c.to_vec cmd) refl h
    where
      go :
          (r : Outcome (List ℕ))
          → c.to_vec cmd ≡ r
          → (push_buffer r s).0 ≡ ok a
          → entry_at (push_buffer r s).1 a ≡ some cmd
      go (ok bin) e h = elim (Bool-cases (has_room s)) [
        | inr full ↦ ground arith
        | inl room ↦
            rw room (entry_at-last s cmd bin a e (ground (arith, length-append s (bin ∷ []))) room)
      ]
      go (err e') e h = ground arith
      go panic e h = ground arith

  read_entry :
      (s : State) (cmd : Cmd) (a : Address)
      → entry_at s a ≡ some cmd
      → ((next : Option Address) × (read_at c a s ≡ ok (cmd, next)))
        ⊎ ((e : Error) × (read_at c a s ≡ err e))
  unfolding entry_at read_at
  read_entry s cmd a h =
      inl (elim (get_elem? s (a + 1)) [ none ↦ none | some b ↦ some (a + 1) ], ground arith)

  -- The log in memory keeps each command at its address, and reads it back.
  pub create-IsLog : IsLog (create c)
  create-IsLog = record {
    entry = entry_at;
    append_keeps = append_keeps;
    append_entry = append_entry;
    read_entry = read_entry;
  }
