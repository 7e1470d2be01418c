-- ===== src/BatchPlayer/Ops.antt =====
-- batch_player.rs: a property of all recorded commands is one of all replayed writes.
use block_rust.Base.{
  ℕ, ◌≡◌, refl, ◌++◌, Option, none, some, List, [], ◌∷◌, arith, length, take, All, All-push,
  All-take, Bool-cases, inl, inr, ok, panic, ◌==◌,
}
use block_rust.Base.Ord.{nat_ord}
use block_rust.OrdMap.{get, insert, remove, modify, contains_key}
use block_rust.Types.{Key, Address, Batch, BatchCommit}
use block_rust.Command.{Command}
use block_rust.BatchPlayer.{
  BatchPlayer, SimpleCommand, IndexOp, push_save_point, pop_save_point, rollback_save_point,
  ready_commit, abort_commit, replay_commands, replay, record_command, push_command,
  emergency_close,
}

-- What a property of keys and addresses says of a command and of a write.
module _ (P : Key → Address → Type 0) where
  abbrev pub OfCommand : SimpleCommand → Type 0
  OfCommand (SimpleCommand.write k a) = P k a
  OfCommand _ = Unit

  abbrev pub OfOp : IndexOp → Type 0
  OfOp (IndexOp.write k a) = P k a
  OfOp _ = Unit

  abbrev pub OfPlayer : BatchPlayer → Type 0
  OfPlayer [] = Unit
  OfPlayer ((b, commands) ∷ m) = All OfCommand commands × OfPlayer m

  replay_commands-OfOp :
      (bc : BatchCommit) (ops : List IndexOp) (ns : List ℕ) (commands : List SimpleCommand)
      (out : List IndexOp)
      → All OfOp ops
      → All OfCommand commands
      → replay_commands bc ops ns commands ≡ ok out
      → All OfOp out
  unfolding replay_commands
  replay_commands-OfOp bc ops ns [] out h k e = cc
  replay_commands-OfOp bc ops ns (SimpleCommand.write x a ∷ rest) out h k e =
      replay_commands-OfOp bc (ops ++ IndexOp.write x a ∷ []) ns rest out (All-push OfOp ops k.0 h)
        k.1 e
  replay_commands-OfOp bc ops ns (SimpleCommand.delete x a ∷ rest) out h k e =
      replay_commands-OfOp bc (ops ++ IndexOp.delete x a ∷ []) ns rest out (All-push OfOp ops tt h)
        k.1 e
  replay_commands-OfOp bc ops ns (SimpleCommand.delete_range s t a ∷ rest) out h k e =
      replay_commands-OfOp bc (ops ++ IndexOp.delete_range s t a ∷ []) ns rest out
        (All-push OfOp ops tt h) k.1 e
  replay_commands-OfOp bc ops ns (push_save_point ∷ rest) out h k e =
      replay_commands-OfOp bc ops (length ops ∷ ns) rest out h k.1 e
  replay_commands-OfOp bc ops [] (pop_save_point ∷ rest) out h k e =
      replay_commands-OfOp bc ops [] rest out h k.1 e
  replay_commands-OfOp bc ops (n ∷ ns) (pop_save_point ∷ rest) out h k e =
      replay_commands-OfOp bc ops ns rest out h k.1 e
  replay_commands-OfOp bc ops [] (rollback_save_point ∷ rest) out h k e = cc
  replay_commands-OfOp bc ops (n ∷ ns) (rollback_save_point ∷ rest) out h k e =
      replay_commands-OfOp bc (take n ops) ns rest out (All-take OfOp n ops h) k.1 (ground arith)
  replay_commands-OfOp bc ops ns (ready_commit c ∷ rest) out h k e = elim (Bool-cases (bc == c)) [
    | inl hit ↦ let same : ops ≡ out = ground arith in rw (← same) h
    | inr miss ↦ replay_commands-OfOp bc ops ns rest out h k.1 (ground arith)
  ]
  replay_commands-OfOp bc ops ns (abort_commit c ∷ rest) out h k e = elim (Bool-cases (bc == c)) [
    | inl hit ↦ let same : ◌≡◌ {A = List IndexOp} [] out = ground arith in rw (← same) tt
    | inr miss ↦ replay_commands-OfOp bc ops ns rest out h k.1 (ground arith)
  ]

  get-OfPlayer :
      (b : Batch) (player : BatchPlayer) (commands : List SimpleCommand)
      → OfPlayer player
      → get b player ≡ some commands
      → All OfCommand commands
  unfolding get
  get-OfPlayer b [] commands h e = cc
  get-OfPlayer b ((j, cs) ∷ m) commands h e = elim (Bool-cases (j == b)) [
    | inl hit ↦ let same : cs ≡ commands = ground arith in rw (← same) h.0
    | inr miss ↦ get-OfPlayer b m commands h.1 (ground arith)
  ]

  -- The writes that a batch replays have the property of its recorded commands.
  pub replay-OfOp :
      (b : Batch) (bc : BatchCommit) (player : BatchPlayer) (out : List IndexOp)
      → OfPlayer player
      → replay b bc player ≡ ok out
      → All OfOp out
  unfolding replay
  replay-OfOp b bc player out h e = go (get b player) refl e
    where
      go :
          (o : Option (List SimpleCommand))
          → get b player ≡ o
          → elim o [ none ↦ panic | some commands ↦ replay_commands bc [] [] commands ] ≡ ok out
          → All OfOp out
      go none p q = cc
      go (some commands) p q =
          replay_commands-OfOp bc [] [] commands out tt (get-OfPlayer b player commands h p) q

  insert-OfPlayer :
      (b : Batch) (player : BatchPlayer) → OfPlayer player → OfPlayer (insert b [] player)
  unfolding insert
  insert-OfPlayer b [] h = (tt, tt)
  insert-OfPlayer b ((j, cs) ∷ m) h = elim (Bool-cases (j == b)) [
    | inl hit ↦ rw hit (tt, h.1)
    | inr miss ↦ elim (Bool-cases (nat_ord.lt b j)) [
      | inl lt ↦ rw (miss, lt) (tt, h)
      | inr ge ↦ rw (miss, ge) (h.0, insert-OfPlayer b m h.1)
    ]
  ]

  remove-OfPlayer :
      (b : Batch) (player : BatchPlayer) → OfPlayer player → OfPlayer (remove b player)
  unfolding remove
  remove-OfPlayer b [] h = tt
  remove-OfPlayer b ((j, cs) ∷ m) h = elim (Bool-cases (j == b)) [
    | inl hit ↦ rw hit (remove-OfPlayer b m h.1)
    | inr miss ↦ rw miss (h.0, remove-OfPlayer b m h.1)
  ]

  modify-OfPlayer :
      (b : Batch) (c : SimpleCommand) (player : BatchPlayer)
      → OfCommand c
      → OfPlayer player
      → OfPlayer (modify b (λ commands. commands ++ c ∷ []) player)
  unfolding modify
  modify-OfPlayer b c [] k h = tt
  modify-OfPlayer b c ((j, cs) ∷ m) k h = elim (Bool-cases (j == b)) [
    | inl hit ↦ rw hit (All-push OfCommand cs k h.0, modify-OfPlayer b c m k h.1)
    | inr miss ↦ rw miss (h.0, modify-OfPlayer b c m k h.1)
  ]

  push_command-OfPlayer :
      (b : Batch) (c : SimpleCommand) (player : BatchPlayer)
      → OfCommand c
      → OfPlayer player
      → OfPlayer (push_command b c player).1
  unfolding push_command
  push_command-OfPlayer b c player k h = elim (Bool-cases (contains_key b player)) [
    | inl known ↦ rw known (modify-OfPlayer b c player k h)
    | inr unknown ↦ rw unknown h
  ]

  emergency_close-OfPlayer :
      (b : Batch) (player : BatchPlayer) → OfPlayer player → OfPlayer (emergency_close b player).1
  unfolding emergency_close
  emergency_close-OfPlayer b player h = elim (Bool-cases (contains_key b player)) [
    | inl known ↦ rw known (remove-OfPlayer b player h)
    | inr unknown ↦ rw unknown h
  ]

  -- The property at a command's own key and address.
  abbrev pub OfLogged : Command → Address → Type 0
  OfLogged (Command.write b k v) a = P k a
  OfLogged _ a = Unit

  pub record_command-OfPlayer :
      (cmd : Command) (a : Address) (player : BatchPlayer)
      → OfLogged cmd a
      → OfPlayer player
      → OfPlayer (record_command cmd a player).1
  unfolding record_command contains_key emergency_close
  record_command-OfPlayer (Command.open_batch b) a player k h =
      elim (Bool-cases (contains_key b player)) [
        | inl known ↦ rw known h
        | inr unknown ↦ rw unknown (insert-OfPlayer b player h)
      ]
  record_command-OfPlayer (Command.write b x v) a player k h =
      push_command-OfPlayer b (SimpleCommand.write x a) player k h
  record_command-OfPlayer (Command.delete b x) a player k h =
      push_command-OfPlayer b (SimpleCommand.delete x a) player tt h
  record_command-OfPlayer (Command.delete_range b s e) a player k h =
      push_command-OfPlayer b (SimpleCommand.delete_range s e a) player tt h
  record_command-OfPlayer (Command.push_save_point b) a player k h =
      push_command-OfPlayer b push_save_point player tt h
  record_command-OfPlayer (Command.pop_save_point b) a player k h =
      push_command-OfPlayer b pop_save_point player tt h
  record_command-OfPlayer (Command.rollback_save_point b) a player k h =
      push_command-OfPlayer b rollback_save_point player tt h
  record_command-OfPlayer (Command.ready_commit b c) a player k h =
      push_command-OfPlayer b (ready_commit c) player tt h
  record_command-OfPlayer (Command.abort_commit b c) a player k h =
      push_command-OfPlayer b (abort_commit c) player tt h
  record_command-OfPlayer (Command.close b) a player k h = emergency_close-OfPlayer b player h

-- The property may be weakened.
pub OfPlayer-mono :
    (P Q : Key → Address → Type 0) (player : BatchPlayer)
    → ((k : Key) (a : Address) → P k a → Q k a)
    → OfPlayer P player
    → OfPlayer Q player
OfPlayer-mono P Q [] f h = tt
OfPlayer-mono P Q ((b, commands) ∷ m) f h =
    (OfCommands-mono commands h.0, OfPlayer-mono P Q m f h.1)
  where
    OfCommands-mono : (cs : List SimpleCommand) → All (OfCommand P) cs → All (OfCommand Q) cs
    OfCommands-mono [] h = tt
    OfCommands-mono (SimpleCommand.write k a ∷ cs) h = (f k a h.0, OfCommands-mono cs h.1)
    OfCommands-mono (c ∷ cs) h = (h.0, OfCommands-mono cs h.1)
