-- ===== src/Tree/Recovery/Stops.antt =====
-- batch_player.rs: a replay of a batch stops at its ready commit, so that later commands do not change it.
use block_rust.Base.{
  ℕ, ◌≡◌, refl, false, ◌==◌, List, [], ◌∷◌, ◌++◌, arith, Bool-cases, Option-cases, inl, inr, ok,
  length, take,
}
use block_rust.Base.Ord.{nat_ord}
use block_rust.OrdMap.{get, insert, remove, get-insert, get-remove}
use block_rust.Types.{Address, Batch, BatchCommit}
use block_rust.Command.{
  Command, open_batch, write, delete, delete_range, push_save_point, pop_save_point,
  rollback_save_point, ready_commit, abort_commit, close,
}
use block_rust.BatchPlayer.{
  BatchPlayer, SimpleCommand, IndexOp, record_command, push_command, replay, replay_commands,
}
use block_rust.Tree.Recovery.Pairs.{pair_of, pairs, has, has-append}
use block_rust.Tree.Recovery.Players.{push-get}

-- The player behind the commands, each of which is recorded without a panic.
abbrev pub after : BatchPlayer → List (Command × Address) → BatchPlayer
after p [] = p
after p ((cmd, a) ∷ log) = after (record_command cmd a p).1 log

abbrev pub Plays : BatchPlayer → List (Command × Address) → Type 0
Plays p [] = Unit
Plays p ((cmd, a) ∷ log) =
    ((record_command cmd a p).0 ≡ ok tt) × Plays (record_command cmd a p).1 log

pub after-append :
    (p : BatchPlayer) (log log' : List (Command × Address))
    → after p (log ++ log') ≡ after (after p log) log'
after-append p [] log' = refl
after-append p ((cmd, a) ∷ log) log' = after-append (record_command cmd a p).1 log log'

pub Plays-push :
    (p : BatchPlayer) (log : List (Command × Address)) (cmd : Command) (a : Address)
    → Plays p log
    → (record_command cmd a (after p log)).0 ≡ ok tt
    → Plays p (log ++ (cmd, a) ∷ [])
Plays-push p [] cmd a h e = (e, tt)
Plays-push p ((x, i) ∷ log) cmd a h e = (h.0, Plays-push (record_command x i p).1 log cmd a h.1 e)

-- The command does not end the replay of this commit.
abbrev GoesOn : BatchCommit → SimpleCommand → Type 0
GoesOn bc (SimpleCommand.ready_commit bc') = bc == bc' ≡ false
GoesOn bc (SimpleCommand.abort_commit bc') = bc == bc' ≡ false
GoesOn bc _ = Unit

alone :
    (bc : BatchCommit) (c : SimpleCommand) (ops out : List IndexOp) (ns : List ℕ)
    → GoesOn bc c
    → replay_commands bc ops ns (c ∷ []) ≡ ok out
    → ⊥
unfolding replay_commands
alone bc (SimpleCommand.write k a) ops out ns g e = cc
alone bc (SimpleCommand.delete k a) ops out ns g e = cc
alone bc (SimpleCommand.delete_range s t a) ops out ns g e = cc
alone bc SimpleCommand.push_save_point ops out ns g e = cc
alone bc SimpleCommand.pop_save_point ops out [] g e = cc
alone bc SimpleCommand.pop_save_point ops out (n ∷ ns) g e = cc
alone bc SimpleCommand.rollback_save_point ops out [] g e = cc
alone bc SimpleCommand.rollback_save_point ops out (n ∷ ns) g e = ground (arith, e)
alone bc (SimpleCommand.ready_commit bc') ops out ns g e = ground (arith, e, g)
alone bc (SimpleCommand.abort_commit bc') ops out ns g e = ground (arith, e, g)

replay_commands-front :
    (bc : BatchCommit) (c : SimpleCommand) (ops out : List IndexOp) (ns : List ℕ)
    (commands : List SimpleCommand)
    → GoesOn bc c
    → replay_commands bc ops ns (commands ++ c ∷ []) ≡ ok out
    → replay_commands bc ops ns commands ≡ ok out
unfolding replay_commands
replay_commands-front bc c ops out ns [] g e = absurd (alone bc c ops out ns g e)
replay_commands-front bc c ops out ns (SimpleCommand.write k a ∷ rest) g e =
    replay_commands-front bc c (ops ++ IndexOp.write k a ∷ []) out ns rest g e
replay_commands-front bc c ops out ns (SimpleCommand.delete k a ∷ rest) g e =
    replay_commands-front bc c (ops ++ IndexOp.delete k a ∷ []) out ns rest g e
replay_commands-front bc c ops out ns (SimpleCommand.delete_range s t a ∷ rest) g e =
    replay_commands-front bc c (ops ++ IndexOp.delete_range s t a ∷ []) out ns rest g e
replay_commands-front bc c ops out ns (SimpleCommand.push_save_point ∷ rest) g e =
    replay_commands-front bc c ops out (length ops ∷ ns) rest g e
replay_commands-front bc c ops out [] (SimpleCommand.pop_save_point ∷ rest) g e =
    replay_commands-front bc c ops out [] rest g e
replay_commands-front bc c ops out (n ∷ ns) (SimpleCommand.pop_save_point ∷ rest) g e =
    replay_commands-front bc c ops out ns rest g e
replay_commands-front bc c ops out [] (SimpleCommand.rollback_save_point ∷ rest) g e = absurd (cc)
replay_commands-front bc c ops out (n ∷ ns) (SimpleCommand.rollback_save_point ∷ rest) g e =
    ground (arith, e, replay_commands-front bc c (take n ops) out ns rest g)
replay_commands-front bc c ops out ns (SimpleCommand.ready_commit bc' ∷ rest) g e =
    ground (arith, e, replay_commands-front bc c ops out ns rest g)
replay_commands-front bc c ops out ns (SimpleCommand.abort_commit bc' ∷ rest) g e =
    ground (arith, e, replay_commands-front bc c ops out ns rest g)

module _ (b : Batch) (bc : BatchCommit) (out : List IndexOp) where
  push-front :
      (b' : Batch) (c : SimpleCommand) (p : BatchPlayer)
      → (b' ≡ b → GoesOn bc c)
      → replay b bc (push_command b' c p).1 ≡ ok out
      → replay b bc p ≡ ok out
  unfolding replay
  push-front b' c p g e = elim (Bool-cases (b' == b)) [
    | inr other ↦ ground (arith, push-get b' b c p, other, e)
    | inl hit ↦
        let same : b' ≡ b = ground (arith, hit) in
        elim (Option-cases (get b p)) [
          | inl missing ↦ absurd (ground (arith, push-get b' b c p, hit, missing, e))
          | inr (commands, found) ↦ ground (
            arith,
            push-get b' b c p,
            hit,
            found,
            e,
            replay_commands-front bc c [] out [] commands (g same),
          )
        ]
  ]

  open-front :
      (b' : Batch) (p : BatchPlayer)
      → replay b bc (insert b' [] p) ≡ ok out
      → replay b bc p ≡ ok out
  unfolding replay replay_commands
  open-front b' p e = ground (arith, get-insert b' b [] p, e)

  close-front :
      (b' : Batch) (p : BatchPlayer) → replay b bc (remove b' p) ≡ ok out → replay b bc p ≡ ok out
  unfolding replay
  close-front b' p e = ground (arith, get-remove b' b p, e)

  goes_on :
      (b' : Batch) (bc' : BatchCommit)
      → has b bc ((b', bc') ∷ []) ≡ false
      → b' ≡ b
      → bc == bc' ≡ false
  goes_on b' bc' h same = ground (arith, h, same)

  record-front :
      (cmd : Command) (a : Address) (p : BatchPlayer)
      → (record_command cmd a p).0 ≡ ok tt
      → has b bc (pair_of cmd) ≡ false
      → replay b bc (record_command cmd a p).1 ≡ ok out
      → replay b bc p ≡ ok out
  unfolding record_command
  record-front (open_batch b') a p l h e = open-front b' p (ground (arith, l, e))
  record-front (close b') a p l h e = close-front b' p (ground (arith, l, e))
  record-front (write b' k v) a p l h e = push-front b' (SimpleCommand.write k a) p (λ same. tt) e
  record-front (delete b' k) a p l h e = push-front b' (SimpleCommand.delete k a) p (λ same. tt) e
  record-front (delete_range b' s t) a p l h e =
      push-front b' (SimpleCommand.delete_range s t a) p (λ same. tt) e
  record-front (push_save_point b') a p l h e =
      push-front b' SimpleCommand.push_save_point p (λ same. tt) e
  record-front (pop_save_point b') a p l h e =
      push-front b' SimpleCommand.pop_save_point p (λ same. tt) e
  record-front (rollback_save_point b') a p l h e =
      push-front b' SimpleCommand.rollback_save_point p (λ same. tt) e
  record-front (ready_commit b' bc') a p l h e =
      push-front b' (SimpleCommand.ready_commit bc') p (goes_on b' bc' h) e
  record-front (abort_commit b' bc') a p l h e =
      push-front b' (SimpleCommand.abort_commit bc') p (goes_on b' bc' h) e

  -- A replay of the batch by the player behind commands that are not about this commit is the replay by
  -- the player in front of them.
  pub after-front :
      (log : List (Command × Address)) (p : BatchPlayer)
      → Plays p log
      → has b bc (pairs log) ≡ false
      → replay b bc (after p log) ≡ ok out
      → replay b bc p ≡ ok out
  after-front [] p l h e = e
  after-front ((cmd, a) ∷ log) p l h e =
      let parts = has-append b bc (pair_of cmd) (pairs log) in
      record-front cmd a p l.0 (ground (arith, parts, h))
        (after-front log (record_command cmd a p).1 l.1 (ground (arith, parts, h)) e)
