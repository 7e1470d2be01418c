-- ===== src/Tree/Recovery/Players.antt =====
-- batch_player.rs, tree.rs: the player of a tree and the players of a replayer, over the same commands.
use mathlib.Core.Path.{subst}
use block_rust.Base.{
  ◌≡◌, refl, sym, ap, ◌∙◌, ◌==◌, Option, none, some, List, [], ◌∷◌, ◌++◌, arith, Bool-cases,
  Option-cases, inl, inr, ok, if◌then◌else◌,
}
use block_rust.Base.Ord.{nat_ord}
use block_rust.OrdMap.{OrdMap, get, insert, get-insert, get-modify, contains_key-get}
use block_rust.Types.{Address, Batch}
use block_rust.Command.{
  Command, open_batch, write, delete, delete_range, push_save_point, pop_save_point,
  rollback_save_point, ready_commit, abort_commit, close, batch,
}
use block_rust.BatchPlayer.{BatchPlayer, SimpleCommand, record_command, push_command}
use block_rust.Tree.Replay.{InitReplayer, recorded, record_cmd}

-- What a command adds to the commands of its batch; `none` for the two that open and close it.
abbrev pub simple : Command → Address → Option SimpleCommand
simple (open_batch b) a = none
simple (write b k v) a = some (SimpleCommand.write k a)
simple (delete b k) a = some (SimpleCommand.delete k a)
simple (delete_range b s e) a = some (SimpleCommand.delete_range s e a)
simple (push_save_point b) a = some SimpleCommand.push_save_point
simple (pop_save_point b) a = some SimpleCommand.pop_save_point
simple (rollback_save_point b) a = some SimpleCommand.rollback_save_point
simple (ready_commit b bc) a = some (SimpleCommand.ready_commit bc)
simple (abort_commit b bc) a = some (SimpleCommand.abort_commit bc)
simple (close b) a = none

pub record-simple :
    (cmd : Command) (a : Address) (c : SimpleCommand)
    → simple cmd a ≡ some c
    → record_command cmd a ≡ push_command (batch cmd) c
unfolding record_command batch
record-simple (open_batch b) a c h = absurd (cc)
record-simple (close b) a c h = absurd (cc)
record-simple (write b k v) a c h = ground (arith, h)
record-simple (delete b k) a c h = ground (arith, h)
record-simple (delete_range b s e) a c h = ground (arith, h)
record-simple (push_save_point b) a c h = ground (arith, h)
record-simple (pop_save_point b) a c h = ground (arith, h)
record-simple (rollback_save_point b) a c h = ground (arith, h)
record-simple (ready_commit b bc) a c h = ground (arith, h)
record-simple (abort_commit b bc) a c h = ground (arith, h)

-- One more command of a batch that is open.
pub push-get :
    (b j : Batch) (c : SimpleCommand) (p : BatchPlayer)
    → get j (push_command b c p).1 ≡ (
        if b == j
        then elim (get j p) [ none ↦ none | some commands ↦ some (commands ++ c ∷ []) ]
        else get j p)
unfolding push_command
push-get b j c p = ground (
  arith,
  contains_key-get b p,
  nat_ord.eq_iff b j,
  get-modify b j (λ (commands : List SimpleCommand). commands ++ c ∷ []) p,
)

-- Where the push returns, the batch is open.
pub push-open :
    (b : Batch) (c : SimpleCommand) (p : BatchPlayer)
    → (push_command b c p).0 ≡ ok tt
    → (commands : List SimpleCommand) × (get b p ≡ some commands)
unfolding push_command
push-open b c p h = elim (Option-cases (get b p)) [
  | inl missing ↦ absurd (ground (arith, contains_key-get b p, missing, h))
  | inr found ↦ found
]

-- For each batch: it is open in the player where the replayer has a player for it, with its commands.
abbrev pub Same : Batch → Option (List SimpleCommand) → Option BatchPlayer → Type 0
Same b none entry = entry ≡ none
Same b (some commands) entry =
    (player : BatchPlayer) × (entry ≡ some player) × (get b player ≡ some commands)

abbrev pub SameAll : BatchPlayer → OrdMap Batch BatchPlayer → Type 0
SameAll p players = (b : Batch) → Same b (get b p) (get b players)

push-ok :
    (b : Batch) (c : SimpleCommand) (p : BatchPlayer) (commands : List SimpleCommand)
    → get b p ≡ some commands
    → push_command b c p ≡ (ok tt, (push_command b c p).1)
unfolding push_command
push-ok b c p commands h = ground (arith, contains_key-get b p, h)

-- Both players take one more command of the batch.
Same-push :
    (b j : Batch) (c : SimpleCommand) (p player : BatchPlayer) (players : OrdMap Batch BatchPlayer)
    (commands : List SimpleCommand)
    → get b p ≡ some commands
    → get b player ≡ some commands
    → Same j (get j p) (get j players)
    → Same j (get j (push_command b c p).1) (get j (insert b (push_command b c player).1 players))
Same-push b j c p player players commands g inner h = elim (Bool-cases (b == j)) [
  | inr other ↦ rw (push-get b j c p, get-insert b j (push_command b c player).1 players, other) h
  | inl same ↦
      let e : b ≡ j = ground (arith, same) in
      let g' : get j p ≡ some commands = rw (← e) g in
      rw (push-get b j c p, get-insert b j (push_command b c player).1 players, same, g')
        (
          (push_command b c player).1,
          refl,
          push-get b j c player ∙ rw (same, ap (λ i. get i player) (sym e) ∙ inner) refl,
        )
]

recorded-push :
    (cmd : Command) (a : Address) (c : SimpleCommand) (player : BatchPlayer) (r : InitReplayer)
    (commands : List SimpleCommand)
    → simple cmd a ≡ some c
    → get (batch cmd) player ≡ some commands
    → recorded cmd a (some player) r ≡ (
      ok tt,
      record r {
        batch_players = insert (batch cmd) (push_command (batch cmd) c player).1 r.batch_players;
      },
    )
unfolding recorded
recorded-push cmd a c player r commands h g =
    rw (ap (λ m. m player) (record-simple cmd a c h), push-ok (batch cmd) c player commands g) refl

-- A command within a batch is recorded by both, or by none.
pub record-SameAll :
    (cmd : Command) (a : Address) (c : SimpleCommand) (p : BatchPlayer) (r : InitReplayer)
    → simple cmd a ≡ some c
    → (record_command cmd a p).0 ≡ ok tt
    → SameAll p r.batch_players
    → (players : OrdMap Batch BatchPlayer) × (record_cmd cmd a r
        ≡ (ok tt, record r { batch_players = players }))
      × SameAll (record_command cmd a p).1 players
unfolding record_cmd
record-SameAll cmd a c p r h e same =
    let whole = ap (λ m. m p) (record-simple cmd a c h) in
    let (commands, g) = push-open (batch cmd) c p (ap (λ x. x.0) (sym whole) ∙ e) in
    let (player, entry, inner) =
      subst (λ o. Same (batch cmd) o (get (batch cmd) r.batch_players)) g (same (batch cmd)) in
    (
      insert (batch cmd) (push_command (batch cmd) c player).1 r.batch_players,
      ap (λ x. recorded cmd a x r) entry ∙ recorded-push cmd a c player r commands h inner,
      λ j.
          subst
            (λ x.
              Same j (get j x.1)
                (get j (insert (batch cmd) (push_command (batch cmd) c player).1 r.batch_players)))
            (sym whole)
            (Same-push (batch cmd) j c p player r.batch_players commands g inner (same j)),
    )
