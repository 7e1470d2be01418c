-- ===== src/Tree/Replay/Plain.antt =====
-- tree.rs: the replay of the writes and save points of an open batch.
use block_rust.Base.{
  ℕ, ◌≡◌, ◌∙◌, ap, true, Option, some, List, [], ◌∷◌, ◌++◌, arith, ==_refl, Outcome, ok,
}
use block_rust.Base.Ord.{nat_ord}
use block_rust.OrdMap.{get, contains_key, insert, modify, get-insert, get-modify, contains_key-get}
use block_rust.Types.{Batch, Address}
use block_rust.Command.{
  Command, open_batch, write, delete, delete_range, push_save_point, pop_save_point,
  rollback_save_point, ready_commit, abort_commit, close, batch,
}
use block_rust.BatchPlayer.{BatchPlayer, SimpleCommand, record_command, push_command}
use block_rust.Index.Defs.{Index}
use block_rust.Tree.Replay.{InitReplayer, recorded, record_cmd, update_max}

-- A write or a save point of the batch `b`.
abbrev pub IsPlain : Batch → Command → Type 0
IsPlain b (write b' k v) = b' ≡ b
IsPlain b (delete b' k) = b' ≡ b
IsPlain b (delete_range b' s e) = b' ≡ b
IsPlain b (push_save_point b') = b' ≡ b
IsPlain b (pop_save_point b') = b' ≡ b
IsPlain b (rollback_save_point b') = b' ≡ b
IsPlain b _ = ⊥

-- Items of the stream that were read without an error.
abbrev pub items : List (Command × Address) → List (Outcome (Command × Address))
items [] = []
items ((cmd, a) ∷ log) = ok (cmd, a) ∷ items log

abbrev pub ArePlain : Batch → List (Command × Address) → Type 0
ArePlain b [] = Unit
ArePlain b ((cmd, a) ∷ log) = IsPlain b cmd × ArePlain b log

-- The batch is open in the replayer, which has committed nothing and keeps nothing for later.
pub record HasOpen (b : Batch) (index : Index) (r : InitReplayer) : Type 0 where
  pub player : BatchPlayer
  pub found : get b r.batch_players ≡ some player
  pub known : contains_key b player ≡ true
  pub same : r.index ≡ index
  pub nothing_waits : r.waiting_to_commit ≡ []

contains_key-insert :
    (b : Batch) (cs : List SimpleCommand) (player : BatchPlayer)
    → contains_key b (insert b cs player) ≡ true
contains_key-insert b cs player =
    ground (arith, contains_key-get b (insert b cs player), get-insert b b cs player, ==_refl b)

push_command-known :
    (b : Batch) (c : SimpleCommand) (player : BatchPlayer)
    → contains_key b player ≡ true
    → (player' : BatchPlayer) × (push_command b c player ≡ (ok tt, player'))
      × (contains_key b player' ≡ true)
unfolding push_command
push_command-known b c player h = (
  modify b (λ commands. commands ++ c ∷ []) player,
  ground (arith, h),
  ground (
    arith,
    h,
    contains_key-get b player,
    contains_key-get b (modify b (λ (commands : List SimpleCommand). commands ++ c ∷ []) player),
    get-modify b b (λ (commands : List SimpleCommand). commands ++ c ∷ []) player,
    ==_refl b,
  ),
)

-- A command of the batch whose recording succeeds.
recorded-HasOpen :
    (b : Batch) (index : Index) (cmd : Command) (a : Address) (r : InitReplayer)
    (player' : BatchPlayer) (h : HasOpen b index r)
    → batch cmd ≡ b
    → record_command cmd a h.player ≡ (ok tt, player')
    → contains_key b player' ≡ true
    → (r' : InitReplayer) × (record_cmd cmd a r ≡ (ok tt, r')) × HasOpen b index r'
unfolding record_cmd
recorded-HasOpen b index cmd a r player' h e rec known = (
  record r { batch_players = insert (batch cmd) player' r.batch_players },
  ap (λ k. recorded cmd a (get k r.batch_players) r) e ∙ ground (arith, h.found, rec),
  record {
    player = player';
    found = ground (arith, get-insert (batch cmd) b player' r.batch_players, e, ==_refl b);
    known = known;
    same = h.same;
    nothing_waits = h.nothing_waits;
  },
)

pub update_max-HasOpen :
    (b : Batch) (index : Index) (x y : Option ℕ) (r : InitReplayer)
    → HasOpen b index r
    → HasOpen b index (update_max x y r)
unfolding update_max
update_max-HasOpen b index x y r h = record {
  player = h.player;
  found = h.found;
  known = h.known;
  same = h.same;
  nothing_waits = h.nothing_waits;
}

pub stream-HasOpen :
    (b : Batch) (index : Index) (stream : List (Outcome (Command × Address))) (r : InitReplayer)
    → HasOpen b index r
    → HasOpen b index (record r { cmd_stream = stream })
stream-HasOpen b index stream r h = record {
  player = h.player;
  found = h.found;
  known = h.known;
  same = h.same;
  nothing_waits = h.nothing_waits;
}

-- A command that the player pushes for the batch.
pub pushed-HasOpen :
    (b : Batch) (index : Index) (cmd : Command) (simple : SimpleCommand) (a : Address)
    (r : InitReplayer) (h : HasOpen b index r)
    → batch cmd ≡ b
    → record_command cmd a h.player ≡ push_command b simple h.player
    → (r' : InitReplayer) × (record_cmd cmd a r ≡ (ok tt, r')) × HasOpen b index r'
pushed-HasOpen b index cmd simple a r h e rec =
    let (player', e', known) = push_command-known b simple h.player h.known in
    recorded-HasOpen b index cmd a r player' h e (rec ∙ e') known

pub recorded_plain :
    (b : Batch) (index : Index) (cmd : Command) (a : Address) (r : InitReplayer)
    → IsPlain b cmd
    → HasOpen b index r
    → (r' : InitReplayer) × (record_cmd cmd a r ≡ (ok tt, r')) × HasOpen b index r'
unfolding record_command batch
recorded_plain b index (open_batch b') a r p h = absurd p
recorded_plain b index (ready_commit b' c) a r p h = absurd p
recorded_plain b index (abort_commit b' c) a r p h = absurd p
recorded_plain b index (close b') a r p h = absurd p
recorded_plain b index (write b' k v) a r p h =
    pushed-HasOpen b index (write b' k v) (SimpleCommand.write k a) a r h p (rw p)
recorded_plain b index (delete b' k) a r p h =
    pushed-HasOpen b index (delete b' k) (SimpleCommand.delete k a) a r h p (rw p)
recorded_plain b index (delete_range b' s e) a r p h =
    pushed-HasOpen b index (delete_range b' s e) (SimpleCommand.delete_range s e a) a r h p (rw p)
recorded_plain b index (push_save_point b') a r p h =
    pushed-HasOpen b index (push_save_point b') SimpleCommand.push_save_point a r h p (rw p)
recorded_plain b index (pop_save_point b') a r p h =
    pushed-HasOpen b index (pop_save_point b') SimpleCommand.pop_save_point a r h p (rw p)
recorded_plain b index (rollback_save_point b') a r p h =
    pushed-HasOpen b index (rollback_save_point b') SimpleCommand.rollback_save_point a r h p (rw p)
