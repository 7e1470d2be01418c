-- ===== src/Tree/Addresses.antt =====
-- tree.rs: the index of a tree points to write commands of its log, for the keys that it indexes.
use block_rust.Base.{
  ◌+◌, ◌<◌, ◌≡◌, refl, inl, inr, Option, some, List, [], ◌∷◌, arith, ltb, u64_mod, Outcome, ok, err,
  panic, Bool-cases,
}
use block_rust.Base.Exec.{continue}
use block_rust.Base.Ord.{bytes_ord}
use block_rust.Types.{Key, Value, Batch, BatchCommit, Commit, Address}
use block_rust.Command.{Command}
use block_rust.LogFile.{LogFile, IsLog}
use block_rust.BatchPlayer.{BatchPlayer, IndexOp, record_command, replay}
use block_rust.BatchPlayer.Ops.{
  OfOp, OfPlayer, OfLogged, replay-OfOp, record_command-OfPlayer, OfPlayer-mono,
}
use block_rust.Index.Defs.{Index, key_true_value}
use block_rust.Index.Events.{Event, effect, view}
use block_rust.Index.History.{key_true_value-view}
use block_rust.Tree.CommitToIndex
use block_rust.Tree.CommitToIndex.{commit_ops}
use block_rust.Tree.Commits.{AllOps}
use block_rust.Tree.CommitOps.{IsIndex, new-IsIndex, commit_ops-IsIndex}
use block_rust.Tree.Ops
use block_rust.Tree.Ops.{Tree}

module _ (f : LogFile Command) (l : IsLog f) where
  open l use {entry}

  -- The log holds a write of `key` at the address.
  abbrev pub Written : LogFile.State f → Key → Address → Type 0
  Written log key addr = (b : Batch) × (v : Value) × (entry log addr ≡ some (Command.write b key v))

  -- The index stands for a history of writes whose addresses are those of their commands; so do the
  -- commands that the open batches have recorded.
  pub record IsTree (t : Tree f) : Type 0 where
    pub events : List Event
    pub is_index : IsIndex t.index events
    pub in_log : AllOps (OfOp (Written t.log)) events
    pub batches : OfPlayer (Written t.log) t.batch_player

  AllOps-mono :
      (P Q : Key → Address → Type 0) (es : List Event)
      → ((k : Key) (a : Address) → P k a → Q k a)
      → AllOps (OfOp P) es
      → AllOps (OfOp Q) es
  AllOps-mono P Q [] g h = tt
  AllOps-mono P Q (e ∷ es) g h = (OfOp-mono e.op h.0, AllOps-mono P Q es g h.1)
    where
      OfOp-mono : (op : IndexOp) → OfOp P op → OfOp Q op
      OfOp-mono (IndexOp.write k a) h = g k a h
      OfOp-mono (IndexOp.delete k a) h = h
      OfOp-mono (IndexOp.delete_range s e a) h = h

  pub new-IsTree : (log : LogFile.State f) → IsTree (Ops.new f log)
  new-IsTree log = record { events = []; is_index = new-IsIndex; in_log = tt; batches = tt }

  Written-append :
      (log : LogFile.State f) (cmd : Command) (k : Key) (a : Address)
      → Written log k a
      → Written (LogFile.append f cmd log).1 k a
  Written-append log cmd k a (b, v, h) = (b, v, l.append_keeps log cmd (Command.write b k v) a h)

  OfLogged-append :
      (log : LogFile.State f) (cmd : Command) (a : Address)
      → (LogFile.append f cmd log).0 ≡ ok a
      → OfLogged (Written (LogFile.append f cmd log).1) cmd a
  OfLogged-append log (Command.write b k v) a h =
      (b, v, l.append_entry log (Command.write b k v) a h)
  OfLogged-append log (Command.delete b k) a h = tt
  OfLogged-append log _ a h = tt

  -- The tree after an append to its log, and whatever that returned.
  appended-IsTree :
      (t : Tree f) (cmd : Command)
      → IsTree t
      → IsTree (record t { log = (LogFile.append f cmd t.log).1 })
  appended-IsTree t cmd h = record {
    events = h.events;
    is_index = h.is_index;
    in_log = AllOps-mono _ _ h.events (Written-append t.log cmd) h.in_log;
    batches = OfPlayer-mono _ _ t.batch_player (Written-append t.log cmd) h.batches;
  }

  player-IsTree :
      (t : Tree f) (player : BatchPlayer)
      → IsTree t
      → OfPlayer (Written t.log) player
      → IsTree (record t { batch_player = player })
  player-IsTree t player h k = record {
    events = h.events;
    is_index = h.is_index;
    in_log = h.in_log;
    batches = k;
  }

  -- Over an append-only log: if all addresses in the history of the index and in the open batches are
  -- those of logged writes of their keys, then they still are after `append_record`, whatever the log
  -- and the batch player return.
  pub append_record-IsTree :
      (t : Tree f) (cmd : Command) → IsTree t → IsTree (Ops.append_record f cmd t).1
  unfolding Ops.append_record
  append_record-IsTree t cmd h = go (LogFile.append f cmd t.log).0 refl
    where
      t' : Tree f
      t' = record t { log = (LogFile.append f cmd t.log).1 }

      go :
          (r : Outcome Address)
          → (LogFile.append f cmd t.log).0 ≡ r
          → IsTree (continue r (λ a. Ops.on_player f (record_command cmd a)) t').1
      go (ok a) e =
          player-IsTree t' (record_command cmd a t.batch_player).1 (appended-IsTree t cmd h) (
            record_command-OfPlayer (Written t'.log) cmd a t.batch_player
              (OfLogged-append t.log cmd a e) (appended-IsTree t cmd h).batches)
      go (err e') e = appended-IsTree t cmd h
      go panic e = appended-IsTree t cmd h

  -- Over an append-only log: if all addresses in the history of the index and in the open batches are
  -- those of logged writes of their keys, then they still are after `commit_to_index` with a number
  -- that a `u64` can follow, whatever it returns.
  pub commit_to_index-IsTree :
      (t : Tree f) (b : Batch) (bc : BatchCommit) (c : Commit)
      → c + 1 < u64_mod
      → IsTree t
      → IsTree (Ops.commit_to_index f b bc c t).1
  unfolding Ops.commit_to_index CommitToIndex.commit_to_index
  commit_to_index-IsTree t b bc c room h = go (replay b bc t.batch_player) refl
    where
      finish : Outcome (List IndexOp) → Outcome (Unit {0}) × Index
      finish r = elim r [
        | ok ops ↦ commit_ops c ops t.index
        | err e ↦ (err e, t.index)
        | panic ↦ (panic, t.index)
      ]

      go :
          (r : Outcome (List IndexOp))
          → replay b bc t.batch_player ≡ r
          → IsTree (record t { index = (finish r).1 })
      go (ok ops) e =
          let (es', h', k') =
            commit_ops-IsIndex (OfOp (Written t.log)) c ops t.index h.events room h.is_index
              (replay-OfOp (Written t.log) b bc t.batch_player ops h.batches e) h.in_log in
          record { events = es'; is_index = h'; in_log = k'; batches = h.batches }
      go (err e') e = h
      go panic e = h

  -- An address that the index returns is one at which the log holds a write of the key.
  effect-Written :
      (P : Key → Address → Type 0) (op : IndexOp) (key : Key) (old : Option Address) (a : Address)
      → OfOp P op
      → (old ≡ some a → P key a)
      → effect op key old ≡ some a
      → P key a
  unfolding effect
  effect-Written P (IndexOp.write k b) key old a h g e = elim (Bool-cases (bytes_ord.eq k key)) [
    | inl hit ↦
        let same : k ≡ key = (bytes_ord.eq_iff k key).0 hit in
        let at : b ≡ a = ground arith in rw (← same, ← at) h
    | inr miss ↦ g (ground arith)
  ]
  effect-Written P (IndexOp.delete k b) key old a h g e = g (ground arith)
  effect-Written P (IndexOp.delete_range s t b) key old a h g e = g (ground arith)

  view-Written :
      (P : Key → Address → Type 0) (limit : Commit) (es : List Event) (key : Key) (a : Address)
      → AllOps (OfOp P) es
      → view limit es key ≡ some a
      → P key a
  unfolding view
  view-Written P limit [] key a h e = cc
  view-Written P limit (x ∷ es) key a h e = elim (Bool-cases (ltb x.commit limit)) [
    | inl seen ↦
        effect-Written P x.op key (view limit es key) a h.0 (view-Written P limit es key a h.1)
          (ground arith)
    | inr hidden ↦ view-Written P limit es key a h.1 (ground arith)
  ]

  pub key_true_value-Written :
      (t : Tree f) (limit : Commit) (key : Key) (a : Address)
      → IsTree t
      → key_true_value t.index.state limit key ≡ some a
      → Written t.log key a
  key_true_value-Written t limit key a h e =
      view-Written (Written t.log) limit h.events key a h.in_log
        (ground (arith, key_true_value-view t.index.state h.events limit key h.is_index.represents))
