-- ===== src/Tree/ReadBack.antt =====
-- tree.rs: what a batch has written to a tree is read back behind its commit.
use mathlib.Core.Path.{subst}
use block_rust.Base.{
  ◌+◌, ◌<◌, ◌≤◌, ◌≡◌, refl, sym, ap, ◌∙◌, ◌⊎◌, inl, inr, true, some, List, [], ◌∷◌, ◌++◌, arith,
  ==_refl, u64_mod, Outcome, ok, err, panic, Error, Outcome-cases, Bool-cases,
}
use block_rust.Base.Exec.{Exec, continue, ◌>>◌}
use block_rust.Base.Ord.{nat_ord, bytes_ord}
use block_rust.OrdMap.{get, contains_key, get-insert, get-modify}
use block_rust.Types.{Key, Value, Address, Batch, BatchCommit, Commit}
use block_rust.Command.{Command}
use block_rust.LogFile.{LogFile, IsLog}
use block_rust.BatchPlayer.{
  BatchPlayer, SimpleCommand, IndexOp, record_command, push_command, replay, replay_commands,
}
use block_rust.Index.Defs.{key_true_value}
use block_rust.Index.Events.{effects}
use block_rust.Tree.Visible.{commit_to_index-returned}
use block_rust.Tree.Ops
use block_rust.Tree.Ops.{Tree}
use block_rust.Tree.Addresses.{IsTree, append_record-IsTree, commit_to_index-IsTree}
use block_rust.Tree.Reads.{read-entry}
use block_rust.Tree.CommitToIndex
use block_rust.Tree.Snapshots.{committed-IsAfter}

push_command-get :
    (b : Batch) (c : SimpleCommand) (player : BatchPlayer) (cs : List SimpleCommand)
    → get b player ≡ some cs
    → (push_command b c player).0 ≡ ok tt
    → get b (push_command b c player).1 ≡ some (cs ++ c ∷ [])
unfolding push_command
push_command-get b c player cs found h = elim (Bool-cases (contains_key b player)) [
  | inl known ↦ rw known (
      ground (
        arith,
        found,
        get-modify b b (λ (commands : List SimpleCommand). commands ++ c ∷ []) player,
        ==_refl b,
      ))
  | inr unknown ↦ absurd (cc (rw unknown at h))
]

open-get :
    (b : Batch) (a : Address) (player : BatchPlayer)
    → (record_command (Command.open_batch b) a player).0 ≡ ok tt
    → get b (record_command (Command.open_batch b) a player).1 ≡ some []
unfolding record_command
open-get b a player h = elim (Bool-cases (contains_key b player)) [
  | inr fresh ↦ rw fresh (ground (arith, get-insert b b ([]) player, ==_refl b))
  | inl known ↦ absurd (cc (rw known at h))
]

-- A sequence that returns a value has run its first part to one.
then-ok :
    {S : Type 0} (m n : Exec S (Unit {0})) (s : S)
    → ((m >> n) s).0 ≡ ok tt
    → ((m s).0 ≡ ok tt) × ((m >> n) s ≡ n (m s).1)
then-ok {S} m n s h = go (m s) h
  where
    go :
        (x : Outcome (Unit {0}) × S)
        → (continue x.0 (λ u. n) x.1).0 ≡ ok tt
        → (x.0 ≡ ok tt) × (continue x.0 (λ u. n) x.1 ≡ n x.1)
    go (ok u, s') k = (refl, refl)
    go (err e, s') k = cc
    go (panic, s') k = cc

module _ (f : LogFile Command) where
  -- What an append that returns a value has done.
  record Logged (cmd : Command) (t t' : Tree f) : Type 0 where
    address : Address
    appended : (LogFile.append f cmd t.log).0 ≡ ok address
    log : t'.log ≡ (LogFile.append f cmd t.log).1
    recorded : (record_command cmd address t.batch_player).0 ≡ ok tt
    player : t'.batch_player ≡ (record_command cmd address t.batch_player).1
    index : t'.index ≡ t.index
    initialized : t'.initialized ≡ t.initialized

  append_record-Logged :
      (cmd : Command) (t : Tree f)
      → (Ops.append_record f cmd t).0 ≡ ok tt
      → Logged cmd t (Ops.append_record f cmd t).1
  unfolding Ops.append_record
  append_record-Logged cmd t h = elim (Outcome-cases (LogFile.append f cmd t.log).0) [
    | inl (a, e) ↦ rw e (record {
      address = a;
      appended = e;
      log = refl;
      recorded = rw e at h;
      player = refl;
      index = refl;
      initialized = refl;
    })
    | inr (inl (x, e)) ↦ absurd (cc (rw e at h))
    | inr (inr e) ↦ absurd (cc (rw e at h))
  ]

module _ (f : LogFile Command) (l : IsLog f) (b : Batch) (bc : BatchCommit) (c : Commit) (key : Key)
    (value : Value) where
  open l use {entry}

  -- The batch has logged one write and is ready.
  record IsOneWrite (t : Tree f) : Type 0 where
    address : Address
    held : entry t.log address ≡ some (Command.write b key value)
    replayed : replay b bc t.batch_player ≡ ok (IndexOp.write key address ∷ [])

  Logged-IsOneWrite :
      (t t1 t2 t3 : Tree f)
      → Logged f (Command.open_batch b) t t1
      → Logged f (Command.write b key value) t1 t2
      → Logged f (Command.ready_commit b bc) t2 t3
      → IsOneWrite t3
  unfolding record_command replay replay_commands
  Logged-IsOneWrite t t1 t2 t3 opened written ready =
      let a = written.address in
      let g1 =
        ap (get b) opened.player ∙ open-get b opened.address t.batch_player opened.recorded in
      let g2 =
        ap (get b) written.player
        ∙ push_command-get b (SimpleCommand.write key a) t1.batch_player [] g1 written.recorded in
      let g3 =
        ap (get b) ready.player
        ∙ push_command-get b (SimpleCommand.ready_commit bc) t2.batch_player
            (SimpleCommand.write key a ∷ []) g2 ready.recorded in
      record {
        address = a;
        held =
            ap (λ log. entry log a) ready.log
            ∙ l.append_keeps t2.log (Command.ready_commit b bc) (Command.write b key value) a (
                ap (λ log. entry log a) written.log
                ∙ l.append_entry t1.log (Command.write b key value) a written.appended);
        replayed = ground (arith, g3, ==_refl bc);
      }

  -- The value is read at the limit above the commit, or the log fails to read its command.
  abbrev ReadsValue : Tree f → Type 0
  ReadsValue t =
      (Ops.read f t (c + 1) key ≡ ok (some value))
      ⊎ ((a : Address) × (e : Error) × (LogFile.read_at f a t.log ≡ err e)
          × (Ops.read f t (c + 1) key ≡ err e))

  module _ (t : Tree f) (w : IsOneWrite t) (h : IsTree f l t) (room : c + 1 < u64_mod)
      (fits : t.index.maybe_next_commit ≤ c)
      (done : (Ops.commit_to_index f b bc c t).0 ≡ ok tt) where
    after : Tree f
    after = (Ops.commit_to_index f b bc c t).1

    after-key_true_value : key_true_value after.index.state (c + 1) key ≡ some w.address
    unfolding after Ops.commit_to_index effects
    after-key_true_value =
        let (ops, e, seen) =
          commit_to_index-returned h.is_index c t.batch_player b bc fits room done in
        let one : ops ≡ IndexOp.write key w.address ∷ [] = ground (arith, e, w.replayed) in
        seen key
        ∙ ap (λ o. effects o key (key_true_value t.index.state c key)) one
        ∙ ground (arith, bytes_ord.eq_iff key key)

    after-limit : after.index.maybe_next_commit ≡ c + 1
    unfolding after Ops.commit_to_index CommitToIndex.commit_to_index
    after-limit = (committed-IsAfter h.is_index c room fits (replay b bc t.batch_player)).1 done

    after-log : (after.log ≡ t.log) × (after.initialized ≡ t.initialized)
    unfolding after Ops.commit_to_index
    after-log = (refl, refl)

    one_write-ReadsValue : t.initialized ≡ true → ReadsValue after
    one_write-ReadsValue ready =
        elim (read-entry f l after (c + 1) key
          (unfold after in commit_to_index-IsTree f l t b bc c room h) (after-log.1 ∙ ready)
          (omega (arith, after-limit))) [
            | inl (missing, e) ↦ absurd (ground (arith, missing, after-key_true_value))
            | inr (a, b', v, found, logged, r) ↦
                let place : a ≡ w.address = ground (arith, found, after-key_true_value) in
                let here : entry t.log w.address ≡ some (Command.write b' key v) =
                  ap (entry t.log) (sym place)
                  ∙ ap (λ log. entry log a) (sym after-log.0)
                  ∙ logged in
                let same : v ≡ value = ground (arith, here, w.held) in
                elim r [
                  | inl e ↦ inl (e ∙ ap (λ x. ok (some x)) same)
                  | inr (x, q, e) ↦ inr (a, x, q, e)
                ]
          ]

  -- A batch of one write, from its opening to its commit.
  unfoldable pub one_write : Exec (Tree f) (Unit {0})
  one_write =
      Ops.open_batch f b
      >> (Ops.write f b key value >> (Ops.ready_commit f b bc >> Ops.commit_to_index f b bc c))

  -- Over an append-only log, take an initialised tree whose addresses are those of logged writes of
  -- their keys, and a commit number that its index has not passed and that a `u64` can follow. If a
  -- batch opens, writes a value under a key, gets ready and is committed with this number, each of
  -- which returns a value, then a read of the key at the limit above the number returns the value, or
  -- the error with which the log failed to read an address.
  pub one_write-read :
      (t : Tree f)
      → IsTree f l t
      → t.initialized ≡ true
      → c + 1 < u64_mod
      → t.index.maybe_next_commit ≤ c
      → (one_write t).0 ≡ ok tt
      → (Ops.read f (one_write t).1 (c + 1) key ≡ ok (some value))
        ⊎ ((a : Address) × (e : Error) × (LogFile.read_at f a (one_write t).1.log ≡ err e)
            × (Ops.read f (one_write t).1 (c + 1) key ≡ err e))
  unfolding one_write Ops.open_batch Ops.write Ops.ready_commit
  one_write-read t h ready room fits done =
      let (r1, e1) = then-ok (Ops.open_batch f b) _ t done in
      let t1 = (Ops.open_batch f b t).1 in
      let (r2, e2) = then-ok (Ops.write f b key value) _ t1 (ap (λ x. x.0) (sym e1) ∙ done) in
      let t2 = (Ops.write f b key value t1).1 in
      let (r3, e3) =
        then-ok (Ops.ready_commit f b bc) _ t2 (ap (λ x. x.0) (sym e2 ∙ sym e1) ∙ done) in
      let t3 = (Ops.ready_commit f b bc t2).1 in
      let k1 = append_record-Logged f (Command.open_batch b) t r1 in
      let k2 = append_record-Logged f (Command.write b key value) t1 r2 in
      let k3 = append_record-Logged f (Command.ready_commit b bc) t2 r3 in
      let kept : t3.index ≡ t.index = k3.index ∙ k2.index ∙ k1.index in
      let h3 = append_record-IsTree f l t2 (Command.ready_commit b bc) (
        append_record-IsTree f l t1 (Command.write b key value)
          (append_record-IsTree f l t (Command.open_batch b) h)) in
      subst (λ x. ReadsValue x.1) (sym (e1 ∙ e2 ∙ e3))
        (unfold after in
          one_write-ReadsValue t3 (Logged-IsOneWrite t t1 t2 t3 k1 k2 k3) h3 room
            (omega (arith, ap (λ i. i.maybe_next_commit) kept, fits))
            (ap (λ x. x.0) (sym e3 ∙ sym e2 ∙ sym e1) ∙ done)
            (k3.initialized ∙ k2.initialized ∙ k1.initialized ∙ ready))
