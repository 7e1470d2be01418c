-- ===== src/Tree/Recovery/OutOfTurn.antt =====
-- tree.rs: the search for a commit that is out of turn stops at another attempt of its batch.
use mathlib.Core.Path.{subst}
use mathlib.Core.List.{append_assoc}
use block_rust.Base.{
  ◌≡◌, refl, sym, ap, ◌∙◌, true, false, ◌==◌, some, List, [], ◌∷◌, ◌++◌, arith, Bool-cases, inl,
  inr, ok, err, batch_mismatch,
}
use block_rust.Base.Ord.{nat_ord}
use block_rust.Types.{Address, Batch, BatchCommit, Commit}
use block_rust.Command.{
  Command, open_batch, write, delete, delete_range, push_save_point, pop_save_point,
  rollback_save_point, ready_commit, abort_commit, close, batch,
}
use block_rust.BatchPlayer.{BatchPlayer, SimpleCommand, record_command}
use block_rust.Index.Defs.{Index}
use block_rust.Tree.Replay.{
  InitReplayer, replay_cmd, replay_items, replay_commit, waits, update_max, new_batch_commit,
}
use block_rust.Tree.Replay.Plain.{items}
use block_rust.Tree.Recovery.Pairs.{
  Pairs, pair_of, pairs, pairs-append, pairs-push, has, Unlike, Unlike-has, Apart, Apart-back,
  Apart-behind, is_ready, has_ready, has_ready-has, has_ready-append,
}
use block_rust.Tree.Recovery.Players.{SameAll, record-SameAll}
use block_rust.Tree.Recovery.Turns.{tries, any_ready-rest, in_turn, out_of_turn-rest}
use block_rust.Tree.Recovery.Passing.{replay_cmd-Passed}
use block_rust.Tree.Recovery.Stops.{Plays}
use block_rust.Tree.Recovery.Scan.{IsGood, IsAt, IsGood-pass}
use block_rust.Tree.Recovery.Waiting.{clear}

module _ (b : Batch) (bc : BatchCommit) (c : Commit) where
  stops :
      (a : Address) (p : BatchPlayer) (r : InitReplayer) (cmd : Command)
      → SameAll p r.batch_players
      → (record_command cmd a p).0 ≡ ok tt
      → tries b (pair_of cmd) ≡ true
      → Unlike bc (pair_of cmd)
      → (replay_cmd b bc c cmd a r).0 ≡ err batch_mismatch
  unfolding replay_cmd
  stops a p r (ready_commit b' bc') same e t d =
      let (players, step, sa) =
        record-SameAll (ready_commit b' bc') a (SimpleCommand.ready_commit bc') p r refl e same in
      let hit : b == b' ≡ true = ground (arith, t) in rw (step, hit, d.0) refl
  stops a p r (abort_commit b' bc') same e t d =
      let (players, step, sa) =
        record-SameAll (abort_commit b' bc') a (SimpleCommand.abort_commit bc') p r refl e same in
      let hit : b == b' ≡ true = ground (arith, t) in rw (step, hit, d.0) refl
  stops a p r (open_batch b') same e t d = absurd (cc)
  stops a p r (write b' k v) same e t d = absurd (cc)
  stops a p r (delete b' k) same e t d = absurd (cc)
  stops a p r (delete_range b' s l) same e t d = absurd (cc)
  stops a p r (push_save_point b') same e t d = absurd (cc)
  stops a p r (pop_save_point b') same e t d = absurd (cc)
  stops a p r (rollback_save_point b') same e t d = absurd (cc)
  stops a p r (close b') same e t d = absurd (cc)

  stops_loop :
      (a : Address) (p : BatchPlayer) (r : InitReplayer) (cmd : Command)
      (rest : List (Command × Address))
      → (replay_cmd b bc c cmd a (record r { cmd_stream = items rest })).0 ≡ err batch_mismatch
      → (replay_items b bc c (items ((cmd, a) ∷ rest)) r).0 ≡ err batch_mismatch
  unfolding replay_items
  stops_loop a p r cmd rest e = rw e refl

  module _ (done : Pairs) (more : List (Command × Address)) where
    -- The loop passes what is about other batches and comes to an attempt of this one.
    scan :
        (read rest : List (Command × Address)) (p : BatchPlayer) (r : InitReplayer)
        → Apart (pairs read ++ pairs rest)
        → Plays p rest
        → IsGood done (pairs read) p r
        → has b bc (pairs read) ≡ false
        → has_ready b bc rest ≡ true
        → in_turn b bc done rest ≡ false
        → (replay_items b bc c (items (rest ++ more)) r).0 ≡ err batch_mismatch
    unfolding replay_items update_max
    scan read [] p r d plays g unseen q turn = absurd (cc)
    scan read ((cmd, a) ∷ rest) p r d plays g unseen q turn =
        let not_ready : is_ready b bc cmd ≡ false = ground (arith, turn) in
        let later : has_ready b bc rest ≡ true = ground (arith, q, not_ready) in
        let here = has_ready-has b bc rest later in
        let nothing_done = any_ready-rest done (pairs read) ((cmd, a) ∷ rest) d g.within in
        let r0 : InitReplayer = record r { cmd_stream = items (rest ++ more) } in
        elim (Bool-cases (tries b (pair_of cmd))) [
          | inl tried ↦
              let unlike =
                Apart-behind b bc (pair_of cmd) (pairs rest)
                  (Apart-back (pairs read) (pair_of cmd ++ pairs rest) d) here in
              stops_loop a p r cmd (rest ++ more) (stops a p r0 cmd g.same plays.0 tried unlike)
          | inr other ↦
              let k = clear b bc done (pairs read) p r cmd (pairs rest) d g unseen here other in
              let (r1, step, passed) =
                replay_cmd-Passed b bc c a p r0 g.same cmd plays.0 k.differ k.free in
              let r2 : InitReplayer = update_max (some (batch cmd)) (new_batch_commit cmd) r1 in
              let good =
                IsGood-pass done (pairs read) p (record_command cmd a p).1 cmd r0 r1 k.apart
                  (record { same = g.same; waiting = g.waiting; within = g.within }) passed in
              let seen = pairs-push read cmd a in
              rw step (
                scan (read ++ (cmd, a) ∷ []) rest (record_command cmd a p).1 r2
                  (rw (seen, append_assoc (pairs read) (pair_of cmd) (pairs rest)) d) plays.1
                  (rw seen
                    (record { same = good.same; waiting = good.waiting; within = good.within }))
                  (rw seen k.unseen) later (ground (arith, turn, not_ready, other)))
        ]

    -- `replay_commit` on a replayer that is in step with the tree in front of the commit.
    pub replay_commit-out_of_turn :
        (log : List (Command × Address)) (player : BatchPlayer) (index : Index) (r : InitReplayer)
        → Apart (pairs log)
        → has_ready b bc log ≡ true
        → in_turn b bc done log ≡ false
        → IsAt log more done player index r
        → (replay_commit b bc c r).0 ≡ err batch_mismatch
    unfolding replay_commit
    replay_commit-out_of_turn log player index r d q turn at =
        let (later, unready) =
          out_of_turn-rest b bc done at.read at.rest at.tight
            (subst (λ x. in_turn b bc done x ≡ false) at.split turn) in
        let parts = has_ready-append b bc at.read at.rest in
        let whole : has_ready b bc (at.read ++ at.rest) ≡ true =
          subst (λ x. has_ready b bc x ≡ true) at.split q in
        let coming : has_ready b bc at.rest ≡ true = ground (arith, parts, whole, unready) in
        let apart : Apart (pairs at.read ++ pairs at.rest) =
          subst Apart (ap pairs at.split ∙ pairs-append at.read at.rest) d in
        let unread = Unlike-has b bc (pairs at.read) (
          Apart-behind b bc (pairs at.read) (pairs at.rest) apart
            (has_ready-has b bc at.rest coming)) in
        let quiet : waits b bc r.waiting_to_commit ≡ false =
          at.good.waiting b bc ∙ rw unread refl in
        rw quiet (
          subst (λ x. (replay_items b bc c x r).0 ≡ err batch_mismatch) (sym at.stream)
            (scan at.read at.rest at.p r apart at.plays at.good unread coming later))
