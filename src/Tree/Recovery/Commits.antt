-- ===== src/Tree/Recovery/Commits.antt =====
-- tree.rs: the replay of one commit keeps the replayer in step with the running tree.
use mathlib.Core.Path.{subst}
use mathlib.Core.List.{append_assoc}
use block_rust.Base.{
  ◌≡◌, refl, sym, ap, ◌∙◌, true, false, ==_refl, some, List, [], ◌∷◌, ◌++◌, arith, Bool-cases, inl,
  inr, ok, err, Outcome, closed_before_commit,
}
use block_rust.Base.Ord.{nat_ord}
use block_rust.Types.{Address, Batch, BatchCommit, Commit}
use block_rust.Command.{Command, ready_commit, batch}
use block_rust.BatchPlayer.{BatchPlayer, IndexOp, record_command, replay}
use block_rust.Index.Defs.{Index}
use block_rust.Tree.CommitToIndex.{commit_ops}
use block_rust.Tree.Replay.{
  InitReplayer, replay_cmd, replay_items, replay_commit, waits, take_out, update_max,
  new_batch_commit, max_seen,
}
use block_rust.Tree.Replay.Plain.{items}
use block_rust.Tree.Recovery.Pairs.{
  Pairs, pair_of, pairs, pairs-append, has, Unlike-has, Apart, Apart-front, Apart-back, is_ready,
  has_ready, has_ready-has, is_ready_lem, pairs-push, has_ready-append,
}
use block_rust.Tree.Recovery.Turns.{any_ready-rest, in_turn, in_turn-rest, Tight-end, Tight-grow}
use block_rust.Tree.Recovery.Players.{SameAll}
use block_rust.Tree.Recovery.Passing.{replay_cmd-Passed}
use block_rust.Tree.Recovery.Numbers.{Numbers, Numbers-push}
use block_rust.Tree.Recovery.Stops.{after, Plays, after-front}
use block_rust.Tree.Recovery.Scan.{IsGood, IsAt, IsGood-pass, found, commit_player-ok}
use block_rust.Tree.Recovery.Waiting.{clear, IsGood-commit, IsGood-take}

module _ (b : Batch) (bc : BatchCommit) where
  module _ (c : Commit) (ops : List IndexOp) (index' : Index) (log more : List (Command × Address))
      (committed : Pairs) (player : BatchPlayer) (replayed : replay b bc player ≡ ok ops) where
    -- The replayer has reached the commit.
    abbrev pub Commits : Outcome (Unit {0}) × InitReplayer → Type 0
    Commits x =
        (r' : InitReplayer) × (x ≡ (ok tt, r'))
        × IsAt log more (committed ++ (b, bc) ∷ []) player index' r'

    -- The next command is the ready commit.
    hit :
        (read rest : List (Command × Address)) (p : BatchPlayer) (r : InitReplayer) (cmd : Command)
        (a : Address)
        → cmd ≡ ready_commit b bc
        → log ≡ read ++ (cmd, a) ∷ rest
        → Apart (pairs read ++ (pair_of cmd ++ pairs rest))
        → after (record_command cmd a p).1 rest ≡ player
        → (record_command cmd a p).0 ≡ ok tt
        → Plays (record_command cmd a p).1 rest
        → IsGood committed (pairs read) p r
        → Numbers read r
        → has b bc (pairs read) ≡ false
        → commit_ops c ops r.index ≡ (ok tt, index')
        → Commits (replay_items b bc c (items ((cmd, a) ∷ rest ++ more)) r)
    unfolding replay_items update_max
    hit read rest p r cmd a is s d live l plays g n unseen e =
        let r0 : InitReplayer = record r { cmd_stream = items (rest ++ more) } in
        let here : has b bc (pair_of cmd) ≡ true = rw is (ground (arith, ==_refl b, ==_refl bc)) in
        let ready_here : is_ready b bc cmd ≡ true = rw is (ground (arith, ==_refl b, ==_refl bc)) in
        let done_with = Unlike-has b bc (pairs rest) (
          Apart-front b bc (pair_of cmd) (pairs rest)
            (Apart-back (pairs read) (pair_of cmd ++ pairs rest) d) here) in
        let ready =
          after-front b bc ops rest (record_command cmd a p).1 plays done_with (rw live replayed) in
        let (players, step, sa) =
          found b bc c ops index' a p r0 g.same (rw is at l) (rw is at ready) e in
        let step' = ap (λ x. replay_cmd b bc c x a r0) is ∙ step in
        let sa' : SameAll (record_command cmd a p).1 players =
          subst (λ x. SameAll (record_command x a p).1 players) (sym is) sa in
        let r1 : InitReplayer =
          update_max (some (batch cmd)) (new_batch_commit cmd)
            (record r0 { batch_players = players; index = index' }) in
        let seen : pairs (read ++ (cmd, a) ∷ []) ≡ pairs read ++ (b, bc) ∷ [] =
          pairs-push read cmd a ∙ ap (λ x. pairs read ++ pair_of x) is in
        (
          r1,
          rw step' refl,
          record {
            read = read ++ (cmd, a) ∷ [];
            rest = rest;
            split = s ∙ sym (append_assoc read ((cmd, a) ∷ []) rest);
            p = (record_command cmd a p).1;
            live = live;
            plays = plays;
            stream = refl;
            index_same = refl;
            good = rw seen (
                IsGood-commit b bc committed (pairs read) p (record_command cmd a p).1 r r1 sa' refl
                  unseen g);
            numbers = Numbers-push read cmd a r r1 n refl refl;
            tight = Tight-end committed b bc read cmd a ready_here;
          },
        )

    scan :
        (read rest : List (Command × Address)) (p : BatchPlayer) (r : InitReplayer)
        → log ≡ read ++ rest
        → Apart (pairs read ++ pairs rest)
        → after p rest ≡ player
        → Plays p rest
        → IsGood committed (pairs read) p r
        → Numbers read r
        → has b bc (pairs read) ≡ false
        → has_ready b bc rest ≡ true
        → in_turn b bc committed rest ≡ true
        → commit_ops c ops r.index ≡ (ok tt, index')
        → Commits (replay_items b bc c (items (rest ++ more)) r)
    unfolding replay_items update_max
    scan read [] p r s d live plays g n unseen q turn e = absurd (cc)
    scan read ((cmd, a) ∷ rest) p r s d live plays g n unseen q turn e =
        elim (Bool-cases (is_ready b bc cmd)) [
          | inl ready ↦
              hit read rest p r cmd a (is_ready_lem b bc cmd ready) s d live plays.0 plays.1 g n
                unseen e
          | inr not_ready ↦
              let later : has_ready b bc rest ≡ true = ground (arith, q, not_ready) in
              let nothing_done =
                any_ready-rest committed (pairs read) ((cmd, a) ∷ rest) d g.within in
              let k =
                clear b bc committed (pairs read) p r cmd (pairs rest) d g unseen
                  (has_ready-has b bc rest later) (ground (arith, turn, not_ready, nothing_done)) in
              let r0 : InitReplayer = record r { cmd_stream = items (rest ++ more) } in
              let (r1, step, passed) =
                replay_cmd-Passed b bc c a p r0 g.same cmd plays.0 k.differ k.free in
              let r2 : InitReplayer = update_max (some (batch cmd)) (new_batch_commit cmd) r1 in
              let good =
                IsGood-pass committed (pairs read) p (record_command cmd a p).1 cmd r0 r1 k.apart
                  (record { same = g.same; waiting = g.waiting; within = g.within }) passed in
              let seen = pairs-push read cmd a in
              rw step (
                scan (read ++ (cmd, a) ∷ []) rest (record_command cmd a p).1 r2
                  (s ∙ sym (append_assoc read ((cmd, a) ∷ []) rest))
                  (rw (seen, append_assoc (pairs read) (pair_of cmd) (pairs rest)) d) live plays.1
                  (rw seen
                    (record { same = good.same; waiting = good.waiting; within = good.within }))
                  (Numbers-push read cmd a r r2 n
                    (ap (λ x. max_seen x (some (batch cmd))) passed.batches)
                    (ap (λ x. max_seen x (new_batch_commit cmd)) passed.batch_commits))
                  (rw seen k.unseen) later (ground (arith, turn, not_ready)) (rw passed.index e))
        ]

    -- `replay_commit` on a replayer that is in step with the tree in front of the commit.
    pub replay_commit-Commits :
        (index : Index) (r : InitReplayer)
        → Apart (pairs log)
        → has_ready b bc log ≡ true
        → has b bc committed ≡ false
        → in_turn b bc committed log ≡ true
        → commit_ops c ops index ≡ (ok tt, index')
        → IsAt log more committed player index r
        → Commits (replay_commit b bc c r)
    unfolding replay_commit
    replay_commit-Commits index r d q fresh turn e at =
        let seen = at.good.waiting b bc in
        let e' : commit_ops c ops r.index ≡ (ok tt, index') = rw at.index_same e in
        let apart : Apart (pairs at.read ++ pairs at.rest) =
          subst Apart (ap pairs at.split ∙ pairs-append at.read at.rest) d in
        elim (Bool-cases (has b bc (pairs at.read))) [
          | inl was_read ↦
              let waiting : waits b bc r.waiting_to_commit ≡ true =
                seen ∙ rw (was_read, fresh) refl in
              let behind =
                Unlike-has b bc (pairs at.rest)
                  (Apart-front b bc (pairs at.read) (pairs at.rest) apart was_read) in
              let r0 : InitReplayer = record r {
                waiting_to_commit = take_out b bc r.waiting_to_commit;
              } in
              let done =
                commit_player-ok b bc c ops index' (err closed_before_commit) at.p r0 at.good.same
                  (after-front b bc ops at.rest at.p at.plays behind (rw at.live replayed)) e' in
              (
                record r0 { index = index' },
                rw waiting done,
                record {
                  read = at.read;
                  rest = at.rest;
                  split = at.split;
                  p = at.p;
                  live = at.live;
                  plays = at.plays;
                  stream = at.stream;
                  index_same = refl;
                  good =
                      IsGood-take b bc committed (pairs at.read) at.p r
                        (record r0 { index = index' }) refl refl was_read at.good;
                  numbers = at.numbers;
                  tight = Tight-grow committed ((b, bc) ∷ []) at.read at.tight;
                },
              )
          | inr unread ↦
              let quiet : waits b bc r.waiting_to_commit ≡ false = seen ∙ rw unread refl in
              let coming : has_ready b bc at.rest ≡ true =
                later_ready at.read at.rest at.split q unread in
              rw quiet (
                subst (λ x. Commits (replay_items b bc c x r)) (sym at.stream)
                  (scan at.read at.rest at.p r at.split apart at.live at.plays at.good at.numbers
                    unread coming
                    (in_turn-rest b bc committed at.read at.rest unread
                      (subst (λ x. in_turn b bc committed x ≡ true) at.split turn))
                    e'))
        ]
      where
        later_ready :
            (read rest : List (Command × Address))
            → log ≡ read ++ rest
            → has_ready b bc log ≡ true
            → has b bc (pairs read) ≡ false
            → has_ready b bc rest ≡ true
        later_ready read rest s q u = elim (Bool-cases (has_ready b bc read)) [
          | inl early ↦ absurd (cc (has_ready-has b bc read early))
          | inr not_early ↦
              let parts = has_ready-append b bc read rest in
              let whole : has_ready b bc (read ++ rest) ≡ true = rw (← s) q in
              ground (arith, parts, whole, not_early)
        ]
