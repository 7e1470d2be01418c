-- ===== src/Tree/Replay/Steps.antt =====
-- tree.rs: a command of the log either brings the replay to its commit or keeps index and stream.
use mathlib.Core.Path.{subst}
use block_rust.Base.{
  Bool, xor, batch_mismatch, ◌≡◌, refl, sym, ◌∙◌, true, false, ◌==◌, ◌&&◌, Outcome, ok, err, panic,
  Bool-cases, inl, inr, if◌then◌else◌,
}
use block_rust.Base.Exec.{continue, lift, pure, ◌>>◌}
use block_rust.Base.Ord.{nat_ord}
use block_rust.OrdMap.{contains_key, insert, remove}
use block_rust.Types.{Address, Batch, BatchCommit, Commit}
use block_rust.Command.{Command}
use block_rust.BatchPlayer
use block_rust.BatchPlayer.{BatchPlayer, IndexOp, replay}
use block_rust.Tree.Replay.{InitReplayer, replay_cmd, commit_batch, keep_waiting, record_cmd}
use block_rust.Tree.Replay.Places.{
  IsAt, IsSame, record_cmd-IsSame, keep_waiting-IsSame, Reached, commit_batch-Reached, After,
  NoAbort,
}

module _ (target : Batch) (target_commit : BatchCommit) (c : Commit) where
  -- The arms that go on.
  goes_on :
      (r : InitReplayer) (x : Outcome (Unit {0}) × InitReplayer) (g : InitReplayer → InitReplayer)
      (done : Bool)
      → IsSame r (g x.1)
      → (continue x.0 (λ u s. (ok false, g s)) x.1).0 ≡ ok done
      → After c r (continue x.0 (λ u s. (ok false, g s)) x.1).1 done
  goes_on r (ok u, r') g true same h = absurd (cc)
  goes_on r (ok u, r') g false same h = same
  goes_on r (err e, r') g done same h = absurd (cc)
  goes_on r (panic, r') g done same h = absurd (cc)

  -- The arm that commits.
  arrives :
      (r : InitReplayer) (x : Outcome (Unit {0}) × InitReplayer) (done : Bool)
      → (x.0 ≡ ok tt → Reached c r x.1)
      → (continue x.0 (λ u s. (ok true, s)) x.1).0 ≡ ok done
      → After c r (continue x.0 (λ u s. (ok true, s)) x.1).1 done
  arrives r (ok u, r') true there h = there refl
  arrives r (ok u, r') false there h = absurd (cc)
  arrives r (err e, r') done there h = absurd (cc)
  arrives r (panic, r') done there h = absurd (cc)

  ready-After :
      (b : Batch) (bc : BatchCommit) (addr : Address) (n : Commit) (r : InitReplayer) (done : Bool)
      → IsAt n r.index
      → (replay_cmd target target_commit c (Command.ready_commit b bc) addr r).0 ≡ ok done
      → After c r (replay_cmd target target_commit c (Command.ready_commit b bc) addr r).1 done
  unfolding replay_cmd
  ready-After b bc addr n r done h e =
      recorded_ready (record_cmd (Command.ready_commit b bc) addr r) done
        (record_cmd-IsSame (Command.ready_commit b bc) addr r) e
    where
      hit : Bool
      hit = target == b && target_commit == bc

      decide : InitReplayer → Outcome Bool × InitReplayer
      decide r1 =
          (if hit
              then (do commit_batch panic b bc c; pure true)
              else (do keep_waiting b bc; pure false))
            r1

      decided :
          (r1 : InitReplayer) (done : Bool)
          → IsSame r r1
          → (decide r1).0 ≡ ok done
          → After c r (decide r1).1 done
      decided r1 done same k = elim (Bool-cases hit) [
        | inl yes_it_is ↦ rw yes_it_is (
            arrives r (commit_batch panic b bc c r1) done
              (λ e'.
                let k' =
                  commit_batch-Reached panic b bc c n r1 (λ p. cc)
                    (subst (IsAt n) (sym same.index) h) e' in
                record { at = k'.at; stream = k'.stream ∙ same.stream })
              (rw yes_it_is at k))
        | inr other ↦
            let kept = keep_waiting-IsSame b bc r1 in
            rw other (
              goes_on r (keep_waiting b bc r1) (λ s. s) done
                (record { index = kept.index ∙ same.index; stream = kept.stream ∙ same.stream })
                (rw other at k))
      ]

      recorded_ready :
          (x : Outcome (Unit {0}) × InitReplayer) (done : Bool)
          → IsSame r x.1
          → (continue x.0
              (λ u.
                lift (if xor (target == b) (target_commit == bc) then err batch_mismatch else ok tt)
                >> decide)
              x.1).0
            ≡ ok done
          → After c r
              (continue x.0
                (λ u.
                  lift
                    (if xor (target == b) (target_commit == bc) then err batch_mismatch else ok tt)
                  >> decide)
                x.1).1
              done
      recorded_ready (ok u, r1) done same k =
          elim (Bool-cases (xor (target == b) (target_commit == bc))) [
            | inl mixed ↦ absurd (cc (rw mixed at k))
            | inr pure_pair ↦ rw pure_pair (decided r1 done same (rw pure_pair at k))
          ]
      recorded_ready (err e', r1) done same k = absurd (cc)
      recorded_ready (panic, r1) done same k = absurd (cc)

  pub replay_cmd-After :
      (cmd : Command) (addr : Address) (n : Commit) (r : InitReplayer) (done : Bool)
      → NoAbort cmd
      → IsAt n r.index
      → (replay_cmd target target_commit c cmd addr r).0 ≡ ok done
      → After c r (replay_cmd target target_commit c cmd addr r).1 done
  unfolding replay_cmd
  replay_cmd-After (Command.abort_commit b bc) addr n r done q h e = absurd q
  replay_cmd-After (Command.ready_commit b bc) addr n r done q h e =
      ready-After b bc addr n r done h e
  replay_cmd-After (Command.open_batch b) addr n r done q h e =
      elim (Bool-cases (contains_key b r.batch_players)) [
        | inl known ↦ absurd (cc (rw known at e))
        | inr fresh ↦
            let r0 : InitReplayer = record r {
              batch_players = insert b BatchPlayer.new r.batch_players;
            } in
            let same = record_cmd-IsSame (Command.open_batch b) addr r0 in
            rw fresh (
              goes_on r (record_cmd (Command.open_batch b) addr r0) (λ s. s) done
                (record { index = same.index; stream = same.stream }) (rw fresh at e))
      ]
  replay_cmd-After (Command.close b) addr n r done q h e =
      elim (Bool-cases (contains_key b r.batch_players)) [
        | inr stray ↦ absurd (cc (rw stray at e))
        | inl known ↦ rw known (
            goes_on r _ (λ s. record s { batch_players = remove b s.batch_players }) done
              (let same = record_cmd-IsSame (Command.close b) addr r in
                record { index = same.index; stream = same.stream })
              (rw known at e))
      ]
  replay_cmd-After (Command.write b k v) addr n r done q h e =
      goes_on r _ (λ s. s) done (record_cmd-IsSame (Command.write b k v) addr r) e
  replay_cmd-After (Command.delete b k) addr n r done q h e =
      goes_on r _ (λ s. s) done (record_cmd-IsSame (Command.delete b k) addr r) e
  replay_cmd-After (Command.delete_range b k k') addr n r done q h e =
      goes_on r _ (λ s. s) done (record_cmd-IsSame (Command.delete_range b k k') addr r) e
  replay_cmd-After (Command.push_save_point b) addr n r done q h e =
      goes_on r _ (λ s. s) done (record_cmd-IsSame (Command.push_save_point b) addr r) e
  replay_cmd-After (Command.pop_save_point b) addr n r done q h e =
      goes_on r _ (λ s. s) done (record_cmd-IsSame (Command.pop_save_point b) addr r) e
  replay_cmd-After (Command.rollback_save_point b) addr n r done q h e =
      goes_on r _ (λ s. s) done (record_cmd-IsSame (Command.rollback_save_point b) addr r) e
