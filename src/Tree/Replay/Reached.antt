-- ===== src/Tree/Replay/Reached.antt =====
-- tree.rs: the replay of a commit takes the index of its tree just past the commit.
use mathlib.Core.Path.{subst}
use block_rust.Base.{
  Bool, closed_before_commit, ◌+◌, ◌≡◌, refl, sym, true, false, List, [], ◌∷◌, Outcome, ok, err,
  panic, Bool-cases, inl, inr, some, if◌then◌else◌,
}
use block_rust.Base.Exec.{continue}
use block_rust.Base.Ord.{nat_ord}
use block_rust.Types.{Address, Batch, BatchCommit, Commit}
use block_rust.Command.{Command, batch}
use block_rust.Tree.Replay.{
  InitReplayer, replay_commit, replay_items, replay_cmd, update_max, new_batch_commit, take_out,
  waits,
}
use block_rust.Tree.Replay.Places.{IsAt, commit_batch-Reached, After, NoAbort}
use block_rust.Tree.Replay.Steps.{replay_cmd-After}

-- A stream without a command that aborts a commit.
abbrev pub NoAborts : List (Outcome (Command × Address)) → Type 0
NoAborts [] = Unit
NoAborts (ok (cmd, addr) ∷ rest) = NoAbort cmd × NoAborts rest
NoAborts (err e ∷ rest) = NoAborts rest
NoAborts (panic ∷ rest) = NoAborts rest

-- A replayer whose index is at `n`, and whose stream aborts no commit.
pub record IsReplayer (n : Commit) (r : InitReplayer) : Type 0 where
  pub at : IsAt n r.index
  pub quiet : NoAborts r.cmd_stream

module _ (target : Batch) (target_commit : BatchCommit) (c : Commit) where
  replay_items-IsReplayer :
      (stream : List (Outcome (Command × Address))) (n : Commit) (r : InitReplayer)
      → NoAborts stream
      → IsAt n r.index
      → (replay_items target target_commit c stream r).0 ≡ ok tt
      → IsReplayer (c + 1) (replay_items target target_commit c stream r).1
  unfolding replay_items update_max
  replay_items-IsReplayer [] n r q h e = absurd (cc)
  replay_items-IsReplayer (err x ∷ rest) n r q h e = absurd (cc)
  replay_items-IsReplayer (panic ∷ rest) n r q h e = absurd (cc)
  replay_items-IsReplayer (ok (cmd, addr) ∷ rest) n r q h e =
      ran (replay_cmd target target_commit c cmd addr (record r { cmd_stream = rest }))
        (replay_cmd-After target target_commit c cmd addr n (record r { cmd_stream = rest }))
        (λ r'. replay_items-IsReplayer rest n r' q.1) e
    where
      seen : InitReplayer → InitReplayer
      seen = update_max (some (batch cmd)) (new_batch_commit cmd)

      ran :
          (x : Outcome Bool × InitReplayer)
          → ((done : Bool)
              → NoAbort cmd
              → IsAt n r.index
              → x.0 ≡ ok done
              → After c (record r { cmd_stream = rest }) x.1 done)
          → ((r' : InitReplayer)
              → IsAt n r'.index
              → (replay_items target target_commit c rest r').0 ≡ ok tt
              → IsReplayer (c + 1) (replay_items target target_commit c rest r').1)
          → (continue x.0
              (λ done r'.
                let more = replay_items target target_commit c rest (seen r') in
                if done then (ok tt, seen r') else more)
              x.1).0
            ≡ ok tt
          → IsReplayer
              (c + 1)
              (continue x.0
                (λ done r'.
                  let more = replay_items target target_commit c rest (seen r') in
                  if done then (ok tt, seen r') else more)
                x.1).1
      ran (ok true, r') post more k =
          let p = post true q.0 h refl in
          record { at = p.at; quiet = subst NoAborts (sym p.stream) q.1 }
      ran (ok false, r') post more k =
          let p = post false q.0 h refl in more (seen r') (subst (IsAt n) (sym p.index) h) k
      ran (err x, r') post more k = absurd (cc)
      ran (panic, r') post more k = absurd (cc)

  pub replay_commit-IsReplayer :
      (n : Commit) (r : InitReplayer)
      → IsReplayer n r
      → (replay_commit target target_commit c r).0 ≡ ok tt
      → IsReplayer (c + 1) (replay_commit target target_commit c r).1
  unfolding replay_commit
  replay_commit-IsReplayer n r h e =
      elim (Bool-cases (waits target target_commit r.waiting_to_commit)) [
        | inl waiting ↦
            let r0 : InitReplayer = record r {
              waiting_to_commit = take_out target target_commit r.waiting_to_commit;
            } in
            let p =
              commit_batch-Reached (err closed_before_commit) target target_commit c n r0 (λ q. cc)
                h.at (rw waiting at e) in
            rw waiting (record { at = p.at; quiet = subst NoAborts (sym p.stream) h.quiet })
        | inr not_yet ↦
            rw not_yet (replay_items-IsReplayer r.cmd_stream n r h.quiet h.at (rw not_yet at e))
      ]
