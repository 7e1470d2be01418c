-- ===== src/Tree/Recovery/Loop.antt =====
-- loader.rs: the loop over the commits, with the replayer of one tree.
use block_rust.Base.{◌≡◌, refl, ap, List, [], ◌∷◌, ◌++◌, ok, err, panic, Outcome}
use block_rust.Base.Exec.{Exec, pure, continue, ◌>>◌}
use block_rust.Types.{Batch, BatchCommit}
use block_rust.CommitLog.{CommitCommand}
use block_rust.Tree.Replay.{InitReplayer, replay_commit}

-- The commits by their pairs.
abbrev pub committed_pairs : List CommitCommand → List (Batch × BatchCommit)
committed_pairs [] = []
committed_pairs (c ∷ cs) = (c.batch, c.batch_commit) ∷ committed_pairs cs

-- `replay_commit` for each commit, as the loop of `load` does with the replayer of one tree.
unfoldable pub replay_all : List CommitCommand → Exec InitReplayer (Unit {0})
unfolding replay_commit
replay_all [] = pure tt
replay_all (c ∷ cs) = do replay_commit c.batch c.batch_commit c.commit; replay_all cs

pub committed_pairs-append :
    (cs cs' : List CommitCommand)
    → committed_pairs (cs ++ cs') ≡ committed_pairs cs ++ committed_pairs cs'
committed_pairs-append [] cs' = refl
committed_pairs-append (c ∷ cs) cs' =
    ap (◌∷◌ (c.batch, c.batch_commit)) (committed_pairs-append cs cs')

pub replay_all-push :
    (cs : List CommitCommand) (c : CommitCommand) (r r' : InitReplayer)
    → replay_all cs r ≡ (ok tt, r')
    → replay_all (cs ++ c ∷ []) r ≡ replay_all (c ∷ []) r'
unfolding replay_all
replay_all-push [] c r r' h = ap (λ x. replay_all (c ∷ []) x.1) h
replay_all-push (d ∷ cs) c r r' h =
    goes_on (replay_commit d.batch d.batch_commit d.commit r) (λ s. replay_all-push cs c s r') h
  where
    goes_on :
        (x : Outcome (Unit {0}) × InitReplayer)
        → ((s : InitReplayer)
            → replay_all cs s ≡ (ok tt, r')
            → replay_all (cs ++ c ∷ []) s ≡ replay_all (c ∷ []) r')
        → continue x.0 (λ u. replay_all cs) x.1 ≡ (ok tt, r')
        → continue x.0 (λ u. replay_all (cs ++ c ∷ [])) x.1 ≡ replay_all (c ∷ []) r'
    goes_on (ok u, s) more k = more s k
    goes_on (err e, s) more k = absurd (cc)
    goes_on (panic, s) more k = absurd (cc)
