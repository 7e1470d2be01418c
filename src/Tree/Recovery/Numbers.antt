-- ===== src/Tree/Recovery/Numbers.antt =====
-- tree.rs: the largest numbers of the commands that were read.
use block_rust.Base.{◌≡◌, refl, sym, ap, ◌∙◌, Option, none, some, List, [], ◌∷◌, ◌++◌}
use block_rust.Types.{Address, Batch, BatchCommit}
use block_rust.Command.{Command, batch}
use block_rust.Tree.Replay.{InitReplayer, max_seen, new_batch_commit}

-- The larger of what was seen and of the numbers in the log.
unfoldable pub largest : Option Batch → List (Command × Address) → Option Batch
unfolding max_seen
largest seen [] = seen
largest seen ((cmd, a) ∷ log) = largest (max_seen seen (some (batch cmd))) log

unfoldable pub largest_commit : Option BatchCommit → List (Command × Address) → Option BatchCommit
unfolding max_seen
largest_commit seen [] = seen
largest_commit seen ((cmd, a) ∷ log) = largest_commit (max_seen seen (new_batch_commit cmd)) log

pub largest-append :
    (seen : Option Batch) (log log' : List (Command × Address))
    → largest seen (log ++ log') ≡ largest (largest seen log) log'
unfolding largest
largest-append seen [] log' = refl
largest-append seen ((cmd, a) ∷ log) log' =
    largest-append (max_seen seen (some (batch cmd))) log log'

pub largest_commit-append :
    (seen : Option BatchCommit) (log log' : List (Command × Address))
    → largest_commit seen (log ++ log') ≡ largest_commit (largest_commit seen log) log'
unfolding largest_commit
largest_commit-append seen [] log' = refl
largest_commit-append seen ((cmd, a) ∷ log) log' =
    largest_commit-append (max_seen seen (new_batch_commit cmd)) log log'

-- The replayer has seen the numbers of these commands.
abbrev pub Numbers : List (Command × Address) → InitReplayer → Type 0
Numbers read r =
    (r.max_batch_seen ≡ largest none read) × (r.max_batch_commit_seen ≡ largest_commit none read)

-- One more command is read, by `update_max`.
pub Numbers-push :
    (read : List (Command × Address)) (cmd : Command) (a : Address) (r r' : InitReplayer)
    → Numbers read r
    → r'.max_batch_seen ≡ max_seen r.max_batch_seen (some (batch cmd))
    → r'.max_batch_commit_seen ≡ max_seen r.max_batch_commit_seen (new_batch_commit cmd)
    → Numbers (read ++ (cmd, a) ∷ []) r'
unfolding largest largest_commit
Numbers-push read cmd a r r' n e e' = (
  e ∙ ap (λ x. max_seen x (some (batch cmd))) n.0 ∙ sym (largest-append none read ((cmd, a) ∷ [])),
  e'
      ∙ ap (λ x. max_seen x (new_batch_commit cmd)) n.1
      ∙ sym (largest_commit-append none read ((cmd, a) ∷ [])),
)
