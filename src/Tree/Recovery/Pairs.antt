-- ===== src/Tree/Recovery/Pairs.antt =====
-- tree.rs, command.rs: the commits that the commands of a log are about, as pairs of a batch and a batch
-- commit.
use mathlib.Core.List.{append_assoc, append-nil}
use block_rust.Base.{
  ◌≡◌, refl, sym, ap, ◌∙◌, Bool, true, false, ◌&&◌, ◌||◌, ◌==◌, List, [], ◌∷◌, ◌++◌, arith,
  Bool-cases, inl, inr,
}
use block_rust.Base.Ord.{nat_ord}
use block_rust.Types.{Address, Batch, BatchCommit}
use block_rust.Command.{
  Command, open_batch, write, delete, delete_range, push_save_point, pop_save_point,
  rollback_save_point, ready_commit, abort_commit, close,
}

abbrev pub Pairs : Type 0
Pairs = List (Batch × BatchCommit)

-- The pair of a command that makes a commit ready or aborts one.
abbrev pub pair_of : Command → Pairs
pair_of (ready_commit b bc) = (b, bc) ∷ []
pair_of (abort_commit b bc) = (b, bc) ∷ []
pair_of (open_batch b) = []
pair_of (write b k v) = []
pair_of (delete b k) = []
pair_of (delete_range b s e) = []
pair_of (push_save_point b) = []
pair_of (pop_save_point b) = []
pair_of (rollback_save_point b) = []
pair_of (close b) = []

abbrev pub pairs : List (Command × Address) → Pairs
pairs [] = []
pairs ((cmd, a) ∷ log) = pair_of cmd ++ pairs log

abbrev pub has : Batch → BatchCommit → Pairs → Bool
has b bc [] = false
has b bc ((b', bc') ∷ ps) = (b == b' && bc == bc') || has b bc ps

-- The log has a command that makes this commit ready.
abbrev pub is_ready : Batch → BatchCommit → Command → Bool
is_ready b bc (ready_commit b' bc') = b == b' && bc == bc'
is_ready b bc _ = false

abbrev pub has_ready : Batch → BatchCommit → List (Command × Address) → Bool
has_ready b bc [] = false
has_ready b bc ((cmd, a) ∷ log) = is_ready b bc cmd || has_ready b bc log

-- All pairs differ from this one, in the batch and in the batch commit.
abbrev pub Differ : Batch → BatchCommit → Pairs → Type 0
Differ b bc [] = Unit
Differ b bc ((b', bc') ∷ ps) = (b == b' ≡ false) × (bc == bc' ≡ false) × Differ b bc ps

-- All pairs have another batch commit.
abbrev pub Unlike : BatchCommit → Pairs → Type 0
Unlike bc [] = Unit
Unlike bc ((b', bc') ∷ ps) = (bc == bc' ≡ false) × Unlike bc ps

-- Each pair has a batch commit of its own.
abbrev pub Apart : Pairs → Type 0
Apart [] = Unit
Apart ((b, bc) ∷ ps) = Unlike bc ps × Apart ps

pub pairs-append :
    (log log' : List (Command × Address)) → pairs (log ++ log') ≡ pairs log ++ pairs log'
pairs-append [] log' = refl
pairs-append ((cmd, a) ∷ log) log' =
    ap (λ ps. pair_of cmd ++ ps) (pairs-append log log')
    ∙ sym (append_assoc (pair_of cmd) (pairs log) (pairs log'))

pub has-append :
    (b : Batch) (bc : BatchCommit) (ps ps' : Pairs)
    → has b bc (ps ++ ps') ≡ (has b bc ps || has b bc ps')
has-append b bc [] ps' = refl
has-append b bc ((b', bc') ∷ ps) ps' = ground (arith, has-append b bc ps ps')

pub has_ready-append :
    (b : Batch) (bc : BatchCommit) (log log' : List (Command × Address))
    → has_ready b bc (log ++ log') ≡ (has_ready b bc log || has_ready b bc log')
has_ready-append b bc [] log' = refl
has_ready-append b bc ((cmd, a) ∷ log) log' = ground (arith, has_ready-append b bc log log')

pub is_ready-has :
    (b : Batch) (bc : BatchCommit) (cmd : Command) (ps : Pairs)
    → is_ready b bc cmd ≡ true
    → has b bc (pair_of cmd ++ ps) ≡ true
is_ready-has b bc (ready_commit b' bc') ps h = ground arith
is_ready-has b bc (abort_commit b' bc') ps h = absurd (cc)
is_ready-has b bc (open_batch b') ps h = absurd (cc)
is_ready-has b bc (write b' k v) ps h = absurd (cc)
is_ready-has b bc (delete b' k) ps h = absurd (cc)
is_ready-has b bc (delete_range b' s e) ps h = absurd (cc)
is_ready-has b bc (push_save_point b') ps h = absurd (cc)
is_ready-has b bc (pop_save_point b') ps h = absurd (cc)
is_ready-has b bc (rollback_save_point b') ps h = absurd (cc)
is_ready-has b bc (close b') ps h = absurd (cc)

pub has_ready-has :
    (b : Batch) (bc : BatchCommit) (log : List (Command × Address))
    → has_ready b bc log ≡ true
    → has b bc (pairs log) ≡ true
has_ready-has b bc [] h = absurd (cc)
has_ready-has b bc ((cmd, a) ∷ log) h = elim (Bool-cases (is_ready b bc cmd)) [
  | inl here ↦ is_ready-has b bc cmd (pairs log) here
  | inr not_here ↦
      let later : has b bc (pairs log) ≡ true = has_ready-has b bc log (ground arith) in
      ground (arith, has-append b bc (pair_of cmd) (pairs log), later)
]

-- A pair whose batch commit is that of none is none of them.
pub Unlike-has : (b : Batch) (bc : BatchCommit) (ps : Pairs) → Unlike bc ps → has b bc ps ≡ false
Unlike-has b bc [] d = refl
Unlike-has b bc ((b', bc') ∷ ps) d = ground (arith, Unlike-has b bc ps d.1)

pub Unlike-append :
    (bc : BatchCommit) (ps ps' : Pairs) → Unlike bc (ps ++ ps') → Unlike bc ps × Unlike bc ps'
Unlike-append bc [] ps' d = (tt, d)
Unlike-append bc ((b', bc') ∷ ps) ps' d = let (l, r) = Unlike-append bc ps ps' d.1 in ((d.0, l), r)

-- Of two pairs that stand apart, one in front of the other.
pub Apart-front :
    (b : Batch) (bc : BatchCommit) (ps ps' : Pairs)
    → Apart (ps ++ ps')
    → has b bc ps ≡ true
    → Unlike bc ps'
Apart-front b bc [] ps' d h = absurd (cc)
Apart-front b bc ((b', bc') ∷ ps) ps' d h = elim (Bool-cases (b == b' && bc == bc')) [
  | inl here ↦ let ec : bc' ≡ bc = ground arith in rw (← ec) (Unlike-append bc' ps ps' d.0).1
  | inr later ↦ Apart-front b bc ps ps' d.1 (ground arith)
]

pub Apart-back : (ps ps' : Pairs) → Apart (ps ++ ps') → Apart ps'
Apart-back [] ps' d = d
Apart-back ((b', bc') ∷ ps) ps' d = Apart-back ps ps' d.1

pub pairs-push :
    (log : List (Command × Address)) (cmd : Command) (a : Address)
    → pairs (log ++ (cmd, a) ∷ []) ≡ pairs log ++ pair_of cmd
pairs-push log cmd a =
    pairs-append log ((cmd, a) ∷ []) ∙ ap (λ ps. pairs log ++ ps) (append-nil (pair_of cmd))

Unlike-other :
    (b : Batch) (bc bc' : BatchCommit) (ps : Pairs)
    → Unlike bc' ps
    → has b bc ps ≡ true
    → bc == bc' ≡ false
Unlike-other b bc bc' [] d h = absurd (cc)
Unlike-other b bc bc' ((i, j) ∷ ps) d h = elim (Bool-cases (b == i && bc == j)) [
  | inl here ↦ ground (arith, here, d.0)
  | inr later ↦ Unlike-other b bc bc' ps d.1 (ground arith)
]

-- Of two pairs that stand apart, one behind the other.
pub Apart-behind :
    (b : Batch) (bc : BatchCommit) (ps ps' : Pairs)
    → Apart (ps ++ ps')
    → has b bc ps' ≡ true
    → Unlike bc ps
Apart-behind b bc [] ps' d h = tt
Apart-behind b bc ((b', bc') ∷ ps) ps' d h =
    (Unlike-other b bc bc' ps' (Unlike-append bc' ps ps' d.0).1 h, Apart-behind b bc ps ps' d.1 h)

-- The only command that makes a commit ready.
pub is_ready_lem :
    (b : Batch) (bc : BatchCommit) (cmd : Command)
    → is_ready b bc cmd ≡ true
    → cmd ≡ ready_commit b bc
is_ready_lem b bc (ready_commit b' bc') h =
    let eb : b ≡ b' = ground arith in let ec : bc ≡ bc' = ground arith in rw (eb, ec) refl
is_ready_lem b bc (abort_commit b' bc') h = absurd (cc)
is_ready_lem b bc (open_batch b') h = absurd (cc)
is_ready_lem b bc (write b' k v) h = absurd (cc)
is_ready_lem b bc (delete b' k) h = absurd (cc)
is_ready_lem b bc (delete_range b' s e) h = absurd (cc)
is_ready_lem b bc (push_save_point b') h = absurd (cc)
is_ready_lem b bc (pop_save_point b') h = absurd (cc)
is_ready_lem b bc (rollback_save_point b') h = absurd (cc)
is_ready_lem b bc (close b') h = absurd (cc)

pub Apart-take : (ps ps' : Pairs) → Apart (ps ++ ps') → Apart ps
Apart-take [] ps' d = tt
Apart-take ((b, bc) ∷ ps) ps' d = ((Unlike-append bc ps ps' d.0).0, Apart-take ps ps' d.1)
