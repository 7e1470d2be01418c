-- ===== src/Tree/Recovery/Turns.antt =====
-- tree.rs: which attempts of a batch the search for a commit passes, before it comes to the commit.
use block_rust.Base.{
  not, ◌≡◌, refl, Bool, true, false, ◌&&◌, ◌||◌, ◌==◌, List, [], ◌∷◌, ◌++◌, arith, Bool-cases, inl,
  inr,
}
use block_rust.Base.Ord.{nat_ord}
use block_rust.Types.{Address, Batch, BatchCommit}
use block_rust.Command.{
  Command, open_batch, write, delete, delete_range, push_save_point, pop_save_point,
  rollback_save_point, ready_commit, abort_commit, close,
}
use block_rust.Tree.Recovery.Pairs.{
  Pairs, pair_of, pairs, has, has-append, Differ, Unlike, Unlike-has, Apart, Apart-front, is_ready,
  has_ready, has_ready-has, has_ready-append, is_ready-has,
}

-- The batch has one of these attempts.
abbrev pub tries : Batch → Pairs → Bool
tries b [] = false
tries b ((b', bc) ∷ ps) = b == b' || tries b ps

-- The log makes one of these commits ready.
abbrev pub any_ready : Pairs → List (Command × Address) → Bool
any_ready [] log = false
any_ready ((b, bc) ∷ ps) log = has_ready b bc log || any_ready ps log

-- In front of the command that makes this commit ready, each attempt of the batch is the ready command
-- of a commit that is done, or stands in front of one.
abbrev pub in_turn : Batch → BatchCommit → Pairs → List (Command × Address) → Bool
in_turn b bc done [] = true
in_turn b bc done ((cmd, a) ∷ log) =
    is_ready b bc cmd
    || ((not (tries b (pair_of cmd)) || any_ready done ((cmd, a) ∷ log)) && in_turn b bc done log)

-- The commits that were read have no ready command in the rest of the log.
pub any_ready-rest :
    (done seen : Pairs) (rest : List (Command × Address))
    → Apart (seen ++ pairs rest)
    → ((b : Batch) (bc : BatchCommit) → has b bc done ≡ true → has b bc seen ≡ true)
    → any_ready done rest ≡ false
any_ready-rest [] seen rest d h = refl
any_ready-rest ((b, bc) ∷ done) seen rest d h =
    let read : has b bc seen ≡ true = h b bc (ground arith) in
    let unread = Unlike-has b bc (pairs rest) (Apart-front b bc seen (pairs rest) d read) in
    let later = any_ready-rest done seen rest d (λ i j k. h i j (ground (arith, k))) in
    elim (Bool-cases (has_ready b bc rest)) [
      | inl again ↦ absurd (cc (has_ready-has b bc rest again))
      | inr not_again ↦ ground (arith, not_again, later)
    ]

module _ (b : Batch) (bc : BatchCommit) (done : Pairs) where
  -- What is in turn in a log is in turn in its rest, where the commit is still to be read.
  pub in_turn-rest :
      (read rest : List (Command × Address))
      → has b bc (pairs read) ≡ false
      → in_turn b bc done (read ++ rest) ≡ true
      → in_turn b bc done rest ≡ true
  in_turn-rest [] rest u h = h
  in_turn-rest ((cmd, a) ∷ read) rest u h =
      let parts = has-append b bc (pair_of cmd) (pairs read) in
      elim (Bool-cases (is_ready b bc cmd)) [
        | inl here ↦ absurd (cc (is_ready-has b bc cmd (pairs read) here))
        | inr not_here ↦
            in_turn-rest read rest (ground (arith, parts, u)) (ground (arith, h, not_here))
      ]

-- Each part at the end of what was read makes a commit ready that is done: so what was read goes no
-- further than the commits.
abbrev pub Tight : Pairs → List (Command × Address) → Type 0
Tight done [] = Unit
Tight done ((cmd, a) ∷ read) = (any_ready done ((cmd, a) ∷ read) ≡ true) × Tight done read

any_ready-append :
    (done : Pairs) (read rest : List (Command × Address))
    → any_ready done read ≡ true
    → any_ready done (read ++ rest) ≡ true
any_ready-append [] read rest h = absurd (cc)
any_ready-append ((b, bc) ∷ done) read rest h =
    let parts = has_ready-append b bc read rest in
    elim (Bool-cases (has_ready b bc read)) [
      | inl here ↦ ground (arith, parts, here)
      | inr not_here ↦
          let later = any_ready-append done read rest (ground (arith, h, not_here)) in
          ground (arith, later)
    ]

any_ready-grow :
    (done more : Pairs) (read : List (Command × Address))
    → any_ready (done ++ more) read ≡ (any_ready done read || any_ready more read)
any_ready-grow [] more read = refl
any_ready-grow ((b, bc) ∷ done) more read = ground (arith, any_ready-grow done more read)

pub Tight-grow :
    (done more : Pairs) (read : List (Command × Address))
    → Tight done read
    → Tight (done ++ more) read
Tight-grow done more [] h = tt
Tight-grow done more ((cmd, a) ∷ read) h =
    let parts = any_ready-grow done more ((cmd, a) ∷ read) in
    (ground (arith, parts, h.0), Tight-grow done more read h.1)

-- The reading ends at the ready command of the commit that is done last.
pub Tight-end :
    (done : Pairs) (b : Batch) (bc : BatchCommit) (read : List (Command × Address)) (cmd : Command)
    (a : Address)
    → is_ready b bc cmd ≡ true
    → Tight (done ++ (b, bc) ∷ []) (read ++ (cmd, a) ∷ [])
Tight-end done b bc [] cmd a h =
    let parts = any_ready-grow done ((b, bc) ∷ []) ((cmd, a) ∷ []) in (ground (arith, parts, h), tt)
Tight-end done b bc ((x, i) ∷ read) cmd a h =
    let parts = any_ready-grow done ((b, bc) ∷ []) ((x, i) ∷ read ++ (cmd, a) ∷ []) in
    let last = has_ready-append b bc read ((cmd, a) ∷ []) in
    (ground (arith, parts, last, h), Tight-end done b bc read cmd a h)

-- What is out of turn in a log is so in the rest of it that no commit has reached.
pub out_of_turn-rest :
    (b : Batch) (bc : BatchCommit) (done : Pairs) (read rest : List (Command × Address))
    → Tight done read
    → in_turn b bc done (read ++ rest) ≡ false
    → (in_turn b bc done rest ≡ false) × (has_ready b bc read ≡ false)
out_of_turn-rest b bc done [] rest k h = (h, refl)
out_of_turn-rest b bc done ((cmd, a) ∷ read) rest k h =
    let reached = any_ready-append done ((cmd, a) ∷ read) rest k.0 in
    let (later, unread) = out_of_turn-rest b bc done read rest k.1 (ground (arith, reached, h)) in
    (later, ground (arith, h, unread))

-- The command is about another batch and another commit.
pub tries-Differ :
    (b : Batch) (bc : BatchCommit) (cmd : Command)
    → tries b (pair_of cmd) ≡ false
    → Unlike bc (pair_of cmd)
    → Differ b bc (pair_of cmd)
tries-Differ b bc (ready_commit b' bc') t d = (ground (arith, t), d.0, tt)
tries-Differ b bc (abort_commit b' bc') t d = (ground (arith, t), d.0, tt)
tries-Differ b bc (open_batch b') t d = tt
tries-Differ b bc (write b' k v) t d = tt
tries-Differ b bc (delete b' k) t d = tt
tries-Differ b bc (delete_range b' s e) t d = tt
tries-Differ b bc (push_save_point b') t d = tt
tries-Differ b bc (pop_save_point b') t d = tt
tries-Differ b bc (rollback_save_point b') t d = tt
tries-Differ b bc (close b') t d = tt
