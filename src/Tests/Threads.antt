-- ===== src/Tests/Threads.antt =====
-- A file system thread that opens two files and closes them, in one order of its steps.
use block_rust.Base.{ℕ, false, ◌≡◌, refl, List, [], ◌∷◌, ◌++◌, Outcome, ok, length, err, io}
use block_rust.OrdMap.{get, insert}
use block_rust.FsThread.Context
use block_rust.FsThread.Context.{FilePath}
use block_rust.FsThread.Thread
use block_rust.FsThread.Thread.{Message, FsThread, Reach, started, sent, served}
use block_rust.FsThread.Served.{in_order, drain, Reach-in_order}

-- A file is a number; paths of one byte can be opened.
abbrev open_file : FilePath → Outcome ℕ
open_file (b ∷ []) = ok b
open_file _ = err io

abbrev Files : Type 0
Files = Context.Context ℕ open_file open_file

abbrev finish : Files → Files
finish = Context.shutdown ℕ open_file open_file

abbrev open_first : Message Files (Outcome ℕ) finish
open_first = Thread.run 0 (Context.open_append ℕ open_file open_file (5 ∷ []))

abbrev open_bad : Message Files (Outcome ℕ) finish
open_bad = Thread.run 1 (Context.open_read ℕ open_file open_file [])

abbrev new : Files
new = Context.new ℕ open_file open_file

abbrev messages : List (Message Files (Outcome ℕ) finish)
messages = open_first ∷ open_bad ∷ Thread.shutdown ∷ open_first ∷ []

-- Two requests are sent, one is served, and then two more messages are sent.
abbrev waiting : FsThread Files (Outcome ℕ) finish
waiting = record {
  context = record { append_handles = (5 ∷ [], 5) ∷ []; read_handles = []; synced = [] };
  queue = open_bad ∷ Thread.shutdown ∷ open_first ∷ [];
  responses = (0, ok 5) ∷ [];
  stopped = false;
}

waiting-Reach : Reach Files (Outcome ℕ) finish new messages waiting
unfolding Thread.send Thread.serve Context.open_append Context.open_read get insert
waiting-Reach =
    sent open_first
      (sent Thread.shutdown (served (sent open_bad (sent open_first started refl) refl) refl) refl)
      refl

Reach-in_order_example :
    (done : List (Message Files (Outcome ℕ) finish)) × (messages ≡ done ++ waiting.queue)
    × (in_order Files (Outcome ℕ) finish done new ≡ (waiting.responses, waiting.context))
    × (in_order Files (Outcome ℕ) finish messages new ≡ (
      (drain Files (Outcome ℕ) finish (length waiting.queue) waiting).responses,
      (drain Files (Outcome ℕ) finish (length waiting.queue) waiting).context,
    ))
Reach-in_order_example = Reach-in_order Files (Outcome ℕ) finish new waiting-Reach

-- The file is synced at the end, and the request behind the shutdown has no response.
drained : (drain Files (Outcome ℕ) finish 3 waiting).responses ≡ (0, ok 5) ∷ (1, err io) ∷ []
unfolding drain Thread.serve Context.open_append Context.open_read get
drained = refl

synced-drain : (drain Files (Outcome ℕ) finish 3 waiting).context.synced ≡ 5 ∷ []
unfolding drain Thread.serve Context.open_append Context.open_read get Context.shutdown
synced-drain = refl
