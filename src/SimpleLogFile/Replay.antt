-- ===== src/SimpleLogFile/Replay.antt =====
-- simple_log_file.rs, log.rs: reads and the replay of what was appended to the file.
use mathlib.Core.List.{append_assoc, append-nil}
use block_rust.Base.{
  ℕ, suc, ◌+◌, ◌≡◌, refl, sym, ap, ◌∙◌, false, ◌==◌, Option, none, some, List, [], ◌∷◌, ◌++◌, arith,
  length, length-append, Outcome, ok, Outcome-cases, inl, inr,
}
use block_rust.Base.Exec.{Exec, pure, ◌>>=◌}
use block_rust.Types.{Address}
use block_rust.Log.{items, items-last, items-more, start}
use block_rust.FsThread.{State}
use block_rust.Frame.{Libraries, frame}
use block_rust.Frame.RoundTrip.{frame-length}
use block_rust.SimpleLogFile.{append, create}
use block_rust.SimpleLogFile.Reads.{read_at}
use block_rust.SimpleLogFile.Appends.{position, Appended, append-Appended, read_at-frame}

module _ {Cmd : Type 0} (libs : Libraries Cmd) where
  -- A frame that stands in a readable file is read at its place as its command, also behind an append
  -- of any command that succeeds or fails in whatever way.
  pub read_at-append :
      (s : State) (cmd new : Cmd) (before bin after : List ℕ)
      → s.no_read ≡ false
      → s.content ≡ before ++ (bin ++ after)
      → frame libs cmd ≡ ok bin
      → (next_addr : Option Address) × (read_at libs (length before) (append libs new s).1
          ≡ ok (cmd, next_addr))
  read_at-append s cmd new before bin after readable holds made =
      let k = append-Appended libs new s in
      let content : (append libs new s).1.content ≡ before ++ (bin ++ (after ++ k.added)) =
        k.content
        ∙ ap (λ c. c ++ k.added) holds
        ∙ append_assoc before (bin ++ after) k.added
        ∙ ap (λ c. before ++ c) (append_assoc bin after k.added) in
      (
        _,
        read_at-frame libs (append libs new s).1 cmd before bin (after ++ k.added)
            (k.readable ∙ readable) content made,
      )

  -- If the handle stands at the end of a readable file, an append that returns an address returns the
  -- length of the file, its command is read there as the last one, and the handle stands at the end
  -- again.
  pub append-read_at :
      (s : State) (cmd : Cmd) (a : Address)
      → s.no_read ≡ false
      → position s ≡ length s.content
      → (append libs cmd s).0 ≡ ok a
      → (a ≡ length s.content)
        × (read_at libs a (append libs cmd s).1 ≡ ok (cmd, none))
        × (position (append libs cmd s).1 ≡ length (append libs cmd s).1.content)
  append-read_at s cmd a readable stands r =
      let k = append-Appended libs cmd s in
      let (made, at, end) = k.done a r in
      (
        at ∙ stands,
        ap (λ p. read_at libs p (append libs cmd s).1) (at ∙ stands)
            ∙ read_at-frame libs (append libs cmd s).1 cmd s.content k.added []
                (k.readable ∙ readable)
                (k.content ∙ ap (λ c. s.content ++ c) (sym (append-nil k.added))) made,
        end,
      )

  -- If a readable file starts with the frame of a command and has been opened anew, so that its handle
  -- is not open yet, then an append that returns an address returns 0, where that first command is
  -- read and not the new one.
  pub append-reopened :
      (s : State) (old cmd : Cmd) (bin after : List ℕ) (a : Address)
      → s.no_read ≡ false
      → s.append_handle ≡ none
      → s.content ≡ bin ++ after
      → frame libs old ≡ ok bin
      → (append libs cmd s).0 ≡ ok a
      → (a ≡ 0)
        × (next_addr : Option Address) × (read_at libs a (append libs cmd s).1
            ≡ ok (old, next_addr))
  unfolding position
  append-reopened s old cmd bin after a readable closed holds made r =
      let (made', at, end) = Appended.done (append-Appended libs cmd s) a r in
      let first : a ≡ 0 = ground (arith, at, closed) in
      let (next_addr, e) = read_at-append s old cmd [] bin after readable holds made in
      (first, next_addr, ap (λ p. read_at libs p (append libs cmd s).1) first ∙ e)

  -- The appends of the commands, one after the other.
  unfoldable pub append_all : List Cmd → Exec State (List Address)
  append_all [] = pure []
  append_all (cmd ∷ cmds) = do
    address ← append libs cmd
    addresses ← append_all cmds
    pure (address ∷ addresses)

  -- What the stream is to yield.
  unfoldable pub pairs : List Cmd → List Address → List (Outcome (Cmd × Address))
  pairs [] addresses = []
  pairs (cmd ∷ cmds) [] = []
  pairs (cmd ∷ cmds) (a ∷ addresses) = ok (cmd, a) ∷ pairs cmds addresses

  -- The commands of a stretch of the file, with their frames.
  abbrev Layout : Type 0
  Layout = List (Cmd × List ℕ)

  abbrev AreFrames : Layout → Type 0
  AreFrames [] = Unit
  AreFrames ((cmd, bin) ∷ layout) = (frame libs cmd ≡ ok bin) × AreFrames layout

  abbrev text : Layout → List ℕ
  text [] = []
  text ((cmd, bin) ∷ layout) = bin ++ text layout

  -- The items of a stretch that starts at this address.
  abbrev yields : ℕ → Layout → List (Outcome (Cmd × Address))
  yields from [] = []
  yields from ((cmd, bin) ∷ layout) = ok (cmd, from) ∷ yields (from + length bin) layout

  record AllAppended (cmds : List Cmd) (s : State) (addresses : List Address) (s' : State)
      : Type 0 where
    layout : Layout
    frames : AreFrames layout
    content : s'.content ≡ s.content ++ text layout
    same : pairs cmds addresses ≡ yields (length s.content) layout
    count : length layout ≡ length cmds
    readable : s'.no_read ≡ s.no_read

  append_all-AllAppended :
      (cmds : List Cmd) (s : State) (addresses : List Address)
      → position s ≡ length s.content
      → (append_all cmds s).0 ≡ ok addresses
      → AllAppended cmds s addresses (append_all cmds s).1
  unfolding append_all pairs
  append_all-AllAppended [] s addresses stands r = record {
    layout = [];
    frames = tt;
    content = sym (append-nil s.content);
    same = refl;
    count = refl;
    readable = refl;
  }
  append_all-AllAppended (cmd ∷ cmds) s addresses stands r =
      elim (Outcome-cases (append libs cmd s).0) [
        | inr (inl (e, failed)) ↦ absurd (cc (rw failed at r))
        | inr (inr failed) ↦ absurd (cc (rw failed at r))
        | inl (a, first) ↦
            let k = append-Appended libs cmd s in
            let (made, at, end) = k.done a first in
            elim (Outcome-cases (append_all cmds (append libs cmd s).1).0) [
              | inr (inl (e, failed)) ↦ absurd (cc (rw (first, failed) at r))
              | inr (inr failed) ↦ absurd (cc (rw (first, failed) at r))
              | inl (rest, second) ↦
                  let h = append_all-AllAppended cmds (append libs cmd s).1 rest end second in
                  let given : addresses ≡ a ∷ rest = ground (arith, r, first, second) in
                  let final : (append_all (cmd ∷ cmds) s).1
                      ≡ (append_all cmds (append libs cmd s).1).1 =
                    rw (append_all, first, second) in
                  let long : length (append libs cmd s).1.content
                      ≡ length s.content + length k.added =
                    ap length k.content ∙ length-append s.content k.added in
                  record {
                    layout = (cmd, k.added) ∷ h.layout;
                    frames = (made, h.frames);
                    content =
                        ap (λ x. x.content) final
                        ∙ h.content
                        ∙ ap (λ c. c ++ text h.layout) k.content
                        ∙ append_assoc s.content k.added (text h.layout);
                    same =
                        ap (pairs (cmd ∷ cmds)) given
                        ∙ ap (λ p. ok (cmd, p) ∷ pairs cmds rest) (at ∙ stands)
                        ∙ ap (λ l. ok (cmd, length s.content) ∷ l)
                            (h.same ∙ ap (λ p. yields p h.layout) long);
                    count = ap suc h.count;
                    readable = ap (λ x. x.no_read) final ∙ h.readable ∙ k.readable;
                  }
            ]
      ]

  items-layout :
      (s : State) (layout : Layout) (before : List ℕ) (cmd : Cmd) (bin : List ℕ)
      → s.no_read ≡ false
      → s.content ≡ before ++ (bin ++ text layout)
      → AreFrames ((cmd, bin) ∷ layout)
      → items (create libs) (suc (suc (length layout))) s (some (length before))
        ≡ some (yields (length before) ((cmd, bin) ∷ layout))
  items-layout s [] before cmd bin readable holds made =
      items-last (create libs) 0 s (length before) cmd
        (read_at-frame libs s cmd before bin [] readable holds made.0)
  items-layout s ((cmd', bin') ∷ layout) before cmd bin readable holds made =
      let long : (length (bin' ++ text layout) == 0) ≡ false =
        ground (arith, frame-length libs cmd' bin' made.1.0, length-append bin' (text layout)) in
      let rest =
        items-layout s layout (before ++ bin) cmd' bin' readable
          (holds ∙ sym (append_assoc before bin (bin' ++ text layout))) made.1 in
      items-more (create libs) (suc (suc (length layout))) s (length before)
        (length before + length bin) cmd _
        (read_at-frame libs s cmd before bin (bin' ++ text layout) readable holds made.0 ∙ rw long)
        (rw (length-append before bin) at rest)

  -- A file that holds nothing else.
  items-whole :
      (s : State) (layout : Layout) (n : ℕ)
      → s.no_read ≡ false
      → s.content ≡ text layout
      → AreFrames layout
      → length layout ≡ suc n
      → items (create libs) (n + 2) s (start (create libs)) ≡ some (yields 0 layout)
  items-whole s [] n readable holds frames count = absurd (omega arith)
  items-whole s ((cmd, bin) ∷ layout) n readable holds frames count =
      let fuel : n + 2 ≡ suc (suc (length layout)) = omega arith in
      ap (λ k. items (create libs) k s (some 0)) fuel
      ∙ items-layout s layout [] cmd bin readable holds frames

  -- Append at least one command to an empty and readable file whose handle stands at its start. If all
  -- appends return addresses, the stream of a replay yields the commands in their order, each with the
  -- address that its append returned, and then ends.
  pub items-append_all :
      (s : State) (cmd : Cmd) (cmds : List Cmd) (addresses : List Address)
      → s.no_read ≡ false
      → s.content ≡ []
      → position s ≡ 0
      → (append_all (cmd ∷ cmds) s).0 ≡ ok addresses
      → items (create libs) (length cmds + 2) (append_all (cmd ∷ cmds) s).1 (start (create libs))
        ≡ some (pairs (cmd ∷ cmds) addresses)
  items-append_all s cmd cmds addresses readable empty stands r =
      let none_yet : length s.content ≡ 0 = ap length empty in
      let h = append_all-AllAppended (cmd ∷ cmds) s addresses (stands ∙ sym none_yet) r in
      items-whole (append_all (cmd ∷ cmds) s).1 h.layout (length cmds) (h.readable ∙ readable)
        (h.content ∙ ap (λ c. c ++ text h.layout) empty) h.frames h.count
      ∙ ap some (ap (λ p. yields p h.layout) (sym none_yet) ∙ sym h.same)
