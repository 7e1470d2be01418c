-- ===== src/SimpleLogFile/Appends.antt =====
-- simple_log_file.rs and fs_thread.rs: what an append leaves in the file, and reads of it.
use mathlib.Core.List.{append-nil}
use block_rust.Base.{
  ℕ, ◌+◌, ◌<◌, ◌≡◌, refl, sym, ap, ◌∙◌, inl, inr, Bool-cases, false, ltb, ◌==◌, if◌then◌else◌,
  Option, none, some, List, [], ◌∷◌, ◌++◌, arith, length, length-append, take, drop, drop-append,
  Outcome, ok, err, panic, io, Outcome-cases,
}
use block_rust.Base.Exec.{continue}
use block_rust.Types.{Address}
use block_rust.FsThread.{
  State, Write, whole, broken, open_handle, open_append, put, write_against, write_all, open_read,
}
use block_rust.Frame.{Libraries, frame}
use block_rust.Frame.RoundTrip.{read-frame, frame-length}
use block_rust.SimpleLogFile.{append}
use block_rust.SimpleLogFile.Reads.{read_at}

-- Where the handle stands, or will stand when it is opened.
unfoldable pub position : State → ℕ
position s = elim s.append_handle [ none ↦ 0 | some pos ↦ pos ]

-- A call of `write_all` puts some bytes behind the end of the file, and all if it succeeds.
record Wrote (text : List ℕ) (s : State) (x : Outcome (Unit {0}) × State) : Type 0 where
  added : List ℕ
  content : x.1.content ≡ s.content ++ added
  all : x.0 ≡ ok tt → (added ≡ text) × (0 < length text → position x.1 ≡ length x.1.content)
  readable : x.1.no_read ≡ s.no_read

module _ (s : State) (writes : List Write) where
  put-Wrote :
      (text added : List ℕ) (r : Outcome (Unit {0}))
      → (r ≡ ok tt → added ≡ text)
      → Wrote text s (r, put added (record s { writes = writes }))
  unfolding put position
  put-Wrote text [] r h = record {
    added = [];
    content = sym (append-nil s.content);
    all = λ e. (h e, λ k. absurd (omega (arith, ap length (h e))));
    readable = refl;
  }
  put-Wrote text (b ∷ added) r h = record {
    added = b ∷ added;
    content = refl;
    all = λ e. (h e, λ k. refl);
    readable = refl;
  }

write_all-Wrote : (text : List ℕ) (s : State) → Wrote text s (write_all text s)
unfolding write_all
write_all-Wrote text s = go s.writes
  where
    go : (writes : List Write) → Wrote text s (write_against writes text s)
    go [] = put-Wrote s [] text text (ok tt) (λ e. refl)
    go (whole ∷ writes) = put-Wrote s writes text text (ok tt) (λ e. refl)
    go (broken n ∷ writes) = elim (Bool-cases (ltb n (length text))) [
      | inl cut ↦ rw cut (put-Wrote s writes text (take n text) (err io) (λ e. cc))
      | inr past ↦ rw past (put-Wrote s writes text text (ok tt) (λ e. refl))
    ]

-- The handle is opened with the file as it is.
record Opened (s : State) (x : Outcome ℕ × State) : Type 0 where
  content : x.1.content ≡ s.content
  at : (pos : ℕ) → x.0 ≡ ok pos → pos ≡ position s
  readable : x.1.no_read ≡ s.no_read

open_append-Opened : (s : State) → Opened s (open_append s)
unfolding open_append position
open_append-Opened s = go s.append_handle refl
  where
    go : (h : Option ℕ) → s.append_handle ≡ h → Opened s (open_handle h s)
    go (some pos) e = record {
      content = refl;
      at = λ p q. rw e (ground (arith, q));
      readable = refl;
    }
    go none e = elim (Bool-cases s.no_open) [
      | inl off ↦ rw off (record { content = refl; at = λ p q. cc; readable = refl })
      | inr on ↦
          rw on (record { content = refl; at = λ p q. rw e (ground (arith, q)); readable = refl })
    ]

module _ {Cmd : Type 0} (libs : Libraries Cmd) where
  -- An append adds some bytes behind the end of the file; if it returns an address, these are the
  -- frame, and the handle stood at the address and stands at the end.
  pub record Appended (cmd : Cmd) (s : State) (x : Outcome Address × State) : Type 0 where
    pub added : List ℕ
    pub content : x.1.content ≡ s.content ++ added
    pub readable : x.1.no_read ≡ s.no_read
    pub done :
        (a : Address)
        → x.0 ≡ ok a
        → (frame libs cmd ≡ ok added) × (a ≡ position s) × (position x.1 ≡ length x.1.content)

  Wrote-Appended :
      (cmd : Cmd) (s s1 : State) (pos : ℕ) (text : List ℕ) (x : Outcome (Unit {0}) × State)
      → s1.content ≡ s.content
      → s1.no_read ≡ s.no_read
      → pos ≡ position s
      → frame libs cmd ≡ ok text
      → Wrote text s1 x
      → Appended cmd s (continue x.0 (λ u s'. (ok pos, s')) x.1)
  Wrote-Appended cmd s s1 pos text (ok tt, s2) same readable stood made w = record {
    added = w.added;
    content = w.content ∙ ap (λ c. c ++ w.added) same;
    readable = w.readable ∙ readable;
    done = λ a e. (
      made ∙ ap ok (sym (w.all refl).0),
      ground (arith, e, stood),
      (w.all refl).1 (frame-length libs cmd text made),
    );
  }
  Wrote-Appended cmd s s1 pos text (err e, s2) same readable stood made w = record {
    added = w.added;
    content = w.content ∙ ap (λ c. c ++ w.added) same;
    readable = w.readable ∙ readable;
    done = λ a e. cc;
  }
  Wrote-Appended cmd s s1 pos text (panic, s2) same readable stood made w = record {
    added = w.added;
    content = w.content ∙ ap (λ c. c ++ w.added) same;
    readable = w.readable ∙ readable;
    done = λ a e. cc;
  }

  -- Nothing was written.
  unwritten :
      (cmd : Cmd) (s s1 : State) (r : Outcome Address)
      → s1.content ≡ s.content
      → s1.no_read ≡ s.no_read
      → ((a : Address) → r ≡ ok a → ⊥)
      → Appended cmd s (r, s1)
  unwritten cmd s s1 r same readable fails = record {
    added = [];
    content = same ∙ sym (append-nil s.content);
    readable = readable;
    done = λ a e. absurd (fails a e);
  }

  Opened-Appended :
      (cmd : Cmd) (s : State) (x : Outcome ℕ × State)
      → Opened s x
      → Appended cmd s (
          continue x.0
            (λ pos s1.
              continue
                (frame libs cmd)
                (λ text s2. let (r, s3) = write_all text s2 in continue r (λ u s4. (ok pos, s4)) s3)
                s1)
            x.1)
  Opened-Appended cmd s (ok pos, s1) o = elim (Outcome-cases (frame libs cmd)) [
    | inl (text, made) ↦ rw made (
        Wrote-Appended cmd s s1 pos text (write_all text s1) o.content o.readable (o.at pos refl)
          made (write_all-Wrote text s1))
    | inr (inl (e, failed)) ↦
        rw failed (unwritten cmd s s1 (err e) o.content o.readable (λ a q. cc))
    | inr (inr failed) ↦ rw failed (unwritten cmd s s1 panic o.content o.readable (λ a q. cc))
  ]
  Opened-Appended cmd s (err e, s1) o = unwritten cmd s s1 (err e) o.content o.readable (λ a q. cc)
  Opened-Appended cmd s (panic, s1) o = unwritten cmd s s1 panic o.content o.readable (λ a q. cc)

  pub append-Appended : (cmd : Cmd) (s : State) → Appended cmd s (append libs cmd s)
  unfolding append
  append-Appended cmd s = Opened-Appended cmd s (open_append s) (open_append-Opened s)

  -- A frame is read at its address, with the address behind it unless the file ends there.
  pub read_at-frame :
      (s : State) (cmd : Cmd) (before bin after : List ℕ)
      → s.no_read ≡ false
      → s.content ≡ before ++ (bin ++ after)
      → frame libs cmd ≡ ok bin
      → read_at libs (length before) s
        ≡ ok (cmd, if length after == 0 then none else some (length before + length bin))
  unfolding read_at open_read
  read_at-frame s cmd before bin after readable holds made =
      let at : drop (length before) s.content ≡ bin ++ after =
        ap (drop (length before)) holds ∙ drop-append before (bin ++ after) in
      rw (readable, at, read-frame libs cmd bin after made)
        (ground
          (arith, ap length holds, length-append before (bin ++ after), length-append bin after))
