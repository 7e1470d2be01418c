-- ===== src/Tests/Frames.antt =====
-- Frames and the log on disk, with commands that are bytes and headers in unary.
use block_rust.Base.{
  ℕ, zero, suc, ◌≡◌, refl, ap, true, false, ◌==◌, if◌then◌else◌, Option, none, some, List, [], ◌∷◌,
  ◌++◌, arith, newline, length, Outcome, ok, err, codec,
}
use block_rust.Types.{Address}
use block_rust.Log.{items, start}
use block_rust.FsThread.{State, open_append, write_all}
use block_rust.Frame
use block_rust.Frame.{Header, Toml, Libraries, IsPlain, framed, frame}
use block_rust.Frame.RoundTrip.{read-frame}
use block_rust.SimpleLogFile.{append, create}
use block_rust.SimpleLogFile.Reads.{read_at}
use block_rust.SimpleLogFile.Appends.{position}
use block_rust.SimpleLogFile.Replay.{
  append_all, pairs, read_at-append, append-read_at, append-reopened, items-append_all,
}

abbrev read_byte : List ℕ → Outcome ℕ
read_byte (b ∷ c ∷ text) = ok c
read_byte _ = err codec

byte_round_trip :
    (n : ℕ) (text : List ℕ)
    → ok (n ∷ []) ≡ ok text
    → (read_byte (newline ∷ (text ++ newline ∷ [])) ≡ ok n)
      × (read_byte (newline ∷ (text ++ newline ∷ newline ∷ newline ∷ [])) ≡ ok n)
byte_round_trip n text h = (ground (arith, h), ground (arith, h))

abbrev byte_toml : Toml ℕ
byte_toml = record {
  to_string_pretty = λ n. ok (n ∷ []);
  from_slice = read_byte;
  round_trip = byte_round_trip;
}

abbrev unary : ℕ → List ℕ
unary zero = []
unary (suc n) = b'x' ∷ unary n

abbrev count : List ℕ → ℕ
count [] = 0
count (b ∷ text) = let n = count text in if b == b'x' then suc n else 0

count-unary : (n : ℕ) (text : List ℕ) → count ((unary n ++ newline ∷ []) ++ newline ∷ text) ≡ n
count-unary zero text = refl
count-unary (suc n) text = ap suc (count-unary n text)

unary-IsPlain : (n : ℕ) → IsPlain (unary n)
unary-IsPlain zero = tt
unary-IsPlain (suc n) = ((omega arith, omega arith, omega arith), unary-IsPlain n)

abbrev read_header : List ℕ → Outcome Header
read_header [] = err codec
read_header (b ∷ text) = ok (record { length = count text })

header_round_trip :
    (h : Header) (text : List ℕ)
    → ok (unary h.length ++ newline ∷ []) ≡ ok text
    → (read_header (newline ∷ (text ++ newline ∷ [])) ≡ ok h)
      × (read_header (newline ∷ (text ++ newline ∷ newline ∷ newline ∷ [])) ≡ ok h)
header_round_trip h text e = (
  ground (arith, e, count-unary h.length []),
  ground (arith, e, count-unary h.length (newline ∷ newline ∷ [])),
)

header_line :
    (h : Header) (text : List ℕ)
    → ok (unary h.length ++ newline ∷ []) ≡ ok text
    → (entry : List ℕ) × IsPlain entry × (text ≡ entry ++ newline ∷ [])
header_line h text e = (unary h.length, unary-IsPlain h.length, ground (arith, e))

abbrev libraries : Libraries ℕ
libraries = record {
  body = byte_toml;
  header = record {
    to_string_pretty = λ h. ok (unary h.length ++ newline ∷ []);
    from_slice = read_header;
    round_trip = header_round_trip;
  };
  header_line = header_line;
  is_utf8 = λ text. true;
  is_utf8-ascii = λ text h. refl;
}

abbrev frame_three : List ℕ
frame_three = framed (unary 5 ++ newline ∷ []) (3 ∷ [])

framed_three : frame libraries 3 ≡ ok frame_three
unfolding frame
framed_three = refl

read-frame_example : Frame.read libraries (frame_three ++ 1 ∷ []) ≡ ok (3, 1 ∷ [])
read-frame_example = read-frame libraries 3 frame_three (1 ∷ []) framed_three

abbrev new_file : State
new_file = record {
  content = [];
  append_handle = none;
  writes = [];
  no_open = false;
  no_read = false;
  no_sync = false;
}

new-position : position new_file ≡ 0
unfolding position
new-position = refl

appended : (append libraries 3 new_file).0 ≡ ok 0
unfolding append open_append frame write_all
appended = refl

append-read_at_example :
    (◌≡◌ {A = Address} 0 (length new_file.content))
    × (read_at libraries 0 (append libraries 3 new_file).1 ≡ ok (3, none))
    × (position (append libraries 3 new_file).1 ≡ length (append libraries 3 new_file).1.content)
append-read_at_example = append-read_at libraries new_file 3 0 refl new-position appended

-- The file of an earlier session.
abbrev old_file : State
old_file = record new_file { content = frame_three ++ [] }

read_at-append_example :
    (next_addr : Option Address) × (read_at libraries 0 (append libraries 4 old_file).1
      ≡ ok (3, next_addr))
read_at-append_example =
    read_at-append libraries old_file 3 4 [] frame_three [] refl refl framed_three

reopened : (append libraries 4 old_file).0 ≡ ok 0
unfolding append open_append frame write_all
reopened = refl

append-reopened_example :
    (◌≡◌ {A = Address} 0 0)
    × (next_addr : Option Address) × (read_at libraries 0 (append libraries 4 old_file).1
        ≡ ok (3, next_addr))
append-reopened_example =
    append-reopened libraries old_file 3 4 frame_three [] 0 refl refl refl framed_three reopened

both : (append_all libraries (3 ∷ 4 ∷ []) new_file).0 ≡ ok (0 ∷ length frame_three ∷ [])
unfolding append_all append open_append frame write_all
both = refl

items-append_all_example :
    items
      (create libraries)
      3
      (append_all libraries (3 ∷ 4 ∷ []) new_file).1
      (start (create libraries))
    ≡ some (pairs libraries (3 ∷ 4 ∷ []) (0 ∷ length frame_three ∷ []))
items-append_all_example =
    items-append_all libraries new_file 3 (4 ∷ []) (0 ∷ length frame_three ∷ []) refl refl
      new-position both
