-- ===== src/Frame.antt =====
-- frame.rs: the frames of the log on disk. Texts are their bytes.
pub mod RoundTrip
use block_rust.Base.{
  ℕ, ◌+◌, ◌^◌, ◌<◌, ◌≢◌, ◌≡◌, Bool, true, ltb, leb, ◌&&◌, ◌==◌, if◌then◌else◌, List, [], ◌∷◌, ◌++◌,
  All, length, take, drop, lines, concat, bytes, newline, u64_mod, checked_add, Outcome, ok, err,
  panic, expect, ◌>>=◌, ◌>>◌, missing_header, incorrect_header, broken_header, io,
}
use block_rust.Base.Ord.{bytes_eq}

pub record Header : Type 0 where
  pub length : ℕ

-- `toml::to_string_pretty`, and `from_str` and `from_slice`, at one type: what is printed is read
-- back, also between empty lines.
pub record Toml (A : Type 0) : Type 0 where
  pub to_string_pretty : A → Outcome (List ℕ)
  pub from_slice : List ℕ → Outcome A
  pub round_trip :
      (a : A) (text : List ℕ)
      → to_string_pretty a ≡ ok text
      → (from_slice (newline ∷ (text ++ newline ∷ [])) ≡ ok a)
        × (from_slice (newline ∷ (text ++ newline ∷ newline ∷ newline ∷ [])) ≡ ok a)

-- The bytes of an entry of a number: ASCII, on one line, and no comment.
abbrev pub IsPlain : List ℕ → Type 0
IsPlain = All (λ b. (b < 128) × (b ≢ newline) × (b ≢ b'#'))

-- What frames use of other crates and of `std`. A header is printed as one line; ASCII is UTF-8.
pub record Libraries (Cmd : Type 0) : Type 0 where
  pub body : Toml Cmd
  pub header : Toml Header
  pub header_line :
      (h : Header) (text : List ℕ)
      → Toml.to_string_pretty header h ≡ ok text
      → (entry : List ℕ) × IsPlain entry × (text ≡ entry ++ newline ∷ [])
  pub is_utf8 : List ℕ → Bool
  pub is_utf8-ascii : (text : List ℕ) → All (λ b. b < 128) text → is_utf8 text ≡ true

abbrev pub header_marker : List ℕ
header_marker = bytes "[[frames]] # HEADER"

abbrev pub body_marker : List ℕ
body_marker = bytes "# BODY"

-- The text of `format!`.
unfoldable pub framed : List ℕ → List ℕ → List ℕ
framed header body =
    header_marker
    ++ (newline
        ∷ newline
        ∷ (header
            ++ (newline
                ∷ (body_marker
                    ++ (newline ∷ newline ∷ (body ++ newline ∷ newline ∷ newline ∷ []))))))

-- No `String` has more than `isize::MAX` bytes.
unfoldable pub format : List ℕ → List ℕ → Outcome (List ℕ)
unfolding framed
format header body =
    if ltb (length (framed header body)) (2 ^ 63) then ok (framed header body) else panic

-- `&line[..line.len() - 1]`, which panics inside of a character: on a continuation byte.
unfoldable pub without_last : List ℕ → Outcome (List ℕ)
without_last [] = panic
without_last (b ∷ []) = if leb 128 b && ltb b 192 then panic else ok []
without_last (b ∷ c ∷ line) = elim (without_last (c ∷ line)) [
  | ok rest ↦ ok (b ∷ rest)
  | err e ↦ err e
  | panic ↦ panic
]

-- `read_exact` into a new vector.
unfoldable pub read_exact : ℕ → List ℕ → Outcome (List ℕ × List ℕ)
read_exact n text =
    if ltb n (2 ^ 63)
    then (if leb n (length text) then ok (take n text, drop n text) else err io)
    else panic

module _ {Cmd : Type 0} (libs : Libraries Cmd) where
  open libs use {is_utf8}

  -- `write`, up to the call of `write_all` on the frame.
  unfoldable pub frame : Cmd → Outcome (List ℕ)
  unfolding format
  frame cmd = do
    body ← Toml.to_string_pretty libs.body cmd
    length ← expect (checked_add u64_mod (length body) 4)
    header ← Toml.to_string_pretty libs.header (record { length = length })
    format header body

  -- `read_line`, on the lines that are still to be read; behind the last line it reads nothing.
  unfoldable pub read_line : List (List ℕ) → Outcome (List ℕ × List (List ℕ))
  read_line [] = ok ([], [])
  read_line (line ∷ rest) = if is_utf8 line then ok (line, rest) else err io

  unfoldable pub check_marker : List ℕ → Outcome (Unit {0})
  unfolding without_last
  check_marker [] = err missing_header
  check_marker (b ∷ line) = do
    probable_header_marker ← without_last (b ∷ line)
    if bytes_eq probable_header_marker header_marker then ok tt else err incorrect_header

  -- The loop up to the body marker: the lines before it, and what stands behind it.
  unfoldable pub read_header : List ℕ → List (List ℕ) → Outcome (List ℕ × List (List ℕ))
  unfolding without_last
  read_header header [] = err broken_header
  read_header header (line ∷ rest) =
      let more = read_header (header ++ line) rest in
      if is_utf8 line
      then (without_last line >>= λ maybe_body_marker.
          if bytes_eq maybe_body_marker body_marker then ok (header, rest) else more)
      else err io

  -- `read`: the command, and the bytes that are left.
  unfoldable pub read : List ℕ → Outcome (Cmd × List ℕ)
  unfolding read_line check_marker read_header read_exact
  read text = do
    (probable_header, rest) ← read_line (lines text)
    check_marker probable_header
    (header, behind) ← read_header [] rest
    h ← Toml.from_slice libs.header header
    (buf, left) ← read_exact h.length (concat behind)
    cmd ← Toml.from_slice libs.body buf
    ok (cmd, left)
