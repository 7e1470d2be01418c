-- ===== src/Frame/RoundTrip.antt =====
-- frame.rs: a frame is read back, with what stands behind it left.
use mathlib.Core.List.{append_assoc}
use block_rust.Base.{
  ℕ, ◌+◌, ◌^◌, ◌<◌, ◌≤◌, ◌≢◌, ◌≡◌, refl, ap, sym, ◌∙◌, inl, inr, Bool-cases, true, false, ltb,
  ltb→lt, List, [], ◌∷◌, ◌++◌, All, All-push, All-mono, arith, length, length-append, take,
  take-length, take-append, drop-append, lines, concat, concat-lines, newline, u64_mod, checked_add,
  ok, expect, returned,
}
use block_rust.Base.Ord.{bytes_eq}
use block_rust.Frame.{
  Toml, Libraries, IsPlain, header_marker, body_marker, framed, format, without_last, read_exact,
  frame, read_line, check_marker, read_header, read,
}

lines-line :
    (w text : List ℕ)
    → All (λ b. b ≢ newline) w
    → lines (w ++ newline ∷ text) ≡ (w ++ newline ∷ []) ∷ lines text
unfolding lines
lines-line [] text h = refl
lines-line (b ∷ w) text h = ground (arith, lines-line w text h.1, h.0)

without_last-line : (w : List ℕ) → without_last (w ++ newline ∷ []) ≡ ok w
unfolding without_last
without_last-line [] = refl
without_last-line (b ∷ []) = refl
without_last-line (b ∷ c ∷ w) = rw (without_last-line (c ∷ w))

-- No entry reads as the marker of the body, which is a comment.
plain-ne-marker : (w : List ℕ) → IsPlain w → bytes_eq w body_marker ≡ false
unfolding bytes_eq
plain-ne-marker [] h = refl
plain-ne-marker (b ∷ w) h = ground (arith, h.0)

take-length_append {ℓ} : {A : Type ℓ} (xs ys : List A) → take (length xs) (xs ++ ys) ≡ xs
take-length_append xs ys = take-append (length xs) xs ys (omega arith) ∙ take-length xs

read_exact-append :
    (xs ys : List ℕ) → length xs < 2 ^ 63 → read_exact (length xs) (xs ++ ys) ≡ ok (xs, ys)
unfolding read_exact
read_exact-append xs ys h =
    ground (arith, take-length_append xs ys, drop-append xs ys, length-append xs ys)

-- What stands behind the marker of the body.
abbrev tail : List ℕ → List ℕ
tail body = newline ∷ (body ++ newline ∷ newline ∷ newline ∷ [])

length-tail : (body : List ℕ) → length (tail body) ≡ length body + 4
length-tail body = omega (arith, length-append body (newline ∷ newline ∷ newline ∷ []))

-- A text that was formatted, with its lines.
frame_lines : List ℕ → List ℕ → List (List ℕ)
frame_lines entry behind =
    (header_marker ++ newline ∷ [])
    ∷ (newline ∷ [])
    ∷ (entry ++ newline ∷ [])
    ∷ (newline ∷ [])
    ∷ (body_marker ++ newline ∷ [])
    ∷ lines behind

framed-lines :
    (entry body rest : List ℕ)
    → IsPlain entry
    → lines (framed (entry ++ newline ∷ []) body ++ rest) ≡ frame_lines entry (tail body ++ rest)
unfolding framed frame_lines lines
framed-lines entry body rest plain =
    let marked = newline ∷ (body_marker ++ (newline ∷ tail body)) in
    ap (λ text. lines (header_marker ++ (newline ∷ newline ∷ text)))
      (append_assoc (entry ++ newline ∷ []) marked rest
        ∙ append_assoc entry (newline ∷ []) (marked ++ rest))
    ∙ ap (λ ls. (header_marker ++ newline ∷ []) ∷ (newline ∷ []) ∷ ls)
        (lines-line entry (marked ++ rest) (All-mono _ _ entry (λ b h. h.1) plain))

length-framed : (header body : List ℕ) → length body + 4 ≤ length (framed header body)
unfolding framed
length-framed header body = omega (
  arith,
  length-append header (newline ∷ (body_marker ++ (newline ∷ tail body))),
  length-tail body,
)

formatted :
    (header body bin : List ℕ)
    → format header body ≡ ok bin
    → (bin ≡ framed header body) × (length body + 4 < 2 ^ 63)
unfolding format
formatted header body bin h = elim (Bool-cases (ltb (length (framed header body)) (2 ^ 63))) [
  | inl fits ↦ (ground (arith, h), omega (arith, length-framed header body, ltb→lt _ _ fits))
  | inr large ↦ absurd (cc (rw large at h))
]

module _ {Cmd : Type 0} (libs : Libraries Cmd) where
  open libs use {is_utf8, is_utf8-ascii}

  -- A line of ASCII is read.
  utf8-line : (w : List ℕ) → All (λ b. b < 128) w → is_utf8 (w ++ newline ∷ []) ≡ true
  utf8-line w h = is_utf8-ascii (w ++ newline ∷ []) (All-push (λ b. b < 128) w (omega arith) h)

  module _ (header : List ℕ) (rest : List (List ℕ)) where
    read_header-entry :
        (entry : List ℕ)
        → IsPlain entry
        → read_header libs header ((entry ++ newline ∷ []) ∷ rest)
          ≡ read_header libs (header ++ (entry ++ newline ∷ [])) rest
    unfolding read_header
    read_header-entry entry plain = rw (
      utf8-line entry (All-mono _ _ entry (λ b h. h.0) plain),
      without_last-line entry,
      plain-ne-marker entry plain,
    )

    read_header-marker :
        read_header libs header ((body_marker ++ newline ∷ []) ∷ rest) ≡ ok (header, rest)
    unfolding read_header bytes_eq
    read_header-marker = rw (utf8-line body_marker (omega arith))

  read_header-frame :
      (entry : List ℕ) (rest : List (List ℕ))
      → IsPlain entry
      → read_header libs [] (
          (newline ∷ [])
          ∷ (entry ++ newline ∷ [])
          ∷ (newline ∷ [])
          ∷ (body_marker ++ newline ∷ [])
          ∷ rest)
        ≡ ok (newline ∷ ((entry ++ newline ∷ []) ++ newline ∷ []), rest)
  read_header-frame entry rest plain =
      read_header-entry [] _ [] tt
      ∙ read_header-entry (newline ∷ []) _ entry plain
      ∙ read_header-entry (newline ∷ (entry ++ newline ∷ [])) _ [] tt
      ∙ read_header-marker (newline ∷ ((entry ++ newline ∷ []) ++ newline ∷ [])) rest

  check_marker-frame : check_marker libs (header_marker ++ newline ∷ []) ≡ ok tt
  unfolding check_marker bytes_eq
  check_marker-frame = refl

  -- The text of a frame, whose header says the length of what stands behind the marker of the body.
  read-framed :
      (cmd : Cmd) (entry body rest : List ℕ)
      → IsPlain entry
      → length body + 4 < 2 ^ 63
      → Toml.to_string_pretty libs.body cmd ≡ ok body
      → Toml.to_string_pretty libs.header (record { length = length body + 4 })
        ≡ ok (entry ++ newline ∷ [])
      → read libs (framed (entry ++ newline ∷ []) body ++ rest) ≡ ok (cmd, rest)
  unfolding read read_line frame_lines
  read-framed cmd entry body rest plain small printed titled =
      let behind : concat (lines (tail body ++ rest)) ≡ tail body ++ rest =
        concat-lines (tail body ++ rest) in
      let exact : read_exact (length body + 4) (tail body ++ rest) ≡ ok (tail body, rest) =
        ap (λ n. read_exact n (tail body ++ rest)) (sym (length-tail body))
        ∙ read_exact-append (tail body) rest (omega (arith, length-tail body, small)) in
      rw (
        framed-lines entry body rest plain,
        utf8-line header_marker (omega arith),
        check_marker-frame,
        read_header-frame entry (lines (tail body ++ rest)) plain,
        (libs.header.round_trip _ _ titled).0,
        behind,
        exact,
        (libs.body.round_trip cmd body printed).1,
      )

  -- A frame that was made for a command is read as the command, whatever stands behind it, which is
  -- left to be read.
  pub read-frame :
      (cmd : Cmd) (bin rest : List ℕ)
      → frame libs cmd ≡ ok bin
      → read libs (bin ++ rest) ≡ ok (cmd, rest)
  unfolding frame
  read-frame cmd bin rest h =
      let (body, printed, h1) = returned _ (Toml.to_string_pretty libs.body cmd) h in
      let (n, counted, h2) = returned _ (expect (checked_add u64_mod (length body) 4)) h1 in
      let (header, titled, h3) =
        returned _ (Toml.to_string_pretty libs.header (record { length = n })) h2 in
      let (entry, plain, line) = libs.header_line (record { length = n }) header titled in
      let (text, small) = formatted header body bin h3 in
      let total : n ≡ length body + 4 = ground (arith, counted) in
      rw (text, line)
        (read-framed cmd entry body rest plain small printed (
          ap (λ k. Toml.to_string_pretty libs.header (record { length = k })) (sym total)
          ∙ titled
          ∙ ap ok line))

  pub frame-length : (cmd : Cmd) (bin : List ℕ) → frame libs cmd ≡ ok bin → 0 < length bin
  unfolding frame
  frame-length cmd bin h =
      let (body, printed, h1) = returned _ (Toml.to_string_pretty libs.body cmd) h in
      let (n, counted, h2) = returned _ (expect (checked_add u64_mod (length body) 4)) h1 in
      let (header, titled, h3) =
        returned _ (Toml.to_string_pretty libs.header (record { length = n })) h2 in
      let (text, small) = formatted header body bin h3 in
      omega (arith, ap length text, length-framed header body)
