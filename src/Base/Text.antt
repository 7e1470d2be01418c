-- ===== src/Base/Text.antt =====
-- The bytes of an ASCII literal, lines of bytes, and the rest behind a prefix.
use Prim.Native.Nat.{ℕ, zero, suc}
use Prim.Native.Char.{code}
use Prim.Native.String.{String}
use mathlib.Core.Path.{◌≡◌, refl}
use mathlib.Core.List.{List, [], ◌∷◌, ◌++◌}
use native.Mathlib.Omega.{arith}
use block_rust.Base.Tests.{if◌then◌else◌, ◌==◌}
use block_rust.Base.Lists.{length}

abbrev pub bytes : String → List ℕ
bytes String.[] = []
bytes (String.◌∷◌ c s) = code c ∷ bytes s

abbrev pub newline : ℕ
newline = 10

module _ {ℓ} {A : Type ℓ} where
  abbrev pub drop : ℕ → List A → List A
  drop zero xs = xs
  drop (suc n) [] = []
  drop (suc n) (x ∷ xs) = drop n xs

  pub drop-append : (xs ys : List A) → drop (length xs) (xs ++ ys) ≡ ys
  drop-append [] ys = refl
  drop-append (x ∷ xs) ys = drop-append xs ys

  abbrev pub concat : List (List A) → List A
  concat [] = []
  concat (xs ∷ xss) = xs ++ concat xss

-- A byte in front of lines.
abbrev pub push_byte : ℕ → List (List ℕ) → List (List ℕ)
push_byte b [] = (b ∷ []) ∷ []
push_byte b (l ∷ ls) = (b ∷ l) ∷ ls

-- The lines of a text, each with its newline; the last may have none.
unfoldable pub lines : List ℕ → List (List ℕ)
lines [] = []
lines (b ∷ text) =
    let rest = lines text in if b == newline then (b ∷ []) ∷ rest else push_byte b rest

concat-push_byte : (b : ℕ) (ls : List (List ℕ)) → concat (push_byte b ls) ≡ b ∷ concat ls
concat-push_byte b [] = refl
concat-push_byte b (l ∷ ls) = refl

pub concat-lines : (text : List ℕ) → concat (lines text) ≡ text
unfolding lines
concat-lines [] = refl
concat-lines (b ∷ text) = ground (arith, concat-lines text, concat-push_byte b (lines text))
