-- ===== src/Script/Total.antt =====
-- cmdscript.rs: the parser comes to an end on every input.
use block_rust.Base.{
  ℕ, zero, suc, ◌≤◌, ◌<◌, ◌≡◌, refl, Option, none, some, List, [], ◌∷◌, ◌++◌, arith, length,
  Outcome-cases, inl, inr, Outcome, ok, err, panic, Error,
}
use block_rust.Script.{Word, Command, Keyword, keyword}
use block_rust.Script.Parse.{
  Parser, ◌>>=◌, pure, fail, next_word, parse_expected_value, parse_fields, parse_loop, non_empty,
  parse_path, parse_commands, with_path,
}

-- What a parser leaves is no longer than what it got.
abbrev Shrinks : {A : Type 0} → Parser A → Type 0
Shrinks {A} p =
    (words : List Word) (a : A) (rest : List Word)
    → p words ≡ ok (a, rest)
    → length rest ≤ length words

next_word-Shrinks : (e : Error) → Shrinks (next_word e)
next_word-Shrinks e [] a rest h = ground arith
next_word-Shrinks e (w ∷ words) a rest h = ground arith

pure-Shrinks : {A : Type 0} (x : A) → Shrinks (pure x)
pure-Shrinks x words a rest h = ground arith

fail-Shrinks : {A : Type 0} (e : Error) → Shrinks (fail {A = A} e)
fail-Shrinks e words a rest h = ground arith

module _ {A B : Type 0} where
  bind-Shrinks :
      (p : Parser A) (f : A → Parser B) → Shrinks p → ((a : A) → Shrinks (f a)) → Shrinks (p >>= f)
  bind-Shrinks p f hp hf words b rest h = go (p words) refl h
    where
      go :
          (r : Outcome (A × List Word))
          → p words ≡ r
          → elim r [ ok (a, more) ↦ f a more | err e ↦ err e | panic ↦ panic ] ≡ ok (b, rest)
          → length rest ≤ length words
      go (ok (a, more)) e h = omega (arith, hp words a more e, hf a more b rest h)
      go (err e') e h = ground arith
      go panic e h = ground arith

-- A parser that begins with a word.
word-Shrinks :
    {B : Type 0} (e : Error) (f : Word → Parser B)
    → ((w : Word) → Shrinks (f w))
    → Shrinks (next_word e >>= f)
word-Shrinks e f h = bind-Shrinks (next_word e) f (next_word-Shrinks e) h

parse_fields-Shrinks : (k : Keyword) → Shrinks (parse_fields k)
unfolding parse_fields
parse_fields-Shrinks Keyword.separator = pure-Shrinks _
parse_fields-Shrinks Keyword.unknown = fail-Shrinks _
parse_fields-Shrinks Keyword.the_write =
    word-Shrinks _ _ (λ w. word-Shrinks _ _ (λ w. word-Shrinks _ _ (λ w. pure-Shrinks _)))
parse_fields-Shrinks Keyword.the_delete =
    word-Shrinks _ _ (λ w. word-Shrinks _ _ (λ w. pure-Shrinks _))
parse_fields-Shrinks Keyword.the_delete_range =
    word-Shrinks _ _ (λ w. word-Shrinks _ _ (λ w. word-Shrinks _ _ (λ w. pure-Shrinks _)))
parse_fields-Shrinks Keyword.the_read =
    word-Shrinks _ _ (λ w. word-Shrinks _ _ (λ w. pure-Shrinks _))
parse_fields-Shrinks Keyword.the_read_assert = word-Shrinks _ _ (λ w. word-Shrinks _ _ (λ w.
    bind-Shrinks parse_expected_value _ (word-Shrinks _ _ (λ s. pure-Shrinks _))
      (λ w. pure-Shrinks _)))
parse_fields-Shrinks Keyword.the_iterate = word-Shrinks _ _ (λ w. pure-Shrinks _)
parse_fields-Shrinks Keyword.the_batch_open = word-Shrinks _ _ (λ w. pure-Shrinks _)
parse_fields-Shrinks Keyword.the_batch_write =
    word-Shrinks _ _
      (λ w. word-Shrinks _ _ (λ w. word-Shrinks _ _ (λ w. word-Shrinks _ _ (λ w. pure-Shrinks _))))
parse_fields-Shrinks Keyword.the_batch_delete =
    word-Shrinks _ _ (λ w. word-Shrinks _ _ (λ w. word-Shrinks _ _ (λ w. pure-Shrinks _)))
parse_fields-Shrinks Keyword.the_batch_delete_range =
    word-Shrinks _ _
      (λ w. word-Shrinks _ _ (λ w. word-Shrinks _ _ (λ w. word-Shrinks _ _ (λ w. pure-Shrinks _))))
parse_fields-Shrinks Keyword.the_batch_push_save_point = word-Shrinks _ _ (λ w. pure-Shrinks _)
parse_fields-Shrinks Keyword.the_batch_pop_save_point = word-Shrinks _ _ (λ w. pure-Shrinks _)
parse_fields-Shrinks Keyword.the_batch_rollback_save_point = word-Shrinks _ _ (λ w. pure-Shrinks _)
parse_fields-Shrinks Keyword.the_batch_commit = word-Shrinks _ _ (λ w. pure-Shrinks _)
parse_fields-Shrinks Keyword.the_batch_abort = word-Shrinks _ _ (λ w. pure-Shrinks _)
parse_fields-Shrinks Keyword.the_batch_close = word-Shrinks _ _ (λ w. pure-Shrinks _)
parse_fields-Shrinks Keyword.the_view_open = word-Shrinks _ _ (λ w. pure-Shrinks _)
parse_fields-Shrinks Keyword.the_view_read =
    word-Shrinks _ _ (λ w. word-Shrinks _ _ (λ w. word-Shrinks _ _ (λ w. pure-Shrinks _)))
parse_fields-Shrinks Keyword.the_view_iterate =
    word-Shrinks _ _ (λ w. word-Shrinks _ _ (λ w. pure-Shrinks _))
parse_fields-Shrinks Keyword.the_view_close = word-Shrinks _ _ (λ w. pure-Shrinks _)

parse_loop-total :
    (fuel : ℕ) (done : List Command) (words : List Word)
    → length words < fuel
    → (r : Outcome (List Command)) × (parse_loop fuel done words ≡ some r)
unfolding parse_loop
parse_loop-total zero done words enough = absurd (omega arith)
parse_loop-total (suc fuel) done [] enough = (ok done, refl)
parse_loop-total (suc fuel) done (w ∷ words) enough =
    elim (Outcome-cases (parse_fields (keyword w) words)) [
      | inl ((none, rest), e) ↦
          rw (e, parse_loop)
            (parse_loop-total fuel done rest
              (omega (arith, parse_fields-Shrinks (keyword w) words none rest e)))
      | inl ((some cmd, rest), e) ↦
          rw (e, parse_loop)
            (parse_loop-total fuel (done ++ cmd ∷ []) rest
              (omega (arith, parse_fields-Shrinks (keyword w) words (some cmd) rest e)))
      | inr (inl (x, e)) ↦ rw (e, parse_loop) (err x, refl)
      | inr (inr e) ↦ rw (e, parse_loop) (panic, refl)
    ]

-- The parser comes to an end on all words: its fuel never runs out.
pub parse_commands-total :
    (args : List Word) → (r : Outcome (Option Word × List Command)) × (parse_commands args ≡ some r)
unfolding parse_commands
parse_commands-total args = elim (Outcome-cases (parse_path (non_empty args))) [
  | inl ((path, words), e) ↦
      let (r, l) = parse_loop-total (suc (length words)) [] words (omega arith) in
      rw (e, parse_commands) (rw l (finished path r))
  | inr (inl (x, e)) ↦ rw (e, parse_commands) (err x, refl)
  | inr (inr e) ↦ rw (e, parse_commands) (panic, refl)
]
  where
    finished :
        (path : Option Word) (r : Outcome (List Command))
        → (r' : Outcome (Option Word × List Command)) × (with_path path (some r) ≡ some r')
    finished path (ok commands) = (ok (path, commands), refl)
    finished path (err e) = (err e, refl)
    finished path panic = (panic, refl)
