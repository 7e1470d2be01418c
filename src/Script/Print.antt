-- ===== src/Script/Print.antt =====
-- cmdscript.rs: scripts as words, which the parser reads back.
use block_rust.Base.{
  bytes, ℕ, zero, suc, ◌≤◌, ◌<◌, ◌≡◌, refl, ◌∙◌, ap, false, Option, none, some, List, [], ◌∷◌, ◌++◌,
  arith, length, length-append, ok, All,
}
use block_rust.Base.Ord.{bytes_eq}
use mathlib.Core.List.{append_assoc, append-nil}
use block_rust.Script.{Word, Command, keyword}
use block_rust.Script.Parse.{parse_loop, parse_fields, non_empty, parse_commands, with_path}

-- The words of a command, and those of an expected value.
unfoldable pub expected_word : Option Word → Word
expected_word none = bytes "<none>"
expected_word (some w) = w

unfoldable pub print : Command → List Word
unfolding expected_word
print (Command.write a b c) = bytes "write" ∷ a ∷ b ∷ c ∷ []
print (Command.delete a b) = bytes "delete" ∷ a ∷ b ∷ []
print (Command.delete_range a b c) = bytes "delete-range" ∷ a ∷ b ∷ c ∷ []
print (Command.read a b) = bytes "read" ∷ a ∷ b ∷ []
print (Command.read_assert a b c) = bytes "read-assert" ∷ a ∷ b ∷ expected_word c ∷ []
print (Command.iterate a) = bytes "iterate" ∷ a ∷ []
print (Command.batch_open a) = bytes "batch-open" ∷ a ∷ []
print (Command.batch_write a b c d) = bytes "batch-write" ∷ a ∷ b ∷ c ∷ d ∷ []
print (Command.batch_delete a b c) = bytes "batch-delete" ∷ a ∷ b ∷ c ∷ []
print (Command.batch_delete_range a b c d) = bytes "batch-delete-range" ∷ a ∷ b ∷ c ∷ d ∷ []
print (Command.batch_push_save_point a) = bytes "batch-push-save-point" ∷ a ∷ []
print (Command.batch_pop_save_point a) = bytes "batch-pop-save-point" ∷ a ∷ []
print (Command.batch_rollback_save_point a) = bytes "batch-rollback-save-point" ∷ a ∷ []
print (Command.batch_commit a) = bytes "batch-commit" ∷ a ∷ []
print (Command.batch_abort a) = bytes "batch-abort" ∷ a ∷ []
print (Command.batch_close a) = bytes "batch-close" ∷ a ∷ []
print (Command.view_open a) = bytes "view-open" ∷ a ∷ []
print (Command.view_read a b c) = bytes "view-read" ∷ a ∷ b ∷ c ∷ []
print (Command.view_iterate a b) = bytes "view-iterate" ∷ a ∷ b ∷ []
print (Command.view_close a) = bytes "view-close" ∷ a ∷ []

-- An expected value that is not read as the word for none.
abbrev pub IsExpected : Command → Type 0
IsExpected (Command.read_assert tree key (some w)) = bytes_eq w (bytes "<none>") ≡ false
IsExpected _ = Unit

-- One round of the loop reads one command.
parse_loop-print :
    (fuel : ℕ) (done : List Command) (cmd : Command) (rest : List Word)
    → IsExpected cmd
    → parse_loop (suc fuel) done (print cmd ++ rest) ≡ parse_loop fuel (done ++ cmd ∷ []) rest
unfolding parse_loop keyword parse_fields print
parse_loop-print fuel done (Command.read_assert a b none) rest h = refl
parse_loop-print fuel done (Command.read_assert a b (some w)) rest h = rw h
parse_loop-print fuel done (Command.write a b c) rest h = refl
parse_loop-print fuel done (Command.delete a b) rest h = refl
parse_loop-print fuel done (Command.delete_range a b c) rest h = refl
parse_loop-print fuel done (Command.read a b) rest h = refl
parse_loop-print fuel done (Command.iterate a) rest h = refl
parse_loop-print fuel done (Command.batch_open a) rest h = refl
parse_loop-print fuel done (Command.batch_write a b c d) rest h = refl
parse_loop-print fuel done (Command.batch_delete a b c) rest h = refl
parse_loop-print fuel done (Command.batch_delete_range a b c d) rest h = refl
parse_loop-print fuel done (Command.batch_push_save_point a) rest h = refl
parse_loop-print fuel done (Command.batch_pop_save_point a) rest h = refl
parse_loop-print fuel done (Command.batch_rollback_save_point a) rest h = refl
parse_loop-print fuel done (Command.batch_commit a) rest h = refl
parse_loop-print fuel done (Command.batch_abort a) rest h = refl
parse_loop-print fuel done (Command.batch_close a) rest h = refl
parse_loop-print fuel done (Command.view_open a) rest h = refl
parse_loop-print fuel done (Command.view_read a b c) rest h = refl
parse_loop-print fuel done (Command.view_iterate a b) rest h = refl
parse_loop-print fuel done (Command.view_close a) rest h = refl

-- A script, with the separator behind each command.
unfoldable pub print_all : List Command → List Word
print_all [] = []
print_all (cmd ∷ cmds) = print cmd ++ (bytes "/" ∷ print_all cmds)

parse_loop-separator :
    (fuel : ℕ) (done : List Command) (rest : List Word)
    → parse_loop (suc fuel) done (bytes "/" ∷ rest) ≡ parse_loop fuel done rest
unfolding parse_loop keyword parse_fields
parse_loop-separator fuel done rest = refl

print-length : (cmd : Command) → 1 ≤ length (print cmd)
unfolding print
print-length (Command.write a b c) = omega arith
print-length (Command.delete a b) = omega arith
print-length (Command.delete_range a b c) = omega arith
print-length (Command.read a b) = omega arith
print-length (Command.read_assert a b c) = omega arith
print-length (Command.iterate a) = omega arith
print-length (Command.batch_open a) = omega arith
print-length (Command.batch_write a b c d) = omega arith
print-length (Command.batch_delete a b c) = omega arith
print-length (Command.batch_delete_range a b c d) = omega arith
print-length (Command.batch_push_save_point a) = omega arith
print-length (Command.batch_pop_save_point a) = omega arith
print-length (Command.batch_rollback_save_point a) = omega arith
print-length (Command.batch_commit a) = omega arith
print-length (Command.batch_abort a) = omega arith
print-length (Command.batch_close a) = omega arith
print-length (Command.view_open a) = omega arith
print-length (Command.view_read a b c) = omega arith
print-length (Command.view_iterate a b) = omega arith
print-length (Command.view_close a) = omega arith

parse_loop-print_all :
    (fuel : ℕ) (done cmds : List Command)
    → All IsExpected cmds
    → length (print_all cmds) < fuel
    → parse_loop fuel done (print_all cmds) ≡ some (ok (done ++ cmds))
unfolding print_all
parse_loop-print_all zero done cmds h enough = absurd (omega arith)
parse_loop-print_all (suc fuel) done [] h enough = unfold parse_loop in rw append-nil
parse_loop-print_all (suc zero) done (cmd ∷ cmds) h enough =
    absurd (omega (arith, length-append (print cmd) (bytes "/" ∷ print_all cmds), print-length cmd))
parse_loop-print_all (suc (suc fuel)) done (cmd ∷ cmds) h enough =
    parse_loop-print (suc fuel) done cmd (bytes "/" ∷ print_all cmds) h.0
    ∙ parse_loop-separator fuel (done ++ cmd ∷ []) (print_all cmds)
    ∙ parse_loop-print_all fuel (done ++ cmd ∷ []) cmds h.1
        (omega (arith, length-append (print cmd) (bytes "/" ∷ print_all cmds), print-length cmd))
    ∙ rw append_assoc

-- No word is empty.
abbrev pub IsWord : Word → Type 0
IsWord [] = ⊥
IsWord (x ∷ w) = Unit

non_empty-All : (words : List Word) → All IsWord words → non_empty words ≡ words
unfolding non_empty
non_empty-All [] h = refl
non_empty-All ([] ∷ words) h = absurd h.0
non_empty-All ((x ∷ w) ∷ words) h = ap (λ r. (x ∷ w) ∷ r) (non_empty-All words h.1)

-- Where the database is, and the script.
unfoldable pub script : Option Word → List Command → List Word
unfolding print_all
script none cmds = bytes "mem" ∷ print_all cmds
script (some path) cmds = bytes "path" ∷ path ∷ print_all cmds

parsed :
    (path : Option Word) (cmds : List Command)
    → All IsWord (print_all cmds)
    → All IsExpected cmds
    → with_path path
        (parse_loop (suc (length (non_empty (print_all cmds)))) [] (non_empty (print_all cmds)))
      ≡ some (ok (path, cmds))
parsed path cmds h e =
    ap (λ words. with_path path (parse_loop (suc (length words)) [] words))
      (non_empty-All (print_all cmds) h)
    ∙ ap (with_path path)
        (parse_loop-print_all (suc (length (print_all cmds))) [] cmds e (omega arith))

-- A script whose words are not empty, and that expects no value spelled `<none>`, is parsed into the
-- path and the commands that it was printed from.
pub parse_commands-script :
    (path : Option Word) (cmds : List Command)
    → All IsWord (script path cmds)
    → All IsExpected cmds
    → parse_commands (script path cmds) ≡ some (ok (path, cmds))
unfolding parse_commands script
parse_commands-script none cmds h e = parsed none cmds h.1 e
parse_commands-script (some []) cmds h e = absurd h.1.0
parse_commands-script (some (x ∷ path)) cmds h e = parsed (some (x ∷ path)) cmds h.1.1 e
