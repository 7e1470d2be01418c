-- ===== src/Script/Listing.antt =====
-- cmdscript.rs: the loop of `Iterate` and `ViewIterate` prints the map of a tree.
use mathlib.Core.Path.{subst}
use block_rust.Base.{
  ℕ, zero, suc, Bool, ◌≤◌, ◌≡◌, refl, ap, true, false, Option, none, some, List, [], ◌∷◌, arith,
  length, Outcome, ok, err, panic, Option-cases, inl, inr,
}
use block_rust.Base.Exec.{Exec, pure, lift, require, ◌>>=◌, ◌>>◌}
use block_rust.Base.Ord.{bytes_ord}
use block_rust.OrdMap.{get}
use block_rust.Types.{Key, Address, Commit}
use block_rust.Command.{Command}
use block_rust.CommitLog.{CommitCommand}
use block_rust.LogFile.{LogFile}
use block_rust.Index.Defs.{IndexState, key_true_value}
use block_rust.Index.Cursor
use block_rust.Index.Cursor.{Cursor}
use block_rust.Index.Cursor.Listing.{collect, IsListed}
use block_rust.Tree.Ops
use block_rust.Tree.Ops.{Tree}
use block_rust.Tree.Reachable.{Reachable}
use block_rust.Tree.Lists.{collect-key_true_value}
use block_rust.Db
use block_rust.Db.{Db, Name}
use block_rust.Imp
use block_rust.Imp.Cursors
use block_rust.Script.Run.{Session, print, show_rest, show_tree}

-- A listing goes on from a valid entry.
collect-more :
    (fuel : ℕ) (state : IndexState) (c : Cursor) (entry : Key × Address)
    (entries : List (Key × Address))
    → c.current ≡ some entry
    → collect (suc fuel) state c ≡ some entries
    → (c' : Cursor) × (rest : List (Key × Address)) × (Cursor.next state c ≡ (ok tt, c'))
      × (collect fuel state c' ≡ some rest)
      × (entries ≡ entry ∷ rest)
unfolding collect
collect-more fuel state c entry entries e h =
    go (Cursor.next state c) refl (subst (λ o. follow o ≡ some entries) e h)
  where
    moved : Outcome (Unit {0}) × Cursor → Key × Address → Option (List (Key × Address))
    moved x first = elim x.0 [
      | ok u ↦ elim (collect fuel state x.1) [ none ↦ none | some rest ↦ some (first ∷ rest) ]
      | err e' ↦ none
      | panic ↦ none
    ]

    follow : Option (Key × Address) → Option (List (Key × Address))
    follow o = elim o [ none ↦ some [] | some first ↦ moved (Cursor.next state c) first ]

    go :
        (x : Outcome (Unit {0}) × Cursor)
        → Cursor.next state c ≡ x
        → moved x entry ≡ some entries
        → (c' : Cursor) × (rest : List (Key × Address)) × (Cursor.next state c ≡ (ok tt, c'))
          × (collect fuel state c' ≡ some rest)
          × (entries ≡ entry ∷ rest)
    go (err e', c') q k = absurd (cc)
    go (panic, c') q k = absurd (cc)
    go (ok u, c') q k = elim (Option-cases (collect fuel state c')) [
      | inl stop ↦ absurd (ground (arith, k, stop))
      | inr (rest, on) ↦ (c', rest, q, on, ground (arith, k, on))
    ]

module _ (c : Cursor) (key : Key) (address : Address) (e : c.current ≡ some (key, address)) where
  valid_at : Cursors.valid c ≡ true
  unfolding Cursors.valid
  valid_at = rw e

  key_at : Cursors.key c ≡ ok key
  unfolding Cursors.key
  key_at = rw e

  value_at :
      (f : LogFile Command) (t : Tree f)
      → Cursors.value f t c ≡ Ops.read_address f key address t.log
  unfolding Cursors.value Ops.cursor_value
  value_at f t = rw e

module _ (f : LogFile Command) (g : LogFile CommitCommand) (is_utf8 : List ℕ → Bool) where
  -- Prints entries, each with the value that the log has at its address.
  unfoldable pub show_all : Tree f → List (Key × Address) → Exec (Session f g is_utf8) (Unit {0})
  show_all t [] = pure tt
  show_all t ((key, address) ∷ entries) = do
    require (is_utf8 key)
    value ← lift (Ops.read_address f key address t.log)
    require (is_utf8 value)
    print f g is_utf8 (key, some value)
    show_all t entries

  -- A cursor that can be listed is printed, entry by entry.
  show_rest-show_all :
      (fuel : ℕ) (t : Tree f) (c : Cursor) (entries : List (Key × Address))
      → collect fuel t.index.state c ≡ some entries
      → show_rest f g is_utf8 fuel t c ≡ show_all t entries
  unfolding show_rest show_all
  show_rest-show_all zero t c entries h = absurd (unfold collect in cc)
  show_rest-show_all (suc fuel) t c entries h = elim (Option-cases c.current) [
    | inl e ↦
        let none_left : entries ≡ [] = unfold collect in ground (arith, h, e) in
        let over : Cursors.valid c ≡ false = unfold Cursors.valid in rw e in
        rw (over, show_rest, none_left)
    | inr ((key, address), e) ↦
        let (c', rest, moved, on, all) =
          collect-more fuel t.index.state c (key, address) entries e h in
        let rec = show_rest-show_all fuel t c' rest on in
        let more : Cursors.valid c ≡ true = valid_at c key address e in
        let at : Cursors.key c ≡ ok key = key_at c key address e in
        let read : Cursors.value f t c ≡ Ops.read_address f key address t.log =
          value_at c key address e f t in
        let next : Cursors.next f t c ≡ (ok tt, c') = unfold Cursors.next in moved in
        rw (more, show_rest, all) (rw (at, read, next, rec))
  ]

  opened :
      (db : Db f g) (view : Commit) (tree : Name) (t : Tree f)
      → get tree db.trees ≡ some t
      → t.initialized ≡ true
      → view ≤ t.index.maybe_next_commit
      → Imp.cursor f g db view tree ≡ ok (record { commit_limit = view; current = none })
  unfolding Imp.cursor Db.cursor Cursor.cursor
  opened db view tree t found ready below = ground (arith, found, ready, below)

  -- Take a tree of the database that is initialised, whose index is one that commits build, and a view
  -- whose limit the index has reached. Iterating over the tree comes to an end: it prints a list of
  -- entries in strictly ascending order of the keys, each with the value that the log has at its
  -- address, and these are just the keys that have a value at the view's limit, with their addresses.
  -- It stops early only where the log fails to give a value, or a key or a value is not UTF-8.
  pub show_tree-show_all :
      (s : Session f g is_utf8) (view : Commit) (tree : Name) (t : Tree f)
      → get tree s.db.trees ≡ some t
      → t.initialized ≡ true
      → Reachable t.index
      → view ≤ t.index.maybe_next_commit
      → (entries : List (Key × Address)) × IsListed entries
        × ((k : Key) → get k entries ≡ key_true_value t.index.state view k)
        × (show_tree f g is_utf8 view tree s ≡ show_all t entries s)
  unfolding show_tree Cursors.seek_first
  show_tree-show_all s view tree t found ready built below =
      let c : Cursor = record { commit_limit = view; current = none } in
      let (entries, listed, order, same) = collect-key_true_value built c in
      (
        entries,
        order,
        same,
        rw (opened s.db view tree t found ready below, found)
            (ap (λ m. m s)
              (show_rest-show_all (suc (length t.index.state.keymap)) t
                (Cursor.seek_first t.index.state c) entries listed)),
      )
