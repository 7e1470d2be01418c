-- ===== src/Index/Cursor/Listing.antt =====
-- index.rs: a cursor that starts at the first entry and goes on lists the map below its limit.
use mathlib.Core.List.{append_assoc}
use block_rust.Base.{
  ℕ, zero, suc, ◌<◌, ◌≡◌, refl, sym, ◌∙◌, ap, true, Option, none, some, List, [], ◌∷◌, ◌++◌, arith,
  length, Option-cases, inl, inr, ok, err, panic,
}
use block_rust.Base.Ord.{bytes_ord}
use block_rust.OrdMap.{OrdMap, get}
use block_rust.Types.{Key, Address, Commit}
use block_rust.Index.Defs.{Node, IndexState, key_true_value, point_query, inner_true_value}
use block_rust.Index.Links.Splice.{
  AllAbove, IsAscending, Linked, not_below, not_equal, not_equal_sym,
}
use block_rust.Index.Cursor.{
  Cursor, first_within_commit_limit, value_within_commit_limit, next, seek_first,
}
use block_rust.Index.Cursor.Pointers.{above, above-AllAbove, next-first_within}

-- `while cursor.valid() { …; cursor.next(); }` collects the entries; `none` means that the fuel ran
-- out or that a call panicked.
unfoldable pub collect : ℕ → IndexState → Cursor → Option (List (Key × Address))
collect zero state c = none
collect (suc fuel) state c = elim c.current [
  | none ↦ some []
  | some entry ↦
      let (r, c') = next state c in
      elim r [
        | ok u ↦ elim (collect fuel state c') [ none ↦ none | some rest ↦ some (entry ∷ rest) ]
        | err e ↦ none
        | panic ↦ none
      ]
]

-- The live entries of the map.
unfoldable pub live_entries : IndexState → Commit → OrdMap Key Node → OrdMap Key Address
live_entries state limit [] = []
live_entries state limit ((k, node) ∷ m) = elim (value_within_commit_limit state limit node) [
  | some addr ↦ (k, addr) ∷ live_entries state limit m
  | none ↦ live_entries state limit m
]

abbrev at : Cursor → Option (Key × Address) → Cursor
at c x = record c { current = x }

AllAbove-append :
    (j k : Key) (node : Node) (before m : OrdMap Key Node)
    → AllAbove j (before ++ (k, node) ∷ m)
    → bytes_ord.lt j k ≡ true
AllAbove-append j k node [] m a = a.0
AllAbove-append j k node ((i, w) ∷ before) m a = AllAbove-append j k node before m a.1

above-append :
    (before : OrdMap Key Node) (k : Key) (node : Node) (m : OrdMap Key Node)
    → IsAscending (before ++ (k, node) ∷ m)
    → above k (before ++ (k, node) ∷ m) ≡ m
unfolding above
above-append [] k node m a = ground (arith, bytes_ord.lt_irrefl k, above-AllAbove k m a.0)
above-append ((j, w) ∷ before) k node m a =
    rw (not_below j k (AllAbove-append j k node before m a.0)) (above-append before k node m a.1)

get-append :
    (before : OrdMap Key Node) (k : Key) (node : Node) (m : OrdMap Key Node)
    → IsAscending (before ++ (k, node) ∷ m)
    → get k (before ++ (k, node) ∷ m) ≡ some node
unfolding get
get-append [] k node m a = ground (arith, bytes_ord.eq_iff k k)
get-append ((j, w) ∷ before) k node m a =
    rw (not_equal j k (AllAbove-append j k node before m a.0)) (get-append before k node m a.1)

module _ (state : IndexState) (l : Linked none state.keymap) (a : IsAscending state.keymap) where
  next-append :
      (c : Cursor) (before : OrdMap Key Node) (k : Key) (node : Node) (m : OrdMap Key Node)
      (addr : Address)
      → state.keymap ≡ before ++ (k, node) ∷ m
      → c.current ≡ some (k, addr)
      → next state c ≡ (ok tt, at c (first_within_commit_limit state c.commit_limit m))
  next-append c before k node m addr e h =
      let a' : IsAscending (before ++ (k, node) ∷ m) = rw e at a in
      let found : get k state.keymap ≡ some node = ap (get k) e ∙ get-append before k node m a' in
      let rest : above k state.keymap ≡ m = ap (above k) e ∙ above-append before k node m a' in
      next-first_within state c k addr node l a h found
      ∙ ap (λ x. (ok tt, at c (first_within_commit_limit state c.commit_limit x))) rest

  collect-append :
      (fuel : ℕ) (c : Cursor) (before m : OrdMap Key Node)
      → state.keymap ≡ before ++ m
      → length m < fuel
      → c.current ≡ first_within_commit_limit state c.commit_limit m
      → collect fuel state c ≡ some (live_entries state c.commit_limit m)
  unfolding collect live_entries first_within_commit_limit
  collect-append zero c before m e f h = absurd (omega arith)
  collect-append (suc fuel) c before [] e f h = ground arith
  collect-append (suc fuel) c before ((k, node) ∷ m) e f h =
      elim (Option-cases (value_within_commit_limit state c.commit_limit node)) [
        | inl dead ↦
            rw (dead, live_entries)
              (collect-append (suc fuel) c (before ++ (k, node) ∷ []) m
                (e ∙ sym (append_assoc before ((k, node) ∷ []) m)) (omega arith)
                (ground (arith, dead)))
        | inr (addr, live) ↦
            let here : c.current ≡ some (k, addr) = ground (arith, live) in
            let after = at c (first_within_commit_limit state c.commit_limit m) in
            ground (
              arith,
              live,
              here,
              next-append c before k node m addr e here,
              collect-append fuel after (before ++ (k, node) ∷ []) m
                  (e ∙ sym (append_assoc before ((k, node) ∷ []) m)) (omega arith) refl,
            )
      ]

  -- From the first entry on, the cursor lists the live entries in the order of the keys, and ends.
  pub collect-live_entries :
      (c : Cursor)
      → collect (suc (length state.keymap)) state (seek_first state c)
        ≡ some (live_entries state c.commit_limit state.keymap)
  unfolding seek_first
  collect-live_entries c =
      collect-append (suc (length state.keymap)) (at c _) [] state.keymap refl (omega arith) refl

-- The keys of a list of entries grow strictly.
abbrev pub ListedAbove : Key → OrdMap Key Address → Type 0
ListedAbove k [] = Unit
ListedAbove k ((j, addr) ∷ m) = (bytes_ord.lt k j ≡ true) × ListedAbove k m

abbrev pub IsListed : OrdMap Key Address → Type 0
IsListed [] = Unit
IsListed ((k, addr) ∷ m) = ListedAbove k m × IsListed m

ListedAbove-live :
    (state : IndexState) (limit : Commit) (k : Key) (m : OrdMap Key Node)
    → AllAbove k m
    → ListedAbove k (live_entries state limit m)
unfolding live_entries
ListedAbove-live state limit k [] a = tt
ListedAbove-live state limit k ((j, node) ∷ m) a =
    ground (arith, ListedAbove-live state limit k m a.1)

pub IsListed-live :
    (state : IndexState) (limit : Commit) (m : OrdMap Key Node)
    → IsAscending m
    → IsListed (live_entries state limit m)
unfolding live_entries
IsListed-live state limit [] a = tt
IsListed-live state limit ((j, node) ∷ m) a =
    ground (arith, IsListed-live state limit m a.1, ListedAbove-live state limit j m a.0)

-- A key is listed with the address that `read` returns for it.
get-live_entries-missing :
    (state : IndexState) (limit : Commit) (k : Key) (m : OrdMap Key Node)
    → AllAbove k m
    → get k (live_entries state limit m) ≡ none
unfolding live_entries get
get-live_entries-missing state limit k [] a = refl
get-live_entries-missing state limit k ((j, node) ∷ m) a =
    ground (arith, get-live_entries-missing state limit k m a.1, not_equal_sym k j a.0)

pub get-live_entries-value :
    (state : IndexState) (limit : Commit) (k : Key) (m : OrdMap Key Node)
    → IsAscending m
    → get k (live_entries state limit m)
      ≡ elim (get k m) [ none ↦ none | some node ↦ value_within_commit_limit state limit node ]
unfolding live_entries get
get-live_entries-value state limit k [] a = refl
get-live_entries-value state limit k ((j, node) ∷ m) a = ground (
  arith,
  get-live_entries-value state limit k m a.1,
  bytes_ord.eq_iff j k,
  get-live_entries-missing state limit j m a.0,
)

get-Linked-key :
    (p : Option Key) (k : Key) (m : OrdMap Key Node) (node : Node)
    → Linked p m
    → get k m ≡ some node
    → node.key ≡ k
unfolding get
get-Linked-key p k [] node l h = cc
get-Linked-key p k ((j, w) ∷ m) node l h =
    ground (arith, l.0, get-Linked-key (some j) k m node l.3, bytes_ord.eq_iff j k)

pub get-live_entries :
    (state : IndexState) (limit : Commit) (k : Key)
    → Linked none state.keymap
    → IsAscending state.keymap
    → get k (live_entries state limit state.keymap) ≡ key_true_value state limit k
unfolding key_true_value point_query value_within_commit_limit inner_true_value
get-live_entries state limit k l a =
    get-live_entries-value state limit k state.keymap a ∙ elim (Option-cases (get k state.keymap)) [
      | inl missing ↦ ground (arith, missing)
      | inr (node, found) ↦ ground (arith, found, get-Linked-key none k state.keymap node l found)
    ]
