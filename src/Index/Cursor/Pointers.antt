-- ===== src/Index/Cursor/Pointers.antt =====
-- index.rs: on a linked map, `next` and `prev` find the nearest live entry, and their loop ends.
use mathlib.Core.List.{reverse, reverse_aux}
use block_rust.Base.{
  ℕ, zero, suc, ◌+◌, ◌≤◌, ◌≡◌, refl, sym, ◌∙◌, false, Option, none, some, [], ◌∷◌, arith,
  if◌then◌else◌, length, Bool-cases, Option-cases, inl, inr, ok,
}
use block_rust.Base.Ord.{bytes_ord}
use block_rust.OrdMap.{OrdMap, get}
use block_rust.Types.{Key, Address, Commit}
use block_rust.Index.Defs.{Node, IndexState}
use block_rust.Index.Links.Splice.{
  first_key, AllAbove, IsAscending, Linked, get-AllAbove, AllAbove-trans, not_below, not_equal,
}
use block_rust.Index.Cursor.{
  Cursor, first_within_commit_limit, value_within_commit_limit, walk, stopped, candidate, next,
  prev,
}

-- The entries above a key, and those below it.
unfoldable pub above : Key → OrdMap Key Node → OrdMap Key Node
above k [] = []
above k ((j, n) ∷ m) = let rest = above k m in if bytes_ord.lt k j then (j, n) ∷ rest else rest

unfoldable pub below : Key → OrdMap Key Node → OrdMap Key Node
below k [] = []
below k ((j, n) ∷ m) = let rest = below k m in if bytes_ord.lt j k then (j, n) ∷ rest else rest

-- `full` finds each of the entries.
abbrev FoundIn : OrdMap Key Node → OrdMap Key Node → Type 0
FoundIn full [] = Unit
FoundIn full ((k, n) ∷ m) = (get k full ≡ some n) × FoundIn full m

-- The pointers lead from each entry to the one behind it.
abbrev Chained : (Node → Option Key) → OrdMap Key Node → OrdMap Key Node → Type 0
Chained link full [] = Unit
Chained link full ((k, n) ∷ m) =
    (get k full ≡ some n) × (link n ≡ first_key m) × Chained link full m

walk-Chained :
    (link : Node → Option Key) (state : IndexState) (limit : Commit) (fuel : ℕ)
    (m : OrdMap Key Node)
    → Chained link state.keymap m
    → length m ≤ fuel
    → walk link state limit fuel (first_key m) ≡ stopped (first_within_commit_limit state limit m)
unfolding walk first_within_commit_limit
walk-Chained link state limit fuel [] c h = refl
walk-Chained link state limit zero ((k, n) ∷ m) c h = absurd (omega arith)
walk-Chained link state limit (suc fuel) ((k, n) ∷ m) c h =
    elim (Option-cases (value_within_commit_limit state limit n)) [
      | inl dead ↦ ground (arith, dead, c.0, c.1, walk-Chained link state limit fuel m c.2)
      | inr (addr, live) ↦ ground (arith, live, c.0)
    ]

FoundIn-cons :
    (j : Key) (w : Node) (full m : OrdMap Key Node)
    → AllAbove j m
    → FoundIn full m
    → FoundIn ((j, w) ∷ full) m
unfolding get
FoundIn-cons j w full [] a f = tt
FoundIn-cons j w full ((k, n) ∷ m) a f =
    (ground (arith, not_equal j k a.0, f.0), FoundIn-cons j w full m a.1 f.1)

FoundIn-self : (m : OrdMap Key Node) → IsAscending m → FoundIn m m
unfolding get
FoundIn-self [] a = tt
FoundIn-self ((j, w) ∷ m) a =
    (ground (arith, bytes_ord.eq_iff j j), FoundIn-cons j w m m a.0 (FoundIn-self m a.1))

pub above-AllAbove : (k : Key) (m : OrdMap Key Node) → AllAbove k m → above k m ≡ m
unfolding above
above-AllAbove k [] a = refl
above-AllAbove k ((j, n) ∷ m) a = ground (arith, above-AllAbove k m a.1)

Linked-Chained :
    (p : Option Key) (full m : OrdMap Key Node)
    → Linked p m
    → FoundIn full m
    → Chained (λ n. n.next) full m
Linked-Chained p full [] l f = tt
Linked-Chained p full ((k, n) ∷ m) l f = (f.0, l.2, Linked-Chained (some k) full m l.3 f.1)

above-Chained :
    (p : Option Key) (k : Key) (full m : OrdMap Key Node)
    → Linked p m
    → IsAscending m
    → FoundIn full m
    → Chained (λ n. n.next) full (above k m)
unfolding above
above-Chained p k full [] l a f = tt
above-Chained p k full ((j, w) ∷ m) l a f = elim (Bool-cases (bytes_ord.lt k j)) [
  | inr low ↦ rw low (above-Chained (some j) k full m l.3 a.1 f.1)
  | inl high ↦
      rw (high, above-AllAbove k m (AllAbove-trans k j m high a.0))
        (Linked-Chained p full ((j, w) ∷ m) l f)
]

length-above : (k : Key) (m : OrdMap Key Node) → length (above k m) ≤ length m
unfolding above
length-above k [] = omega arith
length-above k ((j, w) ∷ m) = ground (arith, length-above k m)

-- The node of `k` points to the first entry above it.
next-above :
    (p : Option Key) (k : Key) (m : OrdMap Key Node) (node : Node)
    → Linked p m
    → IsAscending m
    → get k m ≡ some node
    → node.next ≡ first_key (above k m)
unfolding get above
next-above p k [] node l a h = cc
next-above p k ((j, w) ∷ m) node l a h = elim (Bool-cases (bytes_ord.eq j k)) [
  | inl hit ↦
      ground (arith, bytes_ord.eq_iff j k, bytes_ord.lt_irrefl k, l.2, above-AllAbove j m a.0)
  | inr miss ↦ elim (Bool-cases (bytes_ord.lt k j)) [
    | inl high ↦ ground (arith, get-AllAbove k m (AllAbove-trans k j m high a.0))
    | inr low ↦ ground (arith, next-above (some j) k m node l.3 a.1)
  ]
]

-- In a map whose nodes are doubly linked in the strict order of their keys, `next` of a cursor at a key
-- of the map does not panic: it lands on the first entry above that key that has a value at the
-- cursor's limit, or on none if there is no such entry.
pub next-first_within :
    (state : IndexState) (c : Cursor) (k : Key) (addr : Address) (node : Node)
    → Linked none state.keymap
    → IsAscending state.keymap
    → c.current ≡ some (k, addr)
    → get k state.keymap ≡ some node
    → next state c ≡ (
      ok tt,
      record c { current = first_within_commit_limit state c.commit_limit (above k state.keymap) },
    )
unfolding next candidate
next-first_within state c k addr node l a h g = ground (
  arith,
  next-above none k state.keymap node l a g,
  walk-Chained (λ (n : Node). n.next) state c.commit_limit (length state.keymap)
      (above k state.keymap)
      (above-Chained none k state.keymap state.keymap l a (FoundIn-self state.keymap a))
      (length-above k state.keymap),
)

below-AllAbove : (k : Key) (m : OrdMap Key Node) → AllAbove k m → below k m ≡ []
unfolding below
below-AllAbove k [] a = refl
below-AllAbove k ((j, w) ∷ m) a = ground (arith, below-AllAbove k m a.1, not_below k j a.0)

-- Behind an entry at or above `k` nothing is below `k`.
below_none :
    (j k : Key) (m : OrdMap Key Node) → bytes_ord.lt j k ≡ false → AllAbove j m → below k m ≡ []
below_none j k m h a = elim (Bool-cases (bytes_ord.eq j k)) [
  | inl same ↦ rw (← (bytes_ord.eq_iff j k).0 same) (below-AllAbove j m a)
  | inr other ↦ below-AllAbove k m (AllAbove-trans k j m (bytes_ord.lt_total j k h other) a)
]

-- The entries below `k`, from the nearest on: those of `m`, and then `behind`.
Linked-back :
    (p : Option Key) (k : Key) (full m behind : OrdMap Key Node)
    → Linked p m
    → IsAscending m
    → FoundIn full m
    → first_key behind ≡ p
    → Chained (λ n. n.prev) full behind
    → Chained (λ n. n.prev) full (reverse_aux (below k m) behind)
unfolding below
Linked-back p k full [] behind l a f e c = c
Linked-back p k full ((j, w) ∷ m) behind l a f e c = elim (Bool-cases (bytes_ord.lt j k)) [
  | inl low ↦
      rw low
        (Linked-back (some j) k full m ((j, w) ∷ behind) l.3 a.1 f.1 refl (f.0, l.1 ∙ sym e, c))
  | inr high ↦ rw (high, below_none j k m high a.0) c
]

-- The node of `k` points back to the last entry below it.
prev-below :
    (p : Option Key) (k : Key) (m behind : OrdMap Key Node) (node : Node)
    → Linked p m
    → IsAscending m
    → first_key behind ≡ p
    → get k m ≡ some node
    → node.prev ≡ first_key (reverse_aux (below k m) behind)
unfolding get below
prev-below p k [] behind node l a e h = cc
prev-below p k ((j, w) ∷ m) behind node l a e h = elim (Bool-cases (bytes_ord.eq j k)) [
  | inl hit ↦
      let same : j ≡ k = (bytes_ord.eq_iff j k).0 hit in
      let high : bytes_ord.lt j k ≡ false = ground (arith, bytes_ord.lt_irrefl k) in
      rw (high, below_none j k m high a.0) (ground (arith, l.1))
  | inr miss ↦ elim (Bool-cases (bytes_ord.lt j k)) [
    | inl low ↦ rw low (prev-below (some j) k m ((j, w) ∷ behind) node l.3 a.1 refl (ground arith))
    | inr high ↦
        ground
          (arith, get-AllAbove k m (AllAbove-trans k j m (bytes_ord.lt_total j k high miss) a.0))
  ]
]

length-below :
    (k : Key) (m behind : OrdMap Key Node)
    → length (reverse_aux (below k m) behind) ≤ length m + length behind
unfolding below
length-below k [] behind = omega arith
length-below k ((j, w) ∷ m) behind = elim (Bool-cases (bytes_ord.lt j k)) [
  | inl low ↦ rw low (omega (arith, length-below k m ((j, w) ∷ behind)))
  | inr high ↦ rw high (omega (arith, length-below k m behind))
]

-- In a map whose nodes are doubly linked in the strict order of their keys, `prev` of a cursor at a key
-- of the map does not panic: it lands on the last entry below that key that has a value at the
-- cursor's limit, or on none if there is no such entry.
pub prev-first_within :
    (state : IndexState) (c : Cursor) (k : Key) (addr : Address) (node : Node)
    → Linked none state.keymap
    → IsAscending state.keymap
    → c.current ≡ some (k, addr)
    → get k state.keymap ≡ some node
    → prev state c ≡ (
      ok tt,
      record c {
        current = first_within_commit_limit state c.commit_limit (reverse (below k state.keymap));
      },
    )
unfolding prev candidate
prev-first_within state c k addr node l a h g = ground (
  arith,
  prev-below none k state.keymap [] node l a refl g,
  walk-Chained (λ (n : Node). n.prev) state c.commit_limit (length state.keymap)
      (reverse (below k state.keymap))
      (Linked-back none k state.keymap state.keymap [] l a (FoundIn-self state.keymap a) refl tt)
      (omega (arith, length-below k state.keymap [])),
)
