-- ===== src/Index/Cursor/Within.antt =====
-- index.rs: the first live entry within a part of the map, from either end.
use mathlib.Core.List.{reverse, reverse-cons}
use block_rust.Base.{
  ◌≡◌, refl, ap, Bool, true, Option, none, some, [], ◌∷◌, ◌++◌, arith, not, if◌then◌else◌,
  Bool-cases, Option-cases, inl, inr,
}
use block_rust.Base.Ord.{bytes_ord}
use block_rust.OrdMap.{OrdMap, get, range_from, range_to}
use block_rust.Types.{Key, Address, Commit}
use block_rust.Index.Defs.{Node, IndexState}
use block_rust.Index.Links.Splice.{
  AllAbove, AllAbove-trans, get-AllAbove, IsAscending, not_below, not_equal,
}
use block_rust.Index.Cursor.{first_within_commit_limit, value_within_commit_limit}

-- What a cursor at `limit` sees at a key.
abbrev pub look : IndexState → Commit → OrdMap Key Node → Key → Option Address
look state limit m k = elim (get k m) [
  | none ↦ none
  | some node ↦ value_within_commit_limit state limit node
]

-- The entry is the best of those that have a value and whose keys pass the test; there may be none.
abbrev pub Nearest :
    (Key → Key → Bool) → (Key → Bool) → (Key → Option Address) → Option (Key × Address) → Type 0
Nearest better within value none = (k : Key) → within k ≡ true → value k ≡ none
Nearest better within value (some (k, addr)) =
    (within k ≡ true)
    × (value k ≡ some addr)
    × ((k' : Key) → within k' ≡ true → better k' k ≡ true → value k' ≡ none)

unfoldable pub keep : (Key → Bool) → OrdMap Key Node → OrdMap Key Node
keep within [] = []
keep within ((k, node) ∷ m) =
    let rest = keep within m in if within k then (k, node) ∷ rest else rest

pub range_from-keep :
    (k : Key) (m : OrdMap Key Node) → range_from k m ≡ keep (λ j. not (bytes_ord.lt j k)) m
unfolding range_from keep
range_from-keep k [] = refl
range_from-keep k ((j, w) ∷ m) = ground (arith, range_from-keep k m)

pub range_to-keep :
    (k : Key) (m : OrdMap Key Node) → range_to k m ≡ keep (λ j. not (bytes_ord.lt k j)) m
unfolding range_to keep
range_to-keep k [] = refl
range_to-keep k ((j, w) ∷ m) = ground (arith, range_to-keep k m)

pub all-keep : (m : OrdMap Key Node) → m ≡ keep (λ j. true) m
unfolding keep
all-keep [] = refl
all-keep ((j, w) ∷ m) = ap (◌∷◌ (j, w)) (all-keep m)

first_within-append :
    (state : IndexState) (limit : Commit) (m : OrdMap Key Node) (k : Key) (node : Node)
    → first_within_commit_limit state limit (m ++ (k, node) ∷ [])
      ≡ elim (first_within_commit_limit state limit m) [
        | some found ↦ some found
        | none ↦ first_within_commit_limit state limit ((k, node) ∷ [])
      ]
unfolding first_within_commit_limit
first_within-append state limit [] k node = refl
first_within-append state limit ((j, w) ∷ m) k node =
    ground (arith, first_within-append state limit m k node)

first_within-nil :
    (state : IndexState) (limit : Commit) → first_within_commit_limit state limit [] ≡ none
unfolding first_within_commit_limit
first_within-nil state limit = refl

first_within-cons :
    (state : IndexState) (limit : Commit) (k : Key) (node : Node) (m : OrdMap Key Node)
    → first_within_commit_limit state limit ((k, node) ∷ m)
      ≡ elim (value_within_commit_limit state limit node) [
        | some addr ↦ some (k, addr)
        | none ↦ first_within_commit_limit state limit m
      ]
unfolding first_within_commit_limit
first_within-cons state limit k node m = ground arith

module _ (state : IndexState) (limit : Commit) (within : Key → Bool) where
  look-above : (j : Key) (m : OrdMap Key Node) → AllAbove j m → look state limit m j ≡ none
  look-above j m a = rw (look, get-AllAbove j m a) refl

  look-cons :
      (j k : Key) (node : Node) (m : OrdMap Key Node)
      → look state limit ((j, node) ∷ m) k ≡ (
          if bytes_ord.eq j k
          then value_within_commit_limit state limit node
          else look state limit m k)
  unfolding get
  look-cons j k node m = ground arith

  -- Only keys above `j` are seen behind it.
  seen-above :
      (j k : Key) (m : OrdMap Key Node) (addr : Address)
      → AllAbove j m
      → look state limit m k ≡ some addr
      → bytes_ord.lt j k ≡ true
  unfolding get
  seen-above j k [] addr a h = ground arith
  seen-above j k ((i, w) ∷ m) addr a h =
      ground (arith, a.0, bytes_ord.eq_iff i k, seen-above j k m addr a.1)

  module _ (better : Key → Key → Bool) (j : Key) (node : Node) (m : OrdMap Key Node)
      (a : AllAbove j m) where
    -- An entry that is not seen, or whose key is not asked for.
    skip :
        (x : Option (Key × Address))
        → (within j ≡ true → value_within_commit_limit state limit node ≡ none)
        → Nearest better within (look state limit m) x
        → Nearest better within (look state limit ((j, node) ∷ m)) x
    skip none dead h =
        λ k p. ground (arith, look-cons j k node m, bytes_ord.eq_iff j k, h k p, dead)
    skip (some (k, addr)) dead h = (
      h.0,
      ground (arith, look-cons j k node m, bytes_ord.eq_iff j k, look-above j m a, h.1),
      λ k' p q. ground (arith, look-cons j k' node m, bytes_ord.eq_iff j k', h.2 k' p q, dead),
    )

  pub first-Nearest :
      (m : OrdMap Key Node)
      → IsAscending m
      → Nearest bytes_ord.lt within
          (look state limit m)
          (first_within_commit_limit state limit (keep within m))
  unfolding keep get
  first-Nearest [] a = rw (first_within-nil state limit) (λ k h. refl)
  first-Nearest ((j, node) ∷ m) a = elim (Bool-cases (within j)) [
    | inr out ↦ rw out (skip bytes_ord.lt j node m a.0 _ (λ p. absurd (cc)) (first-Nearest m a.1))
    | inl asked ↦ elim (Option-cases (value_within_commit_limit state limit node)) [
      | inl dead ↦
          rw (asked, first_within-cons state limit j node (keep within m), dead)
            (skip bytes_ord.lt j node m a.0 _ (λ p. dead) (first-Nearest m a.1))
      | inr (addr, live) ↦
          rw (asked, first_within-cons state limit j node (keep within m), live)
            (
              asked,
              ground (arith, look-cons j j node m, bytes_ord.eq_iff j j),
              λ k' p q. ground (
                arith,
                look-cons j k' node m,
                bytes_ord.eq_iff j k',
                bytes_ord.lt_irrefl j,
                look-above k' m (AllAbove-trans k' j m q a.0),
              ),
            )
    ]
  ]

  -- The entry in front of the others is the last one that is looked at.
  behind :
      (j : Key) (node : Node) (m : OrdMap Key Node) (x : Option (Key × Address))
      → AllAbove j m
      → within j ≡ true
      → Nearest (λ a b. bytes_ord.lt b a) within (look state limit m) x
      → Nearest
          (λ a b. bytes_ord.lt b a)
          within
          (look state limit ((j, node) ∷ m))
          (elim x [
            | some found ↦ some found
            | none ↦ first_within_commit_limit state limit ((j, node) ∷ [])
          ])
  behind j node m (some (k, addr)) a asked h = (
    h.0,
    ground (arith, look-cons j k node m, bytes_ord.eq_iff j k, look-above j m a, h.1),
    λ k' p q. ground (
      arith,
      look-cons j k' node m,
      bytes_ord.eq_iff j k',
      seen-above j k m addr a h.1,
      not_below j k,
      h.2 k' p q,
    ),
  )
  behind j node m none a asked h =
      elim (Option-cases (value_within_commit_limit state limit node)) [
        | inl dead ↦
            rw (first_within-cons state limit j node [], dead, first_within-nil state limit)
              (λ k p. ground (arith, look-cons j k node m, bytes_ord.eq_iff j k, h k p))
        | inr (addr, live) ↦
            rw (first_within-cons state limit j node [], live)
              (
                asked,
                ground (arith, look-cons j j node m, bytes_ord.eq_iff j j),
                λ k' p q. ground (arith, look-cons j k' node m, not_equal j k' q, h k' p),
              )
      ]

  pub last-Nearest :
      (m : OrdMap Key Node)
      → IsAscending m
      → Nearest
          (λ a b. bytes_ord.lt b a)
          within
          (look state limit m)
          (first_within_commit_limit state limit (reverse (keep within m)))
  unfolding keep get
  last-Nearest [] a = rw (first_within-nil state limit) (λ k p. refl)
  last-Nearest ((j, node) ∷ m) a = elim (Bool-cases (within j)) [
    | inr out ↦
        rw out
          (skip (λ a b. bytes_ord.lt b a) j node m a.0 _ (λ p. absurd (cc)) (last-Nearest m a.1))
    | inl asked ↦
        rw
          (
            asked,
            reverse-cons (j, node) (keep within m),
            first_within-append state limit (reverse (keep within m)) j node,
          )
          (behind j node m _ a.0 asked (last-Nearest m a.1))
  ]
