-- ===== src/CompactingTree/Seeks.antt =====
-- compacting_tree.rs: where the four ways to seek take a merging cursor.
use mathlib.Core.Path.{subst}
use mathlib.Core.List.{map}
use block_rust.Base.{
  ℕ, zero, suc, ◌<◌, ◌≡◌, ◌≢◌, refl, sym, ap, Bool, true, false, Option, none, some, List, [], ◌∷◌,
  arith, get_elem?, Bool-cases, inl, inr, ◌⊎◌, ok,
}
use block_rust.Base.Ord.{Ord, bytes_ord, dual}
use block_rust.Types.{Key, Address}
use block_rust.Command.{Command}
use block_rust.LogFile.{LogFile}
use block_rust.Index.Defs.{key_true_value}
use block_rust.Index.Cursor
use block_rust.Index.Cursor.Within.{Nearest}
use block_rust.Index.Cursor.Nearest.{
  smaller, larger, any_key, from_key, to_key, seek_first-Nearest, seek_last-Nearest,
  seek_key-Nearest, seek_key_rev-Nearest,
}
use block_rust.Tree.Lists.{IsList}
use block_rust.CompactingTree.Cursor.{
  TreeCursor, MergeCursor, key, current_tree, chosen, seek_all, seek_first, seek_last, seek_key,
  seek_key_rev,
}
use block_rust.CompactingTree.Best.{Best, seek_all-Best, seek_all-map}

get_elem?-map {ℓ κ} :
    {A : Type ℓ} {B : Type κ} (g : A → B) (xs : List A) (i : ℕ) (x : A)
    → get_elem? xs i ≡ some x
    → get_elem? (map g xs) i ≡ some (g x)
get_elem?-map g [] i x h = absurd (cc)
get_elem?-map g (y ∷ xs) zero x h = ground arith
get_elem?-map g (y ∷ xs) (suc i) x h = get_elem?-map g xs i x h

get_elem?-unmap {ℓ κ} :
    {A : Type ℓ} {B : Type κ} (g : A → B) (xs : List A) (i : ℕ) (z : B)
    → get_elem? (map g xs) i ≡ some z
    → (x : A) × (get_elem? xs i ≡ some x) × (g x ≡ z)
get_elem?-unmap g [] i z h = absurd (cc)
get_elem?-unmap g (y ∷ xs) zero z h = (y, refl, ground arith)
get_elem?-unmap g (y ∷ xs) (suc i) z h = get_elem?-unmap g xs i z h

module _ (f : LogFile Command) where
  -- What the tree of a cursor holds at its limit.
  abbrev pub holds : TreeCursor f → Key → Option Address
  holds t k = key_true_value t.tree.index.state t.at.commit_limit k

  -- The trees have linked maps in the order of their keys.
  abbrev pub AllLists : List (TreeCursor f) → Type 0
  AllLists [] = Unit
  AllLists (t ∷ trees) = IsList t.tree.index.state.keymap × AllLists trees

  AllLists-get :
      (trees : List (TreeCursor f)) (j : ℕ) (t : TreeCursor f)
      → AllLists trees
      → get_elem? trees j ≡ some t
      → IsList t.tree.index.state.keymap
  AllLists-get [] j t h p = absurd (cc)
  AllLists-get (u ∷ trees) zero t h p = let same : u ≡ t = ground arith in rw (← same) h.0
  AllLists-get (u ∷ trees) (suc j) t h p = AllLists-get trees j t h.1 p

  -- From `c` to `c'`, over the keys that pass the test: either no tree holds any, and the current tree
  -- is the same as before, or `c'` stands at a key that a tree holds, no tree holds a better one, and no
  -- tree in front of this one holds that key.
  abbrev pub Lands : (Key → Key → Bool) → (Key → Bool) → MergeCursor f → MergeCursor f → Type 0
  Lands better within c c' =
      ((c'.current ≡ c.current)
        × ((j : ℕ) (u : TreeCursor f) (k : Key)
            → get_elem? c.trees j ≡ some u
            → within k ≡ true
            → holds u k ≡ none))
      ⊎ ((i : ℕ) × (t : TreeCursor f) × (k : Key) × (addr : Address) × (c'.current ≡ some i)
          × (key f c' ≡ ok k)
          × (get_elem? c.trees i ≡ some t)
          × (within k ≡ true)
          × (holds t k ≡ some addr)
          × ((j : ℕ) (u : TreeCursor f) (k' : Key) (addr' : Address)
              → get_elem? c.trees j ≡ some u
              → within k' ≡ true
              → holds u k' ≡ some addr'
              → (better k' k ≡ false) × (j < i → k' ≢ k)))

  module _ (o : Ord Key) (within : Key → Bool) (seek : TreeCursor f → TreeCursor f)
      (c : MergeCursor f)
      (nearest : (j : ℕ) (t : TreeCursor f)
        → get_elem? c.trees j ≡ some t
        → Nearest o.lt within (holds t) (seek t).at.current) where
    -- What one tree holds lies behind its own nearest key.
    behind :
        (t : TreeCursor f) (k : Key) (addr : Address) (x : Option (Key × Address))
        → Nearest o.lt within (holds t) x
        → within k ≡ true
        → holds t k ≡ some addr
        → (k' : Key) × (addr' : Address) × (x ≡ some (k', addr')) × (o.lt k k' ≡ false)
    behind t k addr none h p q = absurd (cc (h k p))
    behind t k addr (some (k', addr')) h p q = (
      k',
      addr',
      refl,
      elim (Bool-cases (o.lt k k')) [
        | inl before ↦ absurd (cc (h.2 k p before))
        | inr right ↦ right
      ],
    )

    -- A key that lies behind another, which lies behind `k`.
    order_behind : (k' k'' k : Key) → o.lt k' k'' ≡ false → o.lt k'' k ≡ false → o.lt k' k ≡ false
    order_behind k' k'' k w v = elim (Bool-cases (o.lt k' k)) [
      | inr right ↦ right
      | inl before ↦ elim (Bool-cases (o.eq k'' k)) [
        | inl same ↦ let e : k'' ≡ k = (o.eq_iff k'' k).0 same in absurd (cc)
        | inr other ↦ absurd (cc (o.lt_trans k' k k'' before (o.lt_total k'' k v other)))
      ]
    ]

    lands :
        (best : Option (Key × ℕ))
        → Best f o (map seek c.trees) best
        → Lands o.lt within c (chosen f c (map seek c.trees, best))
    unfolding chosen key current_tree Cursor.key
    lands none h = inl (
      refl,
      λ j u k p q.
          subst (Nearest o.lt within (holds u)) (h j (seek u) (get_elem?-map seek c.trees j u p))
            (nearest j u p) k q,
    )
    lands (some (k, i)) h =
        let ((s, addr, here, entry), ahead) = h in
        let (t, found, same) = get_elem?-unmap seek c.trees i s here in
        let at : (seek t).at.current ≡ some (k, addr) = rw same entry in
        let (asked, value, best) = subst (Nearest o.lt within (holds t)) at (nearest i t found) in
        inr (
          i,
          t,
          k,
          addr,
          refl,
          ground (arith, here, entry),
          found,
          asked,
          value,
          λ j u k' addr' p q r.
              let (k'', a'', e, w) = behind u k' addr' (seek u).at.current (nearest j u p) q r in
              let (v, strict) = ahead j (seek u) k'' a'' (get_elem?-map seek c.trees j u p) e in
              (order_behind k' k'' k w v, λ less same_key. absurd (cc (strict less))),
        )

    sought : Lands o.lt within c (chosen f c (seek_all f seek o.lt 0 none c.trees))
    sought =
        let split : seek_all f seek o.lt 0 none c.trees
            ≡ (map seek c.trees, (seek_all f seek o.lt 0 none c.trees).1) =
          ap (λ x. (x, (seek_all f seek o.lt 0 none c.trees).1))
            (seek_all-map f o seek 0 c.trees none) in
        subst (λ x. Lands o.lt within c (chosen f c x)) (sym split)
          (lands _ (seek_all-Best f o seek [] c.trees none (λ j u p. absurd (cc))))

  -- Over trees whose maps are linked in the order of their keys: `seek_first` takes the cursor to the
  -- smallest key that a tree holds at its limit, and `seek_last` to the largest; `seek_key` to the
  -- smallest that is not below the key, and `seek_key_rev` to the largest that is not above it. The key
  -- is that of the first tree that holds it. Where no tree holds such a key, the current tree of the
  -- cursor stays what it was.
  pub seeks-Lands :
      (c : MergeCursor f)
      → AllLists c.trees
      → Lands smaller any_key c (seek_first f c)
        × Lands larger any_key c (seek_last f c)
        × ((k : Key) → Lands smaller (from_key k) c (seek_key f k c))
        × ((k : Key) → Lands larger (to_key k) c (seek_key_rev f k c))
  unfolding seek_first seek_last seek_key seek_key_rev
  seeks-Lands c h =
      let list = λ (j : ℕ) (t : TreeCursor f) (p : get_elem? c.trees j ≡ some t).
        AllLists-get c.trees j t h p in
      (
        sought bytes_ord any_key _ c (λ j t p.
            seek_first-Nearest t.tree.index.state (list j t p).linked (list j t p).ascending t.at),
        sought (dual bytes_ord) any_key _ c (λ j t p.
            seek_last-Nearest t.tree.index.state (list j t p).linked (list j t p).ascending t.at),
        λ k. sought bytes_ord (from_key k) _ c (λ j t p.
            seek_key-Nearest t.tree.index.state (list j t p).linked (list j t p).ascending t.at k),
        λ k. sought (dual bytes_ord) (to_key k) _ c (λ j t p.
            seek_key_rev-Nearest t.tree.index.state (list j t p).linked (list j t p).ascending t.at
              k),
      )
