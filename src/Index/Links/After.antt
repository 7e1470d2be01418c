-- ===== src/Index/Links/After.antt =====
-- index.rs: a node above all the others is spliced in after the last one.
use block_rust.Base.{
  ◌≡◌, refl, ◌⊎◌, inl, inr, true, false, Option, none, some, [], ◌∷◌, arith, Bool-cases,
}
use block_rust.Base.Ord.{bytes_ord}
use block_rust.OrdMap.{OrdMap, modify, insert, range_from, range_to}
use block_rust.Types.{Key}
use block_rust.Index.Defs.{Entry, Node}
use block_rust.Index.Writer.{first, last, link_after}
use block_rust.Index.Links.Splice.{not_below, not_equal, IsAscending, Linked, splice}

last_order :
    (i k q : Key)
    → bytes_ord.lt i k ≡ true
    → ((q ≡ k) ⊎ (bytes_ord.lt k q ≡ true))
    → bytes_ord.lt i q ≡ true
last_order i k q h (inl e) = ground arith
last_order i k q h (inr lt) = bytes_ord.lt_trans i k q h lt

below_next :
    (key k : Key) (v : Node) (m : OrdMap Key Node)
    → first (range_from key ((k, v) ∷ m)) ≡ none
    → bytes_ord.lt key k ≡ false
unfolding first range_from
below_next key k v m h = elim (Bool-cases (bytes_ord.lt k key)) [
  | inl below ↦ not_below k key below
  | inr above ↦ ground arith
]

module _ (key : Key) (e : Entry) where
  -- A map with nothing at or above the key ends in its last node, which points nowhere.
  pub last_below :
      (p : Option Key) (j : Key) (w : Node) (m : OrdMap Key Node)
      → Linked p ((j, w) ∷ m)
      → IsAscending ((j, w) ∷ m)
      → first (range_from key ((j, w) ∷ m)) ≡ none
      → (prev : Node) × (last (range_to key ((j, w) ∷ m)) ≡ some prev)
        × (prev.next ≡ none)
        × (bytes_ord.lt prev.key key ≡ true)
        × ((prev.key ≡ j) ⊎ (bytes_ord.lt j prev.key ≡ true))
  unfolding first last range_from range_to
  last_below p j w [] l a h = elim (Bool-cases (bytes_ord.lt j key)) [
    | inl below ↦ (w, rw (not_below j key below) refl, l.2, ground (arith, l.0), inl l.0)
    | inr above ↦ ground arith
  ]
  last_below p j w ((k, v) ∷ m) l a h = elim (Bool-cases (bytes_ord.lt j key)) [
    | inl below ↦
        let (prev, e', n, b, o) = last_below (some j) k v m l.3 a.1 (ground arith) in
        (
          prev,
          rw (not_below j key below) (ground (arith, e')),
          n,
          b,
          inr (last_order j k prev.key a.0.0 o),
        )
    | inr above ↦ ground arith
  ]

  pub link_after-splice :
      (p : Option Key) (j : Key) (w : Node) (m : OrdMap Key Node) (prev : Node)
      → Linked p ((j, w) ∷ m)
      → IsAscending ((j, w) ∷ m)
      → first (range_from key ((j, w) ∷ m)) ≡ none
      → last (range_to key ((j, w) ∷ m)) ≡ some prev
      → link_after key e prev ((j, w) ∷ m) ≡ splice p key e ((j, w) ∷ m)
  unfolding link_after splice insert modify first last range_from range_to
  link_after-splice p j w [] prev l a h t = elim (Bool-cases (bytes_ord.lt j key)) [
    | inl below ↦
        let same : w ≡ prev = ground (arith, not_below j key below) in
        rw (← same) (
          ground
            (arith, not_below j key below, not_equal j key below, bytes_ord.eq_iff j j, l.0, l.2))
    | inr above ↦ ground arith
  ]
  link_after-splice p j w ((k, v) ∷ m) prev l a h t = elim (Bool-cases (bytes_ord.lt j key)) [
    | inl below ↦
        let h' : first (range_from key ((k, v) ∷ m)) ≡ none = ground arith in
        let (last', e', n, b, o) = last_below (some j) k v m l.3 a.1 h' in
        let t' : last (range_to key ((k, v) ∷ m)) ≡ some prev =
          ground (arith, e', not_below j key below) in
        let rest = link_after-splice (some j) k v m prev l.3 a.1 h' t' in
        let same : last' ≡ prev = ground (arith, e', t') in
        let jq = last_order j k last'.key a.0.0 o in
        ground (
          arith,
          rest,
          same,
          n,
          l.2,
          not_below j key below,
          not_equal j key below,
          not_equal j last'.key jq,
          below_next key k v m h',
        )
    | inr above ↦ ground arith
  ]
