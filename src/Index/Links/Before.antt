-- ===== src/Index/Links/Before.antt =====
-- index.rs: the new node is spliced in before the first node above its key.
use block_rust.Base.{
  ◌≡◌, refl, ◌∙◌, ap, inl, inr, true, false, Option, none, some, [], ◌∷◌, arith, if◌then◌else◌,
  Bool-cases,
}
use block_rust.Base.Ord.{bytes_ord}
use block_rust.OrdMap.{OrdMap, get, modify, insert, range_from}
use block_rust.Types.{Key}
use block_rust.Index.Defs.{Entry, Node}
use block_rust.Index.Writer.{set_prev, set_next, modify_at, first, link_before}
use block_rust.Index.Links.Splice.{
  not_below, not_equal, not_equal_sym, AllAbove, IsAscending, Linked, splice, modify-AllAbove,
  lt_of_missing,
}

-- A key that is in front of all the map's keys is not in the map.
abbrev InFront : Option Key → OrdMap Key Node → Type 0
InFront none m = Unit
InFront (some k) m = AllAbove k m

modify_at-InFront :
    (p : Option Key) (f : Node → Node) (m : OrdMap Key Node) → InFront p m → modify_at p f m ≡ m
modify_at-InFront none f m h = refl
modify_at-InFront (some k) f m h = modify-AllAbove k f m h

module _ (key : Key) where
  -- The first node at or above a key that the map lacks lies above it.
  key_above :
      (p : Option Key) (m : OrdMap Key Node) (next : Node)
      → Linked p m
      → get key m ≡ none
      → first (range_from key m) ≡ some next
      → bytes_ord.lt key next.key ≡ true
  unfolding first range_from
  key_above p [] next l g h = cc
  key_above p ((j, w) ∷ m) next l g h = elim (Bool-cases (bytes_ord.lt j key)) [
    | inl below ↦
        key_above (some j) m next l.3 (lt_of_missing key j w m g (not_below j key below)).1
          (ground arith)
    | inr above ↦ ground (arith, l.0, get_ne g, bytes_ord.lt_total j key above)
  ]
    where
      get_ne : get key ((j, w) ∷ m) ≡ none → bytes_ord.eq j key ≡ false
      get_ne g = unfold get in ground arith

  -- If it is not the first of all, it points back to a key of the map.
  prev_above :
      (i : Key) (p : Option Key) (j : Key) (w : Node) (m : OrdMap Key Node) (next : Node)
      → bytes_ord.lt i j ≡ true
      → Linked p ((j, w) ∷ m)
      → IsAscending ((j, w) ∷ m)
      → first (range_from key m) ≡ some next
      → (q : Key) × (next.prev ≡ some q) × (bytes_ord.lt i q ≡ true)
  unfolding first range_from
  prev_above i p j w [] next ij l a h = cc
  prev_above i p j w ((k, v) ∷ m) next ij l a h = elim (Bool-cases (bytes_ord.lt k key)) [
    | inl below ↦
        prev_above i (some j) k v m next (bytes_ord.lt_trans i j k ij a.0.0) l.3 a.1 (ground arith)
    | inr above ↦ (j, ground (arith, l.3.1), ij)
  ]

  module _ (e : Entry) where
    link_before-head :
        (p : Option Key) (j : Key) (w : Node) (m : OrdMap Key Node)
        → InFront p ((j, w) ∷ m)
        → Linked p ((j, w) ∷ m)
        → AllAbove j m
        → bytes_ord.lt key j ≡ true
        → link_before key e w ((j, w) ∷ m) ≡ splice p key e ((j, w) ∷ m)
    unfolding link_before splice insert modify
    link_before-head p j w m front l a lt =
        let at_prev : modify_at w.prev (set_next (some key)) ((j, w) ∷ m) ≡ (j, w) ∷ m =
          ap (λ o. modify_at o (set_next (some key)) ((j, w) ∷ m)) l.1
          ∙ modify_at-InFront p (set_next (some key)) ((j, w) ∷ m) front in
        ground (
          arith,
          at_prev,
          l.0,
          l.1,
          bytes_ord.eq_iff j j,
          not_equal_sym key j lt,
          modify-AllAbove j (set_prev (some key)) m a,
        )

    link_before-step :
        (q j : Key) (w : Node) (m : OrdMap Key Node) (next : Node)
        → next.prev ≡ some q
        → bytes_ord.lt j key ≡ true
        → bytes_ord.lt key next.key ≡ true
        → link_before key e next ((j, w) ∷ m)
          ≡ (j, if bytes_ord.eq j q then set_next (some key) w else w) ∷ link_before key e next m
    unfolding link_before insert modify
    link_before-step q j w m next h below above = ground (
      arith,
      not_below j key below,
      not_equal j key below,
      not_equal j next.key (bytes_ord.lt_trans j key next.key below above),
    )

    pub link_before-splice :
        (p : Option Key) (m : OrdMap Key Node) (next : Node)
        → InFront p m
        → Linked p m
        → IsAscending m
        → get key m ≡ none
        → first (range_from key m) ≡ some next
        → link_before key e next m ≡ splice p key e m
    unfolding splice first range_from
    link_before-splice p [] next f l a g h = cc
    link_before-splice p ((j, w) ∷ []) next f l a g h = elim (Bool-cases (bytes_ord.lt key j)) [
      | inl lt ↦
          let same : w ≡ next = ground (arith, not_below key j lt) in
          rw (← same) (link_before-head p j w [] f l a.0 lt)
      | inr ge ↦ ground (arith, lt_of_missing key j w [] g ge)
    ]
    link_before-splice p ((j, w) ∷ (k, v) ∷ m) next f l a g h =
        elim (Bool-cases (bytes_ord.lt key j)) [
          | inl lt ↦
              let same : w ≡ next = ground (arith, not_below key j lt) in
              rw (← same) (link_before-head p j w ((k, v) ∷ m) f l a.0 lt)
          | inr ge ↦
              let (below, missing) = lt_of_missing key j w ((k, v) ∷ m) g ge in
              let h' : first (range_from key ((k, v) ∷ m)) ≡ some next = ground arith in
              let rest = link_before-splice (some j) ((k, v) ∷ m) next a.0 l.3 a.1 missing h' in
              let above = key_above (some j) ((k, v) ∷ m) next l.3 missing h' in
              elim (Bool-cases (bytes_ord.lt key k)) [
                | inl lt' ↦
                    let same : v ≡ next = ground (arith, not_below key k lt') in
                    link_before-step j j w ((k, v) ∷ m) next (ground (arith, l.3.1)) below above
                    ∙ ground (arith, rest, bytes_ord.eq_iff j j)
                | inr ge' ↦
                    let (below', missing') = lt_of_missing key k v m missing ge' in
                    let (q, e', jq) =
                      prev_above j (some j) k v m next a.0.0 l.3 a.1 (ground arith) in
                    link_before-step q j w ((k, v) ∷ m) next e' below above
                    ∙ ground (arith, rest, not_equal j q jq, l.2)
              ]
        ]
