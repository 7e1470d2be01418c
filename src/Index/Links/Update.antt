-- ===== src/Index/Links/Update.antt =====
-- index.rs: the relinking of `update_value` splices the new node into the list.
use block_rust.Base.{◌≡◌, refl, inl, inr, none, some, [], ◌∷◌, arith, Option-cases, ok}
use block_rust.Base.Ord.{bytes_ord}
use block_rust.OrdMap.{OrdMap, get, modify, range_from, range_to}
use block_rust.Types.{Key}
use block_rust.Index.Defs.{Entry, Node}
use block_rust.Index.Writer.{push_history, first, last, insert_node, update_keymap}
use block_rust.Index.Links.Splice.{
  IsAscending, Linked, splice, splice-IsAscending, splice-Linked, push-IsAscending, push-Linked,
}
use block_rust.Index.Links.Before.{link_before-splice}
use block_rust.Index.Links.After.{last_below, link_after-splice}

-- `update_value` writes to the history of a node that the map has, and splices in one that it lacks.
pub update_keymap-splice :
    (key : Key) (e : Entry) (m : OrdMap Key Node)
    → Linked none m
    → IsAscending m
    → update_keymap key e m ≡ elim (get key m) [
      | none ↦ ok (splice none key e m)
      | some node ↦ ok (modify key (push_history e) m)
    ]
unfolding update_keymap insert_node
update_keymap-splice key e [] l a = unfold get first last range_from range_to splice in refl
update_keymap-splice key e ((j, w) ∷ m) l a = elim (Option-cases (get key ((j, w) ∷ m))) [
  | inr (node, h) ↦ rw (h, update_keymap)
  | inl h ↦ elim (Option-cases (first (range_from key ((j, w) ∷ m)))) [
    | inr (next, f) ↦
        ground (arith, h, f, link_before-splice key e none ((j, w) ∷ m) next tt l a h f)
    | inl f ↦
        let (prev, t, n, b, o) = last_below key e none j w m l a f in
        ground (arith, h, f, t, link_after-splice key e none j w m prev l a f t)
  ]
]

-- If the nodes of the map are doubly linked in the order of their keys, which ascend strictly, and the
-- update of a key succeeds, then so are those of the new map.
pub update_keymap-Linked :
    (key : Key) (e : Entry) (m m' : OrdMap Key Node)
    → Linked none m
    → IsAscending m
    → update_keymap key e m ≡ ok m'
    → Linked none m' × IsAscending m'
update_keymap-Linked key e m m' l a h = elim (Option-cases (get key m)) [
  | inr (node, f) ↦
      let same : m' ≡ modify key (push_history e) m =
        ground (arith, update_keymap-splice key e m l a) in
      rw same (push-Linked none key e m l, push-IsAscending key e m a)
  | inl f ↦
      let same : m' ≡ splice none key e m = ground (arith, update_keymap-splice key e m l a) in
      rw same (splice-Linked none key e m l, splice-IsAscending none key e m f a)
]
