-- ===== src/Index/Points.antt =====
-- index.rs: what `update_value` does to the histories, whichever way it links the node.
use block_rust.Base.{
  ◌≡◌, refl, Option, none, some, List, [], ◌∷◌, ◌++◌, arith, ltb, if◌then◌else◌, rfind,
  Option-cases, inl, inr, ok,
}
use block_rust.Base.Ord.{bytes_ord}
use block_rust.OrdMap.{OrdMap, get, modify, insert, range_from, range_to, get-insert, get-modify}
use block_rust.Types.{Key, Commit}
use block_rust.Index.Defs.{Entry, Node, IndexState, point_query}
use block_rust.Index.Writer.{
  push_history, set_prev, set_next, modify_at, first, last, link_before, link_after, insert_node,
  update_keymap,
}

-- The history of a key: empty if the map lacks it.
unfoldable pub history_of : Key → OrdMap Key Node → List Entry
history_of key m = elim (get key m) [ none ↦ [] | some node ↦ node.history ]

pub point_query-history :
    (st : IndexState) (limit : Commit) (key : Key)
    → point_query st limit key ≡ rfind (λ e. ltb e.commit limit) (history_of key st.keymap)
unfolding point_query history_of rfind
point_query-history st limit key = ground arith

history-set_prev :
    (j k : Key) (p : Option Key) (m : OrdMap Key Node)
    → history_of k (modify j (set_prev p) m) ≡ history_of k m
unfolding history_of
history-set_prev j k p m = ground (arith, get-modify j k (set_prev p) m)

history-set_next :
    (j k : Key) (p : Option Key) (m : OrdMap Key Node)
    → history_of k (modify j (set_next p) m) ≡ history_of k m
unfolding history_of
history-set_next j k p m = ground (arith, get-modify j k (set_next p) m)

history-set_prev_at :
    (o : Option Key) (k : Key) (p : Option Key) (m : OrdMap Key Node)
    → history_of k (modify_at o (set_prev p) m) ≡ history_of k m
history-set_prev_at none k p m = refl
history-set_prev_at (some j) k p m = history-set_prev j k p m

history-set_next_at :
    (o : Option Key) (k : Key) (p : Option Key) (m : OrdMap Key Node)
    → history_of k (modify_at o (set_next p) m) ≡ history_of k m
history-set_next_at none k p m = refl
history-set_next_at (some j) k p m = history-set_next j k p m

history-insert :
    (j k : Key) (node : Node) (m : OrdMap Key Node)
    → history_of k (insert j node m) ≡ (if bytes_ord.eq j k then node.history else history_of k m)
unfolding history_of
history-insert j k node m = ground (arith, get-insert j k node m)

history-push :
    (j k : Key) (e : Entry) (node : Node) (m : OrdMap Key Node)
    → get j m ≡ some node
    → history_of k (modify j (push_history e) m)
      ≡ (if bytes_ord.eq j k then history_of k m ++ e ∷ [] else history_of k m)
unfolding history_of
history-push j k e node m h =
    ground (arith, get-modify j k (push_history e) m, bytes_ord.eq_iff j k)

history-missing : (k : Key) (m : OrdMap Key Node) → get k m ≡ none → history_of k m ≡ []
unfolding history_of
history-missing k m h = ground arith

-- A write at `key` appends to the history of `key`, and to no other.
abbrev pub Appends : Key → Entry → OrdMap Key Node → OrdMap Key Node → Type 0
Appends key e m m' =
    (k : Key)
    → history_of k m' ≡ (if bytes_ord.eq key k then history_of k m ++ e ∷ [] else history_of k m)

module _ (key : Key) (e : Entry) where
  link_before-Appends :
      (next : Node) (m : OrdMap Key Node)
      → get key m ≡ none
      → Appends key e m (link_before key e next m)
  unfolding link_before
  link_before-Appends next m h k = ground (
    arith,
    history-insert key k
        (record { key = key; prev = next.prev; next = some next.key; history = e ∷ [] })
        (modify next.key (set_prev (some key)) (modify_at next.prev (set_next (some key)) m)),
    history-set_prev next.key k (some key) (modify_at next.prev (set_next (some key)) m),
    history-set_next_at next.prev k (some key) m,
    history-missing key m h,
    bytes_ord.eq_iff key k,
  )

  link_after-Appends :
      (prev : Node) (m : OrdMap Key Node)
      → get key m ≡ none
      → Appends key e m (link_after key e prev m)
  unfolding link_after
  link_after-Appends prev m h k = ground (
    arith,
    history-insert key k
        (record { key = key; prev = some prev.key; next = prev.next; history = e ∷ [] })
        (modify prev.key (set_next (some key)) (modify_at prev.next (set_prev (some key)) m)),
    history-set_next prev.key k (some key) (modify_at prev.next (set_prev (some key)) m),
    history-set_prev_at prev.next k (some key) m,
    history-missing key m h,
    bytes_ord.eq_iff key k,
  )

  only-Appends :
      Appends key e []
        ((key, record { key = key; prev = none; next = none; history = e ∷ [] }) ∷ [])
  unfolding history_of get
  only-Appends k = ground arith

  insert_node-Appends :
      (next prev : Option Node) (m : OrdMap Key Node)
      → get key m ≡ none
      → (next ≡ none → prev ≡ none → m ≡ [])
      → (m' : OrdMap Key Node) × (insert_node key e next prev m ≡ ok m') × Appends key e m m'
  unfolding insert_node
  insert_node-Appends (some next) prev m h only = (_, refl, link_before-Appends next m h)
  insert_node-Appends none (some prev) m h only = (_, refl, link_after-Appends prev m h)
  insert_node-Appends none none [] h only = (_, refl, only-Appends)
  insert_node-Appends none none (x ∷ m) h only = cc (only refl refl)

-- A map with no key at or above `key` and none at or below it is empty.
ranges_cover :
    (key : Key) (m : OrdMap Key Node)
    → first (range_from key m) ≡ none
    → last (range_to key m) ≡ none
    → m ≡ []
unfolding first last range_from range_to
ranges_cover key [] h k = refl
ranges_cover key ((j, n) ∷ m) h k =
    ground (arith, bytes_ord.lt_trans key j key, bytes_ord.lt_irrefl key)

-- `update_value` does not reach its assertion, and appends one entry to one history.
pub update_keymap-Appends :
    (key : Key) (e : Entry) (m : OrdMap Key Node)
    → (m' : OrdMap Key Node) × (update_keymap key e m ≡ ok m') × Appends key e m m'
unfolding update_keymap
update_keymap-Appends key e m = elim (Option-cases (get key m)) [
  | inl h ↦
      rw (h, update_keymap)
        (insert_node-Appends key e (first (range_from key m)) (last (range_to key m)) m h
          (ranges_cover key m))
  | inr (node, h) ↦
      rw (h, update_keymap)
        (modify key (push_history e) m, refl, λ k. history-push key k e node m h)
]
