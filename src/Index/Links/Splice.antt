-- ===== src/Index/Links/Splice.antt =====
-- index.rs: the list of the nodes, and a new node spliced into it at the place of its key.
use block_rust.Base.{
  ◌≡◌, refl, ◌∙◌, sym, inl, inr, true, false, Option, none, some, [], ◌∷◌, arith, if◌then◌else◌,
  Bool-cases,
}
use block_rust.Base.Ord.{bytes_ord}
use block_rust.OrdMap.{OrdMap, get, modify}
use block_rust.Types.{Key}
use block_rust.Index.Defs.{Entry, Node}
use block_rust.Index.Writer.{push_history, set_prev, set_next}

abbrev pub first_key : OrdMap Key Node → Option Key
first_key [] = none
first_key ((k, n) ∷ m) = some k

-- All keys lie above `k`.
abbrev pub AllAbove : Key → OrdMap Key Node → Type 0
AllAbove k [] = Unit
AllAbove k ((j, n) ∷ m) = (bytes_ord.lt k j ≡ true) × AllAbove k m

abbrev pub IsAscending : OrdMap Key Node → Type 0
IsAscending [] = Unit
IsAscending ((k, n) ∷ m) = AllAbove k m × IsAscending m

-- Each node has its own key, and points to its neighbours; `p` is in front of the first.
abbrev pub Linked : Option Key → OrdMap Key Node → Type 0
Linked p [] = Unit
Linked p ((k, n) ∷ m) = (n.key ≡ k) × (n.prev ≡ p) × (n.next ≡ first_key m) × Linked (some k) m

-- The map with a new node for `key`.
unfoldable pub splice : Option Key → Key → Entry → OrdMap Key Node → OrdMap Key Node
splice p key e [] = (key, record { key = key; prev = p; next = none; history = e ∷ [] }) ∷ []
splice p key e ((j, w) ∷ m) =
    if bytes_ord.lt key j
    then (key, record { key = key; prev = p; next = some j; history = e ∷ [] })
      ∷ (j, set_prev (some key) w)
      ∷ m
    else (j, set_next (first_key (splice (some j) key e m)) w) ∷ splice (some j) key e m

pub not_below : (i j : Key) → bytes_ord.lt i j ≡ true → bytes_ord.lt j i ≡ false
not_below i j h = elim (Bool-cases (bytes_ord.lt j i)) [
  | inl k ↦ ground (arith, bytes_ord.lt_trans i j i h k, bytes_ord.lt_irrefl i)
  | inr k ↦ k
]

pub not_equal : (i j : Key) → bytes_ord.lt i j ≡ true → bytes_ord.eq i j ≡ false
not_equal i j h = ground (arith, bytes_ord.eq_iff i j, bytes_ord.lt_irrefl i)

pub not_equal_sym : (i j : Key) → bytes_ord.lt i j ≡ true → bytes_ord.eq j i ≡ false
not_equal_sym i j h = ground (arith, bytes_ord.eq_iff j i, bytes_ord.lt_irrefl i)

pub AllAbove-trans :
    (i j : Key) (m : OrdMap Key Node) → bytes_ord.lt i j ≡ true → AllAbove j m → AllAbove i m
AllAbove-trans i j [] h a = tt
AllAbove-trans i j ((k, n) ∷ m) h a = (bytes_ord.lt_trans i j k h a.0, AllAbove-trans i j m h a.1)

AllAbove-splice :
    (i : Key) (p : Option Key) (key : Key) (e : Entry) (m : OrdMap Key Node)
    → bytes_ord.lt i key ≡ true
    → AllAbove i m
    → AllAbove i (splice p key e m)
unfolding splice
AllAbove-splice i p key e [] h a = (h, tt)
AllAbove-splice i p key e ((j, w) ∷ m) h a =
    ground (arith, AllAbove-splice i (some j) key e m h a.1)

-- No other entry has the key.
pub get-AllAbove : (k : Key) (m : OrdMap Key Node) → AllAbove k m → get k m ≡ none
unfolding get
get-AllAbove k [] a = refl
get-AllAbove k ((j, n) ∷ m) a =
    ground (arith, get-AllAbove k m a.1, bytes_ord.eq_iff j k, bytes_ord.lt_irrefl k)

pub modify-AllAbove :
    (k : Key) (f : Node → Node) (m : OrdMap Key Node) → AllAbove k m → modify k f m ≡ m
unfolding modify
modify-AllAbove k f [] a = refl
modify-AllAbove k f ((j, n) ∷ m) a =
    ground (arith, modify-AllAbove k f m a.1, bytes_ord.eq_iff j k, bytes_ord.lt_irrefl k)

-- A key that the head is not, and that is not below the head, lies above it.
pub lt_of_missing :
    (key j : Key) (w : Node) (m : OrdMap Key Node)
    → get key ((j, w) ∷ m) ≡ none
    → bytes_ord.lt key j ≡ false
    → (bytes_ord.lt j key ≡ true) × (get key m ≡ none)
unfolding get
lt_of_missing key j w m h l = elim (Bool-cases (bytes_ord.eq j key)) [
  | inl e ↦ ground arith
  | inr ne ↦
      ground (arith, bytes_ord.lt_total key j l, bytes_ord.eq_iff j key, bytes_ord.eq_iff key j)
]

pub splice-IsAscending :
    (p : Option Key) (key : Key) (e : Entry) (m : OrdMap Key Node)
    → get key m ≡ none
    → IsAscending m
    → IsAscending (splice p key e m)
unfolding splice
splice-IsAscending p key e [] h a = (tt, tt)
splice-IsAscending p key e ((j, w) ∷ m) h a = elim (Bool-cases (bytes_ord.lt key j)) [
  | inl lt ↦ rw lt ((lt, AllAbove-trans key j m lt a.0), a)
  | inr ge ↦
      let (gt, missing) = lt_of_missing key j w m h ge in
      rw ge
        (AllAbove-splice j (some j) key e m gt a.0, splice-IsAscending (some j) key e m missing a.1)
]

pub splice-Linked :
    (p : Option Key) (key : Key) (e : Entry) (m : OrdMap Key Node)
    → Linked p m
    → Linked p (splice p key e m)
unfolding splice
splice-Linked p key e [] l = (refl, refl, refl, tt)
splice-Linked p key e ((j, w) ∷ m) l = elim (Bool-cases (bytes_ord.lt key j)) [
  | inl lt ↦ rw lt (refl, refl, refl, (l.0, refl, l.2, l.3))
  | inr ge ↦ rw ge (l.0, l.1, refl, splice-Linked (some j) key e m l.3)
]

-- A write to an existing node keeps the list.
first_key-push :
    (k : Key) (e : Entry) (m : OrdMap Key Node)
    → first_key (modify k (push_history e) m) ≡ first_key m
unfolding modify
first_key-push k e [] = refl
first_key-push k e ((j, w) ∷ m) = refl

AllAbove-push :
    (i k : Key) (e : Entry) (m : OrdMap Key Node)
    → AllAbove i m
    → AllAbove i (modify k (push_history e) m)
unfolding modify
AllAbove-push i k e [] a = tt
AllAbove-push i k e ((j, w) ∷ m) a = (a.0, AllAbove-push i k e m a.1)

pub push-IsAscending :
    (k : Key) (e : Entry) (m : OrdMap Key Node)
    → IsAscending m
    → IsAscending (modify k (push_history e) m)
unfolding modify
push-IsAscending k e [] a = tt
push-IsAscending k e ((j, w) ∷ m) a = (AllAbove-push j k e m a.0, push-IsAscending k e m a.1)

pub push-Linked :
    (p : Option Key) (k : Key) (e : Entry) (m : OrdMap Key Node)
    → Linked p m
    → Linked p (modify k (push_history e) m)
unfolding modify
push-Linked p k e [] l = tt
push-Linked p k e ((j, w) ∷ m) l = elim (Bool-cases (bytes_ord.eq j k)) [
  | inl hit ↦ rw hit (l.0, l.1, l.2 ∙ sym (first_key-push k e m), push-Linked (some j) k e m l.3)
  | inr miss ↦ rw miss (l.0, l.1, l.2 ∙ sym (first_key-push k e m), push-Linked (some j) k e m l.3)
]
