-- ===== src/Index/Events.antt =====
-- The abstract view of index.rs: the writes of the commits in order, each a change of a map from keys
-- to addresses.
use block_rust.Base.{
  ◌<◌, ◌≡◌, refl, ◌⊎◌, Option, none, some, List, [], ◌∷◌, arith, ltb, if◌then◌else◌,
}
use block_rust.Base.Ord.{bytes_ord}
use block_rust.Types.{Key, Address, Commit}
use block_rust.BatchPlayer.{IndexOp, write, delete, delete_range}
use block_rust.Index.Defs.{
  BatchIdx, written, deleted, Entry, RangeDelete, range_contains, inner_true_value,
}

-- What a write does to the address of `key`.
unfoldable pub effect : IndexOp → Key → Option Address → Option Address
effect (write k addr) key old = if bytes_ord.eq k key then some addr else old
effect (delete k addr) key old = if bytes_ord.eq k key then none else old
effect (delete_range start end addr) key old = if range_contains start end key then none else old

-- The writes of a batch, one after the other.
unfoldable pub effects : List IndexOp → Key → Option Address → Option Address
unfolding effect
effects [] key old = old
effects (op ∷ ops) key old = effects ops key (effect op key old)

-- A write with its commit and its position in the commit.
pub record Event : Type 0 where
  pub commit : Commit
  pub batch_idx : BatchIdx
  pub op : IndexOp

-- The map below a commit limit. Histories have the newest event first.
unfoldable pub view : Commit → List Event → Key → Option Address
view limit [] key = none
view limit (e ∷ es) key =
    if ltb e.commit limit then effect e.op key (view limit es key) else view limit es key

point_of : Commit → BatchIdx → IndexOp → Key → Option Entry
point_of c i (write k addr) key =
    if bytes_ord.eq k key
    then some (record { commit = c; value = written addr; batch_idx = i })
    else none
point_of c i (delete k addr) key =
    if bytes_ord.eq k key
    then some (record { commit = c; value = deleted addr; batch_idx = i })
    else none
point_of c i (delete_range start end addr) key = none

range_of : Commit → BatchIdx → IndexOp → Key → Option RangeDelete
range_of c i (write k addr) key = none
range_of c i (delete k addr) key = none
range_of c i (delete_range start end addr) key =
    if range_contains start end key
    then some (record { commit = c; start = start; end = end; batch_idx = i })
    else none

or_older {ℓ} : {A : Type ℓ} → Option A → Option A → Option A
or_older none old = old
or_older (some a) old = some a

-- The latest entry of `key`, and the latest range that covers it.
unfoldable pub last_point : Commit → List Event → Key → Option Entry
unfolding point_of or_older
last_point limit [] key = none
last_point limit (e ∷ es) key =
    if ltb e.commit limit
    then or_older (point_of e.commit e.batch_idx e.op key) (last_point limit es key)
    else last_point limit es key

unfoldable pub last_range : Commit → List Event → Key → Option RangeDelete
unfolding range_of or_older
last_range limit [] key = none
last_range limit (e ∷ es) key =
    if ltb e.commit limit
    then or_older (range_of e.commit e.batch_idx e.op key) (last_range limit es key)
    else last_range limit es key

-- `(c, i)` comes before `(d, j)`.
abbrev pub Before : Commit → BatchIdx → Commit → BatchIdx → Type 0
Before c i d j = (c < d) ⊎ ((c ≡ d) × (i < j))

abbrev pub AllBefore : List Event → Commit → BatchIdx → Type 0
AllBefore [] d j = Unit
AllBefore (e ∷ es) d j = Before e.commit e.batch_idx d j × AllBefore es d j

-- Commits and positions grow.
abbrev pub IsOrdered : List Event → Type 0
IsOrdered [] = Unit
IsOrdered (e ∷ es) = AllBefore es e.commit e.batch_idx × IsOrdered es

point_of-stamp :
    (c : Commit) (i : BatchIdx) (op : IndexOp) (key : Key) (p : Entry)
    → point_of c i op key ≡ some p
    → (p.commit ≡ c) × (p.batch_idx ≡ i)
unfolding point_of
point_of-stamp c i (write k addr) key p h = ground arith
point_of-stamp c i _ key p h = ground arith

range_of-stamp :
    (c : Commit) (i : BatchIdx) (op : IndexOp) (key : Key) (r : RangeDelete)
    → range_of c i op key ≡ some r
    → (r.commit ≡ c) × (r.batch_idx ≡ i)
unfolding range_of
range_of-stamp c i (write k addr) key r h = ground arith
range_of-stamp c i _ key r h = ground arith

module _ (limit : Commit) (key : Key) (d : Commit) (j : BatchIdx) where
  last_point-Before :
      (es : List Event) (p : Entry)
      → AllBefore es d j
      → last_point limit es key ≡ some p
      → Before p.commit p.batch_idx d j
  unfolding last_point
  last_point-Before [] p b h = cc
  last_point-Before (e ∷ es) p b h =
      ground (arith, last_point-Before es p b.1, point_of-stamp e.commit e.batch_idx e.op key p)

  last_range-Before :
      (es : List Event) (r : RangeDelete)
      → AllBefore es d j
      → last_range limit es key ≡ some r
      → Before r.commit r.batch_idx d j
  unfolding last_range
  last_range-Before [] r b h = cc
  last_range-Before (e ∷ es) r b h =
      ground (arith, last_range-Before es r b.1, range_of-stamp e.commit e.batch_idx e.op key r)

-- Shadowing by the newest event.
newest :
    (limit : Commit) (key : Key) (c : Commit) (i : BatchIdx) (op : IndexOp) (p : Option Entry)
    (r : Option RangeDelete)
    → ((x : RangeDelete) → r ≡ some x → Before x.commit x.batch_idx c i)
    → ((x : Entry) → p ≡ some x → Before x.commit x.batch_idx c i)
    → inner_true_value (or_older (point_of c i op key) p) (or_older (range_of c i op key) r)
      ≡ effect op key (inner_true_value p r)
unfolding inner_true_value or_older point_of range_of effect
newest limit key c i (write k addr) p none hr hp = ground arith
newest limit key c i (write k addr) p (some r) hr hp = ground (arith, hr r refl)
newest limit key c i (delete k addr) p none hr hp = ground arith
newest limit key c i (delete k addr) p (some r) hr hp = ground arith
newest limit key c i (delete_range s e addr) none r hr hp = ground arith
newest limit key c i (delete_range s e addr) (some p) r hr hp = ground (arith, hp p refl)

-- The queries of the index, on the latest entry and the latest range, see the map of the writes.
pub true_value-view :
    (limit : Commit) (es : List Event) (key : Key)
    → IsOrdered es
    → inner_true_value (last_point limit es key) (last_range limit es key) ≡ view limit es key
unfolding last_point last_range view
true_value-view limit [] key h = unfold inner_true_value in refl
true_value-view limit (e ∷ es) key h = ground (
  arith,
  true_value-view limit es key h.1,
  newest limit key e.commit e.batch_idx e.op (last_point limit es key) (last_range limit es key)
      (λ x. last_range-Before limit key e.commit e.batch_idx es x h.0)
      (λ x. last_point-Before limit key e.commit e.batch_idx es x h.0),
)
