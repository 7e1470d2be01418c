-- ===== src/Tree/Commits.antt =====
-- tree.rs: a commit changes the map of its index at once, for the limits above it and no others.
use block_rust.Base.{
  ◌+◌, ◌<◌, ◌≤◌, ◌≡◌, refl, ◌∙◌, inl, inr, Bool, true, false, List, [], ◌∷◌, ◌++◌, arith, ltb,
  if◌then◌else◌, u32_mod, All, length, ok, panic, Bool-cases, ◌&&◌,
}
use block_rust.Base.Ord.{bytes_ord, le}
use block_rust.Types.{Key, Commit}
use block_rust.BatchPlayer.{IndexOp, write, delete, delete_range}
use block_rust.Index.Defs.{BatchIdx, ReadValue, written, deleted, Entry}
use block_rust.Index.Writer
use block_rust.Index.Writer.{Writer, writer, drop, push_range_delete}
use block_rust.Index.Points.{update_keymap-Appends}
use block_rust.Index.Events.{Event, effects, view}
use block_rust.Index.History.{
  IsWriting, event, write-IsWriting, delete-IsWriting, delete_range-IsWriting, AllBefore-mono,
  advanced,
}
use block_rust.Tree.CommitToIndex.{apply_op, apply_ops}

-- The assertion of `Writer::delete_range`.
unfoldable pub in_order : IndexOp → Bool
in_order (write key addr) = true
in_order (delete key addr) = true
in_order (delete_range start end addr) = le start end

unfoldable pub all_in_order : List IndexOp → Bool
unfolding in_order
all_in_order [] = true
all_in_order (op ∷ ops) = in_order op && all_in_order ops

-- What a write that succeeds leaves.
pub record Applied (w : Writer) (es : List Event) (op : IndexOp) (w' : Writer) : Type 0 where
  pub writing : IsWriting w' (event w op ∷ es)
  pub commit : w'.commit ≡ w.commit
  pub position : w'.batch_index ≡ w.batch_index + 1

abbrev entry : Writer → ReadValue → Entry
entry w value = record { commit = w.commit; value = value; batch_idx = w.batch_index }

module _ {w : Writer} {es : List Event} (h : IsWriting w es) where
  pub apply_op-Applied :
      (op : IndexOp)
      → in_order op ≡ true
      → w.batch_index + 1 < u32_mod
      → (w' : Writer) × (apply_op op w ≡ (ok tt, w')) × Applied w es op w'
  unfolding apply_op in_order Writer.write Writer.delete Writer.delete_range
  apply_op-Applied (write key addr) v fits =
      let (m, e, a) = update_keymap-Appends key (entry w (written addr)) w.state.keymap in
      (
        advanced w (record w.state { keymap = m }),
        ground (arith, e),
        record { writing = write-IsWriting h key addr m a; commit = refl; position = refl },
      )
  apply_op-Applied (delete key addr) v fits =
      let (m, e, a) = update_keymap-Appends key (entry w (deleted addr)) w.state.keymap in
      (
        advanced w (record w.state { keymap = m }),
        ground (arith, e),
        record { writing = delete-IsWriting h key addr m a; commit = refl; position = refl },
      )
  apply_op-Applied (delete_range start end addr) v fits = (
    record (push_range_delete start end w.batch_index w) { batch_index = w.batch_index + 1 },
    ground arith,
    record { writing = delete_range-IsWriting h start end addr; commit = refl; position = refl },
  )

  skip-IsWriting : IsWriting (record w { batch_index = w.batch_index + 1 }) es
  skip-IsWriting = record {
    represents = h.represents;
    before = AllBefore-mono es w.commit w.batch_index (w.batch_index + 1) (omega arith) h.before;
  }

  -- No position is left: nothing changes.
  pub apply_op-full : (op : IndexOp) → u32_mod ≤ w.batch_index + 1 → apply_op op w ≡ (panic, w)
  unfolding apply_op Writer.write Writer.delete Writer.delete_range
  apply_op-full (write key addr) full = ground arith
  apply_op-full _ full = ground arith

  -- The range is not in order: the position is gone, and nothing else changes.
  pub apply_op-disorder :
      (op : IndexOp)
      → in_order op ≡ false
      → w.batch_index + 1 < u32_mod
      → apply_op op w ≡ (panic, record w { batch_index = w.batch_index + 1 })
  unfolding apply_op in_order Writer.delete_range
  apply_op-disorder (write key addr) v fits = ground arith
  apply_op-disorder (delete key addr) v fits = ground arith
  apply_op-disorder (delete_range start end addr) v fits = ground arith

-- The events of a batch, whose first write has the position `i`, on top of `es`.
unfoldable pub push_events : Commit → BatchIdx → List IndexOp → List Event → List Event
push_events c i [] es = es
push_events c i (op ∷ ops) es =
    push_events c (i + 1) ops (record { commit = c; batch_idx = i; op = op } ∷ es)

pub view-push_events :
    (limit c : Commit) (i : BatchIdx) (ops : List IndexOp) (es : List Event) (key : Key)
    → view limit (push_events c i ops es) key
      ≡ (if ltb c limit then effects ops key (view limit es key) else view limit es key)
unfolding push_events effects view
view-push_events limit c i [] es key = ground arith
view-push_events limit c i (op ∷ ops) es key = ground (
  arith,
  view-push_events limit c (i + 1) ops (record { commit = c; batch_idx = i; op = op } ∷ es) key,
)

-- A batch whose ranges are in order, and whose writes a `u32` counts, is applied whole.
pub apply_ops-ok :
    (ops : List IndexOp) (w : Writer) (es : List Event)
    → IsWriting w es
    → all_in_order ops ≡ true
    → w.batch_index + length ops < u32_mod
    → (w' : Writer) × (apply_ops ops w ≡ (ok tt, w'))
      × IsWriting w' (push_events w.commit w.batch_index ops es)
      × (w'.commit ≡ w.commit)
unfolding apply_ops all_in_order push_events
apply_ops-ok [] w es h v fits = (w, refl, h, refl)
apply_ops-ok (op ∷ ops) w es h v fits =
    let (w', e, a) = apply_op-Applied h op (ground arith) (omega arith) in
    let (w'', e', h', c') =
      apply_ops-ok ops w' (event w op ∷ es) a.writing (ground arith) (omega (arith, a.position)) in
    (
      w'',
      ground (arith, e, e'),
      ground (arith, a.commit, a.position, h'),
      ground (arith, a.commit, c'),
    )

-- A range that is not in order stops the batch behind the writes before it.
pub apply_ops-disorder :
    (ops : List IndexOp) (bad : IndexOp) (rest : List IndexOp) (w : Writer) (es : List Event)
    → IsWriting w es
    → all_in_order ops ≡ true
    → in_order bad ≡ false
    → w.batch_index + length ops + 1 < u32_mod
    → (w' : Writer) × (apply_ops (ops ++ bad ∷ rest) w ≡ (panic, w'))
      × IsWriting w' (push_events w.commit w.batch_index ops es)
      × (w'.commit ≡ w.commit)
unfolding apply_ops all_in_order push_events
apply_ops-disorder [] bad rest w es h v b fits = (
  record w { batch_index = w.batch_index + 1 },
  ground (arith, apply_op-disorder h bad b (omega arith)),
  skip-IsWriting h,
  refl,
)
apply_ops-disorder (op ∷ ops) bad rest w es h v b fits =
    let (w', e, a) = apply_op-Applied h op (ground arith) (omega arith) in
    let (w'', e', h', c') =
      apply_ops-disorder ops bad rest w' (event w op ∷ es) a.writing (ground arith) b
        (omega (arith, a.position)) in
    (
      w'',
      ground (arith, e, e'),
      ground (arith, a.commit, a.position, h'),
      ground (arith, a.commit, c'),
    )

-- A property of the writes of all events.
abbrev pub AllOps : (IndexOp → Type 0) → List Event → Type 0
AllOps P [] = Unit
AllOps P (e ∷ es) = P e.op × AllOps P es

pub AllOps-push_events :
    (P : IndexOp → Type 0) (c : Commit) (i : BatchIdx) (ops : List IndexOp) (es : List Event)
    → All P ops
    → AllOps P es
    → AllOps P (push_events c i ops es)
unfolding push_events
AllOps-push_events P c i [] es h k = k
AllOps-push_events P c i (op ∷ ops) es h k =
    AllOps-push_events P c (i + 1) ops (record { commit = c; batch_idx = i; op = op } ∷ es) h.1
      (h.0, k)

-- However the batch ends, the state stands for some history of writes of the batch and earlier ones,
-- and the limits up to the writer's commit see what they saw before.
pub apply_ops-IsWriting :
    (P : IndexOp → Type 0) (ops : List IndexOp) (w : Writer) (es : List Event)
    → IsWriting w es
    → All P ops
    → AllOps P es
    → (es' : List Event) × IsWriting (apply_ops ops w).1 es'
      × ((apply_ops ops w).1.commit ≡ w.commit)
      × AllOps P es'
      × ((limit : Commit) (key : Key) → limit ≤ w.commit → view limit es' key ≡ view limit es key)
unfolding apply_ops view
apply_ops-IsWriting P [] w es h a k = (es, h, refl, k, λ limit key below. refl)
apply_ops-IsWriting P (op ∷ ops) w es h a k = elim (Bool-cases (ltb (w.batch_index + 1) u32_mod)) [
  | inr full ↦ rw (apply_op-full h op (ground arith)) (es, h, refl, k, λ limit key below. refl)
  | inl room ↦ elim (Bool-cases (in_order op)) [
    | inr bad ↦
        rw (apply_op-disorder h op bad (ground arith))
          (es, skip-IsWriting h, refl, k, λ limit key below. refl)
    | inl good ↦
        let (w', e, applied) = apply_op-Applied h op good (ground arith) in
        let (es', h', c', k', s') =
          apply_ops-IsWriting P ops w' (event w op ∷ es) applied.writing a.1 (a.0, k) in
        rw e (
          es',
          h',
          c' ∙ applied.commit,
          k',
          λ limit key below. ground (arith, s' limit key (omega (arith, below, applied.commit))),
        )
  ]
]
