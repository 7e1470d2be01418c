-- ===== src/Tree/CommitOps.antt =====
-- tree.rs, index.rs: what the commit of some writes does to an index that stands for a history.
use block_rust.Base.{
  ℕ, ◌+◌, ◌<◌, ◌≤◌, ◌≡◌, refl, inl, inr, true, false, List, [], ◌∷◌, ◌++◌, arith, ltb, leb, u32_mod,
  u64_mod, length, All, rfind, Outcome, ok, panic, Bool-cases,
}
use block_rust.OrdMap.{get}
use block_rust.Types.{Commit}
use block_rust.BatchPlayer.{IndexOp}
use block_rust.Index.Defs
use block_rust.Index.Defs.{Index, IndexState, key_true_value, read, point_query, range_delete_query}
use block_rust.Index.Writer.{Writer, drop}
use block_rust.Index.Events.{Event, last_point, last_range, AllBefore}
use block_rust.Index.History.{Represents, IsWriting}
use block_rust.Tree.CommitToIndex.{apply_ops, commit_ops}
use block_rust.Tree.Commits.{
  in_order, all_in_order, push_events, apply_ops-ok, apply_ops-disorder, apply_ops-IsWriting,
  AllOps,
}

-- The index stands for a history whose commits are below its next one.
pub record IsIndex (index : Index) (es : List Event) : Type 0 where
  pub represents : Represents index.state es
  pub before : AllBefore es index.maybe_next_commit 0

pub new-IsIndex : IsIndex Defs.new []
unfolding point_query range_delete_query last_point last_range get rfind
new-IsIndex = record {
  represents = record { points = λ limit key. refl; ranges = λ limit key. refl; ordered = tt };
  before = tt;
}

-- A limit of the other commit bounds the events below it.
AllBefore-weaken :
    (es : List Event) (c d : Commit) (j : ℕ) → c ≤ d → AllBefore es c 0 → AllBefore es d j
AllBefore-weaken [] c d j h b = tt
AllBefore-weaken (e ∷ es) c d j h b = (ground arith, AllBefore-weaken es c d j h b.1)

-- The events of a writer lie below the commit that comes after it.
AllBefore-next : (es : List Event) (c i : ℕ) → AllBefore es c i → AllBefore es (c + 1) 0
AllBefore-next [] c i b = tt
AllBefore-next (e ∷ es) c i b = (ground arith, AllBefore-next es c i b.1)

abbrev pub opened : Index → Commit → Writer
opened index c = record {
  commit = c;
  state = index.state;
  batch_index = 0;
  maybe_next_commit = index.maybe_next_commit;
}

module _ {index : Index} {es : List Event} (h : IsIndex index es) (c : Commit) where
  pub opened-IsWriting : index.maybe_next_commit ≤ c → IsWriting (opened index c) es
  opened-IsWriting fits = record {
    represents = h.represents;
    before = AllBefore-weaken es index.maybe_next_commit c 0 fits h.before;
  }

  pub commit_ops-ok :
      (ops : List IndexOp)
      → index.maybe_next_commit ≤ c
      → all_in_order ops ≡ true
      → length ops < u32_mod
      → c + 1 < u64_mod
      → (index' : Index) × (commit_ops c ops index ≡ (ok tt, index'))
        × IsIndex index' (push_events c 0 ops es)
        × (index'.maybe_next_commit ≡ c + 1)
  unfolding commit_ops drop
  commit_ops-ok ops fits order count room =
      let (w', e, h', ec) =
        apply_ops-ok ops (opened index c) es (opened-IsWriting fits) order (omega arith) in
      (
        record { state = w'.state; maybe_next_commit = c + 1 },
        ground (arith, e, ec),
        record {
          represents = h'.represents;
          before = AllBefore-next (push_events c 0 ops es) c w'.batch_index (rw ec at h'.before);
        },
        refl,
      )

  -- A range out of order: the writes before it stay, without those behind it.
  pub commit_ops-disorder :
      (ops : List IndexOp) (bad : IndexOp) (rest : List IndexOp)
      → index.maybe_next_commit ≤ c
      → all_in_order ops ≡ true
      → in_order bad ≡ false
      → length ops + 1 < u32_mod
      → c + 1 < u64_mod
      → (index' : Index) × (commit_ops c (ops ++ bad ∷ rest) index ≡ (panic, index'))
        × IsIndex index' (push_events c 0 ops es)
        × (index'.maybe_next_commit ≡ c + 1)
  unfolding commit_ops drop
  commit_ops-disorder ops bad rest fits order wrong count room =
      let (w', e, h', ec) =
        apply_ops-disorder ops bad rest (opened index c) es (opened-IsWriting fits) order wrong
          (omega arith) in
      (
        record { state = w'.state; maybe_next_commit = c + 1 },
        ground (arith, e, ec),
        record {
          represents = h'.represents;
          before = AllBefore-next (push_events c 0 ops es) c w'.batch_index (rw ec at h'.before);
        },
        refl,
      )

-- A commit number below the next one is refused, and nothing changes.
pub commit_ops-stale :
    (c : Commit) (ops : List IndexOp) (index : Index)
    → c < index.maybe_next_commit
    → commit_ops c ops index ≡ (panic, index)
unfolding commit_ops
commit_ops-stale c ops index stale = ground arith

pub commit_ops-drop :
    (c : Commit) (ops : List IndexOp) (index : Index)
    → index.maybe_next_commit ≤ c
    → commit_ops c ops index
      ≡ drop (apply_ops ops (opened index c)).0 (apply_ops ops (opened index c)).1
unfolding commit_ops
commit_ops-drop c ops index fits = ground arith

pub drop-IsIndex :
    (result : Outcome (Unit {0})) (w : Writer) (es : List Event) (c : Commit)
    → IsWriting w es
    → w.commit ≡ c
    → c + 1 < u64_mod
    → IsIndex (drop result w).1 es
unfolding drop
drop-IsIndex result w es c h e room =
    let fits : ltb (w.commit + 1) u64_mod ≡ true = ground arith in
    rw (fits, drop)
      (record {
        represents = h.represents;
        before = AllBefore-next es w.commit w.batch_index h.before;
      })

pub commit_ops-IsIndex :
    (P : IndexOp → Type 0) (c : Commit) (ops : List IndexOp) (index : Index) (es : List Event)
    → c + 1 < u64_mod
    → IsIndex index es
    → All P ops
    → AllOps P es
    → (es' : List Event) × IsIndex (commit_ops c ops index).1 es' × AllOps P es'
commit_ops-IsIndex P c ops index es room h a k = elim (Bool-cases (leb index.maybe_next_commit c)) [
  | inr stale ↦ rw (commit_ops-stale c ops index (ground arith)) (es, h, k)
  | inl fits ↦
      let (es', h', ec, k', s') =
        apply_ops-IsWriting P ops (opened index c) es (opened-IsWriting h c (ground arith)) a k in
      rw (commit_ops-drop c ops index (ground arith))
        (es', drop-IsIndex (apply_ops ops (opened index c)).0 _ es' c h' ec room, k')
]

abbrev pub AnyOp : IndexOp → Type 0
AnyOp op = Unit

pub All-AnyOp : (ops : List IndexOp) → All AnyOp ops
All-AnyOp [] = tt
All-AnyOp (op ∷ ops) = (tt, All-AnyOp ops)

pub AllOps-AnyOp : (es : List Event) → AllOps AnyOp es
AllOps-AnyOp [] = tt
AllOps-AnyOp (e ∷ es) = (tt, AllOps-AnyOp es)
