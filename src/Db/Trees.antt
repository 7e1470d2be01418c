-- ===== src/Db/Trees.antt =====
-- basic_db.rs: what the loop of a commit over the trees leaves of them, on each way out.
use block_rust.Base.{
  ◌+◌, ◌<◌, ◌≤◌, ◌≡◌, refl, ap, ◌∙◌, inl, inr, Bool-cases, true, List, [], ◌∷◌, arith, leb, u64_mod,
  Outcome, ok, err, panic,
}
use block_rust.Base.Ord.{bytes_ord}
use block_rust.OrdMap.{OrdMap, get}
use block_rust.Types.{Key, Batch, BatchCommit, Commit}
use block_rust.Command.{Command}
use block_rust.CommitLog.{CommitCommand}
use block_rust.LogFile.{LogFile}
use block_rust.BatchPlayer.{replay}
use block_rust.Index.Defs
use block_rust.Index.Defs.{Index}
use block_rust.Index.Events.{Event}
use block_rust.Tree.CommitToIndex
use block_rust.Tree.CommitOps.{IsIndex}
use block_rust.Tree.Snapshots.{IsAfter, unchanged-IsAfter, committed-IsAfter}
use block_rust.Tree.Ops
use block_rust.Tree.Ops.{Tree}
use block_rust.Db.{Name, commit_trees, read_tree}

module _ {f : LogFile Command} where
  -- The index of the tree stands for a history, has reached the limit of the views, and has not passed
  -- the next commit.
  pub record IsTreeAt (view next : Commit) (t : Tree f) : Type 0 where
    pub events : List Event
    pub is_index : IsIndex t.index events
    pub reached : view ≤ t.index.maybe_next_commit
    pub not_passed : t.index.maybe_next_commit ≤ next

  abbrev pub AreTreesAt : Commit → Commit → OrdMap Name (Tree f) → Type 0
  AreTreesAt view next [] = Unit
  AreTreesAt view next ((name, t) ∷ trees) = IsTreeAt view next t × AreTreesAt view next trees

  -- Tree by tree, only the index has changed, by a commit with the number `c` at most.
  abbrev pub AreAfter : Commit → OrdMap Name (Tree f) → OrdMap Name (Tree f) → Type 0
  AreAfter c [] [] = Unit
  AreAfter c [] (t ∷ trees) = ⊥
  AreAfter c (t ∷ trees) [] = ⊥
  AreAfter c ((name, t) ∷ trees) ((name', t') ∷ trees') =
      (name' ≡ name)
      × (t' ≡ record t { index = t'.index })
      × IsAfter c t.index t'.index
      × AreAfter c trees trees'

  weaken-IsTreeAt :
      (view next : Commit) (t : Tree f) → IsTreeAt view next t → IsTreeAt view (next + 1) t
  weaken-IsTreeAt view next t h = record {
    events = h.events;
    is_index = h.is_index;
    reached = h.reached;
    not_passed = omega (arith, h.not_passed);
  }

  pub weaken-AreTreesAt :
      (view next : Commit) (trees : OrdMap Name (Tree f))
      → AreTreesAt view next trees
      → AreTreesAt view (next + 1) trees
  weaken-AreTreesAt view next [] h = tt
  weaken-AreTreesAt view next ((name, t) ∷ trees) h =
      (weaken-IsTreeAt view next t h.0, weaken-AreTreesAt view next trees h.1)

  pub unchanged-AreAfter :
      (view c : Commit) (trees : OrdMap Name (Tree f))
      → c + 1 < u64_mod
      → AreTreesAt view c trees
      → AreAfter c trees trees
  unchanged-AreAfter view c [] room h = tt
  unchanged-AreAfter view c ((name, t) ∷ trees) room h = (
    refl,
    refl,
    unchanged-IsAfter h.0.is_index c room h.0.not_passed,
    unchanged-AreAfter view c trees room h.1,
  )

  -- What the loop over the trees leaves, and what it leaves if it does not panic.
  pub record IsCommitted (view c : Commit) (trees : OrdMap Name (Tree f))
      (x : Outcome (Unit {0}) × OrdMap Name (Tree f)) : Type 0 where
    pub after : AreAfter c trees x.1
    pub trees_at : AreTreesAt view (c + 1) x.1
    pub done : x.0 ≡ ok tt → AreTreesAt (c + 1) (c + 1) x.1

  committed_tree :
      (b : Batch) (bc : BatchCommit) (c : Commit) (t : Tree f) (es : List Event)
      → IsIndex t.index es
      → c + 1 < u64_mod
      → t.index.maybe_next_commit ≤ c
      → ((Ops.commit_to_index f b bc c t).1
          ≡ record t { index = (Ops.commit_to_index f b bc c t).1.index })
        × IsAfter c t.index (Ops.commit_to_index f b bc c t).1.index
        × ((Ops.commit_to_index f b bc c t).0 ≡ ok tt
            → (Ops.commit_to_index f b bc c t).1.index.maybe_next_commit ≡ c + 1)
  unfolding Ops.commit_to_index CommitToIndex.commit_to_index
  committed_tree b bc c t es h room fits =
      let (k, n) = committed-IsAfter h c room fits (replay b bc t.batch_player) in (refl, k, n)

  after-IsTreeAt :
      (view c : Commit) (t t' : Tree f)
      → IsTreeAt view c t
      → IsAfter c t.index t'.index
      → IsTreeAt view (c + 1) t'
  after-IsTreeAt view c t t' h k = record {
    events = k.events;
    is_index = k.is_index;
    reached = omega (arith, h.reached, k.not_back);
    not_passed = k.not_past;
  }

  reached-IsTreeAt :
      (c : Commit) (t t' : Tree f)
      → IsAfter c t.index t'.index
      → t'.index.maybe_next_commit ≡ c + 1
      → IsTreeAt (c + 1) (c + 1) t'
  reached-IsTreeAt c t t' k e = record {
    events = k.events;
    is_index = k.is_index;
    reached = omega (arith, e);
    not_passed = k.not_past;
  }

  -- The trees behind one that panics stay as they were.
  stopped-IsCommitted :
      (view c : Commit) (name : Name) (t t' : Tree f) (trees : OrdMap Name (Tree f))
      (r : Outcome (Unit {0}))
      → c + 1 < u64_mod
      → IsTreeAt view c t
      → (t' ≡ record t { index = t'.index })
      → IsAfter c t.index t'.index
      → AreTreesAt view c trees
      → (r ≡ ok tt → ⊥)
      → IsCommitted view c ((name, t) ∷ trees) (r, (name, t') ∷ trees)
  stopped-IsCommitted view c name t t' trees r room h q k hs fails = record {
    after = (refl, q, k, unchanged-AreAfter view c trees room hs);
    trees_at = (after-IsTreeAt view c t t' h k, weaken-AreTreesAt view c trees hs);
    done = λ e. absurd (fails e);
  }

  -- One tree in front of those behind it.
  step-IsCommitted :
      (view c : Commit) (name : Name) (t : Tree f) (trees : OrdMap Name (Tree f))
      (x : Outcome (Unit {0}) × OrdMap Name (Tree f)) (r : Outcome (Unit {0})) (t' : Tree f)
      → c + 1 < u64_mod
      → AreTreesAt view c ((name, t) ∷ trees)
      → IsCommitted view c trees x
      → (t' ≡ record t { index = t'.index })
      → IsAfter c t.index t'.index
      → (r ≡ ok tt → t'.index.maybe_next_commit ≡ c + 1)
      → IsCommitted view c ((name, t) ∷ trees) (elim r [
        | ok u ↦ (x.0, (name, t') ∷ x.1)
        | err e ↦ (err e, (name, t') ∷ trees)
        | panic ↦ (panic, (name, t') ∷ trees)
      ])
  step-IsCommitted view c name t trees x (ok u) t' room h rest q k n = record {
    after = (refl, q, k, rest.after);
    trees_at = (after-IsTreeAt view c t t' h.0 k, rest.trees_at);
    done = λ e. (reached-IsTreeAt c t t' k (n refl), rest.done e);
  }
  step-IsCommitted view c name t trees x (err e) t' room h rest q k n =
      stopped-IsCommitted view c name t t' trees (err e) room h.0 q k h.1 (λ e'. cc)
  step-IsCommitted view c name t trees x panic t' room h rest q k n =
      stopped-IsCommitted view c name t t' trees panic room h.0 q k h.1 (λ e'. cc)

  pub commit_trees-IsCommitted :
      (g : LogFile CommitCommand) (view : Commit) (b : Batch) (bc : BatchCommit) (c : Commit)
      (trees : OrdMap Name (Tree f))
      → c + 1 < u64_mod
      → AreTreesAt view c trees
      → IsCommitted view c trees (commit_trees f g b bc c trees)
  unfolding commit_trees
  commit_trees-IsCommitted g view b bc c [] room h = record {
    after = tt;
    trees_at = tt;
    done = λ e. tt;
  }
  commit_trees-IsCommitted g view b bc c ((name, t) ∷ trees) room h =
      let (q, k, n) = committed_tree b bc c t h.0.events h.0.is_index room h.0.not_passed in
      step-IsCommitted view c name t trees (commit_trees f g b bc c trees)
        (Ops.commit_to_index f b bc c t).0 (Ops.commit_to_index f b bc c t).1 room h
        (commit_trees-IsCommitted g view b bc c trees room h.1) q k n

  -- A limit that the tree has reached reads the same in the tree and with the index behind a commit.
  read-IsAfter :
      (limit c : Commit) (key : Key) (t : Tree f) (index' : Index)
      → IsAfter c t.index index'
      → limit ≤ t.index.maybe_next_commit
      → limit ≤ c
      → Ops.read f (record t { index = index' }) limit key ≡ Ops.read f t limit key
  unfolding Ops.read Defs.read
  read-IsAfter limit c key t index' k reached below =
      let before : leb limit t.index.maybe_next_commit ≡ true = ground (arith, reached) in
      let later : leb limit index'.maybe_next_commit ≡ true = ground (arith, reached, k.not_back) in
      rw (before, later, k.snapshot limit key below)

  pub get-AreAfter :
      (g : LogFile CommitCommand) (view limit c : Commit) (name : Name) (key : Key)
      (trees trees' : OrdMap Name (Tree f))
      → AreTreesAt view c trees
      → AreAfter c trees trees'
      → limit ≤ view
      → limit ≤ c
      → read_tree f g limit key (get name trees') ≡ read_tree f g limit key (get name trees)
  unfolding get
  get-AreAfter g view limit c name key [] [] h k old below = refl
  get-AreAfter g view limit c name key [] (t ∷ trees) h k old below = absurd k
  get-AreAfter g view limit c name key (t ∷ trees) [] h k old below = absurd k
  get-AreAfter g view limit c name key ((n, t) ∷ trees) ((n', t') ∷ trees') h k old below =
      rw k.0 (elim (Bool-cases (bytes_ord.eq n name)) [
        | inl hit ↦ rw hit (
            ap (λ x. Ops.read f x limit key) k.1
            ∙ read-IsAfter limit c key t t'.index k.2 (omega (arith, h.0.reached, old)) below)
        | inr miss ↦ rw miss (get-AreAfter g view limit c name key trees trees' h.1 k.3 old below)
      ])
