-- ===== src/Db/Steady.antt =====
-- basic_db.rs: the methods of a writer but `commit` leave the indexes and the counters of commits alone.
use block_rust.Base.{◌≡◌, ap, ◌∙◌, Option, none, some, Option-cases, inl, inr, Bool-cases}
use block_rust.Base.Exec.{Exec}
use block_rust.Base.Ord.{bytes_ord}
use block_rust.OrdMap.{get, get-insert}
use block_rust.Types.{Batch, BatchCommit}
use block_rust.Command.{Command}
use block_rust.CommitLog.{CommitCommand}
use block_rust.LogFile.{LogFile}
use block_rust.Index.Defs.{Index}
use block_rust.Tree.Ops
use block_rust.Tree.Ops.{Tree}
use block_rust.Db.{Db, Name, on_tree, on_found, put_tree, ready_commit, abort_commit, close}
use block_rust.Db.Writers.{append_record-index, close-index}

abbrev pub index_in : {f : LogFile Command} → Option (Tree f) → Option Index
index_in none = none
index_in (some t) = some t.index

module _ {f : LogFile Command} {g : LogFile CommitCommand} where
  -- The index of a tree, if the database has the tree.
  abbrev pub index_of : Name → Db f g → Option Index
  index_of name db = index_in (get name db.trees)

  pub record IsSteady (db db' : Db f g) : Type 0 where
    pub indexes : (tree : Name) → index_of tree db' ≡ index_of tree db
    pub view : db'.view_commit_limit ≡ db.view_commit_limit
    pub next : db'.next_commit ≡ db.next_commit

  on_tree-index_of :
      (db : Db f g) (name tree : Name) (m : Exec (Tree f) (Unit {0}))
      → ((t : Tree f) → (m t).1.index ≡ t.index)
      → index_of tree (on_tree f g name m db).1 ≡ index_of tree db
  unfolding on_tree on_found put_tree
  on_tree-index_of db name tree m same = elim (Option-cases (get name db.trees)) [
    | inl e ↦ rw (e, on_found)
    | inr (t, e) ↦ elim (Bool-cases (bytes_ord.eq name tree)) [
      | inl hit ↦
          let here : name ≡ tree = (bytes_ord.eq_iff name tree).0 hit in
          let found : get tree db.trees ≡ some t = rw (← here) e in
          rw (e, on_found, get-insert, hit, found) (ap some (same t))
      | inr miss ↦ rw (e, on_found, get-insert, miss)
    ]
  ]

  module _ (db0 db : Db f g) (h : IsSteady db0 db) where
    on_tree-IsSteady :
        (name : Name) (m : Exec (Tree f) (Unit {0}))
        → ((t : Tree f) → (m t).1.index ≡ t.index)
        → IsSteady db0 (on_tree f g name m db).1
    unfolding on_tree on_found put_tree
    on_tree-IsSteady name m same = record {
      indexes = λ tree. on_tree-index_of db name tree m same ∙ h.indexes tree;
      view = elim (Option-cases (get name db.trees)) [
        | inl e ↦ rw (e, on_found) h.view
        | inr (t, e) ↦ rw (e, on_found) h.view
      ];
      next = elim (Option-cases (get name db.trees)) [
        | inl e ↦ rw (e, on_found) h.next
        | inr (t, e) ↦ rw (e, on_found) h.next
      ];
    }

    pub ready_commit-IsSteady :
        (b : Batch) (bc : BatchCommit) (tree : Name)
        → IsSteady db0 (ready_commit f g b bc tree db).1
    unfolding ready_commit Ops.ready_commit
    ready_commit-IsSteady b bc tree =
        on_tree-IsSteady tree (Ops.append_record f (Command.ready_commit b bc))
          (append_record-index (Command.ready_commit b bc))

    pub abort_commit-IsSteady :
        (b : Batch) (bc : BatchCommit) (tree : Name)
        → IsSteady db0 (abort_commit f g b bc tree db).1
    unfolding abort_commit Ops.abort_commit
    abort_commit-IsSteady b bc tree =
        on_tree-IsSteady tree (Ops.append_record f (Command.abort_commit b bc))
          (append_record-index (Command.abort_commit b bc))

    pub close-IsSteady : (b : Batch) (tree : Name) → IsSteady db0 (close f g b tree db).1
    unfolding close
    close-IsSteady b tree = on_tree-IsSteady tree (Ops.close f b) (close-index b)
