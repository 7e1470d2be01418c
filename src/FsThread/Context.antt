-- ===== src/FsThread/Context.antt =====
-- fs_thread.rs: `FsThreadContext`, the handles of all files. The library's files, how they are opened and
-- their `sync_all` are parameters.
use block_rust.Base.{ℕ, Option, none, some, List, [], ◌∷◌, ◌++◌, Outcome, ok, err, panic}
use block_rust.Base.Exec.{Exec}
use block_rust.Base.Ord.{bytes_ord}
use block_rust.OrdMap.{OrdMap, get, insert, remove}

-- A path by its bytes.
abbrev pub FilePath : Type 0
FilePath = List ℕ

module _ (File : Type 0) (open_to_append open_to_read : FilePath → Outcome File) where
  -- `synced` lists the files whose `sync_all` was called. An error of it is only reported.
  pub record Context : Type 0 where
    pub append_handles : OrdMap FilePath File
    pub read_handles : OrdMap FilePath File
    pub synced : List File

  -- `FsThreadContext::new`.
  abbrev pub new : Context
  new = record { append_handles = []; read_handles = []; synced = [] }

  -- `entry(path)`: a handle that is there is used again, and a file that was opened is inserted.
  unfoldable pub entry :
      (FilePath → Outcome File)
      → FilePath
      → OrdMap FilePath File
      → Outcome File × OrdMap FilePath File
  entry open_file path handles = elim (get path handles) [
    | some file ↦ (ok file, handles)
    | none ↦ elim (open_file path) [
      | ok file ↦ (ok file, insert path file handles)
      | err e ↦ (err e, handles)
      | panic ↦ (panic, handles)
    ]
  ]

  unfoldable pub open_append : FilePath → Exec Context File
  unfolding entry
  open_append path c =
      let (r, handles) = entry open_to_append path c.append_handles in
      (r, record c { append_handles = handles })

  unfoldable pub open_read : FilePath → Exec Context File
  unfolding entry
  open_read path c =
      let (r, handles) = entry open_to_read path c.read_handles in
      (r, record c { read_handles = handles })

  unfoldable pub sync_close : Option File → Context → Context
  sync_close none c = c
  sync_close (some file) c = record c { synced = c.synced ++ file ∷ [] }

  unfoldable pub close : FilePath → Context → Context
  unfolding sync_close
  close path c =
      let c' =
        sync_close (get path c.append_handles)
          (record c { append_handles = remove path c.append_handles }) in
      sync_close (get path c'.read_handles)
        (record c' { read_handles = remove path c'.read_handles })

  -- The loop of `shutdown` over the files of both maps.
  unfoldable pub sync_files : OrdMap FilePath File → Context → Context
  unfolding sync_close
  sync_files [] c = c
  sync_files ((path, file) ∷ files) c = sync_files files (sync_close (some file) c)

  unfoldable pub shutdown : Context → Context
  unfolding sync_files
  shutdown c = sync_files (c.append_handles ++ c.read_handles) c
