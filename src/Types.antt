-- ===== src/Types.antt =====
-- types.rs: numbers and byte strings. A newtype around an integer is that integer.
use block_rust.Base.{ℕ, List}

abbrev pub Address : Type 0
Address = ℕ

abbrev pub Key : Type 0
Key = List ℕ

abbrev pub Value : Type 0
Value = List ℕ

abbrev pub Batch : Type 0
Batch = ℕ

abbrev pub BatchCommit : Type 0
BatchCommit = ℕ

abbrev pub Commit : Type 0
Commit = ℕ
