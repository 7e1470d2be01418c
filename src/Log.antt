-- ===== src/Log.antt =====
-- log.rs: a typed log over a log file.
use mathlib.Core.Option
use block_rust.Base.{
  ℕ, zero, suc, ◌≡◌, refl, Option, none, some, List, [], ◌∷◌, Outcome, ok, err, panic, ◌>>=◌,
}
use block_rust.Types.{Address}
use block_rust.LogFile.{LogFile}

-- What the stream of `replay` does next: it yields an item, or it has ended.
pub data Next (Cmd : Type 0) : Type 0 where
  item : Outcome (Cmd × Address) → Option Address → Next Cmd
  ended : Next Cmd

module _ {Cmd : Type 0} (f : LogFile Cmd) where
  open f use {State, is_empty, append, read_at, sync}

  -- The stream's state: the address to read, or nothing behind the last item.
  abbrev pub start : Option Address
  start = some 0

  unfoldable pub next : State → Option Address → Next Cmd
  next s none = ended
  next s (some addr) = elim (read_at addr s) [
    | err e ↦ item (err e) none
    | ok (cmd, next_addr) ↦ item (ok (cmd, addr)) next_addr
    | panic ↦ item panic none
  ]

  unfoldable pub read_command : Address → State → Outcome Cmd
  read_command address s = do r ← read_at address s; let (cmd, next_addr) = r; ok cmd

  -- The items of the stream up to its end; `none` means that the fuel ran out.
  unfoldable pub items : ℕ → State → Option Address → Option (List (Outcome (Cmd × Address)))
  unfolding next
  items zero s from = none
  items (suc fuel) s from = elim (next s from) [
    | ended ↦ some []
    | item i next_addr ↦ Option.map (λ rest. i ∷ rest) (items fuel s next_addr)
  ]

  next-ok :
      (s : State) (addr : Address) (cmd : Cmd) (next_addr : Option Address)
      → read_at addr s ≡ ok (cmd, next_addr)
      → next s (some addr) ≡ item (ok (cmd, addr)) next_addr
  unfolding next
  next-ok s addr cmd next_addr h = rw (h, next)

  pub items-last :
      (fuel : ℕ) (s : State) (addr : Address) (cmd : Cmd)
      → read_at addr s ≡ ok (cmd, none)
      → items (suc (suc fuel)) s (some addr) ≡ some (ok (cmd, addr) ∷ [])
  unfolding items
  items-last fuel s addr cmd h = rw (next-ok s addr cmd none h, items)

  pub items-more :
      (fuel : ℕ) (s : State) (addr next_addr : Address) (cmd : Cmd)
      (rest : List (Outcome (Cmd × Address)))
      → read_at addr s ≡ ok (cmd, some next_addr)
      → items fuel s (some next_addr) ≡ some rest
      → items (suc fuel) s (some addr) ≡ some (ok (cmd, addr) ∷ rest)
  unfolding items
  items-more fuel s addr next_addr cmd rest h k =
      rw (next-ok s addr cmd (some next_addr) h, items) (rw k)

  -- The stream yields these items, and ends.
  abbrev pub Yields : State → List (Outcome (Cmd × Address)) → Type 0
  Yields s yielded = (fuel : ℕ) × (items fuel s start ≡ some yielded)

  items_unique :
      (fuel fuel' : ℕ) (s : State) (from : Option Address)
      (yielded yielded' : List (Outcome (Cmd × Address)))
      → items fuel s from ≡ some yielded
      → items fuel' s from ≡ some yielded'
      → yielded ≡ yielded'
  unfolding items
  items_unique zero fuel' s from yielded yielded' h h' = absurd (cc)
  items_unique (suc fuel) zero s from yielded yielded' h h' = absurd (cc)
  items_unique (suc fuel) (suc fuel') s from yielded yielded' h h' =
      behind (items_unique fuel fuel' s) (next s from) h h'
    where
      pushed :
          (i : Outcome (Cmd × Address)) (rest rest' : Option (List (Outcome (Cmd × Address))))
          → ((is is' : List (Outcome (Cmd × Address)))
              → rest ≡ some is
              → rest' ≡ some is'
              → is ≡ is')
          → Option.map (λ is. i ∷ is) rest ≡ some yielded
          → Option.map (λ is. i ∷ is) rest' ≡ some yielded'
          → yielded ≡ yielded'
      pushed i none rest' same k k' = absurd (cc)
      pushed i (some is) none same k k' = absurd (cc)
      pushed i (some is) (some is') same k k' = let e = same is is' refl refl in cc

      behind :
          ((o : Option Address) (is is' : List (Outcome (Cmd × Address)))
            → items fuel s o ≡ some is
            → items fuel' s o ≡ some is'
            → is ≡ is')
          → (n : Next Cmd)
          → elim n [
            | ended ↦ some []
            | item i next_addr ↦ Option.map (λ rest. i ∷ rest) (items fuel s next_addr)
          ]
            ≡ some yielded
          → elim n [
            | ended ↦ some []
            | item i next_addr ↦ Option.map (λ rest. i ∷ rest) (items fuel' s next_addr)
          ]
            ≡ some yielded'
          → yielded ≡ yielded'
      behind same ended k k' = cc
      behind same (item i next_addr) k k' =
          pushed i (items fuel s next_addr) (items fuel' s next_addr) (same next_addr) k k'

  pub Yields-unique :
      (s : State) (yielded yielded' : List (Outcome (Cmd × Address)))
      → Yields s yielded
      → Yields s yielded'
      → yielded ≡ yielded'
  Yields-unique s yielded yielded' (fuel, h) (fuel', h') =
      items_unique fuel fuel' s start yielded yielded' h h'
