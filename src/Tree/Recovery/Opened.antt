-- ===== src/Tree/Recovery/Opened.antt =====
-- tree.rs: a replayer takes the command that opens or closes a batch.
use mathlib.Core.Path.{subst}
use block_rust.Base.{
  ◌≡◌, refl, sym, ap, ◌∙◌, true, false, ◌==◌, ==_refl, none, some, List, [], arith, Bool-cases,
  Option-cases, inl, inr, ok,
}
use block_rust.Base.Ord.{nat_ord}
use block_rust.OrdMap.{
  OrdMap, get, contains_key, insert, remove, get-insert, get-remove, contains_key-get,
}
use block_rust.Types.{Address, Batch}
use block_rust.Command.{open_batch, close, batch}
use block_rust.BatchPlayer
use block_rust.BatchPlayer.{BatchPlayer, SimpleCommand, record_command}
use block_rust.Tree.Replay.{InitReplayer, recorded, record_cmd}
use block_rust.Tree.Recovery.Players.{Same, SameAll}

module _ (a : Address) (p : BatchPlayer) (r : InitReplayer) (same : SameAll p r.batch_players) where
  opened_player :
      (b : Batch)
      → (record_command (open_batch b) a p).0 ≡ ok tt
      → (get b p ≡ none) × ((record_command (open_batch b) a p).1 ≡ insert b [] p)
  unfolding record_command
  opened_player b e =
      (ground (arith, contains_key-get b p, e), ground (arith, contains_key-get b p, e))

  closed_player :
      (b : Batch) (q : BatchPlayer)
      → (record_command (close b) a q).0 ≡ ok tt
      → (contains_key b q ≡ true) × ((record_command (close b) a q).1 ≡ remove b q)
  unfolding record_command
  closed_player b q e = (ground (arith, e), ground (arith, e))

  record-close :
      (b : Batch) (q : BatchPlayer)
      → contains_key b q ≡ true
      → record_command (close b) a q ≡ (ok tt, remove b q)
  unfolding record_command
  record-close b q h = ground (arith, h)

  record-new :
      (b : Batch)
      → recorded
          (open_batch b)
          a
          (some BatchPlayer.new)
          (record r { batch_players = insert b BatchPlayer.new r.batch_players })
        ≡ (
          ok tt,
          record r {
            batch_players =
                insert b (insert b [] BatchPlayer.new) (insert b BatchPlayer.new r.batch_players);
          },
        )
  unfolding recorded batch record_command contains_key
  record-new b = refl

  Same-open :
      (b j : Batch)
      → Same j (get j (insert b [] p)) (
          get j (insert b (insert b [] BatchPlayer.new) (insert b BatchPlayer.new r.batch_players)))
  Same-open b j = elim (Bool-cases (b == j)) [
    | inl here ↦
        rw
          (
            get-insert b j [] p,
            get-insert b j (insert b [] BatchPlayer.new) (insert b BatchPlayer.new r.batch_players),
            here,
          )
          (insert b [] BatchPlayer.new, refl, get-insert b j [] BatchPlayer.new ∙ rw here refl)
    | inr other ↦
        rw
          (
            get-insert b j [] p,
            get-insert b j (insert b [] BatchPlayer.new) (insert b BatchPlayer.new r.batch_players),
            get-insert b j BatchPlayer.new r.batch_players,
            other,
          )
          (same j)
  ]

  Same-close :
      (b j : Batch) (player : BatchPlayer)
      → Same j (get j (remove b p)) (get j (remove b (insert b player r.batch_players)))
  Same-close b j player = elim (Bool-cases (b == j)) [
    | inl here ↦ rw (get-remove b j p, get-remove b j (insert b player r.batch_players), here) refl
    | inr other ↦
        rw
          (
            get-remove b j p,
            get-remove b j (insert b player r.batch_players),
            get-insert b j player r.batch_players,
            other,
          )
          (same j)
  ]

  -- An open of a batch, recorded by a new player.
  pub open-Passed :
      (b : Batch)
      → (record_command (open_batch b) a p).0 ≡ ok tt
      → (contains_key b r.batch_players ≡ false)
        × (players : OrdMap Batch BatchPlayer) × (record_cmd
              (open_batch b)
              a
              (record r { batch_players = insert b BatchPlayer.new r.batch_players })
            ≡ (ok tt, record r { batch_players = players }))
        × SameAll (record_command (open_batch b) a p).1 players
  unfolding record_cmd recorded batch
  open-Passed b e =
      let (unknown, whole) = opened_player b e in
      let nowhere : get b r.batch_players ≡ none =
        subst (λ o. Same b o (get b r.batch_players)) unknown (same b) in
      let got : get b (insert b BatchPlayer.new r.batch_players) ≡ some BatchPlayer.new =
        get-insert b b BatchPlayer.new r.batch_players ∙ rw (==_refl b) refl in
      (
        contains_key-get b r.batch_players ∙ rw nowhere refl,
        insert b (insert b [] BatchPlayer.new) (insert b BatchPlayer.new r.batch_players),
        ap
              (λ x.
                recorded (open_batch b) a x
                  (record r { batch_players = insert b BatchPlayer.new r.batch_players }))
              got
            ∙ record-new b,
        λ j.
            subst
              (λ x. Same j (get j x) (
                get j (
                  insert b (insert b [] BatchPlayer.new)
                    (insert b BatchPlayer.new r.batch_players))))
              (sym whole) (Same-open b j),
      )

  pub close-Passed :
      (b : Batch)
      → (record_command (close b) a p).0 ≡ ok tt
      → (contains_key b r.batch_players ≡ true)
        × (players : OrdMap Batch BatchPlayer) × (record_cmd (close b) a r
            ≡ (ok tt, record r { batch_players = players }))
        × SameAll (record_command (close b) a p).1 (remove b players)
  unfolding record_cmd recorded batch
  close-Passed b e =
      let (known, whole) = closed_player b p e in
      let (commands, g) = open_of known in
      let (player, entry, inner) = subst (λ o. Same b o (get b r.batch_players)) g (same b) in
      let inside : contains_key b player ≡ true = contains_key-get b player ∙ rw inner refl in
      (
        contains_key-get b r.batch_players ∙ rw entry refl,
        insert b (remove b player) r.batch_players,
        ap (λ x. recorded (close b) a x r) entry ∙ rw (record-close b player inside) refl,
        λ j.
            subst
              (λ x.
                Same j (get j x) (get j (remove b (insert b (remove b player) r.batch_players))))
              (sym whole) (Same-close b j (remove b player)),
      )
    where
      open_of :
          contains_key b p ≡ true → (commands : List SimpleCommand) × (get b p ≡ some commands)
      open_of known = elim (Option-cases (get b p)) [
        | inl missing ↦ absurd (ground (arith, known, contains_key-get b p, missing))
        | inr found ↦ found
      ]
