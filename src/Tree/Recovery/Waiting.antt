-- ===== src/Tree/Recovery/Waiting.antt =====
-- tree.rs: the commits that the replay has read and not yet replayed wait.
use mathlib.Core.Path.{subst}
use mathlib.Core.List.{append_assoc}
use block_rust.Base.{
  not, ◌≡◌, refl, sym, ap, ◌∙◌, true, false, ◌&&◌, ◌==◌, [], ◌∷◌, ◌++◌, arith, Bool-cases, inl, inr,
}
use block_rust.Base.Ord.{nat_ord}
use block_rust.Types.{Batch, BatchCommit}
use block_rust.Command.{Command}
use block_rust.BatchPlayer.{BatchPlayer}
use block_rust.Tree.Replay.{InitReplayer, waits, take_out}
use block_rust.Tree.Recovery.Pairs.{
  Pairs, pair_of, has, has-append, Differ, Unlike-has, Apart, Apart-front, Apart-behind, Apart-back,
  Apart-take, Unlike-append,
}
use block_rust.Tree.Recovery.Turns.{tries, tries-Differ}
use block_rust.Tree.Recovery.Players.{SameAll}
use block_rust.Tree.Recovery.Scan.{IsGood}

module _ (b : Batch) (bc : BatchCommit) where
  -- What is known where the next command is not the ready commit, which is still to come.
  pub record Clear (seen w : Pairs) (cmd : Command) (ps : Pairs) : Type 0 where
    pub differ : Differ b bc (pair_of cmd)
    pub free : (i : Batch) (j : BatchCommit) → has i j (pair_of cmd) ≡ true → waits i j w ≡ false
    pub apart : Apart (seen ++ pair_of cmd)
    pub unseen : has b bc (seen ++ pair_of cmd) ≡ false

  pub clear :
      (committed seen : Pairs) (p : BatchPlayer) (r : InitReplayer) (cmd : Command) (ps : Pairs)
      → Apart (seen ++ (pair_of cmd ++ ps))
      → IsGood committed seen p r
      → has b bc seen ≡ false
      → has b bc ps ≡ true
      → tries b (pair_of cmd) ≡ false
      → Clear seen r.waiting_to_commit cmd ps
  clear committed seen p r cmd ps d g u q other =
      let different =
        Apart-behind b bc (pair_of cmd) ps (Apart-back seen (pair_of cmd ++ ps) d) q in
      record {
        differ = tries-Differ b bc cmd other different;
        free = λ i j new. elim (Bool-cases (has i j seen)) [
          | inl old ↦
              let behind = Apart-front i j seen (pair_of cmd ++ ps) d old in
              let none_new =
                Unlike-has i j (pair_of cmd) (Unlike-append j (pair_of cmd) ps behind).0 in
              absurd (cc)
          | inr not_old ↦ g.waiting i j ∙ rw not_old refl
        ];
        apart = Apart-take (seen ++ pair_of cmd) ps (rw (append_assoc seen (pair_of cmd) ps) d);
        unseen =
            has-append b bc seen (pair_of cmd)
            ∙ rw (u, Unlike-has b bc (pair_of cmd) different) refl;
      }

  -- A commit that was not seen before is seen and committed.
  pub IsGood-commit :
      (committed seen : Pairs) (p p' : BatchPlayer) (r r' : InitReplayer)
      → SameAll p' r'.batch_players
      → r'.waiting_to_commit ≡ r.waiting_to_commit
      → has b bc seen ≡ false
      → IsGood committed seen p r
      → IsGood (committed ++ (b, bc) ∷ []) (seen ++ (b, bc) ∷ []) p' r'
  IsGood-commit committed seen p p' r r' s w u g = record {
    same = s;
    waiting = λ i j. ap (waits i j) w ∙ waiting_for i j;
    within = λ i j k. ground (
      arith,
      has-append i j committed ((b, bc) ∷ []),
      has-append i j seen ((b, bc) ∷ []),
      g.within i j,
    );
  }
    where
      waiting_for :
          (i : Batch) (j : BatchCommit)
          → waits i j r.waiting_to_commit
            ≡ (has i j (seen ++ (b, bc) ∷ []) && not (has i j (committed ++ (b, bc) ∷ [])))
      waiting_for i j = elim (Bool-cases (i == b && j == bc)) [
        | inl here ↦
            let ei : b ≡ i = ground (arith, here) in
            let ej : bc ≡ j = ground (arith, here) in
            let unseen : has i j seen ≡ false = rw (← ei, ← ej) u in
            ground (
              arith,
              g.waiting i j,
              unseen,
              here,
              has-append i j committed ((b, bc) ∷ []),
              has-append i j seen ((b, bc) ∷ []),
            )
        | inr other ↦ ground (
          arith,
          g.waiting i j,
          other,
          has-append i j committed ((b, bc) ∷ []),
          has-append i j seen ((b, bc) ∷ []),
        )
      ]

  waits-take_out :
      (i : Batch) (j : BatchCommit) (ps : Pairs)
      → waits i j (take_out b bc ps) ≡ (waits i j ps && not (i == b && j == bc))
  unfolding waits take_out
  waits-take_out i j [] = refl
  waits-take_out i j ((b', bc') ∷ ps) =
      let ih = waits-take_out i j ps in
      elim (Bool-cases (b == b' && bc == bc')) [
        | inl hit ↦
            let eb : b ≡ b' = ground (arith, hit) in
            let ec : bc ≡ bc' = ground (arith, hit) in
            ground (arith, hit, ih, ap (λ x. i == x) eb, ap (λ x. j == x) ec)
        | inr miss ↦ elim (Bool-cases (i == b' && j == bc')) [
          | inl here ↦
              let ei : i ≡ b' = ground (arith, here) in
              let ej : j ≡ bc' = ground (arith, here) in
              let apart : i == b && j == bc ≡ false = ground (arith, miss, ei, ej) in
              rw (miss, here, apart) refl
          | inr other ↦ ground (arith, miss, ih, other)
        ]
      ]

  -- A commit that waits is taken out.
  pub IsGood-take :
      (committed seen : Pairs) (p : BatchPlayer) (r r' : InitReplayer)
      → r'.batch_players ≡ r.batch_players
      → r'.waiting_to_commit ≡ take_out b bc r.waiting_to_commit
      → has b bc seen ≡ true
      → IsGood committed seen p r
      → IsGood (committed ++ (b, bc) ∷ []) seen p r'
  IsGood-take committed seen p r r' s w u g = record {
    same = subst (SameAll p) (sym s) g.same;
    waiting = λ i j.
        ap (waits i j) w
        ∙ waits-take_out i j r.waiting_to_commit
        ∙ ground (arith, g.waiting i j, has-append i j committed ((b, bc) ∷ []));
    within = λ i j k. elim (Bool-cases (i == b && j == bc)) [
      | inl here ↦
          let ei : b ≡ i = ground (arith, here) in
          let ej : bc ≡ j = ground (arith, here) in rw (← ei, ← ej) u
      | inr other ↦ ground (arith, has-append i j committed ((b, bc) ∷ []), g.within i j, other, k)
    ];
  }
