-- ===== src/Loader/Reached.antt =====
-- loader.rs: a load that succeeds has taken the index of every tree just past the last commit.
use mathlib.Core.Path.{subst}
use block_rust.Base.{
  ◌+◌, ◌≡◌, refl, sym, ◌∙◌, Option, none, some, List, [], ◌∷◌, arith, Outcome, ok, err, panic,
  returned, false, true, Bool,
}
use block_rust.Command.{Command}
use block_rust.Types.{Address, Commit, Batch, BatchCommit}
use block_rust.CommitLog.{CommitCommand}
use block_rust.Tree.Replay.{
  InitReplayer, replay_commit, replay_rest, rest_items, update_max, max_seen,
}
use block_rust.Tree.Replay.Places.{IsAt}
use block_rust.Tree.Replay.Reached.{IsReplayer, replay_commit-IsReplayer}
use block_rust.Loader.{
  DbInitState, Players, replay_in_all, check_monotonic, replay_commits, replay_rests, after,
  init_state, load,
}

abbrev pub AreReplayers : Commit → Players → Type 0
AreReplayers n [] = Unit
AreReplayers n ((name, player) ∷ rest) = IsReplayer n player × AreReplayers n rest

abbrev pub AreAt : Commit → Players → Type 0
AreAt n [] = Unit
AreAt n ((name, player) ∷ rest) = IsAt n player.index × AreAt n rest

replay_in_all-AreReplayers :
    (n : Commit) (next : CommitCommand) (players players' : Players)
    → AreReplayers n players
    → replay_in_all next players ≡ ok players'
    → AreReplayers (next.commit + 1) players'
unfolding replay_in_all
replay_in_all-AreReplayers n next [] players' h e =
    let none_left : [] ≡ players' = ground (arith, e) in
    subst (AreReplayers (next.commit + 1)) none_left tt
replay_in_all-AreReplayers n next ((name, player) ∷ rest) players' h e =
    let (u, e1, h1) =
      returned _ (replay_commit next.batch next.batch_commit next.commit player).0 e in
    let (rest', e2, h2) = returned _ (replay_in_all next rest) h1 in
    let p = replay_commit-IsReplayer next.batch next.batch_commit next.commit n player h.0 e1 in
    let ps = replay_in_all-AreReplayers n next rest rest' h.1 e2 in
    let player' = (replay_commit next.batch next.batch_commit next.commit player).1 in
    let all : (name, player') ∷ rest' ≡ players' = ground (arith, h2) in
    subst (AreReplayers (next.commit + 1)) all (p, ps)

-- The number behind the commits that were replayed.
abbrev reached_by : Option Commit → Commit → Commit
reached_by none n = n
reached_by (some c) n = c + 1

replay_commits-AreReplayers :
    (n : Commit) (m k : Option Commit) (stream : List (Outcome CommitCommand))
    (players players' : Players)
    → AreReplayers (reached_by m n) players
    → replay_commits m stream players ≡ ok (k, players')
    → AreReplayers (reached_by k n) players'
unfolding replay_commits
replay_commits-AreReplayers n m k [] players players' h e =
    let same : ◌≡◌ {A = Option Commit × Players} (m, players) (k, players') = ground (arith, e) in
    subst (λ x. AreReplayers (reached_by x.0 n) x.1) same h
replay_commits-AreReplayers n m k (err x ∷ rest) players players' h e = absurd (cc)
replay_commits-AreReplayers n m k (panic ∷ rest) players players' h e = absurd (cc)
replay_commits-AreReplayers n m k (ok c ∷ rest) players players' h e =
    let (ps, e1, h1) = returned _ (replay_in_all c players) e in
    let (u, e2, h2) = returned _ (check_monotonic m c.commit) h1 in
    replay_commits-AreReplayers n (some c.commit) k rest ps players'
      (replay_in_all-AreReplayers (reached_by m n) c players ps h e1) h2

rest_items-index :
    (stream : List (Outcome (Command × Address))) (r : InitReplayer)
    → (rest_items stream r).1.index ≡ r.index
unfolding rest_items update_max
rest_items-index [] r = refl
rest_items-index (err x ∷ rest) r = refl
rest_items-index (panic ∷ rest) r = refl
rest_items-index (ok (cmd, addr) ∷ rest) r = rest_items-index rest _

replay_rests-AreAt :
    (n : Commit) (b : Option Batch) (bc : Option BatchCommit) (players : Players)
    (last : Option Batch × Option BatchCommit × Players)
    → AreReplayers n players
    → replay_rests b bc players ≡ ok last
    → AreAt n last.2
unfolding replay_rests replay_rest
replay_rests-AreAt n b bc [] last h e =
    let same : (b, bc, []) ≡ last = ground (arith, e) in subst (λ x. AreAt n x.2) same tt
replay_rests-AreAt n b bc ((name, player) ∷ rest) last h e =
    let (seen, e1, h1) = returned _ (rest_items player.cmd_stream player).0 e in
    let (r, e2, h2) = returned _ (replay_rests (max_seen b seen.0) (max_seen bc seen.1) rest) h1 in
    let index = rest_items-index player.cmd_stream player in
    let all : (r.0, r.1, (name, (rest_items player.cmd_stream player).1) ∷ r.2) ≡ last =
      ground (arith, h2) in
    subst (λ x. AreAt n x.2) all
      (
        subst (IsAt n) (sym index) h.0.at,
        replay_rests-AreAt n (max_seen b seen.0) (max_seen bc seen.1) rest r h.1 e2,
      )

AreReplayers-AreAt : (n : Commit) (players : Players) → AreReplayers n players → AreAt n players
AreReplayers-AreAt n [] h = tt
AreReplayers-AreAt n ((name, player) ∷ rest) h = (h.0.at, AreReplayers-AreAt n rest h.1)

after-reached_by : (k : Option Commit) (n : Commit) → after k ≡ ok n → reached_by k 0 ≡ n
unfolding after
after-reached_by none n e = ground arith
after-reached_by (some k) n e = ground arith

pub load-AreAt :
    (empty : Bool) (stream : List (Outcome CommitCommand)) (players players' : Players)
    (state : DbInitState)
    → AreReplayers 0 players
    → load (ok empty) stream players ≡ ok (state, players')
    → AreAt state.next_commit players'
unfolding load init_state
load-AreAt true stream players players' state h e =
    let none_yet : state.next_commit ≡ 0 = ground arith in
    let same : players ≡ players' = ground (arith, e) in
    subst (λ n. AreAt n players') (sym none_yet)
      (subst (AreAt 0) same (AreReplayers-AreAt 0 players h))
load-AreAt false stream players players' state h e =
    let (replayed, e1, h1) = returned _ (replay_commits none stream players) e in
    let (seen, e2, h2) = returned _ (replay_rests none none replayed.1) h1 in
    let (st, e3, h3) = returned _ (init_state seen.0 seen.1 replayed.0) h2 in
    let (nb, e4, h4) = returned _ (after seen.0) e3 in
    let (nbc, e5, h5) = returned _ (after seen.1) h4 in
    let (nc, e6, h6) = returned _ (after replayed.0) h5 in
    let last : state.next_commit ≡ nc = ground arith in
    let same : seen.2 ≡ players' = ground (arith, h3) in
    let at =
      replay_rests-AreAt (reached_by replayed.0 0) none none replayed.1 seen
        (replay_commits-AreReplayers 0 none replayed.0 stream players replayed.1 h e1) e2 in
    subst (AreAt state.next_commit) same
      (subst (λ n. AreAt n seen.2) (after-reached_by replayed.0 nc e6 ∙ sym last) at)
