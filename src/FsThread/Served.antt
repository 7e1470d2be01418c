-- ===== src/FsThread/Served.antt =====
-- fs_thread.rs: the thread serves the requests in the order of their sends, and all of them.
use mathlib.Core.Path.{subst}
use mathlib.Core.List.{append_assoc, append-nil}
use block_rust.Base.{
  ℕ, zero, suc, ◌≡◌, refl, sym, ap, ◌∙◌, true, false, none, some, List, [], ◌∷◌, ◌++◌, arith,
  length, ◌⊎◌, inl, inr, Bool-cases,
}
use block_rust.FsThread.Thread.{
  Message, run, shutdown, FsThread, send, handle, serve, Reach, started, sent, served,
}

module _ (C R : Type 0) (finish : C → C) where
  -- The requests one after the other, up to a shutdown.
  unfoldable pub in_order : List (Message C R finish) → C → List (ℕ × R) × C
  in_order [] c = ([], c)
  in_order (run id f ∷ msgs) c =
      let (r, c') = f c in let rest = in_order msgs c' in ((id, r) ∷ rest.0, rest.1)
  in_order (shutdown ∷ msgs) c = ([], finish c)

  abbrev pub NoShutdown : List (Message C R finish) → Type 0
  NoShutdown [] = Unit
  NoShutdown (run id f ∷ msgs) = NoShutdown msgs
  NoShutdown (shutdown ∷ msgs) = ⊥

  in_order-append :
      (done msgs : List (Message C R finish)) (c : C)
      → NoShutdown done
      → in_order (done ++ msgs) c ≡ (
        (in_order done c).0 ++ (in_order msgs (in_order done c).1).0,
        (in_order msgs (in_order done c).1).1,
      )
  unfolding in_order
  in_order-append [] msgs c h = refl
  in_order-append (run id f ∷ done) msgs c h = ground (arith, in_order-append done msgs (f c).1 h)
  in_order-append (shutdown ∷ done) msgs c h = absurd h

  NoShutdown-append :
      (done : List (Message C R finish)) (id : ℕ) (f : C → R × C)
      → NoShutdown done
      → NoShutdown (done ++ run id f ∷ [])
  NoShutdown-append [] id f h = tt
  NoShutdown-append (run i g ∷ done) id f h = NoShutdown-append done id f h
  NoShutdown-append (shutdown ∷ done) id f h = absurd h

  -- Some of the messages are done, in their order, and the others wait.
  record Served (c : C) (msgs : List (Message C R finish)) (t : FsThread C R finish) : Type 0 where
    done : List (Message C R finish)
    all : msgs ≡ done ++ t.queue
    result : in_order done c ≡ (t.responses, t.context)
    running : t.stopped ≡ false → NoShutdown done
    ended :
        t.stopped ≡ true
        → (before : List (Message C R finish)) × (done ≡ before ++ shutdown ∷ [])
          × NoShutdown before

  handle-Served :
      (c : C) (msg : Message C R finish) (queue msgs : List (Message C R finish))
      (t : FsThread C R finish)
      → t.stopped ≡ false
      → t.queue ≡ msg ∷ queue
      → Served c msgs t
      → Served c msgs (handle C R finish msg (record t { queue = queue }))
  unfolding handle in_order
  handle-Served c (run id f) queue msgs t live e s = record {
    done = s.done ++ run id f ∷ [];
    all = s.all ∙ ap (◌++◌ s.done) e ∙ sym (append_assoc s.done (run id f ∷ []) queue);
    result = ground (arith, in_order-append s.done (run id f ∷ []) c (s.running live), s.result);
    running = λ p. NoShutdown-append s.done id f (s.running live);
    ended = λ p. absurd (cc);
  }
  handle-Served c shutdown queue msgs t live e s = record {
    done = s.done ++ shutdown ∷ [];
    all = s.all ∙ ap (◌++◌ s.done) e ∙ sym (append_assoc s.done (shutdown ∷ []) queue);
    result = ground (
      arith,
      in_order-append s.done (shutdown ∷ []) c (s.running live),
      s.result,
      append-nil t.responses,
    );
    running = λ p. absurd (cc);
    ended = λ p. (s.done, refl, s.running live);
  }

  -- A round of the loop by what the thread finds.
  serve-cases :
      (t : FsThread C R finish)
      → ((serve C R finish t ≡ none) × ((t.stopped ≡ true) ⊎ (t.queue ≡ [])))
        ⊎ ((msg : Message C R finish) × (queue : List (Message C R finish)) × (t.stopped ≡ false)
            × (t.queue ≡ msg ∷ queue)
            × (serve C R finish t ≡ some (handle C R finish msg (record t { queue = queue }))))
  unfolding serve
  serve-cases t = elim (Bool-cases t.stopped) [
    | inl over ↦ inl (ground (arith, over), inl over)
    | inr live ↦ by_queue t.queue refl live
  ]
    where
      by_queue :
          (q : List (Message C R finish))
          → t.queue ≡ q
          → t.stopped ≡ false
          → ((serve C R finish t ≡ none) × ((t.stopped ≡ true) ⊎ (t.queue ≡ [])))
            ⊎ ((msg : Message C R finish) × (queue : List (Message C R finish)) × (t.stopped
                  ≡ false)
                × (t.queue ≡ msg ∷ queue)
                × (serve C R finish t ≡ some (handle C R finish msg (record t { queue = queue }))))
      by_queue [] e live = inl (ground (arith, live, e), inr e)
      by_queue (msg ∷ queue) e live = inr (msg, queue, live, e, ground (arith, live, e))

  Reach-Served :
      (c : C) {msgs : List (Message C R finish)} {t : FsThread C R finish}
      → Reach C R finish c msgs t
      → Served c msgs t
  unfolding send in_order
  Reach-Served c started = record {
    done = [];
    all = refl;
    result = refl;
    running = λ p. tt;
    ended = λ p. absurd (cc);
  }
  Reach-Served c (sent msg {msgs} {t} {t'} r e) = elim (Bool-cases t.stopped) [
    | inl over ↦ absurd (cc (rw over at e))
    | inr live ↦
        let s = Reach-Served c r in
        let same : record t { queue = t.queue ++ msg ∷ [] } ≡ t' = ground (arith, e, live) in
        subst (Served c (msgs ++ msg ∷ [])) same (record {
          done = s.done;
          all = ap (λ x. x ++ msg ∷ []) s.all ∙ append_assoc s.done t.queue (msg ∷ []);
          result = s.result;
          running = s.running;
          ended = s.ended;
        })
  ]
  Reach-Served c (served {msgs} {t} {t'} r e) = elim (serve-cases t) [
    | inl (waits, why) ↦ absurd (cc)
    | inr (msg, queue, live, q, step) ↦
        let same : handle C R finish msg (record t { queue = queue }) ≡ t' = cc in
        subst (Served c msgs) same (handle-Served c msg queue msgs t live q (Reach-Served c r))
  ]

  -- The thread alone, until it waits.
  unfoldable pub drain : ℕ → FsThread C R finish → FsThread C R finish
  drain zero t = t
  drain (suc n) t = elim (serve C R finish t) [ none ↦ t | some t' ↦ drain n t' ]

  in_order-shutdown :
      (before rest : List (Message C R finish)) (c : C)
      → NoShutdown before
      → in_order (before ++ shutdown ∷ rest) c ≡ in_order (before ++ shutdown ∷ []) c
  unfolding in_order
  in_order-shutdown before rest c h =
      in_order-append before (shutdown ∷ rest) c h
      ∙ sym (in_order-append before (shutdown ∷ []) c h)

  -- Where the thread waits, all messages are done, or a shutdown stands in front of the others.
  waits-Served :
      (c : C) (msgs : List (Message C R finish)) (t : FsThread C R finish)
      → Served c msgs t
      → (t.stopped ≡ true) ⊎ (t.queue ≡ [])
      → in_order msgs c ≡ (t.responses, t.context)
  waits-Served c msgs t s (inr e) =
      ap (λ x. in_order x c) (s.all ∙ ap (◌++◌ s.done) e ∙ append-nil s.done) ∙ s.result
  waits-Served c msgs t s (inl over) =
      let (before, e, none_before) = s.ended over in
      ap (λ x. in_order x c)
        (s.all ∙ ap (λ x. x ++ t.queue) e ∙ append_assoc before (shutdown ∷ []) t.queue)
      ∙ in_order-shutdown before t.queue c none_before
      ∙ ap (λ x. in_order x c) (sym e)
      ∙ s.result

  drain-Served :
      (n : ℕ) (c : C) (msgs : List (Message C R finish)) (t : FsThread C R finish)
      → Served c msgs t
      → length t.queue ≡ n
      → in_order msgs c ≡ ((drain n t).responses, (drain n t).context)
  unfolding drain handle
  drain-Served zero c msgs t s e = waits-Served c msgs t s (inr (empty t.queue e))
    where
      empty : (q : List (Message C R finish)) → length q ≡ 0 → q ≡ []
      empty [] h = refl
      empty (x ∷ q) h = absurd (omega arith)
  drain-Served (suc n) c msgs t s e = elim (serve-cases t) [
    | inl (waits, why) ↦ rw (drain, waits) (waits-Served c msgs t s why)
    | inr (msg, queue, live, q, step) ↦
        rw (drain, step)
          (drain-Served n c msgs (handle C R finish msg (record t { queue = queue }))
            (handle-Served c msg queue msgs t live q s)
            (ap length (queue-handle msg queue) ∙ omega (arith, ap length q)))
  ]
    where
      queue-handle :
          (msg : Message C R finish) (queue : List (Message C R finish))
          → (handle C R finish msg (record t { queue = queue })).queue ≡ queue
      queue-handle (run id f) queue = refl
      queue-handle shutdown queue = refl

  -- In whatever order senders and the thread take their steps: the messages that the thread has taken
  -- are the first that were sent, its responses and its context are those of these one after the other,
  -- and as many rounds as messages wait lead to the responses and the context of all messages one after
  -- the other, up to the first shutdown.
  pub Reach-in_order :
      (c : C) {msgs : List (Message C R finish)} {t : FsThread C R finish}
      → Reach C R finish c msgs t
      → (done : List (Message C R finish)) × (msgs ≡ done ++ t.queue)
        × (in_order done c ≡ (t.responses, t.context))
        × (in_order msgs c
            ≡ ((drain (length t.queue) t).responses, (drain (length t.queue) t).context))
  Reach-in_order c {msgs} {t} r =
      let s = Reach-Served c r in
      (s.done, s.all, s.result, drain-Served (length t.queue) c msgs t s refl)
