-- ===== src/FsThread/Thread.antt =====
-- fs_thread.rs: `FsThread`, the thread and the channel that leads to it. Senders and the thread take their
-- steps in any order. A closure takes the context and returns its response and the context behind it.
use block_rust.Base.{
  ℕ, ◌≡◌, Bool, true, false, Option, none, some, List, [], ◌∷◌, ◌++◌, Outcome, ok, panic,
  if◌then◌else◌,
}

module _ (C R : Type 0) (finish : C → C) where
  -- A request by the channel of its response, and the shutdown.
  pub data Message : Type 0 where
    run : ℕ → (C → R × C) → Message
    shutdown : Message

  -- The context of the thread, the channel, the responses that were sent, and whether the loop has
  -- ended.
  pub record FsThread : Type 0 where
    pub context : C
    pub queue : List Message
    pub responses : List (ℕ × R)
    pub stopped : Bool

  -- `FsThread::start`.
  abbrev pub start : C → FsThread
  start c = record { context = c; queue = []; responses = []; stopped = false }

  -- `self.tx.try_send(…).expect("send")` of `run` and of `shutdown`: the channel has no bound, and is
  -- closed where the loop has ended.
  unfoldable pub send : Message → FsThread → Outcome FsThread
  send msg t = if t.stopped then panic else ok (record t { queue = t.queue ++ msg ∷ [] })

  -- The match of the loop on a message.
  unfoldable pub handle : Message → FsThread → FsThread
  handle (run id f) t =
      let (r, c) = f t.context in record t { context = c; responses = t.responses ++ (id, r) ∷ [] }
  handle shutdown t = record t { context = finish t.context; stopped = true }

  -- A round of the loop; `none` where it waits for a message or has ended.
  unfoldable pub serve : FsThread → Option FsThread
  unfolding handle
  serve t =
      if t.stopped
      then none
      else elim t.queue [ [] ↦ none | msg ∷ queue ↦ some (handle msg (record t { queue = queue })) ]

  -- The states behind the sends of these messages, in their order.
  pub data Reach (c : C) : List Message → FsThread → Type 0 where
    started : Reach c [] (start c)
    sent :
        (msg : Message) {msgs : List Message} {t t' : FsThread}
        → Reach c msgs t
        → send msg t ≡ ok t'
        → Reach c (msgs ++ msg ∷ []) t'
    served :
        {msgs : List Message} {t t' : FsThread}
        → Reach c msgs t
        → serve t ≡ some t'
        → Reach c msgs t'
