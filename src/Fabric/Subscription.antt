-- ===== src/Fabric/Subscription.antt =====
-- internal/fabric/jetstream.go: the pull subscription, as a step relation between the goroutine of
-- `pollLoop` and the caller of `PullSubscribe` and `Unsubscribe`. What NATS answers to a
-- fetch is the choice of a step.
pub mod Replay
pub mod Shutdown
mod Tests
use meshyants.Base.{
  ℕ, suc, ◌≤◌, ◌≡◌, ◌⊎◌, Bool, true, false, Option, none, some, List, [], ◌∷◌, ◌++◌, length,
}

-- A channel that is only ever closed: the nil one, one made, and one closed.
pub data Channel : Type 0 where
  unmade made closed : Channel

pub data Answer : Type 0 where
  ack nak : Answer

-- Where the caller is: in no call, at the receive from pollDone, or ended by the panic of a close of a
-- closed channel.
pub data Caller : Type 0 where
  free awaiting panicked : Caller

-- sub.Fetch(16, …).
abbrev pub fetch_size : ℕ
fetch_size = 16

module _ (M S F : Type 0) (handle : M → S → S × Option F) where
  -- Where the goroutine is: not started, at its select, in the call of Fetch, before a message of the
  -- batch, and after its return.
  pub data Loop : Type 0 where
    unstarted selecting fetching ended : Loop
    handling : List M → Loop

  -- The transport's fields, the goroutine of the last subscription and those of the ones before it, the
  -- newest first, the caller, the state `world` that the handler works on, and what
  -- was so far fetched, handled and answered, the first one first.
  pub record State : Type 0 where
    pub poll_stop : Channel
    pub poll_done : Channel
    pub subscribed : Bool
    pub loop : Loop
    pub earlier : List Loop
    pub caller : Caller
    pub world : S
    pub fetched : List M
    pub handled : List M
    pub answers : List Answer

  -- What NewWorker starts with.
  abbrev pub connected : S → State
  connected world = record {
    poll_stop = unmade;
    poll_done = unmade;
    subscribed = false;
    loop = unstarted;
    earlier = [];
    caller = free;
    world = world;
    fetched = [];
    handled = [];
    answers = [];
  }

  -- if err := handler(hctx, msg); err != nil { Nak } else { Ack }
  unfoldable pub answer : Option F → Answer
  answer none = ack
  answer (some _) = nak

  -- One iteration of the range over the batch.
  unfoldable pub handle_next : M → List M → State → State
  unfolding answer
  handle_next m rest s =
      let (world, fault) = handle m s.world in
      record s {
        loop = handling rest;
        world = world;
        handled = s.handled ++ (m ∷ []);
        answers = s.answers ++ (answer fault ∷ []);
      }

  -- return, with the deferred close(t.pollDone).
  unfoldable pub leave : State → State
  leave s = record s { loop = ended; poll_done = closed }

  -- pollLoop.
  pub data PollLoop : State → State → Type 0 where
    stop : {s : State} → s.loop ≡ selecting → s.poll_stop ≡ closed → PollLoop s (leave s)
    go_on :
        {s : State}
        → s.loop ≡ selecting
        → s.poll_stop ≡ made
        → PollLoop s (record s { loop = fetching })
    batch :
        {s : State} (messages : List M)
        → s.loop ≡ fetching
        → length messages ≤ fetch_size
        → PollLoop s (record s { loop = handling messages; fetched = s.fetched ++ messages })
    timeout : {s : State} → s.loop ≡ fetching → PollLoop s (record s { loop = selecting })
    failure : {s : State} → s.loop ≡ fetching → PollLoop s (leave s)
    message :
        {s : State} (m : M) (rest : List M)
        → s.loop ≡ handling (m ∷ rest)
        → PollLoop s (handle_next m rest s)
    batch_done : {s : State} → s.loop ≡ handling [] → PollLoop s (record s { loop = selecting })

  -- PullSubscribe where it returns no error: new channels and a new goroutine, whatever became of the
  -- goroutine before.
  pub data PullSubscribe : State → State → Type 0 where
    pull_subscribe :
        {s : State}
        → s.caller ≡ free
        → PullSubscribe s (record s {
          subscribed = true;
          poll_stop = made;
          poll_done = made;
          loop = selecting;
          earlier = s.loop ∷ s.earlier;
        })

  -- Unsubscribe in its parts: the close of pollStop, which panics if it is closed already, and the return after the
  -- receive from pollDone. Before any subscription it changes nothing, and is no move.
  pub data Unsubscribe : State → State → Type 0 where
    unsubscribe :
        {s : State}
        → s.caller ≡ free
        → s.poll_stop ≡ made
        → Unsubscribe s (record s { poll_stop = closed; caller = awaiting })
    unsubscribe_again :
        {s : State}
        → s.caller ≡ free
        → s.poll_stop ≡ closed
        → Unsubscribe s (record s { caller = panicked })
    unsubscribe_returns :
        {s : State}
        → s.caller ≡ awaiting
        → s.poll_done ≡ closed
        → Unsubscribe s (record s { subscribed = false; caller = free })

  -- Either goroutine may move. The caller subscribes only while no goroutine polls, like Worker.Run, which
  -- subscribes once; a second goroutine beside a first is outside the relation.
  pub data Step : State → State → Type 0 where
    polls : {s t : State} → PollLoop s t → Step s t
    subscribes :
        {s t : State} → (s.loop ≡ unstarted) ⊎ (s.loop ≡ ended) → PullSubscribe s t → Step s t
    unsubscribes : {s t : State} → Unsubscribe s t → Step s t

  pub data Reach (start : S) : State → Type 0 where
    here : Reach start (connected start)
    next : {s t : State} → Reach start s → Step s t → Reach start t

  -- `n` moves of the goroutine of pollLoop on end.
  pub data Polls : ℕ → State → State → Type 0 where
    none_left : {s : State} → Polls 0 s s
    poll : {n : ℕ} {s t u : State} → PollLoop s t → Polls n t u → Polls (suc n) s u
