-- ===== src/Fabric/Subscription/Tests.antt =====
-- Runs of the subscription of internal/fabric/jetstream.go.
use meshyants.Base.{
  ℕ, suc, ◌≤◌, ◌≡◌, ◌⊎◌, inl, refl, true, false, zero, Option, none, some, List, [], ◌∷◌, ◌++◌,
  arith,
}
use meshyants.Fabric.Subscription.{
  unstarted, State, closed, made, ack, nak, free, awaiting, ended, connected, handling, selecting,
  answer, leave, handle_next, stop, go_on, batch, message, batch_done, pull_subscribe, unsubscribe,
  unsubscribe_returns, polls, subscribes, unsubscribes, Reach, here, next, Polls, none_left, poll,
}
use meshyants.Fabric.Subscription.Replay.{handle_all, remaining, Reach-IsReplay}
use meshyants.Fabric.Subscription.Shutdown.{CanMove, unsubscribe_ends, unsubscribed_silent}

-- A handler that keeps what it is given, and fails on 0.
abbrev keep : ℕ → List ℕ → List ℕ × Option (Unit {0})
keep zero s = (s, some tt)
keep (suc n) s = (suc n ∷ s, none)

abbrev System : Type 0
System = State ℕ (List ℕ) (Unit {0}) keep

-- Subscribed, with a batch of two fetched.
abbrev fetched_two : System
fetched_two = record (connected ℕ (List ℕ) (Unit {0}) keep []) {
  poll_stop = made;
  poll_done = made;
  subscribed = true;
  loop = handling (0 ∷ 7 ∷ []);
  earlier = unstarted ∷ [];
  fetched = 0 ∷ 7 ∷ [];
}

two_fetched : Reach ℕ (List ℕ) (Unit {0}) keep [] fetched_two
two_fetched =
    next (next (next here (subscribes (inl refl) (pull_subscribe refl))) (polls (go_on refl refl)))
      (polls (batch (0 ∷ 7 ∷ []) refl (omega arith)))

-- The first message handled, which failed.
abbrev one_handled : System
one_handled = record fetched_two { loop = handling (7 ∷ []); handled = 0 ∷ []; answers = nak ∷ [] }

handled_one : Reach ℕ (List ℕ) (Unit {0}) keep [] one_handled
unfolding handle_next answer
handled_one = next two_fetched (polls (message 0 (7 ∷ []) refl))

Reach-IsReplay_example :
    ((one_handled.world, one_handled.answers) ≡ handle_all ℕ (List ℕ) (Unit {0}) keep (0 ∷ []) [])
    × (one_handled.handled ++ remaining ℕ (List ℕ) (Unit {0}) keep one_handled.loop
        ≡ one_handled.fetched)
Reach-IsReplay_example = Reach-IsReplay ℕ (List ℕ) (Unit {0}) keep [] one_handled handled_one

-- Unsubscribe called with a message of the batch left.
abbrev one_stopped : System
one_stopped = record one_handled { poll_stop = closed; caller = awaiting }

stopped_one : Reach ℕ (List ℕ) (Unit {0}) keep [] one_stopped
stopped_one = next handled_one (unsubscribes (unsubscribe refl refl))

-- The goroutine back at its select, with both messages handled.
abbrev two_handled : System
two_handled = record one_stopped {
  loop = selecting;
  world = 7 ∷ [];
  handled = 0 ∷ 7 ∷ [];
  answers = nak ∷ ack ∷ [];
}

polled_twice : Polls ℕ (List ℕ) (Unit {0}) keep 2 one_stopped two_handled
unfolding handle_next answer
polled_twice = poll (message 7 [] refl) (poll (batch_done refl) none_left)

unsubscribe_ends_example :
    (2 ≤ 19) × ((two_handled.poll_done ≡ closed) ⊎ CanMove ℕ (List ℕ) (Unit {0}) keep two_handled)
unsubscribe_ends_example =
    unsubscribe_ends ℕ (List ℕ) (Unit {0}) keep [] one_stopped two_handled 2 stopped_one refl
      polled_twice

abbrev two_returned : System
two_returned = record two_handled {
  loop = ended;
  poll_done = closed;
  subscribed = false;
  caller = free;
}

returned_two : Reach ℕ (List ℕ) (Unit {0}) keep [] two_returned
unfolding handle_next answer leave
returned_two =
    next
      (next (next (next stopped_one (polls (message 7 [] refl))) (polls (batch_done refl)))
        (polls (stop refl refl)))
      (unsubscribes (unsubscribe_returns refl refl))

unsubscribed_silent_example :
    (two_returned.loop ≡ ended) × ¬ CanMove ℕ (List ℕ) (Unit {0}) keep two_returned
unsubscribed_silent_example =
    unsubscribed_silent ℕ (List ℕ) (Unit {0}) keep [] two_returned returned_two refl refl
