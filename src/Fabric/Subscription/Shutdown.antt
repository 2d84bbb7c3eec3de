-- ===== src/Fabric/Subscription/Shutdown.antt =====
-- The end of the subscription of internal/fabric/jetstream.go: the goroutine of `pollLoop` leaves once
-- `Unsubscribe` has closed pollStop, and handles nothing after `Unsubscribe` has returned.
use meshyants.Base.{ℕ, ◌+◌, ◌≤◌, ◌<◌, ◌≡◌, refl, ap, Option, [], ◌∷◌, length, arith, inl, inr, ◌⊎◌}
use meshyants.Fabric.Subscription.{
  unmade, closed, free, awaiting, State, Loop, unstarted, selecting, fetching, handling, ended,
  handle_next, leave, PollLoop, stop, go_on, batch, timeout, failure, message, batch_done,
  PullSubscribe, Unsubscribe, pull_subscribe, unsubscribe, unsubscribe_again, unsubscribe_returns,
  polls, subscribes, unsubscribes, Reach, here, next, Polls, none_left, poll,
}

module _ (M S F : Type 0) (handle : M → S → S × Option F) where
  abbrev System : Type 0
  System = State M S F handle

  -- Moves that the goroutine has left at most, once pollStop is closed.
  abbrev pub moves_left : Loop M S F handle → ℕ
  moves_left unstarted = 0
  moves_left ended = 0
  moves_left selecting = 1
  moves_left (handling ms) = length ms + 2
  moves_left fetching = 19

  PollLoop-moves_left :
      {s t : System}
      → PollLoop M S F handle s t
      → s.poll_stop ≡ closed
      → (moves_left t.loop + 1 ≤ moves_left s.loop) × (t.poll_stop ≡ closed)
  unfolding leave handle_next
  PollLoop-moves_left (stop {s} e c) h = (omega (arith, ap moves_left e), h)
  PollLoop-moves_left (go_on {s} e c) h = absurd (cc)
  PollLoop-moves_left (batch {s} ms e n) h = (omega (arith, ap moves_left e), h)
  PollLoop-moves_left (timeout {s} e) h = (omega (arith, ap moves_left e), h)
  PollLoop-moves_left (failure {s} e) h = (omega (arith, ap moves_left e), h)
  PollLoop-moves_left (message {s} m rest e) h = (omega (arith, ap moves_left e), h)
  PollLoop-moves_left (batch_done {s} e) h = (omega (arith, ap moves_left e), h)

  Polls-moves_left :
      {n : ℕ} {s t : System}
      → Polls M S F handle n s t
      → s.poll_stop ≡ closed
      → n + moves_left t.loop ≤ moves_left s.loop
  Polls-moves_left none_left h = omega arith
  Polls-moves_left (poll step rest) h =
      let (less, still) = PollLoop-moves_left step h in
      omega (arith, less, Polls-moves_left rest still)

  -- Whether the goroutine can move.
  abbrev pub CanMove : System → Type 0
  CanMove s = (t : System) × PollLoop M S F handle s t

  can_move :
      (s : System) (l : Loop M S F handle)
      → s.loop ≡ l
      → s.poll_stop ≡ closed
      → 0 < moves_left l
      → CanMove s
  can_move s unstarted e c h = absurd (omega (arith, h))
  can_move s ended e c h = absurd (omega (arith, h))
  can_move s selecting e c h = (_, stop e c)
  can_move s fetching e c h = (_, timeout e)
  can_move s (handling []) e c h = (_, batch_done e)
  can_move s (handling (m ∷ ms)) e c h = (_, message m ms e)

  -- What holds between the two goroutines.
  abbrev pub IsConsistent : System → Type 0
  IsConsistent s =
      (s.loop ≡ unstarted → s.poll_stop ≡ unmade)
      × (s.loop ≡ ended → s.poll_done ≡ closed)
      × (s.poll_done ≡ closed → s.loop ≡ ended)
      × (s.caller ≡ awaiting → s.poll_stop ≡ closed)
      × (s.poll_stop ≡ closed → (s.caller ≡ awaiting) ⊎ (s.loop ≡ ended))
      × (moves_left s.loop ≤ 19)

  PollLoop-IsConsistent :
      {s t : System} → PollLoop M S F handle s t → IsConsistent s → IsConsistent t
  unfolding leave handle_next
  PollLoop-IsConsistent (stop {s} e c) (u, d, d', a, c', m) = ground arith
  PollLoop-IsConsistent (go_on {s} e c) (u, d, d', a, c', m) = ground (arith)
  PollLoop-IsConsistent (batch {s} ms e n) (u, d, d', a, c', m) = ground arith
  PollLoop-IsConsistent (timeout {s} e) (u, d, d', a, c', m) = ground arith
  PollLoop-IsConsistent (failure {s} e) (u, d, d', a, c', m) = ground arith
  PollLoop-IsConsistent (message {s} x rest e) (u, d, d', a, c', m) =
      ground (arith, ap moves_left e)
  PollLoop-IsConsistent (batch_done {s} e) (u, d, d', a, c', m) = ground arith

  PullSubscribe-IsConsistent :
      {s t : System}
      → (s.loop ≡ unstarted) ⊎ (s.loop ≡ ended)
      → PullSubscribe M S F handle s t
      → IsConsistent s
      → IsConsistent t
  PullSubscribe-IsConsistent e (pull_subscribe {s} c) (u, d, d', a, c', m) = ground arith

  Unsubscribe-IsConsistent :
      {s t : System} → Unsubscribe M S F handle s t → IsConsistent s → IsConsistent t
  Unsubscribe-IsConsistent (unsubscribe {s} c e) (u, d, d', a, c', m) = ground arith
  Unsubscribe-IsConsistent (unsubscribe_again {s} c e) (u, d, d', a, c', m) = ground arith
  Unsubscribe-IsConsistent (unsubscribe_returns {s} c e) (u, d, d', a, c', m) = ground arith

  Reach-IsConsistent : (start : S) (s : System) → Reach M S F handle start s → IsConsistent s
  Reach-IsConsistent start s here = ground arith
  Reach-IsConsistent start t (next {s} reach (polls step)) =
      PollLoop-IsConsistent step (Reach-IsConsistent start s reach)
  Reach-IsConsistent start t (next {s} reach (subscribes idle step)) =
      PullSubscribe-IsConsistent idle step (Reach-IsConsistent start s reach)
  Reach-IsConsistent start t (next {s} reach (unsubscribes step)) =
      Unsubscribe-IsConsistent step (Reach-IsConsistent start s reach)

  Polls-Reach :
      {n : ℕ} {s t : System} (start : S)
      → Polls M S F handle n s t
      → Reach M S F handle start s
      → Reach M S F handle start t
  Polls-Reach start none_left reach = reach
  Polls-Reach start (poll step rest) reach = Polls-Reach start rest (next reach (polls step))

  Polls-closed :
      {n : ℕ} {s t : System}
      → Polls M S F handle n s t
      → s.poll_stop ≡ closed
      → t.poll_stop ≡ closed
  Polls-closed none_left h = h
  Polls-closed (poll step rest) h = Polls-closed rest (PollLoop-moves_left step h).1

  done_or_moves :
      (s : System) (l : Loop M S F handle)
      → s.loop ≡ l
      → IsConsistent s
      → s.poll_stop ≡ closed
      → (s.poll_done ≡ closed) ⊎ CanMove s
  done_or_moves s unstarted e h c = absurd (let f = h.0 e in cc)
  done_or_moves s ended e h c = inl (h.1 e)
  done_or_moves s selecting e h c = inr (can_move s selecting e c (omega arith))
  done_or_moves s fetching e h c = inr (can_move s fetching e c (omega arith))
  done_or_moves s (handling ms) e h c = inr (can_move s (handling ms) e c (omega arith))

  -- From any reachable state in which Unsubscribe waits for the goroutine of the poll loop, the
  -- goroutine makes at most 19 moves, and wherever it stands after them it can move on or has closed
  -- pollDone, which ends the wait.
  pub unsubscribe_ends :
      (start : S) (s t : System) (n : ℕ)
      → Reach M S F handle start s
      → s.caller ≡ awaiting
      → Polls M S F handle n s t
      → (n ≤ 19) × ((t.poll_done ≡ closed) ⊎ CanMove t)
  unsubscribe_ends start s t n reach waits run =
      let h = Reach-IsConsistent start s reach in
      let stopped = h.3 waits in
      let k = Reach-IsConsistent start t (Polls-Reach start run reach) in
      (
        omega (arith, Polls-moves_left run stopped, h.5),
        done_or_moves t t.loop refl k (Polls-closed run stopped),
      )

  not-CanMove : (s : System) → s.loop ≡ ended → ¬ CanMove s
  not-CanMove s e (t, stop e' c) = absurd cc
  not-CanMove s e (t, go_on e' c) = absurd cc
  not-CanMove s e (t, batch ms e' n) = absurd cc
  not-CanMove s e (t, timeout e') = absurd cc
  not-CanMove s e (t, failure e') = absurd cc
  not-CanMove s e (t, message m rest e') = absurd cc
  not-CanMove s e (t, batch_done e') = absurd cc

  -- In a reachable state after Unsubscribe has returned, with no later subscription, the goroutine of
  -- the poll loop has ended and can make no further move, so that no message is handled any more.
  pub unsubscribed_silent :
      (start : S) (s : System)
      → Reach M S F handle start s
      → s.caller ≡ free
      → s.poll_stop ≡ closed
      → (s.loop ≡ ended) × ¬ CanMove s
  unsubscribed_silent start s reach e c = elim ((Reach-IsConsistent start s reach).4 c) [
    | inl waits ↦ absurd cc
    | inr gone ↦ (gone, not-CanMove s gone)
  ]
