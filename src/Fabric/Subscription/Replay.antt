-- ===== src/Fabric/Subscription/Replay.antt =====
-- The subscription of internal/fabric/jetstream.go against a handler that is called on one message
-- after another.
use meshyants.Base.{
  ◌≡◌, refl, sym, ap, subst, ◌∙◌, inl, inr, ◌⊎◌, Option, none, some, List, [], ◌∷◌, ◌++◌,
}
use mathlib.Core.List.{append_assoc, append-nil}
use meshyants.Fabric.Subscription.{
  Answer, ack, nak, unstarted, ended, State, Loop, handling, answer, handle_next, leave, PollLoop,
  stop, go_on, batch, timeout, failure, message, batch_done, PullSubscribe, Unsubscribe,
  pull_subscribe, unsubscribe, unsubscribe_again, unsubscribe_returns, polls, subscribes,
  unsubscribes, Reach, here, next,
}

module _ (M S F : Type 0) (handle : M → S → S × Option F) where
  abbrev System : Type 0
  System = State M S F handle

  -- No error is acknowledged, and an error is not.
  abbrev pub due : Option F → Answer
  due none = ack
  due (some _) = nak

  answer-eq-due : (fault : Option F) → answer M S F handle fault ≡ due fault
  unfolding answer
  answer-eq-due none = refl
  answer-eq-due (some _) = refl

  -- The specification: every message handled once, in order, and answered by the outcome.
  abbrev pub handle_all : List M → S → S × List Answer
  handle_all [] s = (s, [])
  handle_all (m ∷ ms) s =
      let (t, fault) = handle m s in let (u, answers) = handle_all ms t in (u, due fault ∷ answers)

  -- The messages of a batch that are still to be handled.
  abbrev pub remaining : Loop M S F handle → List M
  remaining (handling ms) = ms
  remaining _ = []

  handle_all-snoc :
      (ms : List M) (m : M) (s : S)
      → handle_all (ms ++ (m ∷ [])) s ≡ (
        (handle m (handle_all ms s).0).0,
        (handle_all ms s).1 ++ (due (handle m (handle_all ms s).0).1 ∷ []),
      )
  handle_all-snoc [] m s = refl
  handle_all-snoc (x ∷ xs) m s = simp (handle_all-snoc xs m (handle x s).0)

  -- The world and the answers are those of the specification on what was handled, and what was handled
  -- is what was fetched but for the rest of the batch.
  abbrev pub IsReplay : S → System → Type 0
  IsReplay start s =
      ((s.world, s.answers) ≡ handle_all s.handled start)
      × (s.handled ++ remaining s.loop ≡ s.fetched)

  -- The rest of the batch, read off the place of the goroutine.
  at :
      (s : System) {l : Loop M S F handle}
      → s.loop ≡ l
      → s.handled ++ remaining s.loop ≡ s.fetched
      → s.handled ++ remaining l ≡ s.fetched
  at s e = subst (λ l. s.handled ++ remaining l ≡ s.fetched) e

  message-IsReplay :
      (start : S) (s : System) (m : M) (rest : List M)
      → s.loop ≡ handling (m ∷ rest)
      → IsReplay start s
      → IsReplay start (handle_next M S F handle m rest s)
  unfolding handle_next
  message-IsReplay start s m rest e (same, all) = rw answer-eq-due (
    ap (λ p. ((handle m p.0).0, p.1 ++ (due (handle m p.0).1 ∷ []))) same
        ∙ sym (handle_all-snoc s.handled m start),
    append_assoc s.handled (m ∷ []) rest ∙ at s e all,
  )

  PollLoop-IsReplay :
      (start : S) {s t : System} → PollLoop M S F handle s t → IsReplay start s → IsReplay start t
  unfolding leave
  PollLoop-IsReplay start (stop {s} e c) (same, all) = (same, at s e all)
  PollLoop-IsReplay start (go_on {s} e c) (same, all) = (same, at s e all)
  PollLoop-IsReplay start (batch {s} ms e n) (same, all) =
      (same, ap (λ fetched. fetched ++ ms) (sym (append-nil s.handled) ∙ at s e all))
  PollLoop-IsReplay start (timeout {s} e) (same, all) = (same, at s e all)
  PollLoop-IsReplay start (failure {s} e) (same, all) = (same, at s e all)
  PollLoop-IsReplay start (message {s} m rest e) h = message-IsReplay start s m rest e h
  PollLoop-IsReplay start (batch_done {s} e) (same, all) = (same, at s e all)

  PullSubscribe-IsReplay :
      (start : S) {s t : System}
      → (s.loop ≡ unstarted) ⊎ (s.loop ≡ ended)
      → PullSubscribe M S F handle s t
      → IsReplay start s
      → IsReplay start t
  PullSubscribe-IsReplay start (inl e) (pull_subscribe {s} c) (same, all) = (same, at s e all)
  PullSubscribe-IsReplay start (inr e) (pull_subscribe {s} c) (same, all) = (same, at s e all)

  Unsubscribe-IsReplay :
      (start : S) {s t : System}
      → Unsubscribe M S F handle s t
      → IsReplay start s
      → IsReplay start t
  Unsubscribe-IsReplay start (unsubscribe c e) h = h
  Unsubscribe-IsReplay start (unsubscribe_again c e) h = h
  Unsubscribe-IsReplay start (unsubscribe_returns c e) h = h

  -- However the goroutine of the poll loop and the caller of the subscription interleave, and whatever
  -- the fetches return, the state that the handler works on and the answers to the server are those of
  -- the handler called once on each message handled, in the order of the fetches, with ack for no error
  -- and nak for an error; and what was fetched is what was handled and then the rest of the batch. The caller
  -- subscribes only while no goroutine polls.
  pub Reach-IsReplay :
      (start : S) (s : System)
      → Reach M S F handle start s
      → ((s.world, s.answers) ≡ handle_all s.handled start)
        × (s.handled ++ remaining s.loop ≡ s.fetched)
  Reach-IsReplay start s here = (refl, refl)
  Reach-IsReplay start t (next {s} reach (polls step)) =
      PollLoop-IsReplay start step (Reach-IsReplay start s reach)
  Reach-IsReplay start t (next {s} reach (subscribes idle step)) =
      PullSubscribe-IsReplay start idle step (Reach-IsReplay start s reach)
  Reach-IsReplay start t (next {s} reach (unsubscribes step)) =
      Unsubscribe-IsReplay start step (Reach-IsReplay start s reach)
