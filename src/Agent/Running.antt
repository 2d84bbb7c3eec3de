-- ===== src/Agent/Running.antt =====
-- The worker of internal/agent/worker.go behind the subscription of internal/fabric/jetstream.go:
-- Worker.Run hands every message of the poll loop to handleMessage.
use meshyants.Base.{◌≤◌, ◌≡◌, refl, ap, ◌∙◌, Bytes, Option, List, [], ◌∷◌, All}
use meshyants.Ledger.Effect.{has_effect}
use meshyants.Ledger.Effect.Once.{bit}
use meshyants.Fabric.Subscription.{State, Reach}
use meshyants.Fabric.Subscription.Replay.{handle_all, Reach-IsReplay}
use meshyants.Agent.{Site, Worker, World, Clock, Fault, handle_message}
use meshyants.Agent.Once.{times, IsOnce, deliver, deliver-IsOnce}
use meshyants.Agent.Trusted.{IsTrusted, deliver-IsTrusted}

module _ (site : Site) (worker : Worker) where
  -- The handler that Run passes to PullSubscribe; a message carries the time at which it is handled.
  unfoldable pub handler : Clock × Bytes → World site worker → World site worker × Option Fault
  handler (clock, body) w = handle_message site worker clock body w

  abbrev pub Running : Type 0
  Running = State (Clock × Bytes) (World site worker) Fault handler

  deliver-handle_all :
      (messages : List (Clock × Bytes)) (w : World site worker)
      → (handle_all (Clock × Bytes) (World site worker) Fault handler messages w).0
        ≡ deliver site worker messages w
  unfolding deliver handler
  deliver-handle_all [] w = refl
  deliver-handle_all ((clock, body) ∷ rest) w =
      deliver-handle_all rest (handle_message site worker clock body w).0

  world-deliver :
      (start : World site worker) (s : Running)
      → Reach (Clock × Bytes) (World site worker) Fault handler start s
      → s.world ≡ deliver site worker s.handled start
  world-deliver start s reach =
      ap (λ p. p.0)
        (Reach-IsReplay (Clock × Bytes) (World site worker) Fault handler start s reach).0
      ∙ deliver-handle_all s.handled start

  -- At every moment of a worker behind its subscription, whatever the fetches return and wherever the
  -- caller of the subscription stands, the executor has been called at most once for each idempotency
  -- key and only on tasks that are genuine and safe, if that was so at the start.
  pub Reach-IsOnce :
      (start : World site worker) (s : Running)
      → Reach (Clock × Bytes) (World site worker) Fault handler start s
      → IsOnce site worker start
      → All (IsTrusted site worker) start.executed
      → ((j : Bytes) → times j s.world.executed ≤ bit (has_effect site.bolt j s.world.ledger))
        × All (IsTrusted site worker) s.world.executed
  Reach-IsOnce start s reach once trusted = rw (world-deliver start s reach) (
    deliver-IsOnce site worker s.handled start once,
    deliver-IsTrusted site worker s.handled start trusted,
  )
