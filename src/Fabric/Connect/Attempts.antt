-- ===== src/Fabric/Connect/Attempts.antt =====
-- The retries of ConnectJetStream in internal/fabric/jetstream.go.
use meshyants.Base.{
  ℕ, zero, suc, ◌+◌, ◌≤◌, ◌<◌, ◌≡◌, ◌≢◌, ◌⊎◌, ◌↔◌, inl, inr, refl, sym, ap, ◌∙◌, not, ◌&&◌, Bool,
  Bool-cases, true, false, ok, arith, eqb, subst,
}
use meshyants.Fabric.Connect.{
  JetStreamConfig, Attempt, Dialled, dialled, dial_failed, dial_cancelled, dial, Server,
  ensure_stream, connect_jet_stream,
}

-- The round fails and the loop goes on.
abbrev pub waits : Attempt → Bool
waits a = not a.connects && (not a.past_deadline && not a.cancelled)

-- The loop ends in round `j` among the `n` from `k` on.
abbrev pub EndsAt : ℕ → ℕ → (ℕ → Attempt) → ℕ → Type 0
EndsAt n k env j =
    (k ≤ j)
    × (j < k + n)
    × ((env j).connects ≡ true)
    × ((i : ℕ) → k ≤ i → i < j → waits (env i) ≡ true)

dial_connects :
    (n k : ℕ) (env : ℕ → Attempt) → (env k).connects ≡ true → dial (suc n) k env ≡ dialled k
unfolding dial
dial_connects n k env e = rw (e, dial) refl

dial-waits :
    (n k : ℕ) (env : ℕ → Attempt) → waits (env k) ≡ true → dial (suc n) k env ≡ dial n (k + 1) env
unfolding dial
dial-waits n k env w =
    let a : (env k).connects ≡ false = ground arith in
    let b : (env k).past_deadline ≡ false = ground arith in
    let c : (env k).cancelled ≡ false = ground arith in
    rw (a, dial) (rw (b, dial) (rw (c, dial) refl))

dial_stops :
    (n k : ℕ) (env : ℕ → Attempt) (j : ℕ)
    → (env k).connects ≡ false
    → waits (env k) ≡ false
    → dial (suc n) k env ≢ dialled j
unfolding dial
dial_stops n k env j e w h = elim (Bool-cases (env k).past_deadline) [
  | inl late ↦
      let ends : dial (suc n) k env ≡ dial_failed = rw (e, dial) (rw (late, dial) refl) in cc
  | inr early ↦
      let done : (env k).cancelled ≡ true = ground arith in
      let ends : dial (suc n) k env ≡ dial_cancelled =
        rw (e, dial) (rw (early, dial) (rw (done, dial) refl)) in
      cc
]

waits_from :
    (k j : ℕ) (env : ℕ → Attempt)
    → waits (env k) ≡ true
    → ((i : ℕ) → k + 1 ≤ i → i < j → waits (env i) ≡ true)
    → (i : ℕ) → k ≤ i
    → i < j
    → waits (env i) ≡ true
waits_from k j env w rest i le lt = elim (Bool-cases (eqb i k)) [
  | inl e ↦ let same : k ≡ i = ground (arith, e) in subst (λ x. waits (env x) ≡ true) same w
  | inr e ↦ rest i (ground (arith, e)) lt
]

dial-EndsAt : (n k : ℕ) (env : ℕ → Attempt) (j : ℕ) → dial n k env ≡ dialled j → EndsAt n k env j
unfolding dial
dial-EndsAt zero k env j h = absurd cc
dial-EndsAt (suc n) k env j h = elim (Bool-cases (env k).connects) [
  | inl e ↦
      let same : k ≡ j = cc (sym (dial_connects n k env e) ∙ h) in
      (omega arith, omega arith, rw (← same) e, λ i le lt. absurd (omega arith))
  | inr e ↦ elim (Bool-cases (waits (env k))) [
    | inl w ↦
        let (le, lt, connects, all) =
          dial-EndsAt n (k + 1) env j (sym (dial-waits n k env w) ∙ h) in
        (omega arith, omega arith, connects, waits_from k j env w all)
    | inr w ↦ absurd (dial_stops n k env j e w h)
  ]
]

EndsAt-dial : (n k : ℕ) (env : ℕ → Attempt) (j : ℕ) → EndsAt n k env j → dial n k env ≡ dialled j
EndsAt-dial zero k env j (le, lt, connects, all) = absurd (omega arith)
EndsAt-dial (suc n) k env j (le, lt, connects, all) = elim (Bool-cases (eqb j k)) [
  | inl e ↦
      let same : j ≡ k = ground (arith, e) in
      dial_connects n k env (rw (← same) connects) ∙ ap dialled (sym same)
  | inr e ↦
      let before : k < j = ground (arith, e) in
      dial-waits n k env (all k (omega arith) before)
      ∙ EndsAt-dial n (k + 1) env j
          (omega arith, omega arith, connects, λ i from to. all i (omega (arith, from)) to)
]

abbrev pub HasStream : Server → JetStreamConfig → Type 0
HasStream server cfg =
    (server.jet_stream ≡ true)
    × ((server.stream_info cfg.stream_name ≡ true) ⊎ (server.add_stream cfg ≡ true))

ensure_stream_iff :
    (server : Server) (cfg : JetStreamConfig) (j : ℕ)
    → ((ensure_stream server cfg (dialled j)).outcome ≡ ok cfg) ↔ HasStream server cfg
unfolding ensure_stream
ensure_stream_iff server cfg j = ground arith

no_leak :
    (server : Server) (cfg : JetStreamConfig) (d : Dialled)
    → ((ensure_stream server cfg d).outcome ≡ ok cfg)
      ⊎ ((ensure_stream server cfg d).opened ≡ (ensure_stream server cfg d).drained)
unfolding ensure_stream
no_leak server cfg dial_failed = inr refl
no_leak server cfg dial_cancelled = inr refl
no_leak server cfg (dialled j) = ground arith

returned :
    (server : Server) (cfg : JetStreamConfig) (d : Dialled)
    → (ensure_stream server cfg d).outcome ≡ ok cfg
    → ((j : ℕ) × (d ≡ dialled j)) × HasStream server cfg
unfolding ensure_stream
returned server cfg dial_failed h = absurd cc
returned server cfg dial_cancelled h = absurd cc
returned server cfg (dialled j) h = ((j, refl), (ensure_stream_iff server cfg j).0 h)

-- ConnectJetStream returns a transport exactly if one of its forty rounds connects, every round before
-- it fails before the deadline and with the context not done, JetStream is there, and the stream is
-- there or can be added. A connection that is opened and not returned is drained.
pub connect_jet_stream_iff :
    (env : ℕ → Attempt) (server : Server) (cfg : JetStreamConfig)
    → let c = connect_jet_stream env server cfg in
      ((c.outcome ≡ ok cfg) ↔ (((j : ℕ) × EndsAt 40 0 env j) × HasStream server cfg))
      × ((c.outcome ≡ ok cfg) ⊎ (c.opened ≡ c.drained))
unfolding connect_jet_stream
connect_jet_stream_iff env server cfg = (
  (
    λ h.
        let ((j, e), there) = returned server cfg (dial 40 0 env) h in
        ((j, dial-EndsAt 40 0 env j e), there),
    λ ((j, ends), there).
        ap (λ d. (ensure_stream server cfg d).outcome) (EndsAt-dial 40 0 env j ends)
        ∙ (ensure_stream_iff server cfg j).1 there,
  ),
  no_leak server cfg (dial 40 0 env),
)
