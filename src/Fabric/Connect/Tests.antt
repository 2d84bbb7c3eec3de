-- ===== src/Fabric/Connect/Tests.antt =====
-- One run of ConnectJetStream of internal/fabric/jetstream.go.
use meshyants.Base.{ℕ, ◌≡◌, ◌⊎◌, ◌↔◌, refl, true, false, eqb, ok}
use meshyants.Fabric.Connect.{default_jet_stream_config, Attempt, Server, connect_jet_stream}
use meshyants.Fabric.Connect.Attempts.{EndsAt, HasStream, connect_jet_stream_iff}

-- The third round connects.
abbrev third : ℕ → Attempt
third i = record { connects = eqb i 2; past_deadline = false; cancelled = false }

-- A server without the stream, which can be added.
abbrev fresh : Server
fresh = record { jet_stream = true; stream_info = λ name. false; add_stream = λ cfg. true }

connect_jet_stream_iff_example :
    let c = connect_jet_stream third fresh default_jet_stream_config in
    ((c.outcome ≡ ok default_jet_stream_config)
      ↔ (((j : ℕ) × EndsAt 40 0 third j) × HasStream fresh default_jet_stream_config))
    × ((c.outcome ≡ ok default_jet_stream_config) ⊎ (c.opened ≡ c.drained))
connect_jet_stream_iff_example = connect_jet_stream_iff third fresh default_jet_stream_config

third_round :
    (connect_jet_stream third fresh default_jet_stream_config).outcome
    ≡ ok default_jet_stream_config
unfolding connect_jet_stream
third_round = refl
