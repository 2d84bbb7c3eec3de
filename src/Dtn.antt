-- ===== src/Dtn.antt =====
-- internal/dtn: the delay-tolerant chunk overlay, its wire format and its reassembly session.
pub mod Framing
pub mod Session
