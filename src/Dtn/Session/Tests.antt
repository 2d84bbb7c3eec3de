-- ===== src/Dtn/Session/Tests.antt =====
-- Sessions of internal/dtn/sync.go run, and the theorems at concrete sessions.
use mathlib.Core.List.{flatten}
use meshyants.Base.{
  ℕ, zero, suc, ◌≡◌, ◌<◌, refl, Bytes, pos, negsuc, insert, lookup, list_beq, true, ok, some, List,
  [], ◌∷◌, arith,
}
use meshyants.Dtn.Session.{
  Session, chunk_conflict, index_out_of_range, new_session, handle_data, offer, request_missing,
  complete,
}
use meshyants.Dtn.Session.Delivery.{receive, arrives, complete-receive}

abbrev object : List Bytes
object = (1 ∷ 2 ∷ []) ∷ (3 ∷ []) ∷ []

abbrev packets : List (ℕ × Bytes)
packets = (1, 3 ∷ []) ∷ (0, 1 ∷ 2 ∷ []) ∷ (1, 3 ∷ []) ∷ []

abbrev half_way : Session
half_way = (handle_data (new_session (pos 2)) (pos 1) (3 ∷ [])).0

half_way_lists : (offer half_way ≡ pos 1 ∷ []) × (request_missing half_way ≡ pos 0 ∷ [])
unfolding new_session handle_data insert lookup offer request_missing
half_way_lists = (refl, refl)

conflicting : (handle_data half_way (pos 1) (4 ∷ [])).1 ≡ some (chunk_conflict (pos 1))
unfolding new_session handle_data insert lookup list_beq
conflicting = refl

negative : (handle_data half_way (negsuc 0) []).1 ≡ some index_out_of_range
unfolding new_session handle_data insert lookup
negative = refl

all_arrive : (j : ℕ) → j < 2 → arrives j packets ≡ true
unfolding arrives
all_arrive zero h = refl
all_arrive (suc zero) h = refl
all_arrive (suc (suc j)) h = absurd (omega arith)

complete-receive_example : complete (receive packets (new_session (pos 2))) ≡ ok (flatten object)
complete-receive_example = complete-receive object packets (refl, (refl, (refl, tt))) all_arrive
