-- ===== src/Loadsim/Tasks.antt =====
-- The tasks of cmd/loadsim/main.go are told apart by the effect ledgers.
use meshyants.Base.{ℕ, ◌^◌, ◌<◌, ◌≡◌, sym, ap, ◌∙◌, Bytes, [], ◌∷◌, ◌++◌}
use meshyants.Text.{codes}
use meshyants.Text.Decimal.{decimal, read_from, read_from-decimal}
use meshyants.Loadsim.{Site, Options, idempotency_key_of}

append-cancel : (xs ys zs : Bytes) → xs ++ ys ≡ xs ++ zs → ys ≡ zs
append-cancel [] ys zs h = h
append-cancel (x ∷ xs) ys zs h = append-cancel xs ys zs (cc h)

decimal_injective : (k j : ℕ) → k < 10 ^ 20 → j < 10 ^ 20 → decimal k ≡ decimal j → k ≡ j
decimal_injective k j h i e =
    sym (read_from-decimal k h) ∙ ap (read_from 0) e ∙ read_from-decimal j i

-- Two tasks of one run have the same idempotency key only if they have the same number, below 10 ^ 20.
pub idempotency_key_of_injective :
    (site : Site) (o : Options) (run_id private_key : Bytes) (k j : ℕ)
    → k < 10 ^ 20
    → j < 10 ^ 20
    → idempotency_key_of site o run_id private_key k
      ≡ idempotency_key_of site o run_id private_key j
    → k ≡ j
unfolding idempotency_key_of
idempotency_key_of_injective site o run_id private_key k j h i e =
    let rest =
      append-cancel (codes "idem-") (run_id ++ (codes "-" ++ decimal k))
        (run_id ++ (codes "-" ++ decimal j)) e in
    let number = append-cancel run_id (codes "-" ++ decimal k) (codes "-" ++ decimal j) rest in
    decimal_injective k j h i (append-cancel (codes "-") (decimal k) (decimal j) number)
