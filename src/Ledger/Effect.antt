-- ===== src/Ledger/Effect.antt =====
-- internal/ledger/effect/ledger.go: which side effects have been applied, by their keys.
pub mod Once
mod Tests
use meshyants.Base.{Bytes, Result, ok, err, Bool, true, false, is_some, Option, none, some, [], ◌∷◌}
use meshyants.Ledger.Bolt.{Bolt, committed}

pub data Fault : Type 0 where
  database : Fault

module _ (b : Bolt) where
  open b use {Bucket, get, put}

  -- The function that `TryApply` hands to `db.Update`, with the variable `applied` that it sets: the
  -- second branch is reached where the key is new, on the outcome of `b.Put`.
  abbrev put_outcome : Option Bucket → Bool × Result Fault Bucket
  put_outcome none = (false, err database)
  put_outcome (some t) = (true, ok t)

  abbrev apply_outcome : Bytes → Bucket → Option Bytes → Bool × Result Fault Bucket
  apply_outcome k s (some v) = (false, ok s)
  apply_outcome k s none = put_outcome (put s k (1 ∷ []))

  unfoldable pub apply_tx : Bytes → Bucket → Bool × Result Fault Bucket
  apply_tx effect_key s = apply_outcome effect_key s (get s effect_key)

  -- The bucket afterwards, and what the call returns: `applied` and the error.
  unfoldable pub try_apply : Bytes → Bucket → Bucket × (Bool × Option Fault)
  unfolding apply_tx
  try_apply effect_key s =
      let (applied, r) = apply_tx effect_key s in
      let (t, e) = committed b database s r in (t, (applied, e))

  unfoldable pub has_effect : Bytes → Bucket → Bool
  has_effect effect_key s = is_some (get s effect_key)
