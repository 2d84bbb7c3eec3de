-- ===== src/Execwasm.antt =====
-- internal/execwasm/exec.go: one WebAssembly task under quotas. wazero is a parameter: what each of its
-- calls reports under the limits that it is given, and whether the deadline has passed by then.
use meshyants.Base.{
  ℕ, ◌/◌, ◌*◌, ◌≡◌, ◌⊎◌, ◌↔◌, refl, Bytes, eqb, ltb, ◌||◌, Bool, Option, none, some, arith,
  if◌then◌else◌,
}
use meshyants.Text.{Unicode, codes, to_lower, contains}

-- A duration in nanoseconds, and bytes.
pub record Quotas : Type 0 where
  pub max_duration : ℕ
  pub max_memory_bytes : ℕ

unfoldable pub default_quotas : Quotas
default_quotas = record { max_duration = 50 * 1000000; max_memory_bytes = 0 }

pub data Fault : Type 0 where
  timeout memory_limit other : Bytes → Fault

-- What wazero is run under: a deadline and, where there is one, a limit in pages of 64 KiB.
pub record Limits : Type 0 where
  pub duration : ℕ
  pub pages : Option ℕ

-- Each call reports the text of its error or `none`; `start` is `none` where the module exports no
-- `_start`. `expired`: whether the context is done when `Run` asks.
pub record Engine : Type 0 where
  pub instantiate_wasi : Limits → Option Bytes
  pub compile : Limits → Bytes → Option Bytes
  pub instantiate : Limits → Bytes → Option Bytes
  pub start : Limits → Bytes → Option (Option Bytes)
  pub expired : Bool

unfoldable pub effective : Quotas → Quotas
unfolding default_quotas
effective q = if eqb q.max_duration 0 then default_quotas else q

unfoldable pub limits_of : Quotas → Limits
limits_of q = record {
  duration = q.max_duration;
  pages = if ltb 0 q.max_memory_bytes then some (q.max_memory_bytes / 65536) else none;
}

-- classifyError on an error that is not nil.
unfoldable pub classify_error : Unicode → Bool → Bytes → Fault
classify_error u expired text =
    let low = to_lower u text in
    if expired || contains low (codes "deadline exceeded")
    then timeout text
    else if contains low (codes "memory")
    then memory_limit text
    else other text

module _ (u : Unicode) (e : Engine) where
  abbrev pub started : Option (Option Bytes) → Option Fault
  started none = none
  started (some none) = none
  started (some (some text)) = some (classify_error u e.expired text)

  abbrev pub instantiated : Limits → Bytes → Option Bytes → Option Fault
  instantiated limits wasm (some text) = some (classify_error u e.expired text)
  instantiated limits wasm none = started (e.start limits wasm)

  abbrev pub compiled : Limits → Bytes → Option Bytes → Option Fault
  compiled limits wasm (some text) = some (other text)
  compiled limits wasm none = instantiated limits wasm (e.instantiate limits wasm)

  abbrev pub with_wasi : Limits → Bytes → Option Bytes → Option Fault
  with_wasi limits wasm (some text) = some (other text)
  with_wasi limits wasm none = compiled limits wasm (e.compile limits wasm)

  -- `Run`.
  unfoldable pub run : Bytes → Quotas → Option Fault
  unfolding effective limits_of classify_error
  run wasm quotas =
      let limits = limits_of (effective quotas) in with_wasi limits wasm (e.instantiate_wasi limits)

  -- Run returns nil exactly if every call of wazero succeeds, under the limits of the quotas, and the
  -- module has no `_start` or its `_start` ends without an error.
  pub run_nil_iff :
      (wasm : Bytes) (quotas : Quotas)
      → let limits = limits_of (effective quotas) in
        (run wasm quotas ≡ none) ↔ (
          (e.instantiate_wasi limits ≡ none)
          × (e.compile limits wasm ≡ none)
          × (e.instantiate limits wasm ≡ none)
          × ((e.start limits wasm ≡ none) ⊎ (e.start limits wasm ≡ some none)))
  unfolding run
  run_nil_iff wasm quotas = let limits = limits_of (effective quotas) in ground arith

-- Quotas with a memory limit and no duration are replaced by the default ones as a whole: the memory is
-- not limited.
pub memory_limit_dropped :
    (quotas : Quotas) → quotas.max_duration ≡ 0 → (limits_of (effective quotas)).pages ≡ none
unfolding effective limits_of default_quotas
memory_limit_dropped quotas h = rw h refl
