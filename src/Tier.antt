-- ===== src/Tier.antt =====
-- internal/runtime/tier/tier.go and memory_linux.go: the tier that a host claims. The operating system's name and its
-- memory are arguments; wazero.NewRuntime always succeeds.
use meshyants.Base.{
  ℕ, ◌*◌, ◌%◌, ◌^◌, ◌≤◌, Option, none, some, ◌≡◌, ◌⊎◌, ◌↔◌, Bytes, list_eq, nat_eq, ◌==◌, ltb, eqb,
  not, ◌&&◌, ◌||◌, Bool, Bool-cases, inl, inr, true, if◌then◌else◌, arith,
}
use meshyants.Text.{codes}
use meshyants.Contracts.{RuntimeTier, tier_relay, tier_executor_basic, tier_executor_wasm}

abbrev pub default_min_memory : ℕ
default_min_memory = 256 * 1024 * 1024

abbrev pub is_general_purpose : Bytes → Bool
is_general_purpose goos =
    goos == codes "linux"
    || goos == codes "darwin"
    || goos == codes "windows"
    || goos == codes "freebsd"

-- readSysTotalMemory of memory_linux.go, from the fields Totalram and Unit that Sysinfo sets, or its
-- error.
unfoldable pub read_sys_total_memory : Option (ℕ × ℕ) → ℕ
read_sys_total_memory none = 0
read_sys_total_memory (some (totalram, unit)) = totalram * unit % 2 ^ 64

-- `sys_mem` is readSysTotalMemory, 0 where it is not known.
unfoldable pub detect : Bytes → ℕ → ℕ → RuntimeTier
detect goos sys_mem min_memory_bytes_for_wasm =
    if not (is_general_purpose goos)
    then tier_relay
    else let min =
        if eqb min_memory_bytes_for_wasm 0 then default_min_memory else min_memory_bytes_for_wasm in
      if ltb 0 sys_mem && ltb sys_mem min then tier_executor_basic else tier_executor_wasm

-- A host claims the Wasm tier exactly if its system is one of the four general ones and its memory is
-- unknown or at least the minimum asked for, 256 MiB where that is 0.
pub detect_wasm_iff :
    (goos : Bytes) (sys_mem asked : ℕ)
    → (detect goos sys_mem asked ≡ tier_executor_wasm) ↔ (
        (is_general_purpose goos ≡ true)
        × ((sys_mem ≡ 0) ⊎ ((if eqb asked 0 then default_min_memory else asked) ≤ sys_mem)))
unfolding detect
detect_wasm_iff goos sys_mem asked = elim (Bool-cases (is_general_purpose goos)) [
  | inl known ↦ rw known (ground arith)
  | inr unknown ↦ rw unknown (ground arith)
]
