-- ===== src/Storage/Limits.antt =====
-- When EvictNow of internal/storage/manager.go evicts, and down to what target.
use plex_mirror.Base.{
  ℕ, ◌+◌, ◌*◌, ◌/◌, ◌^◌, ◌≤◌, ◌<◌, ◌≡◌, false, none, some, arith, if◌then◌else◌, ◌==◌, ◌↔◌,
}
use plex_mirror.Base.Int.{ℤ, pos, at_most, wrap64, quot}
use plex_mirror.Storage.{Policy, Reason, over_hard_cap}
use plex_mirror.Storage.Eviction.{eviction_target}

-- Neither configured cap is exceeded.
abbrev pub IsWithinCaps : Policy → ℕ → Type 0
IsWithinCaps policy used =
    (0 < policy.hard_cap_bytes → used ≤ policy.hard_cap_bytes)
    × (0 < policy.soft_cap_bytes → used ≤ policy.soft_cap_bytes)

-- The caps that config.Load and settings.Effective let through, with a hard cap whose ninefold
-- fits an int64.
pub record IsSane (policy : Policy) : Type 0 where
  pub ordered :
      0 < policy.hard_cap_bytes
      → 0 < policy.soft_cap_bytes
      → policy.soft_cap_bytes ≤ policy.hard_cap_bytes
  pub fits : policy.hard_cap_bytes * 9 < 2 ^ 63

-- Eviction runs exactly when a configured cap is exceeded.
pub eviction_target-none_iff :
    (policy : Policy) (used : ℕ) → (eviction_target policy used ≡ none) ↔ IsWithinCaps policy used
unfolding eviction_target
eviction_target-none_iff policy used = (λ e. ground arith, λ h. ground arith)

quot-wrap64 : (n : ℕ) → n < 2 ^ 63 → quot (wrap64 n) 10 ≡ pos (n / 10)
unfolding quot wrap64
quot-wrap64 n h = ground arith

-- The target as a count: the soft cap, or nine tenths of the hard one.
abbrev byte_target : Policy → ℕ
byte_target policy =
    if policy.soft_cap_bytes == 0 then policy.hard_cap_bytes * 9 / 10 else policy.soft_cap_bytes

-- Under sane caps the target is a non-negative count below the usage and within both caps.
pub eviction_target_bounds :
    (policy : Policy) (used : ℕ) (target : ℤ) (reason : Reason)
    → IsSane policy
    → eviction_target policy used ≡ some (target, reason)
    → (t : ℕ) × (target ≡ pos t) × (t < used) × IsWithinCaps policy t
unfolding eviction_target
eviction_target_bounds policy used target reason v e = (
  byte_target policy,
  ground (arith, quot-wrap64 (policy.hard_cap_bytes * 9) v.fits),
  ground arith,
  (ground arith, ground arith),
)

quot-wrap64_negative :
    (n used : ℕ) → 2 ^ 63 ≤ n → n + 10 ≤ 2 ^ 64 → at_most used (quot (wrap64 n) 10) ≡ false
unfolding quot wrap64 at_most
quot-wrap64_negative n used lo hi = ground arith

-- With no soft cap, a hard cap whose ninefold wraps to a negative int64 gives a target that no
-- count of bytes is at most.
eviction_target_wraps :
    (policy : Policy) (used used' : ℕ)
    → policy.soft_cap_bytes ≡ 0
    → 2 ^ 63 ≤ policy.hard_cap_bytes * 9
    → policy.hard_cap_bytes * 9 + 10 ≤ 2 ^ 64
    → policy.hard_cap_bytes < used
    → (target : ℤ) × (eviction_target policy used ≡ some (target, over_hard_cap))
      × (at_most used' target ≡ false)
unfolding eviction_target at_most
eviction_target_wraps policy used used' s lo hi h =
    (quot (wrap64 (policy.hard_cap_bytes * 9)) 10, ground arith, quot-wrap64_negative _ used' lo hi)
