-- ===== src/Portal/Gauge.antt =====
-- The gauge of the storage page (overCap and gaugeMax of internal/server/views/helpers.go) against
-- EvictNow of internal/storage/manager.go.
use plex_mirror.Base.{ℕ, ◌≤◌, ◌<◌, ◌≡◌, sym, ap, ◌↔◌, false, none, some, arith, of_some}
use plex_mirror.Items.{Table}
use plex_mirror.Storage.{Policy, used_bytes}
use plex_mirror.Storage.Eviction.{eviction_target}
use plex_mirror.Storage.Limits.{IsWithinCaps, eviction_target-none_iff}
use plex_mirror.Service.Queries.{StorageStats, storage_stats}
use plex_mirror.Portal.{over_cap, gauge_max}

-- The caps that config.Load and settings.Effective let through.
abbrev pub IsOrdered : Policy → Type 0
IsOrdered policy =
    0 < policy.hard_cap_bytes
    → 0 < policy.soft_cap_bytes
    → policy.soft_cap_bytes ≤ policy.hard_cap_bytes

stats-usage :
    (policy : Policy) (n : ℕ) (t : Table) (s : StorageStats)
    → storage_stats policy (some n) t ≡ some s
    → (s.used_bytes ≡ used_bytes t)
      × (s.hard_cap_bytes ≡ policy.hard_cap_bytes)
      × (s.soft_cap_bytes ≡ policy.soft_cap_bytes)
unfolding storage_stats
stats-usage policy n t s e =
    let same = sym (of_some e) in
    (
      ap (λ (x : StorageStats). x.used_bytes) same,
      ap (λ (x : StorageStats). x.hard_cap_bytes) same,
      ap (λ (x : StorageStats). x.soft_cap_bytes) same,
    )

over_cap_iff :
    (policy : Policy) (s : StorageStats)
    → IsOrdered policy
    → s.hard_cap_bytes ≡ policy.hard_cap_bytes
    → s.soft_cap_bytes ≡ policy.soft_cap_bytes
    → (over_cap s ≡ false) ↔ IsWithinCaps policy s.used_bytes
unfolding over_cap
over_cap_iff policy s o h k = ((λ e. (ground arith, ground arith)), (λ w. ground arith))

-- The gauge of the storage page warns exactly where the next run of the sweeper evicts, under caps
-- that the configuration lets through, and its maximum is never zero.
pub gauge_warns_iff :
    (policy : Policy) (n : ℕ) (t : Table) (s : StorageStats)
    → IsOrdered policy
    → storage_stats policy (some n) t ≡ some s
    → ((over_cap s ≡ false) ↔ (eviction_target policy (used_bytes t) ≡ none)) × (0 < gauge_max s)
unfolding gauge_max
gauge_warns_iff policy n t s o e =
    let (used, hard, soft) = stats-usage policy n t s e in
    let target = eviction_target-none_iff policy (used_bytes t) in
    let warns = over_cap_iff policy s o hard soft in
    (((λ h. target.1 (rw used at (warns.0 h))), λ h. warns.1 (rw used (target.0 h))), ground arith)
