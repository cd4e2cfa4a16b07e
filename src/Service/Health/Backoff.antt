-- ===== src/Service/Health/Backoff.antt =====
-- The delays of healthBackoff in internal/service/health.go.
use native.Mathlib.Nat.{pow-le-pow_right}
use plex_mirror.Base.{
  ltb→lt, ℕ, ◌≡◌, ◌≤◌, ◌<◌, ◌*◌, ◌^◌, inl, inr, if◌then◌else◌, ltb, Bool-cases, arith,
}
use plex_mirror.Base.Int.{pos, wrap64_small}
use plex_mirror.Service.Health.{backoff, backoff_base, backoff_max, positive_below}

shift_fits : (attempt : ℕ) → attempt < 31 → backoff_base * 2 ^ attempt < 2 ^ 63
shift_fits attempt h =
    let below : attempt ≤ 30 = omega arith in
    let power : 2 ^ attempt ≤ 2 ^ 30 = pow-le-pow_right {n = 2} (omega arith) below in
    omega (arith, power)

shift_exceeds : (attempt : ℕ) → 31 ≤ attempt → backoff_max ≤ backoff_base * 2 ^ attempt
shift_exceeds attempt h =
    let power : 2 ^ 31 ≤ 2 ^ attempt = pow-le-pow_right {n = 2} (omega arith) h in
    omega (arith, power)

shift_positive : (attempt : ℕ) → 0 < backoff_base * 2 ^ attempt
shift_positive attempt =
    let above : 0 ≤ attempt = omega arith in
    let power : 2 ^ 0 ≤ 2 ^ attempt = pow-le-pow_right {n = 2} (omega arith) above in
    omega (arith, power)

-- The delay before its jitter is 2 s doubled with each attempt, up to 2 min: no shift overflows.
pub backoff_doubles :
    (attempt : ℕ)
    → backoff attempt ≡ (
        if ltb (backoff_base * 2 ^ attempt) backoff_max
        then backoff_base * 2 ^ attempt
        else backoff_max)
unfolding backoff
backoff_doubles attempt = elim (Bool-cases (ltb attempt 31)) [
  | inl e ↦
      let fits = shift_fits attempt (ltb→lt attempt 31 e) in
      rw (e, wrap64_small (backoff_base * 2 ^ attempt) fits)
        (capped (backoff_base * 2 ^ attempt) (shift_positive attempt))
  | inr e ↦
      let large = shift_exceeds attempt (ground arith) in
      rw e (over (backoff_base * 2 ^ attempt) large)
]
  where
    capped :
        (n : ℕ)
        → 0 < n
        → positive_below (pos n) backoff_max backoff_max
          ≡ (if ltb n backoff_max then n else backoff_max)
    capped n h = ground arith

    over : (n : ℕ) → backoff_max ≤ n → backoff_max ≡ (if ltb n backoff_max then n else backoff_max)
    over n h = ground arith
