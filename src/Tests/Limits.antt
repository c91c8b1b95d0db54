-- ===== src/Tests/Limits.antt =====
-- Requests at the limiter.
use legacylock.RateLimiter.{
  decide, evict_if_needed, evict, clean, put, cleanup_old_entries, pop_key,
}
use legacylock.Prelude.{◌≤◌, ◌≡◌, refl, [], ◌∷◌, ◌++◌, length}
use legacylock.RateLimiter.{Limiter, Request, dispatch, admitted, times_of}
use legacylock.RateLimiter.Bounds.{dispatch_admits}
use legacylock.RateLimiter.Memory.{served, dispatch_bounds_memory}

-- A third login of one address within a minute.
abbrev request : Request
request = record {
  key = "ip:/auth/login";
  per_min = 5;
  per_hour = 60;
  now = 30;
  minute_now = 30;
  hour_now = 30;
}

abbrev limiter : Limiter
limiter = record {
  minute_buckets =
      record { key = "old:/"; times = 1 ∷ [] }
      ∷ record { key = "ip:/auth/login"; times = 10 ∷ 20 ∷ [] }
      ∷ [];
  hour_buckets =
      record { key = "old:/"; times = 1 ∷ [] }
      ∷ record { key = "ip:/auth/login"; times = 10 ∷ 20 ∷ [] }
      ∷ [];
}

unfoldable after : Limiter
unfolding dispatch
after = (dispatch 1 request limiter).0

run : dispatch 1 request limiter ≡ (after, admitted)
unfolding after decide times_of evict_if_needed evict clean put cleanup_old_entries pop_key
run = refl

dispatch_admits_example :
    (times_of "ip:/auth/login" after.minute_buckets
      ≡ times_of "ip:/auth/login" (evict_if_needed 1 (clean request limiter)).minute_buckets
        ++ 30 ∷ [])
    × (times_of "ip:/auth/login" after.hour_buckets
        ≡ times_of "ip:/auth/login" (evict_if_needed 1 (clean request limiter)).hour_buckets
          ++ 30 ∷ [])
    × (length (times_of "ip:/auth/login" after.minute_buckets) ≤ 5)
    × (length (times_of "ip:/auth/login" after.hour_buckets) ≤ 60)
dispatch_admits_example = dispatch_admits 1 request limiter after run

abbrev other : Request
other = record request { key = "ip:/drill" }

dispatch_bounds_memory_example :
    (length (dispatch 1 request (served 1 (other ∷ request ∷ []))).0.minute_buckets ≤ 2)
    × (length (dispatch 1 request (served 1 (other ∷ request ∷ []))).0.hour_buckets ≤ 2)
dispatch_bounds_memory_example = dispatch_bounds_memory 1 (other ∷ request ∷ []) request
