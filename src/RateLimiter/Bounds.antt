-- ===== src/RateLimiter/Bounds.antt =====
-- The limits hold for an admitted request, and the minute buckets are bounded.
use legacylock.Prelude.{
  ℕ, zero, suc, ◌-◌, ◌≤◌, ◌≡◌, List, [], ◌∷◌, ◌++◌, String, str_eq, eq_refl, length, length-append,
  arith, inl, inr, Bool-cases,
}
use legacylock.RateLimiter.{
  Buckets, Limiter, times_of, put, pop_key, evict, evict_if_needed, Request, clean, admitted, touch,
  decide, dispatch,
}

times_of-put :
    (key : String) (times : List ℕ) (bs : Buckets) → times_of key (put key times bs) ≡ times
unfolding times_of put
times_of-put key times [] = ground (arith, eq_refl key)
times_of-put key times (b ∷ bs) = elim (Bool-cases (str_eq b.key key)) [
  | inl e ↦ ground (arith, eq_refl key)
  | inr e ↦ ground (arith, times_of-put key times bs)
]

length-put-le :
    (key : String) (times : List ℕ) (bs : Buckets) → length (put key times bs) ≤ suc (length bs)
unfolding put
length-put-le key times [] = omega arith
length-put-le key times (b ∷ bs) = elim (Bool-cases (str_eq b.key key)) [
  | inl e ↦ ground arith
  | inr e ↦ ground (arith, length-put-le key times bs)
]

length-evict : (n : ℕ) (bs hs : Buckets) → length (evict n bs hs).minute_buckets ≡ length bs - n
unfolding evict
length-evict zero bs hs = omega arith
length-evict (suc n) [] hs = omega arith
length-evict (suc n) (b ∷ bs) hs = omega (arith, length-evict n bs (pop_key b.key hs))

-- A request that is admitted is the last entry of its key's buckets of the minute and of the hour,
-- behind what the cleaning and the eviction left there, and with it they hold at most as many
-- requests as its limits.
pub dispatch_admits :
    (max_keys : ℕ) (r : Request) (s s' : Limiter)
    → dispatch max_keys r s ≡ (s', admitted)
    → (times_of r.key s'.minute_buckets
        ≡ times_of r.key (evict_if_needed max_keys (clean r s)).minute_buckets ++ r.now ∷ [])
      × (times_of r.key s'.hour_buckets
          ≡ times_of r.key (evict_if_needed max_keys (clean r s)).hour_buckets ++ r.now ∷ [])
      × (length (times_of r.key s'.minute_buckets) ≤ r.per_min)
      × (length (times_of r.key s'.hour_buckets) ≤ r.per_hour)
unfolding dispatch decide
dispatch_admits max_keys r s s' h =
    let e = evict_if_needed max_keys (clean r s) in
    let minutes = times_of r.key e.minute_buckets in
    let hours = times_of r.key e.hour_buckets in
    ground (
      arith,
      times_of-put r.key (minutes ++ r.now ∷ []) e.minute_buckets,
      times_of-put r.key (hours ++ r.now ∷ []) e.hour_buckets,
      length-append minutes (r.now ∷ []),
      length-append hours (r.now ∷ []),
    )

pub minutes-bound :
    (max_keys : ℕ) (r : Request) (s : Limiter)
    → length (dispatch max_keys r s).0.minute_buckets ≤ suc max_keys
unfolding dispatch decide evict_if_needed touch
minutes-bound max_keys r s =
    let c = clean r s in
    let e = evict (length c.minute_buckets - max_keys) c.minute_buckets c.hour_buckets in
    let left = length-evict (length c.minute_buckets - max_keys) c.minute_buckets c.hour_buckets in
    let minutes = times_of r.key e.minute_buckets in
    ground (
      arith,
      left,
      length-put-le r.key minutes e.minute_buckets,
      length-put-le r.key (minutes ++ r.now ∷ []) e.minute_buckets,
    )
