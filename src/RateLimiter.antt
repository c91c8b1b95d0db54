-- ===== src/RateLimiter.antt =====
-- backend/middleware/rate_limiter.py: the buckets of `dispatch` behind its bypasses. The limits and
-- the key of a request come from `_limits_for` and the client's address; a request reads the clock
-- once for each bucket that it cleans and once for itself, in microseconds.
pub mod Bounds
pub mod Memory
use legacylock.Prelude.{
  ℕ, zero, suc, ◌+◌, ◌-◌, ◌*◌, ◌≤◌, ◌≡◌, refl, Bool, true, false, not, ◌&&◌, List, [], ◌∷◌, ◌++◌,
  String, str_eq, length, leb, ltb, if◌then◌else◌,
}
use legacylock.Models.{second}

pub record Bucket : Type 0 where
  pub key : String
  pub times : List ℕ

-- A `defaultdict(list)`, in the order of insertion.
abbrev pub Buckets : Type 0
Buckets = List Bucket

pub record Limiter : Type 0 where
  pub minute_buckets : Buckets
  pub hour_buckets : Buckets

-- The bucket of a key, empty where there is none.
unfoldable pub times_of : String → Buckets → List ℕ
times_of key [] = []
times_of key (b ∷ bs) = if str_eq b.key key then b.times else times_of key bs

-- Write a bucket back, or add it at the end.
unfoldable pub put : String → List ℕ → Buckets → Buckets
put key times [] = record { key = key; times = times } ∷ []
put key times (b ∷ bs) =
    if str_eq b.key key then record { key = key; times = times } ∷ bs else b ∷ put key times bs

-- `bucket[0] < now - window`
unfoldable pub cleanup_old_entries : ℕ → ℕ → List ℕ → List ℕ
cleanup_old_entries now window [] = []
cleanup_old_entries now window (t ∷ ts) =
    if ltb (t + window) now then cleanup_old_entries now window ts else t ∷ ts

-- `pop(key, None)`
unfoldable pub pop_key : String → Buckets → Buckets
pop_key key [] = []
pop_key key (b ∷ bs) = if str_eq b.key key then bs else b ∷ pop_key key bs

-- Drop the oldest keys of the minute buckets, and the same keys of the hour buckets.
unfoldable pub evict : ℕ → Buckets → Buckets → Limiter
evict zero minutes hours = record { minute_buckets = minutes; hour_buckets = hours }
evict (suc n) [] hours = record { minute_buckets = []; hour_buckets = hours }
evict (suc n) (b ∷ bs) hours = evict n bs (pop_key b.key hours)

unfoldable pub evict_if_needed : ℕ → Limiter → Limiter
evict_if_needed max_keys s =
    evict (length s.minute_buckets - max_keys) s.minute_buckets s.hour_buckets

-- The limits of a request, and its three readings of the clock.
pub record Request : Type 0 where
  pub key : String
  pub per_min : ℕ
  pub per_hour : ℕ
  pub now : ℕ
  pub minute_now : ℕ
  pub hour_now : ℕ

unfoldable pub clean : Request → Limiter → Limiter
clean r s = record {
  minute_buckets =
      put r.key (cleanup_old_entries r.minute_now (60 * second) (times_of r.key s.minute_buckets))
        s.minute_buckets;
  hour_buckets =
      put r.key (cleanup_old_entries r.hour_now (3600 * second) (times_of r.key s.hour_buckets))
        s.hour_buckets;
}

-- The 429 of the minute, the 429 of the hour, or the call of the next application.
pub data Answer : Type 0 where
  minute_exceeded hour_exceeded admitted : Answer

-- Reading a bucket adds its key; the hour's is read only behind the minute's test.
unfoldable pub touch : String → Buckets → Buckets
touch key bs = put key (times_of key bs) bs

unfoldable pub decide : Request → Limiter → Limiter × Answer
unfolding touch
decide r s =
    if leb r.per_min (length (times_of r.key s.minute_buckets))
    then (record s { minute_buckets = touch r.key s.minute_buckets }, minute_exceeded)
    else if leb r.per_hour (length (times_of r.key s.hour_buckets))
    then (
      record {
        minute_buckets = touch r.key s.minute_buckets;
        hour_buckets = touch r.key s.hour_buckets;
      },
      hour_exceeded,
    )
    else (
      record {
        minute_buckets = put r.key (times_of r.key s.minute_buckets ++ r.now ∷ []) s.minute_buckets;
        hour_buckets = put r.key (times_of r.key s.hour_buckets ++ r.now ∷ []) s.hour_buckets;
      },
      admitted,
    )

unfoldable pub dispatch : ℕ → Request → Limiter → Limiter × Answer
dispatch max_keys r s = decide r (evict_if_needed max_keys (clean r s))
