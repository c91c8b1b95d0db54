-- ===== src/RateLimiter/Memory.antt =====
-- The limiter's memory is bounded: the hour buckets have no keys but those of the minute buckets, of
-- which the eviction keeps at most the maximum.
use legacylock.Prelude.{
  ℕ, zero, suc, ◌-◌, ◌≤◌, ◌≡◌, refl, sym, ap, ◌∙◌, Bool, true, false, ◌||◌, List, [], ◌∷◌, String,
  str_eq, str_eq_comm, eq_iff, eq_refl, length, exists, leb, arith, inl, inr, Bool-cases,
}
use legacylock.RateLimiter.{
  Bucket, Buckets, Limiter, times_of, put, pop_key, evict, evict_if_needed, Request, clean, touch,
  decide, dispatch,
}
use legacylock.RateLimiter.Bounds.{minutes-bound}

abbrev has_key : String → Buckets → Bool
has_key key bs = exists (λ (b : Bucket). str_eq b.key key) bs

abbrev AreDistinct : Buckets → Type 0
AreDistinct [] = Unit
AreDistinct (b ∷ bs) = (has_key b.key bs ≡ false) × AreDistinct bs

-- Every key of the second buckets is one of the first.
abbrev Covers : Buckets → Buckets → Type 0
Covers bs hs = (k : String) → has_key k hs ≡ true → has_key k bs ≡ true

same_key : (s t k : String) → str_eq s t ≡ true → str_eq s k ≡ str_eq t k
same_key s t k e = ap (λ x. str_eq x k) ((eq_iff s t).0 e)

same_has : (s t : String) (bs : Buckets) → str_eq s t ≡ true → has_key s bs ≡ has_key t bs
same_has s t bs e = ap (λ x. has_key x bs) ((eq_iff s t).0 e)

has_key-put :
    (k key : String) (times : List ℕ) (bs : Buckets)
    → has_key k (put key times bs) ≡ (str_eq key k || has_key k bs)
unfolding put
has_key-put k key times [] = ground arith
has_key-put k key times (b ∷ bs) = elim (Bool-cases (str_eq b.key key)) [
  | inl e ↦ ground (arith, same_key b.key key k e)
  | inr e ↦ ground (arith, has_key-put k key times bs)
]

AreDistinct-put :
    (key : String) (times : List ℕ) (bs : Buckets) → AreDistinct bs → AreDistinct (put key times bs)
unfolding put
AreDistinct-put key times [] apart = (refl, tt)
AreDistinct-put key times (b ∷ bs) apart = elim (Bool-cases (str_eq b.key key)) [
  | inl e ↦ rw e (sym (same_has b.key key bs e) ∙ apart.0, apart.1)
  | inr e ↦ rw e (
    ground (arith, has_key-put b.key key times bs, str_eq_comm b.key key, apart.0),
    AreDistinct-put key times bs apart.1,
  )
]

has_key-pop :
    (k key : String) (bs : Buckets) → has_key k bs ≡ false → has_key k (pop_key key bs) ≡ false
unfolding pop_key
has_key-pop k key [] gone = refl
has_key-pop k key (b ∷ bs) gone = ground (arith, has_key-pop k key bs)

pop-gone : (key : String) (bs : Buckets) → AreDistinct bs → has_key key (pop_key key bs) ≡ false
unfolding pop_key
pop-gone key [] apart = refl
pop-gone key (b ∷ bs) apart = elim (Bool-cases (str_eq b.key key)) [
  | inl e ↦ rw e (sym (same_has b.key key bs e) ∙ apart.0)
  | inr e ↦ ground (arith, pop-gone key bs apart.1)
]

AreDistinct-pop : (key : String) (bs : Buckets) → AreDistinct bs → AreDistinct (pop_key key bs)
unfolding pop_key
AreDistinct-pop key [] apart = tt
AreDistinct-pop key (b ∷ bs) apart = elim (Bool-cases (str_eq b.key key)) [
  | inl e ↦ rw e apart.1
  | inr e ↦ rw e (has_key-pop b.key key bs apart.0, AreDistinct-pop key bs apart.1)
]

-- Popping a key takes no other one away, and one bucket if the key is there.
has_key-kept :
    (k key : String) (bs : Buckets)
    → str_eq key k ≡ false
    → has_key k bs ≡ true
    → has_key k (pop_key key bs) ≡ true
unfolding pop_key
has_key-kept k key [] other there = there
has_key-kept k key (b ∷ bs) other there = elim (Bool-cases (str_eq b.key key)) [
  | inl e ↦ ground (arith, same_key b.key key k e)
  | inr e ↦ ground (arith, has_key-kept k key bs other)
]

length-pop :
    (key : String) (bs : Buckets)
    → has_key key bs ≡ true
    → length bs ≡ suc (length (pop_key key bs))
unfolding pop_key
length-pop key [] there = absurd (ground arith)
length-pop key (b ∷ bs) there = elim (Bool-cases (str_eq b.key key)) [
  | inl e ↦ ground arith
  | inr e ↦ ground (arith, length-pop key bs)
]

length-Covers : (hs bs : Buckets) → AreDistinct hs → Covers bs hs → length hs ≤ length bs
length-Covers [] bs apart covers = omega arith
length-Covers (h ∷ hs) bs apart covers =
    let first_one = length-pop h.key bs (covers h.key (ground (arith, eq_refl h.key))) in
    let others : Covers (pop_key h.key bs) hs = λ k there. elim (Bool-cases (str_eq h.key k)) [
      | inl e ↦ absurd (ground (arith, same_has h.key k hs e, apart.0))
      | inr e ↦ has_key-kept k h.key bs e (covers k (ground arith))
    ] in
    let rest = length-Covers hs (pop_key h.key bs) apart.1 others in omega arith

-- No hour key twice, and none without its minute key.
record IsPaired (s : Limiter) : Type 0 where
  distinct : AreDistinct s.hour_buckets
  covered : Covers s.minute_buckets s.hour_buckets

evict-IsPaired :
    (n : ℕ) (bs hs : Buckets) → AreDistinct hs → Covers bs hs → IsPaired (evict n bs hs)
unfolding evict
evict-IsPaired zero bs hs apart covers = record { distinct = apart; covered = covers }
evict-IsPaired (suc n) [] hs apart covers = record { distinct = apart; covered = covers }
evict-IsPaired (suc n) (b ∷ bs) hs apart covers =
    evict-IsPaired n bs (pop_key b.key hs) (AreDistinct-pop b.key hs apart) λ k there.
      elim (Bool-cases (str_eq b.key k)) [
        | inl e ↦
            absurd (
              ground (arith, same_has b.key k (pop_key b.key hs) e, pop-gone b.key hs apart, there))
        | inr e ↦ elim (Bool-cases (has_key k hs)) [
          | inl was ↦ ground (arith, covers k was)
          | inr gone ↦ absurd (ground (arith, has_key-pop k b.key hs gone, there))
        ]
      ]

Covers-put :
    (key : String) (ms ns : List ℕ) (bs hs : Buckets)
    → Covers bs hs
    → Covers (put key ms bs) (put key ns hs)
Covers-put key ms ns bs hs covers k there = elim (Bool-cases (has_key k hs)) [
  | inl was ↦ ground (arith, has_key-put k key ms bs, covers k was)
  | inr gone ↦ ground (arith, has_key-put k key ms bs, has_key-put k key ns hs)
]

Covers-touch :
    (key : String) (ms : List ℕ) (bs hs : Buckets) → Covers bs hs → Covers (put key ms bs) hs
Covers-touch key ms bs hs covers k there = ground (arith, has_key-put k key ms bs, covers k there)

put-IsPaired :
    (key : String) (ms ns : List ℕ) (s : Limiter)
    → IsPaired s
    → IsPaired (record {
      minute_buckets = put key ms s.minute_buckets;
      hour_buckets = put key ns s.hour_buckets;
    })
put-IsPaired key ms ns s p = record {
  distinct = AreDistinct-put key ns s.hour_buckets p.distinct;
  covered = Covers-put key ms ns s.minute_buckets s.hour_buckets p.covered;
}

decide-IsPaired : (r : Request) (s : Limiter) → IsPaired s → IsPaired (decide r s).0
unfolding decide touch
decide-IsPaired r s p =
    elim (Bool-cases (leb r.per_min (length (times_of r.key s.minute_buckets)))) [
      | inl e ↦ rw e (record {
        distinct = p.distinct;
        covered = Covers-touch r.key _ s.minute_buckets s.hour_buckets p.covered;
      })
      | inr e ↦ elim (Bool-cases (leb r.per_hour (length (times_of r.key s.hour_buckets)))) [
        | inl f ↦ rw (e, f) (put-IsPaired r.key _ _ s p)
        | inr f ↦ rw (e, f) (put-IsPaired r.key _ _ s p)
      ]
    ]

dispatch-IsPaired :
    (max_keys : ℕ) (r : Request) (s : Limiter) → IsPaired s → IsPaired (dispatch max_keys r s).0
unfolding dispatch evict_if_needed clean
dispatch-IsPaired max_keys r s p =
    let c = clean r s in
    let q : IsPaired c = put-IsPaired r.key _ _ s p in
    decide-IsPaired r (evict_if_needed max_keys c) (
      evict-IsPaired (length c.minute_buckets - max_keys) c.minute_buckets c.hour_buckets q.distinct
        q.covered)

-- The limiter after these requests, the last one first in the list; it starts empty.
unfoldable pub served : ℕ → List Request → Limiter
served max_keys [] = record { minute_buckets = []; hour_buckets = [] }
served max_keys (r ∷ rs) = (dispatch max_keys r (served max_keys rs)).0

served-IsPaired : (max_keys : ℕ) (rs : List Request) → IsPaired (served max_keys rs)
unfolding served
served-IsPaired max_keys [] = record { distinct = tt; covered = λ k there. there }
served-IsPaired max_keys (r ∷ rs) =
    dispatch-IsPaired max_keys r (served max_keys rs) (served-IsPaired max_keys rs)

-- Whatever requests the limiter served since it was empty, after the next one it holds at most one
-- key more than its maximum in the minute buckets, and in the hour buckets, too.
pub dispatch_bounds_memory :
    (max_keys : ℕ) (rs : List Request) (r : Request)
    → (length (dispatch max_keys r (served max_keys rs)).0.minute_buckets ≤ suc max_keys)
      × (length (dispatch max_keys r (served max_keys rs)).0.hour_buckets ≤ suc max_keys)
dispatch_bounds_memory max_keys rs r =
    let s = served max_keys rs in
    let p = dispatch-IsPaired max_keys r s (served-IsPaired max_keys rs) in
    let next = (dispatch max_keys r s).0 in
    let minutes = minutes-bound max_keys r s in
    let hours = length-Covers next.hour_buckets next.minute_buckets p.distinct p.covered in
    (minutes, omega arith)
