-- ===== src/Agent/Latency.antt =====
-- agent/scheduler.go: `getSchedulerLatency`, the wait before the lock of a task is tried. The
-- numbers are of type `int32`, and the product with the number of running tasks wraps.
use gopher_cron.Base.{
  ℕ, ◌+◌, ◌-◌, ◌*◌, ◌%◌, ◌≤◌, ◌<◌, leb, inl, inr, ap, ◌∙◌, Bool-cases, zero, suc, min, Option, none,
  some, ◌≡◌, ltb, if◌then◌else◌, arith, refl,
}

-- A weight of a node, an `int32`.
pub data Weight : Type 0 where
  negative : Weight
  weight : ℕ → Weight

unfoldable pub clamp : Weight → ℕ
clamp negative = 0
clamp (weight w) = if ltb 100 w then 100 else w

-- A signed number of 32 bits: `plus n` is `n`, and `minus n` is `-n`.
pub data Int32 : Type 0 where
  plus minus : ℕ → Int32

abbrev pub wrap : ℕ → Int32
wrap n = let m = n % 4294967296 in if ltb m 2147483648 then plus m else minus (4294967296 - m)

-- `if set > 200`
abbrev pub cap : Int32 → Int32
cap (plus set) = plus (if ltb 200 set then 200 else set)
cap (minus set) = minus set

unfoldable pub busy_delay : ℕ → Int32
busy_delay running_count = cap (wrap (running_count * 20))

-- `delay + set`, where the delay is at most 500
abbrev pub add_delay : ℕ → Int32 → Int32
add_delay delay (plus set) = plus (delay + set)
add_delay delay (minus set) = if leb set delay then plus (delay - set) else minus (set - delay)

-- `rand.Int32N`, which panics on a bound that is not positive: `random` is its result otherwise.
unfoldable pub int32n : (ℕ → ℕ) → ℕ → Option ℕ
int32n random zero = none
int32n random (suc n) = some (random (suc n))

-- In milliseconds; `none` is the panic.
unfoldable pub get_scheduler_latency : (ℕ → ℕ) → Weight → (running_count : ℕ) → Option Int32
unfolding clamp busy_delay int32n
get_scheduler_latency random w running_count = elim (int32n random (clamp w * 5)) [
  | none ↦ none
  | some reduction ↦ some (add_delay (500 - reduction) (busy_delay running_count))
]

int32n-positive : (random : ℕ → ℕ) (n : ℕ) → 0 < n → int32n random n ≡ some (random n)
unfolding int32n
int32n-positive random zero h = elim h [ ]
int32n-positive random (suc n) h = refl

clamp-min : (w : ℕ) → clamp (weight w) ≡ min w 100
unfolding clamp
clamp-min w = ground arith

wrap-plus : (n : ℕ) → n < 2147483648 → wrap n ≡ plus n
wrap-plus n h =
    let same : n % 4294967296 ≡ n = omega arith in
    elim (Bool-cases (ltb n 2147483648)) [ inl e ↦ rw (same, e) refl | inr e ↦ ground arith ]

busy_delay-min : (n : ℕ) → n * 20 < 2147483648 → busy_delay n ≡ plus (min (n * 20) 200)
unfolding busy_delay
busy_delay-min n h = ap cap (wrap-plus (n * 20) h) ∙ ap plus (capped (n * 20))
  where
    capped : (m : ℕ) → (if ltb 200 m then 200 else m) ≡ min m 200
    capped m = ground arith

-- If the random number is below its bound, then a node of positive weight waits between 1 and 700
-- milliseconds: at least 501 less 5 for each point of its weight up to 100, and at most 500, each
-- with 20 for each running task up to 10, as long as 20 times their number does not reach 2^31. A
-- node of weight 0 or less panics.
pub get_scheduler_latency-bounds :
    (random : ℕ → ℕ) (running_count : ℕ)
    → ((n : ℕ) → 0 < n → random n < n)
    → running_count * 20 < 2147483648
    → (get_scheduler_latency random negative running_count ≡ none)
      × (get_scheduler_latency random (weight 0) running_count ≡ none)
      × ((w : ℕ)
          → 0 < w
          → (d : ℕ) × (get_scheduler_latency random (weight w) running_count ≡ some (plus d))
            × ((501 - 5 * min w 100) + min (running_count * 20) 200 ≤ d)
            × (d ≤ 500 + min (running_count * 20) 200))
unfolding get_scheduler_latency clamp int32n busy_delay
get_scheduler_latency-bounds random running_count below few = (
  refl,
  refl,
  λ w h.
      let n = min w 100 * 5 in
      let positive : 0 < n = omega arith in
      let r = below n positive in
      (
        (500 - random n) + min (running_count * 20) 200,
        rw
            (
              clamp-min w,
              int32n-positive random n positive,
              busy_delay-min running_count few,
              get_scheduler_latency,
            )
            refl,
        omega (arith, r),
        omega (arith, r),
      ),
)
