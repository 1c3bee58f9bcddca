-- ===== src/Automation/Retry.antt =====
-- `retryDelay` of backend-api/patchforge/automationWork.js: exponential backoff with jitter.
use diiac_patchforge.Prelude.{ℕ, zero, suc, ◌+◌, ◌-◌, ◌*◌, ◌/◌, ◌^◌, ◌≤◌, ◌<◌, ◌≡◌, min, max, arith}
use native.Mathlib.Nat.{pow-suc}
use diiac_patchforge.Prelude.Numbers.{
  JsNumber, bounded_number, bounded_number_bounds, bounded_number-le,
}

-- base * 2 ** max(0, attempt - 1), and no more than the maximum
unfoldable pub exponential : ℕ → ℕ → ℕ → ℕ
exponential attempt base most = min most (base * 2 ^ (attempt - 1))

-- Math.max(1, Math.floor(e * (0.75 + r * 0.5))), at r = random / 2^53. The rounding of the doubles in
-- between is not modelled.
unfoldable pub jitter : ℕ → ℕ → ℕ
jitter e random = max 1 (e * (3 * 2 ^ 53 + 2 * random) / (4 * 2 ^ 53))

unfoldable pub retry_delay : ℕ → JsNumber → JsNumber → ℕ → ℕ
unfolding exponential jitter
retry_delay attempt base_value max_value random =
    let base = bounded_number base_value 1000 1 60000 in
    let most = bounded_number max_value 30000 base (10 * 60 * 1000) in
    jitter (exponential attempt base most) random

scaled_le : (e most f g : ℕ) → e ≤ most → f ≤ g → e * f ≤ most * g
scaled_le e most f g h k = grind arith

jitter_bounds :
    (e random most : ℕ)
    → random < 2 ^ 53
    → e ≤ most
    → 1 ≤ most
    → (1 ≤ jitter e random) × (jitter e random * 4 ≤ most * 5)
unfolding jitter
jitter_bounds e random most h k p =
    omega (arith, scaled_le e most (3 * 2 ^ 53 + 2 * random) (5 * 2 ^ 53) k (omega arith))

exponential-le : (attempt base most : ℕ) → exponential attempt base most ≤ most
unfolding exponential
exponential-le attempt base most = omega arith

-- Whatever the base and the maximum are configured to, and for every random number below 1, a retry
-- waits a millisecond at least, and a quarter more than ten minutes at most.
pub retry_delay_bounds :
    (attempt : ℕ) (base_value max_value : JsNumber) (random : ℕ)
    → random < 2 ^ 53
    → (1 ≤ retry_delay attempt base_value max_value random)
      × (retry_delay attempt base_value max_value random ≤ 750000)
unfolding retry_delay
retry_delay_bounds attempt base_value max_value random h = omega (arith, bounded)
  where
    base : ℕ
    base = bounded_number base_value 1000 1 60000

    most : ℕ
    most = bounded_number max_value 30000 base (10 * 60 * 1000)

    most_le : most ≤ 600000
    most_le =
        bounded_number-le max_value 30000 base (10 * 60 * 1000) 600000
          (omega (arith, bounded_number_bounds base_value 1000 1 60000 (omega arith) (omega arith)))
          (omega arith) (omega arith)

    bounded :
        (1 ≤ jitter (exponential attempt base most) random)
        × (jitter (exponential attempt base most) random * 4 ≤ 600000 * 5)
    bounded =
        jitter_bounds (exponential attempt base most) random 600000 h
          (omega (arith, exponential-le attempt base most, most_le)) (omega arith)

jitter_mono : (e f random : ℕ) → e ≤ f → jitter e random ≤ jitter f random
unfolding jitter
jitter_mono e f random h =
    omega (arith, scaled_le e f (3 * 2 ^ 53 + 2 * random) (3 * 2 ^ 53 + 2 * random) h (omega arith))

pow_mono : (base n : ℕ) → base * 2 ^ n ≤ base * 2 ^ suc n
pow_mono base n = rw (pow-suc 2 n) (grind arith)

exponential_mono :
    (attempt base most : ℕ) → exponential attempt base most ≤ exponential (suc attempt) base most
unfolding exponential
exponential_mono zero base most = omega arith
exponential_mono (suc a) base most =
    let here : suc a - 1 ≡ a = omega arith in
    let next : suc (suc a) - 1 ≡ suc a = omega arith in
    rw (here, next) (omega (arith, pow_mono base a))

-- With one random number, a later attempt waits no less than the one before it.
pub retry_delay_mono :
    (attempt : ℕ) (base_value max_value : JsNumber) (random : ℕ)
    → retry_delay attempt base_value max_value random
      ≤ retry_delay (suc attempt) base_value max_value random
unfolding retry_delay
retry_delay_mono attempt base_value max_value random =
    let base = bounded_number base_value 1000 1 60000 in
    let most = bounded_number max_value 30000 base (10 * 60 * 1000) in
    jitter_mono (exponential attempt base most) (exponential (suc attempt) base most) random
      (exponential_mono attempt base most)
