-- ===== src/Reporter/Delay.antt =====
-- The loop of `retry_delay` in closed form.
use airspyhf_wsprd.Common.{
  ℕ, zero, suc, ◌*◌, ◌-◌, ◌^◌, ◌≤◌, ◌<◌, ◌≡◌, refl, arith, Option, none, some,
}
use Prim.Native.Nat.{min}
use native.Mathlib.Decide.{dec_lt}
use airspyhf_wsprd.Reporter.{double_delay, base_delay, retry_delay}

base_delay_bounds : (o : Option ℕ) → (1 ≤ base_delay o) × (base_delay o ≤ 60)
unfolding base_delay
base_delay_bounds none = omega arith
base_delay_bounds (some n) = ground arith

pow_pos : (n : ℕ) → 0 < 2 ^ n
pow_pos zero = omega arith
pow_pos (suc n) = omega (arith, pow_pos n)

double_delay_max : (n : ℕ) → double_delay n 900 ≡ 900
unfolding double_delay
double_delay_max zero = refl
double_delay_max (suc n) = ground arith

pow_suc : (d n : ℕ) → d * 2 ^ suc n ≡ d * 2 * 2 ^ n
pow_suc d n = grind arith

at_least : (d n k : ℕ) → k ≤ d → k ≤ d * 2 ^ n
at_least d n k le = grind (arith, pow_pos n)

double_delay_lem : (n d : ℕ) → d ≤ 900 → double_delay n d ≡ min 900 (d * 2 ^ n)
unfolding double_delay
double_delay_lem zero d le = omega arith
double_delay_lem (suc n) d le = elim (dec_lt d 900) [
  | no p ↦ ground (arith, at_least d (suc n) 900 (omega arith))
  | yes p ↦ elim (dec_lt 900 (d * 2)) [
    | yes q ↦ ground (arith, double_delay_max n, pow_suc d n, at_least (d * 2) n 900 (omega arith))
    | no q ↦ ground (arith, double_delay_lem n (d * 2) (omega arith), pow_suc d n)
  ]
]

-- The n-th failure of an upload puts the next one off by the configured delay times 2 to the n - 1,
-- but by 900 seconds at most: the loop neither wraps nor passes that bound.
retry_delay_lem :
    (configured : Option ℕ) (attempts : ℕ)
    → retry_delay configured attempts ≡ min 900 (base_delay configured * 2 ^ (attempts - 1))
unfolding retry_delay
retry_delay_lem configured attempts =
    double_delay_lem (attempts - 1) (base_delay configured)
      (omega (arith, base_delay_bounds configured))
