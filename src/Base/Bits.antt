-- ===== src/Base/Bits.antt =====
-- Facts about `&`, `|` and `^` at variables. The native operations mean `bitwise`, a recursion on
-- binary digits with fuel; here the fuel is dropped, and masks become arithmetic.
use Prim.Native.Nat.{
  digits, bitwise, differ, bit_and-bitwise, bit_or-bitwise, bit_xor-bitwise, ℕ, zero, suc, ◌+◌, ◌-◌,
  ◌*◌, ◌/◌, ◌%◌, ◌^◌, ◌≤◌, ◌<◌, min, max, bit_and, bit_or, bit_xor,
}
use mathlib.Core.Path.{◌≡◌, refl, ap}
use mathlib.Core.WellFounded
use native.Mathlib.Nat.{pow-suc, one-le-pow, div-div-eq-div-mul}
use native.Mathlib.Omega.{arith}
use xor_os.Base.Order.{lt_wf}

module _ (z : ℕ → ℕ) (f : ℕ → ℕ → ℕ) where
  -- Any fuel from the first operand up gives the same digits.
  same_digits : (x y : ℕ) (k l : ℕ) → x ≤ l → x ≤ k → digits z f k x y ≡ digits z f l x y
  same_digits zero y (suc k) (suc l) above above' = refl
  same_digits zero y zero (suc l) above above' = refl
  same_digits zero y (suc k) zero above above' = refl
  same_digits zero y zero zero above above' = refl
  same_digits (suc x) y zero l above above' = absurd (omega arith)
  same_digits (suc x) y (suc k) zero above above' = absurd (omega arith)
  same_digits (suc x) y (suc k) (suc l) above above' =
      let halves = same_digits (suc x / 2) (y / 2) k l (omega arith) (omega arith) in rw halves

  low_digit :
      (x y : ℕ)
      → bitwise z f (suc x) y ≡ f (suc x % 2) (y % 2) + 2 * bitwise z f (suc x / 2) (y / 2)
  low_digit x y =
      let h = suc x / 2 in omega (arith, same_digits h (y / 2) x h (omega arith) (omega arith))

-- The three operations by the last digit of both operands.
pub bit_and_step : (x y : ℕ) → bit_and x y ≡ bit_and (x / 2) (y / 2) * 2 + min (x % 2) (y % 2)
bit_and_step zero y = simp bit_and-bitwise (omega arith)
bit_and_step (suc x) y =
    simp bit_and-bitwise (let e = low_digit (λ _. 0) min x y in omega (arith, e))

pub bit_or_step : (x y : ℕ) → bit_or x y ≡ bit_or (x / 2) (y / 2) * 2 + max (x % 2) (y % 2)
bit_or_step zero y = simp bit_or-bitwise (omega arith)
bit_or_step (suc x) y = simp bit_or-bitwise (let e = low_digit (λ t. t) max x y in omega (arith, e))

differ_lem : (x y : ℕ) → x < 2 → y < 2 → differ x y ≡ (x + y) % 2
differ_lem zero y h g = omega arith
differ_lem (suc zero) zero h g = refl
differ_lem (suc zero) (suc zero) h g = refl
differ_lem (suc zero) (suc (suc y)) h g = absurd (omega arith)
differ_lem (suc (suc x)) y h g = absurd (omega arith)

zero-bit_xor : (b : ℕ) → bit_xor 0 b ≡ b
zero-bit_xor b = bit_xor-bitwise 0 b

pub bit_xor_step : (a b : ℕ) → bit_xor a b ≡ bit_xor (a / 2) (b / 2) * 2 + (a % 2 + b % 2) % 2
bit_xor_step zero b = omega (arith, zero-bit_xor b, zero-bit_xor (b / 2))
bit_xor_step (suc a) b =
    rw (← differ_lem (suc a % 2) (b % 2) (omega arith) (omega arith))
      (simp bit_xor-bitwise (let e = low_digit (λ t. t) differ a b in omega (arith, e)))

zero-bit_and : (b : ℕ) → bit_and 0 b ≡ 0
zero-bit_and b = bit_and-bitwise 0 b

zero-bit_or : (b : ℕ) → bit_or 0 b ≡ b
zero-bit_or b = bit_or-bitwise 0 b

-- A law of one width follows from the law of the width below, for both halved operands.
zero_right : (x : ℕ) → (bit_or x 0 ≡ x) × (bit_and x 0 ≡ 0)
zero_right x = WellFounded.induction lt_wf {C = λ n. (bit_or n 0 ≡ n) × (bit_and n 0 ≡ 0)} x halve
  where
    halve :
        (n : ℕ)
        → ((m : ℕ) → m < n → (bit_or m 0 ≡ m) × (bit_and m 0 ≡ 0))
        → (bit_or n 0 ≡ n) × (bit_and n 0 ≡ 0)
    halve zero below = (refl, refl)
    halve (suc n) below =
        let h = below (suc n / 2) (omega arith) in
        (omega (arith, h, bit_or_step (suc n) 0), omega (arith, h, bit_and_step (suc n) 0))

pub bit_and-zero : (x : ℕ) → bit_and x 0 ≡ 0
bit_and-zero x = (zero_right x).1

pub bit_or-zero : (x : ℕ) → bit_or x 0 ≡ x
bit_or-zero x = (zero_right x).0

double_weight : (c w : ℕ) → c * 2 ^ suc w ≡ c * 2 ^ w * 2
double_weight c w = let doubled = ap (λ (t : ℕ). c * t) (pow-suc 2 w) in omega (arith, doubled)

two-mul-pow : (k : ℕ) → 2 ^ suc k ≡ 2 * 2 ^ k
two-mul-pow k = omega (arith, pow-suc 2 k)

pub div-two-pow-suc : (a k : ℕ) → a / 2 ^ suc k ≡ a / 2 / 2 ^ k
div-two-pow-suc a k = ground (arith, div-div-eq-div-mul a 2 (2 ^ k), two-mul-pow k)

-- A mask that is shifted up masks the upper digits.
pub bit_and_shift : (k a m : ℕ) → bit_and a (m * 2 ^ k) ≡ bit_and (a / 2 ^ k) m * 2 ^ k
bit_and_shift zero a m = ground (arith, bit_and-zero a)
bit_and_shift (suc k) a m = ground (
  arith,
  bit_and_step a (m * 2 ^ suc k),
  double_weight m k,
  double_weight (bit_and (a / 2 ^ suc k) m) k,
  div-two-pow-suc a k,
  bit_and_shift k (a / 2) m,
)

bit_and_low : (w hi lo : ℕ) → lo < 2 ^ w → bit_and (hi * 2 ^ w + lo) (2 ^ w - 1) ≡ lo
bit_and_low zero hi lo small = rw bit_and-zero (omega arith)
bit_and_low (suc w) hi lo small =
    let below = bit_and_low w hi (lo / 2) (omega arith) in
    let last = bit_and_step (hi * 2 ^ suc w + lo) (2 ^ suc w - 1) in
    ground (arith, one-le-pow w 2, pow-suc 2 w, double_weight hi w)

-- A mask of `w` low ones is the remainder by `2 ^ w`.
pub bit_and_mask : (w x : ℕ) → bit_and x (2 ^ w - 1) ≡ x % 2 ^ w
bit_and_mask w x =
    let split = bit_and_low w (x / 2 ^ w) (x % 2 ^ w) in ground (arith, one-le-pow w 2)

-- `hi | lo` is a sum where `lo` fits below the digits of `hi`.
pub bit_or_add : (w hi lo : ℕ) → lo < 2 ^ w → bit_or (hi * 2 ^ w) lo ≡ hi * 2 ^ w + lo
bit_or_add zero hi lo small = ground (arith, bit_or-zero hi)
bit_or_add (suc w) hi lo small =
    let below = bit_or_add w hi (lo / 2) (omega arith) in
    let last = bit_or_step (hi * 2 ^ suc w) lo in ground (arith, double_weight hi w)

pub bit_and-le : (k a b : ℕ) → a < 2 ^ k → bit_and a b ≤ a
bit_and-le zero a b h = ground (arith, zero-bit_and b)
bit_and-le (suc k) a b h = omega (
  arith,
  bit_and_step a b,
  pow-suc 2 k,
  bit_and-le k (a / 2) (b / 2) (omega (arith, pow-suc 2 k)),
)

pub bit_or-lt : (k a b : ℕ) → a < 2 ^ k → b < 2 ^ k → bit_or a b < 2 ^ k
bit_or-lt zero a b h g = ground (arith, zero-bit_or b)
bit_or-lt (suc k) a b h g = omega (
  arith,
  bit_or_step a b,
  pow-suc 2 k,
  bit_or-lt k (a / 2) (b / 2) (omega (arith, pow-suc 2 k)) (omega (arith, pow-suc 2 k)),
)

-- `a & ~m` in `k` bits takes the digits of `a & m` away from `a`.
pub bit_and_clear :
    (k a m : ℕ) → a < 2 ^ k → m < 2 ^ k → bit_and a (2 ^ k - 1 - m) + bit_and a m ≡ a
bit_and_clear zero a m h g = ground (arith, zero-bit_and m, zero-bit_and (2 ^ 0 - 1 - m))
bit_and_clear (suc k) a m h g = omega (
  arith,
  bit_and_step a (2 ^ suc k - 1 - m),
  bit_and_step a m,
  pow-suc 2 k,
  halved,
  bit_and_clear k (a / 2) (m / 2) (omega (arith, pow-suc 2 k)) (omega (arith, pow-suc 2 k)),
)
  where
    halved : bit_and (a / 2) ((2 ^ suc k - 1 - m) / 2) ≡ bit_and (a / 2) (2 ^ k - 1 - m / 2)
    halved = ap (bit_and (a / 2)) (omega (arith, pow-suc 2 k))

pub bit_or_sum : (k a r : ℕ) → a % 2 ^ k ≡ 0 → r < 2 ^ k → bit_or a r ≡ a + r
bit_or_sum k a r clear fits = ground (arith, bit_or_add k (a / 2 ^ k) r)

pub bit_xor-lt : (k a b : ℕ) → a < 2 ^ k → b < 2 ^ k → bit_xor a b < 2 ^ k
bit_xor-lt zero a b h g = ground (arith, zero-bit_xor b)
bit_xor-lt (suc k) a b h g = omega (
  arith,
  bit_xor_step a b,
  pow-suc 2 k,
  bit_xor-lt k (a / 2) (b / 2) (omega (arith, pow-suc 2 k)) (omega (arith, pow-suc 2 k)),
)

-- The same with the fields in the other order.
bit_or_below : (k q r : ℕ) → r < 2 ^ k → bit_or r (q * 2 ^ k) ≡ r + q * 2 ^ k
bit_or_below zero q r fits = ground (arith, zero-bit_or q)
bit_or_below (suc k) q r fits = ground (
  arith,
  bit_or_step r (q * 2 ^ suc k),
  double_weight q k,
  bit_or_below k q (r / 2) (omega arith),
)

pub bit_or_above : (k r a : ℕ) → r < 2 ^ k → a % 2 ^ k ≡ 0 → bit_or r a ≡ r + a
bit_or_above k r a fits clear = ground (arith, bit_or_below k (a / 2 ^ k) r)

-- A field of `w` digits from digit `s` up, put where `hi * 2 ^ w * 2 ^ s + lo` has zeroes.
pub bit_or_field :
    (s w hi lo v : ℕ)
    → lo < 2 ^ s
    → v < 2 ^ w
    → bit_or (hi * 2 ^ w * 2 ^ s + lo) (v * 2 ^ s) ≡ hi * 2 ^ w * 2 ^ s + v * 2 ^ s + lo
bit_or_field zero w hi lo v h g = ground (arith, bit_or_add w hi v g)
bit_or_field (suc s) w hi lo v h g = ground (
  arith,
  bit_or_step (hi * 2 ^ w * 2 ^ suc s + lo) (v * 2 ^ suc s),
  double_weight (hi * 2 ^ w) s,
  double_weight v s,
  pow-suc 2 s,
  bit_or_field s w hi (lo / 2) v,
)
