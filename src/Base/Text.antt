-- ===== src/Base/Text.antt =====
-- Text that the program prints, as the list of its bytes, and numbers as `std::hex` and
-- `std::to_string` print them.
use Prim.Native.Char.{code}
use Prim.Native.String.{String}
use Prim.Native.Nat.{ℕ, zero, suc, ◌+◌, ◌-◌, ◌*◌, ◌/◌, ◌%◌, ◌^◌, ◌<◌}
use mathlib.Core.Path.{◌≡◌, refl, ◌∙◌}
use mathlib.Core.List.{List, [], ◌∷◌, ◌++◌}
use native.Mathlib.Nat.{pow-suc}
use native.Mathlib.Omega.{arith}
use mathlib.Core.Bool.{Bool, true, false, not, ◌&&◌}
use mathlib.Core.Logic.{inl, inr}
use xor_os.Base.Tests.{ltb, ◌==◌, if◌then◌else◌, Bool-cases}
use xor_os.Base.Lists.{length}
use xor_os.Base.Int.{ℤ, pos, negsuc}

abbrev pub Text : Type 0
Text = List ℕ

abbrev pub codes : String → Text
codes String.[] = []
codes (String.◌∷◌ c s) = code c ∷ codes s

-- A digit of base 16, in lower case.
unfoldable pub hex_digit : ℕ → ℕ
hex_digit n = if ltb n 10 then b'0' + n else b'a' + n - 10

-- The last `w` digits of base 16, `std::setw(w) << std::setfill('0')` where the number has no more.
unfoldable pub hex_fixed : ℕ → ℕ → Text
hex_fixed zero n = []
hex_fixed (suc w) n = hex_fixed w (n / 16) ++ (hex_digit (n % 16) ∷ [])

-- The digits of `n` to a base of at most 16, at most `fuel` of them, and no leading zeros.
unfoldable pub digits_of : ℕ → ℕ → ℕ → Text
digits_of base zero n = []
digits_of base (suc fuel) n =
    let rest = digits_of base fuel (n / base) in
    if ltb n base then hex_digit n ∷ [] else rest ++ (hex_digit (n % base) ∷ [])

-- `std::to_string` of an integer of 64 bits, which has at most 20 digits.
unfoldable pub to_string : ℤ → Text
to_string (pos n) = digits_of 10 20 n
to_string (negsuc n) = b'-' ∷ digits_of 10 20 (n + 1)

-- The number of a digit.
unfoldable pub digit_value : ℕ → ℕ
digit_value c = if ltb c b'a' then c - b'0' else c - b'a' + 10

-- The number that digits of base 16 stand for, after the digits of `n`.
unfoldable pub read_hex : ℕ → Text → ℕ
read_hex n [] = n
read_hex n (c ∷ s) = read_hex (n * 16 + digit_value c) s

digit_value-hex_digit : (n : ℕ) → n < 16 → digit_value (hex_digit n) ≡ n
unfolding digit_value hex_digit
digit_value-hex_digit n h = ground arith

read_hex-append : (n : ℕ) (s t : Text) → read_hex n (s ++ t) ≡ read_hex (read_hex n s) t
unfolding read_hex
read_hex-append n [] t = refl
read_hex-append n (c ∷ s) t = read_hex-append (n * 16 + digit_value c) s t

-- The digits are read back.
pub read_hex-hex_fixed : (w n : ℕ) → n < 16 ^ w → read_hex 0 (hex_fixed w n) ≡ n
unfolding read_hex hex_fixed
read_hex-hex_fixed zero n h = omega arith
read_hex-hex_fixed (suc w) n h =
    let upper = read_hex-hex_fixed w (n / 16) (omega (arith, pow-suc 16 w)) in
    let last = digit_value-hex_digit (n % 16) (omega arith) in
    read_hex-append 0 (hex_fixed w (n / 16)) (hex_digit (n % 16) ∷ [])
    ∙ unfold read_hex in rw (upper, last) (omega arith)

pub length-append : (s t : Text) → length (s ++ t) ≡ length s + length t
length-append [] t = omega arith
length-append (c ∷ s) t = omega (arith, length-append s t)

pub length-hex_fixed : (w n : ℕ) → length (hex_fixed w n) ≡ w
unfolding hex_fixed
length-hex_fixed zero n = refl
length-hex_fixed (suc w) n = omega (
  arith,
  length-append (hex_fixed w (n / 16)) (hex_digit (n % 16) ∷ []),
  length-hex_fixed w (n / 16),
)

-- The text before the first `sep`, and the text after it.
unfoldable pub split : ℕ → Text → Text × Text
split sep [] = ([], [])
split sep (c ∷ t) = let r = split sep t in if c == sep then ([], t) else (c ∷ r.0, r.1)

-- Whether no byte is `sep`.
unfoldable pub absent : ℕ → Text → Bool
absent sep [] = true
absent sep (c ∷ t) = not (c == sep) && absent sep t

pub split-append :
    (sep : ℕ) (s t : Text) → absent sep s ≡ true → split sep (s ++ (sep ∷ t)) ≡ (s, t)
unfolding split absent
split-append sep [] t h = let here : (sep == sep) ≡ true = ground arith in rw here refl
split-append sep (c ∷ s) t h = elim (Bool-cases (c == sep)) [
  | inl at ↦ ground (arith)
  | inr off ↦ rw (off, split-append sep s t (ground arith)) refl
]

pub absent-append :
    (sep : ℕ) (s t : Text) → absent sep s ≡ true → absent sep t ≡ true → absent sep (s ++ t) ≡ true
unfolding absent
absent-append sep [] t h g = g
absent-append sep (c ∷ s) t h g = ground (arith, absent-append sep s t)

pub absent-hex_fixed :
    (sep w n : ℕ)
    → ((k : ℕ) → k < 16 → (hex_digit k == sep) ≡ false)
    → absent sep (hex_fixed w n) ≡ true
unfolding hex_fixed absent
absent-hex_fixed sep zero n other = refl
absent-hex_fixed sep (suc w) n other =
    absent-append sep (hex_fixed w (n / 16)) (hex_digit (n % 16) ∷ [])
      (absent-hex_fixed sep w (n / 16) other) (rw (other (n % 16) (omega arith)) refl)
