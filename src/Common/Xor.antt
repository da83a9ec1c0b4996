-- ===== src/Common/Xor.antt =====
-- Laws of the exclusive or of numbers.
use Prim.Native.Nat.{
  ℕ, zero, suc, ◌+◌, ◌*◌, ◌/◌, ◌%◌, ◌≤◌, ◌<◌, bit_xor, bit_xor-bitwise, digits, differ,
}
use mathlib.Core.Path.{◌≡◌, refl, ap, ◌∙◌, sym}
use native.Mathlib.Omega.{arith}

differ_parity : (x y : ℕ) → x < 2 → y < 2 → differ x y ≡ (x + y) % 2
differ_parity zero y h k = omega arith
differ_parity (suc zero) zero h k = refl
differ_parity (suc zero) (suc zero) h k = refl
differ_parity (suc zero) (suc (suc y)) h k = absurd (omega arith)
differ_parity (suc (suc x)) y h k = absurd (omega arith)

abbrev xor_digits : ℕ → ℕ → ℕ → ℕ
xor_digits n a b = digits (λ b. b) differ n a b

xor_digits_fuel : (n m a b : ℕ) → a ≤ n → a ≤ m → xor_digits n a b ≡ xor_digits m a b
xor_digits_fuel zero zero a b p q = refl
xor_digits_fuel zero (suc m) zero b p q = refl
xor_digits_fuel zero (suc m) (suc a) b p q = absurd (omega arith)
xor_digits_fuel (suc n) zero zero b p q = refl
xor_digits_fuel (suc n) zero (suc a) b p q = absurd (omega arith)
xor_digits_fuel (suc n) (suc m) zero b p q = refl
xor_digits_fuel (suc n) (suc m) (suc a) b p q =
    omega (arith, xor_digits_fuel n m (suc a / 2) (b / 2) (omega arith) (omega arith))

pub zero-bit_xor : (b : ℕ) → bit_xor 0 b ≡ b
zero-bit_xor b = bit_xor-bitwise 0 b

-- The lowest digit, and the others.
pub bit_xor_step : (a b : ℕ) → bit_xor a b ≡ bit_xor (a / 2) (b / 2) * 2 + (a + b) % 2
bit_xor_step zero b = omega (arith, zero-bit_xor b, zero-bit_xor (b / 2))
bit_xor_step (suc a) b = omega (
  arith,
  bit_xor-bitwise (suc a) b,
  bit_xor-bitwise (suc a / 2) (b / 2),
  xor_digits_fuel a (suc a / 2) (suc a / 2) (b / 2) (omega arith) (omega arith),
  differ_parity (suc a % 2) (b % 2) (omega arith) (omega arith),
)

pub bit_xor_half : (a b : ℕ) → bit_xor a b / 2 ≡ bit_xor (a / 2) (b / 2)
bit_xor_half a b = omega (arith, bit_xor_step a b)

pub bit_xor_parity : (a b : ℕ) → bit_xor a b % 2 ≡ (a + b) % 2
bit_xor_parity a b = omega (arith, bit_xor_step a b)

comm_below : (n a b : ℕ) → a + b ≤ n → bit_xor a b ≡ bit_xor b a
comm_below zero a b h =
    let one : a ≡ 0 = omega arith in let two : b ≡ 0 = omega arith in rw (one, two) refl
comm_below (suc n) zero zero h = refl
comm_below (suc n) zero (suc b) h = omega (
  arith,
  bit_xor_step 0 (suc b),
  bit_xor_step (suc b) 0,
  comm_below n 0 (suc b / 2) (omega arith),
)
comm_below (suc n) (suc a) b h = omega (
  arith,
  bit_xor_step (suc a) b,
  bit_xor_step b (suc a),
  comm_below n (suc a / 2) (b / 2) (omega arith),
)

pub bit_xor_comm : (a b : ℕ) → bit_xor a b ≡ bit_xor b a
bit_xor_comm a b = comm_below (a + b) a b (omega arith)

pub bit_xor-zero : (a : ℕ) → bit_xor a 0 ≡ a
bit_xor-zero a = bit_xor_comm a 0 ∙ zero-bit_xor a

assoc_below : (n a b c : ℕ) → a ≤ n → bit_xor (bit_xor a b) c ≡ bit_xor a (bit_xor b c)
assoc_below n zero b c h = ap (λ x. bit_xor x c) (zero-bit_xor b) ∙ sym (zero-bit_xor (bit_xor b c))
assoc_below zero (suc a) b c h = absurd (omega arith)
assoc_below (suc n) (suc a) b c h =
    let left = ap (λ x. bit_xor x (c / 2)) (bit_xor_half (suc a) b) in
    let right = ap (λ x. bit_xor (suc a / 2) x) (bit_xor_half b c) in
    omega (
      arith,
      bit_xor_step (bit_xor (suc a) b) c,
      bit_xor_step (suc a) (bit_xor b c),
      bit_xor_parity (suc a) b,
      bit_xor_parity b c,
      left,
      right,
      assoc_below n (suc a / 2) (b / 2) (c / 2) (omega arith),
    )

pub bit_xor_assoc : (a b c : ℕ) → bit_xor (bit_xor a b) c ≡ bit_xor a (bit_xor b c)
bit_xor_assoc a b c = assoc_below a a b c (omega arith)

pub bit_xor_right_comm : (a b c : ℕ) → bit_xor (bit_xor a b) c ≡ bit_xor (bit_xor a c) b
bit_xor_right_comm a b c =
    bit_xor_assoc a b c ∙ ap (bit_xor a) (bit_xor_comm b c) ∙ sym (bit_xor_assoc a c b)

-- `h` shifted to the left by `k` digits
abbrev pub shifted : ℕ → ℕ → ℕ
shifted zero h = h
shifted (suc k) h = 2 * shifted k h

-- The digits of two numbers that do not meet, and those of two bytes.
pub bit_xor_fields : (k x h : ℕ) → x < shifted k 1 → bit_xor x (shifted k h) ≡ x + shifted k h
bit_xor_fields zero x h fits = let e : x ≡ 0 = omega arith in rw e (zero-bit_xor h ∙ omega arith)
bit_xor_fields (suc k) x h fits =
    let half : 2 * shifted k h / 2 ≡ shifted k h = omega arith in
    omega (
      arith,
      bit_xor_step x (2 * shifted k h),
      ap (bit_xor (x / 2)) half,
      bit_xor_fields k (x / 2) h (omega arith),
    )

pub bit_xor_low :
    (k x y h : ℕ)
    → x < shifted k 1
    → y < shifted k 1
    → (bit_xor (x + shifted k h) y ≡ bit_xor x y + shifted k h) × (bit_xor x y < shifted k 1)
bit_xor_low zero x y h fx fy =
    let one : x ≡ 0 = omega arith in
    let two : y ≡ 0 = omega arith in
    rw (one, two) (bit_xor-zero (0 + h), omega (arith, zero-bit_xor 0))
bit_xor_low (suc k) x y h fx fy =
    let half : (x + 2 * shifted k h) / 2 ≡ x / 2 + shifted k h = omega arith in
    let below = bit_xor_low k (x / 2) (y / 2) h (omega arith) (omega arith) in
    (
      omega (
        arith,
        bit_xor_step (x + 2 * shifted k h) y,
        bit_xor_step x y,
        ap (λ z. bit_xor z (y / 2)) half,
        below.0,
      ),
      omega (arith, bit_xor_step x y, below.1),
    )
