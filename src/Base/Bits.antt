-- ===== src/Base/Bits.antt =====
-- Facts about `bit_and` and `bit_or` at variables, for the masks and shifts of the protocol.
use Prim.Native.Nat.{
  ℕ, zero, suc, ◌+◌, ◌-◌, ◌*◌, ◌/◌, ◌%◌, ◌≤◌, ◌<◌, min, max, bit_and, bit_or, digits,
  bit_and-bitwise, bit_or-bitwise,
}
use mathlib.Core.Path.{◌≡◌, refl, sym, ◌∙◌, ap, subst}
use native.Mathlib.Omega.{arith}

-- What the native operations stand for, with a count of digits that is large enough.
module _ (last : ℕ → ℕ) (digit : ℕ → ℕ → ℕ) where
  one_more : (n a b : ℕ) → a ≤ n → digits last digit (suc n) a b ≡ digits last digit n a b
  one_more zero zero b h = refl
  one_more zero (suc a) b h = absurd (omega arith)
  one_more (suc n) zero b h = refl
  one_more (suc n) (suc a) b h =
      ap (λ (x : ℕ). x * 2 + digit (suc a % 2) (b % 2))
        (one_more n (suc a / 2) (b / 2) (omega arith))

  many_more : (k n a b : ℕ) → n ≡ k + a → digits last digit n a b ≡ digits last digit a a b
  many_more zero n a b e = ap (λ (m : ℕ). digits last digit m a b) (omega arith)
  many_more (suc k) zero a b e = absurd (omega arith)
  many_more (suc k) (suc n) a b e = one_more n a b (omega arith) ∙ many_more k n a b (omega arith)

  enough : (n a b : ℕ) → a ≤ n → digits last digit n a b ≡ digits last digit a a b
  enough n a b h = many_more (n - a) n a b (omega arith)

and_halves : (a b : ℕ) → bit_and a b ≡ bit_and (a / 2) (b / 2) * 2 + min (a % 2) (b % 2)
and_halves zero b = omega (arith, bit_and-bitwise 0 b, bit_and-bitwise 0 (b / 2))
and_halves (suc a) b =
    bit_and-bitwise (suc a) b
    ∙ ap (λ (x : ℕ). x * 2 + min (suc a % 2) (b % 2))
        (enough (λ _. zero) min a (suc a / 2) (b / 2) (omega arith)
          ∙ sym (bit_and-bitwise (suc a / 2) (b / 2)))

or_halves : (a b : ℕ) → bit_or a b ≡ bit_or (a / 2) (b / 2) * 2 + max (a % 2) (b % 2)
or_halves zero b = omega (arith, bit_or-bitwise 0 b, bit_or-bitwise 0 (b / 2))
or_halves (suc a) b =
    bit_or-bitwise (suc a) b
    ∙ ap (λ (x : ℕ). x * 2 + max (suc a % 2) (b % 2))
        (enough (λ d. d) max a (suc a / 2) (b / 2) (omega arith)
          ∙ sym (bit_or-bitwise (suc a / 2) (b / 2)))

-- `k` ones, the low `k` digits of a number, a number shifted left by `k`, and 2 to the power `k`.
abbrev ones : ℕ → ℕ
ones zero = 0
ones (suc k) = ones k * 2 + 1

abbrev low : ℕ → ℕ → ℕ
low zero a = 0
low (suc k) a = low k (a / 2) * 2 + a % 2

abbrev shifted : ℕ → ℕ → ℕ
shifted zero a = a
shifted (suc k) a = shifted k a * 2

abbrev power : ℕ → ℕ
power zero = 1
power (suc k) = power k * 2

-- Nothing is left of a number under an empty mask, by a bound on the number.
and_nothing : (bound a : ℕ) → a ≤ bound → bit_and a 0 ≡ 0
and_nothing zero zero h = refl
and_nothing zero (suc a) h = absurd (omega arith)
and_nothing (suc bound) a h = omega (arith, and_halves a 0, and_nothing bound (a / 2) (omega arith))

or_nothing : (bound a : ℕ) → a ≤ bound → bit_or a 0 ≡ a
or_nothing zero zero h = refl
or_nothing zero (suc a) h = absurd (omega arith)
or_nothing (suc bound) a h = omega (arith, or_halves a 0, or_nothing bound (a / 2) (omega arith))

and_ones : (k a : ℕ) → bit_and a (ones k) ≡ low k a
and_ones zero a = and_nothing a a (omega arith)
and_ones (suc k) a =
    let half : (ones k * 2 + 1) / 2 ≡ ones k = omega arith in
    let ih : bit_and (a / 2) ((ones k * 2 + 1) / 2) ≡ low k (a / 2) =
      rw half (and_ones k (a / 2)) in
    omega (arith, and_halves a (ones k * 2 + 1), ih)

or_shifted : (k a b : ℕ) → b < power k → bit_or (shifted k a) b ≡ shifted k a + b
or_shifted zero a b h =
    let none_left : b ≡ 0 = omega arith in
    rw none_left (omega (arith, or_nothing a a (omega arith)))
or_shifted (suc k) a b h =
    let half : shifted k a * 2 / 2 ≡ shifted k a = omega arith in
    let ih : bit_or (shifted k a * 2 / 2) (b / 2) ≡ shifted k a + b / 2 =
      rw half (or_shifted k a (b / 2) (omega arith)) in
    omega (arith, or_halves (shifted k a * 2) b, ih)

-- `x & 0xffff` keeps the low sixteen bits.
pub bit_and_mask16 : (a : ℕ) → bit_and a 0xffff ≡ a % 65536
bit_and_mask16 a = omega (arith, and_ones 16 a)

-- `(a << 8) | b` of a byte `b` is a sum.
pub bit_or_shift8 : (a b : ℕ) → b < 256 → bit_or (a * 256) b ≡ a * 256 + b
bit_or_shift8 a b h = subst (λ x. bit_or x b ≡ x + b) (omega arith) (or_shifted 8 a b h)
