-- ===== src/Checksum.antt =====
-- shared/protocol/CheckSum.cpp: the 16-bit one's complement sum of a datagram. A byte is a number
-- below 256; the accumulator is a `uint32_t`, so each addition is taken modulo 2 ^ 32.
pub mod Sum
pub mod Detect
use mathlib.Core.WellFounded.{Acc}
use socket_programming.Base.{
  ℕ, ◌+◌, ◌-◌, ◌*◌, ◌/◌, ◌%◌, ◌^◌, ◌<◌, bit_and, bit_or, List, [], ◌∷◌, ◌≡◌, dite, dec_lt, arith,
}
use socket_programming.Base.Bits.{bit_and_mask16}
use socket_programming.Base.Order.{lt_wf}

abbrev pub u32_mod : ℕ
u32_mod = 2 ^ 32

-- One round of `while (sum >> 16)`.
abbrev pub fold_step : ℕ → ℕ
fold_step sum = (bit_and sum 0xffff + sum / 65536) % 2 ^ 32

pub fold_step_lem : (sum : ℕ) → sum < 2 ^ 32 → fold_step sum ≡ sum % 65536 + sum / 65536
fold_step_lem sum h = omega (arith, bit_and_mask16 sum)

-- The two loops that add: `for (i = 0; i + 1 < len; i += 2)`, and the odd byte at the end.
pub add_words : ℕ → List ℕ → ℕ
add_words sum [] = sum
add_words sum (a ∷ []) = (sum + a * 256) % 2 ^ 32
add_words sum (a ∷ b ∷ rest) = add_words ((sum + bit_or (a * 256) b) % 2 ^ 32) rest

-- `fold_step` shrinks a sum that has a high half.
pub fold_shrinks : (sum : ℕ) → 0 < sum / 65536 → fold_step sum < sum
fold_shrinks sum h = omega (arith, bit_and_mask16 sum)

-- `while (sum >> 16) sum = (sum & 0xffff) + (sum >> 16);`
pub fold : (sum : ℕ) → Acc ◌<◌ sum → ℕ
fold sum (Acc.intro _ smaller) =
    dite (dec_lt 0 (sum / 65536))
      (λ more. fold (fold_step sum) (smaller (fold_step sum) (fold_shrinks sum more))) (λ _. sum)

-- `static_cast<std::uint16_t>(~sum)`
pub complement16 : ℕ → ℕ
complement16 sum = (2 ^ 32 - 1 - sum) % 2 ^ 16

unfoldable pub internet_checksum : List ℕ → ℕ
unfolding add_words fold complement16 lt_wf dec_lt
internet_checksum bytes = let sum = add_words 0 bytes in complement16 (fold sum (lt_wf.apply sum))
