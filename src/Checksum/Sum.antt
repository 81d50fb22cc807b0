-- ===== src/Checksum/Sum.antt =====
-- What the checksum computes: the complement of the sum of the 16-bit words, reduced by
-- end-around carries.
use mathlib.Core.WellFounded.{Acc}
use mathlib.Core.Logic.{dif_pos, dif_neg}
use native.Mathlib.Bridge.{le_prop}
use socket_programming.Base.{
  ℕ, bit_or, ◌+◌, ◌*◌, ◌/◌, ◌%◌, ◌^◌, ◌≤◌, ◌<◌, List, [], ◌∷◌, ◌≡◌, refl, All, length, arith,
  dec_lt, ℕ_discrete, inl, inr, ◌⊎◌,
}
use socket_programming.Base.Bits.{bit_or_shift8}
use socket_programming.Base.Order.{lt_wf}
use socket_programming.Checksum.{
  fold_step, fold_step_lem, fold_shrinks, add_words, fold, internet_checksum,
}

abbrev pub IsByte : ℕ → Type 0
IsByte b = b < 256

-- The sum of the big-endian 16-bit words, with no wrap.
abbrev pub word_sum : List ℕ → ℕ
word_sum [] = 0
word_sum (a ∷ []) = a * 256
word_sum (a ∷ b ∷ rest) = a * 256 + b + word_sum rest

pub word_sum-le :
    (bytes : List ℕ) → All IsByte bytes → 2 * word_sum bytes ≤ 65535 * (length bytes + 1)
word_sum-le [] h = omega arith
word_sum-le (a ∷ []) h = omega arith
word_sum-le (a ∷ b ∷ rest) h = omega (arith, word_sum-le rest h.1.1)

-- Below 2 ^ 17 bytes the `uint32_t` never wraps.
pub add_words-eq :
    (sum : ℕ) (bytes : List ℕ)
    → All IsByte bytes
    → sum + word_sum bytes < 2 ^ 32
    → add_words sum bytes ≡ sum + word_sum bytes
unfolding add_words
add_words-eq sum [] h lt = omega arith
add_words-eq sum (a ∷ []) h lt = omega arith
add_words-eq sum (a ∷ b ∷ rest) h lt =
    let e : (sum + bit_or (a * 256) b) % 2 ^ 32 ≡ sum + (a * 256 + b) =
      omega (arith, bit_or_shift8 a b h.1.0) in
    rw e (omega (arith, add_words-eq (sum + (a * 256 + b)) rest h.1.1 (omega arith)))

-- The carries come to rest in sixteen bits, keep the residue modulo 65535, and lose no sum to 0.
pub fold_lem :
    (sum : ℕ) (w : Acc ◌<◌ sum)
    → sum < 2 ^ 32
    → (fold sum w < 65536) × (fold sum w % 65535 ≡ sum % 65535) × (fold sum w ≡ 0 → sum ≡ 0)
unfolding fold
fold_lem sum (Acc.intro _ smaller) lt = elim (dec_lt 0 (sum / 65536)) [
  | yes more ↦
      let ih =
        fold_lem (fold_step sum) (smaller (fold_step sum) (fold_shrinks sum more))
          (omega (arith, fold_step_lem sum lt)) in
      rw (dif_pos (dec_lt 0 (sum / 65536)) le_prop more) (
        omega (arith, ih.0),
        omega (arith, ih.1, fold_step_lem sum lt),
        λ z. omega (arith, fold_step_lem sum lt, ih.2 z),
      )
  | no done ↦ rw (dif_neg (dec_lt 0 (sum / 65536)) done) (omega arith, refl, λ z. z)
]

-- The checksum fits 16 bits; with the words that it covers it adds up to 0 modulo 65535, as one's
-- complement addition has it; and it is 0xffff only over a sum of 0. These determine it.
pub internet_checksum_lem :
    (bytes : List ℕ)
    → All IsByte bytes
    → word_sum bytes < 2 ^ 32
    → (internet_checksum bytes < 65536)
      × ((internet_checksum bytes + word_sum bytes) % 65535 ≡ 0)
      × ((internet_checksum bytes < 65535) ⊎ (word_sum bytes ≡ 0))
unfolding internet_checksum
internet_checksum_lem bytes h lt =
    let e = add_words-eq 0 bytes h (omega arith) in
    let f = fold_lem (add_words 0 bytes) (lt_wf.apply (add_words 0 bytes)) (omega (arith, e)) in
    (omega arith, omega (arith, f.0, f.1, e), not_top e f)
  where
    sum : ℕ
    sum = add_words 0 bytes

    not_top :
        sum ≡ 0 + word_sum bytes
        → ((fold sum (lt_wf.apply sum) < 65536)
            × (fold sum (lt_wf.apply sum) % 65535 ≡ sum % 65535)
            × (fold sum (lt_wf.apply sum) ≡ 0 → sum ≡ 0))
        → (internet_checksum bytes < 65535) ⊎ (word_sum bytes ≡ 0)
    not_top e f = elim (ℕ_discrete (fold sum (lt_wf.apply sum)) 0) [
      | yes z ↦ inr (omega (arith, e, f.2 z))
      | no nz ↦ inl (omega (arith, f.0))
    ]
