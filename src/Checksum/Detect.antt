-- ===== src/Checksum/Detect.antt =====
-- What the checksum detects: a datagram of which one byte has changed has another checksum.
use socket_programming.Base.{
  ℕ, zero, suc, ◌+◌, ◌*◌, ◌%◌, ◌≤◌, ◌<◌, List, [], ◌∷◌, ◌≡◌, ◌≢◌, All, length, get_or, set,
  length-set, All-set, All-get_or, arith,
}
use socket_programming.Checksum.{internet_checksum}
use socket_programming.Checksum.Sum.{IsByte, word_sum, word_sum-le, internet_checksum_lem}

-- What a byte at an even or odd index weighs in its word.
abbrev weight : ℕ → ℕ
weight zero = 256
weight (suc zero) = 1
weight (suc (suc i)) = weight i

word_sum-set :
    (bytes : List ℕ) (i v : ℕ)
    → i < length bytes
    → word_sum (set bytes i v) + weight i * get_or bytes i 0 ≡ word_sum bytes + weight i * v
word_sum-set [] i v h = absurd (omega arith)
word_sum-set (a ∷ []) zero v h = omega arith
word_sum-set (a ∷ []) (suc i) v h = absurd (omega arith)
word_sum-set (a ∷ b ∷ rest) zero v h = omega arith
word_sum-set (a ∷ b ∷ rest) (suc zero) v h = omega arith
word_sum-set (a ∷ b ∷ rest) (suc (suc i)) v h = omega (arith, word_sum-set rest i v (omega arith))

-- Two sums that differ by a byte's change at one place differ modulo 65535.
residues_differ :
    (i s t x v : ℕ)
    → x < 256
    → v < 256
    → x ≢ v
    → s + weight i * x ≡ t + weight i * v
    → s % 65535 ≢ t % 65535
residues_differ zero s t x v hx hv ne e = omega arith
residues_differ (suc zero) s t x v hx hv ne e = omega arith
residues_differ (suc (suc i)) s t x v hx hv ne e = residues_differ i s t x v hx hv ne e

-- Equal checksums come from sums that are equal modulo 65535.
residues_agree : (c s t : ℕ) → (c + s) % 65535 ≡ 0 → (c + t) % 65535 ≡ 0 → s % 65535 ≡ t % 65535
residues_agree c s t p q = omega arith

-- A change of one byte, at any place of a datagram, changes its checksum.
pub internet_checksum-set-ne :
    (bytes : List ℕ) (i v : ℕ)
    → All IsByte bytes
    → length bytes ≤ 100000
    → i < length bytes
    → v < 256
    → get_or bytes i 0 ≢ v
    → internet_checksum (set bytes i v) ≢ internet_checksum bytes
internet_checksum-set-ne bytes i v h small hi hv ne e =
    residues_differ i (word_sum (set bytes i v)) (word_sum bytes) (get_or bytes i 0) v
      (All-get_or IsByte bytes i 0 h (omega arith)) hv ne (word_sum-set bytes i v hi)
      (residues_agree (internet_checksum bytes) (word_sum (set bytes i v)) (word_sum bytes)
        (omega (arith, new, e)) (omega (arith, old)))
  where
    all' : All IsByte (set bytes i v)
    all' = All-set IsByte bytes i v h hv

    new : (internet_checksum (set bytes i v) + word_sum (set bytes i v)) % 65535 ≡ 0
    new =
        (internet_checksum_lem (set bytes i v) all'
          (omega (arith, word_sum-le (set bytes i v) all', length-set bytes i v))).1

    old : (internet_checksum bytes + word_sum bytes) % 65535 ≡ 0
    old = (internet_checksum_lem bytes h (omega (arith, word_sum-le bytes h))).1
