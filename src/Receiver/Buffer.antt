-- ===== src/Receiver/Buffer.antt =====
-- `outOfOrderBuffer`, a `std::map` from sequence numbers to a chunk and its FIN flag, as an
-- association list.
use socket_programming.Base.{
  ℕ, suc, ◌≤◌, ◌<◌, Bool, List, [], ◌∷◌, Option, none, some, ◌≡◌, refl, ◌==◌, if◌then◌else◌, arith,
  ◌≢◌, inl, inr, Option-cases,
}

abbrev pub Slot : Type 0
Slot = List ℕ × Bool

unfoldable pub find : ℕ → List (ℕ × Slot) → Option Slot
find k [] = none
find k ((j, slot) ∷ m) = if j == k then some slot else find k m

-- A map holds a key at most once: `erase(it)` leaves no entry of the key.
unfoldable pub erase : ℕ → List (ℕ × Slot) → List (ℕ × Slot)
erase k [] = []
erase k ((j, slot) ∷ m) = let rest = erase k m in if j == k then rest else (j, slot) ∷ rest

-- `if (find(k) == end()) emplace(k, slot)`
unfoldable pub emplace : ℕ → Slot → List (ℕ × Slot) → List (ℕ × Slot)
unfolding find
emplace k slot m = elim (find k m) [ none ↦ (k, slot) ∷ m | some old ↦ m ]

-- Every entry lies in the range [lo, hi) and holds what `stream` says of its key.
abbrev pub Buffered : (ℕ → Slot) → ℕ → ℕ → List (ℕ × Slot) → Type 0
Buffered stream lo hi [] = Unit {0}
Buffered stream lo hi ((k, slot) ∷ m) =
    (lo ≤ k) × (k < hi) × (slot ≡ stream k) × Buffered stream lo hi m

module _ (stream : ℕ → Slot) where
  pub Buffered-find :
      (lo hi k : ℕ) (slot : Slot) (m : List (ℕ × Slot))
      → Buffered stream lo hi m
      → find k m ≡ some slot
      → (lo ≤ k) × (k < hi) × (slot ≡ stream k)
  unfolding find
  Buffered-find lo hi k slot [] b e = ground arith
  Buffered-find lo hi k slot ((j, s) ∷ m) b e = ground (arith, Buffered-find lo hi k slot m b.3)

  pub Buffered-wider :
      (lo hi lo' hi' : ℕ) (m : List (ℕ × Slot))
      → lo' ≤ lo
      → hi ≤ hi'
      → Buffered stream lo hi m
      → Buffered stream lo' hi' m
  Buffered-wider lo hi lo' hi' [] p q b = tt
  Buffered-wider lo hi lo' hi' ((k, s) ∷ m) p q b =
      (omega arith, omega arith, b.2, Buffered-wider lo hi lo' hi' m p q b.3)

  pub Buffered-emplace :
      (lo hi k : ℕ) (slot : Slot) (m : List (ℕ × Slot))
      → lo ≤ k
      → k < hi
      → slot ≡ stream k
      → Buffered stream lo hi m
      → Buffered stream lo hi (emplace k slot m)
  unfolding emplace
  Buffered-emplace lo hi k slot m p q e b = ground arith

  -- Once the lowest key is erased the others lie above it.
  pub Buffered-erase :
      (lo hi : ℕ) (m : List (ℕ × Slot))
      → Buffered stream lo hi m
      → Buffered stream (suc lo) hi (erase lo m)
  unfolding erase
  Buffered-erase lo hi [] b = tt
  Buffered-erase lo hi ((k, s) ∷ m) b = ground (arith, Buffered-erase lo hi m b.3)

  -- If the lowest key is missing the others lie above it.
  pub Buffered-above :
      (lo hi : ℕ) (m : List (ℕ × Slot))
      → find lo m ≡ none
      → Buffered stream lo hi m
      → Buffered stream (suc lo) hi m
  unfolding find
  Buffered-above lo hi [] e b = tt
  Buffered-above lo hi ((k, s) ∷ m) e b = ground (arith, Buffered-above lo hi m)

pub find-emplace_self :
    (k : ℕ) (slot : Slot) (m : List (ℕ × Slot)) → (s : Slot) × (find k (emplace k slot m) ≡ some s)
unfolding emplace
find-emplace_self k slot m = elim (Option-cases (find k m)) [
  | inl e ↦ (slot, ground (arith, e))
  | inr (s, e) ↦ (s, ground (arith, e))
]

pub find-emplace :
    (n k : ℕ) (slot s : Slot) (m : List (ℕ × Slot))
    → find n m ≡ some s
    → find n (emplace k slot m) ≡ some s
unfolding emplace
find-emplace n k slot s m e = ground (arith, e)

pub find-erase_ne : (n k : ℕ) (m : List (ℕ × Slot)) → n ≢ k → find n (erase k m) ≡ find n m
unfolding find erase
find-erase_ne n k [] ne = refl
find-erase_ne n k ((j, s) ∷ m) ne = ground (arith, find-erase_ne n k m ne)
