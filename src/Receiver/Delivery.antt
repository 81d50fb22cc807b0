-- ===== src/Receiver/Delivery.antt =====
-- Repeated calls of `receiveNext`: the chunks that the client gets are the stream's, from the first
-- one on, in order, each once.
use socket_programming.Base.{
  ℕ, suc, zero, ◌+◌, ◌^◌, ◌<◌, List, [], ◌∷◌, ◌≡◌, refl, ap₂, subst, All, length, arith,
}
use socket_programming.Receiver.{
  Receiver, Io, Chunk, Result, delivered, stopped, blocked, collect, receive_next, receive_all,
}
use socket_programming.Receiver.Buffer.{Slot}
use socket_programming.Receiver.Reaction.{RoundsFaithful, Keeps}
use socket_programming.Receiver.InOrder.{Ready, AdvancesBy, receive_next-Advances}

-- The `k` chunks of a stream from number `n` on.
abbrev pub chunks_from : (ℕ → Slot) → ℕ → ℕ → List Chunk
chunks_from stream n zero = []
chunks_from stream n (suc k) =
    record { seq = n; payload = (stream n).0; is_final = (stream n).1 }
    ∷ chunks_from stream (n + 1) k

abbrev pub Delivers : (ℕ → Slot) → ℕ → Receiver → List Chunk × Receiver → Type 0
Delivers stream n r0 (chunks, last) =
    (chunks ≡ chunks_from stream n (length chunks)) × Ready stream (n + length chunks) r0 last

chunk-eq :
    (c : Chunk) (n : ℕ) (slot : Slot)
    → c.seq ≡ n
    → (c.payload, c.is_final) ≡ slot
    → c ≡ record { seq = n; payload = slot.0; is_final = slot.1 }
chunk-eq c n slot p q = ground (arith, p, q)

module _ (stream : ℕ → Slot) where
  Ready-at : (m n : ℕ) (r0 r : Receiver) → m ≡ n → Ready stream m r0 r → Ready stream n r0 r
  Ready-at m n r0 r e w = subst (λ k. Ready stream k r0 r) e w

  collect-Delivers :
      (n : ℕ) (r0 r : Receiver) (result : Result) (more : List Chunk × Receiver)
      → Keeps stream r0 r
      → AdvancesBy stream n r result
      → (Ready stream (n + 1) r0 r → Delivers stream (n + 1) r0 more)
      → Delivers stream n r0 (collect result r more)
  collect-Delivers n r0 r (delivered c) (chunks, last) k a go =
      let ready = Ready-at (n + 1) (n + 1) r0 r refl (a.2, a.3, k) in
      let d = go ready in
      (
        ap₂ ◌∷◌ (chunk-eq c n (stream n) a.0 a.1) d.0,
        Ready-at (n + 1 + length chunks) (n + suc (length chunks)) r0 last (omega arith) d.1,
      )
  collect-Delivers n r0 r stopped more k a go =
      (refl, Ready-at n (n + 0) r0 r (omega arith) (a.0, a.1, k))
  collect-Delivers n r0 r blocked more k a go =
      (refl, Ready-at n (n + 0) r0 r (omega arith) (a.0, a.1, k))

  pub receive_all-Delivers :
      (n : ℕ) (ios : List Io) (r0 r : Receiver)
      → All (λ io. RoundsFaithful stream r0 io.rounds) ios
      → Ready stream n r0 r
      → n + length ios < 2 ^ 32
      → Delivers stream n r0 (receive_all ios r)
  unfolding receive_all
  receive_all-Delivers n [] r0 r f w lt = (refl, Ready-at n (n + 0) r0 r (omega arith) w)
  receive_all-Delivers n (io ∷ ios) r0 r f w lt =
      let call = receive_next io r in
      let a = receive_next-Advances stream n io r0 r f.0 w (omega arith) in
      collect-Delivers n r0 call.state call.result (receive_all ios call.state) a.0 a.1
        λ ready. receive_all-Delivers (n + 1) ios r0 call.state f.1 ready (omega arith)
