-- ===== src/Files/Transfer.antt =====
-- `sendFromReader` of server/src/datachannel/DataChannelSession.cpp, over any reader and transport.
pub mod Complete
pub mod Returns
pub mod Ascii
use socket_programming.Base.{
  ℕ, zero, suc, ◌+◌, ◌%◌, ◌^◌, ◌≤◌, ◌<◌, ◌≡◌, ◌≢◌, refl, sym, ap, ◌∙◌, Bool, true, false, not, ◌&&◌,
  List, [], ◌∷◌, ◌++◌, Option, none, some, length, length-append, if◌then◌else◌, Bool-cases, ◌⊎◌,
  inl, inr, arith,
}
use socket_programming.Files.Reader.{Reader, Next}

-- What `sendChunk` is called with.
pub record Call : Type 0 where
  pub seq : ℕ
  pub payload : List ℕ
  pub is_final : Bool

-- A transport and its surroundings: `sendChunk`, `flush` and the abort predicate, each of which may
-- change the state of the world.
pub record Transport : Type 1 where
  pub T : Type 0
  pub send_chunk : Call → T → T × Bool
  pub flush : T → T × Bool
  pub aborted : T → T × Bool

module _ (reader : Reader) (transport : Transport) where
  open reader use {S, is_open, next}
  open transport use {T, send_chunk, flush, aborted}

  -- The state of the world, the calls of `sendChunk`, and the return value; `none` is no return yet.
  abbrev pub Sending : Type 0
  Sending = T × List Call × Option Bool

  abbrev pub returns : Bool → T → Sending
  returns b t = (t, [], some b)

  -- `x && ...`: the rest is reached if `x` was true.
  abbrev pub and_then : T × Bool → (T → Sending) → Sending
  and_then (t, true) rest = rest t
  and_then (t, false) rest = returns false t

  abbrev pub unless : T × Bool → (T → Sending) → Sending
  unless (t, true) rest = returns false t
  unless (t, false) rest = rest t

  abbrev pub calling : Call → Sending → Sending
  calling c (t, calls, result) = (t, c ∷ calls, result)

  -- `!aborted() && transport.flush() && !aborted()`
  abbrev pub finish : T → Sending
  finish t =
      unless (aborted t) λ t1. and_then (flush t1) λ t2. unless (aborted t2) λ t3. returns true t3

  abbrev pub call_of : ℕ → List ℕ → Bool → Call
  call_of seq payload is_final = record { seq = seq; payload = payload; is_final = is_final }

  -- One round of the loop, given what `nextChunk` returned; `again` is the next round.
  abbrev pub pass : Next S → ℕ → List ℕ → (List ℕ → S → T → Sending) → T → Sending
  pass (none, s) seq current again t = unless (aborted t) λ t1.
      calling (call_of seq current true)
        (and_then (send_chunk (call_of seq current true) t1) finish)
  pass (some following, s) seq current again t = unless (aborted t) λ t1.
      calling (call_of seq current false)
        (and_then (send_chunk (call_of seq current false) t1) (again following s))

  -- The loop, for a number of rounds.
  unfoldable pub send_loop : ℕ → ℕ → List ℕ → S → T → Sending
  send_loop zero seq current s t = (t, [], none)
  send_loop (suc n) seq current s t = pass (next s) seq current (send_loop n ((seq + 1) % 2 ^ 32)) t

  abbrev pub flush_empty : T → Sending
  flush_empty t = unless (aborted t) λ t1. and_then (flush t1) (returns true)

  -- A file with nothing to read is one empty chunk.
  abbrev pub begin : Next S → (List ℕ → S → T → Sending) → T → Sending
  begin (none, s) loop t =
      unless (aborted t)
        λ t1. calling (call_of 0 [] true) (and_then (send_chunk (call_of 0 [] true) t1) flush_empty)
  begin (some first, s) loop t = loop first s t

  -- `sendFromReader`
  unfoldable pub send_from_reader : ℕ → S → T → Sending
  unfolding send_loop
  send_from_reader rounds s t =
      if not (is_open s)
      then returns false t
      else unless (aborted t) (begin (next s) (send_loop rounds 0))

-- The calls send `content` in chunks of at most 1024 bytes, numbered from `seq` on, of which the last
-- one, and no other, is final.
abbrev pub Sends : ℕ → List Call → List ℕ → Type 0
Sends seq [] content = ⊥
Sends seq (c ∷ []) content = c ≡ record { seq = seq; payload = content; is_final = true }
Sends seq (c ∷ d ∷ rest) content =
    (more : List ℕ) × (content ≡ c.payload ++ more)
    × (c.seq ≡ seq)
    × (c.is_final ≡ false)
    × Sends ((seq + 1) % 2 ^ 32) (d ∷ rest) more
