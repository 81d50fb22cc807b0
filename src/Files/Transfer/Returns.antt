-- ===== src/Files/Transfer/Returns.antt =====
-- `sendFromReader` returns, given rounds for the bytes that there are.
use socket_programming.Base.{
  ℕ, zero, suc, ◌+◌, ◌%◌, ◌^◌, ◌≤◌, ◌<◌, ◌≡◌, ◌≢◌, refl, ap, Bool, true, false, List, [], ◌++◌,
  none, some, length, length-append, Bool-cases, inl, inr, arith,
}
use mathlib.Core.Option.{some-ne-none}
use socket_programming.Files.Reader.{Reader, Next}
use socket_programming.Files.Transfer.{
  Transport, Sending, and_then, unless, call_of, flush_empty, finish, pass, send_loop, begin,
  send_from_reader,
}

module _ (reader : Reader) (transport : Transport) where
  open reader use {S, is_open, next, content}
  open transport use {T, send_chunk, flush, aborted}

  abbrev Out : Type 0
  Out = Sending reader transport

  -- The return value, and that there is one.
  abbrev Returned : Out → Type 0
  Returned (t, calls, result) = result ≢ none

  unless-Returned :
      (x : T × Bool) (rest : T → Out)
      → ((t : T) → Returned (rest t))
      → Returned (unless reader transport x rest)
  unless-Returned (t, true) rest h = some-ne-none false
  unless-Returned (t, false) rest h = h t

  and_then-Returned :
      (x : T × Bool) (rest : T → Out)
      → ((t : T) → Returned (rest t))
      → Returned (and_then reader transport x rest)
  and_then-Returned (t, true) rest h = h t
  and_then-Returned (t, false) rest h = some-ne-none false

  finish-Returned : (t : T) → Returned (finish reader transport t)
  finish-Returned t = unless-Returned (aborted t) _ λ t1.
      and_then-Returned (flush t1) _ λ t2. unless-Returned (aborted t2) _ λ t3. some-ne-none true

  send_loop-Returned :
      (n seq : ℕ) (current : List ℕ) (s : S) (t : T)
      → length (content s) < n
      → Returned (send_loop reader transport n seq current s t)
  unfolding send_loop
  send_loop-Returned zero seq current s t lt = absurd (omega arith)
  send_loop-Returned (suc n) seq current s t lt =
      go (next s) (reader.some_lem s)
        (λ following r t2. send_loop-Returned n ((seq + 1) % 2 ^ 32) following r t2)
    where
      go :
          (x : Next S)
          → ((chunk : List ℕ)
              → x.0 ≡ some chunk
              → (0 < length chunk) × (length chunk ≤ 1024) × (content s ≡ chunk ++ content x.1))
          → ((following : List ℕ) (r : S) (t2 : T)
              → length (content r) < n
              → Returned (send_loop reader transport n ((seq + 1) % 2 ^ 32) following r t2))
          → Returned (
              pass reader transport x seq current
                (send_loop reader transport n ((seq + 1) % 2 ^ 32))
                t)
      go (none, r) laws ih = unless-Returned (aborted t) _ λ t1.
          and_then-Returned (send_chunk (call_of reader transport seq current true) t1)
            (finish reader transport) finish-Returned
      go (some following, r) laws ih =
          let l = laws following refl in
          let shorter : length (content r) < n =
            omega (arith, ap length l.2, length-append following (content r), l.0) in
          unless-Returned (aborted t) _ λ t1.
            and_then-Returned (send_chunk (call_of reader transport seq current false) t1)
              (send_loop reader transport n ((seq + 1) % 2 ^ 32) following r)
              (λ t2. ih following r t2 shorter)

  -- As many rounds as there are bytes to read are enough for the transfer to return.
  pub send_from_reader_returns :
      (rounds : ℕ) (s : S) (t : T)
      → length (content s) ≤ rounds
      → (send_from_reader reader transport rounds s t).2 ≢ none
  unfolding send_from_reader
  send_from_reader_returns rounds s t le = elim (Bool-cases (reader.is_open s)) [
    | inr shut ↦ rw shut (some-ne-none false)
    | inl ready ↦ rw ready (unless-Returned (aborted t) _ λ t1. go (next s) (reader.some_lem s) t1)
  ]
    where
      go :
          (x : Next S)
          → ((chunk : List ℕ)
              → x.0 ≡ some chunk
              → (0 < length chunk) × (length chunk ≤ 1024) × (content s ≡ chunk ++ content x.1))
          → (t1 : T) → Returned (begin reader transport x (send_loop reader transport rounds 0) t1)
      go (none, r) laws t1 = unless-Returned (aborted t1) _ λ t2.
          and_then-Returned (send_chunk (call_of reader transport 0 [] true) t2)
            (flush_empty reader transport)
            λ t3.
              unless-Returned (aborted t3) _
                λ t4. and_then-Returned (flush t4) _ λ t5. some-ne-none true
      go (some first, r) laws t1 =
          let l = laws first refl in
          send_loop-Returned rounds 0 first r t1
            (omega (arith, ap length l.2, length-append first (content r), l.0))
