-- ===== src/Net/Receives.antt =====
-- The receives of src/net.rs against the byte stream of a connection.
use nosv.Base.{
  ℕ, zero, suc, ◌+◌, ◌-◌, ◌%◌, ◌^◌, ◌≤◌, ◌<◌, max, min, ◌≡◌, arith, refl, ap, true, ltb, leb, ◌∙◌,
  Bool-cases, inl, inr,
}
use nosv.Base.Int.{pos, negsuc}
use nosv.Io.{of_kind, unexpected_eof, BufResult, IoBufMut, Terminal, completed, failed, ended}
use nosv.Io.Exact.{Ends, Round, exact_loop-Ends}
use nosv.Io.Prefix.{Holds, fill-Holds, grow-Holds}
use nosv.Net.Streams.{
  Entry, Answer, recv, recv_work, complete_recv, recv_offset, recv_exact, u32_max,
}

module _ {K B : Type 0} (ask : K → Entry → K × Answer) (io : IoBufMut B) (stream : K → ℕ → ℕ) where
  -- A receive puts the next bytes of the stream into the buffer, as many as it reports, and takes them off
  -- the stream; one that fails takes nothing.
  abbrev pub Received : K → Entry → K → Answer → Terminal → Type 0
  Received k e k' a (completed (pos n)) =
      (n ≤ e.length)
      × (n ≤ a.deposited)
      × ((i : ℕ) → i < n → a.bytes i ≡ stream k i)
      × ((i : ℕ) → stream k' i ≡ stream k (n + i))
  Received k e k' a (completed (negsuc _)) = (i : ℕ) → stream k' i ≡ stream k i
  Received k e k' a (failed _) = (i : ℕ) → stream k' i ≡ stream k i

  abbrev pub ReceivesStream : Type 0
  ReceivesStream = (k : K) (e : Entry) → Received k e (ask k e).0 (ask k e).1 (ask k e).1.terminal

  module _ (start : K) (total init : ℕ) where
    -- The first `n` bytes of the buffer are the first of the stream, of which just these are taken off.
    abbrev pub HasReceived : ℕ → K → B → Type 0
    HasReceived n k b =
        Holds io (stream start) total init n b × ((i : ℕ) → stream k i ≡ stream start (n + i))

    abbrev pub HasReceivedSome : K → B → Type 0
    HasReceivedSome k b = (n : ℕ) × (n ≤ total) × HasReceived n k b

    abbrev Kept : ℕ → K × BufResult ℕ B → Type 0
    Kept = Round (of_kind unexpected_eof) total HasReceived (λ e. HasReceivedSome)

    module _ (n m : ℕ) (k k' : K) (buf : B) (le : n ≤ total) (h : HasReceived n k buf) where
      unreceived :
          (f : ℕ → ℕ)
          → ((i : ℕ) → stream k' i ≡ stream k i)
          → HasReceivedSome k' (io.fill n m f buf)
      unreceived f same =
          (n, le, (fill-Holds io (stream start) total init n m f buf h.0, λ i. same i ∙ h.1 i))

      received :
          (f : ℕ → ℕ) (c : ℕ)
          → c ≤ m
          → c ≤ total - n
          → ((i : ℕ) → i < c → f i ≡ stream k i)
          → ((i : ℕ) → stream k' i ≡ stream k (c + i))
          → HasReceived
              (n + c)
              k'
              (io.set_init (max (io.bytes_init (io.fill n m f buf)) (n + c)) (io.fill n m f buf))
      received f c fits room good moved = (
        grow-Holds io (stream start) total init n m f buf h.0 c fits (omega arith)
            (λ i lt. good i lt ∙ h.1 i),
        λ i. moved i ∙ (h.1 (c + i) ∙ ap (stream start) (omega arith)),
      )

      ended_recv-Kept :
          (e : Entry) (a : Answer) (t : Terminal)
          → e.length ≡ total - n
          → m ≡ min a.deposited e.length
          → Received k e k' a t
          → Kept n (
            k',
            ended
                (recv_work io)
                (record { buf = io.fill n m a.bytes buf; buffer_offset = n; remaining = total - n })
                t,
          )
      unfolding complete_recv
      ended_recv-Kept e a (failed error) long min_ r = unreceived a.bytes r
      ended_recv-Kept e a (completed (negsuc c)) long min_ r = unreceived a.bytes r
      ended_recv-Kept e a (completed (pos zero)) long min_ r =
          let fits : leb zero (total - n) ≡ true = ground arith in
          rw fits (n + zero, omega arith, received a.bytes zero (omega arith) (omega arith) r.2 r.3)
      ended_recv-Kept e a (completed (pos (suc c))) long min_ r =
          let room : suc c ≤ total - n = omega (arith, r.0) in
          let fits : leb (suc c) (total - n) ≡ true = ground arith in
          rw fits (omega arith, received a.bytes (suc c) (omega (arith, r.0, r.1)) room r.2 r.3)

    recv_offset-Kept :
        ReceivesStream
        → (n : ℕ) (k : K) (b : B) → n < total
        → HasReceived n k b
        → Kept n (recv_offset ask io k n b)
    unfolding recv_offset
    recv_offset-Kept law n k b below h = elim (Bool-cases (ltb u32_max (total - n))) [
      | inl over ↦ rw (h.0.sized, over) (n, omega arith, h)
      | inr small ↦
          let e : Entry = record {
            opcode = recv;
            position = n;
            length = (total - n) % 2 ^ 32;
            bytes = λ i. io.byte b (n + i);
          } in
          let a : Answer = (ask k e).1 in
          rw (h.0.sized, small)
            (ended_recv-Kept n (min a.deposited ((total - n) % 2 ^ 32)) k (ask k e).0 b
              (omega arith) h e a a.terminal (ground arith) refl (law k e))
    ]

  -- With more fuel than the buffer has bytes, an exact receive ends. If it succeeds, the buffer is full
  -- and holds the first bytes of the stream, which are taken off it; after an error this is so of a
  -- prefix of the buffer. No byte of the stream is lost, repeated or moved.
  pub recv_exact-Receives :
      ReceivesStream
      → (fuel : ℕ) (k : K) (buf : B) → io.bytes_total buf < fuel
      → Ends
          (HasReceived k (io.bytes_total buf) (io.bytes_init buf) (io.bytes_total buf))
          (λ e. HasReceivedSome k (io.bytes_total buf) (io.bytes_init buf))
          (recv_exact ask io fuel k buf)
  unfolding recv_exact
  recv_exact-Receives law fuel k buf enough =
      let total = io.bytes_total buf in
      let init = io.bytes_init buf in
      exact_loop-Ends (of_kind unexpected_eof) (recv_offset ask io) total (HasReceived k total init)
        (λ e. HasReceivedSome k total init) (recv_offset-Kept k total init law) fuel k 0 buf
        (omega arith) (omega arith)
        (
          record {
            sized = refl;
            kept = omega arith;
            initialized = omega arith;
            wanted = λ i lt. absurd (omega arith);
          },
          λ i. ap (stream k) (omega arith),
        )
