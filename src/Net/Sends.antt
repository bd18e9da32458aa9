-- ===== src/Net/Sends.antt =====
-- The sends of src/net.rs against the bytes that a connection takes.
use nosv.Base.{
  ℕ, zero, suc, ◌+◌, ◌-◌, ◌%◌, ◌^◌, ◌≤◌, ◌<◌, ◌≡◌, arith, refl, true, ltb, leb, subst, ◌∙◌,
  Bool-cases, inl, inr,
}
use nosv.Base.Int.{pos, negsuc}
use nosv.Io.{of_kind, write_zero, BufResult, IoBufMut, Terminal, completed, failed, ended, filled}
use nosv.Io.Exact.{Ends, Round, exact_loop-Ends}
use nosv.Io.Prefix.{more_filled}
use nosv.Net.Streams.{Entry, Answer, send, send_work, complete_send, send_offset, send_all, u32_max}

module _ {K B : Type 0} (ask : K → Entry → K × Answer) (io : IoBufMut B) (sent : K → ℕ)
    (out : K → ℕ → ℕ) where
  -- A send puts the bytes that it reports behind those already sent; one that fails sends nothing.
  abbrev pub Sent : K → Entry → K → Terminal → Type 0
  Sent k e k' (completed (pos n)) =
      (n ≤ e.length)
      × (sent k' ≡ sent k + n)
      × ((j : ℕ) → out k' j ≡ filled (sent k) n e.bytes (out k) j)
  Sent k e k' (completed (negsuc _)) = (sent k' ≡ sent k) × ((j : ℕ) → out k' j ≡ out k j)
  Sent k e k' (failed _) = (sent k' ≡ sent k) × ((j : ℕ) → out k' j ≡ out k j)

  abbrev pub SendsStream : Type 0
  SendsStream = (k : K) (e : Entry) → Sent k e (ask k e).0 (ask k e).1.terminal

  module _ (start : K) (buf : B) where
    -- The first `n` bytes of the buffer, and no others, have been sent.
    abbrev pub HasSent : ℕ → K → Type 0
    HasSent n k =
        (sent k ≡ sent start + n)
        × ((j : ℕ) → out k j ≡ filled (sent start) n (io.byte buf) (out start) j)

    abbrev pub HasSentSome : K → Type 0
    HasSentSome k = (n : ℕ) × (n ≤ io.bytes_init buf) × HasSent n k

    abbrev KeptSend : ℕ → K × BufResult ℕ B → Type 0
    KeptSend =
        Round (of_kind write_zero) (io.bytes_init buf) (λ n k b. (b ≡ buf) × HasSent n k)
          (λ e k b. (b ≡ buf) × HasSentSome k)

    abbrev entry : ℕ → ℕ → Entry
    entry n len = record {
      opcode = send;
      position = n;
      length = len;
      bytes = λ i. io.byte buf (n + i);
    }

    module _ (n len : ℕ) (k k' : K) (h : HasSent n k) where
      more_sent :
          (c : ℕ)
          → sent k' ≡ sent k + c
          → ((j : ℕ) → out k' j ≡ filled (sent k) c (λ i. io.byte buf (n + i)) (out k) j)
          → HasSent (n + c) k'
      more_sent c counted wrote = (
        omega (arith, h.0),
        λ j.
            more_filled (sent start) n c (io.byte buf) (out start) (out k) (out k') j (h.1 j) (
              subst (λ s. out k' j ≡ filled s c (λ i. io.byte buf (n + i)) (out k) j) h.0
                (wrote j)),
      )

      ended_send-Kept :
          (t : Terminal)
          → n < io.bytes_init buf
          → len ≡ io.bytes_init buf - n
          → Sent k (entry n len) k' t
          → KeptSend n (
            k',
            ended
                (send_work io)
                (record { buf = buf; buffer_offset = n; remaining = io.bytes_init buf - n })
                t,
          )
      unfolding complete_send
      ended_send-Kept (failed e) below long w =
          (refl, (n, omega arith, (w.0 ∙ h.0, λ j. w.1 j ∙ h.1 j)))
      ended_send-Kept (completed (negsuc c)) below long w =
          (refl, (n, omega arith, (w.0 ∙ h.0, λ j. w.1 j ∙ h.1 j)))
      ended_send-Kept (completed (pos zero)) below long w =
          let fits : leb zero (io.bytes_init buf - n) ≡ true = ground arith in
          rw fits (refl, (n + zero, omega arith, more_sent zero w.1 w.2))
      ended_send-Kept (completed (pos (suc c))) below long w =
          let fits : leb (suc c) (io.bytes_init buf - n) ≡ true = ground arith in
          rw fits (omega (arith, w.0), (refl, more_sent (suc c) w.1 w.2))

    send_offset-Kept :
        SendsStream
        → (n : ℕ) (k : K) (b : B) → n < io.bytes_init buf
        → (b ≡ buf) × HasSent n k
        → KeptSend n (send_offset ask io k n b)
    unfolding send_offset
    send_offset-Kept law n k b below (same, h) =
        elim (Bool-cases (ltb u32_max (io.bytes_init buf - n))) [
          | inl over ↦ rw (same, over) (refl, (n, omega arith, h))
          | inr small ↦
              let len : ℕ = (io.bytes_init buf - n) % 2 ^ 32 in
              rw (same, small)
                (ended_send-Kept n len k (ask k (entry n len)).0 h (ask k (entry n len)).1.terminal
                  below (ground arith) (law k (entry n len)))
        ]

    -- With more fuel than there are bytes to send, a complete send ends and gives the buffer back as it was.
    -- If it succeeds, the initialized bytes of the buffer have been sent behind what was sent before;
    -- after an error a prefix of them has, and nothing else.
    pub send_all-Sends :
        SendsStream
        → (fuel : ℕ) → io.bytes_init buf < fuel
        → Ends
            (λ k b. (b ≡ buf) × HasSent (io.bytes_init buf) k)
            (λ e k b. (b ≡ buf) × HasSentSome k)
            (send_all ask io fuel start buf)
    unfolding send_all
    send_all-Sends law fuel enough =
        exact_loop-Ends (of_kind write_zero) (send_offset ask io) (io.bytes_init buf)
          (λ n k b. (b ≡ buf) × HasSent n k) (λ e k b. (b ≡ buf) × HasSentSome k)
          (send_offset-Kept law) fuel start 0 buf (omega arith) (omega arith)
          (refl, (omega arith, λ j. ground arith))
