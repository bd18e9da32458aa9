-- ===== src/Net/Transfers.antt =====
-- Both ends of a connection of src/net.rs.
use nosv.Base.{ℕ, ◌+◌, ◌-◌, ◌<◌, ◌≡◌, some, arith, ap, subst, ◌∙◌}
use nosv.Base.Result.{ok}
use nosv.Io.{IoBufMut, filled}
use nosv.Io.Exact.{Ends}
use nosv.Net.Streams.{Entry, Answer, recv_exact, send_all}
use nosv.Net.Receives.{ReceivesStream, HasReceived, HasReceivedSome, recv_exact-Receives}
use nosv.Net.Sends.{SendsStream, HasSent, HasSentSome, send_all-Sends}

bytes_of : (at n i : ℕ) (bytes old : ℕ → ℕ) → i < n → filled at n bytes old (at + i) ≡ bytes i
bytes_of at n i bytes old below =
    let back : bytes (at + i - at) ≡ bytes i = ap bytes (omega arith) in ground (arith, back)

module _ {S R A B : Type 0} (ask_send : S → Entry → S × Answer) (sender : IoBufMut A) (sent : S → ℕ)
    (out : S → ℕ → ℕ) (ask_recv : R → Entry → R × Answer) (receiver : IoBufMut B)
    (stream : R → ℕ → ℕ) where
  -- What one end sends in full the other receives: when a complete send and an exact receive into a
  -- buffer of the same size both succeed, and the connection brings the bytes that were sent, the buffer
  -- of the receiver holds the bytes of the sender's.
  pub send_all-recv_exact :
      (fuel : ℕ) (s s' : S) (a a' : A) (r r' : R) (b b' : B)
      → SendsStream ask_send sender sent out
      → ReceivesStream ask_recv receiver stream
      → sender.bytes_init a < fuel
      → receiver.bytes_total b ≡ sender.bytes_init a
      → send_all ask_send sender fuel s a ≡ some (s', (ok tt, a'))
      → ((i : ℕ) → i < sender.bytes_init a → stream r i ≡ out s' (sent s + i))
      → recv_exact ask_recv receiver fuel r b ≡ some (r', (ok tt, b'))
      → (i : ℕ) → i < sender.bytes_init a
      → receiver.byte b' i ≡ sender.byte a i
  send_all-recv_exact fuel s s' a a' r r' b b' sends receives enough same was_sent joined
        was_received i below =
      let n = sender.bytes_init a in
      let w : (a' ≡ a) × HasSent ask_send sender sent out s a n s' =
        subst
          (Ends (λ k x. (x ≡ a) × HasSent ask_send sender sent out s a n k)
            (λ e k x. (x ≡ a) × HasSentSome ask_send sender sent out s a k))
          was_sent (send_all-Sends ask_send sender sent out s a sends fuel enough) in
      let total = receiver.bytes_total b in
      let init = receiver.bytes_init b in
      let h : HasReceived ask_recv receiver stream r total init total r' b' =
        subst
          (Ends (HasReceived ask_recv receiver stream r total init total)
            (λ e. HasReceivedSome ask_recv receiver stream r total init))
          was_received
          (recv_exact-Receives ask_recv receiver stream receives fuel r b (omega arith)) in
      h.0.wanted i (omega arith)
      ∙ (joined i below
          ∙ (w.1.1 (sent s + i) ∙ bytes_of (sent s) n i (sender.byte a) (out s) below))
