-- ===== src/Session/Process/Laws.antt =====
-- The message loop over a byte stream that is a row of messages: it never faults, ends within the
-- rounds given, and leaves a valid session.
use kcptun_libev.Base.{
  ℕ, zero, suc, ◌+◌, ◌-◌, ◌≤◌, ◌<◌, ◌≡◌, ◌≢◌, inl, inr, Bool, true, false, Bool-cases, ltb, ltb→lt,
  subst, List, [], ◌++◌, Option, none, some, length, drop, arith, append_assoc, length-append,
  length-drop, length-eq-zero, drop-append_of_le, Option-cases, refl,
}
use kcptun_libev.Library.{Serialize, Ikcp}
use kcptun_libev.Session.{connected, time_wait, Session, session_buf_size}
use kcptun_libev.Session.Step.{World, Returns, Returns-then, Ret, ok}
use kcptun_libev.Session.Valid.{size, held, IsValid, Follows, Keeps}
use kcptun_libev.Session.Kcp.{TlvHeader, recv_loop}
use kcptun_libev.Session.Tcp.{tcp_flush}
use kcptun_libev.Session.Tcp.Laws.{tcp_flush-Keeps}
use kcptun_libev.Session.Process.{tlv_header_read, session_on_msg, finish_msg, refill}

-- The bytes that are still to be read as messages.
abbrev pub bytes : Option (List ℕ) → List ℕ
bytes none = []
bytes (some xs) = xs

module _ (ser : Serialize) where
  -- A row of messages, each with a length that counts its header; the last may be cut off.
  pub data Framed : List ℕ → Type 0 where
    short : (xs : List ℕ) → length xs < 4 → Framed xs
    message :
        (xs : List ℕ)
        → 4 ≤ (tlv_header_read ser xs).len
        → Framed (drop (tlv_header_read ser xs).len xs)
        → Framed xs

  pub tlv_header_read-append :
      (buf rest : List ℕ)
      → 4 ≤ length buf
      → tlv_header_read ser (buf ++ rest) ≡ tlv_header_read ser buf
  unfolding tlv_header_read
  tlv_header_read-append buf rest h = rw (drop-append_of_le 2 buf rest (omega arith)) (
      ground (
        arith,
        ser.read_uint16-append buf rest,
        ser.read_uint16-append (drop 2 buf) rest,
        length-drop 2 buf,
      ))

  Framed-message :
      (xs : List ℕ)
      → Framed xs
      → 4 ≤ length xs
      → (4 ≤ (tlv_header_read ser xs).len) × Framed (drop (tlv_header_read ser xs).len xs)
  Framed-message xs (short _ l) h = absurd (omega arith)
  Framed-message xs (message _ l f) h = (l, f)

  pub Framed-append :
      (buf rest : List ℕ)
      → Framed (buf ++ rest)
      → 4 ≤ length buf
      → (4 ≤ (tlv_header_read ser buf).len)
        × Framed (drop (tlv_header_read ser buf).len (buf ++ rest))
  Framed-append buf rest f h =
      rw (tlv_header_read-append buf rest h) at
        (Framed-message (buf ++ rest) f (omega (arith, length-append buf rest)))

module _ (ser : Serialize) (lib : Ikcp) where
  open lib use {Kcp, content, ikcp_recv, ikcp_recv_fits, content-ikcp_recv, content-ikcp_send}

  -- The loop of `kcp_recv` moves bytes from KCP to the buffer, in order and no more than fit.
  recv_loop-content :
      (fuel : ℕ) (k : Kcp) (cap : ℕ) (acc : List ℕ)
      → let (bs, k') = recv_loop ser lib fuel k cap acc in
        (bs ++ content k' ≡ acc ++ content k) × (length bs ≤ length acc + cap)
  unfolding recv_loop
  recv_loop-content zero k cap acc = (refl, omega arith)
  recv_loop-content (suc fuel) k cap acc =
      let bs = (ikcp_recv k cap).0 in
      let k' = (ikcp_recv k cap).1 in
      ground (
        arith,
        recv_loop-content fuel k' (cap - length bs) (acc ++ bs),
        content-ikcp_recv k cap,
        ikcp_recv_fits k cap,
        append_assoc acc bs (content k'),
        length-append acc bs,
        length-eq-zero bs,
      )

  abbrev pub stream : Session Kcp → List ℕ
  stream s = drop s.wbuf_next (bytes s.wbuf) ++ held content s.kcp

  pub record Refilled (w w' : World Kcp) : Type 0 where
    pub follows : Follows w w'
    pub same_state : w'.ss.kcp_state ≡ w.ss.kcp_state
    pub no_flush : w'.ss.wbuf_flush ≡ 0
    pub no_next : w'.ss.wbuf_next ≡ 0
    pub same_stream : bytes w'.ss.wbuf ++ held content w'.ss.kcp ≡ stream w.ss

  pub refill-Refilled :
      (w : World Kcp)
      → IsValid w.ss
      → w.ss.kcp_state ≡ connected
      → w.ss.wbuf_flush ≡ w.ss.wbuf_next
      → Returns (λ _ w'. Refilled w w') (refill ser lib w)
  unfolding refill
  refill-Refilled w v c f = elim (Option-cases w.ss.kcp) [
    | inl e ↦ ground arith
    | inr (k, ek) ↦ elim (Option-cases w.ss.wbuf) [
      | inl e ↦ ground arith
      | inr (buf, eb) ↦
          let buf' = drop w.ss.wbuf_next buf in
          let cap = session_buf_size - length buf' in
          let bs = (recv_loop ser lib cap k cap []).0 in
          ground (
            arith,
            length-drop w.ss.wbuf_next buf,
            recv_loop-content cap k cap [],
            append_assoc buf' bs (content (recv_loop ser lib cap k cap []).1),
            length-append buf' bs,
            length-eq-zero bs,
          )
    ]
  ]

  -- One message whose length counts its header.
  pub record Taken (w w' : World Kcp) : Type 0 where
    pub follows : Follows w w'
    pub same_wbuf : w'.ss.wbuf ≡ w.ss.wbuf
    pub same_next : w'.ss.wbuf_next ≡ w.ss.wbuf_next
    pub same_held : held content w'.ss.kcp ≡ held content w.ss.kcp
    pub going : w'.ss.kcp_state ≢ time_wait

  pub session_on_msg-Taken :
      (hdr : TlvHeader) (w : World Kcp)
      → IsValid w.ss
      → w.ss.kcp_state ≡ connected
      → w.ss.wbuf_next ≡ hdr.len
      → 4 ≤ hdr.len
      → Returns (λ _ w'. Taken w w') (session_on_msg ser lib hdr w)
  unfolding session_on_msg
  session_on_msg-Taken hdr w v c n h = grind (arith, content-ikcp_send)

  abbrev pub left : Session Kcp → ℕ
  left s = (size s.wbuf - s.wbuf_flush) + length (held content s.kcp)

  pub record Processed (w w' : World Kcp) (ret : Ret) : Type 0 where
    pub follows : Follows w w'
    pub next_framed : ret ≡ ok → w'.ss.kcp_state ≡ connected → Framed ser (stream w'.ss)
    pub less : ret ≡ ok → w'.ss.kcp_state ≡ connected → left w'.ss < left w.ss

  abbrev pub unflushed : World Kcp → World Kcp
  unflushed w = record w { ss = record w.ss { wbuf_flush = 0 } }

  flush-Processed :
      (w w' : World Kcp)
      → IsValid w.ss
      → 4 ≤ w.ss.wbuf_next
      → 0 < w.ss.wbuf_flush
      → (w.ss.kcp_state ≡ connected → Framed ser (stream w.ss))
      → Keeps content w w'
      → Processed (unflushed w) w' ok
  flush-Processed w w' v h p f k = record {
    follows = ground (arith, k.follows);
    next_framed = λ _ c.
        let (was, b, n, _, e) = k.calm c in subst (Framed ser) (same_stream w w' b n e) (f was);
    less = λ _ c. ground (arith, k.calm c, k.follows.valid);
  }
    where
      same_stream :
          (w w' : World Kcp)
          → w'.ss.wbuf ≡ w.ss.wbuf
          → w'.ss.wbuf_next ≡ w.ss.wbuf_next
          → held content w'.ss.kcp ≡ held content w.ss.kcp
          → stream w.ss ≡ stream w'.ss
      same_stream w w' b n e = rw (b, n, e)

  drop-Processed :
      (w : World Kcp) (buf : List ℕ)
      → IsValid w.ss
      → w.ss.wbuf ≡ some buf
      → 4 ≤ w.ss.wbuf_next
      → (w.ss.kcp_state ≡ connected → Framed ser (stream w.ss))
      → Processed
          (unflushed w)
          (record w {
            ss = record w.ss {
              wbuf = some (drop w.ss.wbuf_next buf);
              wbuf_flush = 0;
              wbuf_next = 0;
            };
          })
          ok
  drop-Processed w buf v b h f = record {
    follows = ground (arith, length-drop w.ss.wbuf_next buf);
    next_framed = λ _ c.
        subst (λ o. Framed ser (drop w.ss.wbuf_next (bytes o) ++ held content w.ss.kcp)) b (f c);
    less = λ _ c. ground (arith, length-drop w.ss.wbuf_next buf);
  }

  pub finish_msg-Processed :
      (good : Bool) (w : World Kcp)
      → IsValid w.ss
      → w.ss.kcp_state ≢ time_wait
      → 4 ≤ w.ss.wbuf_next
      → (w.ss.kcp_state ≡ connected → Framed ser (stream w.ss))
      → Returns (λ ret w'. Processed (unflushed w) w' ret) (finish_msg ser lib good w)
  unfolding finish_msg
  finish_msg-Processed false w v a h f = ground arith
  finish_msg-Processed true w v a h f = elim (Bool-cases (ltb 0 w.ss.wbuf_flush)) [
    | inl e ↦ rw e (
        Returns-then (λ _ w'. Keeps content w w') (λ ret w'. Processed (unflushed w) w' ret) _
          (λ _ w' k. flush-Processed w w' v h (omega (arith, ltb→lt 0 w.ss.wbuf_flush e)) f k)
          (tcp_flush ser lib w) (tcp_flush-Keeps ser lib w v))
    | inr e ↦ elim (Option-cases w.ss.wbuf) [
      | inl o ↦ ground arith
      | inr (buf, o) ↦ ground (arith, drop-Processed w buf v o h f)
    ]
  ]
