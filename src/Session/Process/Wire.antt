-- ===== src/Session/Process/Wire.antt =====
-- What goes over the wire: the message header, the payload that a session pushes and its peer
-- hands to the socket, and the headers that the length check was meant to refuse.
use kcptun_libev.Base.{
  ℕ, ◌+◌, ◌-◌, ◌%◌, ◌≤◌, ◌<◌, ◌≡◌, List, [], ◌∷◌, ◌++◌, some, none, length, drop, take, arith,
  append_assoc, length-append, drop-append_at, take-append_at, ap, refl, min,
}
use kcptun_libev.Library.{Serialize, Ikcp}
use kcptun_libev.Session.{connected, tlv_header_size, tlv_max_length}
use kcptun_libev.Session.Step.{World, ok, SendOut, took, Returns}
use kcptun_libev.Session.Kcp.{TlvHeader, tlv_header_write, smsg_push, kcp_send, kcp_push}
use kcptun_libev.Session.Tcp.{tcp_flush, send_rounds, tcp_send}
use kcptun_libev.Session.Process.{tlv_header_read, session_on_msg, finish_msg, run_msg, process_buf}

module _ (ser : Serialize) where
  -- A header whose two fields fit 16 bits, once written, is read back, whatever follows it.
  pub tlv_header_read-write :
      (h : TlvHeader) (rest : List ℕ)
      → h.msg < 65536
      → h.len < 65536
      → tlv_header_read ser (tlv_header_write ser h ++ rest) ≡ h
  unfolding tlv_header_read tlv_header_write
  tlv_header_read-write h rest m l =
      rw
        (
          append_assoc,
          drop-append_at 2 (ser.write_uint16 h.msg) (ser.write_uint16 h.len ++ rest)
              (ser.length-write_uint16 h.msg),
        )
        (ground (
          arith,
          ser.read-write_uint16 h.msg (ser.write_uint16 h.len ++ rest),
          ser.read-write_uint16 h.len rest,
        ))

  pub length-tlv_header_write : (h : TlvHeader) → length (tlv_header_write ser h) ≡ 4
  unfolding tlv_header_write
  length-tlv_header_write h = omega (
    arith,
    length-append (ser.write_uint16 h.msg) (ser.write_uint16 h.len),
    ser.length-write_uint16 h.msg,
    ser.length-write_uint16 h.len,
  )

module _ (ser : Serialize) (lib : Ikcp) where
  open lib use {Kcp}

  -- The message that `kcp_push` makes of a payload.
  abbrev pub push_message : List ℕ → List ℕ
  push_message payload =
      tlv_header_write ser (record { msg = smsg_push; len = tlv_header_size + length payload })
      ++ payload

  -- A SMSG_PUSH whose length does not count its own header is not refused by the length check: on a
  -- connected socket the flush that follows fails its assertion.
  pub process_buf_short_push :
      (buf : List ℕ) (w : World Kcp)
      → 4 ≤ length buf
      → (tlv_header_read ser buf).msg ≡ 1
      → (tlv_header_read ser buf).len < 4
      → w.ss.tcp_state ≡ connected
      → process_buf ser lib buf w ≡ none
  unfolding process_buf run_msg session_on_msg finish_msg tcp_flush send_rounds tcp_send
  process_buf_short_push buf w h m l t = ground arith

  tcp_flush-out :
      (w : World Kcp) (buf : List ℕ) (len n : ℕ) (more : List SendOut)
      → w.ss.tcp_state ≡ connected
      → w.ss.wbuf ≡ some buf
      → w.ss.wbuf_next ≡ w.ss.wbuf_flush + len
      → w.sends ≡ took n ∷ more
      → 0 < len
      → len ≤ n
      → Returns
          (λ _ w'.
            (w'.out ≡ w.out ++ take len (drop w.ss.wbuf_flush buf))
            × (w'.ss.wbuf_flush ≡ w.ss.wbuf_next)
            × (w'.ss.wbuf_next ≡ w.ss.wbuf_next))
          (tcp_flush ser lib w)
  unfolding tcp_flush send_rounds tcp_send
  tcp_flush-out w buf len n more t b e s p l =
      ground (arith, ap (λ (k : ℕ). take k (drop w.ss.wbuf_flush buf)) (min_len w len n e l))
    where
      min_len :
          (w : World Kcp) (len n : ℕ)
          → w.ss.wbuf_next ≡ w.ss.wbuf_flush + len
          → len ≤ n
          → min n (w.ss.wbuf_next - w.ss.wbuf_flush) ≡ len
      min_len w len n e l = omega arith

  -- A session that is connected hands the payload of a message to its socket.
  process_buf-push_message :
      (payload rest : List ℕ) (w : World Kcp) (n : ℕ) {more : List SendOut}
      → 0 < length payload
      → length payload ≤ tlv_max_length - tlv_header_size
      → w.ss.tcp_state ≡ connected
      → w.ss.wbuf ≡ some (push_message payload ++ rest)
      → w.sends ≡ took n ∷ more
      → length payload ≤ n
      → Returns
          (λ ret w'.
            (ret ≡ ok)
            × (w'.out ≡ w.out ++ payload)
            × (w'.ss.wbuf_flush ≡ 4 + length payload)
            × (w'.ss.wbuf_next ≡ 4 + length payload))
          (process_buf ser lib (push_message payload ++ rest) w)
  unfolding process_buf run_msg session_on_msg finish_msg
  process_buf-push_message payload rest w n {more} p q t b s l =
      let hdr : TlvHeader = record { msg = smsg_push; len = tlv_header_size + length payload } in
      let buf = push_message payload ++ rest in
      let e : tlv_header_read ser buf ≡ hdr =
        rw append_assoc
          (tlv_header_read-write ser hdr (payload ++ rest) (omega arith) (omega arith)) in
      let cut : take (length payload) (drop 4 buf) ≡ payload =
        rw
          (
            append_assoc,
            drop-append_at 4 (tlv_header_write ser hdr) (payload ++ rest)
                (length-tlv_header_write ser hdr),
          )
          (take-append_at (length payload) payload rest refl) in
      let w' : World Kcp = record w {
        ss = record w.ss { wbuf_flush = 4; wbuf_next = 4 + length payload };
      } in
      rw e (
        ground (
          arith,
          cut,
          tcp_flush-out w' buf (length payload) n more t b refl s p l,
          length-append (tlv_header_write ser hdr ++ payload) rest,
          length-append (tlv_header_write ser hdr) payload,
          length-tlv_header_write ser hdr,
        ))

  kcp_push-push_message :
      (sender : World Kcp) (payload : List ℕ)
      → sender.ss.rbuf ≡ some payload
      → length payload ≤ tlv_max_length - tlv_header_size
      → kcp_push ser lib sender
        ≡ kcp_send ser lib
            (push_message payload)
            (record sender { ss = record sender.ss { rbuf = some [] } })
  unfolding kcp_push
  kcp_push-push_message sender payload e l =
      let m : (tlv_header_size + length payload) % 65536 ≡ tlv_header_size + length payload =
        omega arith in
      ground (arith, e, m)

  -- Where a sender pushes a payload that is not empty and fits a message, there is one message that it
  -- gives to KCP and empties its buffer; a session that is connected to its own peer, and finds that
  -- message first in what it has received, hands the payload to the socket unchanged, when the
  -- socket takes it at once.
  pub process_buf-kcp_push :
      (sender : World Kcp) (payload rest : List ℕ) (w : World Kcp) (n : ℕ) {more : List SendOut}
      → sender.ss.rbuf ≡ some payload
      → 0 < length payload
      → length payload ≤ tlv_max_length - tlv_header_size
      → w.ss.tcp_state ≡ connected
      → w.sends ≡ took n ∷ more
      → length payload ≤ n
      → (msg : List ℕ) × ((kcp_push ser lib sender
            ≡ kcp_send ser lib msg (record sender { ss = record sender.ss { rbuf = some [] } }))
          × Returns
              (λ ret w'.
                (ret ≡ ok)
                × (w'.out ≡ w.out ++ payload)
                × (w'.ss.wbuf_flush ≡ 4 + length payload)
                × (w'.ss.wbuf_next ≡ 4 + length payload))
              (process_buf ser lib
                (msg ++ rest)
                (record w { ss = record w.ss { wbuf = some (msg ++ rest) } })))
  process_buf-kcp_push sender payload rest w n {more} e p q t s l = (
    push_message payload,
    (
      kcp_push-push_message sender payload e q,
      process_buf-push_message payload rest
          (record w { ss = record w.ss { wbuf = some (push_message payload ++ rest) } }) n
          {more = more} p q t refl s l,
    ),
  )
