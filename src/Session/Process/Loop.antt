-- ===== src/Session/Process/Loop.antt =====
-- The message loop of a session over a row of messages: it never faults, ends within the rounds
-- given, and leaves a valid session (`ss_process` and `session_read_cb` of src/session.c).
use kcptun_libev.Base.{
  ℕ, zero, suc, ◌+◌, ◌≤◌, ◌<◌, ◌≡◌, inl, inr, Bool-cases, ltb, List, ◌++◌, some, length, ap, sym,
  refl, Option, none, length-append, length-drop, ◌∙◌, drop, arith, subst, drop-append_of_le,
  Option-cases,
}
use kcptun_libev.Library.{Serialize, Ikcp}
use kcptun_libev.Session.{connected}
use kcptun_libev.Session.Step.{
  World, Returns, Returns-then, Returns-weaken, deref_lem, M, Ret, ok, wait, fail, while_ok,
}
use kcptun_libev.Session.Valid.{size, held, IsValid, Follows, Follows-trans, Keeps}
use kcptun_libev.Session.Kcp.{TlvHeader}
use kcptun_libev.Session.Tcp.Laws.{tcp_notify-Keeps, stop_and_close-Keeps}
use kcptun_libev.Session.Tcp.{is_connected}
use kcptun_libev.Session.Process.{
  tlv_header_read, session_on_msg, finish_msg, run_msg, refill, process_buf, ss_process,
  read_rounds, session_read_cb, read_fuel, read_end,
}
use kcptun_libev.Session.Process.Laws.{
  Framed, Framed-append, stream, bytes, left, Refilled, refill-Refilled, Taken,
  session_on_msg-Taken, Processed, unflushed, finish_msg-Processed,
}

size-bytes : (o : Option (List ℕ)) → size o ≡ length (bytes o)
size-bytes none = refl
size-bytes (some xs) = refl

module _ (ser : Serialize) (lib : Ikcp) where
  open lib use {Kcp, content}

  run_msg-Processed :
      (hdr : TlvHeader) (buf : List ℕ) (w : World Kcp)
      → IsValid w.ss
      → w.ss.kcp_state ≡ connected
      → w.ss.wbuf ≡ some buf
      → w.ss.wbuf_flush ≡ 0
      → 4 ≤ hdr.len
      → hdr.len ≤ length buf
      → Framed ser (drop hdr.len buf ++ held content w.ss.kcp)
      → Returns (λ ret w'. Processed ser lib w w' ret) (run_msg ser lib hdr w)
  unfolding run_msg
  run_msg-Processed hdr buf w v c b f h l fr =
      let w₁ = record w { ss = record w.ss { wbuf_next = hdr.len } } in
      Returns-then (λ _ w'. Taken ser lib w₁ w') (λ ret w'. Processed ser lib w w' ret) _
        (λ good w₂ t.
          Returns-weaken (λ ret w'. Processed ser lib (unflushed ser lib w₂) w' ret)
            (λ ret w'. Processed ser lib w w' ret)
            (λ ret w₃ p. record {
              follows = record {
                valid = p.follows.valid;
                forward = omega (arith, t.follows.forward, p.follows.forward);
                same_conv = p.follows.same_conv ∙ t.follows.same_conv;
                same_peer = p.follows.same_peer ∙ t.follows.same_peer;
                recvs_le = omega (arith, t.follows.recvs_le, p.follows.recvs_le);
                sends_le = omega (arith, t.follows.sends_le, p.follows.sends_le);
              };
              next_framed = p.next_framed;
              less = λ e k. omega (arith, p.less e k, ap size t.same_wbuf, ap length t.same_held);
            })
            (finish_msg ser lib good w₂)
            (finish_msg-Processed ser lib good w₂ t.follows.valid t.going
              (omega (arith, t.same_next)) (λ _. rw (t.same_next, t.same_wbuf, b, t.same_held) fr)))
        (session_on_msg ser lib hdr w₁)
        (session_on_msg-Taken ser lib hdr w₁ (ground arith) c (ground arith) h)

  process_buf-Processed :
      (buf : List ℕ) (w : World Kcp)
      → IsValid w.ss
      → w.ss.kcp_state ≡ connected
      → w.ss.wbuf ≡ some buf
      → w.ss.wbuf_flush ≡ 0
      → Framed ser (buf ++ held content w.ss.kcp)
      → Returns (λ ret w'. Processed ser lib w w' ret) (process_buf ser lib buf w)
  unfolding process_buf
  process_buf-Processed buf w v c b f fr = elim (Bool-cases (ltb (length buf) 4)) [
    | inl e ↦ ground arith
    | inr e ↦
        let (h, fr') = Framed-append ser buf (held content w.ss.kcp) fr (ground arith) in
        let hdr = tlv_header_read ser buf in
        elim (Bool-cases (ltb (length buf) hdr.len)) [
          | inl cut ↦ ground arith
          | inr whole ↦
              let l : hdr.len ≤ length buf = ground arith in
              ground (
                arith,
                run_msg-Processed hdr buf w v c b f h l
                    (rw (drop-append_of_le hdr.len buf (held content w.ss.kcp) l) at fr'),
              )
        ]
  ]

  -- The bytes that are left for the loop; a session in step is between two messages.
  record InStep (w : World Kcp) : Type 0 where
    valid : IsValid w.ss
    framed : w.ss.kcp_state ≡ connected → Framed ser (stream ser lib w.ss)

  Processed-after :
      {w w₁ w' : World Kcp} {ret : Ret}
      → Follows w w₁
      → left ser lib w₁.ss ≤ left ser lib w.ss
      → Processed ser lib w₁ w' ret
      → Processed ser lib w w' ret
  Processed-after f l p = record {
    follows = Follows-trans f p.follows;
    next_framed = p.next_framed;
    less = λ e k. omega (arith, p.less e k);
  }

  left-Refilled :
      (w w₁ : World Kcp)
      → w.ss.wbuf_flush ≡ w.ss.wbuf_next
      → Refilled ser lib w w₁
      → left ser lib w₁.ss ≡ left ser lib w.ss
  left-Refilled w w₁ f r = omega (
    arith,
    size-bytes w.ss.wbuf,
    size-bytes w₁.ss.wbuf,
    length-append (bytes w₁.ss.wbuf) (held content w₁.ss.kcp),
    length-append (drop w.ss.wbuf_next (bytes w.ss.wbuf)) (held content w.ss.kcp),
    length-drop w.ss.wbuf_next (bytes w.ss.wbuf),
    ap length r.same_stream,
  )

  ss_process-Processed :
      (w : World Kcp)
      → InStep w
      → w.ss.kcp_state ≡ connected
      → Returns (λ ret w'. Processed ser lib w w' ret) (ss_process ser lib w)
  unfolding ss_process
  ss_process-Processed w v c = elim (Bool-cases (ltb w.ss.wbuf_flush w.ss.wbuf_next)) [
    | inl busy ↦ ground (arith, v.valid)
    | inr done ↦
        let even : w.ss.wbuf_flush ≡ w.ss.wbuf_next = ground (arith, v.valid) in
        rw done (
          Returns-then (λ _ w'. Refilled ser lib w w') (λ ret w'. Processed ser lib w w' ret) _
            (λ _ w₁ r. elim (Option-cases w₁.ss.wbuf) [
              | inl o ↦ ground arith
              | inr (buf, o) ↦
                  subst (Returns (λ ret w'. Processed ser lib w w' ret))
                    (sym (deref_lem (λ s. s.wbuf) (process_buf ser lib) w₁ o))
                    (Returns-weaken (λ ret w'. Processed ser lib w₁ w' ret)
                      (λ ret w'. Processed ser lib w w' ret)
                      (λ ret w' p.
                        Processed-after r.follows (omega (arith, left-Refilled w w₁ even r)) p)
                      (process_buf ser lib buf w₁)
                      (process_buf-Processed buf w₁ r.follows.valid (r.same_state ∙ c) o r.no_flush
                        (subst (λ b. Framed ser (bytes b ++ held content w₁.ss.kcp)) o
                          (subst (Framed ser) (sym r.same_stream) (v.framed c)))))
            ])
            (refill ser lib w) (refill-Refilled ser lib w v.valid c even))
  ]

  Follows-self : (w : World Kcp) → IsValid w.ss → Follows w w
  Follows-self w v = ground arith

  while_ok-Follows :
      {w w' : World Kcp} (ret : Ret) (more : M Kcp Ret)
      → Follows w w'
      → (ret ≡ ok → Returns (λ _ w''. Follows w' w'') (more w'))
      → Returns (λ _ w''. Follows w w'') (while_ok ret more w')
  while_ok-Follows {w} {w'} ok more f m =
      Returns-weaken (λ _ w''. Follows w' w'') (λ _ w''. Follows w w'')
        (λ _ w'' q. Follows-trans f q) (more w') (m refl)
  while_ok-Follows wait more f m = f
  while_ok-Follows fail more f m = f

  read_rounds-Follows :
      (fuel : ℕ) (w : World Kcp)
      → InStep w
      → 0 < fuel
      → (w.ss.kcp_state ≡ connected → left ser lib w.ss + 1 < fuel)
      → Returns (λ _ w'. Follows w w') (read_rounds ser lib fuel w)
  unfolding read_rounds
  read_rounds-Follows zero w v z h = elim z [ ]
  read_rounds-Follows (suc fuel) w v z h = elim (Bool-cases (is_connected w.ss.kcp_state)) [
    | inl c ↦
        let c' : w.ss.kcp_state ≡ connected = ground arith in
        rw c (
          Returns-then (λ ret w'. Processed ser lib w w' ret) (λ _ w'. Follows w w') _
            (λ ret w' p. while_ok-Follows ret (read_rounds ser lib fuel) p.follows (λ e.
              read_rounds-Follows fuel w'
                (record { valid = p.follows.valid; framed = p.next_framed e }) (omega (arith, h c'))
                (λ k. omega (arith, h c', p.less e k))))
            (ss_process ser lib w) (ss_process-Processed w v c'))
    | inr d ↦ rw d (Follows-self w v.valid)
  ]

  read_end-Keeps :
      (ret : Ret) (w : World Kcp)
      → IsValid w.ss
      → Returns (λ _ w'. Keeps content w w') (read_end ser lib ret w)
  unfolding read_end
  read_end-Keeps fail w v = stop_and_close-Keeps ser lib w v
  read_end-Keeps ok w v = tcp_notify-Keeps ser lib w v
  read_end-Keeps wait w v = tcp_notify-Keeps ser lib w v

  -- On a valid session whose received bytes are, while it is connected, a row of messages each at
  -- least as long as its header, the callback returns: it neither fails an assertion, nor uses a
  -- freed buffer, nor runs out of the rounds given. The session that it leaves is valid and no
  -- further from its end.
  pub session_read_cb-Follows :
      (w : World Kcp)
      → IsValid w.ss
      → (w.ss.kcp_state ≡ connected → Framed ser (stream ser lib w.ss))
      → Returns (λ _ w'. Follows w w') (session_read_cb ser lib w)
  unfolding session_read_cb
  session_read_cb-Follows w v f =
      Returns-then (λ _ w'. Follows w w') (λ _ w'. Follows w w') _
        (λ ret w' q.
          Returns-weaken (λ _ w''. Keeps content w' w'') (λ _ w''. Follows w w'')
            (λ _ w'' k. Follows-trans q k.follows) (read_end ser lib ret w')
            (read_end-Keeps ret w' q.valid))
        (read_rounds ser lib (read_fuel ser lib w.ss) w)
        (read_rounds-Follows (read_fuel ser lib w.ss) w (record { valid = v; framed = f })
          (omega arith) (λ c. ground arith))
