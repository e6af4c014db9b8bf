-- ===== src/Session/Kcp.antt =====
-- The KCP side of a session (src/event_kcp.c, and the closing and sending of src/session.c).
pub mod Laws
use kcptun_libev.Base.{
  ℕ, zero, suc, ◌+◌, ◌-◌, ◌%◌, Bool, true, false, List, [], ◌++◌, none, some, length, if◌then◌else◌,
  ltb, leb, ◌==◌,
}
use kcptun_libev.Library.{Serialize, Ikcp}
use kcptun_libev.Session.{
  State, connect, connected, linger, Session, session_kcp_stop, session_kcp_flush, session_buf_size,
  tlv_header_size,
}
use kcptun_libev.Session.Step.{M, ◌>>=◌, ◌>>◌, pure, modify, reads, deref, check}

-- `enum session_messages`, and `struct tlv_header`
abbrev pub smsg_dial : ℕ
smsg_dial = 0

abbrev pub smsg_push : ℕ
smsg_push = 1

abbrev pub smsg_eof : ℕ
smsg_eof = 2

abbrev pub smsg_keepalive : ℕ
smsg_keepalive = 3

pub record TlvHeader : Type 0 where
  pub msg : ℕ
  pub len : ℕ

-- The states in which a session still sends.
abbrev pub can_close : State → Bool
can_close connect = true
can_close connected = true
can_close _ = false

-- The states in which KCP is still driven.
abbrev pub is_driven : State → Bool
is_driven connect = true
is_driven connected = true
is_driven linger = true
is_driven _ = false

module _ (ser : Serialize) where
  unfoldable pub tlv_header_write : TlvHeader → List ℕ
  tlv_header_write h = ser.write_uint16 h.msg ++ ser.write_uint16 h.len

module _ (ser : Serialize) (lib : Ikcp) where
  open lib use {Kcp, ikcp_send, ikcp_recv, ikcp_waitsnd, ikcp_peeksize, snd_wnd}

  unfoldable pub kcp_cansend : Session Kcp → Bool
  kcp_cansend s = elim s.kcp [ none ↦ false | some k ↦ ltb (ikcp_waitsnd k) (snd_wnd k) ]

  unfoldable pub kcp_canrecv : Session Kcp → Bool
  kcp_canrecv s = elim s.kcp [ none ↦ false | some k ↦ ltb 0 (ikcp_peeksize k) ]

  unfoldable pub kcp_send : List ℕ → M Kcp Bool
  kcp_send buf w = elim w.ss.kcp [
    | none ↦ none
    | some k ↦
        let (sent, k') = ikcp_send k buf in
        if sent
        then some (true, record w { ss = record w.ss { kcp = some k'; last_send = some w.now } })
        else some (false, record w { ss = record w.ss { kcp = some k' } })
  ]

  unfoldable pub kcp_sendmsg : ℕ → M Kcp Bool
  unfolding kcp_send tlv_header_write
  kcp_sendmsg msg = kcp_send (tlv_header_write ser (record { msg = msg; len = tlv_header_size }))

  -- The header goes in front of the payload, which the buffer then no longer counts.
  unfoldable pub kcp_push : M Kcp Bool
  unfolding kcp_send tlv_header_write
  kcp_push = do
    payload ← deref (λ s. s.rbuf)
    check (leb (length payload) (session_buf_size - tlv_header_size))
    let len = tlv_header_size + length payload
    modify (λ s. record s { rbuf = some [] })
    kcp_send (tlv_header_write ser (record { msg = smsg_push; len = len % 65536 }) ++ payload)

  -- The loop of `kcp_recv`; every round but the last stores a byte, so `cap` rounds are enough.
  unfoldable pub recv_loop : ℕ → Kcp → ℕ → List ℕ → List ℕ × Kcp
  recv_loop zero k cap acc = (acc, k)
  recv_loop (suc fuel) k cap acc =
      let (bs, k') = ikcp_recv k cap in
      let rest = recv_loop fuel k' (cap - length bs) (acc ++ bs) in
      if cap == 0 then (acc, k) else if length bs == 0 then (acc, k') else rest

  unfoldable pub kcp_recv : M Kcp (Unit {0})
  unfolding recv_loop
  kcp_recv w = elim w.ss.wbuf [
    | none ↦ none
    | some buf ↦ elim w.ss.kcp [
      | none ↦ none
      | some k ↦
          let cap = session_buf_size - length buf in
          let (bs, k') = recv_loop cap k cap [] in
          let s = record w.ss { kcp = some k' } in
          if length bs == 0
          then some (tt, record w { ss = s })
          else some
              (tt, record w { ss = record s { wbuf = some (buf ++ bs); last_recv = some w.now } })
    ]
  ]

  -- `session_kcp_send` (src/session.c)
  unfoldable pub session_kcp_send : M Kcp Bool
  unfolding kcp_push session_kcp_flush
  session_kcp_send = do
    s ← reads (λ w. w.ss)
    if can_close s.kcp_state
        then (do
          payload ← deref (λ s. s.rbuf)
          if length payload == 0 then pure true else (do
            pushed ← kcp_push
            if pushed
                then (do
                  modify (λ s. if leb 1 s.kcp_flush then session_kcp_flush s else s)
                  pure true)
                else pure false))
        else pure false

  -- `session_kcp_close` (src/session.c)
  unfoldable pub session_kcp_close : M Kcp (Unit {0})
  unfolding kcp_sendmsg session_kcp_stop session_kcp_flush
  session_kcp_close = do
    s ← reads (λ w. w.ss)
    if can_close s.kcp_state
        then (do
          sent ← kcp_sendmsg smsg_eof
          if sent
              then (do
                modify (λ s. record s { kcp_state = linger })
                modify (λ s. if leb 1 s.kcp_flush then session_kcp_flush s else s))
              else modify session_kcp_stop)
        else pure tt
