-- ===== src/Session/Process.antt =====
-- What a session does with the bytes that KCP delivers: the message loop of src/session.c, the
-- callbacks of the idle watcher, the KCP timer (src/event_kcp.c) and the socket (src/event_tcp.c).
pub mod Laws
pub mod Loop
pub mod Wire
pub mod Socket
use kcptun_libev.Base.{
  ℕ, zero, suc, ◌+◌, ◌-◌, ◌%◌, ◌^◌, Bool, true, false, ◌&&◌, ◌||◌, not, List, [], Option, none,
  some, length, drop, if◌then◌else◌, ltb, leb, ◌==◌,
}
use kcptun_libev.Library.{Serialize, Ikcp, Errno, eintr, einprogress}
use kcptun_libev.Address.{SockAddr}
use kcptun_libev.Session.{
  State, init, connect, connected, linger, Session, LinkStats, session_tcp_stop, session_kcp_stop,
  session_tcp_start, tlv_header_size, tlv_max_length, is_set,
}
use kcptun_libev.Session.Step.{
  World, M, ◌>>=◌, ◌>>◌, pure, modify, reads, deref, check, DialOut, no_socket, no_connect, dialled,
  Ret, ok, wait, fail, while_ok,
}
use kcptun_libev.Session.Kcp.{
  TlvHeader, smsg_keepalive, is_driven, kcp_sendmsg, kcp_recv, session_kcp_close,
}
use kcptun_libev.Session.Tcp.{
  is_connected, tcp_notify, tcp_recv_all, tcp_flush, connected_cb, stop_and_close,
}

-- A connection that is under way, or is refused with the descriptor left open.
abbrev in_progress : Errno → Bool
in_progress eintr = true
in_progress einprogress = true
in_progress _ = false

unfoldable pub forward_dial : {K : Type 0} → M K Bool
unfolding session_tcp_start
forward_dial w = elim w.dial [
  | no_socket _ ↦ some (false, w)
  | no_connect err fd ↦
      if in_progress err
      then some (true, record w { ss = session_tcp_start (record w.ss { tcp_state = connect }) fd })
      else some (false, w)
  | dialled fd ↦
      some (true, record w { ss = session_tcp_start (record w.ss { tcp_state = connected }) fd })
]

abbrev pub is_init : State → Bool
is_init init = true
is_init _ = false

module _ (ser : Serialize) where
  unfoldable pub tlv_header_read : List ℕ → TlvHeader
  tlv_header_read d = record { msg = ser.read_uint16 d; len = ser.read_uint16 (drop 2 d) }

-- VBUF_CONSUME, and the two marks reset.
unfoldable pub consume_wbuf : {K : Type 0} → ℕ → M K (Unit {0})
consume_wbuf n = do
  if n == 0 then pure tt else (do
    buf ← deref (λ s. s.wbuf)
    check (leb n (length buf))
    modify (λ s. record s { wbuf = some (drop n buf) }))
  modify (λ s. record s { wbuf_flush = 0; wbuf_next = 0 })

module _ (ser : Serialize) (lib : Ikcp) where
  open lib use {Kcp, ikcp_create, ikcp_wndsize, ikcp_setmtu, ikcp_nodelay, ikcp_flush, ikcp_update}

  -- The cases of the `switch`; SMSG_PUSH does not look at the length, and only the first and the
  -- last of the others answer or dial.
  unfoldable pub on_dial : ℕ → M Kcp Bool
  unfolding forward_dial
  on_dial len w =
      if not (len == tlv_header_size) || not (is_init w.ss.tcp_state)
      then some (false, w)
      else forward_dial w

  unfoldable pub on_eof : ℕ → M Kcp Bool
  on_eof len w =
      if len == tlv_header_size
      then some (
        true,
        record w {
          ss = record w.ss { kcp_state = linger; tcp_state = linger; wbuf_flush = w.ss.wbuf_next };
        },
      )
      else some (false, w)

  unfoldable pub on_keepalive : ℕ → M Kcp Bool
  unfolding kcp_sendmsg
  on_keepalive len w =
      if len == tlv_header_size
      then (if w.ss.is_accepted then kcp_sendmsg ser lib smsg_keepalive w else some (true, w))
      else some (false, w)

  unfoldable pub session_on_msg : TlvHeader → M Kcp Bool
  unfolding on_dial on_eof on_keepalive
  session_on_msg hdr w =
      if hdr.msg == 0
      then on_dial hdr.len w
      else if hdr.msg == 1
      then some (true, record w { ss = record w.ss { wbuf_flush = tlv_header_size } })
      else if hdr.msg == 2
      then on_eof hdr.len w
      else if hdr.msg == 3
      then on_keepalive hdr.len w
      else some (false, w)

  -- What `ss_process` does when `session_on_msg` has returned.
  unfoldable pub finish_msg : Bool → M Kcp Ret
  unfolding consume_wbuf
  finish_msg good = do
    s ← reads (λ w. w.ss)
    if not good
        then pure fail
        else if ltb 0 s.wbuf_flush
        then (do tcp_flush ser lib; pure ok)
        else (do consume_wbuf s.wbuf_next; pure ok)

  unfoldable pub run_msg : TlvHeader → M Kcp Ret
  run_msg hdr = do
    modify (λ s. record s { wbuf_next = hdr.len })
    good ← session_on_msg hdr
    finish_msg good

  -- The part of `ss_process` behind `kcp_recv`: one message of `buf`, if it is there.
  unfoldable pub process_buf : List ℕ → M Kcp Ret
  process_buf buf =
      let hdr = tlv_header_read ser buf in
      if ltb (length buf) tlv_header_size
      then pure wait
      else if ltb hdr.len tlv_header_size && ltb tlv_max_length hdr.len
      then pure fail
      else if ltb (length buf) hdr.len
      then pure wait
      else run_msg hdr

  -- What was flushed to the socket is dropped, and KCP refills the buffer.
  unfoldable pub refill : M Kcp (Unit {0})
  unfolding consume_wbuf kcp_recv
  refill = do
    s ← reads (λ w. w.ss)
    if ltb 0 s.wbuf_flush then consume_wbuf s.wbuf_flush else pure tt
    kcp_recv ser lib

  unfoldable pub ss_process : M Kcp Ret
  ss_process = do
    s ← reads (λ w. w.ss)
    if ltb s.wbuf_flush s.wbuf_next
        then pure wait
        else (do refill; buf ← deref (λ s. s.wbuf); process_buf buf)

  -- The loop of `session_read_cb`.
  unfoldable pub read_rounds : ℕ → M Kcp Ret
  read_rounds zero w = none
  read_rounds (suc fuel) w =
      (if is_connected w.ss.kcp_state
          then (do ret ← ss_process; while_ok ret (read_rounds fuel))
          else pure ok)
        w

  -- Each round but the last two uses up a byte of the buffer or of what KCP holds for it.
  abbrev pub read_fuel : Session Kcp → ℕ
  read_fuel s =
      elim s.wbuf [ none ↦ 0 | some buf ↦ length buf ]
      + elim s.kcp [ none ↦ 0 | some k ↦ length (lib.content k) ]
      + 2

  unfoldable pub read_end : Ret → M Kcp (Unit {0})
  read_end fail = stop_and_close ser lib
  read_end _ = tcp_notify ser lib

  unfoldable pub session_read_cb : M Kcp (Unit {0})
  session_read_cb = do fuel ← reads (λ w. read_fuel w.ss); ret ← read_rounds fuel; read_end ret

  -- The packets that KCP sends are returned, for `kcp_output` to queue.
  unfoldable pub ss_flush_cb : M Kcp (List (List ℕ))
  unfolding tcp_notify
  ss_flush_cb = do
    modify (λ s. record s { flush_active = false })
    s ← reads (λ w. w.ss)
    if is_driven s.kcp_state
        then (do
          k ← deref (λ s. s.kcp)
          let (packets, k') = ikcp_flush k
          modify (λ s. record s { kcp = some k' })
          tcp_notify ser lib
          pure packets)
        else pure []

  -- TSTAMP2MS wraps at 32 bits.
  unfoldable pub kcp_update : M Kcp (List (List ℕ))
  unfolding tcp_notify
  kcp_update = do
    w ← reads (λ w. w)
    if is_driven w.ss.kcp_state
        then (do
          k ← deref (λ s. s.kcp)
          let (packets, k') = ikcp_update k (w.now % 2 ^ 32)
          modify (λ s. record s { kcp = some k' })
          tcp_notify ser lib
          pure packets)
        else pure []

  -- `revents` has EV_READ or EV_WRITE, or both.
  unfoldable pub tcp_socket_cb : Bool → Bool → M Kcp (Unit {0})
  tcp_socket_cb readable writable = do
    s ← reads (λ w. w.ss)
    elim s.tcp_state [ connect ↦ connected_cb ser lib | _ ↦ pure tt ]
    if readable then tcp_recv_all ser lib else pure tt
    if writable then tcp_flush ser lib else pure tt
    s' ← reads (λ w. w.ss)
    if writable && is_connected s'.tcp_state && s'.wbuf_flush == s'.wbuf_next
        then session_read_cb
        else tcp_notify ser lib
