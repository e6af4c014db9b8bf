-- ===== src/Session/Tcp.antt =====
-- The TCP side of a session (src/event_tcp.c).
pub mod Laws
use mathlib.Core.Bool.{xor}
use kcptun_libev.Base.{
  ℕ, zero, suc, ◌+◌, ◌-◌, ◌%◌, ◌^◌, Bool, true, false, ◌&&◌, ◌||◌, not, List, ◌++◌, none, some,
  length, take, drop, min, if◌then◌else◌, ltb, leb, ◌==◌,
}
use kcptun_libev.Library.{Serialize, Ikcp, Errno, is_transient_error}
use kcptun_libev.Session.{
  State, connected, linger, Session, LinkStats, session_tcp_stop, tlv_header_size, tlv_max_length,
}
use kcptun_libev.Session.Step.{
  World, M, ◌>>=◌, ◌>>◌, pure, modify, reads, deref, check, RecvOut, got, recv_error, SendOut, took,
  send_error, Ret, ok, wait, fail, next_round, sys_recv, sys_send,
}
use kcptun_libev.Session.Kcp.{kcp_cansend, session_kcp_send, session_kcp_close}

abbrev pub is_connected : State → Bool
is_connected connected = true
is_connected _ = false

abbrev pub is_linger : State → Bool
is_linger linger = true
is_linger _ = false

-- `watcher->events` differs: the watcher is stopped and set anew.
unfoldable pub set_io_events : {K : Type 0} → Bool → Bool → Session K → Session K
set_io_events read write s =
    if xor read s.ev_read || xor write s.ev_write
    then record s { io_active = false; ev_read = read; ev_write = write }
    else s

-- `modify_io_events`, with the two bits of `events`.
unfoldable pub modify_io_events : {K : Type 0} → Bool → Bool → M K (Unit {0})
unfolding set_io_events
modify_io_events read write = do
  fd ← deref (λ s. s.fd)
  if not read && not write
      then modify (λ s. record s { io_active = false })
      else modify (λ s. record (set_io_events read write s) { io_active = true })

-- Both the session's and the server's counter.
abbrev pub count_rx : ℕ → LinkStats → LinkStats
count_rx n t = record t { tcp_rx = t.tcp_rx + n }

abbrev pub count_tx : ℕ → LinkStats → LinkStats
count_tx n t = record t { tcp_tx = t.tcp_tx + n }

module _ (ser : Serialize) (lib : Ikcp) where
  open lib use {Kcp}

  unfoldable pub tcp_notify : M Kcp (Unit {0})
  unfolding modify_io_events session_tcp_stop kcp_cansend
  tcp_notify = do
    s ← reads (λ w. w.ss)
    let has_data = ltb s.wbuf_flush s.wbuf_next
    if is_connected s.tcp_state || is_linger s.tcp_state
        then (if is_linger s.tcp_state && not has_data
            then modify session_tcp_stop
            else modify_io_events (kcp_cansend ser lib s) (is_linger s.tcp_state || has_data))
        else pure tt

  -- What `tcp_recv` does with the answer of `recv`.
  unfoldable pub take_received : RecvOut → List ℕ → ℕ → M Kcp Ret
  take_received (recv_error e) payload cap = pure (if is_transient_error e then wait else fail)
  take_received (got bytes) payload cap =
      let bs = take cap bytes in
      let n = length bs in
      if n == 0 then pure fail else (λ w. some (
        ok,
        record w {
          ss = record w.ss { rbuf = some (payload ++ bs); stats = count_rx n w.ss.stats };
          total = count_rx n w.total;
        },
      ))

  -- `size_t cap`, computed with the wrap of 64 bits: some room is kept for a header.
  abbrev pub recv_cap : List ℕ → ℕ
  recv_cap payload = (tlv_max_length - tlv_header_size + 2 ^ 64 - length payload) % 2 ^ 64

  unfoldable pub recv_into : List ℕ → M Kcp Ret
  unfolding sys_recv
  recv_into payload =
      if recv_cap payload == 0
      then pure wait
      else (do r ← sys_recv; take_received r payload (recv_cap payload))

  unfoldable pub tcp_recv : M Kcp Ret
  unfolding kcp_cansend
  tcp_recv = do
    s ← reads (λ w. w.ss)
    if kcp_cansend ser lib s
        then (do payload ← deref (λ s. s.rbuf); recv_into payload)
        else pure wait

  -- The socket is given up and the peer is told.
  unfoldable pub stop_and_close : M Kcp (Unit {0})
  stop_and_close = do modify session_tcp_stop; session_kcp_close ser lib

  -- The loop of `tcp_recv_all`. A round that goes on has used up an answer of `recv`.
  unfoldable pub recv_rounds : ℕ → M Kcp (Unit {0})
  recv_rounds zero w = none
  recv_rounds (suc fuel) w =
      (do
        ret ← tcp_recv
        sent ← session_kcp_send ser lib
        if sent then next_round ret (recv_rounds fuel) stop_and_close else stop_and_close)
        w

  unfoldable pub tcp_recv_all : M Kcp (Unit {0})
  tcp_recv_all w =
      if is_connected w.ss.tcp_state then recv_rounds (suc (length w.recvs)) w else some (tt, w)

  -- What `tcp_send` does with the answer of `send`, for `len` bytes that are left.
  unfoldable pub take_sent : SendOut → List ℕ → ℕ → M Kcp Ret
  take_sent (send_error e) buf len = pure (if is_transient_error e then wait else fail)
  take_sent (took m) buf len =
      let n = min m len in
      if n == 0 then pure wait else (λ w. some (
        if ltb n len then ok else wait,
        record w {
          ss = record w.ss { wbuf_flush = w.ss.wbuf_flush + n; stats = count_tx n w.ss.stats };
          total = count_tx n w.total;
          out = w.out ++ take n (drop w.ss.wbuf_flush buf);
        },
      ))

  unfoldable pub tcp_send : M Kcp Ret
  unfolding sys_send take_sent
  tcp_send = do
    s ← reads (λ w. w.ss)
    check (leb s.wbuf_flush s.wbuf_next)
    let len = s.wbuf_next - s.wbuf_flush
    if len == 0
        then pure wait
        else (do buf ← deref (λ s. s.wbuf); r ← sys_send; take_sent r buf len)

  -- The loop of `tcp_flush`.
  unfoldable pub send_rounds : ℕ → M Kcp (Unit {0})
  send_rounds zero w = none
  send_rounds (suc fuel) w = (do ret ← tcp_send; next_round ret (send_rounds fuel) stop_and_close) w

  unfoldable pub tcp_flush : M Kcp (Unit {0})
  tcp_flush w =
      if is_connected w.ss.tcp_state || is_linger w.ss.tcp_state
      then send_rounds (suc (length w.sends)) w
      else some (tt, w)

  -- `sockerr` is what `socket_get_error` finds.
  unfoldable pub connected_cb : M Kcp (Unit {0})
  unfolding stop_and_close
  connected_cb w = elim w.sockerr [
    | none ↦ some (tt, record w { ss = record w.ss { tcp_state = connected } })
    | some _ ↦ stop_and_close w
  ]
