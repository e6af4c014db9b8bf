-- ===== src/Session/Process/Socket.antt =====
-- The callback of a session's socket, put together from the operations on it.
use kcptun_libev.Base.{◌≡◌, Bool, true, false, ◌&&◌, ◌==◌, arith, refl, sym, subst, if◌then◌else◌}
use kcptun_libev.Library.{Serialize, Ikcp}
use kcptun_libev.Session.{State, init, connect, connected, linger, time_wait}
use kcptun_libev.Session.Step.{World, M, ◌>>◌, pure, Returns, Returns-then, Returns-weaken}
use kcptun_libev.Session.Valid.{IsValid, Follows, Follows-trans, Keeps, Keeps-trans}
use kcptun_libev.Session.Tcp.{is_connected, tcp_recv_all, tcp_flush, tcp_notify, connected_cb}
use kcptun_libev.Session.Tcp.Laws.{
  tcp_recv_all-Keeps, tcp_flush-Keeps, connected_cb-Keeps, tcp_notify-Keeps,
}
use kcptun_libev.Session.Process.{session_read_cb, tcp_socket_cb}
use kcptun_libev.Session.Process.Laws.{Framed, stream}
use kcptun_libev.Session.Process.Loop.{session_read_cb-Follows}

module _ (ser : Serialize) (lib : Ikcp) where
  open lib use {Kcp, content}

  Keeps-self : (w : World Kcp) → IsValid w.ss → Keeps content w w
  Keeps-self w v = ground arith

  -- A step `m` after `w'` and what follows it, in terms of where all began.
  then_Follows :
      (w w' : World Kcp) (m k : M Kcp (Unit {0}))
      → Keeps content w w'
      → Returns (λ _ w''. Keeps content w' w'') (m w')
      → ((w'' : World Kcp) → Keeps content w w'' → Returns (λ _ w3. Follows w w3) (k w''))
      → Returns (λ _ w3. Follows w w3) ((m >> k) w')
  then_Follows w w' m k p r f =
      Returns-then (λ _ w''. Keeps content w' w'') (λ _ w3. Follows w w3) (λ _. k)
        (λ _ w'' q. f w'' (Keeps-trans content w w' w'' p q)) (m w') r

  dial_end-Keeps :
      (state : State) (w : World Kcp)
      → IsValid w.ss
      → state ≡ w.ss.tcp_state
      → Returns
          (λ _ w'. Keeps content w w')
          ((elim state as (λ _. M Kcp (Unit {0})) [
            | init ↦ pure tt
            | connect ↦ connected_cb ser lib
            | connected ↦ pure tt
            | linger ↦ pure tt
            | time_wait ↦ pure tt
          ])
            w)
  dial_end-Keeps init w v e = Keeps-self w v
  dial_end-Keeps connect w v e = connected_cb-Keeps ser lib w v (sym e)
  dial_end-Keeps connected w v e = Keeps-self w v
  dial_end-Keeps linger w v e = Keeps-self w v
  dial_end-Keeps time_wait w v e = Keeps-self w v

  if-Keeps :
      (b : Bool) (m : M Kcp (Unit {0})) (w : World Kcp)
      → IsValid w.ss
      → Returns (λ _ w'. Keeps content w w') (m w)
      → Returns (λ _ w'. Keeps content w w') ((if b then m else pure tt) w)
  if-Keeps true m w v k = k
  if-Keeps false m w v k = Keeps-self w v

  stream-Keeps :
      (w w' : World Kcp)
      → Keeps content w w'
      → w'.ss.kcp_state ≡ connected
      → stream ser lib w'.ss ≡ stream ser lib w.ss
  stream-Keeps w w' k c = let (_, b, n, _, h) = k.calm c in ground (arith, b, n, h)

  -- The last step: more is read when all has been flushed.
  read_more-Follows :
      (b : Bool) (w : World Kcp)
      → IsValid w.ss
      → (w.ss.kcp_state ≡ connected → Framed ser (stream ser lib w.ss))
      → Returns
          (λ _ w'. Follows w w')
          ((if b then session_read_cb ser lib else tcp_notify ser lib) w)
  read_more-Follows true w v f = session_read_cb-Follows ser lib w v f
  read_more-Follows false w v f =
      Returns-weaken (λ _ w'. Keeps content w w') (λ _ w'. Follows w w') (λ _ w' k. k.follows)
        (tcp_notify ser lib w) (tcp_notify-Keeps ser lib w v)

  -- On a valid session whose received bytes are, while it is connected, a row of messages each at
  -- least as long as its header, the socket's callback returns, whether the socket can be read or
  -- written and however it answers: nothing faults, and the session left is valid and no further
  -- from its end.
  pub tcp_socket_cb-Follows :
      (readable writable : Bool) (w : World Kcp)
      → IsValid w.ss
      → (w.ss.kcp_state ≡ connected → Framed ser (stream ser lib w.ss))
      → Returns (λ _ w'. Follows w w') (tcp_socket_cb ser lib readable writable w)
  unfolding tcp_socket_cb
  tcp_socket_cb-Follows readable writable w v f =
      let dial : M Kcp (Unit {0}) = elim w.ss.tcp_state as (λ _. M Kcp (Unit {0})) [
        | init ↦ pure tt
        | connect ↦ connected_cb ser lib
        | connected ↦ pure tt
        | linger ↦ pure tt
        | time_wait ↦ pure tt
      ] in
      let read : M Kcp (Unit {0}) = if readable then tcp_recv_all ser lib else pure tt in
      let write : M Kcp (Unit {0}) = if writable then tcp_flush ser lib else pure tt in
      let more : World Kcp → Bool =
        λ w3. writable && is_connected w3.ss.tcp_state && w3.ss.wbuf_flush == w3.ss.wbuf_next in
      let last : M Kcp (Unit {0}) =
        λ w3. (if more w3 then session_read_cb ser lib else tcp_notify ser lib) w3 in
      then_Follows w w dial (read >> (write >> last)) (Keeps-self w v)
        (dial_end-Keeps w.ss.tcp_state w v refl)
        (λ w1 k1.
          then_Follows w w1 read (write >> last) k1
            (if-Keeps readable (tcp_recv_all ser lib) w1 k1.follows.valid
              (tcp_recv_all-Keeps ser lib w1 k1.follows.valid))
            (λ w2 k2.
              then_Follows w w2 write last k2
                (if-Keeps writable (tcp_flush ser lib) w2 k2.follows.valid
                  (tcp_flush-Keeps ser lib w2 k2.follows.valid))
                (λ w3 k3.
                  Returns-weaken (λ _ w4. Follows w3 w4) (λ _ w4. Follows w w4)
                    (λ _ w4 q. Follows-trans k3.follows q) (last w3)
                    (read_more-Follows (more w3) w3 k3.follows.valid (λ c.
                      let c' = (k3.calm c).0 in
                      subst (Framed ser) (sym (stream-Keeps w w3 k3 c)) (f c'))))))
