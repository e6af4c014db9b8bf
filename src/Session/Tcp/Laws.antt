-- ===== src/Session/Tcp/Laws.antt =====
-- The socket's side of a session never faults, ends within the rounds given, and keeps the
-- session valid.
use kcptun_libev.Base.{
  ℕ, ◌+◌, ◌-◌, take, List, some, zero, suc, ◌≤◌, ◌<◌, ◌≡◌, ◌⊎◌, true, false, if◌then◌else◌, length,
  arith, length-append, length-take, Bool-cases, ◌==◌, ◌≢◌, ◌∙◌, Option-cases, inl, inr, subst,
}
use kcptun_libev.Library.{Serialize, Ikcp, eagain}
use kcptun_libev.Session.{
  connect, connected, linger, session_tcp_stop, tlv_max_length, tlv_header_size,
}
use kcptun_libev.Session.Step.{
  World, RecvOut, got, recv_error, Returns, Returns-then, Returns-weaken, sys_recv, Ret, ok,
  next_round,
}
use kcptun_libev.Session.Valid.{size, IsValid, Keeps, Keeps-trans, Keeps-Returns, next_round-Keeps}
use kcptun_libev.Session.Kcp.{session_kcp_send, session_kcp_close}
use kcptun_libev.Session.Kcp.Laws.{session_kcp_send-Keeps}
use kcptun_libev.Session.Tcp.{
  tcp_notify, take_received, recv_cap, recv_into, tcp_recv, recv_rounds, tcp_recv_all,
  stop_and_close, tcp_send, send_rounds, tcp_flush, connected_cb,
}

module _ (ser : Serialize) (lib : Ikcp) where
  open lib use {Kcp, content}

  pub stop_and_close-Keeps :
      (w : World Kcp)
      → IsValid w.ss
      → Returns (λ _ w'. Keeps content w w') (stop_and_close ser lib w)
  unfolding stop_and_close session_tcp_stop session_kcp_close
  stop_and_close-Keeps w v = ground arith

  pub tcp_notify-Keeps :
      (w : World Kcp) → IsValid w.ss → Returns (λ _ w'. Keeps content w w') (tcp_notify ser lib w)
  unfolding tcp_notify
  tcp_notify-Keeps w v = ground arith

  abbrev Received : World Kcp → Ret → World Kcp → Type 0
  Received w ret w' = Keeps content w w' × (ret ≡ ok → suc (length w'.recvs) ≤ length w.recvs)

  take_received-Received :
      (r : RecvOut) (payload : List ℕ) (cap : ℕ) (w : World Kcp)
      → IsValid w.ss
      → w.ss.rbuf ≡ some payload
      → length payload + cap ≤ tlv_max_length - tlv_header_size
      → Returns
          (λ ret w'. Keeps content w w' × (ret ≡ ok → r ≢ recv_error eagain))
          (take_received ser lib r payload cap w)
  unfolding take_received
  take_received-Received (recv_error e) payload cap w v h c = ground arith
  take_received-Received (got bytes) payload cap w v h c =
      ground (arith, length-append payload (take cap bytes), length-take cap bytes)

  -- An answer that was used up, or none at all.
  abbrev Answered : World Kcp → RecvOut → World Kcp → Type 0
  Answered w r w' =
      Keeps content w w'
      × (w'.ss.rbuf ≡ w.ss.rbuf)
      × ((suc (length w'.recvs) ≤ length w.recvs) ⊎ (r ≡ recv_error eagain))

  sys_recv-Answered : (w : World Kcp) → IsValid w.ss → Returns (Answered w) (sys_recv w)
  unfolding sys_recv
  sys_recv-Answered w v = ground arith

  recv_into-Received :
      (payload : List ℕ) (w : World Kcp)
      → IsValid w.ss
      → w.ss.rbuf ≡ some payload
      → length payload ≤ tlv_max_length - tlv_header_size
      → Returns (Received w) (recv_into ser lib payload w)
  unfolding recv_into
  recv_into-Received payload w v h c = elim (Bool-cases (recv_cap ser lib payload == 0)) [
    | inl full ↦ ground arith
    | inr room ↦ rw room (
        Returns-then (Answered w) (Received w) _
          (λ r w' a.
            Returns-weaken (λ ret w''. Keeps content w' w'' × (ret ≡ ok → r ≢ recv_error eagain))
              (Received w)
              (λ ret w'' k. (
                Keeps-trans content w w' w'' a.0 k.0,
                λ e. elim a.2 [
                  | inl p ↦ omega (arith, k.0.follows.recvs_le)
                  | inr q ↦ absurd (k.1 e q)
                ],
              ))
              (take_received ser lib r payload (recv_cap ser lib payload) w')
              (take_received-Received r payload (recv_cap ser lib payload) w' a.0.follows.valid
                (a.1 ∙ h) (omega arith)))
          (sys_recv w) (sys_recv-Answered w v))
  ]

  tcp_recv-Received : (w : World Kcp) → IsValid w.ss → Returns (Received w) (tcp_recv ser lib w)
  unfolding tcp_recv
  tcp_recv-Received w v = elim (Option-cases w.ss.rbuf) [
    | inl e ↦ ground arith
    | inr (payload, e) ↦ ground (
      arith,
      recv_into-Received payload w v e
          (subst (λ b. size b ≤ tlv_max_length - tlv_header_size) e v.rbuf_fits),
    )
  ]

  -- A socket that is open for sending.
  abbrev IsOpen : World Kcp → Type 0
  IsOpen w = (w.ss.tcp_state ≡ connected) ⊎ (w.ss.tcp_state ≡ linger)

  abbrev Sent : World Kcp → Ret → World Kcp → Type 0
  Sent w ret w' =
      Keeps content w w' × IsOpen w' × (ret ≡ ok → suc (length w'.sends) ≤ length w.sends)

  tcp_send-Sent : (w : World Kcp) → IsValid w.ss → IsOpen w → Returns (Sent w) (tcp_send ser lib w)
  unfolding tcp_send
  tcp_send-Sent w v o = ground arith

  recv_rounds-Keeps :
      (fuel : ℕ) (w : World Kcp)
      → length w.recvs < fuel
      → IsValid w.ss
      → Returns (λ _ w'. Keeps content w w') (recv_rounds ser lib fuel w)
  unfolding recv_rounds
  recv_rounds-Keeps zero w h v = elim h [ ]
  recv_rounds-Keeps (suc fuel) w h v =
      Returns-then (Received w) (λ _ w'. Keeps content w w') _
        (λ ret w' r.
          Returns-then (λ _ w''. Keeps content w' w'') (λ _ w''. Keeps content w w'') _
            (λ sent w'' k.
              let q = Keeps-trans content w w' w'' r.0 k in
              elim sent
                as (λ b.
                  Returns (λ _ w₃. Keeps content w w₃)
                    ((if b
                        then next_round ret (recv_rounds ser lib fuel) (stop_and_close ser lib)
                        else stop_and_close ser lib)
                      w'')) [
                        | true ↦
                            next_round-Keeps content q ret (recv_rounds ser lib fuel)
                              (stop_and_close ser lib)
                              (λ e.
                                recv_rounds-Keeps fuel w''
                                  (omega (arith, r.1 e, k.follows.recvs_le)) k.follows.valid)
                              (stop_and_close-Keeps w'' k.follows.valid)
                        | false ↦
                            Keeps-Returns content q (stop_and_close ser lib w'')
                              (stop_and_close-Keeps w'' k.follows.valid)
                      ])
            (session_kcp_send ser lib w') (session_kcp_send-Keeps ser lib w' r.0.follows.valid))
        (tcp_recv ser lib w) (tcp_recv-Received w v)

  send_rounds-Keeps :
      (fuel : ℕ) (w : World Kcp)
      → length w.sends < fuel
      → IsValid w.ss
      → IsOpen w
      → Returns (λ _ w'. Keeps content w w') (send_rounds ser lib fuel w)
  unfolding send_rounds
  send_rounds-Keeps zero w h v o = elim h [ ]
  send_rounds-Keeps (suc fuel) w h v o =
      Returns-then (Sent w) (λ _ w'. Keeps content w w') _
        (λ ret w' s.
          next_round-Keeps content s.0 ret (send_rounds ser lib fuel) (stop_and_close ser lib)
            (λ e. send_rounds-Keeps fuel w' (omega (arith, s.2 e)) s.0.follows.valid s.1)
            (stop_and_close-Keeps w' s.0.follows.valid))
        (tcp_send ser lib w) (tcp_send-Sent w v o)

  -- However the socket answers, a valid session that reads it until it has no more does not fault
  -- or run out of rounds, is valid afterwards and no further from its end, and keeps what it has
  -- received from KCP unless it leaves the connected state.
  pub tcp_recv_all-Keeps :
      (w : World Kcp) → IsValid w.ss → Returns (λ _ w'. Keeps content w w') (tcp_recv_all ser lib w)
  unfolding tcp_recv_all
  tcp_recv_all-Keeps w v = ground (arith, recv_rounds-Keeps (suc (length w.recvs)) w)

  -- However the socket answers, a valid session that writes to it does not fault or run out of
  -- rounds, is valid afterwards and no further from its end, and keeps what it has received from
  -- KCP unless it leaves the connected state.
  pub tcp_flush-Keeps :
      (w : World Kcp) → IsValid w.ss → Returns (λ _ w'. Keeps content w w') (tcp_flush ser lib w)
  unfolding tcp_flush
  tcp_flush-Keeps w v = ground (arith, send_rounds-Keeps (suc (length w.sends)) w)

  -- Whether the connection was made or has failed, a valid session that was connecting stays
  -- valid, and keeps what it has received from KCP unless it leaves the connected state.
  pub connected_cb-Keeps :
      (w : World Kcp)
      → IsValid w.ss
      → w.ss.tcp_state ≡ connect
      → Returns (λ _ w'. Keeps content w w') (connected_cb ser lib w)
  unfolding connected_cb session_tcp_stop session_kcp_close
  connected_cb-Keeps w v c = ground arith
