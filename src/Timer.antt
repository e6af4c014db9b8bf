-- ===== src/Timer.antt =====
-- The time-out of a session (src/event_timer.c, timeout_filt).
pub mod Expiry
use kcptun_libev.Base.{
  ℕ, ◌+◌, ◌-◌, Bool, true, false, ◌&&◌, not, List, [], ◌∷◌, Option, none, some, if◌then◌else◌, ltb,
}
use kcptun_libev.Library.{Serialize, Ikcp}
use kcptun_libev.Session.{
  State, init, connect, connected, linger, time_wait, session_tcp_stop, session_kcp_stop,
}
use kcptun_libev.Session.Step.{World, M, ◌>>=◌, ◌>>◌, pure, modify}
use kcptun_libev.Session.Kcp.{smsg_keepalive, kcp_sendmsg}
use kcptun_libev.Session.Tcp.{stop_and_close}
use kcptun_libev.Session.Create.{session_free}

-- The limits of the server on the age of a session, in milliseconds.
pub record Timeouts : Type 0 where
  pub dial_timeout : ℕ
  pub session_timeout : ℕ
  pub session_keepalive : ℕ
  pub linger_timeout : ℕ
  pub time_wait_timeout : ℕ

-- `not_seen`: the time since `created`, or since a later event if there was one. Where the clock
-- has gone back the source has a negative number, which passes no limit either.
abbrev pub age : ℕ → ℕ → Option ℕ → ℕ
age now created none = now - created
age now created (some t) = now - t

module _ (ser : Serialize) (lib : Ikcp) (t : Timeouts) where
  open lib use {Kcp}

  unfoldable pub dialling_filt : M Kcp Bool
  dialling_filt w =
      if ltb t.dial_timeout (age w.now w.ss.created none)
      then (stop_and_close ser lib >> pure true) w
      else some (true, w)

  unfoldable pub connected_filt : M Kcp Bool
  unfolding kcp_sendmsg session_tcp_stop session_kcp_stop
  connected_filt w =
      let not_seen = age w.now w.ss.created w.ss.last_recv in
      if ltb t.session_timeout not_seen
      then some (true, record w { ss = session_kcp_stop (session_tcp_stop w.ss) })
      else if not w.ss.is_accepted && ltb t.session_keepalive not_seen
      then (kcp_sendmsg ser lib smsg_keepalive >>= λ _. pure true) w
      else some (true, w)

  unfoldable pub linger_filt : M Kcp Bool
  unfolding session_kcp_stop
  linger_filt w =
      if ltb t.linger_timeout (age w.now w.ss.created w.ss.last_send)
      then some (true, record w { ss = session_kcp_stop w.ss })
      else some (true, w)

  unfoldable pub time_wait_filt : M Kcp Bool
  unfolding session_free
  time_wait_filt w =
      if ltb t.time_wait_timeout (age w.now w.ss.created w.ss.last_reset)
      then some (false, record w { ss = session_free ser lib w.ss })
      else some (true, w)

  -- The result `false` takes the session out of the table.
  unfoldable pub timeout_filt : M Kcp Bool
  timeout_filt w = elim w.ss.kcp_state [
    | init ↦ dialling_filt w
    | connect ↦ dialling_filt w
    | connected ↦ connected_filt w
    | linger ↦ linger_filt w
    | time_wait ↦ time_wait_filt w
  ]
