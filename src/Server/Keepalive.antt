-- ===== src/Server/Keepalive.antt =====
-- Frames that a server sends on its own (src/server.c, server_ping and udp_rendezvous), and the timer
-- that asks for them (src/event_timer.c, keepalive_cb).
pub mod Laws
use kcptun_libev.Base.{
  ◌≡◌, ℕ, ◌+◌, ◌-◌, ◌%◌, ◌^◌, ◌≤◌, ◌<◌, Bool, true, false, not, ◌&&◌, List, [], ◌∷◌, ◌++◌, Option,
  none, some, length, if◌then◌else◌, ltb, arith, refl, Ends, length-append, Option-cases,
  Bool-cases, inl, inr,
}
use kcptun_libev.Library.{Serialize}
use kcptun_libev.Server.{Server, Frame, ss0_send}
use kcptun_libev.Server.Message.{
  s0msg_ping, s0msg_listen, s0msg_connect, inet6addr_length, inetaddr_write,
}
use kcptun_libev.Server.Message.Inet.{inetaddr_write-wire}

-- The new `repeat` of the timer, none where it is not set again, and the server.
abbrev pub Rearm : Type 0 → Type 0
Rearm K = Option ℕ × Server K

-- How long it is to the limit, counted from an event that may not have been.
abbrev pub remaining : ℕ → ℕ → Option ℕ → Option ℕ
remaining now limit none = none
remaining now limit (some t) = if ltb now (t + limit) then some (t + limit - now) else none

module _ {K : Type 0} (ser : Serialize) where
  -- `time` is what `ev_time` gives.
  unfoldable pub server_ping : ℕ → Server K → Server K
  unfolding ss0_send
  server_ping time s =
      if not s.mode.client
      then s
      else record (ss0_send ser s.kcp_connect s0msg_ping (ser.write_uint32 (time % 2 ^ 32)) s) {
        inflight_ping = some time;
      }

  -- A failed assertion is `none`.
  unfoldable pub udp_rendezvous : ℕ → Server K → Option (Server K)
  unfolding inetaddr_write ss0_send
  udp_rendezvous what s = elim (inetaddr_write inet6addr_length s.rendezvous_local) [
    | none ↦ none
    | some b ↦ some (ss0_send ser s.rendezvous_server what b s)
  ]

  unfoldable pub keepalive_ping : ℕ → ℕ → ℕ → Server K → Rearm K
  unfolding server_ping
  keepalive_ping time keepalive ping_timeout s = elim (remaining s.now keepalive s.last_send_time) [
    | some n ↦ (some n, s)
    | none ↦ (some ping_timeout, server_ping time s)
  ]

  -- From the test of the ping in flight on.
  unfoldable pub keepalive_client : ℕ → ℕ → ℕ → Server K → Rearm K
  unfolding keepalive_ping
  keepalive_client time keepalive ping_timeout s =
      if not s.mode.client then (none, s) else elim (remaining s.now ping_timeout s.inflight_ping) [
        | some n ↦ (some n, s)
        | none ↦ keepalive_ping time keepalive ping_timeout (record s { inflight_ping = none })
      ]

  unfoldable pub keepalive_cb : ℕ → ℕ → ℕ → Server K → Option (Rearm K)
  unfolding keepalive_client udp_rendezvous
  keepalive_cb time keepalive ping_timeout s =
      let listening : Option (Server K) =
        if s.mode.rendezvous && s.mode.server then udp_rendezvous s0msg_listen s else some s in
      elim listening [
        | none ↦ none
        | some s1 ↦
            if s.mode.rendezvous && (s.mode.client && not s.connected)
            then (elim (udp_rendezvous s0msg_connect s1) [
              | none ↦ none
              | some s2 ↦ some (some ping_timeout, s2)
            ])
            else some (keepalive_client time keepalive ping_timeout s1)
      ]
