-- ===== src/Server/Message.antt =====
-- The messages outside any session (src/session.c, session 0): pings, resets, and the rendezvous of
-- a client and a server behind address translators.
pub mod Inet
pub mod Laws
pub mod Reset
use kcptun_libev.Base.{
  ℕ, ◌+◌, ◌-◌, ◌%◌, ◌^◌, ◌/◌, Bool, true, false, ◌&&◌, ◌||◌, not, List, [], ◌∷◌, ◌++◌, Option, none,
  some, length, take, drop, if◌then◌else◌, ltb, leb, ◌==◌,
}
use kcptun_libev.Library.{Serialize}
use kcptun_libev.Address.{SockAddr, inet, inet6, all_zero, bytes_eq}
use kcptun_libev.Session.{time_wait, Session, session_tcp_stop, session_kcp_stop}
use kcptun_libev.Server.{Server, Frame, table_find, table_update, ss0_send}

-- `enum session0_messages`
abbrev pub s0msg_ping : ℕ
s0msg_ping = 0

abbrev pub s0msg_pong : ℕ
s0msg_pong = 1

abbrev pub s0msg_reset : ℕ
s0msg_reset = 2

abbrev pub s0msg_listen : ℕ
s0msg_listen = 3

abbrev pub s0msg_connect : ℕ
s0msg_connect = 4

abbrev pub s0msg_punch : ℕ
s0msg_punch = 5

abbrev pub session0_header_size : ℕ
session0_header_size = 6

abbrev pub inetaddr_length : ℕ
inetaddr_length = 7

abbrev pub inet6addr_length : ℕ
inet6addr_length = 19

-- `none` where the result is 0. The address is stored on success only.
unfoldable pub inetaddr_read : List ℕ → Option (SockAddr × ℕ)
inetaddr_read [] = none
inetaddr_read (addrtype ∷ p) =
    if addrtype == 0
    then (if ltb (length p + 1) inetaddr_length
        then none
        else some (inet (take 4 p) (take 2 (drop 4 p)), inetaddr_length))
    else if addrtype == 1
    then (if ltb (length p + 1) inet6addr_length
        then none
        else some (inet6 (take 16 p) (take 2 (drop 16 p)) 0 0, inet6addr_length))
    else none

-- The bytes written to a buffer of `n`; `none` where the result is 0.
unfoldable pub inetaddr_write : ℕ → SockAddr → Option (List ℕ)
inetaddr_write n (inet a p) = if ltb n inetaddr_length then none else some (0 ∷ a ++ p)
inetaddr_write n (inet6 a p _ _) = if ltb n inet6addr_length then none else some (1 ∷ a ++ p)

-- Two addresses, in a buffer that two of the longer kind fill.
unfoldable pub inetaddr_write2 : SockAddr → SockAddr → Option (List ℕ)
unfolding inetaddr_write
inetaddr_write2 sa sb = elim (inetaddr_write (inet6addr_length + inet6addr_length) sa) [
  | none ↦ none
  | some b ↦ elim (inetaddr_write (inet6addr_length + inet6addr_length - length b) sb) [
    | none ↦ none
    | some b' ↦ some (b ++ b')
  ]
]

-- The bits of an address that the source masks are those of its first bytes.
abbrev pub first : List ℕ → ℕ
first [] = 0
first (x ∷ _) = x

abbrev pub second : List ℕ → ℕ
second (_ ∷ y ∷ _) = y
second _ = 0

-- IN6_IS_ADDR_LOOPBACK
abbrev pub in6_loopback : List ℕ
in6_loopback = 0 ∷ 0 ∷ 0 ∷ 0 ∷ 0 ∷ 0 ∷ 0 ∷ 0 ∷ 0 ∷ 0 ∷ 0 ∷ 0 ∷ 0 ∷ 0 ∷ 0 ∷ 1 ∷ []

unfoldable pub is_punch_addr : SockAddr → Bool
is_punch_addr (inet a p) =
    not (all_zero a) && not (first a == 255) && not (first a / 16 == 14) && not (all_zero p)
is_punch_addr (inet6 a p _ _) =
    not (all_zero a)
    && not (bytes_eq a in6_loopback)
    && not (first a == 254 && second a / 64 == 2)
    && not (first a == 255)
    && not (all_zero p)

-- `msgbuf`
abbrev pub body : Frame → List ℕ
body msg = drop session0_header_size msg.bytes

abbrev pub too_short : Frame → Bool
too_short msg = ltb (length msg.bytes) (session0_header_size + 4)

abbrev pub Handler : Type 0 → Type 0
Handler K = Server K → Frame → Bool × Server K

module _ {K : Type 0} (ser : Serialize) where
  unfoldable pub ss0_reset : SockAddr → ℕ → Server K → Server K
  ss0_reset sa conv s = ss0_send ser sa s0msg_reset (ser.write_uint32 conv) s

  unfoldable pub ss0_on_ping : Handler K
  ss0_on_ping s msg = if too_short msg then (false, s) else (
    true,
    ss0_send ser msg.addr s0msg_pong (ser.write_uint32 (ser.read_uint32 (body msg))) s,
  )

  -- The round trip time goes to the log only.
  unfoldable pub ss0_on_pong : Handler K
  ss0_on_pong s msg = if too_short msg then (false, s) else (
    true,
    (if s.mode.rendezvous && s.mode.client && not s.connected
        then record s { kcp_connect = msg.addr; connected = true; inflight_ping = none }
        else record s { inflight_ping = none }),
  )

  unfoldable pub ss0_on_reset : Handler K
  unfolding table_find table_update session_tcp_stop session_kcp_stop
  ss0_on_reset s msg =
      if too_short msg
      then (false, s)
      else (let conv = ser.read_uint32 (body msg) in
          elim (table_find conv msg.addr s.sessions) [
            | none ↦ (true, s)
            | some ss ↦ elim ss.kcp_state [
              | time_wait ↦ (true, s)
              | _ ↦ (
                true,
                record s {
                  sessions =
                      table_update conv msg.addr (session_kcp_stop (session_tcp_stop ss))
                        s.sessions;
                },
              )
            ]
          ])

  unfoldable pub ss0_on_listen : Handler K
  ss0_on_listen s msg = elim (inetaddr_read (body msg)) [
    | none ↦ (false, s)
    | some (sa, _) ↦
        (true, record s { server_addr0 = sa; server_addr1 = msg.addr; listened = true })
  ]

  -- The addresses of either side are sent to the other.
  unfoldable pub notify : SockAddr → SockAddr → SockAddr → Server K → Option (Server K)
  notify to sa sb s = elim (inetaddr_write2 sa sb) [
    | none ↦ none
    | some b ↦ some (ss0_send ser to s0msg_punch b s)
  ]

  unfoldable pub introduce : SockAddr → Handler K
  unfolding notify
  introduce sa s msg = elim (notify s.server_addr1 sa msg.addr s) [
    | none ↦ (false, s)
    | some s' ↦ elim (notify msg.addr s.server_addr0 s.server_addr1 s') [
      | none ↦ (false, s')
      | some s'' ↦ (true, s'')
    ]
  ]

  unfoldable pub ss0_on_connect : Handler K
  unfolding introduce
  ss0_on_connect s msg = elim (inetaddr_read (body msg)) [
    | none ↦ (false, s)
    | some (sa, _) ↦ if s.listened then introduce sa s msg else (true, s)
  ]

  -- TSTAMP2MS wraps at 32 bits.
  unfoldable pub ping_addr : SockAddr → Server K → Server K
  ping_addr sa s =
      if is_punch_addr sa
      then ss0_send ser sa s0msg_ping (ser.write_uint32 (s.now % 2 ^ 32)) s
      else s

  unfoldable pub ss0_on_punch : Handler K
  unfolding ping_addr
  ss0_on_punch s msg = elim (inetaddr_read (body msg)) [
    | none ↦ (false, s)
    | some (sa, n) ↦ elim (inetaddr_read (drop n (body msg))) [
      | none ↦ (false, s)
      | some (sb, _) ↦ (true, ping_addr sb (ping_addr sa s))
    ]
  ]

  -- `ss0_handler`; a message that is not handled is only logged.
  unfoldable pub session0 : Server K → Frame → Server K
  session0 s msg =
      let what = ser.read_uint16 (drop 4 msg.bytes) in
      if ltb (length msg.bytes) session0_header_size
      then s
      else if what == 0
      then (ss0_on_ping s msg).1
      else if what == 1
      then (ss0_on_pong s msg).1
      else if what == 2
      then (ss0_on_reset s msg).1
      else if what == 3
      then (ss0_on_listen s msg).1
      else if what == 4
      then (ss0_on_connect s msg).1
      else if what == 5
      then (ss0_on_punch s msg).1
      else s
