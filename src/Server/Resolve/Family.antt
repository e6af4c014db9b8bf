-- ===== src/Server/Resolve/Family.antt =====
-- A socket for packets that was bound has a family (src/server.c, udp_bind).
use Prim.Native.String.{String}
use kcptun_libev.Base.{
  ◌≡◌, ℕ, Bool, true, false, ◌||◌, List, Option, none, some, arith, refl, inl, inr, Option-cases,
}
use kcptun_libev.Address.{SockAddr}
use kcptun_libev.Conf.{Config, is_set}
use kcptun_libev.Server.Sockets.Udp.{
  Pkt, UdpCalls, LocalCalls, udp_init, udp_socket, addr_set_local, bind_part, connect_part,
  rendezvous_at, rendezvous_part, udp_bind,
}
use kcptun_libev.Server.Resolve.{ResolveCalls}

-- The family is set once, and stays set.
udp_socket-domain :
    (addr : SockAddr) (calls : UdpCalls) (udp : Pkt) (fds : List ℕ)
    → is_set (udp_socket addr calls udp fds).pkt.domain ≡ true
unfolding udp_socket udp_init
udp_socket-domain addr calls udp fds = ground arith

-- A part that went well has set the family, or was not wanted and left the socket alone.
bind_part-domain :
    (name : Option String) (calls : UdpCalls) (udp : Pkt) (fds : List ℕ)
    → let r = bind_part name calls udp fds in
      r.ok ≡ true → (is_set name || is_set udp.domain) ≡ is_set r.pkt.domain
unfolding bind_part
bind_part-domain none calls udp fds h = refl
bind_part-domain (some name) calls udp fds h = elim (Option-cases calls.resolve) [
  | inl e ↦ ground (arith, e, h)
  | inr (addr, e) ↦ ground (arith, e, h, udp_socket-domain addr calls udp fds)
]

connect_part-domain :
    (name : Option String) (calls : UdpCalls) (udp : Pkt) (fds : List ℕ)
    → let r = connect_part name calls udp fds in
      r.ok ≡ true → (is_set name || is_set udp.domain) ≡ is_set r.pkt.domain
unfolding connect_part
connect_part-domain none calls udp fds h = refl
connect_part-domain (some name) calls udp fds h = elim (Option-cases calls.resolve) [
  | inl e ↦ ground (arith, e, h)
  | inr (addr, e) ↦ ground (arith, e, h, udp_socket-domain addr calls udp fds)
]

rendezvous_at-domain :
    (addr : SockAddr) (l : Option SockAddr) (udp : Pkt)
    → (rendezvous_at addr l udp).domain ≡ udp.domain
rendezvous_at-domain addr none udp = refl
rendezvous_at-domain addr (some laddr) udp = refl

rendezvous_part-domain :
    (b : Bool) (calls : UdpCalls) (local : LocalCalls) (udp : Pkt) (fds : List ℕ)
    → let r = rendezvous_part b calls local udp fds in
      r.ok ≡ true → (b || is_set udp.domain) ≡ is_set r.pkt.domain
unfolding rendezvous_part
rendezvous_part-domain false calls local udp fds h = refl
rendezvous_part-domain true calls local udp fds h = elim (Option-cases calls.resolve) [
  | inl e ↦ ground (arith, e, h)
  | inr (addr, e) ↦
      let r = udp_socket addr calls udp fds in
      ground (
        arith,
        e,
        h,
        udp_socket-domain addr calls udp fds,
        rendezvous_at-domain addr (addr_set_local local r.fds).0 r.pkt,
      )
]

-- Packets have somewhere to go.
abbrev pub addressed : Config → Bool
addressed c = is_set c.kcp_bind || is_set c.kcp_connect || c.mode.rendezvous

pub udp_bind-domain :
    (c : Config) (calls : ResolveCalls) (udp : Pkt) (fds : List ℕ)
    → let r =
        udp_bind c calls.bind_calls calls.connect_calls calls.rendezvous_calls calls.local udp
          fds in
      r.ok ≡ true → addressed c ≡ true → is_set r.pkt.domain ≡ true
unfolding udp_bind
udp_bind-domain c calls udp fds e a =
    let r = bind_part c.kcp_bind calls.bind_calls udp fds in
    let r2 = connect_part c.kcp_connect calls.connect_calls r.pkt r.fds in
    ground (
      arith,
      e,
      a,
      bind_part-domain c.kcp_bind calls.bind_calls udp fds,
      connect_part-domain c.kcp_connect calls.connect_calls r.pkt r.fds,
      rendezvous_part-domain c.mode.rendezvous calls.rendezvous_calls calls.local r2.pkt r2.fds,
    )
