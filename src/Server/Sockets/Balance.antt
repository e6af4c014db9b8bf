-- ===== src/Server/Sockets/Balance.antt =====
-- The socket for packets is the only one that `udp_start` leaves open (src/server.c).
use Prim.Native.String.{String}
use kcptun_libev.Base.{
  ◌≡◌, ℕ, Bool, true, false, not, ◌&&◌, ◌||◌, List, Option, none, some, arith, refl, inl, inr,
  Option-cases,
}
use kcptun_libev.Address.{SockAddr}
use kcptun_libev.Conf.{Config, is_set}
use kcptun_libev.Server.Sockets.{close_fd, close_field}
use kcptun_libev.Server.Sockets.Laws.{opened, close_field-opened}
use kcptun_libev.Server.Sockets.Udp.{
  Pkt, UdpCalls, LocalCalls, Bound, udp_init, udp_socket, addr_set_local, bind_part, connect_part,
  rendezvous_at, rendezvous_part, udp_bind, udp_start, udp_stop,
}

-- Besides `base`, what is open is the socket for packets, where there is one.
abbrev Owns : List ℕ → Bound → Type 0
Owns base r = r.fds ≡ opened r.pkt.fd base

udp_socket-Owns :
    (base : List ℕ) (addr : SockAddr) (calls : UdpCalls) (udp : Pkt) (fds : List ℕ)
    → fds ≡ opened udp.fd base
    → Owns base (udp_socket addr calls udp fds)
unfolding udp_socket udp_init
udp_socket-Owns base addr calls udp fds h = ground arith

bind_part-Owns :
    (base : List ℕ) (name : Option String) (calls : UdpCalls) (udp : Pkt) (fds : List ℕ)
    → fds ≡ opened udp.fd base
    → Owns base (bind_part name calls udp fds)
unfolding bind_part
bind_part-Owns base none calls udp fds h = h
bind_part-Owns base (some name) calls udp fds h = elim (Option-cases calls.resolve) [
  | inl e ↦ ground (arith, e, h)
  | inr (addr, e) ↦ ground (arith, e, udp_socket-Owns base addr calls udp fds h)
]

connect_part-Owns :
    (base : List ℕ) (name : Option String) (calls : UdpCalls) (udp : Pkt) (fds : List ℕ)
    → fds ≡ opened udp.fd base
    → Owns base (connect_part name calls udp fds)
unfolding connect_part
connect_part-Owns base none calls udp fds h = h
connect_part-Owns base (some name) calls udp fds h = elim (Option-cases calls.resolve) [
  | inl e ↦ ground (arith, e, h)
  | inr (addr, e) ↦ ground (arith, e, udp_socket-Owns base addr calls udp fds h)
]

-- `addr_set_local` closes what it opens, or opens nothing.
abbrev pub closes : LocalCalls → Bool
closes calls = not (is_set calls.socket) || calls.connect && is_set calls.getsockname

addr_set_local-fds :
    (calls : LocalCalls) (fds : List ℕ) → closes calls ≡ true → (addr_set_local calls fds).1 ≡ fds
unfolding addr_set_local close_fd
addr_set_local-fds calls fds h = ground arith

rendezvous_at-fd :
    (addr : SockAddr) (l : Option SockAddr) (udp : Pkt) → (rendezvous_at addr l udp).fd ≡ udp.fd
rendezvous_at-fd addr none udp = refl
rendezvous_at-fd addr (some laddr) udp = refl

rendezvous_part-Owns :
    (base : List ℕ) (b : Bool) (calls : UdpCalls) (local : LocalCalls) (udp : Pkt) (fds : List ℕ)
    → closes local ≡ true
    → fds ≡ opened udp.fd base
    → Owns base (rendezvous_part b calls local udp fds)
unfolding rendezvous_part
rendezvous_part-Owns base false calls local udp fds n h = h
rendezvous_part-Owns base true calls local udp fds n h = elim (Option-cases calls.resolve) [
  | inl e ↦ ground (arith, e, h)
  | inr (addr, e) ↦
      let r = udp_socket addr calls udp fds in
      ground (
        arith,
        e,
        udp_socket-Owns base addr calls udp fds h,
        addr_set_local-fds local r.fds n,
        rendezvous_at-fd addr (addr_set_local local r.fds).0 r.pkt,
      )
]

udp_stop-fds : (udp : Pkt) (fds : List ℕ) → (udp_stop udp fds).1 ≡ close_field udp.fd fds
unfolding udp_stop close_field
udp_stop-fds udp fds = ground arith

module _ (c : Config) (bind_calls connect_calls rendezvous_calls : UdpCalls) (local : LocalCalls)
    (n : closes local ≡ true) where
  udp_bind-Owns :
      (base : List ℕ) (udp : Pkt) (fds : List ℕ)
      → fds ≡ opened udp.fd base
      → Owns base (udp_bind c bind_calls connect_calls rendezvous_calls local udp fds)
  unfolding udp_bind
  udp_bind-Owns base udp fds h =
      let r = bind_part c.kcp_bind bind_calls udp fds in
      let o = bind_part-Owns base c.kcp_bind bind_calls udp fds h in
      let r2 = connect_part c.kcp_connect connect_calls r.pkt r.fds in
      let o2 = connect_part-Owns base c.kcp_connect connect_calls r.pkt r.fds o in
      ground (
        arith,
        o,
        o2,
        rendezvous_part-Owns base c.mode.rendezvous rendezvous_calls local r2.pkt r2.fds n o2,
      )

  -- Whatever the resolver and the system answer to the start of a server without a socket for packets,
  -- failures at any place included, stopping it leaves the descriptors open that were open before;
  -- where the address of this side is asked for, that has to fail at once or to succeed.
  pub udp_stop-start :
      (udp : Pkt) (fds : List ℕ)
      → udp.fd ≡ none
      → let r = udp_start c bind_calls connect_calls rendezvous_calls local udp fds in
        (udp_stop r.pkt r.fds).1 ≡ fds
  unfolding udp_start
  udp_stop-start udp fds e =
      let r = udp_bind c bind_calls connect_calls rendezvous_calls local udp fds in
      let r2 = udp_start c bind_calls connect_calls rendezvous_calls local udp fds in
      ground (
        arith,
        udp_bind-Owns fds udp fds (rw e refl),
        udp_stop-fds r2.pkt r2.fds,
        close_field-opened r.pkt.fd fds,
      )
