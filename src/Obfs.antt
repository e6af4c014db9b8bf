-- ===== src/Obfs.antt =====
-- The obfuscator (src/obfs.c): KCP packets travel as segments of a TCP connection that was really
-- opened, with the numbers of that connection. The state, its table of contexts, and the packets are
-- here and in the child modules.
pub mod Context
pub mod Filter
pub mod Packet
pub mod Http
pub mod Dial
pub mod Events
use kcptun_libev.Base.{ℕ, Bool, List, [], ◌∷◌, Option, none, some, if◌then◌else◌}
use kcptun_libev.Address.{SockAddr, sa_equals}
use kcptun_libev.Library.Http.{HttpMessage}

-- `struct obfs_stats`
pub record ObfsStats : Type 0 where
  pub pkt_cap : ℕ
  pub pkt_rx : ℕ
  pub pkt_tx : ℕ
  pub byt_cap : ℕ
  pub byt_rx : ℕ
  pub byt_tx : ℕ
  pub byt_drop : ℕ

-- `struct obfs_ctx`. The buffers hold what was received of the request and what is still to be sent of
-- the answer; `http_nxt` is a place in the former, with 0 for NULL, which stands for the start too. Of
-- the watchers there is whether they run, and `ready` tells that the callback for reading has become
-- `obfs_fail_cb`.
pub record ObfsCtx : Type 0 where
  pub laddr : SockAddr
  pub raddr : SockAddr
  pub created : Option ℕ
  pub last_seen : Option ℕ
  pub fd : Option ℕ
  pub in_table : Bool
  pub captured : Bool
  pub authenticated : Bool
  pub http_keepalive : Bool
  pub cap_ecn : Bool
  pub cap_flow : ℕ
  pub cap_seq : ℕ
  pub cap_ack_seq : ℕ
  pub num_ecn : ℕ
  pub num_ece : ℕ
  pub pkt_rx : ℕ
  pub pkt_tx : ℕ
  pub byt_rx : ℕ
  pub byt_tx : ℕ
  pub http_msg : Option HttpMessage
  pub http_nxt : ℕ
  pub ready : Bool
  pub reading : Bool
  pub writing : Bool
  pub rbuf : List ℕ
  pub wbuf : List ℕ

pub data Domain : Type 0 where
  ipv4 ipv6 : Domain

-- `struct obfs`, less its descriptors and its server. `client` is the address of the context that
-- the pointer is to; `redial_active` tells whether the timer runs or is
-- pending, and `redial_wait` what it was set to.
pub record Obfs : Type 0 where
  pub contexts : List ObfsCtx
  pub domain : Domain
  pub bind_addr : SockAddr
  pub num_authenticated : ℕ
  pub client : Option SockAddr
  pub redial_count : ℕ
  pub redial_active : Bool
  pub redial_wait : ℕ
  pub stats : ObfsStats

-- A key of the table is the bytes of the peer's address.
unfoldable pub find_ctx : SockAddr → List ObfsCtx → Option ObfsCtx
find_ctx sa [] = none
find_ctx sa (c ∷ cs) = if sa_equals c.raddr sa then some c else find_ctx sa cs

unfoldable pub update_ctx : SockAddr → ObfsCtx → List ObfsCtx → List ObfsCtx
update_ctx sa c' [] = []
update_ctx sa c' (c ∷ cs) = if sa_equals c.raddr sa then c' ∷ cs else c ∷ update_ctx sa c' cs
