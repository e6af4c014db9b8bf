-- ===== src/Library.antt =====
-- What the program takes from elsewhere: the KCP protocol (contrib/kcp), the byte serialiser and
-- the time and errors of the system. Each is a parameter with the facts that its headers document.
pub mod Concrete
pub mod Http
use Prim.Native.Nat.{ℕ, ◌+◌, ◌≤◌, ◌<◌}
use kcptun_libev.Base.{◌≡◌, Bool, true, false, List, Option, ◌++◌, length}

-- The error numbers that the sources tell apart.
pub data Errno : Type 0 where
  eintr eagain ewouldblock enobufs enomem einprogress econnrefused econnreset other : Errno

-- IS_TRANSIENT_ERROR (src/sockutil.h)
abbrev pub is_transient_error : Errno → Bool
is_transient_error eintr = true
is_transient_error eagain = true
is_transient_error ewouldblock = true
is_transient_error enobufs = true
is_transient_error enomem = true
is_transient_error _ = false

-- utils/serialize.h: integers of 16 and 32 bits as 2 and 4 bytes.
pub record Serialize : Type 0 where
  pub read_uint16 : List ℕ → ℕ
  pub write_uint16 : ℕ → List ℕ
  pub read_uint32 : List ℕ → ℕ
  pub write_uint32 : ℕ → List ℕ
  pub length-write_uint16 : (v : ℕ) → length (write_uint16 v) ≡ 2
  pub length-write_uint32 : (v : ℕ) → length (write_uint32 v) ≡ 4
  pub read_uint16-append :
      (xs ys : List ℕ) → 2 ≤ length xs → read_uint16 (xs ++ ys) ≡ read_uint16 xs
  pub read-write_uint16 :
      (v : ℕ) (rest : List ℕ) → v < 65536 → read_uint16 (write_uint16 v ++ rest) ≡ v
  pub read-write_uint32 :
      (v : ℕ) (rest : List ℕ) → v < 4294967296 → read_uint32 (write_uint32 v ++ rest) ≡ v

-- ikcp.h. A negative result is `false`. `ikcp_recv` gives the bytes that it stored, none where its
-- result is not positive. The packets that `ikcp_flush` and `ikcp_update` hand to the output
-- callback are part of their result; ikcp.c goes on the same way whatever the callback returns.
pub record Ikcp : Type 1 where
  pub Kcp : Type 0
  pub ikcp_create : ℕ → Option Kcp
  pub ikcp_wndsize : Kcp → ℕ → ℕ → Kcp
  pub ikcp_setmtu : Kcp → ℕ → Kcp
  pub ikcp_nodelay : Kcp → ℕ → ℕ → ℕ → ℕ → Kcp
  pub ikcp_send : Kcp → List ℕ → Bool × Kcp
  pub ikcp_recv : Kcp → ℕ → List ℕ × Kcp
  pub ikcp_input : Kcp → List ℕ → Bool × Kcp
  pub ikcp_flush : Kcp → List (List ℕ) × Kcp
  pub ikcp_update : Kcp → ℕ → List (List ℕ) × Kcp
  pub ikcp_waitsnd : Kcp → ℕ
  pub ikcp_peeksize : Kcp → ℕ
  pub snd_wnd : Kcp → ℕ
  pub ikcp_getconv : List ℕ → ℕ
  -- the bytes that are waiting to be received, in order
  pub content : Kcp → List ℕ
  pub ikcp_recv_fits : (k : Kcp) (n : ℕ) → length (ikcp_recv k n).0 ≤ n
  pub content-ikcp_recv :
      (k : Kcp) (n : ℕ) → (ikcp_recv k n).0 ++ content (ikcp_recv k n).1 ≡ content k
  pub content-ikcp_send : (k : Kcp) (bs : List ℕ) → content (ikcp_send k bs).1 ≡ content k
