-- ===== src/Obfs/Dial.antt =====
-- A client's connection to its server (src/obfs.c, obfs_ctx_dial, obfs_redial_cb and obfs_resolve).
pub mod Laws
use kcptun_libev.Base.{
  ℕ, ◌+◌, Bool, true, false, not, List, ◌++◌, Option, none, some, if◌then◌else◌,
}
use kcptun_libev.Address.{SockAddr}
use kcptun_libev.Library.{Errno, eintr, einprogress}
use kcptun_libev.Session.Step.{SendOut}
use kcptun_libev.Obfs.{Obfs, ObfsCtx}
use kcptun_libev.Obfs.Context.{ObfsWorld, obfs_ctx_new, obfs_sched_redial, started, obfs_ctx_start}
use kcptun_libev.Obfs.Http.Write.{Host, codes, set_obfs, world_of, host_of, Wrote, obfs_ctx_write}

-- How the calls of the system in `obfs_ctx_dial` fare. `junk` is what malloc left in the bit of a
-- context that is not set.
pub record DialCalls : Type 0 where
  pub socket : Option ℕ
  pub nonblock : Bool
  pub memory : Bool
  pub junk : Bool
  pub connect : Option Errno
  pub getsockname : Option SockAddr

-- The connection need not be there yet.
abbrev pub connecting : Option Errno → Bool
connecting none = true
connecting (some eintr) = true
connecting (some einprogress) = true
connecting (some _) = false

-- `host` is what `format_sa` makes of the address.
abbrev pub dial_request : List ℕ → List ℕ
dial_request host =
    codes "GET /generate_204 HTTP/1.1\r\nHost: "
    ++ host
    ++ codes "\r\nUser-Agent: curl/7.81.0\r\nAccept: */*\r\n\r\n"

-- The address that the filter is for; its program goes to the kernel.
abbrev pub obfs_bind : SockAddr → Obfs → Obfs
obfs_bind sa o = record o { bind_addr = sa }

-- The result, what was sent, and the state.
abbrev pub Dialled : Type 0 → Type 0
Dialled K = Option (Bool × Wrote K)

abbrev pub undialled : {K : Type 0} → Host K → Dialled K
undialled h = some (false, record { sent = List.[]; host = h })

abbrev pub dialled : {K : Type 0} → Option (Wrote K) → Dialled K
dialled none = none
dialled (some r) = some (true, r)

abbrev pub redial_end : {K : Type 0} → SockAddr → Dialled K → Option (Host K)
redial_end sa none = none
redial_end sa (some (false, r)) = some r.host
redial_end sa (some (true, r)) =
    some (record r.host { server = record r.host.server { kcp_connect = sa } })

module _ {K : Type 0} (now : ℕ) (host : List ℕ) (sends : List SendOut) (memory : List ℕ) where
  -- From `obfs->client = ctx` on.
  unfoldable pub dial_started : ObfsCtx → Host K → Option (Bool × ObfsWorld K) → Dialled K
  unfolding obfs_ctx_write
  dial_started ctx h none = none
  dial_started ctx h (some (false, w)) = undialled (host_of h w)
  dial_started ctx h (some (true, w)) =
      let h1 = host_of h w in
      dialled (
        obfs_ctx_write memory (record ctx { wbuf = dial_request host; http_keepalive = true })
          (set_obfs (record h1.obfs { client = some ctx.raddr }) h1) sends)

  unfoldable pub dial_named : Bool → ℕ → SockAddr → Option SockAddr → Host K → Dialled K
  unfolding obfs_ctx_new obfs_ctx_start dial_started
  dial_named junk fd sa none h = undialled h
  dial_named junk fd sa (some laddr) h =
      let h1 = set_obfs (obfs_bind laddr h.obfs) h in
      let ctx = obfs_ctx_new junk laddr sa in
      dial_started (started now fd ctx) h1 (obfs_ctx_start h.server.mode now ctx fd (world_of h1))

  unfoldable pub dial_socket : DialCalls → SockAddr → Option ℕ → Host K → Dialled K
  unfolding dial_named
  dial_socket calls sa none h = undialled h
  dial_socket calls sa (some fd) h =
      if not calls.nonblock
      then undialled h
      else if not calls.memory
      then undialled h
      else if not (connecting calls.connect)
      then undialled h
      else dial_named calls.junk fd sa calls.getsockname h

  -- A failed assertion is `none`.
  unfoldable pub obfs_ctx_dial : DialCalls → SockAddr → Host K → Dialled K
  unfolding dial_socket
  obfs_ctx_dial calls sa h =
      if not h.server.mode.client then none else dial_socket calls sa calls.socket h

  -- What follows the test of the client; the addresses are those that were resolved.
  unfoldable pub redial : DialCalls → Option SockAddr → Host K → Option (Host K)
  unfolding obfs_ctx_dial
  redial calls none h = some h
  redial calls (some sa) h = redial_end sa (obfs_ctx_dial calls sa h)

  -- The timer has fired, so it does not run any more.
  unfoldable pub obfs_redial_cb : DialCalls → Option SockAddr → Host K → Option (Host K)
  unfolding redial
  obfs_redial_cb calls addr h =
      let fired = record h.obfs { redial_active = false } in
      let again = set_obfs (record fired { redial_count = h.obfs.redial_count + 1 }) h in
      elim h.obfs.client [ some sa ↦ some (set_obfs fired h) | none ↦ redial calls addr again ]

-- `obfs_bind` with no address only renews the filter.
unfoldable pub obfs_resolve : {K : Type 0} → Host K → Host K
unfolding obfs_sched_redial
obfs_resolve h =
    if h.server.mode.server
    then h
    else if h.server.mode.client
    then set_obfs (obfs_sched_redial h.server.mode h.obfs) h
    else h
