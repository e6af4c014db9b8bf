-- ===== src/Obfs/Events.antt =====
-- What can happen to the obfuscator of a running program, as steps (src/obfs.c): connections that are
-- accepted, what is read from the socket of a context and what can be written to it, the two timers,
-- the resolver, and peers that prove to hold the password.
pub mod Laws
use kcptun_libev.Base.{ℕ, ◌≡◌, ◌≤◌, Bool, true, false, List, Option, none, some, length}
use kcptun_libev.Address.{SockAddr}
use kcptun_libev.Library.{Serialize}
use kcptun_libev.Library.Http.{Http}
use kcptun_libev.Session.Step.{RecvOut, SendOut}
use kcptun_libev.Obfs.{Obfs, ObfsCtx, find_ctx}
use kcptun_libev.Obfs.Packet.Seal.{obfs_ctx_auth}
use kcptun_libev.Obfs.Context.{ObfsWorld, obfs_accept_one, is_startup_limited, obfs_timeout_cb}
use kcptun_libev.Obfs.Context.Laws.{AllSeen}
use kcptun_libev.Obfs.Http.{obfs_server_read_cb, obfs_client_read_cb}
use kcptun_libev.Obfs.Http.Write.{Host, set_obfs, world_of, host_of, Wrote, obfs_ctx_write}
use kcptun_libev.Obfs.Dial.{DialCalls, obfs_redial_cb, obfs_resolve}

-- The state after a callback of the server or of the timer, none where it faults.
abbrev pub wrote_host : {K : Type 0} → Option (Wrote K) → Option (Host K)
wrote_host none = none
wrote_host (some out) = some out.host

abbrev pub world_host : {K : Type 0} → Host K → Option (ObfsWorld K) → Option (Host K)
world_host h none = none
world_host h (some w) = some (host_of h w)

module _ {K : Type 0} (ser : Serialize) (http : Http) where
  -- An event, with what its callback makes of the state: none where it faults. A callback of a context
  -- gets the state that the table holds of it, and no context was seen in the future. Only a server
  -- accepts, only a client dials, and a context that is written to has at most half a buffer. The bit
  -- `in_table` of a context that is accepted, which the code leaves unset, is taken to be 0.
  pub data Event : Host K → Option (Host K) → Type 0 where
    accepted :
        (percent now fd : ℕ) (memory : Bool) (laddr : Option SockAddr) (raddr : SockAddr)
        (h : Host K)
        → h.server.mode.client ≡ false
        → is_startup_limited percent h.obfs ≡ false
        → Event h (
            world_host h
              (obfs_accept_one h.server.mode memory false laddr raddr fd now (world_of h)))
    server_read :
        (time : ℕ) (date : List ℕ) (sends : List SendOut) (memory : List ℕ) (r : RecvOut)
        (ctx : ObfsCtx) (h : Host K)
        → length date ≤ 32
        → find_ctx ctx.raddr h.obfs.contexts ≡ some ctx
        → Event h (wrote_host (obfs_server_read_cb ser http time date sends memory r ctx h))
    client_read :
        (time : ℕ) (r : RecvOut) (ctx : ObfsCtx) (h : Host K)
        → find_ctx ctx.raddr h.obfs.contexts ≡ some ctx
        → Event h (obfs_client_read_cb ser http time r ctx h)
    written :
        (sends : List SendOut) (memory : List ℕ) (ctx : ObfsCtx) (h : Host K)
        → length ctx.wbuf ≤ 2048
        → find_ctx ctx.raddr h.obfs.contexts ≡ some ctx
        → Event h (wrote_host (obfs_ctx_write memory ctx h sends))
    redialled :
        (now : ℕ) (host : List ℕ) (sends : List SendOut) (memory : List ℕ) (calls : DialCalls)
        (addr : Option SockAddr) (h : Host K)
        → length host ≤ 64
        → h.server.mode.client ≡ true
        → Event h (obfs_redial_cb now host sends memory calls addr h)
    resolved : (h : Host K) → Event h (some (obfs_resolve h))
    timed_out :
        (timeout dial_timeout now : ℕ) (h : Host K)
        → AllSeen now h.obfs.contexts
        → Event h
            (world_host h (obfs_timeout_cb h.server.mode timeout dial_timeout now (world_of h)))
    authenticated :
        (sa : SockAddr) (h : Host K) → Event h (some (set_obfs (obfs_ctx_auth true sa h.obfs) h))

  -- Any number of events, the last one last; all of them but perhaps the last have ended.
  pub data Run : Host K → Option (Host K) → Type 0 where
    none_yet : (h : Host K) → Run h (some h)
    then_also :
        (h h' : Host K) (o o' : Option (Host K)) → Run h o → o ≡ some h' → Event h' o' → Run h o'
