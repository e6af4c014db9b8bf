-- ===== src/Obfs/Context.antt =====
-- The life of the obfuscator's contexts (src/obfs.c): they are made for connections, replaced, and
-- deleted after a time-out, each with the sessions of its peer.
pub mod Laws
pub mod Accept
pub mod Sane
pub mod Kept
pub mod TimeOut
use kcptun_libev.Base.{
  min, ℕ, ◌+◌, ◌-◌, Bool, true, false, ◌&&◌, ◌||◌, not, List, [], ◌∷◌, ◌++◌, Option, none, some,
  length, if◌then◌else◌, ltb, leb, ◌==◌,
}
use kcptun_libev.Address.{SockAddr, sa_equals}
use kcptun_libev.Conf.{Mode}
use kcptun_libev.Obfs.Packet.Checksum.{nth}
use kcptun_libev.Session.{Session}
use kcptun_libev.Obfs.{Obfs, ObfsCtx, find_ctx, update_ctx}

-- The obfuscator and the sessions of its server.
pub record ObfsWorld (K : Type 0) : Type 0 where
  pub obfs : Obfs
  pub sessions : List (Session K)

-- `table_del` of the entry with the key.
unfoldable pub del_ctx : SockAddr → List ObfsCtx → List ObfsCtx
del_ctx sa [] = []
del_ctx sa (c ∷ cs) = if sa_equals c.raddr sa then cs else c ∷ del_ctx sa cs

-- `table_filter` with `ctx_del_filter`: the sessions of the peer are freed.
unfoldable pub ctx_del_filter : {K : Type 0} → SockAddr → List (Session K) → List (Session K)
ctx_del_filter sa [] = []
ctx_del_filter sa (ss ∷ rest) =
    if sa_equals ss.raddr sa then ctx_del_filter sa rest else ss ∷ ctx_del_filter sa rest

-- What malloc left in the bit `in_table` is `junk`: it is not set.
unfoldable pub obfs_ctx_new : Bool → SockAddr → SockAddr → ObfsCtx
obfs_ctx_new junk laddr raddr = record {
  laddr = laddr;
  raddr = raddr;
  created = none;
  last_seen = none;
  fd = none;
  in_table = junk;
  captured = false;
  authenticated = false;
  http_keepalive = false;
  cap_ecn = false;
  cap_flow = 0;
  cap_seq = 0;
  cap_ack_seq = 0;
  num_ecn = 0;
  num_ece = 0;
  pkt_rx = 0;
  pkt_tx = 0;
  byt_rx = 0;
  byt_tx = 0;
  http_msg = none;
  http_nxt = 0;
  ready = false;
  reading = false;
  writing = false;
  rbuf = [];
  wbuf = [];
}

abbrev pub wait_schedule : List ℕ
wait_schedule = 200 ∷ 2000 ∷ 2000 ∷ 5000 ∷ 5000 ∷ 60000 ∷ 120000 ∷ 300000 ∷ []

-- The entry for the number of redials so far, the last one from there on.
abbrev pub redial_delay : ℕ → ℕ
redial_delay redial_count = nth (min (redial_count - 1) (length wait_schedule - 1)) wait_schedule

-- The timer is started, or its event is fed at once.
unfoldable pub obfs_sched_redial : Mode → Obfs → Obfs
obfs_sched_redial m o = if not m.client || o.redial_active then o else record o {
  client = none;
  redial_active = true;
  redial_wait = if ltb o.redial_count 1 then 0 else redial_delay o.redial_count;
}

abbrev pub is_client : Option SockAddr → SockAddr → Bool
is_client none sa = false
is_client (some c) sa = sa_equals c sa

-- A failed assertion is `none`.
unfoldable pub unauth : ObfsCtx → Obfs → Option Obfs
unauth ctx o =
    if ctx.authenticated
    then (if o.num_authenticated == 0
        then none
        else some (record o { num_authenticated = o.num_authenticated - 1 }))
    else some o

abbrev pub started : ℕ → ℕ → ObfsCtx → ObfsCtx
started now fd ctx = record ctx {
  in_table = true;
  reading = true;
  fd = some fd;
  created = some now;
  last_seen = some now;
}

-- TSTAMP_NIL is -1, in seconds.
unfoldable pub not_seen : ℕ → Option ℕ → ℕ
not_seen now none = now + 1000
not_seen now (some t) = now - t

abbrev pub seen_late : ℕ → Option ℕ → Bool
seen_late now none = false
seen_late now (some t) = ltb now t

abbrev pub expired : ℕ → ℕ → ℕ → ObfsCtx → Bool
expired timeout dial_timeout now ctx =
    if ctx.authenticated
    then leb timeout (not_seen now ctx.last_seen)
    else leb dial_timeout (not_seen now ctx.created)

abbrev pub Filtered : Type 0 → Type 0
Filtered K = Option (List ObfsCtx × ObfsWorld K)

abbrev pub kept : {K : Type 0} → ObfsCtx → Filtered K → Filtered K
kept ctx none = none
kept ctx (some (cs, w)) = some (ctx ∷ cs, w)

module _ {K : Type 0} (m : Mode) where
  abbrev pub forget : ObfsCtx → List (Session K) → Obfs → ObfsWorld K
  forget ctx sessions o =
      let o1 = if is_client o.client ctx.raddr then obfs_sched_redial m o else o in
      record {
        obfs = if ctx.in_table then record o1 { contexts = del_ctx ctx.raddr o1.contexts } else o1;
        sessions = ctx_del_filter ctx.raddr sessions;
      }

  unfoldable pub obfs_ctx_del : ObfsCtx → ObfsWorld K → Option (ObfsWorld K)
  unfolding unauth obfs_sched_redial del_ctx ctx_del_filter
  obfs_ctx_del ctx w = elim (unauth ctx w.obfs) [
    | none ↦ none
    | some o ↦ some (forget ctx w.sessions o)
  ]

  abbrev pub with_contexts : List ObfsCtx → ObfsWorld K → ObfsWorld K
  with_contexts cs w = record w { obfs = record w.obfs { contexts = cs } }

  -- What `table_set` has replaced is deleted.
  unfoldable pub replaced : Option ObfsCtx → ObfsCtx → ObfsWorld K → Option (Bool × ObfsWorld K)
  unfolding update_ctx obfs_ctx_del
  replaced none ctx w = some (true, with_contexts (w.obfs.contexts ++ ctx ∷ []) w)
  replaced (some old) ctx w =
      elim (obfs_ctx_del (record old { in_table = false })
        (with_contexts (update_ctx ctx.raddr ctx w.obfs.contexts) w)) [
          | none ↦ none
          | some w' ↦ some (true, w')
        ]

  unfoldable pub obfs_ctx_start : ℕ → ObfsCtx → ℕ → ObfsWorld K → Option (Bool × ObfsWorld K)
  unfolding find_ctx replaced
  obfs_ctx_start now ctx fd w = elim (find_ctx ctx.raddr w.obfs.contexts) [
    | some old ↦ if m.server then some (false, w) else replaced (some old) (started now fd ctx) w
    | none ↦ replaced none (started now fd ctx) w
  ]

  unfoldable pub start_end : ObfsCtx → Option (Bool × ObfsWorld K) → Option (ObfsWorld K)
  unfolding obfs_ctx_del
  start_end ctx none = none
  start_end ctx (some (true, w)) = some w
  start_end ctx (some (false, w)) = obfs_ctx_del ctx w

  -- `laddr` is what `getsockname` gives. The descriptor is closed where it is not taken.
  unfoldable pub obfs_accept_one :
      Bool → Bool → Option SockAddr → SockAddr → ℕ → ℕ → ObfsWorld K → Option (ObfsWorld K)
  unfolding obfs_ctx_new start_end obfs_ctx_start
  obfs_accept_one memory junk none raddr fd now w = some w
  obfs_accept_one memory junk (some laddr) raddr fd now w =
      if memory
      then (let ctx = obfs_ctx_new junk laddr raddr in start_end ctx (obfs_ctx_start now ctx fd w))
      else some w

  -- Whether the context stays in the table.
  unfoldable pub obfs_ctx_timeout_filt :
      ℕ → ℕ → ℕ → ObfsCtx → ObfsWorld K → Option (Bool × ObfsWorld K)
  unfolding obfs_ctx_del not_seen
  obfs_ctx_timeout_filt timeout dial_timeout now ctx w =
      if seen_late now ctx.last_seen
      then none
      else if expired timeout dial_timeout now ctx
      then (elim (obfs_ctx_del (record ctx { in_table = false }) w) [
        | none ↦ none
        | some w' ↦ some (false, w')
      ])
      else some (true, w)

  -- `table_filter`, which makes the new table while the filter changes the rest of the world.
  unfoldable pub filter_rest :
      (ObfsWorld K → Filtered K) → ObfsCtx → Option (Bool × ObfsWorld K) → Filtered K
  filter_rest next ctx none = none
  filter_rest next ctx (some (true, w)) = kept ctx (next w)
  filter_rest next ctx (some (false, w)) = next w

  unfoldable pub filter_contexts : ℕ → ℕ → ℕ → List ObfsCtx → ObfsWorld K → Filtered K
  unfolding filter_rest obfs_ctx_timeout_filt
  filter_contexts timeout dial_timeout now [] w = some ([], w)
  filter_contexts timeout dial_timeout now (c ∷ cs) w =
      filter_rest (filter_contexts timeout dial_timeout now cs) c
        (obfs_ctx_timeout_filt timeout dial_timeout now c w)

  unfoldable pub obfs_timeout_cb : ℕ → ℕ → ℕ → ObfsWorld K → Option (ObfsWorld K)
  unfolding filter_contexts
  obfs_timeout_cb timeout dial_timeout now w =
      elim (filter_contexts timeout dial_timeout now w.obfs.contexts w) [
        | none ↦ none
        | some (cs, w') ↦ some (with_contexts cs w')
      ]

-- OBFS_MAX_CONTEXTS, OBFS_STARTUP_LIMIT_FULL, OBFS_STARTUP_LIMIT_START and OBFS_STARTUP_LIMIT_RATE;
-- `percent` is what `frand` gives, in hundredths. A difference of unsigned numbers wraps.
unfoldable pub is_startup_limited : ℕ → Obfs → Bool
is_startup_limited percent o =
    let n = length o.contexts in
    let halfopen =
      if ltb n o.num_authenticated
      then n + 18446744073709551616 - o.num_authenticated
      else n - o.num_authenticated in
    if leb 4095 n then true else if leb 60 halfopen then true else leb 10 halfopen && ltb percent 30
