-- ===== src/Obfs/Http/Write.antt =====
-- Sending what a context has to say (src/obfs.c, obfs_ctx_write), and the obfuscator with its server.
use Prim.Native.Char.{code}
use Prim.Native.String.{String}
use kcptun_libev.Base.{
  ℕ, zero, suc, ◌+◌, ◌-◌, true, false, not, List, [], ◌∷◌, ◌++◌, Option, none, some, length, take,
  drop, min, if◌then◌else◌, ltb,
}
use kcptun_libev.Library.{Errno, is_transient_error}
use kcptun_libev.Session.Step.{SendOut, took, send_error}
use kcptun_libev.Server.{Server}
use kcptun_libev.Obfs.{Obfs, ObfsCtx, update_ctx}
use kcptun_libev.Obfs.Context.{ObfsWorld, obfs_ctx_del}
use kcptun_libev.Obfs.Http.Parse.{obfs_max_request}

-- The code points of a text, which are its bytes.
abbrev pub codes : String → List ℕ
codes String.[] = []
codes (String.◌∷◌ c s) = code c ∷ codes s

-- The obfuscator and its server, to which each has a pointer.
pub record Host (K : Type 0) : Type 0 where
  pub obfs : Obfs
  pub server : Server K

abbrev pub set_obfs : {K : Type 0} → Obfs → Host K → Host K
set_obfs o h = record h { obfs = o }

abbrev pub set_server : {K : Type 0} → Server K → Host K → Host K
set_server s h = record h { server = s }

abbrev pub world_of : {K : Type 0} → Host K → ObfsWorld K
world_of h = record { obfs = h.obfs; sessions = h.server.sessions }

abbrev pub host_of : {K : Type 0} → Host K → ObfsWorld K → Host K
host_of h w = record { obfs = w.obfs; server = record h.server { sessions = w.sessions } }

-- A context that is changed through its pointer.
unfoldable pub keep_ctx : {K : Type 0} → ObfsCtx → Host K → Host K
unfolding update_ctx
keep_ctx ctx h = set_obfs (record h.obfs { contexts = update_ctx ctx.raddr ctx h.obfs.contexts }) h

-- `obfs_ctx_del`, and `obfs_ctx_free` which leaves nothing of the context.
unfoldable pub drop_ctx : {K : Type 0} → ObfsCtx → Host K → Option (Host K)
unfolding obfs_ctx_del
drop_ctx ctx h = elim (obfs_ctx_del h.server.mode ctx (world_of h)) [
  | none ↦ none
  | some w ↦ some (host_of h w)
]

-- How the loop around `send` ends: after so many bytes, by their number or since the call would
-- block, or with an error that stays. A list of answers that is used up stands for a call that would
-- block.
pub data SendEnd : Type 0 where
  after failed : ℕ → SendEnd

abbrev pub count_error : Errno → ℕ → SendEnd
count_error e nbsend = if is_transient_error e then after nbsend else failed nbsend

unfoldable pub send_loop : List SendOut → ℕ → ℕ → SendEnd
send_loop [] len nbsend = after nbsend
send_loop (r ∷ rs) zero nbsend = after nbsend
send_loop (send_error e ∷ rs) (suc len) nbsend = count_error e nbsend
send_loop (took n ∷ rs) (suc len) nbsend =
    let m = min n (suc len) in send_loop rs (suc len - m) (nbsend + m)

-- What was sent, and the state.
pub record Wrote (K : Type 0) : Type 0 where
  pub sent : List ℕ
  pub host : Host K

abbrev pub wrote : {K : Type 0} → List ℕ → Option (Host K) → Option (Wrote K)
wrote sent none = none
wrote sent (some h) = some (record { sent = sent; host = h })

-- The buffer once `len` has grown by the bytes sent: `memory` is what stands behind the content.
abbrev pub grown : ℕ → List ℕ → List ℕ → List ℕ
grown nbsend memory wbuf = wbuf ++ take nbsend memory

module _ {K : Type 0} (memory : List ℕ) (ctx : ObfsCtx) (h : Host K) where
  -- BUF_CONSUME asserts that the length is not above the size of the buffer.
  unfoldable pub write_end : ℕ → Option (Host K)
  unfolding keep_ctx drop_ctx
  write_end nbsend =
      let wbuf = grown nbsend memory ctx.wbuf in
      if ltb nbsend (length ctx.wbuf)
      then (if ltb obfs_max_request (length ctx.wbuf + nbsend)
          then none
          else some (keep_ctx (record ctx { wbuf = drop nbsend wbuf; writing = true }) h))
      else if not ctx.http_keepalive
      then drop_ctx ctx h
      else some (keep_ctx (record ctx { wbuf = wbuf; writing = false }) h)

  unfoldable pub obfs_ctx_write : List SendOut → Option (Wrote K)
  unfolding send_loop write_end drop_ctx
  obfs_ctx_write sends = elim (send_loop sends (length ctx.wbuf) 0) [
    | failed n ↦ wrote (take n ctx.wbuf) (drop_ctx ctx h)
    | after n ↦ wrote (take n ctx.wbuf) (write_end n)
  ]
