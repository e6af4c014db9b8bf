-- ===== src/Obfs/Http.antt =====
-- What the obfuscator says over the connections that it really opens (src/obfs.c, obfs_parse_http,
-- obfs_ctx_write, and the callbacks of a context's socket): a client asks for a page, and a server
-- answers that there is none, or closes.
pub mod Parse
pub mod Write
pub mod Keep
pub mod Bounds
pub mod Sent
pub mod Laws
use Prim.Native.String.{String}
use text.Mathlib.Text.{◌==◌ as str_eq}
use kcptun_libev.Base.{
  ℕ, ◌-◌, Bool, true, false, not, List, ◌++◌, Option, none, some, length, take, if◌then◌else◌, ◌==◌,
}
use kcptun_libev.Library.{Serialize, Errno, is_transient_error}
use kcptun_libev.Library.Http.{Http, HttpMessage}
use kcptun_libev.Session.Step.{RecvOut, got, recv_error, SendOut}
use kcptun_libev.Server.Keepalive.{server_ping}
use kcptun_libev.Obfs.{ObfsCtx}
use kcptun_libev.Obfs.Context.{obfs_sched_redial}
use kcptun_libev.Obfs.Http.Parse.{
  obfs_max_request, Parsed, complete, unfinished, broken, obfs_parse_http,
}
use kcptun_libev.Obfs.Http.Write.{
  Host, codes, keep_ctx, drop_ctx, set_obfs, set_server, Wrote, obfs_ctx_write,
}

-- `ev_io_stop` of both watchers.
abbrev pub obfs_ctx_stop : ObfsCtx → ObfsCtx
obfs_ctx_stop ctx = record ctx { reading = false; writing = false }

-- What `snprintf` makes of the date.
abbrev pub no_content : List ℕ → List ℕ
no_content date =
    codes "HTTP/1.1 204 No Content\r\nDate: "
    ++ date
    ++ codes "\r\nContent-Length: 0\r\nConnection: keep-alive\r\n\r\n"

-- The place that is left for `recv`, less one byte for a terminator.
abbrev pub recv_room : ObfsCtx → ℕ
recv_room ctx = obfs_max_request - length ctx.rbuf - 1

-- The answer, put in the place of what the buffer held.
abbrev pub reply : List ℕ → ObfsCtx → ObfsCtx
reply page ctx = record ctx { wbuf = page }

module _ {K : Type 0} (ser : Serialize) (http : Http) (time : ℕ) where
  -- `time` is what `ev_time` gives.
  unfoldable pub obfs_on_ready : ObfsCtx → Host K → Host K
  unfolding keep_ctx server_ping
  obfs_on_ready ctx h =
      let h1 = keep_ctx (record ctx { ready = true }) h in
      if not h.server.mode.client then h1 else record h1 {
        obfs = record h1.obfs { redial_count = 0 };
        server = server_ping ser time (record h1.server { connected = true });
      }

  unfoldable pub obfs_fail_cb : ObfsCtx → Host K → Host K
  unfolding keep_ctx obfs_sched_redial
  obfs_fail_cb ctx h =
      let h1 = keep_ctx (obfs_ctx_stop ctx) h in
      set_obfs (obfs_sched_redial h.server.mode h1.obfs) h1

  -- What `obfs_parse_http` leaves to the callbacks where the request is not complete.
  unfoldable pub wait_for_more : ObfsCtx → Host K → Option (Host K)
  unfolding keep_ctx drop_ctx
  wait_for_more ctx h = if recv_room ctx == 0 then drop_ctx ctx h else some (keep_ctx ctx h)

  -- A page that could not be made fails a check.
  unfoldable pub answer : List SendOut → List ℕ → List ℕ → ObfsCtx → Host K → Option (Wrote K)
  unfolding obfs_ctx_write
  answer sends memory page ctx h =
      if length page == 0 then none else obfs_ctx_write memory (reply page ctx) h sends

  abbrev pub silent : Option (Host K) → Option (Wrote K)
  silent none = none
  silent (some h) = some (record { sent = List.[]; host = h })

  -- The part of `obfs_server_read_cb` behind the parser.
  unfoldable pub serve_request :
      List ℕ → List SendOut → List ℕ → HttpMessage → ObfsCtx → Host K → Option (Wrote K)
  unfolding answer obfs_on_ready drop_ctx
  serve_request date sends memory msg ctx h =
      if not (str_eq msg.field3 "HTTP/1.1")
      then silent (drop_ctx ctx h)
      else if not (str_eq msg.field1 "GET")
      then answer sends memory (http.http_error 400) ctx h
      else if not (str_eq msg.field2 "/generate_204")
      then answer sends memory (http.http_error 404) ctx h
      else (let ctx1 = record ctx { http_keepalive = true; ready = true } in
          answer sends memory (no_content date) ctx1 (obfs_on_ready ctx1 h))

  unfoldable pub server_parsed :
      List ℕ → List SendOut → List ℕ → Host K → Option (Parsed × ObfsCtx) → Option (Wrote K)
  unfolding serve_request wait_for_more drop_ctx
  server_parsed date sends memory h none = none
  server_parsed date sends memory h (some (complete, ctx)) = elim ctx.http_msg [
    | none ↦ none
    | some msg ↦ serve_request date sends memory msg ctx h
  ]
  server_parsed date sends memory h (some (unfinished, ctx)) = silent (wait_for_more ctx h)
  server_parsed date sends memory h (some (broken, ctx)) = silent (drop_ctx ctx h)

  unfoldable pub obfs_server_read_cb :
      List ℕ → List SendOut → List ℕ → RecvOut → ObfsCtx → Host K → Option (Wrote K)
  unfolding server_parsed obfs_parse_http drop_ctx
  obfs_server_read_cb date sends memory (recv_error e) ctx h =
      if is_transient_error e then silent (some h) else silent (drop_ctx ctx h)
  obfs_server_read_cb date sends memory (got bytes) ctx h =
      let bs = take (recv_room ctx) bytes in
      if length bs == 0
      then silent (drop_ctx ctx h)
      else server_parsed date sends memory h
          (obfs_parse_http http (record ctx { rbuf = ctx.rbuf ++ bs }))

  -- The part of `obfs_client_read_cb` behind the parser.
  unfoldable pub client_parsed : Host K → Option (Parsed × ObfsCtx) → Option (Host K)
  unfolding obfs_on_ready wait_for_more drop_ctx
  client_parsed h none = none
  client_parsed h (some (complete, ctx)) = elim ctx.http_msg [
    | none ↦ none
    | some msg ↦
        if not (str_eq msg.field1 "HTTP/1.1")
        then drop_ctx ctx h
        else if not (str_eq msg.field2 "204")
        then drop_ctx ctx h
        else some (obfs_on_ready ctx h)
  ]
  client_parsed h (some (unfinished, ctx)) = wait_for_more ctx h
  client_parsed h (some (broken, ctx)) = drop_ctx ctx h

  unfoldable pub obfs_client_read_cb : RecvOut → ObfsCtx → Host K → Option (Host K)
  unfolding client_parsed obfs_parse_http obfs_fail_cb
  obfs_client_read_cb (recv_error e) ctx h =
      if is_transient_error e then some h else some (obfs_fail_cb ctx h)
  obfs_client_read_cb (got bytes) ctx h =
      let bs = take (recv_room ctx) bytes in
      if length bs == 0
      then some (obfs_fail_cb ctx h)
      else client_parsed h (obfs_parse_http http (record ctx { rbuf = ctx.rbuf ++ bs }))
