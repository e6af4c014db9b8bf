-- ===== src/HttpService.antt =====
-- The page with the statistics (src/event_http.c): a request is read, its URL is taken apart, and the
-- answer is written before the connection is closed. What the page says is a parameter.
pub mod Laws
pub mod Read
pub mod Accept
use Prim.Native.String.{String}
use text.Mathlib.Text.{◌==◌ as str_eq}
use kcptun_libev.Base.{
  ℕ, zero, suc, ◌+◌, ◌-◌, Bool, true, false, not, ◌||◌, List, [], ◌++◌, Option, none, some, length,
  take, drop, if◌then◌else◌, ltb, ◌==◌, ◌≡◌, ◌<◌,
}
use kcptun_libev.Address.{bytes_eq}
use kcptun_libev.Library.{Errno, is_transient_error}
use kcptun_libev.Library.Http.{Http, HttpMessage, invalid, more, moved}
use kcptun_libev.Session.Step.{RecvOut, got, recv_error, SendOut}
use kcptun_libev.Obfs.Http.Parse.{Parsed, complete, unfinished, broken, parse_headers}
use kcptun_libev.Obfs.Http.Write.{codes, SendEnd, after, failed, send_loop}

abbrev pub http_max_request : ℕ
http_max_request = 4096

-- `struct http_ctx`, less its descriptor, which is closed with it, and its timer.
pub record HttpCtx : Type 0 where
  pub http_msg : Option HttpMessage
  pub http_nxt : ℕ
  pub reading : Bool
  pub writing : Bool
  pub rbuf : List ℕ
  pub wbuf : Option (List ℕ)

-- What a callback ends in: the bytes that were sent, and the context, or none where it was freed.
pub record Served : Type 0 where
  pub sent : List ℕ
  pub ctx : Option HttpCtx

abbrev pub closed : Option Served
closed = some (record { sent = []; ctx = none })

abbrev pub waits : HttpCtx → Option Served
waits ctx = some (record { sent = []; ctx = some ctx })

-- What `http_serve_stats` reads from the query: how much of the sessions is shown, none of them where
-- it is -1.
pub record Query : Type 0 where
  pub banner : Bool
  pub state_level : Option ℕ

-- net/url.h; a path or a query that is NULL is `none`. What is left of a query is shorter than it was.
-- `url_path_segment` and `url_query_component` read the string that they are given, which is not NULL.
pub record Url : Type 0 where
  pub url_parse : String → Option (Option (List ℕ) × Option (List ℕ))
  pub url_path_segment : List ℕ → Option (String × Option (List ℕ))
  pub url_query_component : List ℕ → Option (String × String × Option (List ℕ))
  pub url_query_component-shorter :
      (query : List ℕ) (key value : String) (rest : List ℕ)
      → url_query_component query ≡ some (key, value, some rest)
      → length rest < length query

-- What the pages say: an error page, none where its code is not known, the header of a code alone, and
-- the statistics; `stateless` leaves the counters for the next page alone.
pub record Pages : Type 0 where
  pub http_error : ℕ → Option (List ℕ)
  pub header : ℕ → List ℕ
  pub stats : Bool → Query → List ℕ

-- STATE_CONNECTED, STATE_LINGER and STATE_MAX
abbrev pub level_of : String → Option ℕ → Option ℕ
level_of value old =
    if str_eq value "0" || str_eq value "none"
    then none
    else if str_eq value "1" || str_eq value "connected"
    then some 2
    else if str_eq value "2" || str_eq value "active"
    then some 3
    else if str_eq value "3" || str_eq value "all"
    then some 5
    else old

abbrev pub with_component : String → String → Query → Query
with_component key value q =
    if str_eq key "banner"
    then (if str_eq value "no" then record q { banner = false } else q)
    else if str_eq key "sessions"
    then record q { state_level = level_of value q.state_level }
    else q

-- The context while its request is read, and what is written to it.
module _ (pages : Pages) (url : Url) (memory : Bool) where
  -- Without memory there is no answer.
  unfoldable pub http_resp_errpage : ℕ → Option (List ℕ)
  http_resp_errpage code =
      if not memory
      then none
      else elim (pages.http_error code) [ none ↦ some (pages.header code) | some page ↦ some page ]

  -- The loop over the query, on fuel; a component that is broken ends it with no query.
  unfoldable pub query_loop : ℕ → Option (List ℕ) → Query → Option (Option Query)
  query_loop zero rest q = none
  query_loop (suc f) none q = some (some q)
  query_loop (suc f) (some query) q = elim (url.url_query_component query) [
    | none ↦ some none
    | some (key, value, rest) ↦ query_loop f rest (with_component key value q)
  ]

  unfoldable pub stats_page : String → Query → Option (List ℕ)
  unfolding http_resp_errpage
  stats_page method q =
      if not memory
      then none
      else if str_eq method "GET"
      then some (pages.header 200 ++ pages.stats true q)
      else if str_eq method "POST"
      then some (pages.header 200 ++ pages.stats false q)
      else http_resp_errpage 405

  -- As many rounds as there are bytes, and two.
  abbrev pub rounds : Option (List ℕ) → ℕ
  rounds none = 1
  rounds (some query) = length query + 2

  -- The outer `none` is a loop that was cut off.
  unfoldable pub http_serve_stats :
      HttpMessage → Option (List ℕ) → Option (List ℕ) → Option (Option (List ℕ))
  unfolding http_resp_errpage query_loop stats_page
  http_serve_stats msg (some path) query = some (http_resp_errpage 404)
  http_serve_stats msg none query =
      elim (query_loop (rounds query) query (record { banner = true; state_level = some 2 })) [
        | none ↦ none
        | some none ↦ some (http_resp_errpage 400)
        | some (some q) ↦ some (stats_page msg.field1 q)
      ]

  unfoldable pub healthy_page : Option (List ℕ) → Option (List ℕ)
  unfolding http_resp_errpage
  healthy_page (some path) = http_resp_errpage 404
  healthy_page none = if not memory then none else some (pages.header 200)

  -- A URL of another form than a path, such as `*` or `//host`, has no path, and reading the segment
  -- of NULL is a fault: the outer `none`.
  unfoldable pub http_handle_request : HttpMessage → Option (Option (List ℕ))
  unfolding http_serve_stats healthy_page http_resp_errpage
  http_handle_request msg = elim (url.url_parse msg.field2) [
    | none ↦ some (http_resp_errpage 400)
    | some (none, query) ↦ none
    | some (some path, query) ↦ elim (url.url_path_segment path) [
      | none ↦ some (http_resp_errpage 400)
      | some (segment, rest) ↦
          if str_eq segment "stats"
          then http_serve_stats msg rest query
          else if str_eq segment "healthy"
          then some (healthy_page rest)
          else some (http_resp_errpage 404)
    ]
  ]

-- The buffer once the bytes sent were taken off its length twice.
abbrev pub consumed : ℕ → List ℕ → List ℕ
consumed n wbuf = drop n (take (length wbuf - n) wbuf)

-- A failed assertion is `none`.
unfoldable pub write_rest : ℕ → List ℕ → HttpCtx → Option Served
write_rest n wbuf ctx =
    if n == 0
    then waits (record ctx { writing = true })
    else if ltb (length wbuf - n) n
    then none
    else some (record {
      sent = take n wbuf;
      ctx = some (record ctx { wbuf = some (consumed n wbuf); writing = true });
    })

abbrev pub write_sent : List ℕ → HttpCtx → SendEnd → Option Served
write_sent wbuf ctx (failed n) = some (record { sent = take n wbuf; ctx = none })
write_sent wbuf ctx (after n) =
    if ltb n (length wbuf)
    then write_rest n wbuf ctx
    else some (record { sent = take n wbuf; ctx = none })

unfoldable pub http_ctx_write : List SendOut → List ℕ → HttpCtx → Option Served
unfolding send_loop write_rest
http_ctx_write sends wbuf ctx = write_sent wbuf ctx (send_loop sends (length wbuf) 0)

-- strncmp(version, "HTTP/1.", 7) == 0
abbrev pub is_http1 : String → Bool
is_http1 version = bytes_eq (take 7 (codes version)) (codes "HTTP/1.")

module _ (http : Http) (pages : Pages) (url : Url) (memory : Bool) (sends : List SendOut) where
  -- Where no answer could be made, there is nothing to write.
  unfoldable pub http_serve : HttpMessage → HttpCtx → Option Served
  unfolding http_handle_request http_ctx_write
  http_serve msg ctx = elim (http_handle_request pages url memory msg) [
    | none ↦ none
    | some none ↦ closed
    | some (some page) ↦ http_ctx_write sends page (record ctx { wbuf = some page })
  ]

  abbrev pub headers_read : HttpMessage → HttpCtx → Option (Parsed × ℕ) → Option Served
  headers_read msg ctx none = none
  headers_read msg ctx (some (broken, next)) = closed
  headers_read msg ctx (some (unfinished, next)) = waits (record ctx { http_nxt = next })
  headers_read msg ctx (some (complete, next)) =
      http_serve msg (record ctx { http_nxt = next; reading = false })

  unfoldable pub read_headers : HttpMessage → HttpCtx → Option Served
  unfolding parse_headers http_serve
  read_headers msg ctx =
      headers_read msg ctx (parse_headers http (suc (length ctx.rbuf)) ctx.rbuf ctx.http_nxt)

  unfoldable pub read_request : HttpCtx → Option Served
  unfolding read_headers
  read_request ctx = elim ctx.http_msg [
    | some msg ↦ read_headers msg ctx
    | none ↦ elim (http.http_parse (drop ctx.http_nxt ctx.rbuf)) [
      | invalid ↦ closed
      | more ↦ if http_max_request - length ctx.rbuf - 1 == 0 then closed else waits ctx
      | moved n msg ↦
          if not (is_http1 msg.field3)
          then closed
          else read_headers msg (record ctx { http_msg = some msg; http_nxt = ctx.http_nxt + n })
    ]
  ]

  unfoldable pub http_read_cb : RecvOut → HttpCtx → Option Served
  unfolding read_request
  http_read_cb (recv_error e) ctx = if is_transient_error e then waits ctx else closed
  http_read_cb (got bytes) ctx =
      let bs = take (http_max_request - length ctx.rbuf - 1) bytes in
      if length bs == 0 then closed else read_request (record ctx { rbuf = ctx.rbuf ++ bs })
