-- ===== src/HttpService/Read.antt =====
-- A request stays in its buffer, and a context that is kept has something to wait for
-- (src/event_http.c, http_read_cb).
use kcptun_libev.Base.{
  ◌≡◌, ℕ, ◌+◌, ◌-◌, ◌≤◌, ◌<◌, ◌⊎◌, true, ◌||◌, List, ◌++◌, Option, none, some, length, take, drop,
  Ends,
}
use kcptun_libev.Library.Http.{Http, HttpOut, HttpMessage, invalid, more, moved}
use kcptun_libev.Session.Step.{RecvOut, got, recv_error, SendOut}
use kcptun_libev.Obfs.Http.Write.{SendEnd, after, failed, send_loop}
use kcptun_libev.HttpService.{HttpCtx, Served, Url, http_max_request}
use kcptun_libev.HttpService.Laws.{HasPath}

-- There is room for the byte 0 behind the request.
abbrev pub FitsRequest : HttpCtx → Type 0
FitsRequest c = (length c.rbuf < 4096) × (c.http_nxt ≤ length c.rbuf)

pub record IsServing (c : HttpCtx) : Type 0 where
  pub fits : FitsRequest c
  pub has_watcher : (c.reading || c.writing) ≡ true

abbrev pub IsKept : Option HttpCtx → Type 0
IsKept none = Unit
IsKept (some c) = IsServing c

abbrev pub Serves : Option Served → Type 0
Serves o = Ends (λ r. IsKept r.ctx) o

-- What was sent is everything, or at most half.
abbrev pub IsWholeOrHalf : ℕ → SendEnd → Type 0
IsWholeOrHalf k (after n) = (n + n ≤ k) ⊎ (k ≤ n)
IsWholeOrHalf k (failed n) = Unit

abbrev pub SendsEvenly : List SendOut → Type 0
SendsEvenly sends = (k : ℕ) → IsWholeOrHalf k (send_loop sends k 0)

-- The URL of the first line, which has been read or is read now, is refused or has a path.
abbrev pub AsksPath : Url → Option HttpMessage → HttpOut HttpMessage → Type 0
AsksPath url (some msg) o = HasPath (url.url_parse msg.field2)
AsksPath url none (moved n msg) = HasPath (url.url_parse msg.field2)
AsksPath url none invalid = Unit
AsksPath url none more = Unit

-- The same once the bytes of a call of `recv` are in the buffer.
abbrev pub ReadsPath : Http → Url → RecvOut → HttpCtx → Type 0
ReadsPath http url (recv_error e) ctx = Unit
ReadsPath http url (got bytes) ctx = AsksPath url ctx.http_msg (
    http.http_parse
      (drop ctx.http_nxt (ctx.rbuf ++ take (http_max_request - length ctx.rbuf - 1) bytes)))
