-- ===== src/Tests/Http.antt =====
-- The exchange of HTTP messages between the obfuscators of a client and a server, with a parser whose
-- lines are single bytes.
use kcptun_libev.Base.{
  Ends, ◌≡◌, ℕ, Bool, refl, ap, ◌++◌, true, false, List, [], ◌∷◌, Option, none, some, arith, length,
  if◌then◌else◌, ◌==◌,
}
use kcptun_libev.Address.{sa_equals}
use kcptun_libev.Library.{einprogress}
use kcptun_libev.Library.Concrete.{network_order}
use kcptun_libev.Library.Http.{Http, HttpMessage, HttpOut, invalid, more, moved, MovesWithin}
use kcptun_libev.Conf.{Mode}
use kcptun_libev.Session.{is_set}
use kcptun_libev.Session.Step.{got, took, SendOut}
use kcptun_libev.Obfs.{ObfsCtx, find_ctx}
use kcptun_libev.Obfs.Http.{no_content, obfs_server_read_cb, obfs_client_read_cb}
use kcptun_libev.Obfs.Http.Write.{Host, set_obfs, Wrote, send_loop, after, obfs_ctx_write}
use kcptun_libev.Obfs.Http.Keep.{HostIsSane, Holds}
use kcptun_libev.Obfs.Http.Sent.{EndsSane, WritesSane, obfs_ctx_write-junk}
use kcptun_libev.Obfs.Http.Laws.{obfs_server_read_cb-IsSane}
use kcptun_libev.Obfs.Dial.{DialCalls, obfs_redial_cb, obfs_resolve}
use kcptun_libev.Obfs.Dial.Laws.{obfs_redial_cb-IsSane}
use kcptun_libev.Obfs.Packet.Seal.{obfs_ctx_auth}
use kcptun_libev.Obfs.Events.{
  wrote_host, Run, none_yet, then_also, server_read, authenticated, resolved,
}
use kcptun_libev.Obfs.Events.Laws.{Run-IsSane}
use kcptun_libev.Tests.Contexts.{server_mode, two_contexts}
use kcptun_libev.Tests.Messages.{server}
use kcptun_libev.Tests.Segments.{left, right, context}

abbrev pub asks : HttpMessage
asks = record { field1 = "GET"; field2 = "/generate_204"; field3 = "HTTP/1.1" }

abbrev says : HttpMessage
says = record { field1 = "HTTP/1.1"; field2 = "204"; field3 = "No Content" }

-- 71 is a request, 72 an answer.
abbrev one_line : List ℕ → HttpOut HttpMessage
one_line [] = more
one_line (x ∷ xs) = if x == 71 then moved 1 asks else if x == 72 then moved 1 says else invalid

-- 10 is the end of the headers.
abbrev one_header : List ℕ → HttpOut Bool
one_header [] = more
one_header (x ∷ xs) = if x == 10 then moved 1 false else moved 1 true

pub one_line-within : (rest : List ℕ) → MovesWithin rest (one_line rest)
one_line-within [] = tt
one_line-within (x ∷ xs) = ground arith

pub one_header-within : (rest : List ℕ) → MovesWithin rest (one_header rest)
one_header-within [] = tt
one_header-within (x ∷ xs) = ground arith

abbrev pub small_http : Http
small_http = record {
  http_parse = one_line;
  http_parsehdr = one_header;
  http_error = λ code. code ∷ [];
  http_parse-within = one_line-within;
  http_parsehdr-within = one_header-within;
}

abbrev client_mode : Mode
client_mode = record { server = false; client = true; rendezvous = false }

-- Nothing was received on this context.
abbrev silent_ctx : ObfsCtx
silent_ctx = record (context right left) { ready = false }

abbrev serving : Host (List ℕ)
serving = record { obfs = two_contexts; server = record server { mode = server_mode } }

serving-IsSane : HostIsSane serving
serving-IsSane = record {
  counted = refl;
  sound = ((refl, omega arith, omega arith), ((refl, omega arith, omega arith), tt));
  client_lives = tt;
  idle = refl;
}

abbrev asked_ctx : ObfsCtx
asked_ctx = record (context right left) { authenticated = true }

serving-Holds : Holds serving.obfs asked_ctx
unfolding find_ctx sa_equals
serving-Holds = record {
  old = asked_ctx;
  found = refl;
  same_auth = refl;
  sound = (refl, omega arith, omega arith);
}

abbrev asked : List ℕ
asked = 71 ∷ 5 ∷ 10 ∷ []

abbrev two_sends : List SendOut
two_sends = took 30 ∷ took 500 ∷ []

abbrev first_served : Option (Wrote (List ℕ))
first_served =
    obfs_server_read_cb network_order small_http 7 [] two_sends [] (got asked) asked_ctx serving

obfs_server_read_cb-IsSane_example : WritesSane first_served
obfs_server_read_cb-IsSane_example =
    obfs_server_read_cb-IsSane network_order small_http 7 [] two_sends [] (got asked) asked_ctx
      serving serving-IsSane serving-Holds (omega arith) (omega arith) (omega arith)

-- The answer is sent as a whole.
answer_whole : Ends (λ r. r.sent ≡ no_content []) first_served
unfolding obfs_server_read_cb
answer_whole = refl

abbrev calling : Host (List ℕ)
calling = record {
  obfs = record two_contexts { client = some left };
  server = record server { mode = client_mode };
}

-- The answer makes the client ping its server.
answered :
    Ends
      (λ h. length h.server.outbox ≡ 1)
      (obfs_client_read_cb network_order small_http 7 (got (72 ∷ 10 ∷ [])) asked_ctx calling)
unfolding obfs_client_read_cb
answered = refl

-- The connection was lost, and the timer fires.
abbrev redialling : Host (List ℕ)
redialling = record {
  obfs = record two_contexts { redial_active = true; redial_count = 1 };
  server = record server { mode = client_mode };
}

redialling-IsSane : HostIsSane redialling
redialling-IsSane = record {
  counted = refl;
  sound = ((refl, omega arith, omega arith), ((refl, omega arith, omega arith), tt));
  client_lives = tt;
  idle = refl;
}

abbrev calls : DialCalls
calls = record {
  socket = some 9;
  nonblock = true;
  memory = true;
  junk = false;
  connect = some einprogress;
  getsockname = some right;
}

abbrev host_name : List ℕ
host_name = 49 ∷ 46 ∷ 50 ∷ []

obfs_redial_cb-IsSane_example :
    EndsSane (obfs_redial_cb 5000 host_name (took 10 ∷ []) [] calls (some left) redialling)
obfs_redial_cb-IsSane_example =
    obfs_redial_cb-IsSane 5000 host_name (took 10 ∷ []) [] (omega arith) calls (some left)
      redialling redialling-IsSane refl

-- Of five bytes two are sent, then the others and what stands behind the buffer.
abbrev talking : ObfsCtx
talking = record asked_ctx { wbuf = 1 ∷ 2 ∷ 3 ∷ 4 ∷ 5 ∷ []; http_keepalive = true }

send_two : send_loop (took 2 ∷ []) 5 0 ≡ after 2
unfolding send_loop
send_two = refl

send_five : send_loop (took 9 ∷ []) 5 0 ≡ after 5
unfolding send_loop
send_five = refl

in_table : is_set (find_ctx talking.raddr serving.obfs.contexts) ≡ true
unfolding find_ctx sa_equals
in_table = refl

obfs_ctx_write-junk_example :
    Ends
      (λ first.
        (c : ObfsCtx) × ((find_ctx talking.raddr first.host.obfs.contexts ≡ some c)
          × Ends
              (λ second. first.sent ++ second.sent ≡ 1 ∷ 2 ∷ 3 ∷ 4 ∷ 5 ∷ 99 ∷ 98 ∷ [])
              (obfs_ctx_write [] c first.host (took 9 ∷ []))))
      (obfs_ctx_write (99 ∷ 98 ∷ 97 ∷ []) talking serving (took 2 ∷ []))
obfs_ctx_write-junk_example =
    obfs_ctx_write-junk (99 ∷ 98 ∷ 97 ∷ []) [] talking serving (took 2 ∷ []) (took 9 ∷ []) 2
      send_two (omega arith) (omega arith) (omega arith) send_five refl in_table

-- A result, where there is one.
abbrev taken : {A : Type 0} → Option A → A → A
taken none a = a
taken (some b) a = b

abbrev served : Wrote (List ℕ)
served = taken first_served (record { sent = []; host = serving })

find_asked : find_ctx left serving.obfs.contexts ≡ some asked_ctx
unfolding find_ctx sa_equals
find_asked = refl

request_answered : first_served ≡ some served
unfolding obfs_server_read_cb
request_answered = refl

-- A request is answered, its peer proves to hold the password, and the addresses are resolved.
abbrev authed : Host (List ℕ)
authed = set_obfs (obfs_ctx_auth true left served.host.obfs) served.host

served-Run : Run network_order small_http serving (some (obfs_resolve authed))
served-Run =
    then_also serving authed (some authed) (some (obfs_resolve authed))
      (then_also serving served.host (wrote_host first_served) (some authed)
        (then_also serving serving (some serving) (wrote_host first_served) (none_yet serving) refl
          (server_read 7 [] two_sends [] (got asked) asked_ctx serving (omega arith) find_asked))
        (ap wrote_host request_answered) (authenticated left served.host))
      refl (resolved authed)

Run-IsSane_example : EndsSane (some (obfs_resolve authed))
Run-IsSane_example =
    Run-IsSane network_order small_http (omega arith) (omega arith) served-Run serving-IsSane
