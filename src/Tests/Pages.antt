-- ===== src/Tests/Pages.antt =====
-- Requests for the page with the statistics, with URLs whose components are single bytes.
use Prim.Native.String.{String}
use kcptun_libev.Base.{
  ◌≡◌, ℕ, ◌<◌, inl, refl, true, false, List, [], ◌∷◌, Option, none, some, arith, length,
}
use kcptun_libev.Session.Step.{got, took}
use kcptun_libev.Obfs.Http.Write.{send_loop, after}
use kcptun_libev.HttpService.{Url, Pages, http_handle_request, http_ctx_write, http_read_cb}
use kcptun_libev.HttpService.Laws.{
  Outcome, http_handle_request-Outcome, IsShortBy, http_ctx_write-loses,
}
use kcptun_libev.HttpService.Accept.{
  http_socket, new_http_ctx, http_accept_cb, AcceptsHttp, http_accept_cb-AcceptsHttp,
}
use kcptun_libev.Server.Sockets.{Listener}
use kcptun_libev.Tests.Http.{small_http, asks}

abbrev one_component : List ℕ → Option (String × String × Option (List ℕ))
one_component [] = none
one_component (x ∷ xs) = some ("banner", "no", some xs)

one_component-shorter :
    (query : List ℕ) (key value : String) (rest : List ℕ)
    → one_component query ≡ some (key, value, some rest)
    → length rest < length query
one_component-shorter [] key value rest e = ground arith
one_component-shorter (x ∷ xs) key value rest e = ground arith

abbrev small_url : Url
small_url = record {
  url_parse = λ s. some (some (1 ∷ []), some (7 ∷ 8 ∷ []));
  url_path_segment = λ path. some ("stats", none);
  url_query_component = one_component;
  url_query_component-shorter = one_component-shorter;
}

abbrev small_pages : Pages
small_pages = record {
  http_error = λ code. some (code ∷ []);
  header = λ code. code ∷ 10 ∷ [];
  stats = λ stateless q. 5 ∷ 6 ∷ 7 ∷ [];
}

http_handle_request-Outcome_example :
    Outcome true
      (small_url.url_parse "/generate_204")
      (http_handle_request small_pages small_url true asks)
http_handle_request-Outcome_example = http_handle_request-Outcome small_pages small_url true asks

-- A URL that has no path stops the process.
abbrev pathless : Url
pathless = record small_url { url_parse = λ s. some (none, none) }

faulted : http_handle_request small_pages pathless true asks ≡ none
unfolding http_handle_request
faulted = refl

-- The query ends in a component that is broken.
bad_query : http_handle_request small_pages small_url true asks ≡ some (some (400 ∷ []))
unfolding http_handle_request
bad_query = refl

abbrev five : List ℕ
five = 1 ∷ 2 ∷ 3 ∷ 4 ∷ 5 ∷ []

send_two : send_loop (took 2 ∷ []) 5 0 ≡ after 2
unfolding send_loop
send_two = refl

http_ctx_write-loses_example : IsShortBy 2 five (http_ctx_write (took 2 ∷ []) five new_http_ctx)
http_ctx_write-loses_example =
    http_ctx_write-loses (took 2 ∷ []) five new_http_ctx 2 send_two (omega arith) (omega arith)

-- Of five bytes two are sent, and one is left.
only_one :
    http_ctx_write (took 2 ∷ []) five new_http_ctx
    ≡ some (record {
      sent = 1 ∷ 2 ∷ [];
      ctx = some (record new_http_ctx { wbuf = some (3 ∷ []); writing = true });
    })
unfolding http_ctx_write
only_one = refl

-- Where three are sent, the process stops.
stopped : http_ctx_write (took 3 ∷ []) five new_http_ctx ≡ none
unfolding http_ctx_write
stopped = refl

abbrev request : List ℕ
request = 71 ∷ 5 ∷ 10 ∷ []

-- The page for the error is kept until the socket can be written.
page_kept :
    http_read_cb small_http small_pages small_url true [] (got request) new_http_ctx
    ≡ some (record {
      sent = [];
      ctx = some (record {
        http_msg = some asks;
        http_nxt = 3;
        reading = false;
        writing = true;
        rbuf = request;
        wbuf = some (400 ∷ []);
      });
    })
unfolding http_read_cb
page_kept = refl

abbrev listening : Listener
listening = record {
  fd = none;
  fd_http = some 4;
  accepting = false;
  accepting_http = true;
  retrying = false;
}

http_accept_cb-AcceptsHttp_example :
    AcceptsHttp (4 ∷ []) (http_accept_cb (http_socket 9 true true) listening (4 ∷ []))
http_accept_cb-AcceptsHttp_example =
    http_accept_cb-AcceptsHttp (http_socket 9 true true) listening (4 ∷ []) (inl refl)
