-- ===== src/HttpService/Accept.antt =====
-- A connection to the HTTP listener, and its end by the timer (src/event_http.c, http_accept_cb,
-- http_write_cb, http_timeout_cb and http_ctx_free).
use kcptun_libev.Base.{
  ◌≡◌, ℕ, Bool, true, false, not, List, [], ◌∷◌, Option, none, some, ◌⊎◌, inr, refl, arith,
  if◌then◌else◌, if_both,
}
use kcptun_libev.Library.{Errno, is_transient_error}
use kcptun_libev.Session.Step.{SendOut}
use kcptun_libev.Server.Sockets.{Listener, close_fd}
use kcptun_libev.HttpService.{HttpCtx, Served, closed, http_ctx_write}
use kcptun_libev.HttpService.Read.{IsServing}

-- What `accept` gives, with whether the descriptor was set not to block and whether there is memory.
pub data HttpAccept : Type 0 where
  http_socket : (fd : ℕ) → (nonblock memory : Bool) → HttpAccept
  no_http_socket : Errno → HttpAccept

-- The listener, the descriptors that are open, and a new context with its descriptor.
pub record HttpAccepted : Type 0 where
  pub listener : Listener
  pub fds : List ℕ
  pub ctx : Option (ℕ × HttpCtx)

-- `rbuf` is empty, and the parser starts at its first byte.
abbrev pub new_http_ctx : HttpCtx
new_http_ctx = record {
  http_msg = none;
  http_nxt = 0;
  reading = true;
  writing = false;
  rbuf = [];
  wbuf = none;
}

unfoldable pub http_accept_cb : HttpAccept → Listener → List ℕ → HttpAccepted
http_accept_cb (no_http_socket e) l fds = record {
  listener =
      if is_transient_error e then l else record l { accepting_http = false; retrying = true };
  fds = fds;
  ctx = none;
}
http_accept_cb (http_socket fd nonblock memory) l fds =
    if not nonblock
    then record { listener = l; fds = close_fd fd (fd ∷ fds); ctx = none }
    else if not memory
    then record { listener = l; fds = close_fd fd (fd ∷ fds); ctx = none }
    else record { listener = l; fds = fd ∷ fds; ctx = some (fd, new_http_ctx) }

-- The watcher runs while there is something to write.
unfoldable pub http_write_cb : List SendOut → HttpCtx → Option Served
unfolding http_ctx_write
http_write_cb sends ctx = elim ctx.wbuf [ none ↦ none | some wbuf ↦ http_ctx_write sends wbuf ctx ]

abbrev pub http_timeout_cb : HttpCtx → Option Served
http_timeout_cb ctx = closed

-- Just the descriptor of a context is left open.
abbrev pub Balances : List ℕ → HttpAccepted → Type 0
Balances fds r = elim r.ctx [
  | none ↦ r.fds ≡ fds
  | some (fd, ctx) ↦ (r.fds ≡ fd ∷ fds) × IsServing ctx
]

-- The listener waits for a connection, or for the timer.
abbrev pub IsHttpAwake : Listener → Type 0
IsHttpAwake l = (l.accepting_http ≡ true) ⊎ (l.retrying ≡ true)

abbrev pub AcceptsHttp : List ℕ → HttpAccepted → Type 0
AcceptsHttp fds r = Balances fds r × IsHttpAwake r.listener

close_fd-new : (fd : ℕ) (fds : List ℕ) → close_fd fd (fd ∷ fds) ≡ fds
unfolding close_fd
close_fd-new fd fds = ground arith

-- Whatever accept answers, a callback of the HTTP listener leaves the descriptors open that were open
-- before, and that of the new context, which is well-formed and reads its request; the listener
-- accepts, or rests until its timer, as it did before or as it does after an error.
pub http_accept_cb-AcceptsHttp :
    (r : HttpAccept) (l : Listener) (fds : List ℕ)
    → IsHttpAwake l
    → AcceptsHttp fds (http_accept_cb r l fds)
unfolding http_accept_cb
http_accept_cb-AcceptsHttp (no_http_socket e) l fds a =
    (refl, if_both IsHttpAwake (is_transient_error e) _ _ a (inr refl))
http_accept_cb-AcceptsHttp (http_socket fd nonblock memory) l fds a =
    if_both (AcceptsHttp fds) (not nonblock) _ _ (close_fd-new fd fds, a)
      (if_both (AcceptsHttp fds) (not memory) _ _ (close_fd-new fd fds, a)
        ((refl, record { fits = (omega arith, omega arith); has_watcher = refl }), a))
