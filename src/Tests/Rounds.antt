-- ===== src/Tests/Rounds.antt =====
-- The rounds of the timers over a server.
use kcptun_libev.Base.{Ends, ◌≤◌, refl, true, false, List, [], ◌∷◌, none, length, arith, ℕ}
use kcptun_libev.Library.{other}
use kcptun_libev.Library.Concrete.{network_order, stream_kcp}
use kcptun_libev.Session.Step.{no_socket, got, took}
use kcptun_libev.Server.{Server}
use kcptun_libev.Server.Table.{AllValid}
use kcptun_libev.Server.Receive.{Answers}
use kcptun_libev.Server.Rounds.{timeout_cb}
use kcptun_libev.Server.Rounds.Laws.{timeout_cb-AllValid}
use kcptun_libev.Server.Keepalive.{keepalive_cb}
use kcptun_libev.Server.Keepalive.Laws.{Waits, Sends, keepalive_cb-Waits}
use kcptun_libev.Tests.Messages.{limits, server, server-AllValid}

abbrev quiet : Answers
quiet = record { recvs = got [] ∷ []; sends = took 1 ∷ []; dial = no_socket other; sockerr = none }

timeout_cb-AllValid_example :
    Ends
      (λ s'. AllValid s'.sessions × (length s'.sessions ≤ length server.sessions))
      (timeout_cb network_order stream_kcp limits (λ _. quiet) server)
timeout_cb-AllValid_example =
    timeout_cb-AllValid network_order stream_kcp limits (λ _. quiet) server server-AllValid

-- A client that has asked for an answer 500 ms ago.
abbrev asking : Server (List ℕ)
asking = record server {
  mode = record { server = false; client = true; rendezvous = true };
  connected = true;
}

keepalive_cb-Waits_example :
    Ends (λ r. Waits r.0 × Sends 2 asking r.1) (keepalive_cb network_order 2001 25000 4000 asking)
keepalive_cb-Waits_example =
    keepalive_cb-Waits network_order 2001 25000 4000 asking refl (omega arith)
