-- ===== src/Server/Dispatch.antt =====
-- The packets of one round (src/pktqueue.c, queue_dispatch), in a build without the obfuscator: each
-- is opened, where there is a cipher, and goes to its session.
use kcptun_libev.Base.{Bool, ◌≤◌, ℕ, ◌+◌, List, [], ◌∷◌, Option, none, some, length, arith, Ends}
use kcptun_libev.Library.{Serialize, Ikcp}
use kcptun_libev.Nonce.{Bloom, Noncegen}
use kcptun_libev.Session.{max_packet_size}
use kcptun_libev.Session.Create.{KcpConf}
use kcptun_libev.Packet.{Crypto, crypto_open_inplace}
use kcptun_libev.Server.{Server, Frame}
use kcptun_libev.Server.Table.{AllValid}
use kcptun_libev.Server.Receive.{Answers, queue_recv}
use kcptun_libev.Server.Receive.Laws.{FramedFor, receiver, queue_recv-AllValid}

-- A frame of `mq_recv`, and what the system answers while it is processed.
abbrev pub Arrival : Type 0
Arrival = Frame × Answers

module _ (bl : Bloom) where
  open bl use {Filter}

  -- `msg->off` is 0. The frame is deleted where the result holds none; a failed assertion is `none`.
  unfoldable pub open_frame :
      Option Crypto → Noncegen Filter → Frame → Option (Option Frame × Noncegen Filter)
  open_frame none g msg = some (some msg, g)
  open_frame (some c) g msg = elim (crypto_open_inplace c bl g msg.bytes max_packet_size) [
    | none ↦ none
    | some (none, g') ↦ some (none, g')
    | some (some plain, g') ↦ some (some (record msg { bytes = plain }), g')
  ]

  open_frame_runs :
      (c : Option Crypto) (g : Noncegen Filter) (msg : Frame)
      → length msg.bytes ≤ max_packet_size
      → Ends (λ _. Unit {0}) (open_frame c g msg)
  unfolding open_frame crypto_open_inplace
  open_frame_runs none g msg h = tt
  open_frame_runs (some c) g msg h = ground arith

module _ (ser : Serialize) (lib : Ikcp) (bl : Bloom) (memory : Bool) (conf : KcpConf) where
  open lib use {Kcp}
  open bl use {Filter}

  abbrev pub Dispatched : Type 0
  Dispatched = Option (ℕ × Server Kcp × Noncegen Filter)

  -- A frame that was opened goes to its session; then come the others. What the sockets take is not
  -- collected.
  unfoldable pub dispatch_one :
      (ℕ → Server Kcp → Noncegen Filter → Dispatched)
      → ℕ
      → Answers
      → Server Kcp
      → Option (Option Frame × Noncegen Filter)
      → Dispatched
  dispatch_one next n a s none = none
  dispatch_one next n a s (some (none, g)) = next n s g
  dispatch_one next n a s (some (some m, g)) = elim (queue_recv ser lib memory conf a m s) [
    | none ↦ none
    | some (_, s') ↦ next (n + length m.bytes) s' g
  ]

  -- The loop of `queue_dispatch`; `n` is `nbrecv`.
  unfoldable pub dispatch_rounds :
      Option Crypto → List Arrival → ℕ → Server Kcp → Noncegen Filter → Dispatched
  unfolding dispatch_one
  dispatch_rounds c [] n s g = some (n, s, g)
  dispatch_rounds c ((msg, a) ∷ rest) n s g =
      dispatch_one (dispatch_rounds c rest) n a s (open_frame bl c g msg)

  unfoldable pub queue_dispatch :
      Option Crypto → List Arrival → Server Kcp → Noncegen Filter → Dispatched
  queue_dispatch c [] s g = some (0, s, g)
  queue_dispatch c (f ∷ fs) s g =
      dispatch_rounds c (f ∷ fs) 0 (record s { last_recv_time = some s.now }) g

  -- What is left to do after a packet behaves.
  abbrev pub AfterOne : (Server Kcp → Type 0) → Option (List ℕ × Server Kcp) → Type 0
  AfterOne next none = Unit
  AfterOne next (some (_, s')) = next s'

  abbrev pub BehavesOne :
      (Server Kcp → Noncegen Filter → Type 0)
      → Answers
      → Server Kcp
      → Option (Option Frame × Noncegen Filter)
      → Type 0
  BehavesOne next a s none = Unit
  BehavesOne next a s (some (none, g)) = next s g
  BehavesOne next a s (some (some m, g)) =
      FramedFor ser lib m (receiver ser lib memory conf m s)
      × AfterOne (λ s'. next s' g) (queue_recv ser lib memory conf a m s)

  -- Each packet fits a frame, and each that is opened leaves its session, when its turn comes, a row
  -- of messages to read.
  unfoldable pub Behaves : Option Crypto → List Arrival → Server Kcp → Noncegen Filter → Type 0
  Behaves c [] s g = Unit
  Behaves c ((msg, a) ∷ rest) s g =
      (length msg.bytes ≤ max_packet_size) × BehavesOne (Behaves c rest) a s (open_frame bl c g msg)

  abbrev Done : Dispatched → Type 0
  Done o = Ends (λ (r : ℕ × Server Kcp × Noncegen Filter). AllValid r.1.sessions) o

  received :
      (next : ℕ → Server Kcp → Noncegen Filter → Dispatched) (N : Server Kcp → Type 0)
      (o : Option (List ℕ × Server Kcp)) (n : ℕ) (g : Noncegen Filter)
      → Ends (λ r. AllValid r.1.sessions) o
      → AfterOne N o
      → ((s' : Server Kcp) → AllValid s'.sessions → N s' → Done (next n s' g))
      → Done (elim o [ none ↦ none | some (_, s') ↦ next n s' g ])
  received next N none n g h b f = h
  received next N (some (out, s')) n g h b f = f s' h b

  dispatch_one-AllValid :
      (next : ℕ → Server Kcp → Noncegen Filter → Dispatched)
      (N : Server Kcp → Noncegen Filter → Type 0)
      → ((n : ℕ) (s : Server Kcp) (g : Noncegen Filter)
          → AllValid s.sessions
          → N s g
          → Done (next n s g))
      → (n : ℕ) (a : Answers) (s : Server Kcp) (o : Option (Option Frame × Noncegen Filter))
      → AllValid s.sessions
      → Ends (λ _. Unit {0}) o
      → BehavesOne N a s o
      → Done (dispatch_one next n a s o)
  unfolding dispatch_one
  dispatch_one-AllValid next N ih n a s none v r b = r
  dispatch_one-AllValid next N ih n a s (some (none, g)) v r b = ih n s g v b
  dispatch_one-AllValid next N ih n a s (some (some m, g)) v r (f, b) =
      received next (λ s'. N s' g) (queue_recv ser lib memory conf a m s) (n + length m.bytes) g
        (queue_recv-AllValid ser lib memory conf a m s v f) b
        (λ s' w b'. ih (n + length m.bytes) s' g w b')

  dispatch_rounds-AllValid :
      (c : Option Crypto) (fs : List Arrival) (n : ℕ) (s : Server Kcp) (g : Noncegen Filter)
      → AllValid s.sessions
      → Behaves c fs s g
      → Done (dispatch_rounds c fs n s g)
  unfolding dispatch_rounds Behaves
  dispatch_rounds-AllValid c [] n s g v b = v
  dispatch_rounds-AllValid c ((msg, a) ∷ rest) n s g v (h, b) =
      dispatch_one-AllValid (dispatch_rounds c rest) (Behaves c rest)
        (λ n' s' g' v' b'. dispatch_rounds-AllValid c rest n' s' g' v' b') n a s
        (open_frame bl c g msg) v (open_frame_runs bl c g msg h) b

  -- Processing a whole round of packets, each of which fits a frame, ends without a fault and leaves
  -- all sessions valid, if they were and if each packet that is opened leaves its session, when its
  -- turn comes, a row of messages each at least as long as its header.
  pub queue_dispatch-AllValid :
      (c : Option Crypto) (fs : List Arrival) (s : Server Kcp) (g : Noncegen Filter)
      → AllValid s.sessions
      → Behaves c fs (record s { last_recv_time = some s.now }) g
      → Ends
          (λ (r : ℕ × Server Kcp × Noncegen Filter). AllValid r.1.sessions)
          (queue_dispatch c fs s g)
  unfolding queue_dispatch
  queue_dispatch-AllValid c [] s g v b = v
  queue_dispatch-AllValid c (f ∷ fs) s g v b =
      dispatch_rounds-AllValid c (f ∷ fs) 0 (record s { last_recv_time = some s.now }) g v b
