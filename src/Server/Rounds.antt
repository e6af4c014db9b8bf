-- ===== src/Server/Rounds.antt =====
-- What timers do to all sessions of the server (src/event_timer.c, timeout_cb; src/event_kcp.c,
-- kcp_update_cb).
pub mod Laws
use kcptun_libev.Base.{Bool, true, false, List, [], ◌∷◌, ◌++◌, Option, none, some, ℕ}
use kcptun_libev.Library.{Serialize, Ikcp}
use kcptun_libev.Session.{Session}
use kcptun_libev.Session.Step.{World, M}
use kcptun_libev.Session.Process.{kcp_update}
use kcptun_libev.Server.{Server}
use kcptun_libev.Server.Receive.{Answers, world_with}
use kcptun_libev.Timer.{Timeouts, timeout_filt}

module _ (ser : Serialize) (lib : Ikcp) where
  open lib use {Kcp}

  -- The sessions that stay, and the server with its counters.
  abbrev pub Filtered : Type 0
  Filtered = Option (List (Session Kcp) × Server Kcp)

  abbrev pub kept : Session Kcp → Filtered → Filtered
  kept ss none = none
  kept ss (some (rest, s)) = some (ss ∷ rest, s)

  -- One session, whose filter gave `o`; `next` filters the rest.
  abbrev pub filtered : (Server Kcp → Filtered) → Server Kcp → Option (Bool × World Kcp) → Filtered
  filtered next s none = none
  filtered next s (some (true, w)) = kept w.ss (next (record s { stats = w.total }))
  filtered next s (some (false, w)) = next (record s { stats = w.total })

  module _ (t : Timeouts) (a : Session Kcp → Answers) where
    unfoldable pub filter_sessions : List (Session Kcp) → Server Kcp → Filtered
    filter_sessions [] s = some ([], s)
    filter_sessions (ss ∷ rest) s =
        filtered (filter_sessions rest) s (timeout_filt ser lib t (world_with ser lib (a ss) s ss))

    -- `table_filter`; the pool of frames is left out.
    unfoldable pub timeout_cb : Server Kcp → Option (Server Kcp)
    unfolding filter_sessions
    timeout_cb s = elim (filter_sessions s.sessions s) [
      | none ↦ none
      | some (rest, s') ↦ some (record s' { sessions = rest })
    ]

  -- What KCP has to send goes to `kcp_output`, and is collected here.
  abbrev pub Updated : Type 0
  Updated = Option (List (List ℕ) × List (Session Kcp) × Server Kcp)

  abbrev pub also : List (List ℕ) → Session Kcp → Updated → Updated
  also packets ss none = none
  also packets ss (some (more, rest, s)) = some (packets ++ more, ss ∷ rest, s)

  abbrev pub updated :
      (Server Kcp → Updated) → Server Kcp → Option (List (List ℕ) × World Kcp) → Updated
  updated next s none = none
  updated next s (some (packets, w)) = also packets w.ss (next (record s { stats = w.total }))

  unfoldable pub update_sessions :
      (Session Kcp → Answers) → List (Session Kcp) → Server Kcp → Updated
  update_sessions a [] s = some ([], [], s)
  update_sessions a (ss ∷ rest) s =
      updated (update_sessions a rest) s (kcp_update ser lib (world_with ser lib (a ss) s ss))

  -- `table_iterate` with `kcp_update_iter`
  unfoldable pub kcp_update_cb :
      (Session Kcp → Answers) → Server Kcp → Option (List (List ℕ) × Server Kcp)
  unfolding update_sessions
  kcp_update_cb a s = elim (update_sessions a s.sessions s) [
    | none ↦ none
    | some (packets, rest, s') ↦ some (packets, record s' { sessions = rest })
  ]
