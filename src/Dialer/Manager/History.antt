-- ===== src/Dialer/Manager/History.antt =====
-- All that can happen to the manager of src/dialer/queueManager.js, one call after the other.
use js_libp2p_swarm.Prelude.{ℕ, List, [], ◌∷◌}
use js_libp2p_swarm.Dialer.Context.{Context}
use js_libp2p_swarm.Dialer.Manager.{
  Manager, Completion, returned, state, Request, add, start, clear_denylist,
}
use js_libp2p_swarm.Dialer.Manager.Sweep.{stop, clean}
use js_libp2p_swarm.Dialer.Manager.Listeners.{Event, emit}

-- All that happens to a manager: the calls of src/dialer/index.js, the timer, and connections.
pub data Call : Type 0 where
  adds : Request → Call
  clears : ℕ → Call
  starts stops cleans : Call
  emits : (connection : ℕ) → Event → Call

unfoldable pub step : Context → Call → Manager → Completion
unfolding add clear_denylist start stop clean emit
step c (adds r) m = add c r m
step c (clears id) m = returned (clear_denylist id m)
step c starts m = returned (start m)
step c stops m = stop c m
step c cleans m = clean c m
step c (emits k e) m = emit c k e m

-- A history: an exception leaves the state as it is, and the program goes on with the next call.
unfoldable pub run_all : List (Context × Call) → Manager → Manager
unfolding step
run_all [] m = m
run_all ((c, a) ∷ rest) m = run_all rest (state (step c a m))
