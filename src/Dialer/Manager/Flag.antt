-- ===== src/Dialer/Manager/Flag.antt =====
-- `isRunning` of src/dialer/queueManager.js: of all calls, only `start` and `stop` change it.
use js_libp2p_swarm.Prelude.{◌≡◌, refl, Bool, true, false}
use js_libp2p_swarm.Dialer.Context.{Context}
use js_libp2p_swarm.Dialer.Manager.{Manager, start, state}
use js_libp2p_swarm.Dialer.Manager.Growth.{
  add-Keeps, clear_denylist-Grows, clean-Keeps, for_each-Keeps, abort_and_delete-Keeps,
}
use js_libp2p_swarm.Dialer.Manager.Answers.{emit-flag}
use js_libp2p_swarm.Dialer.Manager.History.{Call, adds, clears, starts, stops, cleans, emits, step}
use js_libp2p_swarm.Dialer.Manager.Sweep.{stop, listed_refs, abort_and_delete}

-- What a call makes of `isRunning`.
abbrev pub flag_after : Call → Bool → Bool
flag_after starts b = true
flag_after stops b = false
flag_after _ b = b

pub step-flag :
    (c : Context) (a : Call) (m : Manager)
    → (state (step c a m)).is_running ≡ flag_after a m.is_running
unfolding step start stop
step-flag c (adds r) m = (add-Keeps c r m).same_flag
step-flag c (clears id) m = (clear_denylist-Grows id m).same_flag
step-flag c starts m = refl
step-flag c stops m =
    (for_each-Keeps (abort_and_delete c) (listed_refs 0 m.heap) (abort_and_delete-Keeps c)
      _).same_flag
step-flag c cleans m = (clean-Keeps c m).same_flag
step-flag c (emits k e) m = emit-flag c k e m
