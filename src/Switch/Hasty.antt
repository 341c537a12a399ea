-- ===== src/Switch/Hasty.antt =====
-- A `stop` of src/index.js that comes while the switch is starting.
use js_libp2p_swarm.Prelude.{ℕ, suc, ◌≡◌, refl, none, some, List, [], ◌∷◌, ◌++◌, map, length}
use js_libp2p_swarm.Dialer.Manager.{Manager}
use js_libp2p_swarm.Dialer.Manager.Invariant.{IsValid}
use js_libp2p_swarm.Dialer.Manager.Shutdown.{stop_lem}
use js_libp2p_swarm.Switch.Lifecycle.{
  stopped, starting, stopping, start, stop, done, Fsm, Readings, closing_listeners, finished,
  stats_start, stats_stop, listen, close_listener, emit_stop, called, init, transition, series_next,
  close_listeners, on_starting, on_stopping, answer_job, on_answer, enter, answer, perform, Input,
  performs, starts, stops, answered, step, run,
}
use js_libp2p_swarm.Switch.Stopping.{stopped_manager}

-- The one available transport, and the listeners that there are already.
abbrev pub with_one : ℕ → List ℕ → Readings → Readings
with_one key listeners r = record r { available = key ∷ []; listeners = listeners }

-- A start, and a stop before the transport has answered that it listens.
abbrev pub hasty : Readings → ℕ → ℕ → List (Readings × Input)
hasty r cb cb' =
    (r, starts cb)
    ∷ (r, performs)
    ∷ (r, stops cb')
    ∷ (r, performs)
    ∷ (r, answered 0 none)
    ∷ (r, performs)
    ∷ []

-- A stop while the one available transport is asked to listen does not end the start: its answer
-- takes the switch to STOPPED and `stop` is emitted although listeners have still to close, and no
-- connection has been told to.
pub run-hasty :
    (fsm : Fsm) (r : Readings) (key cb cb' l : ℕ) (ls : List ℕ) (m : Manager)
    → IsValid r.context.limits m
    → run fsm (hasty (with_one key (l ∷ ls) r) cb cb') (record init { manager = m })
      ≡ some (record init {
        manager = stopped_manager m;
        on_start = cb ∷ [];
        jobs = finished ∷ closing_listeners (suc (length ls)) ∷ [];
        log =
            (stats_start ∷ listen key ∷ stats_stop ∷ map close_listener (l ∷ ls))
            ++ emit_stop ∷ called cb' ∷ [];
      })
unfolding init run step perform answer enter on_starting on_stopping series_next close_listeners
    on_answer answer_job transition
run-hasty fsm r key cb cb' l ls m v =
    rw
      (
        fsm.follows stopped start,
        fsm.follows starting stop,
        stop_lem r.context m v,
        fsm.follows stopping done,
        run,
      )
      refl
