-- ===== src/Switch/Stopping.antt =====
-- `stop` of src/index.js: what the switch has done once listeners and connections are closed.
use js_libp2p_swarm.Prelude.{
  ℕ, suc, ◌≡◌, refl, sym, ap, ◌∙◌, Option, some, List, [], ◌∷◌, ◌++◌, map, length,
}
use mathlib.Core.List.{append-nil}
use js_libp2p_swarm.Errors.{SwitchError}
use js_libp2p_swarm.Dialer.Manager.{Manager}
use js_libp2p_swarm.Dialer.Manager.Invariant.{IsValid}
use js_libp2p_swarm.Dialer.Manager.Shutdown.{stop_lem, closed_cell, aborted}
use js_libp2p_swarm.Dialer.Manager.Shutdown
use js_libp2p_swarm.Switch.Jobs.{set_job-last, on_answer-last, run-through, run-answered}
use js_libp2p_swarm.Switch.Lifecycle.{
  State, stopped, stopping, stop, done, Fsm, Switch, Readings, closing_listeners, closing_conns,
  finished, stats_stop, close_listener, close_conn, emit_stop, called, transition, request, write,
  add_job, put_job, close_conns, close_listeners, answer_job, on_answer, on_stopping, enter, answer,
  perform, Input, performs, answered, step, run,
}

-- The manager that `stop` leaves.
abbrev pub stopped_manager : Manager → Manager
stopped_manager m =
    Shutdown.stopping (map closed_cell m.heap) [] m.pending (m.log ++ aborted m.heap)

module _ (fsm : Fsm) (r : Readings) (errors : ℕ → Option SwitchError) where
  -- The answers of listeners or connections, one each.
  abbrev pub closings : ℕ → List ℕ → List (Readings × Input)
  closings job [] = []
  closings job (x ∷ xs) = (r, answered job (errors x)) ∷ closings job xs

  abbrev conns_closed : List ℕ → Switch → Switch
  conns_closed cs s = record s {
    requests = s.requests ++ done ∷ [];
    log = s.log ++ map close_conn cs;
  }

  on_answer-conns :
      (e : Option SwitchError) (n : ℕ) (s : Switch)
      → on_answer r (length s.jobs) e (add_job (closing_conns (suc (suc n)), s))
        ≡ some (add_job (closing_conns (suc n), s))
  unfolding answer_job
  on_answer-conns e n s = on_answer-last r e s (closing_conns (suc (suc n))) ∙ (λ i.
      some (record s {
        jobs = set_job-last s.jobs (closing_conns (suc (suc n))) (closing_conns (suc n)) i;
      }))

  on_answer-last_conn :
      (e : Option SwitchError) (s : Switch)
      → on_answer r (length s.jobs) e (add_job (closing_conns 1, s))
        ≡ some (add_job (finished, request done s))
  unfolding answer_job
  on_answer-last_conn e s = on_answer-last r e s (closing_conns 1) ∙ (λ i.
      some (record (request done s) { jobs = set_job-last s.jobs (closing_conns 1) finished i }))

  on_answer-listeners :
      (e : Option SwitchError) (n : ℕ) (s : Switch)
      → on_answer r (length s.jobs) e (add_job (closing_listeners (suc (suc n)), s))
        ≡ some (add_job (closing_listeners (suc n), s))
  unfolding answer_job
  on_answer-listeners e n s = on_answer-last r e s (closing_listeners (suc (suc n))) ∙ (λ i.
      some (record s {
        jobs = set_job-last s.jobs (closing_listeners (suc (suc n))) (closing_listeners (suc n)) i;
      }))

  on_answer-last_listener :
      (e : Option SwitchError) (s : Switch)
      → on_answer r (length s.jobs) e (add_job (closing_listeners 1, s))
        ≡ some (add_job (close_conns r.connections s))
  unfolding close_conns answer_job
  on_answer-last_listener e s =
      on_answer-last r e s (closing_listeners 1) ∙ ap some (after r.connections)
    where
      after :
          (cs : List ℕ)
          → put_job (length s.jobs) (close_conns cs (add_job (closing_listeners 1, s)))
            ≡ add_job (close_conns cs s)
      after [] = λ i. record (request done s) {
        jobs = set_job-last s.jobs (closing_listeners 1) finished i;
      }
      after (c ∷ cs) = λ i. record (write (map close_conn (c ∷ cs)) s) {
        jobs = set_job-last s.jobs (closing_listeners 1) (closing_conns (suc (length cs))) i;
      }

  -- All connections but the first, and the first of them after the others.
  run-conns_from :
      (c : ℕ) (cs : List ℕ) (s : Switch)
      → run fsm (closings (length s.jobs) (c ∷ cs)) (add_job (closing_conns (suc (length cs)), s))
        ≡ some (add_job (finished, request done s))
  unfolding run step
  run-conns_from c [] s =
      run-answered fsm r (length s.jobs) (errors c) [] _ _ (on_answer-last_conn (errors c) s)
  run-conns_from c (d ∷ cs) s =
      run-answered fsm r (length s.jobs) (errors c) (closings (length s.jobs) (d ∷ cs)) _ _
        (on_answer-conns (errors c) (length cs) s)
      ∙ run-conns_from d cs s

  run-conns :
      (cs : List ℕ) (s : Switch)
      → run fsm (closings (length s.jobs) cs) (add_job (close_conns cs s))
        ≡ some (add_job (finished, conns_closed cs s))
  unfolding run step close_conns
  run-conns [] s =
      λ i. some (add_job (finished, record (request done s) { log = sym (append-nil s.log) i }))
  run-conns (c ∷ cs) s = run-conns_from c cs (write (map close_conn (c ∷ cs)) s)

  run-listeners_from :
      (l : ℕ) (ls : List ℕ) (s : Switch)
      → run fsm
          (closings (length s.jobs) (l ∷ ls))
          (add_job (closing_listeners (suc (length ls)), s))
        ≡ some (add_job (close_conns r.connections s))
  unfolding run step
  run-listeners_from l [] s =
      run-answered fsm r (length s.jobs) (errors l) [] _ _ (on_answer-last_listener (errors l) s)
  run-listeners_from l (d ∷ ls) s =
      run-answered fsm r (length s.jobs) (errors l) (closings (length s.jobs) (d ∷ ls)) _ _
        (on_answer-listeners (errors l) (length ls) s)
      ∙ run-listeners_from d ls s

  run-listeners :
      (ls : List ℕ) (s : Switch)
      → run fsm (closings (length s.jobs) ls) (add_job (close_listeners r ls s))
        ≡ some (add_job (close_conns r.connections (write (map close_listener ls) s)))
  unfolding run step close_listeners
  run-listeners [] s =
      λ i. some (add_job (close_conns r.connections (record s { log = sym (append-nil s.log) i })))
  run-listeners (l ∷ ls) s = run-listeners_from l ls (write (map close_listener (l ∷ ls)) s)

  -- The inputs that a stop is finished by.
  abbrev pub stop_inputs : Switch → List (Readings × Input)
  stop_inputs s =
      (r, performs) ∷ closings (length s.jobs) r.listeners
      ++ (closings (length s.jobs) r.connections ++ (r, performs) ∷ [])

  abbrev entered : Switch → Switch
  entered s = record s {
    state = stopping;
    manager = stopped_manager s.manager;
    requests = [];
    log = s.log ++ stats_stop ∷ [];
  }

  enter_stopping :
      (s : Switch) (st : State)
      → transition st stop ≡ some stopping
      → IsValid r.context.limits s.manager
      → perform fsm r (stop ∷ []) (record s { state = st; requests = stop ∷ [] })
        ≡ some (add_job (close_listeners r r.listeners (entered s)))
  unfolding perform answer enter on_stopping
  enter_stopping s st t v =
      rw (fsm.follows st stop ∙ t, answer, stop_lem r.context s.manager v, enter) refl

  abbrev listeners_closed : Switch → Switch
  listeners_closed s = write (map close_listener r.listeners) (entered s)

  -- The last answer of fsm-event.
  finish_stopping :
      (s : Switch)
      → run fsm ((r, performs) ∷ []) (record s { state = stopping; requests = done ∷ [] })
        ≡ some (record s {
          state = stopped;
          on_stop = [];
          requests = [];
          log = s.log ++ emit_stop ∷ map called s.on_stop;
        })
  unfolding run step perform answer enter transition
  finish_stopping s = rw (fsm.follows stopping done, run) refl

  -- Where the switch is in a state that accepts `stop`, its dialer's manager is valid, every listener
  -- and every connection that the stop tells to close answers, the listeners with whatever error, and
  -- nothing else is called, answered or changed meanwhile, a request to stop, the only one that is
  -- pending, is carried out: the dialer's
  -- manager is emptied and fails each of its requests with `DIAL_ABORTED`, the statistics are stopped,
  -- every listener is told to close, and when the last of them has answered every connection is. When
  -- the last of these has answered the switch is in STOPPED, `stop` is emitted and every callback that
  -- waits for it is called once.
  pub run-stop :
      (s : Switch) (st : State)
      → transition st stop ≡ some stopping
      → IsValid r.context.limits s.manager
      → run fsm (stop_inputs s) (record s { state = st; requests = stop ∷ [] })
        ≡ some (record s {
          state = stopped;
          manager = stopped_manager s.manager;
          on_stop = [];
          jobs = s.jobs ++ finished ∷ [];
          requests = [];
          log =
              (((s.log ++ stats_stop ∷ []) ++ map close_listener r.listeners)
                ++ map close_conn r.connections)
              ++ emit_stop ∷ map called s.on_stop;
        })
  unfolding run step
  run-stop s st t v =
      rw (enter_stopping s st t v, run)
        (run-through fsm (closings (length s.jobs) r.listeners) _
            (add_job (close_listeners r r.listeners (entered s))) _
            (run-listeners r.listeners (entered s))
          ∙ run-through fsm (closings (length s.jobs) r.connections) ((r, performs) ∷ [])
              (add_job (close_conns r.connections (listeners_closed s))) _
              (run-conns r.connections (listeners_closed s))
          ∙ finish_stopping (add_job (finished, conns_closed r.connections (listeners_closed s))))
