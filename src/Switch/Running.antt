-- ===== src/Switch/Running.antt =====
-- The life of the switch of src/index.js raises no exception of its own, and its state and the dialer's manager agree.
use js_libp2p_swarm.Prelude.{
  ℕ, zero, suc, ◌≡◌, refl, sym, ap, ◌∙◌, subst, Bool, true, not, Option, none, some, List, [], ◌∷◌,
  get_elem?, Option-cases, Bool-cases, inl, inr,
}
use js_libp2p_swarm.Errors.{SwitchError}
use js_libp2p_swarm.Dialer.Context.{Limits}
use js_libp2p_swarm.Dialer.Manager.{Manager, Completion, returned, threw, state}
use js_libp2p_swarm.Dialer.Manager.History
use js_libp2p_swarm.Dialer.Manager.Invariant.{IsValid}
use js_libp2p_swarm.Dialer.Manager.Methods.{init-IsValid}
use js_libp2p_swarm.Dialer.Manager.Histories.{step-IsValid}
use js_libp2p_swarm.Dialer.Manager.Shutdown.{stop_lem}
use js_libp2p_swarm.Dialer.Manager.Flag.{step-flag, flag_after}
use js_libp2p_swarm.Switch.Lifecycle.{
  State, stopped, starting, started, stopping, Trigger, Fsm, Switch, Readings, init, Job, series,
  closing_listeners, closing_conns, hanging_up, finished, series_next, close_conns, close_listeners,
  hang_up, on_starting, answer_job, keep_manager, on_answer, enter, answer, perform, Input,
  performs, starts, stops, hangs_up, answered, dialer, DialerCall, adds, clears, cleans, emits,
  manager_call, step, run,
}

-- The dialer's manager runs while the switch is started, and does not while it is stopping.
abbrev pub agrees : State → Bool → Bool
agrees started b = b
agrees stopping b = not b
agrees _ b = true

pub record IsConsistent (l : Limits) (state : State) (m : Manager) : Type 0 where
  pub valid : IsValid l m
  pub agreement : agrees state m.is_running ≡ true

-- The state and the manager are the same.
abbrev Same : Switch → Switch → Type 0
Same s s' = (s'.state ≡ s.state) × (s'.manager ≡ s.manager)

series_next-Same : (rest : List ℕ) (s : Switch) → Same s (series_next rest s).1
unfolding series_next
series_next-Same [] s = (refl, refl)
series_next-Same (key ∷ rest) s = (refl, refl)

close_conns-Same : (cs : List ℕ) (s : Switch) → Same s (close_conns cs s).1
unfolding close_conns
close_conns-Same [] s = (refl, refl)
close_conns-Same (c ∷ cs) s = (refl, refl)

close_listeners-Same : (r : Readings) (ls : List ℕ) (s : Switch) → Same s (close_listeners r ls s).1
unfolding close_listeners
close_listeners-Same r [] s = close_conns-Same r.connections s
close_listeners-Same r (l ∷ ls) s = (refl, refl)

hang_up-Same : (cs : List ℕ) (cb : ℕ) (s : Switch) → Same s (hang_up cs cb s).1
unfolding hang_up
hang_up-Same [] cb s = (refl, refl)
hang_up-Same (c ∷ cs) cb s = (refl, refl)

-- A job that is answered with no exception.
Answered : Switch → Option (Job × Switch) → Type 0
Answered s o = (j : Job) × (s' : Switch) × (o ≡ some (j, s')) × Same s s'

answer_job-Answered :
    (r : Readings) (j : Job) (e : Option SwitchError) (s : Switch)
    → r.has_error_listener ≡ true
    → Answered s (answer_job r j e s)
unfolding answer_job Answered
answer_job-Answered r (series rest) none s t = (_, _, refl, series_next-Same rest s)
answer_job-Answered r (series rest) (some e) s t = rw (t, answer_job) (_, _, refl, (refl, refl))
answer_job-Answered r (closing_listeners zero) e s t = (_, _, refl, (refl, refl))
answer_job-Answered r (closing_listeners (suc zero)) e s t =
    (_, _, refl, close_conns-Same r.connections s)
answer_job-Answered r (closing_listeners (suc (suc n))) e s t = (_, _, refl, (refl, refl))
answer_job-Answered r (closing_conns zero) e s t = (_, _, refl, (refl, refl))
answer_job-Answered r (closing_conns (suc zero)) e s t = (_, _, refl, (refl, refl))
answer_job-Answered r (closing_conns (suc (suc n))) e s t = (_, _, refl, (refl, refl))
answer_job-Answered r (hanging_up cb zero) e s t = (_, _, refl, (refl, refl))
answer_job-Answered r (hanging_up cb (suc zero)) e s t = (_, _, refl, (refl, refl))
answer_job-Answered r (hanging_up cb (suc (suc n))) e s t = (_, _, refl, (refl, refl))
answer_job-Answered r finished e s t = (_, _, refl, (refl, refl))

-- An answer that is read with no exception.
Read : Switch → Option Switch → Type 0
Read s o = (s' : Switch) × (o ≡ some s') × Same s s'

on_answer-Read :
    (r : Readings) (k : ℕ) (e : Option SwitchError) (s : Switch)
    → r.has_error_listener ≡ true
    → Read s (on_answer r k e s)
unfolding on_answer Answered Read
on_answer-Read r k e s t = elim (Option-cases (get_elem? s.jobs k)) [
  | inl g ↦ rw (g, on_answer) (s, refl, (refl, refl))
  | inr (j, g) ↦
      let (j', s', h, same) = answer_job-Answered r j e s t in rw (g, h, on_answer) (_, refl, same)
]

-- A result that is there and is consistent.
abbrev Goes : Limits → Option Switch → Type 0
Goes l o = (s : Switch) × (o ≡ some s) × IsConsistent l s.state s.manager

Same-Goes :
    (l : Limits) (s s' : Switch) → Same s s' → IsConsistent l s.state s.manager → Goes l (some s')
Same-Goes l s s' same v = (
  s',
  refl,
  subst (λ m. IsConsistent l s'.state m) (sym same.1)
      (subst (λ x. IsConsistent l x s.manager) (sym same.0) v),
)

-- A state is entered, whatever the state before was.
enter-Goes :
    (r : Readings) (next : State) (s : Switch)
    → IsValid r.context.limits s.manager
    → Goes r.context.limits (enter r next (record s { state = next }))
unfolding enter on_starting History.step
enter-Goes r starting s v =
    Same-Goes r.context.limits (record s { state = starting }) _ (series_next-Same r.available _)
      (record { valid = v; agreement = refl })
enter-Goes r started s v = (
  _,
  refl,
  record {
    valid = step-IsValid r.context History.starts s.manager v;
    agreement = step-flag r.context History.starts s.manager;
  },
)
enter-Goes r stopping s v =
    let eq = stop_lem r.context s.manager v in
    rw (eq, enter)
      (Same-Goes r.context.limits (record s { state = stopping; manager = _ }) _
        (close_listeners-Same r r.listeners _)
        (record {
          valid =
              subst (λ x. IsValid r.context.limits (state x)) eq
                (step-IsValid r.context History.stops s.manager v);
          agreement = refl;
        }))
enter-Goes r stopped s v = (_, refl, record { valid = v; agreement = refl })

perform-Goes :
    (fsm : Fsm) (r : Readings) (ts : List Trigger) (s : Switch)
    → r.has_error_listener ≡ true
    → IsConsistent r.context.limits s.state s.manager
    → Goes r.context.limits (perform fsm r ts s)
unfolding perform answer
perform-Goes fsm r [] s heard v = (s, refl, v)
perform-Goes fsm r (t ∷ ts) s heard v = elim (Option-cases (fsm.fire s.state t)) [
  | inl e ↦ rw (e, heard, answer) (_, refl, v)
  | inr (next, e) ↦ rw (e, answer) (enter-Goes r next (record s { requests = ts }) v.valid)
]

manager_call-flag : (d : DialerCall) (b : Bool) → flag_after (manager_call d) b ≡ b
manager_call-flag (adds r) b = refl
manager_call-flag (clears id) b = refl
manager_call-flag cleans b = refl
manager_call-flag (emits k e) b = refl

keep_manager-Goes :
    (l : Limits) (o : Completion) (s : Switch)
    → IsConsistent l s.state (state o)
    → Goes l (some (keep_manager o s))
keep_manager-Goes l (returned m) s v = (_, refl, v)
keep_manager-Goes l (threw m) s v = (_, refl, v)

step-Goes :
    (fsm : Fsm) (r : Readings) (i : Input) (s : Switch)
    → r.has_error_listener ≡ true
    → IsConsistent r.context.limits s.state s.manager
    → Goes r.context.limits (step fsm r i s)
unfolding step Read
step-Goes fsm r performs s h v = perform-Goes fsm r s.requests s h v
step-Goes fsm r (starts cb) s h v = (_, refl, v)
step-Goes fsm r (stops cb) s h v = (_, refl, v)
step-Goes fsm r (hangs_up peer cb) s h v = elim (Bool-cases (r.finds_peer peer)) [
  | inl f ↦
      rw (f, step) (Same-Goes r.context.limits s _ (hang_up-Same (r.connections_to peer) cb s) v)
  | inr f ↦ rw (f, step) (_, refl, v)
]
step-Goes fsm r (answered k e) s h v =
    let (s', g, same) = on_answer-Read r k e s h in
    rw (g, step) (Same-Goes r.context.limits s s' same v)
step-Goes fsm r (dialer c) s h v =
    keep_manager-Goes r.context.limits (History.step r.context (manager_call c) s.manager) s
      (record {
        valid = step-IsValid r.context (manager_call c) s.manager v.valid;
        agreement =
            ap (agrees s.state) (
              step-flag r.context (manager_call c) s.manager
              ∙ manager_call-flag c s.manager.is_running)
            ∙ v.agreement;
      })

-- The readings of a history are those of one dialer, whose limits do not change.
abbrev pub SameLimits : Limits → List (Readings × Input) → Type 0
SameLimits l [] = Unit {0}
SameLimits l ((r, i) ∷ rest) = (r.context.limits ≡ l) × SameLimits l rest

-- The switch has a listener of `error` at every moment of a history.
abbrev pub IsListened : List (Readings × Input) → Type 0
IsListened [] = Unit {0}
IsListened ((r, i) ∷ rest) = (r.has_error_listener ≡ true) × IsListened rest

run_from :
    (fsm : Fsm) (l : Limits) (history : List (Readings × Input)) (s : Switch)
    → SameLimits l history
    → IsListened history
    → IsConsistent l s.state s.manager
    → Goes l (run fsm history s)
unfolding run
run_from fsm l [] s h g v = (s, refl, v)
run_from fsm l ((r, i) ∷ rest) s h g v =
    let (s', e, w) =
      step-Goes fsm r i s g.0 (subst (λ x. IsConsistent x s.state s.manager) (sym h.0) v) in
    rw (e, run)
      (run_from fsm l rest s' h.1 g.1 (subst (λ x. IsConsistent x s'.state s'.manager) h.0 w))

-- Whatever is called, answered and dialed, in whatever order, at limits that do not change: where
-- the switch has a listener of `error` at every moment, no request that fsm-event answers and no
-- answer of a transport, a listener or a connection raises an exception in the switch, and also
-- where a dial or an event of a connection throws to what called it, the invariant of the dialer's
-- manager holds, and the manager may run queues in the state STARTED and may not in STOPPING.
pub run-IsConsistent :
    (fsm : Fsm) (l : Limits) (history : List (Readings × Input))
    → SameLimits l history
    → IsListened history
    → (s : Switch) × (run fsm history init ≡ some s) × IsConsistent l s.state s.manager
unfolding init
run-IsConsistent fsm l history h g =
    run_from fsm l history init h g (record { valid = init-IsValid l; agreement = refl })
