-- ===== src/Switch/Lifecycle.antt =====
-- src/index.js: the life of the switch from `start` to `stop`, and `hangUp`, with the dialer's
-- manager, which src/dialer/index.js starts and stops. fsm-event is a parameter that is used by its
-- table. A call of `this.state(t)` is a request, and `performs` hands the oldest one to fsm-event.
-- Each use of `eachSeries`, `each` and `series` of the package async is a job, and an answer to it
-- is an input, in any order with the others. Transports, listeners, connections and callbacks are
-- numbers.
use js_libp2p_swarm.Prelude.{
  ℕ, zero, suc, ◌≡◌, Bool, if◌then◌else◌, Option, none, some, List, [], ◌∷◌, ◌++◌, map, length,
  get_elem?,
}
use js_libp2p_swarm.Errors.{SwitchError}
use js_libp2p_swarm.Dialer.Context.{Context}
use js_libp2p_swarm.Dialer.Manager.{Manager, Completion, returned, threw, state, Request}
use js_libp2p_swarm.Dialer.Manager
use js_libp2p_swarm.Dialer.Manager.Sweep
use js_libp2p_swarm.Dialer.Manager.Listeners.{Event}
use js_libp2p_swarm.Dialer.Manager.History

pub data State : Type 0 where
  stopped starting started stopping : State

pub data Trigger : Type 0 where
  start stop done : Trigger

unfoldable pub transition : State → Trigger → Option State
transition stopped start = some starting
transition stopped stop = some stopping
transition starting done = some started
transition starting stop = some stopping
transition started stop = some stopping
transition started start = some started
transition stopping stop = some stopping
transition stopping done = some stopped
transition _ _ = none

pub record Fsm : Type 0 where
  pub fire : State → Trigger → Option State
  pub follows : (s : State) (t : Trigger) → fire s t ≡ transition s t

pub data Effect : Type 0 where
  stats_start stats_stop : Effect
  -- `transport.listen(key, …)`
  listen : (key : ℕ) → Effect
  close_listener close_conn : ℕ → Effect
  emit_start emit_stop : Effect
  emit_error : SwitchError → Effect
  -- `emit('error', err)` with the error of fsm-event
  emit_invalid_transition : Effect
  -- the call of a callback
  called : ℕ → Effect
  -- an exception out of a function of the dialer's manager, which goes to what called it: the
  -- caller of `dial`, or the emitter of an event
  dialer_threw : Effect
  -- an exception out of `hangUp` to its caller
  hang_up_threw : (peer : ℕ) → Effect

-- The iterations of async that are not over.
pub data Job : Type 0 where
  -- one transport is asked to listen, and these come after it
  series : (rest : List ℕ) → Job
  -- so many listeners or connections have still to answer
  closing_listeners closing_conns : (left : ℕ) → Job
  hanging_up : (callback : ℕ) → (left : ℕ) → Job
  finished : Job

-- What the switch reads at a moment: the dialer's readings, `availableTransports(_peerInfo)`, the
-- listeners of all transports, `connection.getAll()`, `connection.getAllById` of a peer, whether the
-- switch has a listener of `error`, and whether `getPeerInfo` finds a peer.
pub record Readings : Type 0 where
  pub context : Context
  pub available : List ℕ
  pub listeners : List ℕ
  pub connections : List ℕ
  pub connections_to : ℕ → List ℕ
  pub has_error_listener : Bool
  pub finds_peer : ℕ → Bool

pub record Switch : Type 0 where
  pub state : State
  pub manager : Manager
  -- the callbacks that wait for `start` and for `stop`
  pub on_start : List ℕ
  pub on_stop : List ℕ
  pub jobs : List Job
  -- the calls of `this.state` that were not yet answered, oldest first
  pub requests : List Trigger
  pub log : List Effect

unfoldable pub init : Switch
unfolding Manager.init
init = record {
  state = stopped;
  manager = Manager.init;
  on_start = [];
  on_stop = [];
  jobs = [];
  requests = [];
  log = [];
}

abbrev pub request : Trigger → Switch → Switch
request t s = record s { requests = s.requests ++ t ∷ [] }

abbrev pub write : List Effect → Switch → Switch
write es s = record s { log = s.log ++ es }

abbrev pub add_job : Job × Switch → Switch
add_job (j, s) = record s { jobs = s.jobs ++ j ∷ [] }

-- The next step of the `eachSeries` of `_onStarting`, and its end.
unfoldable pub series_next : List ℕ → Switch → Job × Switch
series_next [] s = (finished, request done s)
series_next (key ∷ rest) s = (series rest, write (listen key ∷ []) s)

-- The second task of `_onStopping`, and its end.
unfoldable pub close_conns : List ℕ → Switch → Job × Switch
close_conns [] s = (finished, request done s)
close_conns (c ∷ cs) s = (closing_conns (suc (length cs)), write (map close_conn (c ∷ cs)) s)

-- The first task of `_onStopping`, and the second where there is no listener.
unfoldable pub close_listeners : Readings → List ℕ → Switch → Job × Switch
unfolding close_conns
close_listeners r [] s = close_conns r.connections s
close_listeners r (l ∷ ls) s =
    (closing_listeners (suc (length ls)), write (map close_listener (l ∷ ls)) s)

unfoldable pub on_starting : Readings → Switch → Switch
unfolding series_next
on_starting r s = add_job (series_next r.available (write (stats_start ∷ []) s))

unfoldable pub on_stopping : Readings → Switch → Switch
unfolding close_listeners
on_stopping r s = add_job (close_listeners r r.listeners (write (stats_stop ∷ []) s))

-- A state is entered: the dialer's listener comes first. `none` is an exception.
unfoldable pub enter : Readings → State → Switch → Option Switch
unfolding on_starting on_stopping Manager.start Sweep.stop
enter r starting s = some (on_starting r s)
enter r started s = some (record s {
  manager = Manager.start s.manager;
  log = s.log ++ emit_start ∷ map called s.on_start;
  on_start = [];
})
enter r stopping s = elim (Sweep.stop r.context s.manager) [
  | threw m ↦ none
  | returned m ↦ some (on_stopping r (record s { manager = m }))
]
enter r stopped s =
    some (record s { log = s.log ++ emit_stop ∷ map called s.on_stop; on_stop = [] })

-- `emit('error', err)`: without a listener it throws `err`.
abbrev pub emit_or_throw : Readings → Effect → Switch → Option Switch
emit_or_throw r e s = if r.has_error_listener then some (write (e ∷ []) s) else none

unfoldable pub answer : Fsm → Readings → Trigger → Switch → Option Switch
unfolding enter
answer fsm r t s = elim (fsm.fire s.state t) [
  | none ↦ emit_or_throw r emit_invalid_transition s
  | some next ↦ enter r next (record s { state = next })
]

unfoldable pub perform : Fsm → Readings → List Trigger → Switch → Option Switch
unfolding answer
perform fsm r [] s = some s
perform fsm r (t ∷ ts) s = answer fsm r t (record s { requests = ts })

-- The end of `eachSeries` with an error.
abbrev pub series_failed : Option Switch → Option (Job × Switch)
series_failed none = none
series_failed (some s) = some (finished, request stop s)

-- A job is answered. The errors of listeners are only logged. `none` is an exception.
unfoldable pub answer_job : Readings → Job → Option SwitchError → Switch → Option (Job × Switch)
unfolding series_next close_conns
answer_job r (series rest) none s = some (series_next rest s)
answer_job r (series rest) (some e) s = series_failed (emit_or_throw r (emit_error e) s)
answer_job r (closing_listeners zero) e s = some (closing_listeners zero, s)
answer_job r (closing_listeners (suc zero)) e s = some (close_conns r.connections s)
answer_job r (closing_listeners (suc (suc n))) e s = some (closing_listeners (suc n), s)
answer_job r (closing_conns zero) e s = some (closing_conns zero, s)
answer_job r (closing_conns (suc zero)) e s = some (finished, request done s)
answer_job r (closing_conns (suc (suc n))) e s = some (closing_conns (suc n), s)
answer_job r (hanging_up cb zero) e s = some (hanging_up cb zero, s)
answer_job r (hanging_up cb (suc zero)) e s = some (finished, write (called cb ∷ []) s)
answer_job r (hanging_up cb (suc (suc n))) e s = some (hanging_up cb (suc n), s)
answer_job r finished e s = some (finished, s)

abbrev pub set_job : ℕ → Job → List Job → List Job
set_job k j [] = []
set_job zero j (i ∷ is) = j ∷ is
set_job (suc k) j (i ∷ is) = i ∷ set_job k j is

abbrev pub put_job : ℕ → Job × Switch → Switch
put_job k (j, s) = record s { jobs = set_job k j s.jobs }

abbrev pub put_answered : ℕ → Option (Job × Switch) → Option Switch
put_answered k none = none
put_answered k (some x) = some (put_job k x)

unfoldable pub on_answer : Readings → ℕ → Option SwitchError → Switch → Option Switch
unfolding answer_job
on_answer r k e s = elim (get_elem? s.jobs k) [
  | none ↦ some s
  | some j ↦ put_answered k (answer_job r j e s)
]

-- `hangUp` for a peer that `getPeerInfo` finds.
unfoldable pub hang_up : List ℕ → ℕ → Switch → Job × Switch
hang_up [] cb s = (finished, write (called cb ∷ []) s)
hang_up (c ∷ cs) cb s = (hanging_up cb (suc (length cs)), write (map close_conn (c ∷ cs)) s)

-- What the dialer's own callers do to its manager; `start` and `stop` are the switch's.
pub data DialerCall : Type 0 where
  adds : Request → DialerCall
  clears : (id : ℕ) → DialerCall
  cleans : DialerCall
  emits : (connection : ℕ) → Event → DialerCall

abbrev pub manager_call : DialerCall → History.Call
manager_call (adds r) = History.adds r
manager_call (clears id) = History.clears id
manager_call cleans = History.cleans
manager_call (emits k e) = History.emits k e

pub data Input : Type 0 where
  -- fsm-event answers the oldest request
  performs : Input
  -- `start(callback)` and `stop(callback)`
  starts stops : (callback : ℕ) → Input
  hangs_up : (peer : ℕ) → (callback : ℕ) → Input
  answered : (job : ℕ) → Option SwitchError → Input
  dialer : DialerCall → Input

-- What a call of the dialer's manager leaves, and what it threw.
abbrev pub keep_manager : Completion → Switch → Switch
keep_manager (returned m) s = record s { manager = m }
keep_manager (threw m) s = record s { manager = m; log = s.log ++ dialer_threw ∷ [] }

unfoldable pub step : Fsm → Readings → Input → Switch → Option Switch
unfolding perform on_answer hang_up History.step
step fsm r performs s = perform fsm r s.requests s
step fsm r (starts cb) s = some (request start (record s { on_start = s.on_start ++ cb ∷ [] }))
step fsm r (stops cb) s = some (request stop (record s { on_stop = s.on_stop ++ cb ∷ [] }))
step fsm r (hangs_up peer cb) s = some (
    if r.finds_peer peer
    then add_job (hang_up (r.connections_to peer) cb s)
    else write (hang_up_threw peer ∷ []) s)
step fsm r (answered k e) s = on_answer r k e s
step fsm r (dialer c) s = some (keep_manager (History.step r.context (manager_call c) s.manager) s)

-- A history of the switch; `none` is an exception out of one of its steps.
unfoldable pub run : Fsm → List (Readings × Input) → Switch → Option Switch
unfolding step
run fsm [] s = some s
run fsm ((r, i) ∷ rest) s = elim (step fsm r i s) [ none ↦ none | some s' ↦ run fsm rest s' ]
