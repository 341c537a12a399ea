-- ===== src/Switch/Examples.antt =====
-- The theorems on the switch of src/index.js at inputs that meet their hypotheses.
use js_libp2p_swarm.Prelude.{
  ℕ, ◌≡◌, refl, true, false, if◌then◌else◌, ◌==◌, Option, none, some, List, [], ◌∷◌, ◌++◌, has,
  lookup, map, ==→≡, arith,
}
use js_libp2p_swarm.Errors.{SwitchError, other}
use js_libp2p_swarm.Dialer.Context.{Context, Limits}
use js_libp2p_swarm.Dialer.Manager
use js_libp2p_swarm.Dialer.Manager.Methods.{init-IsValid}
use js_libp2p_swarm.Switch.Available.{
  Transport, available_transports, is_ordered, serves, available_transports_lem,
}
use js_libp2p_swarm.Switch.Protocols.{Call, handles, unhandles, no_protocols, serve, add_handlers}
use js_libp2p_swarm.Switch.Protocols.Handled.{
  last_handled, match_of, answered_by, is_some, run-serve,
}
use js_libp2p_swarm.Switch.Protocols
use js_libp2p_swarm.Switch.Lifecycle.{
  Fsm, Switch, Readings, Input, transition, starts, stops, performs, answered, hangs_up, stopped,
  started, stop, finished, closing_listeners, stats_start, stats_stop, listen, close_listener,
  close_conn, emit_stop, emit_error, called, init, run,
}
use js_libp2p_swarm.Switch.Running.{SameLimits, IsListened, IsConsistent, run-IsConsistent}
use js_libp2p_swarm.Switch.Starting.{start_inputs, asked, run-start_failed}
use js_libp2p_swarm.Switch.Hasty.{with_one, hasty, run-hasty}
use js_libp2p_swarm.Switch.Stopping.{stop_inputs, stopped_manager, run-stop}

-- The circuit is 0; transport 3 takes even addresses, transport 2 all, and transport 5 none.
abbrev transports : List (ℕ × Transport)
transports = (3, λ addrs. addrs) ∷ (0, λ addrs. addrs) ∷ (5, λ addrs. []) ∷ (2, λ addrs. addrs) ∷ []

available_transports_lem_example :
    (is_ordered 0 (available_transports 0 transports (8 ∷ [])) ≡ true)
    × ((k : ℕ) → has k (available_transports 0 transports (8 ∷ [])) ≡ serves (8 ∷ []) k transports)
available_transports_lem_example = available_transports_lem 0 transports (8 ∷ []) refl

-- Protocol 4 gets a new function after the stream's handlers were made.
abbrev before : List Call
before = handles 4 (some 40) none ∷ handles 6 none none ∷ unhandles 6 ∷ []

abbrev later : List Call
later = handles 4 (some 41) none ∷ []

-- A handler with a match function takes every name; without one, its own.
abbrev first_match : List (ℕ × Option ℕ) → ℕ → Option ℕ
first_match [] asked = none
first_match ((name, some f) ∷ rest) asked = some asked
first_match ((name, none) ∷ rest) asked =
    if name == asked then some asked else first_match rest asked

run-serve_example :
    let s = Protocols.run before no_protocols in
    let t = Protocols.run later s in
    ((name : ℕ) → has name s.advertised ≡ is_some (last_handled name none before))
    × ((name : ℕ)
        → lookup name (add_handlers s.protocols)
          ≡ (if name == 0 then none else match_of (last_handled name none before)))
    × (serve first_match s.protocols 4 t.protocols
        ≡ answered_by
            (first_match (add_handlers s.protocols) 4)
            (λ name. last_handled name (last_handled name none before) later))
run-serve_example = run-serve first_match before later 4

abbrev table : Fsm
table = record { fire = transition; follows = λ s t. refl }

abbrev limits : Limits
limits = record {
  deny_attempts = 5;
  deny_ttl = 300000;
  max_cold_calls = 50;
  max_parallel_dials = 100;
}

abbrev context : Context
context = record {
  limits = limits;
  now = 1000;
  random = 0;
  in_peer_book = λ id. true;
  is_connected = λ id. false;
  is_identified = λ id. false;
  get_one = λ id. none;
}

-- Transports 2 and 3 are available; there are two listeners and a connection.
abbrev here : Readings
here = record {
  context = context;
  available = 2 ∷ 3 ∷ [];
  listeners = 20 ∷ 30 ∷ [];
  connections = 70 ∷ [];
  connections_to = λ id. [];
  has_error_listener = true;
  finds_peer = λ id. true;
}

-- A start that is stopped before its transports have answered, and a call to hang up.
abbrev history : List (Readings × Input)
history =
    (here, starts 1)
    ∷ (here, performs)
    ∷ (here, stops 2)
    ∷ (here, hangs_up 9 3)
    ∷ (here, performs)
    ∷ (here, answered 0 none)
    ∷ (here, answered 0 none)
    ∷ (here, performs)
    ∷ []

same_limits : SameLimits limits history
same_limits = (refl, (refl, (refl, (refl, (refl, (refl, (refl, (refl, record {}))))))))

listened : IsListened history
listened = (refl, (refl, (refl, (refl, (refl, (refl, (refl, (refl, record {}))))))))

run-IsConsistent_example :
    (s : Switch) × (run table history init ≡ some s) × IsConsistent limits s.state s.manager
run-IsConsistent_example = run-IsConsistent table limits history same_limits listened

abbrev all_listen : ℕ → Option SwitchError
all_listen key = none

abbrev three_fails : ℕ → Option SwitchError
three_fails key = if key == 3 then some (other 8) else none

run-start_failed_example :
    run table
      (start_inputs table here three_fails 1 init)
      (record init { state = stopped; requests = [] })
    ≡ some (asked 1 stop (listen 2 ∷ listen 3 ∷ emit_error (other 8) ∷ []) init)
run-start_failed_example =
    run-start_failed table here three_fails 1 init (2 ∷ []) [] 3 (other 8) refl refl
      (λ k h. ground (arith, ==→≡ 2 k)) refl

run-stop_example :
    run table
      (stop_inputs table here three_fails init)
      (record init { state = started; requests = stop ∷ [] })
    ≡ some (record init {
      state = stopped;
      manager = stopped_manager init.manager;
      on_stop = [];
      jobs = init.jobs ++ finished ∷ [];
      requests = [];
      log =
          (((init.log ++ stats_stop ∷ []) ++ map close_listener here.listeners)
            ++ map close_conn here.connections)
          ++ emit_stop ∷ map called init.on_stop;
    })
unfolding init transition
run-stop_example = run-stop table here three_fails init started refl (init-IsValid limits)

run-hasty_example :
    run table (hasty (with_one 2 (20 ∷ 30 ∷ []) here) 1 4) (record init { manager = Manager.init })
    ≡ some (record init {
      manager = stopped_manager Manager.init;
      on_start = 1 ∷ [];
      jobs = finished ∷ closing_listeners 2 ∷ [];
      log =
          (stats_start ∷ listen 2 ∷ stats_stop ∷ close_listener 20 ∷ close_listener 30 ∷ [])
          ++ emit_stop ∷ called 4 ∷ [];
    })
run-hasty_example = run-hasty table here 2 1 4 20 (30 ∷ []) Manager.init (init-IsValid limits)
