-- ===== src/System/Examples.antt =====
-- A dial of src/dialer/ over its connection of src/connection/index.js, and the theorems on the two
-- together at inputs that meet their hypotheses.
use js_libp2p_swarm.Prelude.{ℕ, ◌≡◌, refl, true, false, none, some, List, [], ◌∷◌, has, get_elem?}
use js_libp2p_swarm.Dialer.Context.{Context, Limits}
use js_libp2p_swarm.Dialer.Manager.{Request, Pending}
use js_libp2p_swarm.Dialer.Manager
use js_libp2p_swarm.Dialer.Manager.History.{adds, run_all, step}
use js_libp2p_swarm.Dialer.Manager.Waiting.Alive.{IsUnderWay, run_all-IsUnderWay}
use js_libp2p_swarm.Connection.States.{transition}
use js_libp2p_swarm.Connection.Machine
use js_libp2p_swarm.Connection.Inputs
use js_libp2p_swarm.Connection.Machine.{Effect, Readings, emit_close, untrack, remove_listeners}
use js_libp2p_swarm.Connection.Inputs.{Input, closes, performs}
use js_libp2p_swarm.Connection.Dialing.{table, plain_readings}
use js_libp2p_swarm.System.{
  Link, System, Env, init, on_dialer, step_link, readings_of, deliver, Reach, starts_here, goes,
  called, received, delivered,
}
use js_libp2p_swarm.System.Endings.{by_close, emitted}
use js_libp2p_swarm.System.Holds.{FitsDialer}
use js_libp2p_swarm.System.Slots.{IsHeld, Reach-IsHeld, Reach-heard}

abbrev limits : Limits
limits = record { deny_attempts = 3; deny_ttl = 100; max_cold_calls = 1; max_parallel_dials = 2 }

abbrev complete : Context
complete = record {
  limits = limits;
  now = 1000;
  random = 0;
  in_peer_book = λ id. true;
  is_connected = λ id. false;
  is_identified = λ id. false;
  get_one = λ id. none;
}

abbrev request : Request
request = record { peer = 1; protocol = some 1; use_fsm = false; priority = 10; callback = some 11 }

run_all-IsUnderWay_example :
    IsUnderWay complete 1 (run_all ((complete, adds request) ∷ []) Manager.init)
unfolding run_all step Manager.add Manager.init
run_all-IsUnderWay_example =
    run_all-IsUnderWay limits ((complete, adds request) ∷ []) complete 1 (refl, record {})
      ((λ id. refl), record {}) refl

abbrev moment : Env
moment = record { context = complete; readings = λ k. plain_readings 1 (2 ∷ []) 3 [] 9 true }

moment_fits : FitsDialer limits moment
moment_fits = record { same_limits = refl; in_book = λ id. refl }

-- The peer is dialed.
abbrev dialing : System
dialing = on_dialer table moment (adds request) init

init_quiet : init.inbox ≡ []
unfolding init
init_quiet = refl

dialing_reached : Reach table (FitsDialer limits) dialing
dialing_reached =
    goes starts_here moment moment_fits (called moment init (adds request) init_quiet refl)

dialing_quiet : dialing.inbox ≡ []
unfolding on_dialer init step_link readings_of deliver Inputs.step Machine.call_dial Machine.init
    transition
dialing_quiet = refl

dialing_slot : has 1 dialing.dialer.dialing_queues ≡ true
unfolding on_dialer init step_link readings_of deliver Inputs.step Machine.call_dial Machine.init
    transition
dialing_slot = refl

Reach-IsHeld_example : IsHeld complete 1 dialing
Reach-IsHeld_example =
    Reach-IsHeld table limits dialing complete 1 dialing_reached dialing_quiet dialing_slot

-- The connection gets an input; the first event that waits is heard.
abbrev input : Input → System → System
input i s = step_link table (readings_of moment 0 s) i 0 s

abbrev first_heard : List (ℕ × Effect) → System → System
first_heard [] s = s
first_heard ((k, x) ∷ rest) s = deliver table moment k x (record s { inbox = rest })

abbrev heard : System → System
heard s = first_heard s.inbox s

input_reached :
    (i : Input) (s : System)
    → Reach table (FitsDialer limits) s
    → s.inbox ≡ []
    → Reach table (FitsDialer limits) (input i s)
input_reached i s r quiet = goes r moment moment_fits (received moment s 0 i quiet)

heard_reached :
    (s : System) → Reach table (FitsDialer limits) s → Reach table (FitsDialer limits) (heard s)
heard_reached s r = first s.inbox refl
  where
    first :
        (b : List (ℕ × Effect)) → s.inbox ≡ b → Reach table (FitsDialer limits) (first_heard b s)
    first [] e = r
    first ((k, x) ∷ rest) e = goes r moment moment_fits (delivered moment s k x rest e)

-- The caller closes the connection while its first transport is asked.
abbrev asked : System
asked = heard (input performs (input (closes none) dialing))

abbrev leaving : System
leaving = heard (input performs asked)

abbrev closed : System
closed = heard (heard (heard (input performs leaving)))

asking_quiet : (input (closes none) dialing).inbox ≡ []
unfolding on_dialer init step_link readings_of deliver Inputs.step Machine.call_dial Machine.init
    transition
asking_quiet = refl

asked_quiet : asked.inbox ≡ []
unfolding on_dialer init step_link readings_of deliver Inputs.step Machine.call_dial Machine.init
    transition
asked_quiet = refl

leaving_quiet : leaving.inbox ≡ []
unfolding on_dialer init step_link readings_of deliver Inputs.step Machine.call_dial Machine.init
    transition
leaving_quiet = refl

closed_quiet : closed.inbox ≡ []
unfolding on_dialer init step_link readings_of deliver Inputs.step Machine.call_dial Machine.init
    transition
closed_quiet = refl

asked_reached : Reach table (FitsDialer limits) asked
asked_reached = heard_reached _ (
    input_reached performs _ (input_reached (closes none) dialing dialing_reached dialing_quiet)
      asking_quiet)

leaving_reached : Reach table (FitsDialer limits) leaving
leaving_reached = heard_reached _ (input_reached performs asked asked_reached asked_quiet)

closed_reached : Reach table (FitsDialer limits) closed
closed_reached = heard_reached _ (
    heard_reached _
      (heard_reached _ (input_reached performs leaving leaving_reached leaving_quiet)))

-- The dial was closed, and its slot is free.
no_slot : closed.dialer.dialing_queues ≡ []
unfolding on_dialer init step_link readings_of deliver Inputs.step Machine.call_dial Machine.init
    transition
no_slot = refl

abbrev finished : Pending
finished = record {
  ref = 0;
  dial = record { protocol = some 1; use_fsm = false; callback = some 11 };
  on_error = false;
  on_close = false;
  on_muxed = false;
  on_unmuxed = false;
  next = false;
}

finished_at : get_elem? closed.dialer.pending 0 ≡ some finished
unfolding on_dialer init step_link readings_of deliver Inputs.step Machine.call_dial Machine.init
    transition
finished_at = refl

abbrev dialed_link : Link
dialed_link = elim (get_elem? closed.links 0) [
  | none ↦ record { peer = 0; connection = Machine.init; awaits_muxed = false }
  | some lk ↦ lk
]

link_there : get_elem? closed.links 0 ≡ some dialed_link
unfolding on_dialer init step_link readings_of deliver Inputs.step Machine.call_dial Machine.init
    transition
link_there = refl

close_emitted : emitted by_close dialed_link.connection.log ≡ true
unfolding on_dialer init step_link readings_of deliver Inputs.step Machine.call_dial Machine.init
    transition
close_emitted = refl

Reach-heard_example : finished.next ≡ false
Reach-heard_example =
    Reach-heard table limits closed by_close 0 finished dialed_link closed_reached closed_quiet
      finished_at link_there close_emitted
