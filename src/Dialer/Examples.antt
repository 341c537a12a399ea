-- ===== src/Dialer/Examples.antt =====
-- Runs of src/dialer/ on small inputs, and its theorems at inputs that meet their hypotheses.
use js_libp2p_swarm.Prelude.{
  ℕ, ◌≡◌, refl, true, false, none, some, List, [], ◌∷◌, ◌++◌, ◌==◌, if◌then◌else◌, arith,
}
use js_libp2p_swarm.Errors.{other, dial_aborted, err_denied}
use js_libp2p_swarm.PeerInfos.{multiaddr, peer_id}
use js_libp2p_swarm.PeerInfos.Examples.{address_book, empty_book, known_seven}
use js_libp2p_swarm.Dialer.Context.{Context, Limits}
use js_libp2p_swarm.Dialer.Queue.{
  Dial, Queue, Outcome, plain, allowed, forever, until, failed, deferred, shook, created, dialed,
  jitter, base_ttl, denylist, run, start, abort, on_error, on_established, shaken,
}
use js_libp2p_swarm.Dialer.Queue
use js_libp2p_swarm.Dialer.Queue.Denylist.{
  denylist-add_early, denylist-add_late, denylist_forever, denylist_all, denylist_all_forever,
  is_forever,
}
use js_libp2p_swarm.Dialer.Queue.Dials.{placed, callbacks, methods-placed, concluded}
use js_libp2p_swarm.Dialer.Manager.{
  Manager, Request, init, returned, threw, add, new_pending, find, get_queue,
}
use js_libp2p_swarm.Dialer.Manager.History.{Call, adds, cleans, emits, step, run_all}
use js_libp2p_swarm.Dialer.Manager.Listeners.{errored, muxed}
use js_libp2p_swarm.Dialer.Manager.Sweep.{stop}
use js_libp2p_swarm.Dialer.Manager.Invariant.{IsValid}
use js_libp2p_swarm.Dialer.Manager.Histories.{run_all-IsValid, SameLimits}
use js_libp2p_swarm.Dialer.Manager.FirstDial.{add_dials, resting}
use js_libp2p_swarm.Dialer.Api.{dial, dial-threw, no_protocol, connect, no_options, connect-refused}

-- Two dials in parallel, one cold call at most; peer 9 has a muxed connection, 77; peer 4 is not
-- in the peer book.
abbrev limits : Limits
limits = record { deny_attempts = 3; deny_ttl = 100; max_cold_calls = 1; max_parallel_dials = 2 }

abbrev quiet : Context
quiet = record {
  limits = limits;
  now = 1000;
  random = 0;
  in_peer_book = λ id. if id == 4 then false else true;
  is_connected = λ id. id == 9;
  is_identified = λ id. id == 9;
  get_one = λ id. if id == 9 then some 77 else none;
}

abbrev at_time : ℕ → Context
at_time t = record quiet { now = t }

abbrev request : ℕ → ℕ → Request
request peer callback = record {
  peer = peer;
  protocol = some 1;
  use_fsm = false;
  priority = 10;
  callback = some callback;
}

abbrev dial_for : ℕ → Dial
dial_for callback = record { protocol = some 1; use_fsm = false; callback = some callback }

-- Three peers are dialed, one of them twice, and the connected one.
abbrev requests : List (Context × Call)
requests =
    (quiet, adds (request 1 11))
    ∷ (quiet, adds (request 2 12))
    ∷ (quiet, adds (request 3 13))
    ∷ (quiet, adds (request 1 14))
    ∷ (quiet, adds (request 9 19))
    ∷ []

-- Peer 1 fails, which makes room for peer 3; peer 2 is connected.
abbrev answers : List (Context × Call)
answers = (quiet, emits 0 (errored (other 5))) ∷ (quiet, emits 1 muxed) ∷ (quiet, cleans) ∷ []

abbrev history : List (Context × Call)
history = requests ++ answers

abbrev played : Manager
played = run_all history init

-- Two peers are dialed at a time; the connected one is served beyond them.
slots_taken : (run_all requests init).dialing_queues ≡ 1 ∷ 2 ∷ []
unfolding run_all step add init
slots_taken = refl

still_queued : (run_all requests init).queue ≡ 3 ∷ []
unfolding run_all step add init
still_queued = refl

next_dialed : played.dialing_queues ≡ 3 ∷ []
unfolding run_all step add init jitter base_ttl
next_dialed = refl

same_limits : SameLimits limits history
same_limits = (refl, (refl, (refl, (refl, (refl, (refl, (refl, (refl, record {}))))))))

run_all-IsValid_example : IsValid limits (run_all history init)
run_all-IsValid_example = run_all-IsValid limits history same_limits

-- A queue that runs, with two dials, one failure behind it.
abbrev busy : Queue
busy = record {
  id = 1;
  queue = dial_for 21 ∷ dial_for 22 ∷ [];
  denylisted = allowed;
  denylist_count = 1;
  is_running = true;
}

methods-placed_example :
    (placed (run quiet 5 busy) ≡ callbacks busy.queue)
    × (placed (start quiet 5 busy).0 ≡ callbacks busy.queue)
    × (placed (Queue.stop busy) ≡ callbacks busy.queue)
    × (placed (Queue.add quiet (dial_for 20) busy) ≡ some 21 ∷ some 22 ∷ some 20 ∷ [])
    × (placed (abort busy) ≡ callbacks busy.queue)
    × (placed (denylist quiet busy) ≡ callbacks busy.queue)
    × (placed (on_error quiet dial_aborted (dial_for 20) busy) ≡ some 20 ∷ callbacks busy.queue)
    × (concluded (on_established 5 (dial_for 20) busy).1 ≡ some 20 ∷ [])
    × (concluded (shaken (dial_for 20) none (some 88)) ≡ some 20 ∷ [])
unfolding Queue.is_dial_allowed
methods-placed_example = methods-placed quiet 5 dial_aborted (dial_for 20) busy none (some 88)

denylist-add_early_example :
    ((Queue.add (at_time 1200) (dial_for 23) (denylist quiet busy).queue).effects
      ≡ deferred (some 23) err_denied ∷ [])
    × ((Queue.add (at_time 1200) (dial_for 23) (denylist quiet busy).queue).queue
        ≡ (denylist quiet busy).queue)
unfolding base_ttl
denylist-add_early_example =
    denylist-add_early quiet (at_time 1200) busy (dial_for 23) (omega arith) (omega arith)
      (omega arith)

denylist-add_late_example :
    ((Queue.add (at_time 1881) (dial_for 23) (denylist quiet busy).queue).effects ≡ [])
    × ((Queue.add (at_time 1881) (dial_for 23) (denylist quiet busy).queue).queue.queue
        ≡ dial_for 23 ∷ [])
    × ((Queue.add (at_time 1881) (dial_for 23) (denylist quiet busy).queue).queue.denylisted
        ≡ allowed)
unfolding base_ttl
denylist-add_late_example =
    denylist-add_late quiet (at_time 1881) busy (dial_for 23) (omega arith) (omega arith)
      (omega arith) (omega arith)

-- One failure short of the limit.
abbrev failing : Queue
failing = record busy { denylist_count = 2 }

denylist_forever_example :
    ((denylist quiet failing).effects ≡ [])
    × ((denylist quiet failing).stopped ≡ false)
    × ((denylist quiet failing).queue.queue ≡ dial_for 21 ∷ dial_for 22 ∷ [])
    × ((denylist quiet failing).queue.is_running ≡ true)
    × ((denylist quiet failing).queue.denylisted ≡ forever)
    × ((Queue.add quiet (dial_for 23) (denylist quiet failing).queue).effects
        ≡ deferred (some 23) err_denied ∷ [])
    × ((Queue.add quiet (dial_for 23) (denylist quiet failing).queue).queue
        ≡ (denylist quiet failing).queue)
denylist_forever_example = denylist_forever quiet quiet failing (dial_for 23) (omega arith)

denylist_all_forever_example :
    (is_forever (denylist_all (quiet ∷ at_time 2000 ∷ []) busy).denylisted ≡ true)
    × ((denylist_all (quiet ∷ at_time 2000 ∷ []) busy).denylist_count ≡ 3)
denylist_all_forever_example = denylist_all_forever quiet (at_time 2000 ∷ []) busy refl

add_dials_example :
    add quiet (request 1 11) (resting [] (2 ∷ []) true [] [])
    ≡ returned (
        resting
          (record { object = record (Queue.init 1) { is_running = true }; listed = true } ∷ [])
          (2 ∷ 1 ∷ [])
          true
          (new_pending 0 (some (dial_for 11)))
          (created 0 1 ∷ dialed 0 1 ∷ []))
unfolding find
add_dials_example =
    add_dials quiet (request 1 11) [] (2 ∷ []) true [] [] refl refl refl refl refl (omega arith)

dial-threw_example :
    (dial address_book quiet
      (multiaddr 31 (some 7))
      no_protocol
      (some 11)
      (empty_book, resting [] [] true [] [])).1
    ≡ threw (
        resting
          (record {
            object = record (Queue.init 7) {
              queue = record { protocol = none; use_fsm = false; callback = some 11 } ∷ [];
              is_running = true;
            };
            listed = true;
          }
            ∷ [])
          (7 ∷ [])
          true
          []
          [])
unfolding find
dial-threw_example =
    dial-threw address_book quiet 31 7 no_protocol (some 11) empty_book [] [] true [] [] refl refl
      refl (omega arith)

-- As many cold calls are queued as the limit allows.
abbrev crowded : Manager
crowded = record (resting [] [] true [] []) { cold_call_queue = 3 ∷ [] }

connect-refused_example :
    (connect address_book quiet (peer_id 7) no_options (some 11) (known_seven, crowded)).1
    ≡ returned (record crowded {
      heap = record { object = Queue.init 7; listed = true } ∷ [];
      log = deferred (some 11) dial_aborted ∷ [];
    })
unfolding get_queue
connect-refused_example =
    connect-refused address_book quiet 7 (some 11) known_seven (7, []) crowded refl (omega arith)
