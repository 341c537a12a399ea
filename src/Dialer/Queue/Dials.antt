-- ===== src/Dialer/Queue/Dials.antt =====
-- What becomes of the dials of a queue of src/dialer/queue.js: `run`, `start` and `abort`.
use js_libp2p_swarm.Prelude.{
  ℕ, ◌+◌, ◌≡◌, refl, ap, sym, ◌∙◌, Option-cases, true, false, Option, none, some, List, [], ◌∷◌,
  ◌++◌, map, arith, if◌then◌else◌, Bool-cases, inl, inr,
}
use mathlib.Core.List.{append-nil, append_assoc}
use js_libp2p_swarm.Errors.{SwitchError, dial_aborted}
use js_libp2p_swarm.Dialer.Context.{Context}
use js_libp2p_swarm.Dialer.Queue.{
  Queue, Dial, Effect, Outcome, plain, failed, deferred, called_empty, connected, gave_fsm, shook,
  created, dialed, drain, add, is_dial_allowed, abort, stop, dial_muxed, dial_new, run, run_dials,
  start, denylist, on_error, until, jitter, base_ttl, create_connection_with_protocol, prepend,
  on_established, shaken,
}

-- All dials over a muxed connection, first come first served.
dial_all_muxed : ℕ → List Dial → List Effect
dial_all_muxed connection [] = []
dial_all_muxed connection (d ∷ ds) = dial_muxed connection d ++ dial_all_muxed connection ds

-- `_run` without its recursion, on a queue that is running.
run_once : Context → ℕ → Queue → List Dial → Outcome
unfolding stop dial_new dial_muxed
run_once c fresh q [] = stop (record q { queue = [] })
run_once c fresh q (d ∷ ds) =
    if c.in_peer_book q.id
    then elim (c.get_one q.id) [
      | some connection ↦ record (stop (record q { queue = [] })) {
        effects = dial_all_muxed connection (d ∷ ds);
      }
      | none ↦ dial_new fresh d (record q { queue = ds })
    ]
    else record (plain (record q { queue = d ∷ ds }) []) { threw = true }

run_dials-muxed :
    (c : Context) (fresh connection : ℕ) (q : Queue) (ds : List Dial)
    → q.is_running ≡ true
    → c.in_peer_book q.id ≡ true
    → c.get_one q.id ≡ some connection
    → run_dials c fresh q ds
      ≡ record (stop (record q { queue = [] })) { effects = dial_all_muxed connection ds }
unfolding run_dials stop dial_all_muxed
run_dials-muxed c fresh connection q [] r b g = ground arith
run_dials-muxed c fresh connection q (d ∷ ds) r b g =
    ground (arith, run_dials-muxed c fresh connection q ds r b g)

run_dials-run_once :
    (c : Context) (fresh : ℕ) (q : Queue) (ds : List Dial)
    → q.is_running ≡ true
    → run_dials c fresh q ds ≡ run_once c fresh q ds
unfolding run_dials run_once
run_dials-run_once c fresh q [] r = refl
run_dials-run_once c fresh q (d ∷ ds) r = elim (Option-cases (c.get_one q.id)) [
  | inl e ↦ ground arith
  | inr (connection, e) ↦ elim (Bool-cases (c.in_peer_book q.id)) [
    | inl b ↦ ground (arith, run_dials-muxed c fresh connection q (d ∷ ds) r b e)
    | inr b ↦ ground arith
  ]
]

-- `_run` is told by its tests alone: on a queue that runs, it stops an empty queue, throws for a
-- peer that is not in the peer book, serves every dial in order over a muxed connection and
-- stops, or shifts the first dial, which then waits for a new connection.
run-run_once :
    (c : Context) (fresh : ℕ) (q : Queue)
    → q.is_running ≡ true
    → run c fresh q ≡ run_once c fresh q q.queue
unfolding run
run-run_once c fresh q r = run_dials-run_once c fresh q q.queue r

-- The callbacks that an effect concludes, or hands over to the handshake.
abbrev pub concluded : Effect → List (Option ℕ)
concluded (failed cb e) = cb ∷ []
concluded (deferred cb e) = cb ∷ []
concluded (called_empty cb) = cb ∷ []
concluded (connected cb s) = cb ∷ []
concluded (gave_fsm cb k) = []
concluded (shook k d) = d.callback ∷ []
concluded (created k p) = []
concluded (dialed k p) = []

abbrev pub concluded_all : List Effect → List (Option ℕ)
concluded_all [] = []
concluded_all (e ∷ es) = concluded e ++ concluded_all es

abbrev pub callbacks : List Dial → List (Option ℕ)
callbacks [] = []
callbacks (d ∷ ds) = d.callback ∷ callbacks ds

abbrev pub waiting : Option Dial → List (Option ℕ)
waiting none = []
waiting (some d) = d.callback ∷ []

-- Where the requests of a queue are after a method: concluded, waiting for a connection, queued.
abbrev pub placed : Outcome → List (Option ℕ)
placed o = concluded_all o.effects ++ (waiting o.waits ++ callbacks o.queue.queue)

concluded-append :
    (es fs : List Effect) → concluded_all (es ++ fs) ≡ concluded_all es ++ concluded_all fs
concluded-append [] fs = refl
concluded-append (e ∷ es) fs =
    ap (◌++◌ (concluded e)) (concluded-append es fs)
    ∙ sym (append_assoc (concluded e) (concluded_all es) (concluded_all fs))

concluded-dial_muxed :
    (connection : ℕ) (d : Dial) → concluded_all (dial_muxed connection d) ≡ d.callback ∷ []
unfolding dial_muxed create_connection_with_protocol
concluded-dial_muxed connection d = ground arith

drain-map : (ds : List Dial) → drain ds ≡ map (λ d. failed d.callback dial_aborted) ds
unfolding drain
drain-map [] = refl
drain-map (d ∷ ds) = ap (◌∷◌ (failed d.callback dial_aborted)) (drain-map ds)

concluded-drain : (ds : List Dial) → concluded_all (drain ds) ≡ callbacks ds
unfolding drain
concluded-drain [] = refl
concluded-drain (d ∷ ds) = ap (◌∷◌ d.callback) (concluded-drain ds)

placed-prepend :
    (es : List Effect) (o : Outcome) → placed (prepend es o) ≡ concluded_all es ++ placed o
placed-prepend es o = rw (concluded-append es o.effects) (append_assoc (concluded_all es) _ _)

run_dials-placed :
    (c : Context) (fresh : ℕ) (q : Queue) (ds : List Dial)
    → placed (run_dials c fresh q ds) ≡ callbacks ds
unfolding run_dials stop dial_new
run_dials-placed c fresh q [] = ground arith
run_dials-placed c fresh q (d ∷ ds) = elim (Option-cases (c.get_one q.id)) [
  | inl e ↦ ground arith
  | inr (k, e) ↦ ground (
    arith,
    placed-prepend (dial_muxed k d) (run_dials c fresh q ds),
    concluded-dial_muxed k d,
    run_dials-placed c fresh q ds,
  )
]

abort-placed : (q : Queue) → placed (abort q) ≡ callbacks q.queue
unfolding abort
abort-placed q = ground (arith, concluded-drain q.queue, append-nil (callbacks q.queue))

denylist-placed : (c : Context) (q : Queue) → placed (denylist c q) ≡ callbacks q.queue
unfolding denylist
denylist-placed c q = ground (
  arith,
  abort-placed (record q {
    denylist_count = q.denylist_count + 1;
    denylisted = until (c.now + jitter c.random (base_ttl c (q.denylist_count + 1)));
  }),
)

callbacks-append : (ds es : List Dial) → callbacks (ds ++ es) ≡ callbacks ds ++ callbacks es
callbacks-append [] es = refl
callbacks-append (d ∷ ds) es = ap (◌∷◌ d.callback) (callbacks-append ds es)

add-placed :
    (c : Context) (d : Dial) (q : Queue)
    → placed (add c d q) ≡ (
        if (is_dial_allowed c q).1
        then callbacks q.queue ++ d.callback ∷ []
        else d.callback ∷ callbacks q.queue)
unfolding add is_dial_allowed
add-placed c d q = ground (arith, callbacks-append q.queue (d ∷ []))

-- No method of the queue loses a request, makes one up, or changes their order: those that it
-- concludes, the one that it leaves waiting and those that stay queued are the ones that it had,
-- with the failed one first where a connection failed. `add` queues its request behind them, or
-- refuses it and leaves them, and `stop` leaves them. A connection that is established, and the
-- answer of its handshake, each conclude just the request that waits for them.
pub methods-placed :
    (c : Context) (fresh : ℕ) (err : SwitchError) (d : Dial) (q : Queue)
    (answer : Option SwitchError) (stream : Option ℕ)
    → (placed (run c fresh q) ≡ callbacks q.queue)
      × (placed (start c fresh q).0 ≡ callbacks q.queue)
      × (placed (stop q) ≡ callbacks q.queue)
      × (placed (add c d q) ≡ (
          if (is_dial_allowed c q).1
          then callbacks q.queue ++ d.callback ∷ []
          else d.callback ∷ callbacks q.queue))
      × (placed (abort q) ≡ callbacks q.queue)
      × (placed (denylist c q) ≡ callbacks q.queue)
      × (placed (on_error c err d q) ≡ d.callback ∷ callbacks q.queue)
      × (concluded (on_established fresh d q).1 ≡ d.callback ∷ [])
      × (concluded (shaken d answer stream) ≡ d.callback ∷ [])
unfolding start run stop on_error on_established create_connection_with_protocol shaken
methods-placed c fresh err d q answer stream = (
  run_dials-placed c fresh q q.queue,
  ground (arith, run_dials-placed c fresh (record q { is_running = true }) q.queue),
  ground arith,
  add-placed c d q,
  abort-placed q,
  denylist-placed c q,
  ground (arith, placed-prepend (failed d.callback err ∷ []) (denylist c q), denylist-placed c q),
  ground arith,
  ground arith,
)

-- `abort` fails every queued dial, in order, with `DIAL_ABORTED`, empties and stops the queue, and
-- reports the stop exactly if the queue was running; the denial stays.
abort_lem :
    (q : Queue)
    → abort q ≡ record {
      queue = record q { queue = []; is_running = false };
      effects = map (λ d. failed d.callback dial_aborted) q.queue;
      stopped = q.is_running;
      waits = none;
      threw = false;
    }
unfolding abort stop
abort_lem q = ground (arith, drain-map q.queue)
