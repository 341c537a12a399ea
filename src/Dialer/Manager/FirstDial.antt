-- ===== src/Dialer/Manager/FirstDial.antt =====
-- The first request for a peer, in src/dialer/queueManager.js and src/dialer/queue.js: what `add`
-- does where a slot is free and nobody is ahead.
use mathlib.Core.List.{append-nil}
use js_libp2p_swarm.Prelude.{
  ℕ, ◌<◌, ◌≡◌, refl, Bool, true, false, none, some, List, [], ◌∷◌, ◌++◌, if◌then◌else◌, arith,
  length, insert, ◌∙◌, ap, leb, lt→ltb,
}
use js_libp2p_swarm.Constants.{priority_high}
use js_libp2p_swarm.Dialer.Context.{Context}
use js_libp2p_swarm.Dialer.Queue.{Queue, Dial, Effect, created, dialed, gave_fsm, plain}
use js_libp2p_swarm.Dialer.Queue
use js_libp2p_swarm.Dialer.Manager.{
  Cell, Pending, Manager, Completion, returned, threw, ◌>>=◌, Request, add, find, call, settle,
  record_outcome, run, run_sets, start_next, get_queue, is_refused, add_to, add_at, abort_request,
  after_add, enlist_and_run, enlist, check_dial, dial_of, is_at_rest, new_pending,
}
use js_libp2p_swarm.Dialer.Manager.Slots.{get_at, write_at, find-append}

-- A manager that runs and has no peer enlisted.
abbrev pub resting : List Cell → List ℕ → Bool → List Pending → List Effect → Manager
resting heap dialing scheduled pending log = record {
  queue = [];
  cold_call_queue = [];
  dialing_queues = dialing;
  heap = heap;
  is_running = true;
  clean_scheduled = scheduled;
  pending = pending;
  log = log;
}

-- The queue of a peer with its first request.
first_queue : Request → Queue
first_queue r = record (Queue.init r.peer) { queue = dial_of r ∷ [] }

module _ (c : Context) (r : Request) (heap : List Cell) (dialing : List ℕ) (scheduled : Bool)
    (pending : List Pending) (log : List Effect) where
  -- The manager once it has an object for the peer.
  abbrev holding : Queue → Manager
  holding q =
      resting (heap ++ record { object = q; listed = true } ∷ []) dialing scheduled pending log

  get_queue_new :
      find r.peer 0 heap ≡ none
      → get_queue r.peer (resting heap dialing scheduled pending log)
        ≡ (length heap, holding (Queue.init r.peer))
  unfolding get_queue
  get_queue_new f = rw (f, get_queue)

  call-add :
      call c (length heap) (Queue.add c (dial_of r)) (holding (Queue.init r.peer))
      ≡ returned (holding (first_queue r))
  unfolding call settle record_outcome Queue.add Queue.init first_queue
  call-add = ground (
    arith,
    get_at heap (record { object = Queue.init r.peer; listed = true }) [],
    write_at heap (record { object = Queue.init r.peer; listed = true }) [] (first_queue r),
    append-nil pending,
    append-nil log,
  )

  checked : check_dial c (length heap) (holding (first_queue r)) ≡ (holding (first_queue r), true)
  unfolding check_dial first_queue Queue.init
  checked = ground (
    arith,
    get_at heap (record { object = first_queue r; listed = true }) [],
    write_at heap (record { object = first_queue r; listed = true }) [] (first_queue r),
  )

  -- The call of `start` for the peer, which has the one slot that is added.
  abbrev started : Completion
  started =
      settle (run_sets c [] []) (length heap) (Queue.start c (length pending) (first_queue r)).0
        (record (holding (first_queue r)) { dialing_queues = insert r.peer dialing })

  run_one :
      find r.peer 0 heap ≡ none
      → length dialing < c.max_parallel_dials
      → run_sets c (r.peer ∷ []) [] (holding (first_queue r)) ≡ started
  unfolding run_sets start_next first_queue Queue.init
  run_one f room =
      let cell : Cell = record { object = first_queue r; listed = true } in
      rw (lt→ltb (length dialing) c.max_parallel_dials room)
        (rw (find-append r.peer heap cell f refl refl, start_next) (rw (get_at heap cell []) refl))

  at_rest : is_at_rest (length heap) (holding (first_queue r)) ≡ true
  unfolding first_queue Queue.init
  at_rest = ground (arith, get_at heap (record { object = first_queue r; listed = true }) [])

  enlisted :
      leb r.priority priority_high ≡ true
      → enlist r (holding (first_queue r))
        ≡ record (holding (first_queue r)) { queue = r.peer ∷ [] }
  unfolding enlist
  enlisted p = ground arith

  after_add_runs :
      leb r.priority priority_high ≡ true
      → c.is_connected r.peer ≡ false
      → after_add c r (length heap) (holding (first_queue r))
        ≡ run_sets c (r.peer ∷ []) [] (holding (first_queue r))
  unfolding after_add enlist_and_run run
  after_add_runs p u =
      rw (u, after_add)
        (rw (checked, enlist_and_run)
          (ap
              (λ b.
                run c (if b then enlist r (holding (first_queue r)) else holding (first_queue r)))
              at_rest
            ∙ ap (run c) (enlisted p)))

  not_refused :
      leb r.priority priority_high ≡ true → is_refused c r (holding (Queue.init r.peer)) ≡ false
  unfolding is_refused
  not_refused p = ground arith

  -- A request of high priority starts the queue of its peer.
  add-started :
      find r.peer 0 heap ≡ none
      → leb r.priority priority_high ≡ true
      → c.is_connected r.peer ≡ false
      → length dialing < c.max_parallel_dials
      → add c r (resting heap dialing scheduled pending log) ≡ started
  unfolding add add_to
  add-started f p u room =
      ap (add_at c r) (get_queue_new f)
      ∙ ap
          (λ b.
            if b
            then abort_request r (holding (Queue.init r.peer))
            else add_to c r (length heap) (holding (Queue.init r.peer)))
          (not_refused p)
      ∙ ap (λ x. x >>= after_add c r (length heap)) call-add
      ∙ after_add_runs p u
      ∙ run_one f room

  -- The request as the queue dials it.
  add_dials_new :
      find r.peer 0 heap ≡ none
      → leb r.priority priority_high ≡ true
      → c.is_connected r.peer ≡ false
      → c.in_peer_book r.peer ≡ true
      → c.get_one r.peer ≡ none
      → length dialing < c.max_parallel_dials
      → add c r (resting heap dialing scheduled pending log)
        ≡ returned (
            resting
              (heap
                ++ record {
                  object = record (Queue.init r.peer) { is_running = true };
                  listed = true;
                }
                  ∷ [])
              (insert r.peer dialing)
              scheduled
              (pending ++ new_pending (length heap) (some (dial_of r)))
              (log ++ (Queue.dial_new (length pending) (dial_of r) (Queue.init r.peer)).effects))
  unfolding Queue.start Queue.dial_new settle record_outcome first_queue Queue.init
  add_dials_new f p u b g room =
      add-started f p u room
      ∙ ground (
        arith,
        write_at heap (record { object = first_queue r; listed = true }) []
            (record (Queue.init r.peer) { is_running = true }),
      )

  -- A request of high priority for a peer that is in the peer book, is not connected and has
  -- neither a listed queue nor a muxed connection is dialed at once, where the manager runs, no
  -- peer is enlisted and a slot is free: `add` returns, the peer has taken a slot, its queue runs,
  -- the request waits with all its listeners for a connection that was made for the peer and told
  -- to dial, and a caller that asked for the connection has it.
  pub add_dials :
      find r.peer 0 heap ≡ none
      → leb r.priority priority_high ≡ true
      → c.is_connected r.peer ≡ false
      → c.in_peer_book r.peer ≡ true
      → c.get_one r.peer ≡ none
      → length dialing < c.max_parallel_dials
      → add c r (resting heap dialing scheduled pending log)
        ≡ returned (
            resting
              (heap
                ++ record {
                  object = record (Queue.init r.peer) { is_running = true };
                  listed = true;
                }
                  ∷ [])
              (insert r.peer dialing)
              scheduled
              (pending
                ++ record {
                  ref = length heap;
                  dial = record {
                    protocol = r.protocol;
                    use_fsm = r.use_fsm;
                    callback = r.callback;
                  };
                  on_error = true;
                  on_close = true;
                  on_muxed = true;
                  on_unmuxed = true;
                  next = true;
                }
                  ∷ [])
              (log
                ++ created (length pending) r.peer
                  ∷ ((if r.use_fsm then gave_fsm r.callback (length pending) ∷ [] else [])
                      ++ dialed (length pending) r.peer ∷ [])))
  unfolding Queue.dial_new Queue.init
  add_dials f p u b g room = add_dials_new f p u b g room

  -- For a peer that is not in the peer book the same request throws. The queue is left running with
  -- the request in it, the slot stays taken, and nothing was called.
  pub add_throws :
      find r.peer 0 heap ≡ none
      → leb r.priority priority_high ≡ true
      → c.is_connected r.peer ≡ false
      → c.in_peer_book r.peer ≡ false
      → length dialing < c.max_parallel_dials
      → add c r (resting heap dialing scheduled pending log)
        ≡ threw (
            resting
              (heap
                ++ record {
                  object = record (Queue.init r.peer) { queue = dial_of r ∷ []; is_running = true };
                  listed = true;
                }
                  ∷ [])
              (insert r.peer dialing)
              scheduled
              pending
              log)
  unfolding Queue.start settle record_outcome first_queue Queue.init
  add_throws f p u b room =
      add-started f p u room
      ∙ ground (
        arith,
        write_at heap (record { object = first_queue r; listed = true }) []
            (record (first_queue r) { is_running = true }),
        append-nil pending,
        append-nil log,
      )
