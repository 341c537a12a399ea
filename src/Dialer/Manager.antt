-- ===== src/Dialer/Manager.antt =====
-- src/dialer/queueManager.js: the manager of all dial queues, and the listeners that
-- src/dialer/queue.js puts on a connection. Queue objects stand in a heap, in the order in which
-- they were made, since a listener keeps its queue when `_queues` has dropped it; `listed` says
-- whether `_queues` has the object. A connection is named by its place in `pending`.
pub mod Sweep
pub mod Listeners
pub mod History
pub mod Invariant
pub mod Methods
pub mod Idle
pub mod Histories
pub mod Shutdown
pub mod FirstDial
pub mod Slots
pub mod Flag
pub mod Announced
pub mod Growth
pub mod Answers
pub mod Waiting
use js_libp2p_swarm.Prelude.{
  ℕ, zero, suc, Bool, true, false, not, ◌&&◌, ◌||◌, Option, none, some, List, [], ◌∷◌, ◌++◌, ltb,
  leb, ◌==◌, if◌then◌else◌, length, get_elem?, has, insert, delete,
}
use js_libp2p_swarm.Constants.{priority_high}
use js_libp2p_swarm.Errors.{SwitchError, dial_aborted}
use js_libp2p_swarm.Dialer.Context.{Context}
use js_libp2p_swarm.Dialer.Queue.{
  Queue, Dial, Deny, allowed, Effect, deferred, Outcome, is_dial_allowed,
}
use js_libp2p_swarm.Dialer.Queue

pub record Cell : Type 0 where
  pub object : Queue
  pub listed : Bool

-- The listeners of one dial on the connection that was created for it: which of them are still
-- attached (`once`), and whether `next` was called (`once`).
pub record Pending : Type 0 where
  pub ref : ℕ
  pub dial : Dial
  pub on_error : Bool
  pub on_close : Bool
  pub on_muxed : Bool
  pub on_unmuxed : Bool
  pub next : Bool

pub record Manager : Type 0 where
  -- `_queue`, `_coldCallQueue` and `_dialingQueues`
  pub queue : List ℕ
  pub cold_call_queue : List ℕ
  pub dialing_queues : List ℕ
  pub heap : List Cell
  pub is_running : Bool
  -- whether `_cleanInterval` is set
  pub clean_scheduled : Bool
  pub pending : List Pending
  -- what was called so far
  pub log : List Effect

-- A method either returns, or the peer book has thrown through it.
pub data Completion : Type 0 where
  returned threw : Manager → Completion

abbrev pub state : Completion → Manager
state (returned m) = m
state (threw m) = m

infixl 5 ◌>>=◌
abbrev pub ◌>>=◌ : Completion → (Manager → Completion) → Completion
returned m >>= f = f m
threw m >>= f = threw m

-- The constructor: `start()` is its last call.
unfoldable pub init : Manager
init = record {
  queue = [];
  cold_call_queue = [];
  dialing_queues = [];
  heap = [];
  is_running = true;
  clean_scheduled = true;
  pending = [];
  log = [];
}

-- `_queues[id]`
unfoldable pub find : ℕ → ℕ → List Cell → Option ℕ
find id i [] = none
find id i (c ∷ cs) = if c.listed && c.object.id == id then some i else find id (suc i) cs

abbrev pub write : ℕ → Queue → List Cell → List Cell
write ref q [] = []
write zero q (c ∷ cs) = record c { object = q } ∷ cs
write (suc ref) q (c ∷ cs) = c ∷ write ref q cs

-- `delete this._queues[dialQueue.id]` for the object that stands there
abbrev pub unlist : ℕ → List Cell → List Cell
unlist ref [] = []
unlist zero (c ∷ cs) = record c { listed = false } ∷ cs
unlist (suc ref) (c ∷ cs) = c ∷ unlist ref cs

-- `getQueue`: the place of the queue object, which is made if there is none.
unfoldable pub get_queue : ℕ → Manager → ℕ × Manager
unfolding find Queue.init
get_queue id m = elim (find id 0 m.heap) [
  | some ref ↦ (ref, m)
  | none ↦ (
    length m.heap,
    record m { heap = m.heap ++ record { object = Queue.init id; listed = true } ∷ [] },
  )
]

abbrev pub new_pending : ℕ → Option Dial → List Pending
new_pending ref none = []
new_pending ref (some d) =
    record {
      ref = ref;
      dial = d;
      on_error = true;
      on_close = true;
      on_muxed = true;
      on_unmuxed = true;
      next = true;
    }
    ∷ []

-- What an outcome of the queue at `ref` leaves, but for the call of `onStopped`.
record_outcome : ℕ → Outcome → Manager → Manager
record_outcome ref o m = record m {
  heap = write ref o.queue m.heap;
  pending = m.pending ++ new_pending ref o.waits;
  log = m.log ++ o.effects;
}

-- `onStopped` is `_onQueueStopped`, whose last call is `again`, the manager's `run`.
pub settle : (Manager → Completion) → ℕ → Outcome → Manager → Completion
unfolding record_outcome
settle again ref o m =
    let m' = record_outcome ref o m in
    if o.threw
    then threw m'
    else if o.stopped
    then again (record m' { dialing_queues = delete o.queue.id m'.dialing_queues })
    else returned m'

-- The end of `run`: `_dialingQueues.add(id)` and `start()` for the id that was taken.
start_next : Context → (Manager → Completion) → ℕ → Manager → Completion
unfolding settle find Queue.start
start_next c again id m = elim (find id 0 m.heap) [
  | none ↦ returned m
  | some ref ↦ elim (get_elem? m.heap ref) [
    | none ↦ returned m
    | some cell ↦
        settle again ref (Queue.start c (length m.pending) cell.object).0
          (record m { dialing_queues = insert id m.dialing_queues })
  ]
]

abbrev may_run : Context → Manager → Bool
may_run c m = m.is_running && ltb (length m.dialing_queues) c.max_parallel_dials

-- `run` on the two sets given; the fields of `m` for them are written anew. Each nested call of
-- `run` has taken an id from one of the sets, so the recursion ends.
run_sets : Context → List ℕ → List ℕ → Manager → Completion
unfolding start_next
run_sets c (id ∷ rest) cold m =
    let again = run_sets c rest cold in
    if may_run c m
    then start_next c again id (record m { queue = rest; cold_call_queue = cold })
    else returned (record m { queue = id ∷ rest; cold_call_queue = cold })
run_sets c [] (id ∷ rest) m =
    let again = run_sets c [] rest in
    if may_run c m
    then start_next c again id (record m { queue = []; cold_call_queue = rest })
    else returned (record m { queue = []; cold_call_queue = id ∷ rest })
run_sets c [] [] m = returned (record m { queue = []; cold_call_queue = [] })

pub run : Context → Manager → Completion
unfolding run_sets
run c m = run_sets c m.queue m.cold_call_queue m

-- A method of the queue at `ref`, with the manager's answer to its stop.
pub call : Context → ℕ → (Queue → Outcome) → Manager → Completion
unfolding settle run
call c ref method m = elim (get_elem? m.heap ref) [
  | none ↦ returned m
  | some cell ↦ settle (run c) ref (method cell.object) m
]

pub record Request : Type 0 where
  pub peer : ℕ
  pub protocol : Option ℕ
  pub use_fsm : Bool
  pub priority : ℕ
  pub callback : Option ℕ

-- `nextTick(callback, DIAL_ABORTED())`
unfoldable pub abort_request : Request → Manager → Completion
abort_request r m = returned (record m { log = m.log ++ deferred r.callback dial_aborted ∷ [] })

-- The cold calls that `add` refuses.
unfoldable pub is_refused : Context → Request → Manager → Bool
is_refused c r m =
    ltb priority_high r.priority
    && (leb c.max_cold_calls (length m.cold_call_queue) || has r.peer m.queue)

-- The set that the id goes to if its queue is at rest.
enlist : Request → Manager → Manager
enlist r m =
    if leb r.priority priority_high
    then record m {
      queue = insert r.peer m.queue;
      cold_call_queue = delete r.peer m.cold_call_queue;
    }
    else record m { cold_call_queue = insert r.peer m.cold_call_queue }

-- `isDialAllowed` of the queue at `ref`, with the reset that it makes.
check_dial : Context → ℕ → Manager → Manager × Bool
unfolding is_dial_allowed
check_dial c ref m = elim (get_elem? m.heap ref) [
  | none ↦ (m, false)
  | some cell ↦
      let (q, ok) = is_dial_allowed c cell.object in (record m { heap = write ref q m.heap }, ok)
]

abbrev is_at_rest : ℕ → Manager → Bool
is_at_rest ref m = elim (get_elem? m.heap ref) [ none ↦ false | some c ↦ not c.object.is_running ]

-- The end of `add` for a peer that is not connected.
enlist_and_run : Context → Request → ℕ → Manager → Completion
unfolding check_dial enlist run
enlist_and_run c r ref m =
    let (m', ok) = check_dial c ref m in
    if ok then run c (if is_at_rest ref m' then enlist r m' else m') else returned m'

-- `add` behind `targetQueue.add`.
after_add : Context → Request → ℕ → Manager → Completion
unfolding call enlist_and_run Queue.start
after_add c r ref m =
    if c.is_connected r.peer
    then call c ref (λ q. (Queue.start c (length m.pending) q).0) m
    else enlist_and_run c r ref m

abbrev dial_of : Request → Dial
dial_of r = record { protocol = r.protocol; use_fsm = r.use_fsm; callback = r.callback }

-- `add` from `targetQueue.add` on.
add_to : Context → Request → ℕ → Manager → Completion
unfolding call after_add Queue.add
add_to c r ref m = call c ref (Queue.add c (dial_of r)) m >>= after_add c r ref

-- `add` with the queue that `getQueue` gave.
unfoldable pub add_at : Context → Request → ℕ × Manager → Completion
unfolding is_refused abort_request add_to
add_at c r (ref, m) = if is_refused c r m then abort_request r m else add_to c r ref m

unfoldable pub add : Context → Request → Manager → Completion
unfolding get_queue add_at
add c r m = add_at c r (get_queue r.peer m)

unfoldable pub start : Manager → Manager
start m = record m { is_running = true }

unfoldable pub clear_denylist : ℕ → Manager → Manager
unfolding get_queue
clear_denylist id m =
    let (ref, m') = get_queue id m in
    elim (get_elem? m'.heap ref) [
      | none ↦ m'
      | some cell ↦ record m' {
        heap = write ref (record cell.object { denylisted = allowed; denylist_count = 0 }) m'.heap;
      }
    ]
