-- ===== src/Dialer/Manager/Waiting/Alive.antt =====
-- src/dialer/queueManager.js and src/dialer/queue.js: where the peer book knows the peers, a slot is
-- held for a dial whose connection was told to dial and whose `next` was not called.
use js_libp2p_swarm.Prelude.{
  ℕ, ◌≡◌, ◌∙◌, refl, true, inl, inr, List, [], ◌∷◌, some, arith, length, get_elem?, has, Bool-cases,
  ap, suc, zero,
}
use js_libp2p_swarm.Dialer.Context.{Context, Limits}
use js_libp2p_swarm.Dialer.Queue
use js_libp2p_swarm.Dialer.Manager.{Cell, Pending, Manager, init, start, state, call}
use js_libp2p_swarm.Dialer.Manager.Listeners.{closed, emit}
use js_libp2p_swarm.Dialer.Manager.History.{
  Call, adds, clears, starts, stops, cleans, emits, step, run_all,
}
use js_libp2p_swarm.Dialer.Manager.Histories.{SameLimits, run_all-IsValid}
use js_libp2p_swarm.Dialer.Manager.Slots.{runs}
use js_libp2p_swarm.Dialer.Queue.Told.{was_dialed}
use js_libp2p_swarm.Dialer.Manager.Announced.{IsAnnounced}
use js_libp2p_swarm.Dialer.Manager.Growth.{
  add-Keeps, clear_denylist-Grows, clean-Keeps, for_each-Keeps, abort_and_delete-Keeps,
}
use js_libp2p_swarm.Dialer.Manager.Answers.{emit-IsAnnounced}
use js_libp2p_swarm.Dialer.Manager.Sweep.{stop, listed_refs, abort_and_delete}
use js_libp2p_swarm.Dialer.Manager.Waiting.{IsAttached, IsWaiting}
use js_libp2p_swarm.Dialer.Manager.Waiting.Calls.{
  add-KeepsWait, clean-KeepsWait, stop-KeepsWait, clear_denylist-IsWaiting,
}
use js_libp2p_swarm.Dialer.Manager.Waiting.Events.{emit-KeepsWait, emit-closed, next_called}
use js_libp2p_swarm.Dialer.Manager.Waiting.Places.{get_elem?-lt}

pub step-IsWaiting :
    (c : Context) (a : Call) (m : Manager)
    → ((id : ℕ) → c.in_peer_book id ≡ true)
    → IsWaiting m
    → IsWaiting (state (step c a m))
unfolding step start
step-IsWaiting c (adds r) m book w = add-KeepsWait c book r m w
step-IsWaiting c (clears id) m book w = clear_denylist-IsWaiting id m w
step-IsWaiting c starts m book w = w
step-IsWaiting c stops m book w = stop-KeepsWait c book m w
step-IsWaiting c cleans m book w = clean-KeepsWait c book m w
step-IsWaiting c (emits k e) m book w = emit-KeepsWait c book k e m w

-- At every moment of the history the peer book knows each peer.
abbrev pub KnowsPeers : List (Context × Call) → Type 0
KnowsPeers [] = Unit {0}
KnowsPeers ((c, a) ∷ rest) = ((id : ℕ) → c.in_peer_book id ≡ true) × KnowsPeers rest

run_all_from :
    (history : List (Context × Call)) (m : Manager)
    → KnowsPeers history
    → IsWaiting m
    → IsWaiting (run_all history m)
unfolding run_all
run_all_from [] m h w = w
run_all_from ((c, a) ∷ rest) m h w =
    run_all_from rest (state (step c a m)) h.1 (step-IsWaiting c a m h.0 w)

pub init-IsWaiting : IsWaiting init
unfolding init
init-IsWaiting = record {
  placed = λ k p g. absurd (ground arith);
  attached = λ k p g. absurd (ground arith);
  waited = λ ref c g. absurd (ground arith);
}

-- After any history of calls, timers and connection events in which the peer book knows the
-- peers: every queue object that runs, also one that `_queues` has dropped, has a dial whose
-- `next` was not called, every dial has its queue object, and until its `next` is called the
-- listeners of `close`, `muxed` and `unmuxed` are on its connection.
run_all-IsWaiting :
    (history : List (Context × Call)) → KnowsPeers history → IsWaiting (run_all history init)
run_all-IsWaiting history h = run_all_from history init h init-IsWaiting

-- The queue object that a slot is held for.
runs-cell :
    (id : ℕ) (cs : List Cell)
    → runs id cs ≡ true
    → (ref : ℕ) × (c : Cell) × (get_elem? cs ref ≡ some c)
      × (c.object.id ≡ id)
      × (c.object.is_running ≡ true)
runs-cell id [] h = absurd (ground arith)
runs-cell id (c ∷ cs) h = elim (Bool-cases (runs id cs)) [
  | inl later ↦ let (ref, d, g, i, r) = runs-cell id cs later in (suc ref, d, g, i, r)
  | inr here ↦ (zero, c, refl, ground arith, ground arith)
]

-- A dial that holds the slot of the peer `id`: its queue runs, its connection was told to dial, and
-- the events that end a dial were not heard.
pub record IsUnderWay (c : Context) (id : ℕ) (m : Manager) : Type 0 where
  pub ref : ℕ
  pub cell : Cell
  pub at_ref : get_elem? m.heap ref ≡ some cell
  pub same_id : cell.object.id ≡ id
  pub is_running : cell.object.is_running ≡ true
  pub connection : ℕ
  pub waiting : Pending
  pub at_connection : get_elem? m.pending connection ≡ some waiting
  pub told : was_dialed connection m.log ≡ true
  pub not_over : waiting.next ≡ true
  -- no listener of `close`, `muxed` and `unmuxed` was called
  pub attached : IsAttached waiting
  pub goes_on :
      emit c connection closed m
      ≡ call c ref (λ q. Queue.run c (length m.pending) q) (next_called connection waiting m)

pub IsUnderWay-from :
    (c : Context) (id : ℕ) (m : Manager)
    → runs id m.heap ≡ true
    → IsWaiting m
    → IsAnnounced m
    → IsUnderWay c id m
IsUnderWay-from c id m h w a =
    let (ref, cell, g, same, runs) = runs-cell id m.heap h in
    let (k, p, e, r, n) = w.waited ref cell g runs in
    record {
      ref = ref;
      cell = cell;
      at_ref = g;
      same_id = same;
      is_running = runs;
      connection = k;
      waiting = p;
      at_connection = e;
      told = a k (get_elem?-lt m.pending k p e);
      not_over = n;
      attached = w.attached k p e n;
      goes_on =
          emit-closed c k p m e n (w.attached k p e n).0
          ∙ ap (λ at. call c at (λ q. Queue.run c (length m.pending) q) (next_called k p m)) r;
    }

pub step-IsAnnounced :
    (c : Context) (a : Call) (m : Manager) → IsAnnounced m → IsAnnounced (state (step c a m))
unfolding step start stop
step-IsAnnounced c (adds r) m a = (add-Keeps c r m).announced a
step-IsAnnounced c (clears id) m a = (clear_denylist-Grows id m).announced a
step-IsAnnounced c starts m a = a
step-IsAnnounced c stops m a =
    (for_each-Keeps (abort_and_delete c) (listed_refs 0 m.heap) (abort_and_delete-Keeps c)
        _).announced
      a
step-IsAnnounced c cleans m a = (clean-Keeps c m).announced a
step-IsAnnounced c (emits k e) m a = emit-IsAnnounced c k e m a

pub init-IsAnnounced : IsAnnounced init
unfolding init
init-IsAnnounced k h = absurd (omega arith)

-- After any history, whatever the peer book knows: each connection that the manager dials through
-- was told to dial.
run_all-IsAnnounced :
    (history : List (Context × Call)) (m : Manager)
    → IsAnnounced m
    → IsAnnounced (run_all history m)
unfolding run_all
run_all-IsAnnounced [] m a = a
run_all-IsAnnounced ((c, x) ∷ rest) m a =
    run_all-IsAnnounced rest (state (step c x m)) (step-IsAnnounced c x m a)

-- After any history of calls, timers and connection events at limits that do not change, in which
-- the peer book knows each peer at every moment: each slot of `_dialingQueues` is held by a queue
-- that runs and has a dial whose connection was told to dial, whose `next` was not called, and on
-- whose connection the listeners of `close`, `muxed` and `unmuxed` are; and the close of that
-- connection runs the queue on.
pub run_all-IsUnderWay :
    (l : Limits) (history : List (Context × Call)) (c : Context) (id : ℕ)
    → SameLimits l history
    → KnowsPeers history
    → has id (run_all history init).dialing_queues ≡ true
    → IsUnderWay c id (run_all history init)
run_all-IsUnderWay l history c id same book h =
    IsUnderWay-from c id (run_all history init) ((run_all-IsValid l history same).slots id h)
      (run_all-IsWaiting history book) (run_all-IsAnnounced history init init-IsAnnounced)
