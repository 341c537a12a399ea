-- ===== src/Dialer/Manager/Invariant.antt =====
-- What holds of the manager of src/dialer/queueManager.js between two calls, and that every method
-- keeps it.
use js_libp2p_swarm.Prelude.{
  ℕ, ◌≤◌, ◌<◌, ◌≡◌, ◌≢◌, refl, true, false, some, List, [], ◌∷◌, arith, length, get_elem?, has,
  insert, delete, distinct, has-insert, has-delete, distinct-insert, distinct-delete,
  length-insert-le, length-delete-le, Bool-cases, Option-cases, inl, inr, ◌==◌, ==→≡, ◌∙◌, sym,
  subst,
}
use mathlib.Core.Path.{subst₂}
use js_libp2p_swarm.Dialer.Context.{Context, Limits}
use js_libp2p_swarm.Dialer.Queue.{Queue, Outcome}
use js_libp2p_swarm.Dialer.Queue
use js_libp2p_swarm.Dialer.Queue.Running.{Keeps, start-Keeps, start_runs}
use js_libp2p_swarm.Dialer.Manager.{
  Cell, Manager, Completion, state, write, settle, record_outcome, start_next, run_sets, run, find,
  may_run, call,
}
use js_libp2p_swarm.Dialer.Manager.Slots.{
  runs, runs-write_ne, runs-write_mono, runs-write_self, find_lem,
}

pub record IsValid (l : Limits) (m : Manager) : Type 0 where
  -- no peer stands twice in a set, nor in both sets of peers to be dialed
  pub distinct_queue : distinct m.queue ≡ true
  pub distinct_cold : distinct m.cold_call_queue ≡ true
  pub distinct_dialing : distinct m.dialing_queues ≡ true
  pub disjoint : (id : ℕ) → has id m.queue ≡ true → has id m.cold_call_queue ≡ false
  -- the limits are kept
  pub cold_bounded : length m.cold_call_queue ≤ l.max_cold_calls
  pub dialing_bounded : length m.dialing_queues ≤ l.max_parallel_dials
  -- a slot for a dial is taken only by a listed queue that runs
  pub slots : (id : ℕ) → has id m.dialing_queues ≡ true → runs id m.heap ≡ true

-- All of it but the slot of one peer.
record IsValidBut (l : Limits) (peer : ℕ) (m : Manager) : Type 0 where
  distinct_queue : distinct m.queue ≡ true
  distinct_cold : distinct m.cold_call_queue ≡ true
  distinct_dialing : distinct m.dialing_queues ≡ true
  disjoint : (id : ℕ) → has id m.queue ≡ true → has id m.cold_call_queue ≡ false
  cold_bounded : length m.cold_call_queue ≤ l.max_cold_calls
  dialing_bounded : length m.dialing_queues ≤ l.max_parallel_dials
  slots : (id : ℕ) → id ≢ peer → has id m.dialing_queues ≡ true → runs id m.heap ≡ true

-- What a method of the queue at `ref` may do for the invariant to come back.
record Fits (ref : ℕ) (cell : Cell) (m : Manager) (o : Outcome) : Type 0 where
  at_ref : get_elem? m.heap ref ≡ some cell
  same_id : o.queue.id ≡ cell.object.id
  slot :
      o.stopped ≡ false
      → has cell.object.id m.dialing_queues ≡ true
      → runs cell.object.id (write ref o.queue m.heap) ≡ true
  threw_running : o.threw ≡ true → o.stopped ≡ false

module _ (l : Limits) (ref : ℕ) (cell : Cell) (o : Outcome) (m : Manager) where
  kept-IsValid :
      Fits ref cell m o
      → IsValidBut l cell.object.id m
      → o.stopped ≡ false
      → IsValid l (record_outcome ref o m)
  unfolding record_outcome
  kept-IsValid f v s = record {
    distinct_queue = v.distinct_queue;
    distinct_cold = v.distinct_cold;
    distinct_dialing = v.distinct_dialing;
    disjoint = v.disjoint;
    cold_bounded = v.cold_bounded;
    dialing_bounded = v.dialing_bounded;
    slots = λ id h. elim (Bool-cases (id == cell.object.id)) [
      | inl here ↦ rw (==→≡ id cell.object.id here) (f.slot s (ground arith))
      | inr there ↦
          runs-write_ne id ref o.queue cell m.heap f.at_ref f.same_id (ground arith)
          ∙ v.slots id (ground arith) h
    ];
  }

  freed-IsValid :
      Fits ref cell m o
      → IsValidBut l cell.object.id m
      → IsValid l
          (record (record_outcome ref o m) { dialing_queues = delete o.queue.id m.dialing_queues })
  unfolding record_outcome
  freed-IsValid f v = record {
    distinct_queue = v.distinct_queue;
    distinct_cold = v.distinct_cold;
    distinct_dialing = distinct-delete o.queue.id m.dialing_queues v.distinct_dialing;
    disjoint = v.disjoint;
    cold_bounded = v.cold_bounded;
    dialing_bounded =
        omega (arith, length-delete-le o.queue.id m.dialing_queues, v.dialing_bounded);
    slots = λ id h.
        let left = has-delete id o.queue.id m.dialing_queues v.distinct_dialing in
        let far : id ≢ o.queue.id = ground arith in
        runs-write_ne id ref o.queue cell m.heap f.at_ref f.same_id far
        ∙ v.slots id (ground arith) (ground arith);
  }

-- What `again` is asked to keep: it is called with the two sets as they are.
abbrev KeepsValid : Limits → Manager → (Manager → Completion) → Type 0
KeepsValid l m again =
    (m' : Manager)
    → m'.queue ≡ m.queue
    → m'.cold_call_queue ≡ m.cold_call_queue
    → IsValid l m'
    → IsValid l (state (again m'))

-- After an outcome of the queue at `ref` the invariant holds, if it held but for that slot.
settle-IsValid :
    (l : Limits) (again : Manager → Completion) (ref : ℕ) (cell : Cell) (o : Outcome) (m : Manager)
    → KeepsValid l m again
    → Fits ref cell m o
    → IsValidBut l cell.object.id m
    → IsValid l (state (settle again ref o m))
unfolding settle record_outcome
settle-IsValid l again ref cell o m keep f v = elim (Bool-cases o.threw) [
  | inl t ↦ rw (t, settle) (kept-IsValid l ref cell o m f v (f.threw_running t))
  | inr t ↦ elim (Bool-cases o.stopped) [
    | inl s ↦ rw (t, s, settle) (keep _ refl refl (freed-IsValid l ref cell o m f v))
    | inr s ↦ rw (t, s, settle) (kept-IsValid l ref cell o m f v s)
  ]
]

IsValid-But : {l : Limits} {m : Manager} (peer : ℕ) → IsValid l m → IsValidBut l peer m
IsValid-But peer v = record {
  distinct_queue = v.distinct_queue;
  distinct_cold = v.distinct_cold;
  distinct_dialing = v.distinct_dialing;
  disjoint = v.disjoint;
  cold_bounded = v.cold_bounded;
  dialing_bounded = v.dialing_bounded;
  slots = λ id n. v.slots id;
}

insert-But :
    {l : Limits} {m : Manager} (peer : ℕ)
    → length m.dialing_queues < l.max_parallel_dials
    → IsValid l m
    → IsValidBut l peer (record m { dialing_queues = insert peer m.dialing_queues })
insert-But {l} {m} peer room v = record {
  distinct_queue = v.distinct_queue;
  distinct_cold = v.distinct_cold;
  distinct_dialing = distinct-insert peer m.dialing_queues v.distinct_dialing;
  disjoint = v.disjoint;
  cold_bounded = v.cold_bounded;
  dialing_bounded = omega (arith, length-insert-le peer m.dialing_queues);
  slots = λ id n h. v.slots id (ground (arith, has-insert id peer m.dialing_queues));
}

module _ (c : Context) (again : Manager → Completion) where
  start_next-IsValid :
      (id : ℕ) (m : Manager)
      → length m.dialing_queues < c.max_parallel_dials
      → KeepsValid c.limits m again
      → IsValid c.limits m
      → IsValid c.limits (state (start_next c again id m))
  unfolding start_next
  start_next-IsValid id m room keep v = elim (Option-cases (find id 0 m.heap)) [
    | inl e ↦ rw (e, start_next) v
    | inr (ref, e) ↦
        let (cell, g, listed, same) = find_lem id m.heap ref e in
        let o : Outcome = (Queue.start c (length m.pending) cell.object).0 in
        let k = start-Keeps c (length m.pending) cell.object in
        let m' : Manager = record m { dialing_queues = insert id m.dialing_queues } in
        let slot : o.stopped ≡ false → runs cell.object.id (write ref o.queue m.heap) ≡ true = λ s.
          subst (λ j. runs j (write ref o.queue m.heap) ≡ true) k.same_id
            (runs-write_self ref o.queue cell m.heap g listed
              (start_runs c (length m.pending) cell.object s)) in
        rw (e, g, start_next)
          (settle-IsValid c.limits again ref cell o m' keep
            (record {
              at_ref = g;
              same_id = k.same_id;
              slot = λ s _. slot s;
              threw_running = k.threw_running;
            })
            (subst (λ j. IsValidBut c.limits j m') (sym same) (insert-But id room v)))
  ]

with_sets :
    (l : Limits) (m : Manager) (queue cold : List ℕ)
    → m.queue ≡ queue
    → m.cold_call_queue ≡ cold
    → IsValid l m
    → IsValid l (record m { queue = queue; cold_call_queue = cold })
with_sets l m queue cold p q v =
    subst₂ (λ x y. IsValid l (record m { queue = x; cold_call_queue = y })) p q v

-- An id is taken from a set.
take_queue :
    (l : Limits) (m : Manager) (id : ℕ) (rest cold : List ℕ)
    → IsValid l (record m { queue = id ∷ rest; cold_call_queue = cold })
    → IsValid l (record m { queue = rest; cold_call_queue = cold })
take_queue l m id rest cold v = record {
  distinct_queue = ground arith;
  distinct_cold = v.distinct_cold;
  distinct_dialing = v.distinct_dialing;
  disjoint = λ j h. v.disjoint j (ground arith);
  cold_bounded = v.cold_bounded;
  dialing_bounded = v.dialing_bounded;
  slots = v.slots;
}

take_cold :
    (l : Limits) (m : Manager) (id : ℕ) (rest : List ℕ)
    → IsValid l (record m { queue = []; cold_call_queue = id ∷ rest })
    → IsValid l (record m { queue = []; cold_call_queue = rest })
take_cold l m id rest v = record {
  distinct_queue = refl;
  distinct_cold = ground arith;
  distinct_dialing = v.distinct_dialing;
  disjoint = λ j h. ground arith;
  cold_bounded = omega (arith, v.cold_bounded);
  dialing_bounded = v.dialing_bounded;
  slots = v.slots;
}

may_run-room :
    (c : Context) (m : Manager)
    → may_run c m ≡ true
    → length m.dialing_queues < c.max_parallel_dials
may_run-room c m h = ground arith

-- The sets that are still to be run are fields of the invariant.
run_sets-IsValid :
    (c : Context) (queue cold : List ℕ) (m : Manager)
    → IsValid c.limits (record m { queue = queue; cold_call_queue = cold })
    → IsValid c.limits (state (run_sets c queue cold m))
unfolding run_sets
run_sets-IsValid c (id ∷ rest) cold m v = elim (Bool-cases (may_run c m)) [
  | inl ok ↦
      rw (ok, run_sets)
        (start_next-IsValid c (run_sets c rest cold) id _ (may_run-room c m ok)
          (λ m' p q w. run_sets-IsValid c rest cold m' (with_sets c.limits m' rest cold p q w))
          (take_queue c.limits m id rest cold v))
  | inr full ↦ rw (full, run_sets) v
]
run_sets-IsValid c [] (id ∷ rest) m v = elim (Bool-cases (may_run c m)) [
  | inl ok ↦
      rw (ok, run_sets)
        (start_next-IsValid c (run_sets c [] rest) id _ (may_run-room c m ok)
          (λ m' p q w. run_sets-IsValid c [] rest m' (with_sets c.limits m' [] rest p q w))
          (take_cold c.limits m id rest v))
  | inr full ↦ rw (full, run_sets) v
]
run_sets-IsValid c [] [] m v = v

pub run-IsValid :
    (c : Context) (m : Manager) → IsValid c.limits m → IsValid c.limits (state (run c m))
unfolding run
run-IsValid c m v = run_sets-IsValid c m.queue m.cold_call_queue m v

-- A method that keeps its queue running, or reports the stop, keeps the invariant.
pub call-IsValid :
    (c : Context) (ref : ℕ) (method : Queue → Outcome) (m : Manager)
    → ((q : Queue) → Keeps q (method q))
    → IsValid c.limits m
    → IsValid c.limits (state (call c ref method m))
unfolding call
call-IsValid c ref method m k v = elim (Option-cases (get_elem? m.heap ref)) [
  | inl e ↦ rw (e, call) v
  | inr (cell, e) ↦
      let o = method cell.object in
      let f = k cell.object in
      rw (e, call)
        (settle-IsValid c.limits (run c) ref cell o m (λ m' _ _. run-IsValid c m')
          (record {
            at_ref = e;
            same_id = f.same_id;
            slot = λ s h.
                runs-write_mono cell.object.id ref o.queue cell m.heap e f.same_id
                  (f.still_running s) (v.slots cell.object.id h);
            threw_running = f.threw_running;
          })
          (IsValid-But cell.object.id v))
]
