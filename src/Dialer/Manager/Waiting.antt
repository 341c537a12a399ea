-- ===== src/Dialer/Manager/Waiting.antt =====
-- No queue of src/dialer/queueManager.js is stuck: what runs waits for a connection whose next
-- event of the kinds `muxed`, `unmuxed` and `close` runs it on.
pub mod Places
pub mod Calls
pub mod Events
pub mod Alive
use js_libp2p_swarm.Prelude.{
  ℕ, ◌<◌, ◌≡◌, ◌≢◌, refl, Bool, true, false, ◌⊎◌, inl, inr, Option, none, some, List, [], ◌∷◌, ◌++◌,
  arith, length, get_elem?, Bool-cases, Option-cases, insert, ◌==◌, ==→≡, sym, subst, ◌∙◌,
}
use mathlib.Core.List.{append-nil}
use js_libp2p_swarm.Dialer.Context.{Context}
use js_libp2p_swarm.Dialer.Queue.{Queue, Dial, Outcome}
use js_libp2p_swarm.Dialer.Queue
use js_libp2p_swarm.Dialer.Queue.Waiting.{HasNew, Carries, start-Carries}
use js_libp2p_swarm.Dialer.Manager.{
  Cell, Pending, Manager, Completion, state, write, new_pending, settle, record_outcome, start_next,
  run_sets, run, find, may_run, call,
}
use js_libp2p_swarm.Dialer.Manager.Waiting.Places.{
  get_elem?-lt, get_elem?-append_left, get_elem?-append_last, get_elem?-snoc, length-write,
  get_elem?-write,
}

-- The queue object at `ref` has a dial whose `next` is still to be called.
abbrev pub Waited : ℕ → List Pending → Type 0
Waited ref ps =
    (k : ℕ) × (p : Pending) × (get_elem? ps k ≡ some p) × (p.ref ≡ ref) × (p.next ≡ true)

abbrev pub IsAttached : Pending → Type 0
IsAttached p = (p.on_close ≡ true) × (p.on_muxed ≡ true) × (p.on_unmuxed ≡ true)

-- All that `AllWait` asks, but of the object at `at`.
pub record AllWaitBut (at : ℕ) (heap : List Cell) (pending : List Pending) : Type 0 where
  pub placed : (k : ℕ) (p : Pending) → get_elem? pending k ≡ some p → p.ref < length heap
  pub attached : (k : ℕ) (p : Pending) → get_elem? pending k ≡ some p → p.next ≡ true → IsAttached p
  pub waited :
      (ref : ℕ) (c : Cell)
      → ref ≢ at
      → get_elem? heap ref ≡ some c
      → c.object.is_running ≡ true
      → Waited ref pending

pub record AllWait (heap : List Cell) (pending : List Pending) : Type 0 where
  -- a listener has its queue
  pub placed : (k : ℕ) (p : Pending) → get_elem? pending k ≡ some p → p.ref < length heap
  -- until `next` is called, each listener that calls it is attached
  pub attached : (k : ℕ) (p : Pending) → get_elem? pending k ≡ some p → p.next ≡ true → IsAttached p
  -- a queue that runs waits for a connection
  pub waited :
      (ref : ℕ) (c : Cell)
      → get_elem? heap ref ≡ some c
      → c.object.is_running ≡ true
      → Waited ref pending

abbrev pub IsWaiting : Manager → Type 0
IsWaiting m = AllWait m.heap m.pending

AllWait-But :
    {heap : List Cell} {pending : List Pending} (at : ℕ)
    → AllWait heap pending
    → AllWaitBut at heap pending
AllWait-But at w = record {
  placed = w.placed;
  attached = w.attached;
  waited = λ ref c n. w.waited ref c;
}

Waited-append : (ref : ℕ) (ps qs : List Pending) → Waited ref ps → Waited ref (ps ++ qs)
Waited-append ref ps qs (k, p, g, r, n) = (k, p, get_elem?-append_left ps qs k p g, r, n)

-- The object is written, and no dial is new.
quiet :
    (ref : ℕ) (q : Queue) (heap : List Cell) (ps : List Pending)
    → AllWaitBut ref heap ps
    → (q.is_running ≡ true → Waited ref ps)
    → AllWait (write ref q heap) ps
quiet ref q heap ps w h = record {
  placed = λ k p g. rw (length-write ref q heap) (w.placed k p g);
  attached = w.attached;
  waited = λ r c g moves. elim (get_elem?-write ref q heap r c g) [
    | inl (here, same) ↦ rw here (h (rw same moves))
    | inr (there, old) ↦ w.waited r c there old moves
  ];
}

-- The object is written, and a dial of its waits.
renewed :
    (ref : ℕ) (q : Queue) (d : Dial) (heap : List Cell) (ps : List Pending)
    → ref < length heap
    → AllWaitBut ref heap ps
    → AllWait (write ref q heap) (ps ++ new_pending ref (some d))
renewed ref q d heap ps b w = record {
  placed = λ k p g. rw (length-write ref q heap) elim (get_elem?-snoc ps _ k p g) [
    | inl old ↦ w.placed k p old
    | inr same ↦ subst (λ r. r.ref < length heap) same b
  ];
  attached = λ k p g n. elim (get_elem?-snoc ps _ k p g) [
    | inl old ↦ w.attached k p old n
    | inr same ↦ subst IsAttached same (refl, refl, refl)
  ];
  waited = λ r c g moves. elim (get_elem?-write ref q heap r c g) [
    | inl (here, same) ↦ (length ps, _, get_elem?-append_last ps _, sym here, refl)
    | inr (there, old) ↦ Waited-append r ps _ (w.waited r c there old moves)
  ];
}

-- What an outcome of the object at `ref` leaves, if the object waits where it runs.
outcome-IsWaiting :
    (ref : ℕ) (o : Outcome) (m : Manager)
    → ref < length m.heap
    → AllWaitBut ref m.heap m.pending
    → (o.queue.is_running ≡ true → HasNew o ⊎ Waited ref m.pending)
    → IsWaiting (record_outcome ref o m)
unfolding record_outcome
outcome-IsWaiting ref o m b w h = elim (Option-cases o.waits) [
  | inl e ↦
      rw (e, append-nil)
        (quiet ref o.queue m.heap m.pending w
          (λ moves. elim (h moves) [ inl (d, new) ↦ absurd (ground arith) | inr old ↦ old ]))
  | inr (d, e) ↦ rw e (renewed ref o.queue d m.heap m.pending b w)
]

-- An operation that keeps it.
abbrev pub KeepsWait : (Manager → Completion) → Type 0
KeepsWait f = (m : Manager) → IsWaiting m → IsWaiting (state (f m))

settle-IsWaiting :
    (again : Manager → Completion) (ref : ℕ) (o : Outcome) (m : Manager)
    → KeepsWait again
    → ref < length m.heap
    → AllWaitBut ref m.heap m.pending
    → (o.queue.is_running ≡ true → HasNew o ⊎ Waited ref m.pending)
    → IsWaiting (state (settle again ref o m))
unfolding settle record_outcome
settle-IsWaiting again ref o m k b w h = elim (Bool-cases o.threw) [
  | inl t ↦ rw (t, settle) (outcome-IsWaiting ref o m b w h)
  | inr t ↦ elim (Bool-cases o.stopped) [
    | inl s ↦ rw (t, s, settle) (k _ (outcome-IsWaiting ref o m b w h))
    | inr s ↦ rw (t, s, settle) (outcome-IsWaiting ref o m b w h)
  ]
]

-- A dial that waited where its queue ran before.
carried :
    (o : Outcome) (ref : ℕ) (m : Manager) (c : Cell)
    → get_elem? m.heap ref ≡ some c
    → IsWaiting m
    → Carries c.object o
    → o.queue.is_running ≡ true
    → HasNew o ⊎ Waited ref m.pending
carried o ref m c g w f moves = elim (f moves) [
  | inl new ↦ inl new
  | inr ran ↦ inr (w.waited ref c g ran)
]

module _ (c : Context) (book : (id : ℕ) → c.in_peer_book id ≡ true) where
  start_next-KeepsWait :
      (again : Manager → Completion) (id : ℕ) → KeepsWait again → KeepsWait (start_next c again id)
  unfolding start_next
  start_next-KeepsWait again id k m w = elim (Option-cases (find id 0 m.heap)) [
    | inl e ↦ rw (e, start_next) w
    | inr (ref, e) ↦ elim (Option-cases (get_elem? m.heap ref)) [
      | inl g ↦ rw (e, g, start_next) w
      | inr (cell, g) ↦
          let o = (Queue.start c (length m.pending) cell.object).0 in
          let m' : Manager = record m { dialing_queues = insert id m.dialing_queues } in
          rw (e, g, start_next)
            (settle-IsWaiting again ref o m' k (get_elem?-lt m.heap ref cell g) (AllWait-But ref w)
              (carried o ref m' cell g w
                (start-Carries c (length m.pending) cell.object (book cell.object.id))))
    ]
  ]

  run_sets-KeepsWait : (queue cold : List ℕ) → KeepsWait (run_sets c queue cold)
  unfolding run_sets
  run_sets-KeepsWait (id ∷ rest) cold m w = elim (Bool-cases (may_run c m)) [
    | inl ok ↦
        rw (ok, run_sets)
          (start_next-KeepsWait (run_sets c rest cold) id (run_sets-KeepsWait rest cold) _ w)
    | inr full ↦ rw (full, run_sets) w
  ]
  run_sets-KeepsWait [] (id ∷ rest) m w = elim (Bool-cases (may_run c m)) [
    | inl ok ↦
        rw (ok, run_sets)
          (start_next-KeepsWait (run_sets c [] rest) id (run_sets-KeepsWait [] rest) _ w)
    | inr full ↦ rw (full, run_sets) w
  ]
  run_sets-KeepsWait [] [] m w = w

  run-KeepsWait : KeepsWait (run c)
  unfolding run
  run-KeepsWait m w = run_sets-KeepsWait m.queue m.cold_call_queue m w

  -- A method of the object at `ref` that leaves it waiting where it runs.
  call-IsWaiting :
      (ref : ℕ) (method : Queue → Outcome) (m : Manager)
      → AllWaitBut ref m.heap m.pending
      → ((cell : Cell)
          → get_elem? m.heap ref ≡ some cell
          → (method cell.object).queue.is_running ≡ true
          → HasNew (method cell.object) ⊎ Waited ref m.pending)
      → IsWaiting (state (call c ref method m))
  unfolding call
  call-IsWaiting ref method m w h = elim (Option-cases (get_elem? m.heap ref)) [
    | inl e ↦
        rw (e, call)
          (record {
            placed = w.placed;
            attached = w.attached;
            waited = λ r d g. w.waited r d (λ same. ground arith) g;
          })
    | inr (cell, e) ↦
        rw (e, call)
          (settle-IsWaiting (run c) ref (method cell.object) m run-KeepsWait
            (get_elem?-lt m.heap ref cell e) w (h cell e))
  ]

  call-KeepsWait :
      (ref : ℕ) (method : Queue → Outcome)
      → ((q : Queue) → Carries q (method q))
      → KeepsWait (call c ref method)
  call-KeepsWait ref method f m w =
      call-IsWaiting ref method m (AllWait-But ref w)
        (λ cell g. carried (method cell.object) ref m cell g w (f cell.object))
