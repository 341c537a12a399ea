-- ===== src/Dialer/Manager/Growth.antt =====
-- src/dialer/queueManager.js: no call but `start` and `stop` changes `isRunning`, and a call adds
-- dials to those that wait, behind the others.
use js_libp2p_swarm.Prelude.{
  ℕ, ◌≡◌, refl, List, [], ◌∷◌, arith, length, get_elem?, insert, Bool-cases, Option-cases, inl, inr,
}
use js_libp2p_swarm.Dialer.Context.{Context}
use js_libp2p_swarm.Dialer.Queue.{Queue, Outcome, Effect}
use js_libp2p_swarm.Dialer.Queue.Told.{Tells, add-Tells, abort-Tells, start-Tells}
use js_libp2p_swarm.Dialer.Queue
use js_libp2p_swarm.Dialer.Manager.{
  Manager, find, may_run, is_at_rest, dial_of, Completion, returned, threw, state, ◌>>=◌, Request,
  start_next, run_sets, run, call, add, add_at, add_to, after_add, enlist_and_run, check_dial,
  enlist, get_queue, clear_denylist, is_refused, abort_request,
}
use js_libp2p_swarm.Dialer.Manager.Sweep.{
  listed_refs, is_stale, clean, clean_one, abort_and_delete, for_each,
}
use js_libp2p_swarm.Dialer.Manager.Announced.{
  Keeps, Grows, Grows-refl, logged-Grows, same-Grows, Grows-trans, settle-Grows,
}

start_next-Keeps :
    (c : Context) (again : Manager → Completion) (id : ℕ)
    → Keeps again
    → Keeps (start_next c again id)
unfolding start_next
start_next-Keeps c again id k m = elim (Option-cases (find id 0 m.heap)) [
  | inl e ↦ rw (e, start_next) (Grows-refl m)
  | inr (ref, e) ↦ elim (Option-cases (get_elem? m.heap ref)) [
    | inl g ↦ rw (e, g, start_next) (Grows-refl m)
    | inr (cell, g) ↦
        let m' : Manager = record m { dialing_queues = insert id m.dialing_queues } in
        rw (e, g, start_next)
          (Grows-trans (same-Grows m m' refl refl refl) (
            settle-Grows again ref (Queue.start c (length m.pending) cell.object).0 m' k
              (start-Tells c (length m.pending) cell.object)))
  ]
]

run_sets-Keeps : (c : Context) (queue cold : List ℕ) → Keeps (run_sets c queue cold)
unfolding run_sets
run_sets-Keeps c (id ∷ rest) cold m =
    let m' : Manager = record m { queue = rest; cold_call_queue = cold } in
    elim (Bool-cases (may_run c m)) [
      | inl ok ↦
          rw (ok, run_sets)
            (Grows-trans (same-Grows m m' refl refl refl)
              (start_next-Keeps c (run_sets c rest cold) id (run_sets-Keeps c rest cold) m'))
      | inr full ↦ rw (full, run_sets) (same-Grows m _ refl refl refl)
    ]
run_sets-Keeps c [] (id ∷ rest) m =
    let m' : Manager = record m { queue = []; cold_call_queue = rest } in
    elim (Bool-cases (may_run c m)) [
      | inl ok ↦
          rw (ok, run_sets)
            (Grows-trans (same-Grows m m' refl refl refl)
              (start_next-Keeps c (run_sets c [] rest) id (run_sets-Keeps c [] rest) m'))
      | inr full ↦ rw (full, run_sets) (same-Grows m _ refl refl refl)
    ]
run_sets-Keeps c [] [] m = same-Grows m _ refl refl refl

run-Keeps : (c : Context) → Keeps (run c)
unfolding run
run-Keeps c m = run_sets-Keeps c m.queue m.cold_call_queue m

pub call-Grows :
    (c : Context) (ref : ℕ) (method : Queue → Outcome) (m : Manager)
    → ((q : Queue) → Tells (length m.pending) (method q))
    → Grows m (state (call c ref method m))
unfolding call
call-Grows c ref method m t = elim (Option-cases (get_elem? m.heap ref)) [
  | inl e ↦ rw (e, call) (Grows-refl m)
  | inr (cell, e) ↦
      rw (e, call) (settle-Grows (run c) ref (method cell.object) m (run-Keeps c) (t cell.object))
]

>>=-Keeps :
    (m : Manager) (x : Completion) (f : Manager → Completion)
    → Keeps f
    → Grows m (state x)
    → Grows m (state (x >>= f))
>>=-Keeps m (returned m') f k g = Grows-trans g (k m')
>>=-Keeps m (threw m') f k g = g

get_queue-Grows : (id : ℕ) (m : Manager) → Grows m (get_queue id m).1
unfolding get_queue
get_queue-Grows id m = elim (Option-cases (find id 0 m.heap)) [
  | inl e ↦ rw (e, get_queue) (same-Grows m _ refl refl refl)
  | inr (ref, e) ↦ rw (e, get_queue) (Grows-refl m)
]

pub clear_denylist-Grows : (id : ℕ) (m : Manager) → Grows m (clear_denylist id m)
unfolding clear_denylist
clear_denylist-Grows id m =
    let g = get_queue-Grows id m in
    elim (Option-cases (get_elem? (get_queue id m).1.heap (get_queue id m).0)) [
      | inl e ↦ rw (e, clear_denylist) g
      | inr (cell, e) ↦ rw (e, clear_denylist) (Grows-trans g (same-Grows _ _ refl refl refl))
    ]

check_dial-Grows : (c : Context) (ref : ℕ) (m : Manager) → Grows m (check_dial c ref m).0
unfolding check_dial
check_dial-Grows c ref m = elim (Option-cases (get_elem? m.heap ref)) [
  | inl e ↦ rw (e, check_dial) (Grows-refl m)
  | inr (cell, e) ↦ rw (e, check_dial) (same-Grows m _ refl refl refl)
]

enlist-Grows : (r : Request) (m : Manager) → Grows m (enlist r m)
unfolding enlist
enlist-Grows r m = same-Grows m (enlist r m) (ground arith) (ground arith) (ground arith)

enlist_and_run-Keeps : (c : Context) (r : Request) (ref : ℕ) → Keeps (enlist_and_run c r ref)
unfolding enlist_and_run
enlist_and_run-Keeps c r ref m =
    let m' = (check_dial c ref m).0 in
    let g = check_dial-Grows c ref m in
    elim (Bool-cases (check_dial c ref m).1) [
      | inr n ↦ rw (n, enlist_and_run) g
      | inl y ↦ elim (Bool-cases (is_at_rest ref m')) [
        | inr n ↦ rw (y, n, enlist_and_run) (Grows-trans g (run-Keeps c m'))
        | inl rest ↦
            rw (y, rest, enlist_and_run)
              (Grows-trans g (Grows-trans (enlist-Grows r m') (run-Keeps c (enlist r m'))))
      ]
    ]

after_add-Keeps : (c : Context) (r : Request) (ref : ℕ) → Keeps (after_add c r ref)
unfolding after_add
after_add-Keeps c r ref m = elim (Bool-cases (c.is_connected r.peer)) [
  | inl h ↦
      rw (h, after_add)
        (call-Grows c ref (λ q. (Queue.start c (length m.pending) q).0) m
          (start-Tells c (length m.pending)))
  | inr h ↦ rw (h, after_add) (enlist_and_run-Keeps c r ref m)
]

pub add-Keeps : (c : Context) (r : Request) → Keeps (add c r)
unfolding add add_at add_to abort_request
add-Keeps c r m =
    let m' = (get_queue r.peer m).1 in
    let ref = (get_queue r.peer m).0 in
    let g = get_queue-Grows r.peer m in
    elim (Bool-cases (is_refused c r m')) [
      | inl y ↦ rw (y, add) (Grows-trans g (logged-Grows m' _ _ refl refl refl))
      | inr n ↦
          rw (n, add)
            (Grows-trans g (
              >>=-Keeps m' (call c ref (Queue.add c (dial_of r)) m') (after_add c r ref)
                (after_add-Keeps c r ref)
                (call-Grows c ref (Queue.add c (dial_of r)) m'
                  (λ q. add-Tells (length m'.pending) c (dial_of r) q))))
    ]

pub for_each-Keeps :
    (f : ℕ → Manager → Completion) (refs : List ℕ)
    → ((ref : ℕ) → Keeps (f ref))
    → Keeps (for_each f refs)
unfolding for_each
for_each-Keeps f [] k m = Grows-refl m
for_each-Keeps f (ref ∷ refs) k m =
    >>=-Keeps m (f ref m) (for_each f refs) (for_each-Keeps f refs k) (k ref m)

pub abort_and_delete-Keeps : (c : Context) (ref : ℕ) → Keeps (abort_and_delete c ref)
unfolding abort_and_delete
abort_and_delete-Keeps c ref m =
    >>=-Keeps m (call c ref Queue.abort m) _ (λ m'. same-Grows m' _ refl refl refl)
      (call-Grows c ref Queue.abort m (abort-Tells (length m.pending)))

clean_one-Keeps : (c : Context) (ref : ℕ) → Keeps (clean_one c ref)
unfolding clean_one
clean_one-Keeps c ref m = elim (Option-cases (get_elem? m.heap ref)) [
  | inl e ↦ rw (e, clean_one) (Grows-refl m)
  | inr (cell, e) ↦ elim (Bool-cases (is_stale c cell.object)) [
    | inl h ↦ rw (e, h, clean_one) (abort_and_delete-Keeps c ref m)
    | inr h ↦ rw (e, h, clean_one) (Grows-refl m)
  ]
]

pub clean-Keeps : (c : Context) → Keeps (clean c)
unfolding clean
clean-Keeps c m =
    >>=-Keeps m (for_each (clean_one c) (listed_refs 0 m.heap) m) _
      (λ m'. same-Grows m' _ refl refl refl)
      (for_each-Keeps (clean_one c) (listed_refs 0 m.heap) (clean_one-Keeps c) m)

pending-get_queue : (id : ℕ) (m : Manager) → (get_queue id m).1.pending ≡ m.pending
unfolding get_queue
pending-get_queue id m = ground arith

pub pending-clear_denylist : (id : ℕ) (m : Manager) → (clear_denylist id m).pending ≡ m.pending
unfolding clear_denylist
pending-clear_denylist id m =
    elim (Option-cases (get_elem? (get_queue id m).1.heap (get_queue id m).0)) [
      | inl e ↦ rw (e, clear_denylist) (pending-get_queue id m)
      | inr (cell, e) ↦ rw (e, clear_denylist) (pending-get_queue id m)
    ]
