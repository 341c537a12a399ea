-- ===== src/Dialer/Manager/Histories.antt =====
-- The invariant of src/dialer/queueManager.js after any calls at all.
use js_libp2p_swarm.Prelude.{
  ℕ, ◌≡◌, refl, Bool, true, List, [], ◌∷◌, arith, length, get_elem?, Bool-cases, Option-cases, inl,
  inr, sym, ◌∙◌, subst,
}
use js_libp2p_swarm.Dialer.Context.{Context, Limits}
use js_libp2p_swarm.Dialer.Queue.{Queue, Dial, Outcome}
use js_libp2p_swarm.Dialer.Queue
use js_libp2p_swarm.Dialer.Queue.Running.{
  run-Keeps, abort-Keeps, on_error-Keeps, on_established-id, on_established-running,
}
use js_libp2p_swarm.Dialer.Manager.{
  Manager, Completion, Pending, state, call, unlist, write, init, start,
}
use js_libp2p_swarm.Dialer.Manager.Sweep.{
  stop, clean, abort_and_delete, for_each, listed_refs, clean_one, is_stale,
}
use js_libp2p_swarm.Dialer.Manager.Listeners.{
  Event, errored, closed, muxed, unmuxed, emit, fire, established, call_next,
}
use js_libp2p_swarm.Dialer.Manager.History.{
  Call, adds, clears, starts, stops, cleans, emits, step, run_all,
}
use js_libp2p_swarm.Dialer.Manager.Slots.{runs-unlist}
use js_libp2p_swarm.Dialer.Manager.Idle.{call-abort-IsIdle}
use js_libp2p_swarm.Dialer.Manager.Invariant.{IsValid, call-IsValid}
use js_libp2p_swarm.Dialer.Manager.Methods.{
  write-IsValid, heap-IsValid, clear_denylist-IsValid, add-IsValid, init-IsValid, >>=-IsValid,
}

-- Fields that the invariant does not read.
pub same-IsValid :
    (l : Limits) (m : Manager) (running scheduled : Bool) (pending : List Pending)
    (log : List Queue.Effect)
    → IsValid l m
    → IsValid l (record m {
      is_running = running;
      clean_scheduled = scheduled;
      pending = pending;
      log = log;
    })
same-IsValid l m running scheduled pending log v = record {
  distinct_queue = v.distinct_queue;
  distinct_cold = v.distinct_cold;
  distinct_dialing = v.distinct_dialing;
  disjoint = v.disjoint;
  cold_bounded = v.cold_bounded;
  dialing_bounded = v.dialing_bounded;
  slots = v.slots;
}

-- A queue is dropped only once it is at rest, so no slot is left to it.
abort_and_delete-IsValid :
    (c : Context) (ref : ℕ) (m : Manager)
    → IsValid c.limits m
    → IsValid c.limits (state (abort_and_delete c ref m))
unfolding abort_and_delete
abort_and_delete-IsValid c ref m v =
    >>=-IsValid c.limits (call c ref Queue.abort m) _
      (call-IsValid c ref Queue.abort m abort-Keeps v)
      (λ m' e w.
        let idle = call-abort-IsIdle c ref m in
        heap-IsValid c.limits m' (unlist ref m'.heap)
          (λ id h. runs-unlist id ref m'.heap (λ cell g. (idle cell (rw e g)).1) ∙ h) w)

for_each-IsValid :
    (l : Limits) (f : ℕ → Manager → Completion) (refs : List ℕ) (m : Manager)
    → ((ref : ℕ) (m' : Manager) → IsValid l m' → IsValid l (state (f ref m')))
    → IsValid l m
    → IsValid l (state (for_each f refs m))
unfolding for_each
for_each-IsValid l f [] m keep v = v
for_each-IsValid l f (ref ∷ refs) m keep v =
    >>=-IsValid l (f ref m) (for_each f refs) (keep ref m v)
      (λ m' _ w. for_each-IsValid l f refs m' keep w)

pub stop-IsValid :
    (c : Context) (m : Manager) → IsValid c.limits m → IsValid c.limits (state (stop c m))
unfolding stop
stop-IsValid c m v =
    for_each-IsValid c.limits (abort_and_delete c) (listed_refs 0 m.heap) _
      (abort_and_delete-IsValid c)
      (record {
        distinct_queue = refl;
        distinct_cold = refl;
        distinct_dialing = v.distinct_dialing;
        disjoint = λ id h. refl;
        cold_bounded = omega arith;
        dialing_bounded = v.dialing_bounded;
        slots = v.slots;
      })

clean_one-IsValid :
    (c : Context) (ref : ℕ) (m : Manager)
    → IsValid c.limits m
    → IsValid c.limits (state (clean_one c ref m))
unfolding clean_one
clean_one-IsValid c ref m v = elim (Option-cases (get_elem? m.heap ref)) [
  | inl e ↦ rw (e, clean_one) v
  | inr (cell, e) ↦ elim (Bool-cases (is_stale c cell.object)) [
    | inl y ↦ rw (e, y, clean_one) (abort_and_delete-IsValid c ref m v)
    | inr n ↦ rw (e, n, clean_one) v
  ]
]

clean-IsValid :
    (c : Context) (m : Manager) → IsValid c.limits m → IsValid c.limits (state (clean c m))
unfolding clean
clean-IsValid c m v =
    >>=-IsValid c.limits (for_each (clean_one c) (listed_refs 0 m.heap) m) _
      (for_each-IsValid c.limits (clean_one c) (listed_refs 0 m.heap) m (clean_one-IsValid c) v)
      (λ m' _ w. same-IsValid c.limits m' m'.is_running true m'.pending m'.log w)

call_next-IsValid :
    (c : Context) (k : ℕ) (p : Pending) (m : Manager)
    → IsValid c.limits m
    → IsValid c.limits (state (call_next c k p m))
unfolding call_next
call_next-IsValid c k p m v = elim (Bool-cases p.next) [
  | inl y ↦
      rw (y, call_next)
        (call-IsValid c p.ref _ _ (run-Keeps c (length m.pending))
          (same-IsValid c.limits m m.is_running m.clean_scheduled _ m.log v))
  | inr n ↦ rw (n, call_next) v
]

established-IsValid :
    (c : Context) (k : ℕ) (p : Pending) (m : Manager)
    → IsValid c.limits m
    → IsValid c.limits (state (established c k p m))
unfolding established
established-IsValid c k p m v = elim (Option-cases (get_elem? m.heap p.ref)) [
  | inl e ↦ rw (e, established) v
  | inr (cell, e) ↦
      let q = (Queue.on_established k p.dial cell.object).0 in
      let m' : Manager = record m { heap = write p.ref q m.heap } in
      rw (e, established)
        (call_next-IsValid c k p _ (
          same-IsValid c.limits m' m.is_running m.clean_scheduled m.pending _ (
            write-IsValid c.limits m p.ref cell q e (on_established-id k p.dial cell.object)
              (on_established-running k p.dial cell.object) v)))
]

-- A listener is taken off.
detach-IsValid :
    (c : Context) (pending : List Pending) (m : Manager)
    → IsValid c.limits m
    → IsValid c.limits (record m { pending = pending })
detach-IsValid c pending m = same-IsValid c.limits m m.is_running m.clean_scheduled pending m.log

fire-IsValid :
    (c : Context) (k : ℕ) (p : Pending) (e : Event) (m : Manager)
    → IsValid c.limits m
    → IsValid c.limits (state (fire c k p e m))
unfolding fire
fire-IsValid c k p (errored e) m v = elim (Bool-cases p.on_error) [
  | inl y ↦
      rw (y, fire) (call-IsValid c p.ref _ _ (on_error-Keeps c e p.dial) (detach-IsValid c _ m v))
  | inr n ↦ rw (n, fire) v
]
fire-IsValid c k p closed m v = elim (Bool-cases p.on_close) [
  | inl y ↦ rw (y, fire) (call_next-IsValid c k _ _ (detach-IsValid c _ m v))
  | inr n ↦ rw (n, fire) v
]
fire-IsValid c k p muxed m v = elim (Bool-cases p.on_muxed) [
  | inl y ↦ rw (y, fire) (established-IsValid c k _ _ (detach-IsValid c _ m v))
  | inr n ↦ rw (n, fire) v
]
fire-IsValid c k p unmuxed m v = elim (Bool-cases p.on_unmuxed) [
  | inl y ↦ rw (y, fire) (established-IsValid c k _ _ (detach-IsValid c _ m v))
  | inr n ↦ rw (n, fire) v
]

emit-IsValid :
    (c : Context) (k : ℕ) (e : Event) (m : Manager)
    → IsValid c.limits m
    → IsValid c.limits (state (emit c k e m))
unfolding emit
emit-IsValid c k e m v = elim (Option-cases (get_elem? m.pending k)) [
  | inl g ↦ rw (g, emit) v
  | inr (p, g) ↦ rw (g, emit) (fire-IsValid c k p e m v)
]

-- Every call, every timer and every event of a connection keeps the invariant, also where the
-- peer book throws.
pub step-IsValid :
    (c : Context) (a : Call) (m : Manager)
    → IsValid c.limits m
    → IsValid c.limits (state (step c a m))
unfolding step
step-IsValid c (adds r) m v = add-IsValid c r m v
step-IsValid c (clears id) m v = clear_denylist-IsValid c.limits id m v
step-IsValid c starts m v =
    unfold start in same-IsValid c.limits m true m.clean_scheduled m.pending m.log v
step-IsValid c stops m v = stop-IsValid c m v
step-IsValid c cleans m v = clean-IsValid c m v
step-IsValid c (emits k e) m v = emit-IsValid c k e m v

-- The readings of a history are those of one dialer, whose limits do not change.
abbrev pub SameLimits : Limits → List (Context × Call) → Type 0
SameLimits l [] = Unit {0}
SameLimits l ((c, a) ∷ rest) = (c.limits ≡ l) × SameLimits l rest

run_all_from :
    (l : Limits) (history : List (Context × Call)) (m : Manager)
    → SameLimits l history
    → IsValid l m
    → IsValid l (run_all history m)
unfolding run_all
run_all_from l [] m h v = v
run_all_from l ((c, a) ∷ rest) m h v = run_all_from l rest (state (step c a m)) h.1 (
    subst (λ x. IsValid x (state (step c a m))) h.0
      (step-IsValid c a m (subst (λ x. IsValid x m) (sym h.0) v)))

-- After any history of calls, timers and connection events at limits that do not change, the
-- invariant holds: the sets of peers have no repetitions, the two sets of peers to be dialed are
-- disjoint, no more cold calls are queued and no more slots are taken than the limits allow, and
-- every slot belongs to a listed queue that runs.
pub run_all-IsValid :
    (l : Limits) (history : List (Context × Call))
    → SameLimits l history
    → IsValid l (run_all history init)
run_all-IsValid l history h = run_all_from l history init h (init-IsValid l)
