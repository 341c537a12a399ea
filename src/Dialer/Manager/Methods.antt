-- ===== src/Dialer/Manager/Methods.antt =====
-- Every method of src/dialer/queueManager.js, and every listener of src/dialer/queue.js, keeps the
-- manager's invariant.
use js_libp2p_swarm.Prelude.{
  ℕ, ◌<◌, ◌≡◌, refl, true, false, some, List, arith, length, get_elem?, has, has-insert, has-delete,
  distinct-insert, distinct-delete, length-insert-le, length-delete-le, Bool-cases, Option-cases,
  inl, inr, leb, ◌∙◌, subst,
}
use js_libp2p_swarm.Constants.{priority_high}
use js_libp2p_swarm.Dialer.Context.{Context, Limits}
use js_libp2p_swarm.Dialer.Queue.{Queue, Dial, Outcome, is_dial_allowed, Deny}
use js_libp2p_swarm.Dialer.Queue
use js_libp2p_swarm.Dialer.Queue.Running.{add-Keeps, start-Keeps}
use js_libp2p_swarm.Dialer.Manager.{
  Cell, Manager, Completion, Request, returned, threw, state, ◌>>=◌, write, settle, record_outcome,
  find, call, get_queue, add, add_to, is_refused, enlist, check_dial, abort_request, clear_denylist,
  is_at_rest, init, enlist_and_run, after_add, dial_of,
}
use js_libp2p_swarm.Dialer.Manager.Invariant.{IsValid, run-IsValid, call-IsValid}
use js_libp2p_swarm.Dialer.Manager.Slots.{runs, runs-write_mono, runs-append}

-- A new heap that loses no running queue.
pub heap-IsValid :
    (l : Limits) (m : Manager) (heap : List Cell)
    → ((id : ℕ) → runs id m.heap ≡ true → runs id heap ≡ true)
    → IsValid l m
    → IsValid l (record m { heap = heap })
heap-IsValid l m heap mono v = record {
  distinct_queue = v.distinct_queue;
  distinct_cold = v.distinct_cold;
  distinct_dialing = v.distinct_dialing;
  disjoint = v.disjoint;
  cold_bounded = v.cold_bounded;
  dialing_bounded = v.dialing_bounded;
  slots = λ id h. mono id (v.slots id h);
}

-- An object is written that is as running as the one before.
pub write-IsValid :
    (l : Limits) (m : Manager) (ref : ℕ) (cell : Cell) (q : Queue)
    → get_elem? m.heap ref ≡ some cell
    → q.id ≡ cell.object.id
    → q.is_running ≡ cell.object.is_running
    → IsValid l m
    → IsValid l (record m { heap = write ref q m.heap })
write-IsValid l m ref cell q g i r =
    heap-IsValid l m (write ref q m.heap)
      (λ id. runs-write_mono id ref q cell m.heap g i (λ h. r ∙ h))

get_queue-IsValid : (l : Limits) (id : ℕ) (m : Manager) → IsValid l m → IsValid l (get_queue id m).1
unfolding get_queue
get_queue-IsValid l id m v = elim (Option-cases (find id 0 m.heap)) [
  | inr (ref, e) ↦ rw (e, get_queue) v
  | inl e ↦
      rw (e, get_queue)
        (heap-IsValid l m _ (λ j h. runs-append j m.heap _ (unfold Queue.init in refl) ∙ h) v)
]

pub clear_denylist-IsValid :
    (l : Limits) (id : ℕ) (m : Manager) → IsValid l m → IsValid l (clear_denylist id m)
unfolding clear_denylist
clear_denylist-IsValid l id m v =
    let m' = (get_queue id m).1 in
    let ref = (get_queue id m).0 in
    let w = get_queue-IsValid l id m v in
    elim (Option-cases (get_elem? m'.heap ref)) [
      | inl e ↦ rw (e, clear_denylist) w
      | inr (cell, e) ↦ rw (e, clear_denylist) (write-IsValid l m' ref cell _ e refl refl w)
    ]

check_dial-IsValid :
    (c : Context) (l : Limits) (ref : ℕ) (m : Manager)
    → IsValid l m
    → IsValid l (check_dial c ref m).0
unfolding check_dial
check_dial-IsValid c l ref m v = elim (Option-cases (get_elem? m.heap ref)) [
  | inl e ↦ rw (e, check_dial) v
  | inr (cell, e) ↦ rw (e, check_dial) (write-IsValid l m ref cell _ e refl refl v)
]

-- A cold call finds room, and its peer is not in the other set.
abbrev HasRoom : Context → Request → Manager → Type 0
HasRoom c r m =
    leb r.priority priority_high ≡ false
    → (length m.cold_call_queue < c.max_cold_calls) × (has r.peer m.queue ≡ false)

HasRoom-is_refused :
    (c : Context) (r : Request) (m : Manager) → is_refused c r m ≡ false → HasRoom c r m
unfolding is_refused
HasRoom-is_refused c r m h p = ground arith

enlist-IsValid :
    (c : Context) (r : Request) (m : Manager)
    → HasRoom c r m
    → IsValid c.limits m
    → IsValid c.limits (enlist r m)
unfolding enlist
enlist-IsValid c r m room v = elim (Bool-cases (leb r.priority priority_high)) [
  | inl high ↦
      rw (high, enlist)
        (record {
          distinct_queue = distinct-insert r.peer m.queue v.distinct_queue;
          distinct_cold = distinct-delete r.peer m.cold_call_queue v.distinct_cold;
          distinct_dialing = v.distinct_dialing;
          disjoint = λ id h. ground (
            arith,
            has-insert id r.peer m.queue,
            has-delete id r.peer m.cold_call_queue v.distinct_cold,
            v.disjoint id,
          );
          cold_bounded = omega (arith, length-delete-le r.peer m.cold_call_queue, v.cold_bounded);
          dialing_bounded = v.dialing_bounded;
          slots = v.slots;
        })
  | inr low ↦
      rw (low, enlist)
        (record {
          distinct_queue = v.distinct_queue;
          distinct_cold = distinct-insert r.peer m.cold_call_queue v.distinct_cold;
          distinct_dialing = v.distinct_dialing;
          disjoint = λ id h.
              ground (arith, has-insert id r.peer m.cold_call_queue, (room low).1, v.disjoint id h);
          cold_bounded = omega (arith, length-insert-le r.peer m.cold_call_queue, room low);
          dialing_bounded = v.dialing_bounded;
          slots = v.slots;
        })
]

-- `targetQueue.add` neither stops the queue nor touches the sets.
call-add-HasRoom :
    (c : Context) (r : Request) (d : Dial) (ref : ℕ) (m : Manager)
    → HasRoom c r m
    → HasRoom c r (state (call c ref (Queue.add c d) m))
unfolding call settle record_outcome Queue.add
call-add-HasRoom c r d ref m room p = ground (arith, room p)

check_dial-HasRoom :
    (c : Context) (r : Request) (ref : ℕ) (m : Manager)
    → HasRoom c r m
    → HasRoom c r (check_dial c ref m).0
unfolding check_dial
check_dial-HasRoom c r ref m room p = ground (arith, room p)

-- Sequencing keeps what both parts keep.
pub >>=-IsValid :
    (l : Limits) (x : Completion) (f : Manager → Completion)
    → IsValid l (state x)
    → ((m : Manager) → x ≡ returned m → IsValid l m → IsValid l (state (f m)))
    → IsValid l (state (x >>= f))
>>=-IsValid l (returned m) f v h = h m refl v
>>=-IsValid l (threw m) f v h = v

enlist_and_run-IsValid :
    (c : Context) (r : Request) (ref : ℕ) (m : Manager)
    → HasRoom c r m
    → IsValid c.limits m
    → IsValid c.limits (state (enlist_and_run c r ref m))
unfolding enlist_and_run
enlist_and_run-IsValid c r ref m room v =
    let m' = (check_dial c ref m).0 in
    let w = check_dial-IsValid c c.limits ref m v in
    elim (Bool-cases (check_dial c ref m).1) [
      | inr n ↦ rw (n, enlist_and_run) w
      | inl y ↦ elim (Bool-cases (is_at_rest ref m')) [
        | inr n ↦ rw (y, n, enlist_and_run) (run-IsValid c m' w)
        | inl rest ↦
            rw (y, rest, enlist_and_run)
              (run-IsValid c (enlist r m')
                (enlist-IsValid c r m' (check_dial-HasRoom c r ref m room) w))
      ]
    ]

after_add-IsValid :
    (c : Context) (r : Request) (ref : ℕ) (m : Manager)
    → HasRoom c r m
    → IsValid c.limits m
    → IsValid c.limits (state (after_add c r ref m))
unfolding after_add
after_add-IsValid c r ref m room v = elim (Bool-cases (c.is_connected r.peer)) [
  | inl y ↦ rw (y, after_add) (call-IsValid c ref _ m (start-Keeps c (length m.pending)) v)
  | inr n ↦ rw (n, after_add) (enlist_and_run-IsValid c r ref m room v)
]

add_to-IsValid :
    (c : Context) (r : Request) (ref : ℕ) (m : Manager)
    → HasRoom c r m
    → IsValid c.limits m
    → IsValid c.limits (state (add_to c r ref m))
unfolding add_to
add_to-IsValid c r ref m room v =
    let first = call c ref (Queue.add c (dial_of r)) m in
    >>=-IsValid c.limits first (after_add c r ref)
      (call-IsValid c ref (Queue.add c (dial_of r)) m (add-Keeps c (dial_of r)) v)
      (λ m' e.
        after_add-IsValid c r ref m'
          (subst (λ x. HasRoom c r (state x)) e (call-add-HasRoom c r (dial_of r) ref m room)))

pub add-IsValid :
    (c : Context) (r : Request) (m : Manager)
    → IsValid c.limits m
    → IsValid c.limits (state (add c r m))
unfolding add abort_request
add-IsValid c r m v =
    let m' = (get_queue r.peer m).1 in
    let w = get_queue-IsValid c.limits r.peer m v in
    elim (Bool-cases (is_refused c r m')) [
      | inl y ↦
          rw (y, add)
            (record {
              distinct_queue = w.distinct_queue;
              distinct_cold = w.distinct_cold;
              distinct_dialing = w.distinct_dialing;
              disjoint = w.disjoint;
              cold_bounded = w.cold_bounded;
              dialing_bounded = w.dialing_bounded;
              slots = w.slots;
            })
      | inr n ↦
          rw (n, add) (add_to-IsValid c r (get_queue r.peer m).0 m' (HasRoom-is_refused c r m' n) w)
    ]

pub init-IsValid : (l : Limits) → IsValid l init
unfolding init
init-IsValid l = record {
  distinct_queue = refl;
  distinct_cold = refl;
  distinct_dialing = refl;
  disjoint = λ id h. refl;
  cold_bounded = omega arith;
  dialing_bounded = omega arith;
  slots = λ id h. absurd (ground arith);
}
