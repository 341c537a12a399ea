-- ===== src/Dialer/Manager/Idle.antt =====
-- A queue object that is empty and at rest stays so while src/dialer/queueManager.js runs the
-- other queues: `run` may start it, and it stops at once.
use js_libp2p_swarm.Prelude.{
  ℕ, ◌≡◌, ◌≢◌, false, some, List, [], ◌∷◌, arith, length, get_elem?, insert, Bool-cases,
  Option-cases, inl, inr, ◌==◌, ==→≡, subst, sym, ◌∙◌,
}
use js_libp2p_swarm.Dialer.Context.{Context}
use js_libp2p_swarm.Dialer.Queue.{Queue, Outcome}
use js_libp2p_swarm.Dialer.Queue
use js_libp2p_swarm.Dialer.Queue.Running.{start_empty, abort_stops, queue-abort}
use js_libp2p_swarm.Dialer.Manager.{
  Cell, Manager, Completion, state, write, settle, record_outcome, start_next, run_sets, run, find,
  call, may_run,
}
use js_libp2p_swarm.Dialer.Manager.Slots.{get_elem?-write_self, get_elem?-write_ne}

abbrev pub IsIdle : ℕ → List Cell → Type 0
IsIdle ref cells =
    (c : Cell)
    → get_elem? cells ref ≡ some c
    → (c.object.queue ≡ []) × (c.object.is_running ≡ false)

write-IsIdle_self :
    (ref : ℕ) (q : Queue) (cell : Cell) (cells : List Cell)
    → get_elem? cells ref ≡ some cell
    → q.queue ≡ []
    → q.is_running ≡ false
    → IsIdle ref (write ref q cells)
write-IsIdle_self ref q cell cells g e r c h =
    ground (arith, get_elem?-write_self ref q cell cells g)

write-IsIdle_ne :
    (ref k : ℕ) (q : Queue) (cells : List Cell)
    → k ≢ ref
    → IsIdle ref cells
    → IsIdle ref (write k q cells)
write-IsIdle_ne ref k q cells n i c h = i c (sym (get_elem?-write_ne k ref q cells n) ∙ h)

settle-IsIdle :
    (again : Manager → Completion) (ref k : ℕ) (o : Outcome) (m : Manager)
    → ((m' : Manager) → IsIdle ref m'.heap → IsIdle ref (state (again m')).heap)
    → IsIdle ref (write k o.queue m.heap)
    → IsIdle ref (state (settle again k o m)).heap
unfolding settle record_outcome
settle-IsIdle again ref k o m keep i = elim (Bool-cases o.threw) [
  | inl t ↦ rw (t, settle) i
  | inr t ↦ elim (Bool-cases o.stopped) [
    | inl s ↦ rw (t, s, settle) (keep _ i)
    | inr s ↦ rw (t, s, settle) i
  ]
]

start_next-IsIdle :
    (c : Context) (again : Manager → Completion) (ref id : ℕ) (m : Manager)
    → ((m' : Manager) → IsIdle ref m'.heap → IsIdle ref (state (again m')).heap)
    → IsIdle ref m.heap
    → IsIdle ref (state (start_next c again id m)).heap
unfolding start_next
start_next-IsIdle c again ref id m keep i = elim (Option-cases (find id 0 m.heap)) [
  | inl e ↦ rw (e, start_next) i
  | inr (k, e) ↦ elim (Option-cases (get_elem? m.heap k)) [
    | inl g ↦ rw (e, g, start_next) i
    | inr (cell, g) ↦
        let o : Outcome = (Queue.start c (length m.pending) cell.object).0 in
        let m' : Manager = record m { dialing_queues = insert id m.dialing_queues } in
        let written : IsIdle ref (write k o.queue m.heap) = elim (Bool-cases (k == ref)) [
          | inl here ↦
              let p = ==→≡ k ref here in
              let j = i cell (subst (λ x. get_elem? m.heap x ≡ some cell) p g) in
              let s = start_empty c (length m.pending) cell.object j.0 j.1 in
              subst (λ x. IsIdle x (write k o.queue m.heap)) p
                (write-IsIdle_self k o.queue cell m.heap g s.0 s.1)
          | inr there ↦ write-IsIdle_ne ref k o.queue m.heap (ground arith) i
        ] in
        rw (e, g, start_next) (settle-IsIdle again ref k o m' keep written)
  ]
]

run_sets-IsIdle :
    (c : Context) (ref : ℕ) (queue cold : List ℕ) (m : Manager)
    → IsIdle ref m.heap
    → IsIdle ref (state (run_sets c queue cold m)).heap
unfolding run_sets
run_sets-IsIdle c ref (id ∷ rest) cold m i = elim (Bool-cases (may_run c m)) [
  | inl ok ↦
      rw (ok, run_sets)
        (start_next-IsIdle c (run_sets c rest cold) ref id _ (run_sets-IsIdle c ref rest cold) i)
  | inr full ↦ rw (full, run_sets) i
]
run_sets-IsIdle c ref [] (id ∷ rest) m i = elim (Bool-cases (may_run c m)) [
  | inl ok ↦
      rw (ok, run_sets)
        (start_next-IsIdle c (run_sets c [] rest) ref id _ (run_sets-IsIdle c ref [] rest) i)
  | inr full ↦ rw (full, run_sets) i
]
run_sets-IsIdle c ref [] [] m i = i

-- After an abort and all that follows from it, the queue is empty and at rest.
pub call-abort-IsIdle :
    (c : Context) (ref : ℕ) (m : Manager) → IsIdle ref (state (call c ref Queue.abort m)).heap
unfolding call run
call-abort-IsIdle c ref m = elim (Option-cases (get_elem? m.heap ref)) [
  | inl e ↦ rw (e, call) (λ x h. absurd (ground arith))
  | inr (cell, e) ↦
      rw (e, call)
        (settle-IsIdle (run c) ref ref (Queue.abort cell.object) m
          (λ m'. run_sets-IsIdle c ref m'.queue m'.cold_call_queue m')
          (write-IsIdle_self ref _ cell m.heap e (queue-abort cell.object)
            (abort_stops cell.object)))
]
