-- ===== src/Dialer/Manager/Shutdown.antt =====
-- What `stop` of src/dialer/queueManager.js leaves behind.
use mathlib.Core.List.{append-nil, append_assoc}
use js_libp2p_swarm.Prelude.{
  ℕ, suc, ◌≡◌, refl, Bool, true, false, List, [], ◌∷◌, ◌++◌, map, arith, length, has, delete,
  Bool-cases, inl, inr, if◌then◌else◌, ◌&&◌, ap, sym, ◌∙◌, subst, nil_of_has, length-append,
}
use js_libp2p_swarm.Dialer.Context.{Context}
use js_libp2p_swarm.Dialer.Queue.{Queue, Dial, Effect}
use js_libp2p_swarm.Dialer.Queue
use js_libp2p_swarm.Dialer.Manager.{
  Cell, Manager, Pending, returned, state, call, settle, record_outcome, run, run_sets, write,
  unlist,
}
use js_libp2p_swarm.Dialer.Manager.Sweep.{stop, abort_and_delete, for_each, listed_refs}
use js_libp2p_swarm.Dialer.Manager.Slots.{runs, get_at}
use js_libp2p_swarm.Dialer.Manager.Invariant.{IsValid}
use js_libp2p_swarm.Dialer.Manager.Histories.{stop-IsValid}

-- A queue that was listed is empty, at rest, and not listed any more.
abbrev pub closed_cell : Cell → Cell
closed_cell c =
    if c.listed
    then record { object = record c.object { queue = []; is_running = false }; listed = false }
    else c

-- The requests of the listed queues are failed, queue by queue.
abbrev pub aborted : List Cell → List Effect
aborted [] = []
aborted (c ∷ cs) = (if c.listed then Queue.drain c.object.queue else []) ++ aborted cs

-- The slots that the listed queues give back.
freed : List Cell → List ℕ → List ℕ
freed [] ids = ids
freed (c ∷ cs) ids =
    freed cs (if c.listed && c.object.is_running then delete c.object.id ids else ids)

unlist_at :
    (pre : List Cell) (c : Cell) (rest : List Cell) (q : Queue)
    → unlist (length pre) (write (length pre) q (pre ++ c ∷ rest))
      ≡ pre ++ record { object = q; listed = false } ∷ rest
unlist_at [] c rest q = refl
unlist_at (d ∷ pre) c rest q = ap (◌∷◌ d) (unlist_at pre c rest q)

-- The manager while `stop` goes through the queues.
abbrev pub stopping : List Cell → List ℕ → List Pending → List Effect → Manager
stopping heap dialing pending log = record {
  queue = [];
  cold_call_queue = [];
  dialing_queues = dialing;
  heap = heap;
  is_running = false;
  clean_scheduled = false;
  pending = pending;
  log = log;
}

-- One round of the loop, for a listed queue.
round :
    (c : Context) (pre : List Cell) (q : Queue) (rest : List Cell) (dialing : List ℕ)
    (pending : List Pending) (log : List Effect)
    → abort_and_delete c
        (length pre)
        (stopping (pre ++ record { object = q; listed = true } ∷ rest) dialing pending log)
      ≡ returned (
          stopping
            (pre
              ++ record { object = record q { queue = []; is_running = false }; listed = false }
                ∷ rest)
            (if q.is_running then delete q.id dialing else dialing)
            pending
            (log ++ Queue.drain q.queue))
unfolding abort_and_delete call settle record_outcome run run_sets Queue.abort Queue.stop
round c pre q rest dialing pending log = ground (
  arith,
  get_at pre (record { object = q; listed = true }) rest,
  unlist_at pre (record { object = q; listed = true }) rest
      (record q { queue = []; is_running = false }),
  append-nil pending,
)

step_past : {A : Type 0} (xs : List A) (x : A) (ys : List A) → xs ++ x ∷ ys ≡ (xs ++ x ∷ []) ++ ys
step_past xs x ys = sym (append_assoc xs (x ∷ []) ys)

length-snoc : {A : Type 0} (xs : List A) (x : A) → length (xs ++ x ∷ []) ≡ suc (length xs)
length-snoc xs x = omega (arith, length-append xs (x ∷ []))

-- What the loop does from the places behind `pre`.
abbrev Loops : Context → List Pending → List Cell → Type 0
Loops c pending cells =
    (pre : List Cell) (dialing : List ℕ) (log : List Effect)
    → for_each (abort_and_delete c) (listed_refs (length pre) cells)
        (stopping (pre ++ cells) dialing pending log)
      ≡ returned (
          stopping (pre ++ map closed_cell cells) (freed cells dialing) pending
            (log ++ aborted cells))

loop_cons :
    (c : Context) (pending : List Pending) (q : Queue) (listed : Bool) (rest : List Cell)
    → Loops c pending rest
    → Loops c pending (record { object = q; listed = listed } ∷ rest)
unfolding for_each listed_refs freed
loop_cons c pending q true rest ih pre dialing log =
    let x : Cell = record {
      object = record q { queue = []; is_running = false };
      listed = false;
    } in
    rw
      (
        round c pre q rest dialing pending log,
        ← length-snoc pre x,
        step_past pre x rest,
        step_past pre x (map closed_cell rest),
        ← append_assoc log (Queue.drain q.queue) (aborted rest),
      )
      (ih (pre ++ x ∷ []) _ (log ++ Queue.drain q.queue))
loop_cons c pending q false rest ih pre dialing log =
    let x : Cell = record { object = q; listed = false } in
    rw (← length-snoc pre x, step_past pre x rest, step_past pre x (map closed_cell rest))
      (ih (pre ++ x ∷ []) dialing log)

loop : (c : Context) (pending : List Pending) (cells : List Cell) → Loops c pending cells
unfolding for_each listed_refs freed
loop c pending [] pre dialing log = ground (arith, append-nil log)
loop c pending (x ∷ rest) pre dialing log =
    loop_cons c pending x.object x.listed rest (loop c pending rest) pre dialing log

runs-closed : (id : ℕ) (cells : List Cell) → runs id (map closed_cell cells) ≡ false
runs-closed id [] = refl
runs-closed id (c ∷ cells) = ground (arith, runs-closed id cells)

pub stop_lem :
    (c : Context) (m : Manager)
    → IsValid c.limits m
    → stop c m ≡ returned (stopping (map closed_cell m.heap) [] m.pending (m.log ++ aborted m.heap))
stop_lem c m v =
    result
    ∙ ap (λ d. returned (stopping (map closed_cell m.heap) d m.pending (m.log ++ aborted m.heap)))
        empty
  where
    left : List ℕ
    left = freed m.heap m.dialing_queues

    result :
        stop c m
        ≡ returned (stopping (map closed_cell m.heap) left m.pending (m.log ++ aborted m.heap))
    result = unfold stop in loop c m.pending m.heap [] m.dialing_queues m.log

    valid : IsValid c.limits (state (stop c m))
    valid = stop-IsValid c m v

    empty : left ≡ []
    empty = nil_of_has left (λ id. elim (Bool-cases (has id left)) [
      | inr no_slot ↦ no_slot
      | inl slot ↦ absurd (
          ground (
            arith,
            runs-closed id m.heap,
            valid.slots id (subst (λ x. has id (state x).dialing_queues ≡ true) (sym result) slot),
            ap (λ x. runs id (state x).heap) result,
          ))
    ])
