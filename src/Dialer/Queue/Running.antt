-- ===== src/Dialer/Queue/Running.antt =====
-- Whether a method of src/dialer/queue.js leaves the queue running or reports its stop.
use js_libp2p_swarm.Prelude.{ℕ, ◌≡◌, refl, true, false, List, [], ◌∷◌, arith}
use js_libp2p_swarm.Errors.{SwitchError}
use js_libp2p_swarm.Dialer.Context.{Context}
use js_libp2p_swarm.Dialer.Queue.{
  Queue, Dial, Outcome, add, stop, abort, denylist, run, run_dials, dial_new, start, on_error,
  on_established,
}

-- A queue that was running still runs, unless its stop was reported.
pub record Keeps (q : Queue) (o : Outcome) : Type 0 where
  pub same_id : o.queue.id ≡ q.id
  pub still_running : o.stopped ≡ false → q.is_running ≡ true → o.queue.is_running ≡ true
  -- an exception comes before any stop
  pub threw_running : o.threw ≡ true → o.stopped ≡ false

pub add-Keeps : (c : Context) (d : Dial) (q : Queue) → Keeps q (add c d q)
unfolding add
add-Keeps c d q = ground arith

pub abort-Keeps : (q : Queue) → Keeps q (abort q)
unfolding abort stop
abort-Keeps q = ground arith

pub abort_stops : (q : Queue) → (abort q).queue.is_running ≡ false
unfolding abort stop
abort_stops q = ground arith

pub queue-abort : (q : Queue) → (abort q).queue.queue ≡ []
unfolding abort stop
queue-abort q = ground arith

denylist-Keeps : (c : Context) (q : Queue) → Keeps q (denylist c q)
unfolding denylist abort stop
denylist-Keeps c q = ground arith

pub on_error-Keeps :
    (c : Context) (e : SwitchError) (d : Dial) (q : Queue) → Keeps q (on_error c e d q)
unfolding on_error
on_error-Keeps c e d q = ground (arith, denylist-Keeps c q)

run_dials-Keeps :
    (c : Context) (fresh : ℕ) (q : Queue) (ds : List Dial) → Keeps q (run_dials c fresh q ds)
unfolding run_dials stop dial_new
run_dials-Keeps c fresh q [] = ground arith
run_dials-Keeps c fresh q (d ∷ ds) = ground (arith, run_dials-Keeps c fresh q ds)

pub run-Keeps : (c : Context) (fresh : ℕ) (q : Queue) → Keeps q (run c fresh q)
unfolding run
run-Keeps c fresh q = run_dials-Keeps c fresh q q.queue

pub start-Keeps : (c : Context) (fresh : ℕ) (q : Queue) → Keeps q (start c fresh q).0
unfolding start run
start-Keeps c fresh q =
    ground (arith, run_dials-Keeps c fresh (record q { is_running = true }) q.queue)

-- A queue that was started runs, unless it has reported its stop.
pub start_runs :
    (c : Context) (fresh : ℕ) (q : Queue)
    → (start c fresh q).0.stopped ≡ false
    → (start c fresh q).0.queue.is_running ≡ true
unfolding start run
start_runs c fresh q h =
    ground (arith, run_dials-Keeps c fresh (record q { is_running = true }) q.queue)

-- An empty queue at rest stops as soon as it is started.
pub start_empty :
    (c : Context) (fresh : ℕ) (q : Queue)
    → q.queue ≡ []
    → q.is_running ≡ false
    → ((start c fresh q).0.queue.queue ≡ []) × ((start c fresh q).0.queue.is_running ≡ false)
unfolding start run
start_empty c fresh q e r = rw (e, r) (empty (record q { is_running = true }))
  where
    empty :
        (p : Queue)
        → ((run_dials c fresh p []).queue.queue ≡ [])
          × ((run_dials c fresh p []).queue.is_running ≡ false)
    empty p = unfold run_dials stop in ground arith

pub on_established-id : (k : ℕ) (d : Dial) (q : Queue) → (on_established k d q).0.id ≡ q.id
unfolding on_established
on_established-id k d q = refl

pub on_established-running :
    (k : ℕ) (d : Dial) (q : Queue) → (on_established k d q).0.is_running ≡ q.is_running
unfolding on_established
on_established-running k d q = refl
