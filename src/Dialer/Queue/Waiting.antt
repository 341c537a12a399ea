-- ===== src/Dialer/Queue/Waiting.antt =====
-- What the methods of src/dialer/queue.js leave running: a queue with a dial that waits for its
-- new connection.
use js_libp2p_swarm.Prelude.{
  ℕ, ◌≡◌, refl, true, some, List, [], ◌∷◌, ◌⊎◌, inl, inr, arith, Bool-cases, Option-cases,
}
use js_libp2p_swarm.Errors.{SwitchError}
use js_libp2p_swarm.Dialer.Context.{Context}
use js_libp2p_swarm.Dialer.Queue.{
  Queue, Dial, Outcome, add, stop, abort, denylist, run, run_dials, dial_new, start, on_error,
}

abbrev pub HasNew : Outcome → Type 0
HasNew o = (d : Dial) × (o.waits ≡ some d)

-- A queue that runs afterwards has a new dial that waits, or it ran before.
abbrev pub Carries : Queue → Outcome → Type 0
Carries q o = o.queue.is_running ≡ true → HasNew o ⊎ (q.is_running ≡ true)

pub add-Carries : (c : Context) (d : Dial) (q : Queue) → Carries q (add c d q)
unfolding add
add-Carries c d q h = ground arith

pub abort-Carries : (q : Queue) → Carries q (abort q)
unfolding abort stop
abort-Carries q h = ground arith

denylist-Carries : (c : Context) (q : Queue) → Carries q (denylist c q)
unfolding denylist abort stop
denylist-Carries c q h = ground arith

pub on_error-Carries :
    (c : Context) (e : SwitchError) (d : Dial) (q : Queue) → Carries q (on_error c e d q)
unfolding on_error
on_error-Carries c e d q h = ground (arith, denylist-Carries c q)

-- A queue that is run stops, or dials, unless the peer book throws.
run_dials-HasNew :
    (c : Context) (fresh : ℕ) (q : Queue) (ds : List Dial)
    → c.in_peer_book q.id ≡ true
    → (run_dials c fresh q ds).queue.is_running ≡ true
    → HasNew (run_dials c fresh q ds)
unfolding run_dials stop dial_new
run_dials-HasNew c fresh q [] b h = absurd (ground arith)
run_dials-HasNew c fresh q (d ∷ ds) b h = elim (Bool-cases q.is_running) [
  | inr rests ↦ absurd (ground arith)
  | inl runs ↦ elim (Option-cases (c.get_one q.id)) [
    | inl new ↦ (d, rw (runs, b, new, run_dials) refl)
    | inr (k, muxed) ↦ ground (arith, run_dials-HasNew c fresh q ds b)
  ]
]

pub run-HasNew :
    (c : Context) (fresh : ℕ) (q : Queue)
    → c.in_peer_book q.id ≡ true
    → (run c fresh q).queue.is_running ≡ true
    → HasNew (run c fresh q)
unfolding run
run-HasNew c fresh q b h = run_dials-HasNew c fresh q q.queue b h

pub start-Carries :
    (c : Context) (fresh : ℕ) (q : Queue)
    → c.in_peer_book q.id ≡ true
    → Carries q (start c fresh q).0
unfolding start run
start-Carries c fresh q b h = elim (Bool-cases q.is_running) [
  | inl r ↦ inr r
  | inr r ↦
      inl (ground (arith, run_dials-HasNew c fresh (record q { is_running = true }) q.queue b))
]
