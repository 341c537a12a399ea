-- ===== src/Dialer/Queue/Told.antt =====
-- src/dialer/queue.js: a method that leaves a dial waiting has told its connection to dial.
use js_libp2p_swarm.Prelude.{
  ℕ, ◌≡◌, refl, Bool, true, false, ◌||◌, ◌==◌, List, [], ◌∷◌, ◌++◌, some, arith, Bool-cases,
  Option-cases, inl, inr,
}
use js_libp2p_swarm.Errors.{SwitchError}
use js_libp2p_swarm.Dialer.Context.{Context}
use js_libp2p_swarm.Dialer.Queue.{
  Queue, Dial, Outcome, Effect, created, dialed, failed, deferred, called_empty, connected,
  gave_fsm, shook, add, stop, abort, denylist, run, run_dials, dial_new, dial_muxed, start,
  on_error,
}

-- Whether `dial()` of the connection was called.
abbrev pub was_dialed : ℕ → List Effect → Bool
was_dialed k [] = false
was_dialed k (dialed j peer ∷ es) = (j == k) || was_dialed k es
was_dialed k (created j peer ∷ es) = was_dialed k es
was_dialed k (failed cb e ∷ es) = was_dialed k es
was_dialed k (deferred cb e ∷ es) = was_dialed k es
was_dialed k (called_empty cb ∷ es) = was_dialed k es
was_dialed k (connected cb s ∷ es) = was_dialed k es
was_dialed k (gave_fsm cb j ∷ es) = was_dialed k es
was_dialed k (shook j d ∷ es) = was_dialed k es

pub was_dialed-append :
    (k : ℕ) (es fs : List Effect) → was_dialed k (es ++ fs) ≡ (was_dialed k es || was_dialed k fs)
was_dialed-append k [] fs = refl
was_dialed-append k (dialed j peer ∷ es) fs = ground (arith, was_dialed-append k es fs)
was_dialed-append k (created j peer ∷ es) fs = was_dialed-append k es fs
was_dialed-append k (failed cb e ∷ es) fs = was_dialed-append k es fs
was_dialed-append k (deferred cb e ∷ es) fs = was_dialed-append k es fs
was_dialed-append k (called_empty cb ∷ es) fs = was_dialed-append k es fs
was_dialed-append k (connected cb s ∷ es) fs = was_dialed-append k es fs
was_dialed-append k (gave_fsm cb j ∷ es) fs = was_dialed-append k es fs
was_dialed-append k (shook j d ∷ es) fs = was_dialed-append k es fs

-- Where a dial waits for the connection `fresh`, that was told to dial.
abbrev pub Tells : ℕ → Outcome → Type 0
Tells fresh o = (d : Dial) → o.waits ≡ some d → was_dialed fresh o.effects ≡ true

pub add-Tells : (fresh : ℕ) (c : Context) (d : Dial) (q : Queue) → Tells fresh (add c d q)
unfolding add
add-Tells fresh c d q e h = absurd (ground arith)

pub abort-Tells : (fresh : ℕ) (q : Queue) → Tells fresh (abort q)
unfolding abort stop
abort-Tells fresh q e h = absurd (ground arith)

denylist-Tells : (fresh : ℕ) (c : Context) (q : Queue) → Tells fresh (denylist c q)
unfolding denylist abort stop
denylist-Tells fresh c q e h = absurd (ground arith)

pub on_error-Tells :
    (fresh : ℕ) (c : Context) (e : SwitchError) (d : Dial) (q : Queue)
    → Tells fresh (on_error c e d q)
unfolding on_error denylist abort stop
on_error-Tells fresh c e d q x h = absurd (ground arith)

dial_new-Tells : (fresh : ℕ) (d : Dial) (q : Queue) → Tells fresh (dial_new fresh d q)
unfolding dial_new
dial_new-Tells fresh d q x h = elim (Bool-cases d.use_fsm) [
  | inl y ↦ rw (y, dial_new) (ground arith)
  | inr n ↦ rw (n, dial_new) (ground arith)
]

run_dials-Tells :
    (c : Context) (fresh : ℕ) (q : Queue) (ds : List Dial) → Tells fresh (run_dials c fresh q ds)
unfolding run_dials stop
run_dials-Tells c fresh q [] x h = absurd (ground arith)
run_dials-Tells c fresh q (d ∷ ds) x h = elim (Bool-cases q.is_running) [
  | inr rests ↦ absurd (ground arith)
  | inl runs ↦ elim (Bool-cases (c.in_peer_book q.id)) [
    | inr n ↦ absurd (ground arith)
    | inl b ↦ elim (Option-cases (c.get_one q.id)) [
      | inl new ↦ ground (arith, dial_new-Tells fresh d (record q { queue = ds }) x)
      | inr (k, muxed) ↦ ground (
        arith,
        run_dials-Tells c fresh q ds x,
        was_dialed-append fresh (dial_muxed k d) (run_dials c fresh q ds).effects,
      )
    ]
  ]
]

pub run-Tells : (c : Context) (fresh : ℕ) (q : Queue) → Tells fresh (run c fresh q)
unfolding run
run-Tells c fresh q = run_dials-Tells c fresh q q.queue

pub start-Tells : (c : Context) (fresh : ℕ) (q : Queue) → Tells fresh (start c fresh q).0
unfolding start
start-Tells c fresh q x h = elim (Bool-cases q.is_running) [
  | inl r ↦ absurd (ground arith)
  | inr r ↦ ground (arith, run-Tells c fresh (record q { is_running = true }) x)
]
