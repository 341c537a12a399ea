-- ===== src/Dialer/Manager/Waiting/Events.antt =====
-- src/dialer/queue.js:221-277: no event of a connection leaves a queue stuck.
use js_libp2p_swarm.Prelude.{
  ℕ, ◌≡◌, ◌∙◌, refl, true, false, inl, inr, List, [], ◌∷◌, ◌++◌, some, arith, length, get_elem?,
  Bool-cases, Option-cases, sym, subst, ◌<◌, ◌==◌, ap, ◌⊎◌,
}
use js_libp2p_swarm.Dialer.Context.{Context}
use js_libp2p_swarm.Dialer.Queue.{Queue, Outcome, Effect}
use js_libp2p_swarm.Dialer.Queue
use js_libp2p_swarm.Dialer.Queue.Waiting.{on_error-Carries, run-HasNew}
use js_libp2p_swarm.Dialer.Manager.{Cell, Pending, Manager, write, state, returned, call}
use js_libp2p_swarm.Dialer.Manager.Listeners.{
  Event, errored, closed, muxed, unmuxed, emit, fire, established, call_next, set_pending,
}
use js_libp2p_swarm.Dialer.Manager.Waiting.{
  IsAttached, AllWait, AllWaitBut, IsWaiting, KeepsWait, call-IsWaiting, call-KeepsWait,
}
use js_libp2p_swarm.Dialer.Manager.Waiting.Calls.{AllWait-write}
use js_libp2p_swarm.Dialer.Manager.Waiting.Places.{
  get_elem?-le, get_elem?-set_pending, get_elem?-set_pending_self, get_elem?-set_pending_ne,
  set_pending_twice, length-set_pending,
}

module _ (k : ℕ) (p p' : Pending) (heap : List Cell) (ps : List Pending)
    (g : get_elem? ps k ≡ some p) (ref : p'.ref ≡ p.ref) where
  -- What stood at a place still does, or was the dial at `k`.
  kept_or_written :
      (j : ℕ) (q : Pending)
      → get_elem? ps j ≡ some q
      → (p ≡ q) ⊎ (get_elem? (set_pending k p' ps) j ≡ some q)
  kept_or_written j q e = elim (Bool-cases (k == j)) [
    | inl here ↦ inl (ground arith)
    | inr there ↦ inr (get_elem?-set_pending_ne k p' ps j (ground arith) ∙ e)
  ]

  -- A dial that stands afterwards stood before, or was written; its queue is there.
  placed_after :
      AllWait heap ps
      → (j : ℕ) (r : Pending) → get_elem? (set_pending k p' ps) j ≡ some r
      → r.ref < length heap
  placed_after w j r h = elim (get_elem?-set_pending k p' ps j r h) [
    | inl same ↦ subst (λ r. r.ref < length heap) same (rw ref (w.placed k p g))
    | inr old ↦ w.placed j r old
  ]

  -- The dial at `k` is written, and its `next` is as it was.
  pub AllWait-set_pending :
      p'.next ≡ p.next
      → (p'.next ≡ true → IsAttached p')
      → AllWait heap ps
      → AllWait heap (set_pending k p' ps)
  AllWait-set_pending next at w = record {
    placed = placed_after w;
    attached = λ j r h n. elim (get_elem?-set_pending k p' ps j r h) [
      | inl same ↦ subst IsAttached same (at (rw same n))
      | inr old ↦ w.attached j r old n
    ];
    waited = λ r c h n.
        let (j, q, e, s, t) = w.waited r c h n in
        elim (kept_or_written j q e) [
          | inl same ↦ (
            k,
            p',
            get_elem?-set_pending_self k p' ps p g,
            ref ∙ ap (λ x. x.ref) same ∙ s,
            rw (next, same) t,
          )
          | inr old ↦ (j, q, old, s, t)
        ];
  }

  -- The `next` of the dial at `k` was called.
  AllWaitBut-set_pending :
      p'.next ≡ false → AllWait heap ps → AllWaitBut p.ref heap (set_pending k p' ps)
  AllWaitBut-set_pending next w = record {
    placed = placed_after w;
    attached = λ j r h n. elim (get_elem?-set_pending k p' ps j r h) [
      | inl same ↦ absurd (ground arith)
      | inr old ↦ w.attached j r old n
    ];
    waited = λ r c far h n.
        let (j, q, e, s, t) = w.waited r c h n in
        elim (kept_or_written j q e) [
          | inl same ↦ absurd (far (sym s ∙ sym (ap (λ x. x.ref) same)))
          | inr old ↦ (j, q, old, s, t)
        ];
  }

pub call_next-open :
    (c : Context) (k : ℕ) (p : Pending) (m : Manager)
    → p.next ≡ true
    → call_next c k p m
      ≡ call c p.ref
          (λ q. Queue.run c (length m.pending) q)
          (record m { pending = set_pending k (record p { next = false }) m.pending })
unfolding call_next
call_next-open c k p m y = simp y

-- What the listener of `close` leaves of the dial before it calls `next`.
abbrev pub next_called : ℕ → Pending → Manager → Manager
next_called k p m = record m {
  pending = set_pending k (record p { on_close = false; next = false }) m.pending;
}

-- What the close of a connection does for a dial whose `next` was not called.
pub emit-closed :
    (c : Context) (k : ℕ) (p : Pending) (m : Manager)
    → get_elem? m.pending k ≡ some p
    → p.next ≡ true
    → p.on_close ≡ true
    → emit c k closed m ≡ call c p.ref (λ q. Queue.run c (length m.pending) q) (next_called k p m)
unfolding emit fire
emit-closed c k p m g n o =
    let p' : Pending = record p { on_close = false } in
    let next = call_next-open c k p' (record m { pending = set_pending k p' m.pending }) n in
    rw (g, emit) (fire_closed ∙ next ∙ rw (set_pending_twice, length-set_pending) refl)
  where
    fire_closed :
        fire c k p closed m
        ≡ call_next c k
            (record p { on_close = false })
            (record m { pending = set_pending k (record p { on_close = false }) m.pending })
    fire_closed = simp o

pub call_next-spent :
    (c : Context) (k : ℕ) (p : Pending) (m : Manager)
    → p.next ≡ false
    → call_next c k p m ≡ returned m
unfolding call_next
call_next-spent c k p m n = simp n

module _ (c : Context) (book : (id : ℕ) → c.in_peer_book id ≡ true) where
  -- `next` of the dial at `k`, which was `old` and of whose listeners one was taken off.
  call_next-IsWaiting :
      (k : ℕ) (old p : Pending) (ps : List Pending) (m : Manager)
      → get_elem? ps k ≡ some old
      → p.ref ≡ old.ref
      → p.next ≡ old.next
      → AllWait m.heap ps
      → IsWaiting (state (call_next c k p (record m { pending = set_pending k p ps })))
  call_next-IsWaiting k old p ps m g ref next w = elim (Bool-cases p.next) [
    | inr n ↦
        rw (call_next-spent c k p _ n)
          (AllWait-set_pending k old p m.heap ps g ref next (λ t. absurd (ground arith)) w)
    | inl y ↦
        let p' : Pending = record p { next = false } in
        rw (call_next-open c k p _ y, set_pending_twice)
          (call-IsWaiting c book p.ref (λ q. Queue.run c (length (set_pending k p ps)) q)
            (record m { pending = set_pending k p' ps })
            (subst (λ r. AllWaitBut r m.heap (set_pending k p' ps)) (sym ref)
              (AllWaitBut-set_pending k old p' m.heap ps g ref refl w))
            (λ cell _ h. inl (run-HasNew c _ cell.object (book cell.object.id) h)))
  ]

  established-IsWaiting :
      (k : ℕ) (old p : Pending) (ps : List Pending) (m : Manager)
      → get_elem? ps k ≡ some old
      → p.ref ≡ old.ref
      → p.next ≡ old.next
      → AllWait m.heap ps
      → IsWaiting (state (established c k p (record m { pending = set_pending k p ps })))
  unfolding established Queue.on_established
  established-IsWaiting k old p ps m g ref next w = elim (Option-cases (get_elem? m.heap p.ref)) [
    | inl e ↦ absurd (omega (arith, w.placed k old g, get_elem?-le m.heap p.ref e))
    | inr (cell, e) ↦
        let (q, effect) = Queue.on_established k p.dial cell.object in
        rw (e, established)
          (call_next-IsWaiting k old p ps
            (record m { heap = write p.ref q m.heap; log = m.log ++ effect ∷ [] }) g ref next
            (AllWait-write p.ref q cell m.heap ps e refl w))
  ]

  fire-IsWaiting :
      (k : ℕ) (p : Pending) (e : Event) (m : Manager)
      → get_elem? m.pending k ≡ some p
      → IsWaiting m
      → IsWaiting (state (fire c k p e m))
  unfolding fire
  fire-IsWaiting k p (errored e) m g w = elim (Bool-cases p.on_error) [
    | inl y ↦
        let p' : Pending = record p { on_error = false } in
        rw (y, fire)
          (call-KeepsWait c book p.ref (Queue.on_error c e p.dial) (on_error-Carries c e p.dial)
            (record m { pending = set_pending k p' m.pending })
            (AllWait-set_pending k p p' m.heap m.pending g refl refl (λ n. w.attached k p g n) w))
    | inr n ↦ rw (n, fire) w
  ]
  fire-IsWaiting k p closed m g w = elim (Bool-cases p.on_close) [
    | inl y ↦
        rw (y, fire)
          (call_next-IsWaiting k p (record p { on_close = false }) m.pending m g refl refl w)
    | inr n ↦ rw (n, fire) w
  ]
  fire-IsWaiting k p muxed m g w = elim (Bool-cases p.on_muxed) [
    | inl y ↦
        rw (y, fire)
          (established-IsWaiting k p (record p { on_muxed = false }) m.pending m g refl refl w)
    | inr n ↦ rw (n, fire) w
  ]
  fire-IsWaiting k p unmuxed m g w = elim (Bool-cases p.on_unmuxed) [
    | inl y ↦
        rw (y, fire)
          (established-IsWaiting k p (record p { on_unmuxed = false }) m.pending m g refl refl w)
    | inr n ↦ rw (n, fire) w
  ]

  pub emit-KeepsWait : (k : ℕ) (e : Event) → KeepsWait (emit c k e)
  unfolding emit
  emit-KeepsWait k e m w = elim (Option-cases (get_elem? m.pending k)) [
    | inl g ↦ rw (g, emit) w
    | inr (p, g) ↦ rw (g, emit) (fire-IsWaiting k p e m g w)
  ]
