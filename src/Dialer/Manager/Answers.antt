-- ===== src/Dialer/Manager/Answers.antt =====
-- src/dialer/queue.js:221-277: what the event of a connection leaves of its listeners.
use js_libp2p_swarm.Prelude.{
  ℕ, ◌<◌, ◌∙◌, ◌≡◌, refl, sym, ap, subst, false, List, [], ◌∷◌, ◌++◌, arith, length, get_elem?,
  some, Bool-cases, Option-cases, inl, inr, zero, suc,
}
use js_libp2p_swarm.Dialer.Context.{Context}
use js_libp2p_swarm.Dialer.Queue.Told.{Tells, run-Tells, on_error-Tells}
use js_libp2p_swarm.Dialer.Queue.{Queue, Outcome}
use js_libp2p_swarm.Dialer.Queue
use js_libp2p_swarm.Dialer.Manager.{Pending, write, Manager, state}
use js_libp2p_swarm.Dialer.Manager.Announced.{
  Grows, same-Grows, logged-Grows, Grows-refl, Grows-trans, IsAnnounced,
}
use js_libp2p_swarm.Dialer.Manager.Growth.{call-Grows}
use js_libp2p_swarm.Dialer.Manager.Listeners.{
  Event, errored, closed, muxed, unmuxed, emit, fire, established, call_next, set_pending,
}
use js_libp2p_swarm.Dialer.Manager.Waiting.{IsWaiting}
use js_libp2p_swarm.Dialer.Manager.Waiting.Events.{
  call_next-open, call_next-spent, emit-closed, next_called,
}
use js_libp2p_swarm.Dialer.Manager.Waiting.Places.{set_pending_twice, length-set_pending}

set_pending_same :
    (k : ℕ) (p : Pending) (ps : List Pending) → get_elem? ps k ≡ some p → set_pending k p ps ≡ ps
unfolding set_pending
set_pending_same k p [] g = refl
set_pending_same zero p (q ∷ ps) g = ground arith
set_pending_same (suc k) p (q ∷ ps) g = ap (◌∷◌ q) (set_pending_same k p ps g)

-- The dial without the listener of the event, which was attached by `once`.
abbrev pub detached : Event → Pending → Pending
detached (errored e) p = record p { on_error = false }
detached closed p = record p { on_close = false }
detached muxed p = record p { on_muxed = false }
detached unmuxed p = record p { on_unmuxed = false }

-- The dial at `k` of those that wait, `ps`, has become `p`, but for `next`, and dials were added.
pub record Answers (k : ℕ) (p : Pending) (ps : List Pending) (m m' : Manager) : Type 0 where
  pub after : Pending
  pub same_close : after.on_close ≡ p.on_close
  pub same_muxed : after.on_muxed ≡ p.on_muxed
  pub same_unmuxed : after.on_unmuxed ≡ p.on_unmuxed
  pub spent : p.next ≡ false → after.next ≡ false
  pub grows : Grows (record m { pending = set_pending k after ps }) m'

unchanged-Answers :
    (k : ℕ) (p : Pending) (m : Manager) → get_elem? m.pending k ≡ some p → Answers k p m.pending m m
unchanged-Answers k p m g = record {
  after = p;
  same_close = refl;
  same_muxed = refl;
  same_unmuxed = refl;
  spent = λ n. n;
  grows = same-Grows _ m refl (sym (set_pending_same k p m.pending g)) refl;
}

call_next-Answers :
    (c : Context) (k : ℕ) (p : Pending) (ps : List Pending) (m : Manager)
    → Answers k p ps m (state (call_next c k p (record m { pending = set_pending k p ps })))
unfolding call_next
call_next-Answers c k p ps m = elim (Bool-cases p.next) [
  | inr n ↦ rw (call_next-spent c k p (record m { pending = set_pending k p ps }) n) (record {
    after = p;
    same_close = refl;
    same_muxed = refl;
    same_unmuxed = refl;
    spent = λ n. n;
    grows = Grows-refl _;
  })
  | inl y ↦
      rw (call_next-open c k p (record m { pending = set_pending k p ps }) y, set_pending_twice)
        (record {
          after = record p { next = false };
          same_close = refl;
          same_muxed = refl;
          same_unmuxed = refl;
          spent = λ n. refl;
          grows =
              call-Grows c p.ref (λ q. Queue.run c (length (set_pending k p ps)) q)
                (record m { pending = set_pending k (record p { next = false }) ps })
                (λ q.
                  subst (λ n. Tells n (Queue.run c (length (set_pending k p ps)) q))
                    (length-set_pending k p ps
                      ∙ sym (length-set_pending k (record p { next = false }) ps))
                    (run-Tells c (length (set_pending k p ps)) q));
        })
]

established-Answers :
    (c : Context) (k : ℕ) (p : Pending) (ps : List Pending) (m : Manager)
    → Answers k p ps m (state (established c k p (record m { pending = set_pending k p ps })))
unfolding established Queue.on_established
established-Answers c k p ps m = elim (Option-cases (get_elem? m.heap p.ref)) [
  | inl e ↦
      rw (e, established)
        (record {
          after = p;
          same_close = refl;
          same_muxed = refl;
          same_unmuxed = refl;
          spent = λ n. n;
          grows = Grows-refl _;
        })
  | inr (cell, e) ↦
      let (q, effect) = Queue.on_established k p.dial cell.object in
      let a =
        call_next-Answers c k p ps
          (record m { heap = write p.ref q m.heap; log = m.log ++ effect ∷ [] }) in
      rw (e, established)
        (record {
          after = a.after;
          same_close = a.same_close;
          same_muxed = a.same_muxed;
          same_unmuxed = a.same_unmuxed;
          spent = a.spent;
          grows = Grows-trans (logged-Grows _ _ (effect ∷ []) refl refl refl) a.grows;
        })
]

-- An event without its listener.
ignored :
    (k : ℕ) (p p' : Pending) (m : Manager)
    → get_elem? m.pending k ≡ some p
    → p ≡ p'
    → Answers k p' m.pending m m
ignored k p p' m g same = subst (λ x. Answers k x m.pending m m) same (unchanged-Answers k p m g)

-- The listener of an event is off afterwards, and none was attached again.
pub fire-Answers :
    (c : Context) (k : ℕ) (p : Pending) (e : Event) (m : Manager)
    → get_elem? m.pending k ≡ some p
    → Answers k (detached e p) m.pending m (state (fire c k p e m))
unfolding fire
fire-Answers c k p (errored e) m g = elim (Bool-cases p.on_error) [
  | inl y ↦
      rw (y, fire)
        (record {
          after = record p { on_error = false };
          same_close = refl;
          same_muxed = refl;
          same_unmuxed = refl;
          spent = λ n. n;
          grows = call-Grows c p.ref (Queue.on_error c e p.dial) _ (on_error-Tells _ c e p.dial);
        })
  | inr n ↦ rw (n, fire) (ignored k p _ m g (λ i. record p { on_error = n i }))
]
fire-Answers c k p closed m g = elim (Bool-cases p.on_close) [
  | inl y ↦ rw (y, fire) (call_next-Answers c k (record p { on_close = false }) m.pending m)
  | inr n ↦ rw (n, fire) (ignored k p _ m g (λ i. record p { on_close = n i }))
]
fire-Answers c k p muxed m g = elim (Bool-cases p.on_muxed) [
  | inl y ↦ rw (y, fire) (established-Answers c k (record p { on_muxed = false }) m.pending m)
  | inr n ↦ rw (n, fire) (ignored k p _ m g (λ i. record p { on_muxed = n i }))
]
fire-Answers c k p unmuxed m g = elim (Bool-cases p.on_unmuxed) [
  | inl y ↦ rw (y, fire) (established-Answers c k (record p { on_unmuxed = false }) m.pending m)
  | inr n ↦ rw (n, fire) (ignored k p _ m g (λ i. record p { on_unmuxed = n i }))
]

pub emit-flag :
    (c : Context) (k : ℕ) (e : Event) (m : Manager)
    → (state (emit c k e m)).is_running ≡ m.is_running
unfolding emit
emit-flag c k e m = elim (Option-cases (get_elem? m.pending k)) [
  | inl g ↦ rw (g, emit) refl
  | inr (p, g) ↦
      let a : Answers k (detached e p) m.pending m (state (fire c k p e m)) =
        fire-Answers c k p e m g in
      rw (g, emit) a.grows.same_flag
]

pub emit-IsAnnounced :
    (c : Context) (k : ℕ) (e : Event) (m : Manager)
    → IsAnnounced m
    → IsAnnounced (state (emit c k e m))
unfolding emit
emit-IsAnnounced c k e m a = elim (Option-cases (get_elem? m.pending k)) [
  | inl g ↦ rw (g, emit) a
  | inr (p, g) ↦
      let x : Answers k (detached e p) m.pending m (state (fire c k p e m)) =
        fire-Answers c k p e m g in
      rw (g, emit)
        (x.grows.announced
          (λ j h. a j (subst (λ n. j < n) (length-set_pending k x.after m.pending) h)))
]

-- The close of a connection calls `next`, if that was not called.
pub close-Answers :
    (c : Context) (k : ℕ) (p : Pending) (m : Manager)
    → get_elem? m.pending k ≡ some p
    → IsWaiting m
    → (a : Answers k (detached closed p) m.pending m (state (emit c k closed m))) × (a.after.next
        ≡ false)
unfolding emit
close-Answers c k p m g w = elim (Bool-cases p.next) [
  | inl y ↦
      let q : Pending = record p { on_close = false; next = false } in
      rw (emit-closed c k p m g y (w.attached k p g y).0) (
        record {
          after = q;
          same_close = refl;
          same_muxed = refl;
          same_unmuxed = refl;
          spent = λ n. refl;
          grows =
              call-Grows c p.ref (λ q. Queue.run c (length m.pending) q) (next_called k p m)
                (λ q.
                  subst (λ n. Tells n (Queue.run c (length m.pending) q))
                    (sym (
                      length-set_pending k (record p { on_close = false; next = false }) m.pending))
                    (run-Tells c (length m.pending) q));
        },
        refl,
      )
  | inr n ↦
      let a : Answers k (detached closed p) m.pending m (state (fire c k p closed m)) =
        fire-Answers c k p closed m g in
      rw (g, emit) (a, a.spent n)
]
