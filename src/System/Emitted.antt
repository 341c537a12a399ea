-- ===== src/System/Emitted.antt =====
-- src/dialer/queue.js:246-272, src/connection/manager.js:42-46 and src/connection/base.js:86: the
-- listeners of each event keep the invariant of the dialer with its connections.
use js_libp2p_swarm.Prelude.{
  ℕ, ◌<◌, ◌≡◌, ◌∙◌, refl, true, false, inl, inr, ◌||◌, some, List, [], ◌∷◌, arith, length,
  get_elem?, set, length-set, length-append, Option-cases, Bool-cases, sym, ap, subst,
}
use mathlib.Core.List.{append-nil}
use js_libp2p_swarm.Dialer.Context.{Limits}
use js_libp2p_swarm.Dialer.Manager.{Pending, Manager, state}
use js_libp2p_swarm.Dialer.Manager.Methods.{clear_denylist-IsValid}
use js_libp2p_swarm.Dialer.Manager.Histories.{same-IsValid}
use js_libp2p_swarm.Dialer.Manager.History.{emits, step}
use js_libp2p_swarm.Dialer.Manager.Listeners.{
  Event, errored, closed, muxed, unmuxed, emit, fire, set_pending,
}
use js_libp2p_swarm.Dialer.Manager.Growth.{clear_denylist-Grows, pending-clear_denylist}
use js_libp2p_swarm.Dialer.Manager.Waiting.Alive.{step-IsAnnounced}
use js_libp2p_swarm.Dialer.Manager.Answers.{Answers, detached, fire-Answers, close-Answers}
use js_libp2p_swarm.Dialer.Manager.Waiting.Calls.{clear_denylist-IsWaiting}
use js_libp2p_swarm.Dialer.Manager.Waiting.Events.{AllWait-set_pending}
use js_libp2p_swarm.Dialer.Manager.Waiting.Places.{get_elem?-le, length-set_pending}
use js_libp2p_swarm.Connection.States.{Fsm}
use js_libp2p_swarm.Connection.Machine.{
  Effect, emit_error, emit_close, emit_muxed, emit_unmuxed, remove_listeners,
}
use js_libp2p_swarm.System.{
  Link, System, Env, context_of, on_dialer, tracker_muxed, remove_all, no_listeners, forget_muxed,
}
use js_libp2p_swarm.System.Endings.{Ending, by_close, ends, is_removal}
use js_libp2p_swarm.System.Sound.{Sound, bounded, listens, link-Sound}
use js_libp2p_swarm.System.Heard.{Remains, heard-Sound, grown-Sound}
use js_libp2p_swarm.System.Holds.{
  Holds, FitsDialer, opened-Holds, step-context_of-IsValid, step-context_of-IsWaiting,
}

-- What the connection emits for an event.
abbrev heard_as : Event → Effect
heard_as (errored err) = emit_error err
heard_as closed = emit_close
heard_as muxed = emit_muxed
heard_as unmuxed = emit_unmuxed

Answers-Remains :
    (x : Event) (k : ℕ) (p : Pending) (ps : List Pending) (m m' : Manager)
    (a : Answers k (detached x p) ps m m')
    → (ends by_close (heard_as x) ≡ true → a.after.next ≡ false)
    → Remains (heard_as x) p a.after
Answers-Remains x k p ps m m' a h = record {
  wears = λ v on. wears x v on a.same_close a.same_muxed a.same_unmuxed;
  spent = spent x a.spent;
  closes = closes x h;
}
  where
    wears :
        (x : Event) (v : Ending)
        → listens v a.after ≡ true
        → a.after.on_close ≡ (detached x p).on_close
        → a.after.on_muxed ≡ (detached x p).on_muxed
        → a.after.on_unmuxed ≡ (detached x p).on_unmuxed
        → (listens v p ≡ true) × (ends v (heard_as x) ≡ false)
    wears x v on c m u = ground arith

    spent :
        (x : Event)
        → ((detached x p).next ≡ false → a.after.next ≡ false)
        → p.next ≡ false
        → a.after.next ≡ false
    spent x f n = ground arith

    closes :
        (x : Event)
        → (ends by_close (heard_as x) ≡ true → a.after.next ≡ false)
        → (ends by_close (heard_as x) || is_removal (heard_as x)) ≡ true
        → a.after.next ≡ false
    closes x f n = ground arith

-- The dial of a connection that an event came from.
dial_at :
    (l : Limits) (k : ℕ) (x : Effect) (rest : List (ℕ × Effect)) (s : System)
    → Holds l ((k, x) ∷ rest) s
    → (p : Pending) × (get_elem? s.dialer.pending k ≡ some p)
dial_at l k x rest s w = elim (Option-cases (get_elem? s.dialer.pending k)) [
  | inr there ↦ there
  | inl e ↦ absurd (
      omega (
        arith,
        get_elem?-le s.dialer.pending k e,
        w.paired,
        first_bounded (length s.links) rest w.sound.from_links,
      ))
]
  where
    first_bounded : (n : ℕ) (rest : List (ℕ × Effect)) → bounded n ((k, x) ∷ rest) ≡ true → k < n
    first_bounded n rest h = ground arith

module _ (fsm : Fsm) (l : Limits) (e : Env) (fits : FitsDialer l e) where
  -- The dialer's listeners of an event have run.
  answered-Holds :
      (k : ℕ) (x : Event) (p : Pending) (s : System)
      → (a : Answers k
          (detached x p)
          s.dialer.pending
          s.dialer
          (state (step (context_of e s) (emits k x) s.dialer)))
      → get_elem? s.dialer.pending k ≡ some p
      → (ends by_close (heard_as x) ≡ true → a.after.next ≡ false)
      → Holds l ((k, heard_as x) ∷ s.inbox) s
      → let t = on_dialer fsm e (emits k x) s in Holds l t.inbox t
  unfolding on_dialer
  answered-Holds k x p s a g last w =
      let m : Manager = state (step (context_of e s) (emits k x) s.dialer) in
      let ps : List Pending = set_pending k a.after s.dialer.pending in
      let n : length s.links ≡ length ps =
        w.paired ∙ sym (length-set_pending k a.after s.dialer.pending) in
      opened-Holds fsm e l m s (step-context_of-IsValid fsm l e fits (emits k x) s w.valid)
        (step-context_of-IsWaiting fsm l e fits (emits k x) s w.waiting)
        (step-IsAnnounced (context_of e s) (emits k x) s.dialer w.announced)
        (omega (arith, n, ap length a.grows.added, length-append ps a.grows.more))
        (subst (λ qs. Sound qs s.links s.inbox) (sym a.grows.added)
          (grown-Sound ps a.grows.more s.links s.inbox n (
            heard-Sound s.dialer.pending s.links s.inbox k (heard_as x) p a.after g
              (Answers-Remains x k p s.dialer.pending s.dialer m a last) w.sound)))

  emit-fire :
      (k : ℕ) (x : Event) (p : Pending) (s : System)
      → get_elem? s.dialer.pending k ≡ some p
      → Answers k
          (detached x p)
          s.dialer.pending
          s.dialer
          (state (step (context_of e s) (emits k x) s.dialer))
  unfolding step emit
  emit-fire k x p s g =
      let a : Answers k (detached x p) s.dialer.pending s.dialer
          (state (fire (context_of e s) k p x s.dialer)) =
        fire-Answers (context_of e s) k p x s.dialer g in
      rw (g, emit) a

  pub emitted-Holds :
      (k : ℕ) (x : Event) (s : System)
      → Holds l ((k, heard_as x) ∷ s.inbox) s
      → let t = on_dialer fsm e (emits k x) s in Holds l t.inbox t
  unfolding step
  emitted-Holds k (errored err) s w =
      let (p, g) = dial_at l k _ s.inbox s w in
      answered-Holds k (errored err) p s (emit-fire k (errored err) p s g) g
        (λ h. absurd (ground arith)) w
  emitted-Holds k muxed s w =
      let (p, g) = dial_at l k _ s.inbox s w in
      answered-Holds k muxed p s (emit-fire k muxed p s g) g (λ h. absurd (ground arith)) w
  emitted-Holds k unmuxed s w =
      let (p, g) = dial_at l k _ s.inbox s w in
      answered-Holds k unmuxed p s (emit-fire k unmuxed p s g) g (λ h. absurd (ground arith)) w
  emitted-Holds k closed s w =
      let (p, g) = dial_at l k _ s.inbox s w in
      let (a, off) = close-Answers (context_of e s) k p s.dialer g w.waiting in
      answered-Holds k closed p s a g (λ h. off) w

-- A link that is written but for its connection.
relinked :
    (ps : List Pending) (ls : List Link) (b : List (ℕ × Effect)) (k : ℕ) (lk : Link)
    → get_elem? ls k ≡ some lk
    → Sound ps ls b
    → Sound ps (set ls k (record lk { awaits_muxed = false })) b
relinked ps ls b k lk g w =
    link-Sound ps ls b k lk (record lk { awaits_muxed = false }) [] g
      (sym (append-nil lk.connection.log)) refl (w.honest k lk g) w

pub tracker_muxed-Holds :
    (l : Limits) (b : List (ℕ × Effect)) (k : ℕ) (s : System)
    → Holds l b s
    → Holds l b (tracker_muxed k s)
unfolding tracker_muxed
tracker_muxed-Holds l b k s w = elim (Option-cases (get_elem? s.links k)) [
  | inl e ↦ rw (e, tracker_muxed) w
  | inr (lk, e) ↦ elim (Bool-cases lk.awaits_muxed) [
    | inr n ↦ rw (e, n, tracker_muxed) w
    | inl y ↦
        let same = pending-clear_denylist lk.peer s.dialer in
        rw (e, y, tracker_muxed)
          (record {
            valid = clear_denylist-IsValid l lk.peer s.dialer w.valid;
            waiting = clear_denylist-IsWaiting lk.peer s.dialer w.waiting;
            announced = (clear_denylist-Grows lk.peer s.dialer).announced w.announced;
            paired = length-set s.links k _ ∙ w.paired ∙ ap length (sym same);
            sound =
                subst (λ ps. Sound ps (set s.links k (record lk { awaits_muxed = false })) b)
                  (sym same) (relinked s.dialer.pending s.links b k lk e w.sound);
          })
  ]
]

forgotten :
    (ps : List Pending) (ls : List Link) (b : List (ℕ × Effect)) (k : ℕ)
    → Sound ps ls b
    → Sound ps (forget_muxed k ls) b × (length (forget_muxed k ls) ≡ length ls)
unfolding forget_muxed
forgotten ps ls b k w = elim (Option-cases (get_elem? ls k)) [
  | inl e ↦ rw (e, forget_muxed) (w, refl)
  | inr (lk, e) ↦ rw (e, forget_muxed) (relinked ps ls b k lk e w, length-set ls k _)
]

-- The removal comes after the close, which has called `next`.
pub removed-Holds :
    (l : Limits) (k : ℕ) (s : System)
    → Holds l ((k, remove_listeners) ∷ s.inbox) s
    → Holds l s.inbox (remove_all k s)
unfolding remove_all
removed-Holds l k s w =
    let (p, g) = dial_at l k remove_listeners s.inbox s w in
    let d = s.dialer in
    let off : p.next ≡ false = w.sound.in_order k p (ground arith) g in
    let (sound, n) = forgotten (set_pending k (no_listeners p) d.pending) s.links s.inbox k (
      heard-Sound d.pending s.links s.inbox k remove_listeners p (no_listeners p) g
        (record { wears = λ v on. absurd (deaf p v on); spent = λ n. n; closes = λ h. off })
        w.sound) in
    rw (g, remove_all)
      (record {
        valid = same-IsValid l d d.is_running d.clean_scheduled _ d.log w.valid;
        announced = λ j h.
            w.announced j (subst (λ n. j < n) (length-set_pending k (no_listeners p) d.pending) h);
        waiting =
            AllWait-set_pending k p (no_listeners p) d.heap d.pending g refl refl
              (λ h. absurd (ground arith)) w.waiting;
        paired = n ∙ w.paired ∙ sym (length-set_pending k (no_listeners p) d.pending);
        sound = sound;
      })
  where
    deaf : (p : Pending) (v : Ending) → listens v (no_listeners p) ≡ true → ⊥
    deaf p v on = ground arith
