-- ===== src/Dialer/Manager/Announced.antt =====
-- src/dialer/queueManager.js: what an outcome of a queue leaves of `isRunning` and of the dials, each
-- with a connection that was told to dial.
use js_libp2p_swarm.Prelude.{
  ℕ, ◌<◌, ◌+◌, ◌==◌, ==→≡, some, true, subst, length-append, ◌≡◌, refl, sym, ap, ◌∙◌, List, [],
  ◌++◌, arith, length, Bool-cases, Option-cases, inl, inr,
}
use mathlib.Core.List.{append-nil, append_assoc}
use js_libp2p_swarm.Dialer.Queue.{Outcome, Effect}
use js_libp2p_swarm.Dialer.Queue.Told.{was_dialed, was_dialed-append, Tells}
use js_libp2p_swarm.Dialer.Manager.{
  Pending, Manager, Completion, state, settle, record_outcome, new_pending,
}

-- The connection of each dial, also of one that is over, was told to dial.
abbrev pub IsAnnounced : Manager → Type 0
IsAnnounced m = (k : ℕ) → k < length m.pending → was_dialed k m.log ≡ true

-- `isRunning` is as it was, and dials were added, each with a connection that was told to dial.
pub record Grows (m m' : Manager) : Type 0 where
  pub same_flag : m'.is_running ≡ m.is_running
  pub more : List Pending
  pub added : m'.pending ≡ m.pending ++ more
  pub announced : IsAnnounced m → IsAnnounced m'

pub Grows-refl : (m : Manager) → Grows m m
Grows-refl m = record {
  same_flag = refl;
  more = [];
  added = sym (append-nil m.pending);
  announced = λ a. a;
}

pub IsAnnounced-append :
    (m m' : Manager) (es : List Effect)
    → m'.pending ≡ m.pending
    → m'.log ≡ m.log ++ es
    → IsAnnounced m
    → IsAnnounced m'
IsAnnounced-append m m' es p l a k h =
    rw (l, was_dialed-append k m.log es) (ground (arith, a k (subst (λ ps. k < length ps) p h)))

-- No field that it reads was written, but the log went on.
pub logged-Grows :
    (m m' : Manager) (es : List Effect)
    → m'.is_running ≡ m.is_running
    → m'.pending ≡ m.pending
    → m'.log ≡ m.log ++ es
    → Grows m m'
logged-Grows m m' es f p l = record {
  same_flag = f;
  more = [];
  added = p ∙ sym (append-nil m.pending);
  announced = IsAnnounced-append m m' es p l;
}

-- No field that it reads was written.
pub same-Grows :
    (m m' : Manager)
    → m'.is_running ≡ m.is_running
    → m'.pending ≡ m.pending
    → m'.log ≡ m.log
    → Grows m m'
same-Grows m m' f p l = logged-Grows m m' [] f p (l ∙ sym (append-nil m.log))

pub Grows-trans : {m m' m'' : Manager} → Grows m m' → Grows m' m'' → Grows m m''
Grows-trans {m} g h = record {
  same_flag = h.same_flag ∙ g.same_flag;
  more = g.more ++ h.more;
  added = h.added ∙ ap (λ ps. ps ++ h.more) g.added ∙ append_assoc m.pending g.more h.more;
  announced = λ a. h.announced (g.announced a);
}

-- An operation that only adds dials.
abbrev pub Keeps : (Manager → Completion) → Type 0
Keeps f = (m : Manager) → Grows m (state (f m))

outcome-IsAnnounced :
    (ref : ℕ) (o : Outcome) (m : Manager)
    → Tells (length m.pending) o
    → IsAnnounced m
    → IsAnnounced (record_outcome ref o m)
unfolding record_outcome
outcome-IsAnnounced ref o m t a k h = elim (Option-cases o.waits) [
  | inl e ↦
      IsAnnounced-append m (record_outcome ref o m) o.effects
        (rw (e, record_outcome) (append-nil m.pending)) refl a k h
  | inr (d, e) ↦
      let n : length (m.pending ++ new_pending ref o.waits) ≡ length m.pending + 1 =
        rw e (length-append m.pending (new_pending ref (some d))) in
      elim (Bool-cases (k == length m.pending)) [
        | inl y ↦
            rw (was_dialed-append k m.log o.effects) (
              ground (arith, subst (λ x. was_dialed x o.effects ≡ true) (sym (==→≡ _ _ y)) (t d e)))
        | inr far ↦
            let old : k < length m.pending = ground (arith, n, h, far) in
            rw (was_dialed-append k m.log o.effects) (ground (arith, a k old))
      ]
]

outcome-Grows :
    (ref : ℕ) (o : Outcome) (m : Manager)
    → Tells (length m.pending) o
    → Grows m (record_outcome ref o m)
unfolding record_outcome
outcome-Grows ref o m t = record {
  same_flag = refl;
  more = new_pending ref o.waits;
  added = refl;
  announced = outcome-IsAnnounced ref o m t;
}

pub settle-Grows :
    (again : Manager → Completion) (ref : ℕ) (o : Outcome) (m : Manager)
    → Keeps again
    → Tells (length m.pending) o
    → Grows m (state (settle again ref o m))
unfolding settle
settle-Grows again ref o m k tells =
    let g = outcome-Grows ref o m tells in
    elim (Bool-cases o.threw) [
      | inl t ↦ rw (t, settle) g
      | inr t ↦ elim (Bool-cases o.stopped) [
        | inl s ↦
            rw (t, s, settle) (Grows-trans (Grows-trans g (same-Grows _ _ refl refl refl)) (k _))
        | inr s ↦ rw (t, s, settle) g
      ]
    ]
