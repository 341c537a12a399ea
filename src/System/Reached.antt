-- ===== src/System/Reached.antt =====
-- Every state that the dialer and its connections reach (src/dialer/queue.js:184-277 with
-- src/connection/index.js and src/connection/manager.js).
use js_libp2p_swarm.Prelude.{
  ℕ, ◌≡◌, ◌∙◌, refl, false, inl, inr, [], ◌∷◌, arith, length, get_elem?, Option-cases, Bool-cases,
  sym, ap, subst,
}
use js_libp2p_swarm.Dialer.Context.{Limits}
use js_libp2p_swarm.Dialer.Manager.{Cell, Pending, Manager}
use js_libp2p_swarm.Dialer.Manager
use js_libp2p_swarm.Dialer.Manager.Methods.{init-IsValid}
use js_libp2p_swarm.Dialer.Manager.Listeners.{errored, closed, muxed, unmuxed}
use js_libp2p_swarm.Dialer.Manager.Invariant.{IsValid}
use js_libp2p_swarm.Dialer.Manager.Waiting.{IsWaiting}
use js_libp2p_swarm.Dialer.Manager.Waiting.Alive.{init-IsWaiting, init-IsAnnounced}
use js_libp2p_swarm.Dialer.Manager.Announced.{IsAnnounced}
use js_libp2p_swarm.Connection.States.{Fsm}
use js_libp2p_swarm.Connection.Machine.{
  Effect, Readings, emit_error, emit_close, emit_muxed, emit_unmuxed, remove_listeners, untrack,
}
use js_libp2p_swarm.Connection.Inputs.{Input}
use js_libp2p_swarm.System.{
  System, Env, init, Step, delivered, called, received, Reach, starts_here, goes, deliver,
  tracker_muxed, remove_all, step_link, readings_of,
}
use js_libp2p_swarm.System.Endings.{Ending, ends, is_removal}
use js_libp2p_swarm.System.Sound.{step_link-Sound}
use js_libp2p_swarm.System.Opened.{step_link-dialer, step_link-length}
use js_libp2p_swarm.System.Heard.{ignored-Sound}
use js_libp2p_swarm.System.Holds.{Holds, FitsDialer, called-Holds}
use js_libp2p_swarm.System.Emitted.{emitted-Holds, tracker_muxed-Holds, removed-Holds}

tracker_muxed-inbox : (k : ℕ) (s : System) → (tracker_muxed k s).inbox ≡ s.inbox
unfolding tracker_muxed
tracker_muxed-inbox k s = elim (Option-cases (get_elem? s.links k)) [
  | inl e ↦ rw (e, tracker_muxed) refl
  | inr (lk, e) ↦ elim (Bool-cases lk.awaits_muxed) [
    | inr n ↦ rw (e, n, tracker_muxed) refl
    | inl y ↦ rw (e, y, tracker_muxed) refl
  ]
]

remove_all-inbox : (k : ℕ) (s : System) → (remove_all k s).inbox ≡ s.inbox
unfolding remove_all
remove_all-inbox k s = elim (Option-cases (get_elem? s.dialer.pending k)) [
  | inl e ↦ rw (e, remove_all) refl
  | inr (p, e) ↦ rw (e, remove_all) refl
]

ignored-Holds :
    (l : Limits) (k : ℕ) (x : Effect) (s : System)
    → ((v : Ending) → ends v x ≡ false)
    → is_removal x ≡ false
    → Holds l ((k, x) ∷ s.inbox) s
    → Holds l s.inbox s
ignored-Holds l k x s n m w = record {
  valid = w.valid;
  waiting = w.waiting;
  announced = w.announced;
  paired = w.paired;
  sound = ignored-Sound s.dialer.pending s.links s.inbox k x n m w.sound;
}

module _ (fsm : Fsm) (l : Limits) (e : Env) (fits : FitsDialer l e) where
  deliver-Holds :
      (k : ℕ) (x : Effect) (s : System)
      → Holds l ((k, x) ∷ s.inbox) s
      → Holds l (deliver fsm e k x s).inbox (deliver fsm e k x s)
  unfolding deliver
  deliver-Holds k (emit_error err) s w = emitted-Holds fsm l e fits k (errored err) s w
  deliver-Holds k emit_close s w = emitted-Holds fsm l e fits k closed s w
  deliver-Holds k emit_unmuxed s w = emitted-Holds fsm l e fits k unmuxed s w
  deliver-Holds k emit_muxed s w = emitted-Holds fsm l e fits k muxed (tracker_muxed k s) (
      subst (λ b. Holds l ((k, emit_muxed) ∷ b) (tracker_muxed k s)) (sym (tracker_muxed-inbox k s))
        (tracker_muxed-Holds l ((k, emit_muxed) ∷ s.inbox) k s w))
  deliver-Holds k remove_listeners s w =
      subst (λ b. Holds l b (remove_all k s)) (sym (remove_all-inbox k s)) (removed-Holds l k s w)
  deliver-Holds k untrack s w =
      let v = ignored-Holds l k untrack s (λ v. ground arith) refl w in
      record {
        valid = v.valid;
        waiting = v.waiting;
        announced = v.announced;
        paired = v.paired;
        sound = v.sound;
      }
  deliver-Holds k x s w = ignored-Holds l k x s (λ v. ground arith) refl w

  step_link-Holds :
      (r : Readings) (i : Input) (k : ℕ) (s : System)
      → Holds l s.inbox s
      → Holds l (step_link fsm r i k s).inbox (step_link fsm r i k s)
  step_link-Holds r i k s w =
      let same = sym (step_link-dialer fsm r i k s) in
      record {
        valid = subst (λ d. IsValid l d) same w.valid;
        waiting = subst (λ d. IsWaiting d) same w.waiting;
        announced = subst (λ d. IsAnnounced d) same w.announced;
        paired = step_link-length fsm r i k s ∙ w.paired ∙ ap (λ d. length d.pending) same;
        sound = step_link-Sound fsm r i k s w.sound;
      }

  Step-Holds : {s t : System} → Step fsm e s t → Holds l s.inbox s → Holds l t.inbox t
  Step-Holds (delivered e s k x rest first) w =
      deliver-Holds k x (record s { inbox = rest })
        (subst (λ b. Holds l b (record s { inbox = rest })) first
          (record {
            valid = w.valid;
            waiting = w.waiting;
            announced = w.announced;
            paired = w.paired;
            sound = w.sound;
          }))
  Step-Holds (called e s a quiet h) w = called-Holds fsm l e fits a s h w
  Step-Holds (received e s k i quiet) w = step_link-Holds (readings_of e k s) i k s w

init-Holds : (l : Limits) → Holds l [] init
unfolding init Manager.init
init-Holds l = record {
  valid = init-IsValid l;
  waiting = init-IsWaiting;
  announced = init-IsAnnounced;
  paired = refl;
  sound = record {
    from_links = refl;
    told = λ v k p lk g. absurd (ground arith);
    in_order = λ k p h. absurd (ground arith);
    honest = λ k lk g. absurd (ground arith);
  };
}

pub Reach-Holds :
    (fsm : Fsm) (l : Limits) {s : System} → Reach fsm (FitsDialer l) s → Holds l s.inbox s
unfolding init
Reach-Holds fsm l starts_here = init-Holds l
Reach-Holds fsm l (goes r e fits step) = Step-Holds fsm l e fits step (Reach-Holds fsm l r)
