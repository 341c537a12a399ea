-- ===== src/System/Holds.antt =====
-- The invariant of the dialer with its connections, and that every listener and every call keeps it
-- (src/dialer/queue.js:184-277 with src/connection/manager.js:30-117).
use js_libp2p_swarm.Prelude.{
  ℕ, ◌≤◌, ◌≡◌, ◌∙◌, true, List, [], ◌++◌, arith, length, length-append, sym, ap, subst,
}
use mathlib.Core.List.{append-nil}
use js_libp2p_swarm.Dialer.Context.{Limits}
use js_libp2p_swarm.Dialer.Manager.{Pending, Manager, state, start}
use js_libp2p_swarm.Dialer.Manager.Invariant.{IsValid}
use js_libp2p_swarm.Dialer.Manager.Histories.{step-IsValid}
use js_libp2p_swarm.Dialer.Manager.History.{Call, adds, clears, starts, stops, cleans, emits, step}
use js_libp2p_swarm.Dialer.Manager.Sweep.{stop, listed_refs, abort_and_delete}
use js_libp2p_swarm.Dialer.Manager.Announced.{IsAnnounced}
use js_libp2p_swarm.Dialer.Manager.Growth.{
  add-Keeps, clean-Keeps, for_each-Keeps, abort_and_delete-Keeps, pending-clear_denylist,
}
use js_libp2p_swarm.Dialer.Manager.Waiting.{IsWaiting}
use js_libp2p_swarm.Dialer.Manager.Waiting.Alive.{step-IsWaiting, step-IsAnnounced}
use js_libp2p_swarm.Connection.States.{Fsm}
use js_libp2p_swarm.Connection.Machine.{Effect}
use js_libp2p_swarm.System.{System, Env, context_of, on_dialer, open_links, beyond, is_call}
use js_libp2p_swarm.System.Sound.{Sound}
use js_libp2p_swarm.System.Opened.{open_links-Opens, length-beyond}
use js_libp2p_swarm.System.Heard.{grown-Sound}

-- `inbox` is what is still to be heard.
pub record Holds (l : Limits) (inbox : List (ℕ × Effect)) (s : System) : Type 0 where
  pub valid : IsValid l s.dialer
  pub waiting : IsWaiting s.dialer
  pub announced : IsAnnounced s.dialer
  pub paired : length s.links ≡ length s.dialer.pending
  pub sound : Sound s.dialer.pending s.links inbox

-- The readings of one dialer, whose peer book knows the peers.
pub record FitsDialer (l : Limits) (e : Env) : Type 0 where
  pub same_limits : e.context.limits ≡ l
  pub in_book : (id : ℕ) → e.context.in_peer_book id ≡ true

-- The dialer is now `m`, and its new connections are made.
pub opened-Holds :
    (fsm : Fsm) (e : Env) (l : Limits) (m : Manager) (s : System)
    → IsValid l m
    → IsWaiting m
    → IsAnnounced m
    → length s.links ≤ length m.pending
    → Sound m.pending s.links s.inbox
    → let t = open_links fsm e (beyond s.links m.pending) (record s { dialer = m }) in
      Holds l t.inbox t
opened-Holds fsm e l m s v w a n sound =
    let o = open_links-Opens fsm e (beyond s.links m.pending) (record s { dialer = m }) sound in
    record {
      valid = subst (IsValid l) (sym o.same_dialer) v;
      waiting = subst IsWaiting (sym o.same_dialer) w;
      announced = subst IsAnnounced (sym o.same_dialer) a;
      paired =
          o.more_links
          ∙ length-beyond s.links m.pending n
          ∙ ap (λ d. length d.pending) (sym o.same_dialer);
      sound = o.sound;
    }

module _ (fsm : Fsm) (l : Limits) (e : Env) (fits : FitsDialer l e) where
  pub step-context_of-IsValid :
      (a : Call) (s : System)
      → IsValid l s.dialer
      → IsValid l (state (step (context_of e s) a s.dialer))
  unfolding context_of
  step-context_of-IsValid a s v =
      let c = context_of e s in
      subst (λ x. IsValid x (state (step c a s.dialer))) fits.same_limits
        (step-IsValid c a s.dialer (subst (λ x. IsValid x s.dialer) (sym fits.same_limits) v))

  pub step-context_of-IsWaiting :
      (a : Call) (s : System)
      → IsWaiting s.dialer
      → IsWaiting (state (step (context_of e s) a s.dialer))
  unfolding context_of
  step-context_of-IsWaiting a s w = step-IsWaiting (context_of e s) a s.dialer fits.in_book w

  -- A call that only adds dials.
  added :
      (a : Call) (s : System)
      → is_call a ≡ true
      → (more : List Pending) × ((state (step (context_of e s) a s.dialer)).pending
          ≡ s.dialer.pending ++ more)
  unfolding step start stop
  added (adds r) s h = let g = add-Keeps (context_of e s) r s.dialer in (g.more, g.added)
  added (clears id) s h =
      ([], pending-clear_denylist id s.dialer ∙ sym (append-nil s.dialer.pending))
  added starts s h = ([], sym (append-nil s.dialer.pending))
  added stops s h =
      let c = context_of e s in
      let g =
        for_each-Keeps (abort_and_delete c) (listed_refs 0 s.dialer.heap) (abort_and_delete-Keeps c)
          _ in
      (g.more, g.added)
  added cleans s h = let g = clean-Keeps (context_of e s) s.dialer in (g.more, g.added)
  added (emits k x) s h = absurd (ground arith)

  pub called-Holds :
      (a : Call) (s : System)
      → is_call a ≡ true
      → Holds l s.inbox s
      → Holds l (on_dialer fsm e a s).inbox (on_dialer fsm e a s)
  unfolding on_dialer
  called-Holds a s h w =
      let m = state (step (context_of e s) a s.dialer) in
      let (more, add) = added a s h in
      opened-Holds fsm e l m s (step-context_of-IsValid a s w.valid)
        (step-context_of-IsWaiting a s w.waiting)
        (step-IsAnnounced (context_of e s) a s.dialer w.announced)
        (omega (arith, w.paired, ap length add, length-append s.dialer.pending more))
        (subst (λ ps. Sound ps s.links s.inbox) (sym add)
          (grown-Sound s.dialer.pending more s.links s.inbox w.paired w.sound))
