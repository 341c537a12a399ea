-- ===== src/System/Opened.antt =====
-- src/dialer/queue.js:184-206: the connections that a call of the dialer's manager makes.
use js_libp2p_swarm.Prelude.{
  ℕ, ◌+◌, ◌≤◌, ◌≡◌, ◌∙◌, refl, inl, inr, List, [], ◌∷◌, ◌++◌, arith, length, get_elem?, length-set,
  length-append, Option-cases, sym, subst,
}
use js_libp2p_swarm.Dialer.Manager.{Pending}
use js_libp2p_swarm.Dialer.Manager.Waiting.Places.{get_elem?-snoc}
use js_libp2p_swarm.Connection.States.{Fsm}
use js_libp2p_swarm.Connection.Machine.{Effect, Readings}
use js_libp2p_swarm.Connection.Machine
use js_libp2p_swarm.Connection.Inputs.{Input, dials}
use js_libp2p_swarm.Connection.Inputs
use js_libp2p_swarm.System.{Link, System, Env, step_link, open_link, open_links, beyond}
use js_libp2p_swarm.System.Sound.{Sound, IsSound, IsHonest, bounded_mono, step_link-Sound}

new-Sound :
    (ps : List Pending) (ls : List Link) (b : List (ℕ × Effect)) (l : Link)
    → l.connection ≡ Machine.init
    → Sound ps ls b
    → Sound ps (ls ++ l ∷ []) b
unfolding Machine.init
new-Sound ps ls b l e w = record {
  from_links =
      bounded_mono (length ls) (length (ls ++ l ∷ [])) b (omega (arith, length-append ls (l ∷ [])))
        w.from_links;
  told = λ v k p lk gp gl on h. elim (get_elem?-snoc ls l k lk gl) [
    | inl old ↦ w.told v k p lk gp old on h
    | inr same ↦ absurd (ground arith)
  ];
  in_order = w.in_order;
  honest = λ k lk gl. elim (get_elem?-snoc ls l k lk gl) [
    | inl old ↦ w.honest k lk old
    | inr same ↦
        subst (λ z. IsHonest z.connection) same
          (subst IsHonest (sym e) (record {
            says_muxed = λ m. absurd (ground arith);
            says_connected = λ m. absurd (ground arith);
          }))
  ];
}

pub step_link-dialer :
    (fsm : Fsm) (r : Readings) (i : Input) (k : ℕ) (s : System)
    → (step_link fsm r i k s).dialer ≡ s.dialer
unfolding step_link
step_link-dialer fsm r i k s = elim (Option-cases (get_elem? s.links k)) [
  | inl e ↦ rw (e, step_link) refl
  | inr (l, e) ↦ elim (Option-cases (Inputs.step fsm r i (record l.connection { log = [] }))) [
    | inl g ↦ rw (e, g, step_link) refl
    | inr (c, g) ↦ rw (e, g, step_link) refl
  ]
]

pub step_link-length :
    (fsm : Fsm) (r : Readings) (i : Input) (k : ℕ) (s : System)
    → length (step_link fsm r i k s).links ≡ length s.links
unfolding step_link
step_link-length fsm r i k s = elim (Option-cases (get_elem? s.links k)) [
  | inl e ↦ rw (e, step_link) refl
  | inr (l, e) ↦ elim (Option-cases (Inputs.step fsm r i (record l.connection { log = [] }))) [
    | inl g ↦ rw (e, g, step_link) refl
    | inr (c, g) ↦ rw (e, g, step_link) (length-set s.links k _)
  ]
]

-- What making connections leaves.
pub record Opens (n : ℕ) (s s' : System) : Type 0 where
  pub sound : IsSound s'
  pub same_dialer : s'.dialer ≡ s.dialer
  pub more_links : length s'.links ≡ length s.links + n

open_link-Opens :
    (fsm : Fsm) (e : Env) (p : Pending) (s : System) → IsSound s → Opens 1 s (open_link fsm e p s)
unfolding open_link
open_link-Opens fsm e p s w = record {
  sound =
      step_link-Sound fsm _ dials (length s.links) _
        (new-Sound s.dialer.pending s.links s.inbox _ refl w);
  same_dialer = step_link-dialer fsm _ dials (length s.links) _;
  more_links = step_link-length fsm _ dials (length s.links) _ ∙ length-append s.links _;
}

pub open_links-Opens :
    (fsm : Fsm) (e : Env) (ps : List Pending) (s : System)
    → IsSound s
    → Opens (length ps) s (open_links fsm e ps s)
unfolding open_links
open_links-Opens fsm e [] s w = record { sound = w; same_dialer = refl; more_links = omega arith }
open_links-Opens fsm e (p ∷ ps) s w =
    let a = open_link-Opens fsm e p s w in
    let b = open_links-Opens fsm e ps (open_link fsm e p s) a.sound in
    record {
      sound = b.sound;
      same_dialer = b.same_dialer ∙ a.same_dialer;
      more_links = omega (arith, a.more_links, b.more_links);
    }

pub length-beyond :
    (ls : List Link) (ps : List Pending)
    → length ls ≤ length ps
    → length ls + length (beyond ls ps) ≡ length ps
unfolding beyond
length-beyond [] ps h = omega arith
length-beyond (l ∷ ls) [] h = absurd (omega arith)
length-beyond (l ∷ ls) (p ∷ ps) h = omega (arith, length-beyond ls ps (omega arith))
