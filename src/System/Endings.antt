-- ===== src/System/Endings.antt =====
-- src/connection/index.js and src/connection/base.js: which events a connection emits in a step.
use js_libp2p_swarm.Prelude.{
  ℕ, ◌≡◌, ◌∙◌, refl, Bool, true, false, ◌&&◌, ◌||◌, inl, inr, none, some, List, [], ◌∷◌, ◌++◌, map,
  arith, ◌==◌, if◌then◌else◌, Option-cases, Bool-cases, sym, ap, subst,
}
use js_libp2p_swarm.Connection.States.{State, Trigger, Fsm, muxed, connected}
use js_libp2p_swarm.Connection.Machine.{
  Connection, Readings, Effect, emit_close, emit_muxed, emit_unmuxed, remove_listeners, enter,
  answer, perform, perform_from, emit_err, close, call_dial, next_transport, on_dialing,
}
use js_libp2p_swarm.Connection.Inputs.{Input, receive, step, performs}

-- The events after which the dialer's queue goes on.
pub data Ending : Type 0 where
  by_close by_muxed by_unmuxed : Ending

abbrev pub ends : Ending → Effect → Bool
ends by_close emit_close = true
ends by_muxed emit_muxed = true
ends by_unmuxed emit_unmuxed = true
ends _ _ = false

abbrev pub emitted : Ending → List Effect → Bool
emitted v [] = false
emitted v (x ∷ xs) = ends v x || emitted v xs

-- Whether such an event of the connection at `k` is still to be heard.
abbrev pub inboxed : Ending → ℕ → List (ℕ × Effect) → Bool
inboxed v k [] = false
inboxed v k ((j, x) ∷ rest) = ((j == k) && ends v x) || inboxed v k rest

abbrev pub is_removal : Effect → Bool
is_removal remove_listeners = true
is_removal _ = false

-- Whether the listeners are removed before a close.
abbrev pub early : List Effect → Bool
early [] = false
early (x ∷ xs) = if ends by_close x then false else if is_removal x then true else early xs

abbrev pub early_at : ℕ → List (ℕ × Effect) → Bool
early_at k [] = false
early_at k ((j, x) ∷ rest) =
    if j == k
    then if ends by_close x then false else if is_removal x then true else early_at k rest
    else early_at k rest

pub emitted-append :
    (v : Ending) (xs ys : List Effect) → emitted v (xs ++ ys) ≡ (emitted v xs || emitted v ys)
emitted-append v [] ys = refl
emitted-append v (x ∷ xs) ys = ground (arith, emitted-append v xs ys)

or_and : (a e f b : Bool) → ((a && e) || ((a && f) || b)) ≡ ((a && (e || f)) || b)
or_and a e f b = ground arith

pub inboxed-append :
    (v : Ending) (k j : ℕ) (es : List Effect) (b : List (ℕ × Effect))
    → inboxed v k (map (λ x. (j, x)) es ++ b) ≡ (((j == k) && emitted v es) || inboxed v k b)
inboxed-append v k j [] b = ground arith
inboxed-append v k j (x ∷ es) b =
    ap (λ z. ((j == k) && ends v x) || z) (inboxed-append v k j es b)
    ∙ or_and (j == k) (ends v x) (emitted v es) (inboxed v k b)

-- Neither a close nor a removal stands first in either list.
neither_first :
    (c r e f : Bool)
    → (if c then false else if r then true else e) ≡ false
    → (if c then false else if r then true else f) ≡ true
    → (e ≡ false) × (f ≡ true)
neither_first c r e f t h = ground arith

then_branch : (b x y : Bool) → b ≡ true → (if b then x else y) ≡ x
then_branch b x y h = ground arith

else_branch : (b x y : Bool) → b ≡ false → (if b then x else y) ≡ y
else_branch b x y h = ground arith

-- The events of another connection.
early_at-other :
    (k j : ℕ) (es : List Effect) (b : List (ℕ × Effect))
    → (j == k) ≡ false
    → early_at k (map (λ x. (j, x)) es ++ b) ≡ early_at k b
early_at-other k j [] b far = refl
early_at-other k j (x ∷ es) b far = else_branch (j == k) _ _ far ∙ early_at-other k j es b far

early_at-same :
    (k j : ℕ) (es : List Effect) (b : List (ℕ × Effect))
    → (j == k) ≡ true
    → early es ≡ false
    → early_at k (map (λ x. (j, x)) es ++ b) ≡ true
    → early_at k b ≡ true
early_at-same k j [] b here t h = h
early_at-same k j (x ∷ es) b here t h =
    let all = map (λ y. (j, y)) es ++ b in
    let (t', h') =
      neither_first (ends by_close x) (is_removal x) (early es) (early_at k all) t
        (sym (then_branch (j == k) _ _ here) ∙ h) in
    early_at-same k j es b here t' h'

-- New events in which the close comes first hide no removal.
pub early_at-append :
    (k j : ℕ) (es : List Effect) (b : List (ℕ × Effect))
    → early es ≡ false
    → early_at k (map (λ x. (j, x)) es ++ b) ≡ true
    → early_at k b ≡ true
early_at-append k j es b t h = elim (Bool-cases (j == k)) [
  | inl here ↦ early_at-same k j es b here t h
  | inr far ↦ sym (early_at-other k j es b far) ∙ h
]

abbrev pub is_muxed : State → Bool
is_muxed muxed = true
is_muxed _ = false

abbrev pub is_connected : State → Bool
is_connected connected = true
is_connected _ = false

-- What a step that starts with an empty log says of its events.
pub record IsTidy (k k' : Connection) : Type 0 where
  pub tidy : early k'.log ≡ false
  pub becomes_muxed :
      is_muxed k'.state ≡ true → (is_muxed k.state || emitted by_muxed k'.log) ≡ true
  pub becomes_connected :
      is_connected k'.state ≡ true → (is_connected k.state || emitted by_unmuxed k'.log) ≡ true

receive-IsTidy : (r : Readings) (i : Input) (k : Connection) → k.log ≡ [] → IsTidy k (receive r i k)
unfolding receive call_dial close emit_err next_transport
receive-IsTidy r i k h = ground arith

enter-IsTidy :
    (r : Readings) (s : State) (k k' : Connection)
    → k.log ≡ []
    → enter r s (record k { state = s }) ≡ some k'
    → IsTidy k k'
unfolding enter on_dialing close emit_err next_transport
enter-IsTidy r s k k' l h = ground arith

perform_from-entered :
    (fsm : Fsm) (r : Readings) (t : Trigger) (ts : List Trigger) (k : Connection) (s : State)
    → fsm.fire k.state t ≡ some s
    → perform_from fsm r (t ∷ ts) k ≡ enter r s (record k { requests = ts; state = s })
unfolding perform_from answer
perform_from-entered fsm r t ts k s e = rw (e, answer) refl

perform_from-IsTidy :
    (fsm : Fsm) (r : Readings) (ts : List Trigger) (k k' : Connection)
    → k.log ≡ []
    → perform_from fsm r ts k ≡ some k'
    → IsTidy k k'
unfolding perform_from answer emit_err
perform_from-IsTidy fsm r [] k k' l h = ground arith
perform_from-IsTidy fsm r (t ∷ ts) k k' l h = elim (Option-cases (fsm.fire k.state t)) [
  | inl e ↦ ground arith
  | inr (s, e) ↦
      let g : enter r s (record k { requests = ts; state = s }) ≡ some k' =
        sym (perform_from-entered fsm r t ts k s e) ∙ h in
      let w = enter-IsTidy r s (record k { requests = ts }) k' l g in
      record {
        tidy = w.tidy;
        becomes_muxed = w.becomes_muxed;
        becomes_connected = w.becomes_connected;
      }
]

from_some : (k a k' : Connection) → IsTidy k a → some a ≡ some k' → IsTidy k k'
from_some k a k' w h = subst (IsTidy k) (ap (λ o. elim o [ none ↦ a | some x ↦ x ]) h) w

pub step-IsTidy :
    (fsm : Fsm) (r : Readings) (i : Input) (k k' : Connection)
    → k.log ≡ []
    → step fsm r i k ≡ some k'
    → IsTidy k k'
unfolding step perform
step-IsTidy fsm r performs k k' l h = perform_from-IsTidy fsm r k.requests k k' l h
step-IsTidy fsm r i k k' l h = from_some k (receive r i k) k' (receive-IsTidy r i k l) h
