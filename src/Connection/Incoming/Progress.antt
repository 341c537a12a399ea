-- ===== src/Connection/Incoming/Progress.antt =====
-- How an incoming connection of src/connection/incoming.js goes on: through its stages in order.
use js_libp2p_swarm.Prelude.{
  ℕ, ◌≡◌, ◌≤◌, refl, Bool, true, false, Option, none, some, List, [], ◌∷◌, ◌++◌, arith, ◌∙◌, sym,
  ap, Option-cases, inl, inr, if◌then◌else◌,
}
use mathlib.Core.List.{append_assoc}
use js_libp2p_swarm.Errors.{SwitchError}
use js_libp2p_swarm.Connection.States.{
  State, disconnected, dialing, dialed, privatizing, privatized, encrypting, encrypted, upgrading,
  muxed, connected, disconnecting, aborted, errored, Trigger,
}
use js_libp2p_swarm.Connection.Incoming.{
  transition_in, IncomingFsm, IncomingConnection, Listening, IncomingInput, emit_error,
  close_incoming, enter_incoming, answer_incoming, step_incoming, run_incoming, resume_incoming,
  take, answered, closed, privacy_done, crypto_begun, crypto_failed, peer_known, handshake_failed,
  error_emitted, untracked, close_emitted, listeners_removed, IncomingEffect,
}

-- The stages in their order.
abbrev pub rank : State → ℕ
rank dialing = 0
rank dialed = 1
rank privatizing = 2
rank privatized = 3
rank encrypting = 4
rank encrypted = 5
rank upgrading = 6
rank muxed = 7
rank connected = 7
rank disconnecting = 8
rank disconnected = 9
rank aborted = 10
rank errored = 10

rank-transition : (s s' : State) (t : Trigger) → transition_in s t ≡ some s' → rank s ≤ rank s'
unfolding transition_in
rank-transition s s' t h = ground arith

state-enter :
    (r : Listening) (s : State) (k : IncomingConnection) → (enter_incoming r s k).state ≡ k.state
unfolding enter_incoming
state-enter r s k = ground arith

-- The stage that is reached, if nothing was thrown.
abbrev pub Reaches : ℕ → Option IncomingConnection → Type 0
Reaches n none = Unit {0}
Reaches n (some k) = n ≤ rank k.state

state-close :
    (e : Option SwitchError) (k : IncomingConnection) → (close_incoming e k).state ≡ k.state
unfolding close_incoming
state-close e k = ground arith

answer-Reaches :
    (fsm : IncomingFsm) (r : Listening) (t : Trigger) (k : IncomingConnection)
    → Reaches (rank k.state) (answer_incoming fsm r t k)
unfolding answer_incoming
answer-Reaches fsm r t k = elim (Option-cases (fsm.fire k.state t)) [
  | inl e ↦ rw (e, answer_incoming) (record {})
  | inr (s, e) ↦
      rw (e, answer_incoming, state-enter r s (record k { state = s }))
        (rank-transition k.state s t (sym (fsm.follows k.state t) ∙ e))
]

step-Reaches :
    (fsm : IncomingFsm) (r : Listening) (i : IncomingInput) (k : IncomingConnection)
    → Reaches (rank k.state) (step_incoming fsm r i k)
unfolding step_incoming
step-Reaches fsm r answered k = taken k.requests
  where
    taken : (ts : List Trigger) → Reaches (rank k.state) (take fsm r ts k)
    taken [] = unfold take in omega arith
    taken (t ∷ ts) = unfold take in answer-Reaches fsm r t (record k { requests = ts })
step-Reaches fsm r (closed e) k = ground (arith, state-close e k)
step-Reaches fsm r (privacy_done (some e)) k = ground (arith, state-close (some e) k)
step-Reaches fsm r (privacy_done none) k = omega arith
step-Reaches fsm r (crypto_begun conn secret) k = omega arith
step-Reaches fsm r (crypto_failed e) k = ground (arith, state-close (some e) k)
step-Reaches fsm r (peer_known p) k = omega arith
step-Reaches fsm r (handshake_failed e) k = omega arith

-- An incoming connection never goes back: whatever is called and answered, in any order, the stage
-- that it has reached in the end is not before the one at the start, if nothing was thrown.
pub run-rank :
    (fsm : IncomingFsm) (history : List (Listening × IncomingInput)) (k k' : IncomingConnection)
    → run_incoming fsm history k ≡ some k'
    → rank k.state ≤ rank k'.state
unfolding run_incoming
run-rank fsm [] k k' h = ground arith
run-rank fsm ((r, i) ∷ rest) k k' h =
    onward (step_incoming fsm r i k) (step-Reaches fsm r i k) (run-rank fsm rest) h
  where
    onward :
        (o : Option IncomingConnection)
        → Reaches (rank k.state) o
        → ((a b : IncomingConnection)
            → run_incoming fsm rest a ≡ some b
            → rank a.state ≤ rank b.state)
        → resume_incoming (run_incoming fsm rest) o ≡ some k'
        → rank k.state ≤ rank k'.state
    onward none w ih e = ground arith
    onward (some a) w ih e = omega (arith, ih a k' e)

-- fsm-event over the table itself.
abbrev pub table_in : IncomingFsm
table_in = record { fire = transition_in; follows = λ s t. refl }

answer-table_in :
    (fsm : IncomingFsm) (r : Listening) (t : Trigger) (k : IncomingConnection)
    → answer_incoming fsm r t k ≡ answer_incoming table_in r t k
unfolding answer_incoming
answer-table_in fsm r t k = rw (fsm.follows k.state t, answer_incoming)

step-table_in :
    (fsm : IncomingFsm) (r : Listening) (i : IncomingInput) (k : IncomingConnection)
    → step_incoming fsm r i k ≡ step_incoming table_in r i k
unfolding step_incoming
step-table_in fsm r answered k = taken k.requests
  where
    taken : (ts : List Trigger) → take fsm r ts k ≡ take table_in r ts k
    taken [] = unfold take in refl
    taken (t ∷ ts) = unfold take in answer-table_in fsm r t (record k { requests = ts })
step-table_in fsm r i k = refl

run-table_in :
    (fsm : IncomingFsm) (history : List (Listening × IncomingInput)) (k : IncomingConnection)
    → run_incoming fsm history k ≡ run_incoming table_in history k
unfolding run_incoming
run-table_in fsm [] k = refl
run-table_in fsm ((r, i) ∷ rest) k =
    ap (resume_incoming (run_incoming fsm rest)) (step-table_in fsm r i k)
    ∙ goes_on (step_incoming table_in r i k) (run-table_in fsm rest)
  where
    goes_on :
        (o : Option IncomingConnection)
        → ((a : IncomingConnection) → run_incoming fsm rest a ≡ run_incoming table_in rest a)
        → resume_incoming (run_incoming fsm rest) o ≡ resume_incoming (run_incoming table_in rest) o
    goes_on none ih = refl
    goes_on (some a) ih = ih a

-- The stages that the table can leave by `disconnect`.
abbrev pub can_close : State → Bool
can_close privatizing = true
can_close encrypting = true
can_close encrypted = true
can_close muxed = true
can_close _ = false

abbrev pub reported : SwitchError → IncomingConnection → List IncomingEffect
reported e k = if k.on_error then error_emitted e ∷ [] else []

abbrev pub end_history : Listening → SwitchError → List (Listening × IncomingInput)
end_history r e = (r, closed (some e)) ∷ (r, answered) ∷ (r, answered) ∷ []

-- Closing an incoming connection with an error, where no request is pending and it is privatizing,
-- encrypting, encrypted or muxed: the error goes to its listener, if that is still there, the
-- connection is no longer tracked and reports the close once. The base connection is neither
-- aborted nor dropped.
pub run-closed :
    (fsm : IncomingFsm) (r : Listening) (e : SwitchError) (k : IncomingConnection)
    → can_close k.state ≡ true
    → run_incoming fsm (end_history r e) (record k { requests = [] })
      ≡ some (record k {
        state = disconnected;
        on_error = false;
        on_private = false;
        on_encrypted = false;
        requests = [];
        log = k.log ++ (reported e k ++ untracked ∷ close_emitted k.conn ∷ listeners_removed ∷ []);
      })
unfolding run_incoming step_incoming take transition_in enter_incoming close_incoming emit_error
run-closed fsm r e k c =
    run-table_in fsm (end_history r e) (record k { requests = [] })
    ∙ ground (
      arith,
      append_assoc k.log (error_emitted e ∷ [])
          (untracked ∷ close_emitted k.conn ∷ listeners_removed ∷ []),
    )
