-- ===== src/Connection/Unreachable.antt =====
-- The states `ABORTED` and `ERRORED` of src/connection/index.js, whose handlers the source does not
-- define, are never entered.
use js_libp2p_swarm.Prelude.{
  ℕ, ◌≡◌, refl, Bool, true, false, ◌&&◌, Option, none, some, List, [], ◌∷◌, ◌++◌, arith,
  Option-cases, inl, inr, ◌∙◌, sym,
}
use js_libp2p_swarm.Errors.{
  SwitchError, connection_failed, no_transports_registered, maybe_unexpected_end,
}
use js_libp2p_swarm.Connection.States.{
  State, Trigger, dial, disconnect, done, abort, error, encrypt, privatize, upgrade, stop,
  disconnected, dialing, dialed, privatizing, privatized, encrypting, encrypted, upgrading, muxed,
  connected, disconnecting, aborted, errored, transition, Fsm,
}
use js_libp2p_swarm.Connection.Machine.{
  attempt_failed, on_dialing, with_circuit, Connection, Readings, init, request, write, emit_err,
  close, call_dial, next_transport, enter, answer, perform, perform_from,
}
use js_libp2p_swarm.Connection.Inputs.{
  failed, ok, performs, dials, protects, encrypts, upgrades, closes, transport_dialed, protected,
  crypto_handled, crypto_selected, crypto_done, upgrade_handled, muxer_refused, muxer_selected,
  muxer_closed, muxer_ended, identified, Input, receive, step, run,
}

abbrev pub is_live : State → Bool
is_live aborted = false
is_live errored = false
is_live _ = true

abbrev is_asked : Trigger → Bool
is_asked abort = false
is_asked error = false
is_asked _ = true

abbrev all_asked : List Trigger → Bool
all_asked [] = true
all_asked (t ∷ ts) = is_asked t && all_asked ts

record IsLive (k : Connection) : Type 0 where
  live : is_live k.state ≡ true
  asked : all_asked k.requests ≡ true

all_asked-append :
    (ts : List Trigger) (t : Trigger)
    → all_asked ts ≡ true
    → is_asked t ≡ true
    → all_asked (ts ++ t ∷ []) ≡ true
all_asked-append [] t h a = ground arith
all_asked-append (u ∷ ts) t h a = ground (arith, all_asked-append ts t)

-- Without the two triggers the table never leads to the two states.
transition-is_live :
    (s : State) (t : Trigger) (s' : State)
    → is_asked t ≡ true
    → transition s t ≡ some s'
    → is_live s' ≡ true
unfolding transition
transition-is_live s t s' a h = ground arith

-- There was no exception, and the connection is live.
abbrev Lives : Option Connection → Type 0
Lives none = ⊥
Lives (some k) = IsLive k

close-IsLive :
    (r : Readings) (e : Option SwitchError) (k : Connection) → IsLive k → IsLive (close r e k)
unfolding close emit_err
close-IsLive r e k v = ground (arith, all_asked-append k.requests disconnect)

call_dial-IsLive : (r : Readings) (k : Connection) → IsLive k → IsLive (call_dial r k)
unfolding call_dial emit_err
call_dial-IsLive r k v = ground (arith, all_asked-append k.requests dial)

next_transport-IsLive :
    (r : Readings) (keys : List ℕ) (k : Connection) → IsLive k → IsLive (next_transport r keys k)
unfolding next_transport
next_transport-IsLive r [] k v =
    close-IsLive r (some connection_failed) (record k { t_keys = [] }) (ground arith)
next_transport-IsLive r (key ∷ rest) k v = ground arith

request-IsLive :
    (t : Trigger) (k : Connection) → is_asked t ≡ true → IsLive k → IsLive (request t k)
request-IsLive t k a v = ground (arith, all_asked-append k.requests t)

receive-IsLive : (r : Readings) (i : Input) (k : Connection) → IsLive k → IsLive (receive r i k)
unfolding receive
receive-IsLive r performs k v = v
receive-IsLive r dials k v = call_dial-IsLive r k v
receive-IsLive r protects k v = request-IsLive privatize k refl v
receive-IsLive r encrypts k v = request-IsLive encrypt k refl v
receive-IsLive r upgrades k v = request-IsLive upgrade k refl v
receive-IsLive r (closes e) k v = close-IsLive r e k v
receive-IsLive r (transport_dialed (failed e)) k v =
    next_transport-IsLive r k.t_keys (write (attempt_failed e) k) (ground arith)
receive-IsLive r (transport_dialed (ok n)) k v = request-IsLive done _ refl (ground arith)
receive-IsLive r (protected (some e)) k v = close-IsLive r (some e) k v
receive-IsLive r (protected none) k v = request-IsLive done k refl v
receive-IsLive r (crypto_handled (some e)) k v = close-IsLive r (some (maybe_unexpected_end e)) k v
receive-IsLive r (crypto_handled none) k v = ground arith
receive-IsLive r (crypto_selected (failed e)) k v =
    close-IsLive r (some (maybe_unexpected_end e)) k v
receive-IsLive r (crypto_selected (ok n)) k v = ground arith
receive-IsLive r (crypto_done (failed e)) k v = close-IsLive r (some e) k v
receive-IsLive r (crypto_done (ok n)) k v = request-IsLive done _ refl (ground arith)
receive-IsLive r (upgrade_handled (some e)) k v = ground (arith, all_asked-append k.requests stop)
receive-IsLive r (upgrade_handled none) k v = ground arith
receive-IsLive r (muxer_refused e) k v = ground (arith, all_asked-append k.requests stop)
receive-IsLive r (muxer_selected n m) k v = ground (arith, all_asked-append k.requests done)
receive-IsLive r muxer_closed k v = close-IsLive r none k v
receive-IsLive r muxer_ended k v = request-IsLive done _ refl (ground arith)
receive-IsLive r (identified (failed e)) k v = close-IsLive r (some e) k v
receive-IsLive r (identified (ok n)) k v = ground arith

on_dialing-IsLive : (r : Readings) (k : Connection) → IsLive k → IsLive (on_dialing r k)
unfolding on_dialing
on_dialing-IsLive r k v = ground (
  arith,
  next_transport-IsLive r (with_circuit r) k v,
  close-IsLive r (some no_transports_registered) k v,
)

enter-Lives :
    (r : Readings) (s : State) (k : Connection)
    → is_live s ≡ true
    → k.state ≡ s
    → all_asked k.requests ≡ true
    → Lives (enter r s k)
unfolding enter
enter-Lives r dialing k h e a = on_dialing-IsLive r k (ground arith)
enter-Lives r dialed k h e a = ground (arith, all_asked-append k.requests privatize)
enter-Lives r privatizing k h e a = ground (arith, all_asked-append k.requests done)
enter-Lives r privatized k h e a = ground (arith, all_asked-append k.requests encrypt)
enter-Lives r encrypting k h e a = ground arith
enter-Lives r encrypted k h e a = ground (arith, all_asked-append k.requests upgrade)
enter-Lives r upgrading k h e a = ground (arith, all_asked-append k.requests stop)
enter-Lives r muxed k h e a = ground arith
enter-Lives r connected k h e a = ground arith
enter-Lives r disconnecting k h e a = ground (arith, all_asked-append k.requests done)
enter-Lives r disconnected k h e a = ground arith
enter-Lives r aborted k h e a = cc
enter-Lives r errored k h e a = cc

answer-Lives :
    (fsm : Fsm) (r : Readings) (t : Trigger) (k : Connection)
    → is_asked t ≡ true
    → IsLive k
    → Lives (answer fsm r t k)
unfolding answer emit_err
answer-Lives fsm r t k a v = elim (Option-cases (fsm.fire k.state t)) [
  | inl e ↦ rw (e, answer) (ground arith)
  | inr (s, e) ↦
      rw (e, answer)
        (enter-Lives r s (record k { state = s })
          (transition-is_live k.state t s a (sym (fsm.follows k.state t) ∙ e)) refl v.asked)
]

perform_from-Lives :
    (fsm : Fsm) (r : Readings) (ts : List Trigger) (k : Connection)
    → k.requests ≡ ts
    → IsLive k
    → Lives (perform_from fsm r ts k)
unfolding perform_from
perform_from-Lives fsm r [] k e v = v
perform_from-Lives fsm r (t ∷ ts) k e v =
    answer-Lives fsm r t (record k { requests = ts }) (ground (arith, v.asked)) (ground arith)

step-Lives :
    (fsm : Fsm) (r : Readings) (i : Input) (k : Connection) → IsLive k → Lives (step fsm r i k)
unfolding step perform
step-Lives fsm r performs k v = perform_from-Lives fsm r k.requests k refl v
step-Lives fsm r i k v = receive-IsLive r i k v

run-Lives :
    (fsm : Fsm) (history : List (Readings × Input)) (k : Connection)
    → IsLive k
    → Lives (run fsm history k)
unfolding run
run-Lives fsm [] k v = v
run-Lives fsm ((r, i) ∷ rest) k v =
    go (step fsm r i k) (step-Lives fsm r i k v) (run-Lives fsm rest)
  where
    go :
        (o : Option Connection)
        → Lives o
        → ((k' : Connection) → IsLive k' → Lives (run fsm rest k'))
        → Lives (elim o [ none ↦ none | some k' ↦ run fsm rest k' ])
    go (some k') w ih = ih k' w
    go none w ih = w

Lives-some :
    (o : Option Connection) → Lives o → (k : Connection) × (o ≡ some k) × (is_live k.state ≡ true)
Lives-some (some k) v = (k, refl, v.live)
Lives-some none v = absurd v

-- Whatever is called and answered, in any order, a connection never throws for a missing handler:
-- it is never in `ABORTED` or `ERRORED`.
pub run-is_live :
    (fsm : Fsm) (history : List (Readings × Input))
    → (k : Connection) × (run fsm history init ≡ some k) × (is_live k.state ≡ true)
run-is_live fsm history =
    Lives-some (run fsm history init)
      (run-Lives fsm history init (unfold init in record { live = refl; asked = refl }))
