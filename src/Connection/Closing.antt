-- ===== src/Connection/Closing.antt =====
-- How a connection of src/connection/index.js is closed, from each of its states, and what the
-- callbacks that come late do.
use js_libp2p_swarm.Prelude.{
  ℕ, ◌≡◌, refl, Bool, true, false, Option, none, some, List, [], ◌∷◌, ◌++◌, arith, ◌∙◌, ap,
}
use mathlib.Core.List.{append_assoc}
use js_libp2p_swarm.Connection.States.{
  State, disconnected, dialing, privatizing, encrypting, encrypted, upgrading, muxed, connected,
  disconnecting, errored, Trigger, disconnect, done, transition, Fsm,
}
use js_libp2p_swarm.Connection.Machine.{
  Connection, Readings, Effect, close, enter, answer, perform, drop_conn, end_muxer, abort_conn,
  untrack, emit_close, remove_listeners,
}
use js_libp2p_swarm.Connection.Inputs.{
  Input, receive, step, run, closes, performs, muxer_ended, transport_dialed, ok,
}

-- The states that the table can leave by `disconnect`, and that have something to close.
abbrev pub is_open : State → Bool
is_open dialing = true
is_open privatizing = true
is_open encrypting = true
is_open encrypted = true
is_open upgrading = true
is_open muxed = true
is_open connected = true
is_open errored = true
is_open _ = false

-- fsm-event answers as the table says.
answer-some :
    (fsm : Fsm) (r : Readings) (t : Trigger) (k : Connection) (s : State)
    → transition k.state t ≡ some s
    → answer fsm r t k ≡ enter r s (record k { state = s })
unfolding answer
answer-some fsm r t k s e = rw (fsm.follows k.state t ∙ e, answer)

-- The packages' own parts of a close: the base connection is aborted, the muxer ended.
abbrev pub ended : Connection → List Effect
ended k =
    drop_conn ∷ (elim k.conn [ none ↦ [] | some n ↦ abort_conn n ∷ [] ])
    ++ (elim k.muxer [ none ↦ [] | some m ↦ end_muxer m ∷ [] ])

abbrev pub torn_down : Connection → Connection
torn_down k = record k {
  state = disconnected;
  conn = none;
  muxer = none;
  on_connected = false;
  on_private = false;
  on_encrypted = false;
  requests = [];
  log = k.log ++ (ended k ++ untrack ∷ emit_close ∷ remove_listeners ∷ []);
}

-- `close()`, the answer to it, the end of the muxer if there is one, and the answer to that.
abbrev pub close_history : Readings → Connection → List (Readings × Input)
close_history r k =
    (r, closes none)
    ∷ (r, performs)
    ∷ (elim k.muxer [ none ↦ (r, performs) ∷ [] | some m ↦ (r, muxer_ended) ∷ (r, performs) ∷ [] ])

-- A connection with no open request.
abbrev pub calm : Connection → Connection
calm k = record k { requests = [] }

transition-disconnect :
    (s : State) → is_open s ≡ true → transition s disconnect ≡ some disconnecting
unfolding transition
transition-disconnect s o = ground arith

close-calm :
    (r : Readings) (k : Connection)
    → is_open k.state ≡ true
    → close r none (calm k) ≡ record k { requests = disconnect ∷ [] }
unfolding close
close-calm r k o = ground arith

-- The answer to `close()`.
first_answer :
    (fsm : Fsm) (r : Readings) (k : Connection)
    → is_open k.state ≡ true
    → perform fsm r (record k { requests = disconnect ∷ [] })
      ≡ enter r disconnecting (record (calm k) { state = disconnecting })
unfolding perform
first_answer fsm r k o =
    answer-some fsm r disconnect (calm k) disconnecting (transition-disconnect k.state o)

last_answer :
    (fsm : Fsm) (r : Readings) (k : Connection)
    → perform fsm r (record k { state = disconnecting; requests = done ∷ [] })
      ≡ enter r disconnected (record (calm k) { state = disconnected })
unfolding perform
last_answer fsm r k =
    answer-some fsm r done (record (calm k) { state = disconnecting }) disconnected
      (unfold transition in refl)

-- A history goes on from the outcome of a step.
abbrev resume : Fsm → List (Readings × Input) → Option Connection → Option Connection
resume fsm rest o = elim o [ none ↦ none | some k ↦ run fsm rest k ]

-- The connection and its history with the two packages' values named.
abbrev holding : Connection → Option ℕ → Option ℕ → Connection
holding k conn muxer = record k { conn = conn; muxer = muxer }

closes_as :
    (fsm : Fsm) (r : Readings) (k : Connection) (conn muxer : Option ℕ)
    → is_open k.state ≡ true
    → run fsm (close_history r (holding k conn muxer)) (calm (holding k conn muxer))
      ≡ some (torn_down (holding k conn muxer))
unfolding run step receive enter
closes_as fsm r k none none o =
    let h = holding k none none in
    let l = k.log ++ drop_conn ∷ [] in
    let again = (r, performs) ∷ [] in
    ap (λ y. resume fsm ((r, performs) ∷ again) (some y)) (close-calm r h o)
    ∙ ap (resume fsm again) (first_answer fsm r h o)
    ∙ ap (resume fsm []) (last_answer fsm r (record (holding k none none) { log = l }))
    ∙ simp append_assoc
closes_as fsm r k none (some x) o =
    let h = holding k none (some x) in
    let l = (k.log ++ drop_conn ∷ []) ++ end_muxer x ∷ [] in
    let again = (r, muxer_ended) ∷ (r, performs) ∷ [] in
    ap (λ y. resume fsm ((r, performs) ∷ again) (some y)) (close-calm r h o)
    ∙ ap (resume fsm again) (first_answer fsm r h o)
    ∙ ap (resume fsm []) (last_answer fsm r (record (holding k none none) { log = l }))
    ∙ simp append_assoc
closes_as fsm r k (some n) none o =
    let h = holding k (some n) none in
    let l = (k.log ++ drop_conn ∷ []) ++ abort_conn n ∷ [] in
    let again = (r, performs) ∷ [] in
    ap (λ y. resume fsm ((r, performs) ∷ again) (some y)) (close-calm r h o)
    ∙ ap (resume fsm again) (first_answer fsm r h o)
    ∙ ap (resume fsm []) (last_answer fsm r (record (holding k none none) { log = l }))
    ∙ simp append_assoc
closes_as fsm r k (some n) (some x) o =
    let h = holding k (some n) (some x) in
    let l = ((k.log ++ drop_conn ∷ []) ++ abort_conn n ∷ []) ++ end_muxer x ∷ [] in
    let again = (r, muxer_ended) ∷ (r, performs) ∷ [] in
    ap (λ y. resume fsm ((r, performs) ∷ again) (some y)) (close-calm r h o)
    ∙ ap (resume fsm again) (first_answer fsm r h o)
    ∙ ap (resume fsm []) (last_answer fsm r (record (holding k none none) { log = l }))
    ∙ simp append_assoc

-- From any open state with no request pending, `close()` without an error drops the connection
-- from those that are held, aborts the base connection, ends the muxer, stops tracking it and
-- reports the close once, in this order, and leaves it disconnected with neither connection nor
-- muxer.
pub run-close_history :
    (fsm : Fsm) (r : Readings) (k : Connection)
    → is_open k.state ≡ true
    → run fsm (close_history r k) (calm k) ≡ some (torn_down k)
run-close_history fsm r k o = closes_as fsm r k k.conn k.muxer o

-- A transport that connects when the connection is closed already, with no request pending: its
-- connection is kept and not aborted, and the close is reported once more.
pub run-late_dial :
    (fsm : Fsm) (r : Readings) (k : Connection) (n : ℕ)
    → k.state ≡ disconnected
    → run fsm ((r, transport_dialed (ok n)) ∷ (r, performs) ∷ []) (calm k)
      ≡ some (record k {
        conn = some n;
        on_connected = false;
        on_private = false;
        on_encrypted = false;
        requests = [];
        log = k.log ++ untrack ∷ emit_close ∷ remove_listeners ∷ [];
      })
unfolding run step receive perform enter
run-late_dial fsm r k n s =
    ap (resume fsm [])
      (answer-some fsm r done (record (calm k) { conn = some n }) disconnected (row k.state s))
    ∙ ground arith
  where
    row : (x : State) → x ≡ disconnected → transition x done ≡ some disconnected
    row x h = unfold transition in ground arith
