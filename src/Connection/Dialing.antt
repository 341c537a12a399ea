-- ===== src/Connection/Dialing.antt =====
-- How a connection of src/connection/index.js comes about: the transports are tried in turn, and the
-- base connection is then privatized, encrypted and muxed.
use js_libp2p_swarm.Prelude.{
  ℕ, suc, ◌≡◌, refl, Bool, true, false, Option, none, some, List, [], ◌∷◌, ◌++◌, map, if◌then◌else◌,
  arith, ◌∙◌, ap, ◌==◌, length, Bool-cases, inl, inr,
}
use mathlib.Core.List.{append-nil, append_assoc}
use js_libp2p_swarm.Errors.{SwitchError, connection_failed}
use js_libp2p_swarm.Connection.States.{dialing, muxed, disconnect, transition, Trigger, Fsm}
use js_libp2p_swarm.Connection.Machine.{
  Connection, Readings, Effect, emit_error, emit_err, is_disconnecting, init, answer, close,
  perform, perform_from, attempt_failed, dial_transport, add_circuit_address, next_transport,
  emit_connected, emit_private, emit_encrypted, emit_muxed, drop_conn, handshake, select_key,
  select_crypto, encrypt_conn, open_muxer, call_dial,
}
use js_libp2p_swarm.Connection.Inputs.{
  Input, receive, step, run, performs, dials, transport_dialed, crypto_handled, crypto_selected,
  crypto_done, upgrade_handled, muxer_selected, failed, ok,
}

-- What a dial of one transport does.
abbrev pub tries : Readings → ℕ → List Effect
tries r key =
    if key == r.circuit_tag
    then add_circuit_address key ∷ dial_transport key ∷ []
    else dial_transport key ∷ []

-- The failures, each with the transport that is tried next.
abbrev pub attempts : Readings → List ℕ → List SwitchError → List Effect
attempts r keys [] = []
attempts r [] (e ∷ es) = attempt_failed e ∷ []
attempts r (key ∷ keys) (e ∷ es) = attempt_failed e ∷ tries r key ++ attempts r keys es

abbrev pub failures : Readings → List SwitchError → List (Readings × Input)
failures r es = map (λ e. (r, transport_dialed (failed e))) es

-- What `close(CONNECTION_FAILED)` reports, where the error has a listener.
abbrev pub reported : Readings → List Effect
reported r = if r.has_error_listener then emit_error connection_failed ∷ [] else []

close_failed :
    (r : Readings) (k : Connection)
    → is_disconnecting k.state ≡ false
    → close r (some connection_failed) k
      ≡ record k { requests = k.requests ++ disconnect ∷ []; log = k.log ++ reported r }
unfolding close emit_err
close_failed r k h = elim (Bool-cases r.has_error_listener) [
  | inl y ↦ ground arith
  | inr n ↦ ground (arith, append-nil k.log)
]

-- The transports fail up to the close.
run-failures-close :
    (fsm : Fsm) (r : Readings) (keys : List ℕ) (es : List SwitchError) (k : Connection)
    → length es ≡ suc (length keys)
    → run fsm (failures r es) (record k { t_keys = keys })
      ≡ some (
          close r
            (some connection_failed)
            (record k { t_keys = []; log = k.log ++ attempts r keys es }))
unfolding run step receive next_transport
run-failures-close fsm r [] (e ∷ []) k h = refl
run-failures-close fsm r [] [] k h = absurd (omega arith)
run-failures-close fsm r [] (e ∷ f ∷ es) k h = absurd (omega arith)
run-failures-close fsm r (key ∷ keys) [] k h = absurd (omega arith)
run-failures-close fsm r (key ∷ keys) (e ∷ es) k h = elim (Bool-cases (key == r.circuit_tag)) [
  | inl y ↦ simp y (
      run-failures-close fsm r keys es
        (record k {
          log =
              ((k.log ++ attempt_failed e ∷ []) ++ add_circuit_address key ∷ [])
              ++ dial_transport key ∷ [];
        })
        (omega arith)
      ∙ simp append_assoc)
  | inr n ↦ simp n (
      run-failures-close fsm r keys es
        (record k { log = (k.log ++ attempt_failed e ∷ []) ++ dial_transport key ∷ [] })
        (omega arith)
      ∙ simp append_assoc)
]

-- If every transport fails while the connection is not yet disconnecting, each of those that are
-- left is tried once, in order, the circuit's with its address added first, and then the error
-- `CONNECTION_FAILED` is emitted, where it has a listener, and `disconnect` is asked of fsm-event.
-- The first failure is that of the transport that was tried before.
pub run-failures :
    (fsm : Fsm) (r : Readings) (keys : List ℕ) (es : List SwitchError) (k : Connection)
    → length es ≡ suc (length keys)
    → is_disconnecting k.state ≡ false
    → run fsm (failures r es) (record k { t_keys = keys })
      ≡ some (record k {
        t_keys = [];
        requests = k.requests ++ disconnect ∷ [];
        log = (k.log ++ attempts r keys es) ++ reported r;
      })
run-failures fsm r keys es k h d =
    run-failures-close fsm r keys es k h
    ∙ ap some (close_failed r (record k { t_keys = []; log = k.log ++ attempts r keys es }) d)

-- fsm-event over the table itself.
abbrev pub table : Fsm
table = record { fire = transition; follows = λ s t. refl }

answer-table :
    (fsm : Fsm) (r : Readings) (t : Trigger) (k : Connection)
    → answer fsm r t k ≡ answer table r t k
unfolding answer
answer-table fsm r t k = rw (fsm.follows k.state t, answer)

perform_from-table :
    (fsm : Fsm) (r : Readings) (ts : List Trigger) (k : Connection)
    → perform_from fsm r ts k ≡ perform_from table r ts k
unfolding perform_from
perform_from-table fsm r [] k = refl
perform_from-table fsm r (t ∷ ts) k = answer-table fsm r t (record k { requests = ts })

step-table :
    (fsm : Fsm) (r : Readings) (i : Input) (k : Connection) → step fsm r i k ≡ step table r i k
unfolding step perform
step-table fsm r performs k = perform_from-table fsm r k.requests k
step-table fsm r i k = refl

-- Every fsm-event runs a connection as the table does.
run-table :
    (fsm : Fsm) (history : List (Readings × Input)) (k : Connection)
    → run fsm history k ≡ run table history k
unfolding run
run-table fsm [] k = refl
run-table fsm ((r, i) ∷ rest) k =
    ap (λ o. elim o [ none ↦ none | some k' ↦ run fsm rest k' ]) (step-table fsm r i k)
    ∙ goes_on (step table r i k) (run-table fsm rest)
  where
    goes_on :
        (o : Option Connection)
        → ((k' : Connection) → run fsm rest k' ≡ run table rest k')
        → (let next : Option Connection = elim o [ none ↦ none | some k' ↦ run fsm rest k' ] in
            next)
          ≡ elim o [ none ↦ none | some k' ↦ run table rest k' ]
    goes_on none ih = refl
    goes_on (some k') ih = ih k'

-- A second history after the first, unless that threw.
unfoldable continue : Fsm → List (Readings × Input) → Option Connection → Option Connection
continue fsm rest none = none
continue fsm rest (some k) = run fsm rest k

run-append :
    (fsm : Fsm) (first rest : List (Readings × Input)) (k : Connection)
    → run fsm (first ++ rest) k ≡ continue fsm rest (run fsm first k)
unfolding run continue
run-append fsm [] rest k = refl
run-append fsm ((r, i) ∷ first) rest k = after (step fsm r i k) (run-append fsm first rest)
  where
    after :
        (o : Option Connection)
        → ((k' : Connection) → run fsm (first ++ rest) k' ≡ continue fsm rest (run fsm first k'))
        → (let all : Option Connection = elim o [
          | none ↦ none
          | some k' ↦ run fsm (first ++ rest) k'
        ] in
            all)
          ≡ continue fsm rest (elim o [ none ↦ none | some k' ↦ run fsm first k' ])
    after none ih = refl
    after (some k') ih = ih k'

-- The switch of a connection that comes about: another peer's, with at least one transport and one
-- muxer, no circuit, no protector and no identify.
abbrev pub plain_readings : ℕ → List ℕ → ℕ → List ℕ → ℕ → Bool → Readings
plain_readings key keys mux muxs tag listened = record {
  is_self = false;
  has_transports = true;
  available = key ∷ keys;
  circuit_tag = tag;
  circuit_enabled = false;
  protector = none;
  muxer_keys = mux ∷ muxs;
  identify = false;
  has_error_listener = listened;
}

-- The inputs of a dial in which everything succeeds at once.
abbrev pub success : Readings → ℕ → ℕ → ℕ → ℕ → ℕ → List (Readings × Input)
success r base selected secret muxed_conn muxer =
    map (λ i. (r, i))
      (dials
        ∷ performs
        ∷ transport_dialed (ok base)
        ∷ performs
        ∷ performs
        ∷ performs
        ∷ performs
        ∷ crypto_handled none
        ∷ crypto_selected (ok selected)
        ∷ crypto_done (ok secret)
        ∷ performs
        ∷ performs
        ∷ upgrade_handled none
        ∷ muxer_selected muxed_conn muxer
        ∷ performs
        ∷ [])

-- The connection when the first transport was asked.
abbrev asked : List ℕ → List Effect → Connection
asked keys log = record {
  state = dialing;
  conn = none;
  muxer = none;
  t_keys = keys;
  muxers = [];
  on_connected = true;
  on_private = true;
  on_encrypted = true;
  requests = [];
  log = log;
}

module _ (key : ℕ) (keys : List ℕ) (mux : ℕ) (muxs : List ℕ) (tag : ℕ) (listened : Bool) where
  abbrev readings : Readings
  readings = plain_readings key keys mux muxs tag listened

  ask : Option Connection
  ask = run table ((readings, dials) ∷ (readings, performs) ∷ []) init

  first_stage : ask ≡ some (asked keys (tries readings key))
  unfolding ask init run step perform transition call_dial next_transport
  first_stage = elim (Bool-cases (key == tag)) [ inl y ↦ ground arith | inr n ↦ ground arith ]

  -- The inputs behind the first two.
  abbrev later : ℕ → ℕ → ℕ → ℕ → ℕ → List (Readings × Input)
  later base selected secret muxed_conn muxer =
      map (λ i. (readings, i))
        (transport_dialed (ok base)
          ∷ performs
          ∷ performs
          ∷ performs
          ∷ performs
          ∷ crypto_handled none
          ∷ crypto_selected (ok selected)
          ∷ crypto_done (ok secret)
          ∷ performs
          ∷ performs
          ∷ upgrade_handled none
          ∷ muxer_selected muxed_conn muxer
          ∷ performs
          ∷ [])

  second_stage :
      (base selected secret muxed_conn muxer : ℕ) (log : List Effect)
      → run table (later base selected secret muxed_conn muxer) (asked keys log)
        ≡ some (record {
          state = muxed;
          conn = some secret;
          muxer = some muxer;
          t_keys = keys;
          muxers = muxs;
          on_connected = false;
          on_private = false;
          on_encrypted = false;
          requests = [];
          log =
              log
              ++ emit_connected
                ∷ emit_private
                ∷ handshake base
                ∷ select_crypto
                ∷ encrypt_conn selected
                ∷ emit_encrypted
                ∷ handshake secret
                ∷ select_key mux
                ∷ open_muxer muxed_conn
                ∷ drop_conn
                ∷ emit_muxed
                ∷ [];
        })
  unfolding run step perform transition
  second_stage base selected secret muxed_conn muxer log = simp append_assoc

-- A dial in which everything succeeds at once, of another peer, with neither circuit, protector
-- nor identify and with at least one transport and one muxer: the connection is dialed by the
-- first transport, and then privatized, encrypted and muxed. It becomes `MUXED` over the encrypted
-- connection, and every stage is reported before the next begins.
pub run-success :
    (fsm : Fsm) (key : ℕ) (keys : List ℕ) (mux : ℕ) (muxs : List ℕ) (tag : ℕ) (listened : Bool)
    (base selected secret muxed_conn muxer : ℕ)
    → let r = plain_readings key keys mux muxs tag listened in
      run fsm (success r base selected secret muxed_conn muxer) init
      ≡ some (record {
        state = muxed;
        conn = some secret;
        muxer = some muxer;
        t_keys = keys;
        muxers = muxs;
        on_connected = false;
        on_private = false;
        on_encrypted = false;
        requests = [];
        log =
            tries r key
            ++ emit_connected
              ∷ emit_private
              ∷ handshake base
              ∷ select_crypto
              ∷ encrypt_conn selected
              ∷ emit_encrypted
              ∷ handshake secret
              ∷ select_key mux
              ∷ open_muxer muxed_conn
              ∷ drop_conn
              ∷ emit_muxed
              ∷ [];
      })
unfolding ask continue
run-success fsm key keys mux muxs tag listened base selected secret muxed_conn muxer =
    let r = plain_readings key keys mux muxs tag listened in
    run-table fsm (success r base selected secret muxed_conn muxer) init
    ∙ run-append table ((r, dials) ∷ (r, performs) ∷ [])
        (later key keys mux muxs tag listened base selected secret muxed_conn muxer) init
    ∙ ap
        (continue table
          (later key keys mux muxs tag listened base selected secret muxed_conn muxer))
        (first_stage key keys mux muxs tag listened)
    ∙ second_stage key keys mux muxs tag listened base selected secret muxed_conn muxer
        (tries r key)
