-- ===== src/Switch/Protocols.antt =====
-- The protocols of the switch: `handle` and `unhandle` of src/index.js, and src/protocol-muxer.js,
-- which answers a stream with them. Names, handlers and match functions are numbers; the empty name
-- is 0. multistream is seen by the calls of `addHandler` and `handle`, and calls a handler later.
pub mod Handled
use js_libp2p_swarm.Prelude.{
  ℕ, ◌∙◌, ap, ◌≡◌, refl, Bool, true, false, not, ◌&&◌, Option, none, some, List, [], ◌∷◌, arith,
  ◌==◌, if◌then◌else◌, has, insert, delete, has-insert, has-delete, distinct, distinct-insert,
  distinct-delete, lookup, put, erase, keys, lookup-put, lookup-erase, distinct-keys-put,
  distinct-keys-erase, Option-cases, inl, inr, ==→≡, Bool-cases,
}

pub record Protocol : Type 0 where
  pub handler_func : Option ℕ
  pub match_func : Option ℕ

pub record Protocols : Type 0 where
  -- `switch.protocols`
  pub protocols : List (ℕ × Protocol)
  -- `_peerInfo.protocols`, a set
  pub advertised : List ℕ

unfoldable pub handle : ℕ → Option ℕ → Option ℕ → Protocols → Protocols
handle name handler_func match_func s = record {
  protocols =
      put name (record { handler_func = handler_func; match_func = match_func }) s.protocols;
  advertised = insert name s.advertised;
}

-- The test before the deletion makes no difference to it.
unhandle : ℕ → Protocols → Protocols
unhandle name s = record {
  protocols = elim (lookup name s.protocols) [
    | none ↦ s.protocols
    | some p ↦ erase name s.protocols
  ];
  advertised = delete name s.advertised;
}

-- `ms.addHandler(protocol, handler, matchFunc)` for each protocol that has a name.
pub add_handlers : List (ℕ × Protocol) → List (ℕ × Option ℕ)
add_handlers [] = []
add_handlers ((name, p) ∷ rest) =
    if name == 0 then add_handlers rest else (name, p.match_func) ∷ add_handlers rest

-- Whether `protocolMuxer` observes the transport: only where there is one and no listener is given.
unfoldable observes_transport : Option ℕ → (given : Bool) → Bool
observes_transport transport given = elim transport [ none ↦ false | some t ↦ not given ]

-- The handler, when a stream was negotiated: the function that is called, with the name of the
-- protocol that the stream is observed with. The protocols are those of that moment.
on_stream : ℕ → List (ℕ × Protocol) → Option (ℕ × ℕ)
on_stream name protocols = elim (lookup name protocols) [
  | none ↦ none
  | some p ↦ elim p.handler_func [ none ↦ none | some f ↦ some (f, name) ]
]

-- What multistream makes of the registered names with their match functions and of the name that
-- the other side asks for: the name that it calls a handler with, if it calls one. All handlers are
-- one function of that name.
abbrev pub Negotiation : Type 0
Negotiation = List (ℕ × Option ℕ) → ℕ → Option ℕ

-- A stream for a name that is asked for, with the handlers of an earlier moment.
pub serve : Negotiation → List (ℕ × Protocol) → ℕ → List (ℕ × Protocol) → Option (ℕ × ℕ)
unfolding add_handlers on_stream
serve negotiate registered asked protocols = elim (negotiate (add_handlers registered) asked) [
  | none ↦ none
  | some name ↦ on_stream name protocols
]

pub data Call : Type 0 where
  handles : (name : ℕ) → (handler_func : Option ℕ) → (match_func : Option ℕ) → Call
  unhandles : ℕ → Call

step : Call → Protocols → Protocols
unfolding handle unhandle
step (handles name f g) s = handle name f g s
step (unhandles name) s = unhandle name s

pub run : List Call → Protocols → Protocols
unfolding step
run [] s = s
run (a ∷ rest) s = run rest (step a s)

abbrev pub no_protocols : Protocols
no_protocols = record { protocols = []; advertised = [] }
