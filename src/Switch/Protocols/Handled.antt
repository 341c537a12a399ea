-- ===== src/Switch/Protocols/Handled.antt =====
-- What the calls of `handle` and `unhandle` of src/index.js leave advertised and registered, and how
-- src/protocol-muxer.js answers a stream with it.
use js_libp2p_swarm.Prelude.{
  ℕ, ◌∙◌, ap, ◌≡◌, refl, Bool, true, false, not, ◌&&◌, Option, none, some, List, [], ◌∷◌, arith,
  ◌==◌, if◌then◌else◌, has, has-insert, has-delete, distinct, distinct-insert, distinct-delete,
  lookup, keys, lookup-put, lookup-erase, distinct-keys-put, distinct-keys-erase, Option-cases, inl,
  inr, ==→≡, Bool-cases,
}
use js_libp2p_swarm.Switch.Protocols.{
  Protocol, Protocols, handle, unhandle, add_handlers, on_stream, Negotiation, serve, Call, handles,
  unhandles, step, run, no_protocols,
}

-- What the calls say of a name: the functions of the last `handle`, if no `unhandle` came after.
abbrev pub last_handled : ℕ → Option Protocol → List Call → Option Protocol
last_handled name p [] = p
last_handled name p (handles n f g ∷ rest) =
    last_handled name (if n == name then some (record { handler_func = f; match_func = g }) else p)
      rest
last_handled name p (unhandles n ∷ rest) = last_handled name (if n == name then none else p) rest

abbrev pub is_some {ℓ} : {A : Type ℓ} → Option A → Bool
is_some none = false
is_some (some a) = true

record Agrees (s : Protocols) : Type 0 where
  distinct_names : distinct (keys s.protocols) ≡ true
  distinct_advertised : distinct s.advertised ≡ true
  same : (name : ℕ) → has name s.advertised ≡ is_some (lookup name s.protocols)

handle-Agrees : (n : ℕ) (f g : Option ℕ) (s : Protocols) → Agrees s → Agrees (handle n f g s)
unfolding handle
handle-Agrees n f g s v =
    let p : Protocol = record { handler_func = f; match_func = g } in
    record {
      distinct_names = distinct-keys-put n p s.protocols v.distinct_names;
      distinct_advertised = distinct-insert n s.advertised v.distinct_advertised;
      same = λ name.
          ground
            (arith, has-insert name n s.advertised, lookup-put n name p s.protocols, v.same name);
    }

lookup-unhandle :
    (n name : ℕ) (s : Protocols)
    → distinct (keys s.protocols) ≡ true
    → lookup name (unhandle n s).protocols ≡ (if n == name then none else lookup name s.protocols)
unfolding unhandle
lookup-unhandle n name s d = elim (Option-cases (lookup n s.protocols)) [
  | inl e ↦ ground (arith, ==→≡ n name)
  | inr (p, e) ↦ ground (arith, lookup-erase n name s.protocols d)
]

distinct-unhandle :
    (n : ℕ) (s : Protocols)
    → distinct (keys s.protocols) ≡ true
    → distinct (keys (unhandle n s).protocols) ≡ true
unfolding unhandle
distinct-unhandle n s d = elim (Option-cases (lookup n s.protocols)) [
  | inl e ↦ ground arith
  | inr (p, e) ↦ ground (arith, distinct-keys-erase n s.protocols d)
]

has-advertised :
    (name n : ℕ) (s : Protocols)
    → distinct s.advertised ≡ true
    → has name (unhandle n s).advertised ≡ (not (n == name) && has name s.advertised)
unfolding unhandle
has-advertised name n s d = has-delete name n s.advertised d

unhandle-Agrees : (n : ℕ) (s : Protocols) → Agrees s → Agrees (unhandle n s)
unhandle-Agrees n s v = record {
  distinct_names = distinct-unhandle n s v.distinct_names;
  distinct_advertised = unfold unhandle in distinct-delete n s.advertised v.distinct_advertised;
  same = λ name.
      has-advertised name n s v.distinct_advertised
      ∙ ground (arith, lookup-unhandle n name s v.distinct_names, v.same name);
}

run-Agrees : (calls : List Call) (s : Protocols) → Agrees s → Agrees (run calls s)
unfolding run step
run-Agrees [] s v = v
run-Agrees (handles n f g ∷ rest) s v = run-Agrees rest (handle n f g s) (handle-Agrees n f g s v)
run-Agrees (unhandles n ∷ rest) s v = run-Agrees rest (unhandle n s) (unhandle-Agrees n s v)

lookup-run :
    (name : ℕ) (calls : List Call) (s : Protocols)
    → Agrees s
    → lookup name (run calls s).protocols ≡ last_handled name (lookup name s.protocols) calls
unfolding run step
lookup-run name [] s v = refl
lookup-run name (handles n f g ∷ rest) s v =
    lookup-run name rest (handle n f g s) (handle-Agrees n f g s v)
    ∙ ap (λ x. last_handled name x rest)
        (unfold handle in
          lookup-put n name (record { handler_func = f; match_func = g }) s.protocols)
lookup-run name (unhandles n ∷ rest) s v =
    lookup-run name rest (unhandle n s) (unhandle-Agrees n s v)
    ∙ ap (λ x. last_handled name x rest) (lookup-unhandle n name s v.distinct_names)

-- The match function that a protocol is registered with.
abbrev pub match_of : Option Protocol → Option (Option ℕ)
match_of none = none
match_of (some p) = some p.match_func

lookup-add_handlers :
    (name : ℕ) (m : List (ℕ × Protocol))
    → lookup name (add_handlers m) ≡ (if name == 0 then none else match_of (lookup name m))
unfolding add_handlers
lookup-add_handlers name [] = ground arith
lookup-add_handlers name ((k, p) ∷ m) = elim (Bool-cases (k == name)) [
  | inl y ↦ elim (Bool-cases (k == 0)) [
    | inl z ↦ ground (arith, lookup-add_handlers name m, ==→≡ k name y)
    | inr n ↦ ground (arith, ==→≡ k name y)
  ]
  | inr n ↦ ground (arith, lookup-add_handlers name m)
]

-- The handler that a protocol has, with the name that its stream is observed with.
abbrev pub handler_of : ℕ → Option Protocol → Option (ℕ × ℕ)
handler_of name none = none
handler_of name (some p) = elim p.handler_func [ none ↦ none | some f ↦ some (f, name) ]

on_stream-handler_of :
    (name : ℕ) (m : List (ℕ × Protocol)) → on_stream name m ≡ handler_of name (lookup name m)
unfolding on_stream
on_stream-handler_of name m = elim (Option-cases (lookup name m)) [
  | inl e ↦ ground arith
  | inr (p, e) ↦ ground arith
]

no_protocols-Agrees : Agrees no_protocols
no_protocols-Agrees = record { distinct_names = refl; distinct_advertised = refl; same = λ n. refl }

-- What a name that a handler is called with is answered by.
abbrev pub answered_by : Option ℕ → (ℕ → Option Protocol) → Option (ℕ × ℕ)
answered_by none handled = none
answered_by (some name) handled = handler_of name (handled name)

-- A name is advertised exactly while it is handled. After the calls `before`, the handlers that are
-- registered are those of the protocols that have a name and are handled, each with the match
-- function of its last `handle`. When multistream, whatever it makes of those, calls a handler with
-- a name after the calls `later`, the stream is answered by the function of the last `handle` of
-- that name, if it is then handled.
pub run-serve :
    (negotiate : Negotiation) (before later : List Call) (asked : ℕ)
    → let s = run before no_protocols in
      let t = run later s in
      ((name : ℕ) → has name s.advertised ≡ is_some (last_handled name none before))
      × ((name : ℕ)
          → lookup name (add_handlers s.protocols)
            ≡ (if name == 0 then none else match_of (last_handled name none before)))
      × (serve negotiate s.protocols asked t.protocols
          ≡ answered_by
              (negotiate (add_handlers s.protocols) asked)
              (λ name. last_handled name (last_handled name none before) later))
unfolding serve
run-serve negotiate before later asked =
    let s = run before no_protocols in
    let v = run-Agrees before no_protocols no_protocols-Agrees in
    let e : (name : ℕ) → lookup name s.protocols ≡ last_handled name none before =
      λ name. lookup-run name before no_protocols no_protocols-Agrees in
    (
      λ name. v.same name ∙ ap is_some (e name),
      λ name.
          lookup-add_handlers name s.protocols
          ∙ ap (λ o. if name == 0 then none else match_of o) (e name),
      served (negotiate (add_handlers s.protocols) asked),
    )
  where
    served :
        (o : Option ℕ)
        → elim o [
          | none ↦ none
          | some name ↦ on_stream name (run later (run before no_protocols)).protocols
        ]
          ≡ answered_by o (λ name. last_handled name (last_handled name none before) later)
    served none = refl
    served (some name) =
        let s = run before no_protocols in
        on_stream-handler_of name (run later s).protocols
        ∙ ap (handler_of name) (
            lookup-run name later s (run-Agrees before no_protocols no_protocols-Agrees)
            ∙ ap (λ o. last_handled name o later)
                (lookup-run name before no_protocols no_protocols-Agrees))
