-- ===== src/Transports/Registry.antt =====
-- src/transport.js: `add`, `remove`, `removeAll`, `close` and `listen`, on the transports of the
-- switch with their listeners. `parallel` of the package async starts all its tasks; their answers
-- are listed in the order in which they come, and the first error is the one that is called back.
use js_libp2p_swarm.Prelude.{
  ℕ, ◌≡◌, Option, none, some, List, [], ◌∷◌, ◌++◌, arith, lookup, put, erase, keys, Option-cases,
  inl, inr,
}
use js_libp2p_swarm.Errors.{SwitchError}
use js_libp2p_swarm.Transports.Addresses.{Multiaddr}

pub data TransportError : Type 0 where
  already_there not_existing : TransportError
  reported : SwitchError → TransportError

-- The transports by their keys, each with its listeners.
abbrev pub Registry : Type 0
Registry = List (ℕ × List ℕ)

-- `add`: the listeners that the transport comes with, or none; `none` is the exception.
unfoldable pub add : ℕ → Option (List ℕ) → Registry → Option Registry
add key listeners m = elim (lookup key m) [
  | some t ↦ none
  | none ↦ some (put key (elim listeners [ none ↦ [] | some l ↦ l ]) m)
]

pub first_error : List (Option SwitchError) → Option TransportError
first_error [] = none
first_error (none ∷ rest) = first_error rest
first_error (some e ∷ rest) = some (reported e)

-- What `close` calls back, with the answers of the listeners.
close : ℕ → List (Option SwitchError) → Registry → Option TransportError
unfolding first_error
close key answers m = elim (lookup key m) [
  | none ↦ some not_existing
  | some listeners ↦ first_error answers
]

-- `remove`: the transport goes, whatever its listeners answer.
pub remove : ℕ → List (Option SwitchError) → Registry → Registry × Option TransportError
unfolding close
remove key answers m = elim (lookup key m) [
  | none ↦ (m, none)
  | some listeners ↦ (erase key m, close key answers m)
]

-- The tasks of `removeAll`, with the answers of each transport's listeners.
remove_each :
    (ℕ → List (Option SwitchError)) → List ℕ → Registry → Registry × List (Option TransportError)
unfolding remove
remove_each answers [] m = (m, [])
remove_each answers (key ∷ rest) m =
    let (m', e) = remove key (answers key) m in
    let (m'', es) = remove_each answers rest m' in (m'', e ∷ es)

first_of : List (Option TransportError) → Option TransportError
first_of [] = none
first_of (none ∷ rest) = first_of rest
first_of (some e ∷ rest) = some e

unfoldable remove_all :
    (ℕ → List (Option SwitchError)) → Registry → Registry × Option TransportError
unfolding remove_each first_of
remove_all answers m = let (m', es) = remove_each answers (keys m) m in (m', first_of es)

-- How a listener answers to `listen`, and then to `getAddrs`.
pub data ListenAnswer : Type 0 where
  not_listening no_addresses : SwitchError → ListenAnswer
  listening : List Multiaddr → ListenAnswer

abbrev error_of : ListenAnswer → Option SwitchError
error_of (not_listening e) = some e
error_of (no_addresses e) = some e
error_of (listening addrs) = none

-- The listeners that are kept, and their addresses.
gather : List (ℕ × ListenAnswer) → List ℕ × List Multiaddr
gather [] = ([], [])
gather ((listener, listening addrs) ∷ rest) =
    let (listeners, fresh) = gather rest in (listener ∷ listeners, addrs ++ fresh)
gather ((listener, not_listening e) ∷ rest) = gather rest
gather ((listener, no_addresses e) ∷ rest) = gather rest

abbrev errors_of : List (ℕ × ListenAnswer) → List (Option SwitchError)
errors_of [] = []
errors_of ((listener, a) ∷ rest) = error_of a ∷ errors_of rest

-- What `listen` leaves: the registry, the addresses that `replace` is called with, if it is, and
-- what is called back.
pub record Listened : Type 0 where
  pub registry : Registry
  pub replaced : Option (List Multiaddr × List Multiaddr)
  pub error : Option TransportError

-- The callback of `parallel` in `listen`.
finish_listen : Option TransportError → List Multiaddr → List Multiaddr → Registry → Listened
finish_listen none addrs fresh m = record {
  registry = m;
  replaced = some (addrs, fresh);
  error = none;
}
finish_listen (some e) addrs fresh m = record { registry = m; replaced = none; error = some e }

-- `listen` on the addresses given, for a transport that is there.
unfoldable listen : ℕ → List Multiaddr → List (ℕ × ListenAnswer) → List ℕ → Registry → Listened
unfolding gather first_error finish_listen
listen key addrs answers listeners m =
    let (kept, fresh) = gather answers in
    finish_listen (first_error (errors_of answers)) addrs fresh (put key (listeners ++ kept) m)

erase-put :
    (key : ℕ) (l : List ℕ) (m : Registry) → lookup key m ≡ none → erase key (put key l m) ≡ m
erase-put key l [] h = ground arith
erase-put key l ((k, x) ∷ m) h = ground (arith, erase-put key l m)

lookup-put_self : (key : ℕ) (l : List ℕ) (m : Registry) → lookup key (put key l m) ≡ some l
lookup-put_self key l [] = ground arith
lookup-put_self key l ((k, x) ∷ m) = ground (arith, lookup-put_self key l m)

-- Removing a transport that was added takes the registry back to what it was, whatever its listeners
-- answer, and calls the first of their errors back. A key that is taken already cannot be added.
pub remove-add :
    (key : ℕ) (listeners : Option (List ℕ)) (answers : List (Option SwitchError)) (m m' : Registry)
    → add key listeners m ≡ some m'
    → (remove key answers m' ≡ (m, first_error answers)) × (add key listeners m' ≡ none)
unfolding add remove close
remove-add key listeners answers m m' h = elim (Option-cases (lookup key m)) [
  | inr (t, e) ↦ absurd (ground arith)
  | inl e ↦
      let l : List ℕ = elim listeners [ none ↦ [] | some l ↦ l ] in
      ground (arith, erase-put key l m e, lookup-put_self key l m)
]
