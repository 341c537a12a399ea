-- ===== src/Transports/LimitDialer/Tried.antt =====
-- What `dialMany` of src/limit-dialer/index.js comes to: reading the answers of a list of addresses.
use js_libp2p_swarm.Prelude.{
  ℕ, ◌≡◌, refl, sym, ap, Bool, true, false, Option, none, some, List, [], ◌∷◌, ◌++◌, ◌∙◌,
}
use mathlib.Core.List.{append_assoc, append-nil}
use js_libp2p_swarm.Errors.{SwitchError}
use js_libp2p_swarm.Transports.Addresses.{Multiaddr}
use js_libp2p_swarm.Transports.LimitDialer.{
  Dialed, Attempts, Success, TryEach, do_work, keep_error, dial_single, tasks_of, Outcome, conclude,
  no_attempts, dial_many, failed, connected, with_error, with_result, errors, success,
}

-- Reading the answers from the front: the addresses up to the first that connects, the errors
-- before it, and it. Each is continued behind an answer `d`.
abbrev pub reached_after : Dialed → List Multiaddr → List Multiaddr
reached_after (failed e) rest = rest
reached_after (connected n) rest = []

abbrev pub reached : (Multiaddr → Dialed) → List Multiaddr → List Multiaddr
reached answer [] = []
reached answer (a ∷ rest) = a ∷ reached_after (answer a) (reached answer rest)

abbrev pub errors_after : Dialed → List SwitchError → List SwitchError
errors_after (failed e) rest = e ∷ rest
errors_after (connected n) rest = []

abbrev pub errors_before : (Multiaddr → Dialed) → List Multiaddr → List SwitchError
errors_before answer [] = []
errors_before answer (a ∷ rest) = errors_after (answer a) (errors_before answer rest)

abbrev pub connected_after : Dialed → Multiaddr → Option Success → Option Success
connected_after (failed e) a rest = rest
connected_after (connected n) a rest = some (record { multiaddr = a; conn = n })

abbrev pub first_connected : (Multiaddr → Dialed) → List Multiaddr → Option Success
first_connected answer [] = none
first_connected answer (a ∷ rest) = connected_after (answer a) a (first_connected answer rest)

abbrev pub is_some {ℓ} : {A : Type ℓ} → Option A → Bool
is_some none = false
is_some (some a) = true

module _ (t : TryEach) (answer : Multiaddr → Dialed) where
  -- What trying addresses makes of the shared state.
  abbrev tried : List Multiaddr → Attempts → Option Success × Attempts
  tried addrs s = (
    first_connected answer addrs,
    record s {
      cancel = is_some (first_connected answer addrs);
      errors = s.errors ++ errors_before answer addrs;
      dialed = s.dialed ++ reached answer addrs;
    },
  )

  -- `tried (a ∷ rest) s` where `d` is the answer for `a`.
  abbrev tried_after : Multiaddr → List Multiaddr → Attempts → Dialed → Option Success × Attempts
  tried_after a rest s d = (
    connected_after d a (first_connected answer rest),
    record s {
      cancel = is_some (connected_after d a (first_connected answer rest));
      errors = s.errors ++ errors_after d (errors_before answer rest);
      dialed = s.dialed ++ a ∷ reached_after d (reached answer rest);
    },
  )

  dial_single-failed :
      (a : Multiaddr) (s : Attempts) (e : SwitchError)
      → answer a ≡ failed e
      → dial_single answer a s
        ≡ (with_error e, record s { errors = s.errors ++ e ∷ []; dialed = s.dialed ++ a ∷ [] })
  unfolding dial_single do_work keep_error
  dial_single-failed a s e h = rw h

  dial_single-connected :
      (a : Multiaddr) (s : Attempts) (n : ℕ)
      → s.cancel ≡ false
      → answer a ≡ connected n
      → dial_single answer a s ≡ (
        with_result (some (record { multiaddr = a; conn = n })),
        record s { cancel = true; dialed = s.dialed ++ a ∷ [] },
      )
  unfolding dial_single do_work keep_error
  dial_single-connected a s n hs h = rw (h, hs)

  try_next :
      (a : Multiaddr) (rest : List Multiaddr) (s : Attempts)
      → s.cancel ≡ false
      → ((s' : Attempts) → s'.cancel ≡ false → t.try_each (tasks_of answer rest) s' ≡ tried rest s')
      → (d : Dialed) → answer a ≡ d
      → t.try_each (dial_single answer a ∷ tasks_of answer rest) s ≡ tried (a ∷ rest) s
  try_next a rest s h ih (failed e) q =
      t.try_each-error (dial_single answer a) (tasks_of answer rest) s _ e
        (dial_single-failed a s e q)
      ∙ ih _ h
      ∙ (λ i. (
        first_connected answer rest,
        record s {
          cancel = is_some (first_connected answer rest);
          errors = append_assoc s.errors (e ∷ []) (errors_before answer rest) i;
          dialed = append_assoc s.dialed (a ∷ []) (reached answer rest) i;
        },
      ))
      ∙ ap (tried_after a rest s) (sym q)
  try_next a rest s h ih (connected n) q =
      t.try_each-result (dial_single answer a) (tasks_of answer rest) s _ _
        (dial_single-connected a s n h q)
      ∙ (λ i. (
        some (record { multiaddr = a; conn = n }),
        record s {
          cancel = true;
          errors = sym (append-nil s.errors) i;
          dialed = s.dialed ++ a ∷ [];
        },
      ))
      ∙ ap (tried_after a rest s) (sym q)

  try_tasks :
      (addrs : List Multiaddr) (s : Attempts)
      → s.cancel ≡ false
      → t.try_each (tasks_of answer addrs) s ≡ tried addrs s
  unfolding tasks_of
  try_tasks [] s h = t.try_each-nil s ∙ (λ i. (
    none,
    record s {
      errors = sym (append-nil s.errors) i;
      dialed = sym (append-nil s.dialed) i;
      cancel = h i;
    },
  ))
  try_tasks (a ∷ rest) s h = try_next a rest s h (try_tasks rest) (answer a) refl

abbrev pub outcome_of : Option Success → List SwitchError → Outcome
outcome_of (some r) es = success r
outcome_of none es = errors es

conclude_lem : (r : Option Success) (s : Attempts) → conclude (r, s) ≡ (outcome_of r s.errors, s)
conclude_lem (some r) s = refl
conclude_lem none s = refl

-- For every list of addresses, every answer and every `tryEach` with its laws, `dialMany` calls
-- back: with the first address in the list whose dial connects and its connection, or, where none
-- connects, with the errors of all of them in the order of the list. Exactly the addresses up to
-- that first one have been dialed, in order, and no connection of its own has been closed.
pub dial_many_lem :
    (t : TryEach) (answer : Multiaddr → Dialed) (addrs : List Multiaddr)
    → dial_many t answer addrs ≡ (
      outcome_of (first_connected answer addrs) (errors_before answer addrs),
      record {
        cancel = is_some (first_connected answer addrs);
        errors = errors_before answer addrs;
        dialed = reached answer addrs;
        closed = [];
      },
    )
unfolding dial_many
dial_many_lem t answer addrs =
    ap conclude (try_tasks t answer addrs no_attempts refl)
    ∙ conclude_lem (first_connected answer addrs) _
