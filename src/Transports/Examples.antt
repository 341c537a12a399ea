-- ===== src/Transports/Examples.antt =====
-- The theorems on src/transport.js and src/limit-dialer/ at inputs that meet their hypotheses.
use js_libp2p_swarm.Prelude.{
  ℕ, ◌≡◌, refl, ap, Bool, true, Option, none, some, List, [], if◌then◌else◌, ◌∷◌, ◌++◌, length,
}
use js_libp2p_swarm.Errors.{other}
use js_libp2p_swarm.Transports.Texts.{codes, text_eq}
use js_libp2p_swarm.Transports.Addresses.{Multiaddr, PeerInfo, ipfs, unique_by_key}
use js_libp2p_swarm.Transports.Ours.{avoids}
use js_libp2p_swarm.Transports.Keys.{all_differ, has_like, any, unique_by_key_lem}
use js_libp2p_swarm.Transports.Registry.{Registry, add, remove, first_error, remove-add}
use js_libp2p_swarm.Transports.LimitDialer.{
  Dialed, failed, connected, Attempts, Success, Called, with_error, with_result, Task, TryEach,
  dial_many,
}
use js_libp2p_swarm.Transports.LimitDialer.Tried.{
  outcome_of, first_connected, errors_before, dial_many_lem,
}
use js_libp2p_swarm.Transports.Dial.{Transport, dial, connections, dial-avoids}

abbrev address : ℕ → Multiaddr
address n = record {
  text = codes "/ip4/" ++ n ∷ codes "/tcp/80";
  proto_names = codes "ip4" ∷ codes "tcp" ∷ [];
  peer_id = none;
  port = some 80;
}

-- Our node listens on address 65.
abbrev our_peer : PeerInfo
our_peer = record { id = codes "Qm"; multiaddrs = address 65 ∷ [] }

abbrev next_task :
    Called × Attempts → (Attempts → Option Success × Attempts) → Option Success × Attempts
next_task (with_error e, s) f = f s
next_task (with_result r, s) f = (r, s)

abbrev each_task : List Task → Attempts → Option Success × Attempts
each_task [] s = (none, s)
each_task (t ∷ ts) s = next_task (t s) (each_task ts)

-- The tasks one after the other.
abbrev in_turn : TryEach
in_turn = record {
  try_each = each_task;
  try_each-nil = λ s. refl;
  try_each-error = λ t ts s s' e h. ap (λ x. next_task x (each_task ts)) h;
  try_each-result = λ t ts s s' r h. ap (λ x. next_task x (each_task ts)) h;
}

-- Only the address 67 connects.
abbrev answers : Multiaddr → Dialed
answers a = if text_eq a.text (address 67).text then connected 5 else failed (other 1)

abbrev their_addresses : List Multiaddr
their_addresses = address 65 ∷ address 66 ∷ address 67 ∷ address 68 ∷ []

abbrev transports : List (ℕ × Transport)
transports = (3, record { filter = some (λ addrs. addrs); answer = answers }) ∷ []

dial_many_lem_example : dial_many in_turn answers their_addresses ≡ (
  outcome_of (first_connected answers their_addresses) (errors_before answers their_addresses),
  record {
    cancel = true;
    errors = other 1 ∷ other 1 ∷ [];
    dialed = address 65 ∷ address 66 ∷ address 67 ∷ [];
    closed = [];
  },
)
dial_many_lem_example = dial_many_lem in_turn answers their_addresses

dial-avoids_example :
    let r = dial in_turn answers transports 3 (some our_peer) their_addresses in
    ((avoids (address 65).text r.attempts.dialed ≡ true)
      × (avoids (address 65).text r.connects ≡ true))
    × ((avoids (ipfs (codes "Qm")) r.attempts.dialed ≡ true)
        × (avoids (ipfs (codes "Qm")) r.connects ≡ true))
    × (length r.connects ≡ connections r.called)
dial-avoids_example =
    dial-avoids in_turn answers transports 3 our_peer their_addresses [] [] (address 65) refl refl

unique_by_key_lem_example :
    (all_differ (unique_by_key their_addresses) ≡ true)
    × ((a : Multiaddr) → has_like a (unique_by_key their_addresses) ≡ has_like a their_addresses)
    × ((p : Multiaddr → Bool)
        → any p (unique_by_key their_addresses) ≡ true
        → any p their_addresses ≡ true)
unique_by_key_lem_example = unique_by_key_lem their_addresses

-- Transport 4 is there already, and 3 is added with two listeners, of which one fails to close.
abbrev four : Registry
four = (4, 40 ∷ []) ∷ []

remove-add_example :
    (remove 3 (none ∷ some (other 2) ∷ []) ((4, 40 ∷ []) ∷ (3, 30 ∷ 31 ∷ []) ∷ [])
      ≡ (four, first_error (none ∷ some (other 2) ∷ [])))
    × (add 3 (some (30 ∷ 31 ∷ [])) ((4, 40 ∷ []) ∷ (3, 30 ∷ 31 ∷ []) ∷ []) ≡ none)
unfolding add
remove-add_example =
    remove-add 3 (some (30 ∷ 31 ∷ [])) (none ∷ some (other 2) ∷ []) four
      ((4, 40 ∷ []) ∷ (3, 30 ∷ 31 ∷ []) ∷ []) refl
