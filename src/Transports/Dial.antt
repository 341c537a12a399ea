-- ===== src/Transports/Dial.antt =====
-- src/transport.js: `dial`, which filters the addresses of a peer for a transport and hands them to
-- `dialMany` of src/limit-dialer/index.js.
use js_libp2p_swarm.Prelude.{
  ℕ, ◌≡◌, refl, ap, ◌∙◌, true, false, Option, none, some, List, [], ◌∷◌, ◌++◌, arith, lookup,
  length,
}
use js_libp2p_swarm.Errors.{SwitchError}
use js_libp2p_swarm.Transports.Texts.{Text, is_empty}
use js_libp2p_swarm.Transports.Addresses.{Multiaddr, PeerInfo, ipfs, dialables}
use js_libp2p_swarm.Transports.Ours.{dialables-avoids, avoids}
use js_libp2p_swarm.Transports.LimitDialer.{
  Dialed, failed, connected, TryEach, Outcome, errors, success, Success, Attempts, dial_many,
}
use js_libp2p_swarm.Transports.LimitDialer.Tried.{
  dial_many_lem, reached, reached_after, connected_after, errors_before, first_connected,
  outcome_of, is_some,
}

-- A transport: its filter, if it has one, and how it answers to a dial.
pub record Transport : Type 0 where
  pub filter : Option (List Multiaddr → List Multiaddr)
  pub answer : Multiaddr → Dialed

-- The filter and the answers that `switch.transports[key]` has. A missing transport is not asked.
filter_of : Option Transport → Option (List Multiaddr → List Multiaddr)
filter_of none = none
filter_of (some t) = t.filter

answer_of : (Multiaddr → Dialed) → Option Transport → Multiaddr → Dialed
answer_of otherwise none = otherwise
answer_of otherwise (some t) = t.answer

-- What a dial leaves: what is called back, the addresses of `peerInfo.connect`, and the attempts.
pub record DialResult : Type 0 where
  pub called : Outcome
  pub connects : List Multiaddr
  pub attempts : Attempts

abbrev pub finish : Outcome × Attempts → DialResult
finish (errors es, s) = record { called = errors es; connects = []; attempts = s }
finish (success r, s) = record { called = success r; connects = r.multiaddr ∷ []; attempts = s }

pub dial :
    TryEach
    → (otherwise : Multiaddr → Dialed) → (transports : List (ℕ × Transport)) → (key : ℕ)
    → (ours : Option PeerInfo) → (multiaddrs : List Multiaddr) → DialResult
unfolding filter_of answer_of dialables dial_many
dial t otherwise transports key ours multiaddrs =
    let transport = lookup key transports in
    let addrs = dialables (filter_of transport) multiaddrs ours in
    finish (dial_many t (answer_of otherwise transport) addrs)

avoids-reached :
    (p : Text) (answer : Multiaddr → Dialed) (addrs : List Multiaddr)
    → avoids p addrs ≡ true
    → avoids p (reached answer addrs) ≡ true
avoids-reached p answer [] h = refl
avoids-reached p answer (a ∷ rest) h = after (answer a) (avoids-reached p answer rest)
  where
    after :
        (d : Dialed)
        → (avoids p rest ≡ true → avoids p (reached answer rest) ≡ true)
        → avoids p (a ∷ reached_after d (reached answer rest)) ≡ true
    after (failed e) ih = ground (arith, ih)
    after (connected n) ih = ground arith

-- The address of a result, as `peerInfo.connect` gets it.
abbrev pub addresses_of : Option Success → List Multiaddr
addresses_of none = []
addresses_of (some r) = r.multiaddr ∷ []

avoids-first_connected :
    (p : Text) (answer : Multiaddr → Dialed) (addrs : List Multiaddr)
    → avoids p addrs ≡ true
    → avoids p (addresses_of (first_connected answer addrs)) ≡ true
avoids-first_connected p answer [] h = refl
avoids-first_connected p answer (a ∷ rest) h =
    after (answer a) (avoids-first_connected p answer rest)
  where
    after :
        (d : Dialed)
        → (avoids p rest ≡ true → avoids p (addresses_of (first_connected answer rest)) ≡ true)
        → avoids p (addresses_of (connected_after d a (first_connected answer rest))) ≡ true
    after (failed e) ih = ground (arith, ih)
    after (connected n) ih = ground arith

-- What `dial` leaves when it is given the addresses to try.
abbrev left : (Multiaddr → Dialed) → List Multiaddr → DialResult
left answer addrs = record {
  called = outcome_of (first_connected answer addrs) (errors_before answer addrs);
  connects = addresses_of (first_connected answer addrs);
  attempts = record {
    cancel = is_some (first_connected answer addrs);
    errors = errors_before answer addrs;
    dialed = reached answer addrs;
    closed = [];
  };
}

finish_lem :
    (r : Option Success) (es : List SwitchError) (s : Attempts)
    → finish (outcome_of r es, s)
      ≡ record { called = outcome_of r es; connects = addresses_of r; attempts = s }
finish_lem none es s = refl
finish_lem (some r) es s = refl

finish-dial_many :
    (t : TryEach) (answer : Multiaddr → Dialed) (addrs : List Multiaddr)
    → finish (dial_many t answer addrs) ≡ left answer addrs
finish-dial_many t answer addrs =
    ap finish (dial_many_lem t answer addrs) ∙ finish_lem (first_connected answer addrs) _ _

left-avoids :
    (p : Text) (t : TryEach) (answer : Multiaddr → Dialed) (addrs : List Multiaddr)
    → avoids p addrs ≡ true
    → (avoids p ((finish (dial_many t answer addrs)).attempts.dialed) ≡ true)
      × (avoids p ((finish (dial_many t answer addrs)).connects) ≡ true)
left-avoids p t answer addrs h =
    rw (finish-dial_many t answer addrs)
      (avoids-reached p answer addrs h, avoids-first_connected p answer addrs h)

-- The connections that are called back.
abbrev pub connections : Outcome → ℕ
connections (errors es) = 0
connections (success r) = 1

length-connects :
    (o : Outcome × Attempts) → length (finish o).connects ≡ connections (finish o).called
length-connects (errors es, s) = refl
length-connects (success r, s) = refl

-- `dialables-avoids`, where the transport may be missing too.
dialables-avoids_both :
    (filter : Option (List Multiaddr → List Multiaddr)) (addrs : List Multiaddr) (ours : PeerInfo)
    (pre post : List Multiaddr) (a : Multiaddr)
    → ours.multiaddrs ≡ pre ++ a ∷ post
    → is_empty a.text ≡ false
    → (avoids a.text (dialables filter addrs (some ours)) ≡ true)
      × (avoids (ipfs ours.id) (dialables filter addrs (some ours)) ≡ true)
unfolding dialables
dialables-avoids_both none addrs ours pre post a e h = (refl, refl)
dialables-avoids_both (some f) addrs ours pre post a e h =
    let both = dialables-avoids f addrs ours pre post a e h in (both.0, both.1)

-- The switch does not dial itself: whatever the transports are and however they answer, `dial`
-- calls a transport with no address whose destination starts with an address of ours (one that is
-- not the empty text) or with our id, and calls `peerInfo.connect` with no such address either. It
-- calls it once when it calls back a connection, and not at all when it calls back errors.
pub dial-avoids :
    (t : TryEach) (otherwise : Multiaddr → Dialed) (transports : List (ℕ × Transport)) (key : ℕ)
    (ours : PeerInfo) (addrs pre post : List Multiaddr) (a : Multiaddr)
    → ours.multiaddrs ≡ pre ++ a ∷ post
    → is_empty a.text ≡ false
    → let r = dial t otherwise transports key (some ours) addrs in
      ((avoids a.text r.attempts.dialed ≡ true) × (avoids a.text r.connects ≡ true))
      × ((avoids (ipfs ours.id) r.attempts.dialed ≡ true)
          × (avoids (ipfs ours.id) r.connects ≡ true))
      × (length r.connects ≡ connections r.called)
unfolding dial
dial-avoids t otherwise transports key ours addrs pre post a e h =
    let transport = lookup key transports in
    let both = dialables-avoids_both (filter_of transport) addrs ours pre post a e h in
    (
      left-avoids a.text t (answer_of otherwise transport) _ both.0,
      left-avoids (ipfs ours.id) t (answer_of otherwise transport) _ both.1,
      length-connects (dial_many t (answer_of otherwise transport) _),
    )
