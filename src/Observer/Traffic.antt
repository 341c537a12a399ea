-- ===== src/Observer/Traffic.antt =====
-- What an observed connection of src/observe-connection.js forwards and reports, and what the
-- statistics of src/stats/index.js make of it.
use js_libp2p_swarm.Prelude.{
  ℕ, ◌+◌, ◌≡◌, refl, Bool, true, false, ◌||◌, Option, none, some, List, [], ◌∷◌, ◌++◌, arith, ◌==◌,
  if◌then◌else◌, length, ◌∙◌, ap, sym, subst,
}
use mathlib.Core.List.{append_assoc, append-nil}
use js_libp2p_swarm.Stats.Stat.{Options}
use js_libp2p_swarm.Stats.Collection.{Direction, event_of, Message, Lru, Collection, Call, messages}
use js_libp2p_swarm.Stats.Collection
use js_libp2p_swarm.Stats.Collection.Shares.{
  Tag, everything, transport, protocol, carried, selects, by_transport, by_protocol,
}
use js_libp2p_swarm.Stats.Collection.Carried.{total, run-carried}
use js_libp2p_swarm.Observer.{
  PeerPromise, pending, resolved, Chunk, Observed, message_of, emit_all, observe_connection,
  will_observe, pass, resolve, Input, passes, sets_peer, step, run, delivered,
}

-- The buffers of a history, in order.
abbrev pub buffers : List Input → List (Direction × List ℕ)
buffers [] = []
buffers (passes now d buffer ∷ rest) = (d, buffer) ∷ buffers rest
buffers (sets_peer now p ∷ rest) = buffers rest

-- The bytes of buffers that count for an event.
abbrev pub bytes : ℕ → List (Direction × List ℕ) → ℕ
bytes event [] = 0
bytes event ((d, buffer) ∷ rest) =
    (if event_of d == event then length buffer else 0) + bytes event rest

-- Whether a promise is a peer, and whether it may yet be one.
abbrev pub is_known : PeerPromise → Bool
is_known (resolved (some p)) = true
is_known _ = false

abbrev is_hopeful : PeerPromise → Bool
is_hopeful (resolved none) = false
is_hopeful _ = true

-- Every peer that is set is one.
abbrev pub names_peers : List Input → Bool
names_peers [] = true
names_peers (passes now d buffer ∷ rest) = names_peers rest
names_peers (sets_peer now none ∷ rest) = false
names_peers (sets_peer now (some p) ∷ rest) = names_peers rest

-- Whether the messages of a connection with these tags are about the traffic of a statistic.
abbrev pub concerns : Tag → Option ℕ → Option ℕ → Bool
concerns tag t u = by_transport tag t || by_protocol tag u

abbrev sizes : ℕ → List Chunk → ℕ
sizes event [] = 0
sizes event (k ∷ ks) = (if event_of k.direction == event then k.size else 0) + sizes event ks

sizes-append : (e : ℕ) (a b : List Chunk) → sizes e (a ++ b) ≡ sizes e a + sizes e b
sizes-append e [] b = omega arith
sizes-append e (k ∷ a) b = omega (arith, sizes-append e a b)

-- The bytes that the statistic is told of.
abbrev told : ℕ → Tag → List (ℕ × Message) → ℕ
told event tag l = carried event tag 1 (delivered l)

told-append :
    (e : ℕ) (tag : Tag) (a b : List (ℕ × Message))
    → told e tag (a ++ b) ≡ told e tag a + told e tag b
told-append e tag [] b = omega arith
told-append e tag ((n, m) ∷ a) b = omega (arith, told-append e tag a b)

selects-message_of :
    (tag : Tag) (t u : Option ℕ) (p : ℕ) (k : Chunk)
    → selects tag (message_of t u p k) ≡ concerns tag t u
unfolding message_of
selects-message_of everything none u p k = refl
selects-message_of everything (some t) u p k = refl
selects-message_of (transport x) t u p k = ground arith
selects-message_of (protocol x) t u p k = refl

told-emit_all :
    (e now p : ℕ) (tag : Tag) (t u : Option ℕ) (ks : List Chunk)
    → concerns tag t u ≡ true
    → told e tag (emit_all t u now (some p) ks) ≡ sizes e ks
unfolding emit_all
told-emit_all e now p tag t u [] h = refl
told-emit_all e now p tag t u (k ∷ ks) h =
    unfold message_of in
    ground (arith, selects-message_of tag t u p k, told-emit_all e now p tag t u ks)

-- Nothing is reported twice or lost: what was told and what waits for the peer.
record Accounts (e : ℕ) (tag : Tag) (n : ℕ) (o : Observed) : Type 0 where
  hopeful : is_hopeful o.peer ≡ true
  idle : is_known o.peer ≡ true → o.waiting ≡ []
  tagged : concerns tag o.transport o.protocol ≡ true
  sum : told e tag o.emitted + sizes e o.waiting ≡ n

will_observe-Accounts :
    (e now n : ℕ) (tag : Tag) (k : Chunk) (q : PeerPromise) (o : Observed)
    → o.peer ≡ q
    → Accounts e tag n o
    → Accounts e tag
        (n + (if event_of k.direction == e then k.size else 0))
        (will_observe now k q o)
unfolding will_observe
will_observe-Accounts e now n tag k pending o h v =
    ground (arith, sizes-append e o.waiting (k ∷ []), v.hopeful, v.idle, v.tagged, v.sum)
will_observe-Accounts e now n tag k (resolved none) o h v = absurd (ground (arith, v.hopeful))
will_observe-Accounts e now n tag k (resolved (some p)) o h v = record {
  hopeful = v.hopeful;
  idle = v.idle;
  tagged = v.tagged;
  sum = ground (
    arith,
    v.sum,
    told-append e tag o.emitted (emit_all o.transport o.protocol now (some p) (k ∷ [])),
    told-emit_all e now p tag o.transport o.protocol (k ∷ []) v.tagged,
  );
}

resolve-Accounts :
    (e now p n : ℕ) (tag : Tag) (q : PeerPromise) (o : Observed)
    → o.peer ≡ q
    → Accounts e tag n o
    → Accounts e tag n (resolve now (some p) q o)
unfolding resolve
resolve-Accounts e now p n tag (resolved x) o h v = v
resolve-Accounts e now p n tag pending o h v = record {
  hopeful = refl;
  idle = λ x. refl;
  tagged = v.tagged;
  sum = ground (
    arith,
    v.sum,
    told-append e tag o.emitted (emit_all o.transport o.protocol now (some p) o.waiting),
    told-emit_all e now p tag o.transport o.protocol o.waiting v.tagged,
  );
}

sum_assoc : (a b c : ℕ) → (a + b) + c ≡ a + (b + c)
sum_assoc a b c = omega arith

run-Accounts :
    (e n : ℕ) (tag : Tag) (is : List Input) (o : Observed)
    → names_peers is ≡ true
    → Accounts e tag n o
    → Accounts e tag (n + bytes e (buffers is)) (run is o)
unfolding run step pass
run-Accounts e n tag [] o h v = let z : n + 0 ≡ n = omega arith in rw z v
run-Accounts e n tag (passes now d buffer ∷ rest) o h v =
    let k : Chunk = record { direction = d; size = length buffer } in
    let size : ℕ = if event_of d == e then length buffer else 0 in
    let w = will_observe-Accounts e now n tag k o.peer o refl v in
    subst (λ x. Accounts e tag x (run rest (pass now d buffer o)))
      (sum_assoc n size (bytes e (buffers rest)))
      (run-Accounts e (n + size) tag rest (pass now d buffer o) h
        (record { hopeful = w.hopeful; idle = w.idle; tagged = w.tagged; sum = w.sum }))
run-Accounts e n tag (sets_peer now none ∷ rest) o h v = absurd (ground arith)
run-Accounts e n tag (sets_peer now (some p) ∷ rest) o h v =
    run-Accounts e n tag rest (resolve now (some p) o.peer o) h
      (resolve-Accounts e now p n tag o.peer o refl v)

passed-will_observe :
    (now : ℕ) (k : Chunk) (q : PeerPromise) (o : Observed)
    → (will_observe now k q o).passed ≡ o.passed
unfolding will_observe
passed-will_observe now k pending o = refl
passed-will_observe now k (resolved p) o = refl

passed-resolve :
    (now : ℕ) (p : Option ℕ) (q : PeerPromise) (o : Observed)
    → (resolve now p q o).passed ≡ o.passed
unfolding resolve
passed-resolve now p pending o = refl
passed-resolve now p (resolved x) o = refl

passed-run : (is : List Input) (o : Observed) → (run is o).passed ≡ o.passed ++ buffers is
unfolding run step pass
passed-run [] o = sym (append-nil o.passed)
passed-run (passes now d buffer ∷ rest) o =
    let k : Chunk = record { direction = d; size = length buffer } in
    passed-run rest (pass now d buffer o)
    ∙ ap (λ x. (x ++ (d, buffer) ∷ []) ++ buffers rest) (passed-will_observe now k o.peer o)
    ∙ append_assoc o.passed ((d, buffer) ∷ []) (buffers rest)
passed-run (sets_peer now p ∷ rest) o =
    passed-run rest (resolve now p o.peer o)
    ∙ ap (λ x. x ++ buffers rest) (passed-resolve now p o.peer o)

observe_connection-Accounts :
    (e : ℕ) (tag : Tag) (t u answer : Option ℕ)
    → concerns tag t u ≡ true
    → Accounts e tag 0 (observe_connection t u answer)
unfolding observe_connection
observe_connection-Accounts e tag t u none h = record {
  hopeful = refl;
  idle = λ x. refl;
  tagged = h;
  sum = omega arith;
}
observe_connection-Accounts e tag t u (some p) h = record {
  hopeful = refl;
  idle = λ x. refl;
  tagged = h;
  sum = omega arith;
}

module _ (l : Lru) (o : Options) (event : ℕ) (tag : Tag) where
  -- A connection is observed with the tags of a statistic, and every peer that is set on it is one.
  -- Whatever passes through it, and whenever its peer becomes known: all buffers pass unchanged and
  -- in order, and once the peer is known and the `message` events were given to statistics that
  -- listen once, their statistic of these tags has counted each byte just once.
  pub run-traffic :
      (t u answer : Option ℕ) (is : List Input) (c : Collection l)
      → concerns tag t u ≡ true
      → names_peers is ≡ true
      → c.listeners ≡ 1
      → let end = run is (observe_connection t u answer) in
        is_known end.peer ≡ true
        → (end.passed ≡ buffers is)
          × (total l o event tag (Collection.run l o (delivered end.emitted) c)
              ≡ total l o event tag c + bytes event (buffers is))
  run-traffic t u answer is c h n one known =
      let end = run is (observe_connection t u answer) in
      let v =
        run-Accounts event 0 tag is (observe_connection t u answer) n
          (observe_connection-Accounts event tag t u answer h) in
      (
        passed-run is (observe_connection t u answer) ∙ unfold observe_connection in refl,
        run-carried l o event tag (delivered end.emitted) c
            ∙ ap (λ x. total l o event tag c + carried event tag x (delivered end.emitted)) one
            ∙ omega (arith, v.sum, ap (sizes event) (v.idle known)),
      )
