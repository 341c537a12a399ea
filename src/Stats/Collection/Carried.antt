-- ===== src/Stats/Collection/Carried.antt =====
-- What the statistics of src/stats/index.js add up to: the traffic that the observer reported.
use js_libp2p_swarm.Prelude.{
  ℕ, zero, suc, ◌+◌, ◌*◌, ◌≡◌, refl, Option, none, some, List, [], ◌∷◌, arith, ◌==◌, if◌then◌else◌,
  lookup, Option-cases, inl, inr, ◌∙◌, ap,
}
use js_libp2p_swarm.Stats.Stat.{Options, Stat, state}
use js_libp2p_swarm.Stats.Stat
use js_libp2p_swarm.Stats.Stat.Counting.{counted}
use js_libp2p_swarm.Stats.Collection.{
  Lru, Message, event_of, Target, global, of_peer, of_transport, of_protocol, Call, messages,
  closes, starts, stops, fires, Collection, find_peer, count_peer, count_transport, count_protocol,
  on_message, deliver, on_peer_closed, start, stop, fire, step, run,
}
use js_libp2p_swarm.Stats.Collection.Shares.{
  reading, length_for, counted-push, counted-start, counted-stop, counted-fires, reading-count_tag,
  reading-each_value, reading-fire_in, Tag, by_transport, by_protocol, share, carried, everything,
  transport, protocol,
}

module _ (l : Lru) (o : Options) (event : ℕ) where
  abbrev pub total : Tag → Collection l → ℕ
  total everything c = counted event c.global_stats
  total (transport t) c = reading event t c.transport_stats
  total (protocol t) c = reading event t c.protocol_stats

  -- Looking a peer up changes the cache only.
  find_peer-same :
      (now peer : ℕ) (c : Collection l)
      → (find_peer l o now peer c).1
        ≡ record c { old_peers = (find_peer l o now peer c).1.old_peers }
  unfolding find_peer
  find_peer-same now peer c = elim (Option-cases (lookup peer c.peer_stats)) [
    | inr (s, e) ↦ rw (e, find_peer) refl
    | inl e ↦ elim (Option-cases (l.get peer c.old_peers).0) [
      | inl g ↦ rw (e, find_peer, g) refl
      | inr (s, g) ↦ rw (e, find_peer, g) refl
    ]
  ]

  abbrev with_global : ℕ → Message → Collection l → Collection l
  with_global now msg c = record c {
    global_stats = Stat.push o (event_of msg.direction) (some msg.length) now c.global_stats;
  }

  total-count_peer :
      (now : ℕ) (msg : Message) (c : Collection l) (tag : Tag)
      → (total tag (count_peer l o now msg c) ≡ total tag c)
        × ((count_peer l o now msg c).listeners ≡ c.listeners)
  unfolding count_peer
  total-count_peer now msg c everything =
      let e = find_peer-same now msg.peer c in
      (ap (λ x. counted event x.global_stats) e, ap (λ x. x.listeners) e)
  total-count_peer now msg c (transport t) =
      let e = find_peer-same now msg.peer c in
      (ap (λ x. reading event t x.transport_stats) e, ap (λ x. x.listeners) e)
  total-count_peer now msg c (protocol t) =
      let e = find_peer-same now msg.peer c in
      (ap (λ x. reading event t x.protocol_stats) e, ap (λ x. x.listeners) e)

  total-count_transport :
      (now : ℕ) (msg : Message) (x : Option ℕ) (tag : Tag) (c : Collection l)
      → (total tag (count_transport l o now msg x c)
          ≡ total tag c + (if by_transport tag x then length_for event msg else 0))
        × ((count_transport l o now msg x c).listeners ≡ c.listeners)
  unfolding count_transport
  total-count_transport now msg none everything c = (omega arith, refl)
  total-count_transport now msg none (transport t) c = (omega arith, refl)
  total-count_transport now msg none (protocol t) c = (omega arith, refl)
  total-count_transport now msg (some u) everything c =
      let c' = with_global now msg c in
      let peer = total-count_peer now msg c' everything in
      (peer.0 ∙ counted-push o (event_of msg.direction) msg.length now event c.global_stats, peer.1)
  total-count_transport now msg (some u) (transport t) c =
      let c' = with_global now msg c in
      let peer = total-count_peer now msg c' (transport t) in
      (
        reading-count_tag o now event msg u t (count_peer l o now msg c').transport_stats
            ∙ ap (λ n. n + (if u == t then length_for event msg else 0)) peer.0,
        peer.1,
      )
  total-count_transport now msg (some u) (protocol t) c =
      let peer = total-count_peer now msg (with_global now msg c) (protocol t) in
      (peer.0 ∙ omega arith, peer.1)

  total-count_protocol :
      (now : ℕ) (msg : Message) (x : Option ℕ) (tag : Tag) (c : Collection l)
      → (total tag (count_protocol l o now msg x c)
          ≡ total tag c + (if by_protocol tag x then length_for event msg else 0))
        × ((count_protocol l o now msg x c).listeners ≡ c.listeners)
  unfolding count_protocol
  total-count_protocol now msg none everything c = (omega arith, refl)
  total-count_protocol now msg none (transport t) c = (omega arith, refl)
  total-count_protocol now msg none (protocol t) c = (omega arith, refl)
  total-count_protocol now msg (some u) everything c = (omega arith, refl)
  total-count_protocol now msg (some u) (transport t) c = (omega arith, refl)
  total-count_protocol now msg (some u) (protocol t) c =
      (reading-count_tag o now event msg u t c.protocol_stats, refl)

  share-parts :
      (tag : Tag) (msg : Message)
      → share event tag msg
        ≡ (if by_transport tag msg.transport then length_for event msg else 0)
          + (if by_protocol tag msg.protocol then length_for event msg else 0)
  share-parts everything msg = ground arith
  share-parts (transport t) msg = omega arith
  share-parts (protocol t) msg = omega arith

  total-on_message :
      (now : ℕ) (msg : Message) (tag : Tag) (c : Collection l)
      → (total tag (on_message l o now msg c) ≡ total tag c + share event tag msg)
        × ((on_message l o now msg c).listeners ≡ c.listeners)
  unfolding on_message
  total-on_message now msg tag c =
      let first = total-count_transport now msg msg.transport tag c in
      let second =
        total-count_protocol now msg msg.protocol tag
          (count_transport l o now msg msg.transport c) in
      (omega (arith, first.0, second.0, share-parts tag msg), second.1 ∙ first.1)

  total-deliver :
      (now : ℕ) (msg : Message) (tag : Tag) (n : ℕ) (c : Collection l)
      → (total tag (deliver l o now msg n c) ≡ total tag c + n * share event tag msg)
        × ((deliver l o now msg n c).listeners ≡ c.listeners)
  unfolding deliver
  total-deliver now msg tag zero c = (omega arith, refl)
  total-deliver now msg tag (suc n) c =
      let rest = total-deliver now msg tag n (on_message l o now msg c) in
      (
        rest.0
            ∙ ap (λ x. x + n * share event tag msg) (total-on_message now msg tag c).0
            ∙ grind arith,
        rest.1 ∙ (total-on_message now msg tag c).1,
      )

  on_peer_closed-same :
      (peer : ℕ) (c : Collection l)
      → on_peer_closed l peer c ≡ record c {
        peer_stats = (on_peer_closed l peer c).peer_stats;
        old_peers = (on_peer_closed l peer c).old_peers;
      }
  unfolding on_peer_closed
  on_peer_closed-same peer c = elim (Option-cases (lookup peer c.peer_stats)) [
    | inl e ↦ rw (e, on_peer_closed) refl
    | inr (s, e) ↦ rw (e, on_peer_closed) refl
  ]

  total-on_peer_closed :
      (peer : ℕ) (tag : Tag) (c : Collection l)
      → (total tag (on_peer_closed l peer c) ≡ total tag c)
        × ((on_peer_closed l peer c).listeners ≡ c.listeners)
  total-on_peer_closed peer everything c =
      let e = on_peer_closed-same peer c in
      (ap (λ x. counted event x.global_stats) e, ap (λ x. x.listeners) e)
  total-on_peer_closed peer (transport t) c =
      let e = on_peer_closed-same peer c in
      (ap (λ x. reading event t x.transport_stats) e, ap (λ x. x.listeners) e)
  total-on_peer_closed peer (protocol t) c =
      let e = on_peer_closed-same peer c in
      (ap (λ x. reading event t x.protocol_stats) e, ap (λ x. x.listeners) e)

  total-start : (tag : Tag) (c : Collection l) → total tag (start l o c) ≡ total tag c
  unfolding start
  total-start everything c = counted-start o event c.global_stats
  total-start (transport t) c =
      reading-each_value (Stat.start o) event t c.transport_stats (counted-start o event)
  total-start (protocol t) c = refl

  total-stop : (tag : Tag) (c : Collection l) → total tag (stop l c) ≡ total tag c
  unfolding stop
  total-stop everything c = counted-stop event c.global_stats
  total-stop (transport t) c =
      reading-each_value Stat.stop event t c.transport_stats (counted-stop event)
  total-stop (protocol t) c = refl

  total-fire :
      (t : Target) (tag : Tag) (c : Collection l)
      → (total tag (fire l o t c) ≡ total tag c) × ((fire l o t c).listeners ≡ c.listeners)
  unfolding fire
  total-fire global everything c = (counted-fires o event c.global_stats, refl)
  total-fire (of_transport k) (transport t) c =
      (reading-fire_in o event k t c.transport_stats, refl)
  total-fire (of_protocol k) (protocol t) c = (reading-fire_in o event k t c.protocol_stats, refl)
  total-fire global (transport t) c = (refl, refl)
  total-fire global (protocol t) c = (refl, refl)
  total-fire (of_peer k) everything c = (refl, refl)
  total-fire (of_peer k) (transport t) c = (refl, refl)
  total-fire (of_peer k) (protocol t) c = (refl, refl)
  total-fire (of_transport k) everything c = (refl, refl)
  total-fire (of_transport k) (protocol t) c = (refl, refl)
  total-fire (of_protocol k) everything c = (refl, refl)
  total-fire (of_protocol k) (transport t) c = (refl, refl)

  -- After any history the global statistic counts all traffic with a transport tag, and the
  -- statistic of each transport and of each protocol the traffic with its tag, while `onMessage` is
  -- attached, and once for each time that it is; what a statistic has queued is included.
  pub run-carried :
      (tag : Tag) (calls : List Call) (c : Collection l)
      → total tag (run l o calls c) ≡ total tag c + carried event tag c.listeners calls
  unfolding run step
  run-carried tag [] c = omega arith
  run-carried tag (messages now msg ∷ rest) c =
      let now_on = total-deliver now msg tag c.listeners c in
      run-carried tag rest (deliver l o now msg c.listeners c)
      ∙ ap (λ n. total tag (deliver l o now msg c.listeners c) + carried event tag n rest) now_on.1
      ∙ omega (arith, now_on.0)
  run-carried tag (starts ∷ rest) c =
      unfold step start in omega (arith, run-carried tag rest (start l o c), total-start tag c)
  run-carried tag (stops ∷ rest) c =
      unfold step stop in omega (arith, run-carried tag rest (stop l c), total-stop tag c)
  run-carried tag (closes peer ∷ rest) c =
      let later = total-on_peer_closed peer tag c in
      run-carried tag rest (on_peer_closed l peer c)
      ∙ ap (λ n. total tag (on_peer_closed l peer c) + carried event tag n rest) later.1
      ∙ omega (arith, later.0)
  run-carried tag (fires t ∷ rest) c =
      let later = total-fire t tag c in
      run-carried tag rest (fire l o t c)
      ∙ ap (λ n. total tag (fire l o t c) + carried event tag n rest) later.1
      ∙ omega (arith, later.0)
