-- ===== src/Stats/Collection.antt =====
-- src/stats/index.js and src/stats/old-peers.js: the statistics of all traffic, and by peer,
-- transport and protocol. An empty tag is `none`. The least recently used cache of closed peers is
-- the package `hashlru`: `Lru` is what the code uses of it. A cache may forget, and never makes an
-- entry up. The clock is read once for each message.
pub mod Shares
pub mod Carried
use js_libp2p_swarm.Prelude.{
  ℕ, zero, suc, ◌+◌, ◌-◌, ◌*◌, ◌≡◌, ◌≢◌, ◌⊎◌, Option, none, some, List, [], ◌∷◌, lookup, put, erase,
}
use js_libp2p_swarm.Stats.Stat.{Options, Stat, state}
use js_libp2p_swarm.Stats.Stat

pub record Lru : Type 1 where
  pub Cache : Type 0
  -- `LRU(maxSize)`
  pub new_cache : ℕ → Cache
  -- `get` makes the entry the latest one
  pub get : ℕ → Cache → Option Stat × Cache
  pub set_entry : ℕ → Stat → Cache → Cache
  -- `remove`, under the name `delete`
  pub remove : ℕ → Cache → Cache
  pub view : ℕ → Cache → Option Stat
  pub view-new_cache : (k n : ℕ) → view k (new_cache n) ≡ none
  pub get-view : (k : ℕ) (c : Cache) → (get k c).0 ≡ view k c
  pub view-get :
      (k j : ℕ) (c : Cache) → (view j (get k c).1 ≡ none) ⊎ (view j (get k c).1 ≡ view j c)
  pub view-set_entry :
      (k j : ℕ) (s : Stat) (c : Cache)
      → k ≢ j
      → (view j (set_entry k s c) ≡ none) ⊎ (view j (set_entry k s c) ≡ view j c)
  pub view-remove :
      (k j : ℕ) (c : Cache) → (view j (remove k c) ≡ none) ⊎ (view j (remove k c) ≡ view j c)

-- The options that a caller gives; one that is missing keeps its default.
pub record GivenOptions : Type 0 where
  pub max_queue_size : Option ℕ
  pub throttle_timeout : Option ℕ
  pub intervals : Option (List ℕ)
  pub max_old_peers_retention : Option ℕ

abbrev or_default {ℓ} : {A : Type ℓ} → Option A → A → A
or_default none a = a
or_default (some b) a = b

unfoldable stat_options : GivenOptions → Options
stat_options g = record {
  compute_throttle_max_queue_size = or_default g.max_queue_size 1000;
  compute_throttle_timeout = or_default g.throttle_timeout 2000;
  moving_average_intervals =
      or_default g.intervals (60 * 1000 ∷ (5 * 60 * 1000) ∷ (15 * 60 * 1000) ∷ []);
}

unfoldable old_peers_retention : GivenOptions → ℕ
old_peers_retention g = or_default g.max_old_peers_retention 50

pub data Direction : Type 0 where
  incoming outgoing : Direction

-- `directionToEvent`: the counters `dataReceived` and `dataSent`.
abbrev pub event_of : Direction → ℕ
event_of incoming = 0
event_of outgoing = 1

abbrev pub initial_counters : List ℕ
initial_counters = 0 ∷ 1 ∷ []

pub record Message : Type 0 where
  pub peer : ℕ
  pub transport : Option ℕ
  pub protocol : Option ℕ
  pub direction : Direction
  pub length : ℕ

abbrev pub or_new {ℓ} : {A : Type ℓ} → A → Option A → A
or_new fresh none = fresh
or_new fresh (some s) = s

pub new_stat : Options → ℕ → Stat
unfolding Stat.init
new_stat o now = Stat.init o now initial_counters

-- The statistic of a tag, made if there is none, and its `push`.
pub count_tag : Options → ℕ → Message → ℕ → List (ℕ × Stat) → List (ℕ × Stat)
unfolding new_stat Stat.push
count_tag o now msg tag m =
    put tag
      (Stat.push o (event_of msg.direction) (some msg.length) now
        (or_new (new_stat o now) (lookup tag m)))
      m

abbrev pub each_value : (Stat → Stat) → List (ℕ × Stat) → List (ℕ × Stat)
each_value f [] = []
each_value f ((k, s) ∷ m) = (k, f s) ∷ each_value f m

abbrev pub fire_in : Options → ℕ → List (ℕ × Stat) → List (ℕ × Stat)
fire_in o tag m = elim (lookup tag m) [ none ↦ m | some s ↦ put tag (state (Stat.update o s)) m ]

-- Which statistic a timer belongs to.
pub data Target : Type 0 where
  global : Target
  of_peer of_transport of_protocol : ℕ → Target

pub data Call : Type 0 where
  messages : (now : ℕ) → Message → Call
  -- `peer:closed`
  closes : (peer : ℕ) → Call
  starts stops : Call
  fires : Target → Call

module _ (l : Lru) where
  open l use {Cache, new_cache, get, set_entry, remove}

  pub record Collection : Type 0 where
    pub global_stats : Stat
    pub peer_stats : List (ℕ × Stat)
    pub transport_stats : List (ℕ × Stat)
    pub protocol_stats : List (ℕ × Stat)
    pub old_peers : Cache
    -- how often `onMessage` is attached to the observer
    pub listeners : ℕ

  unfoldable pub init : Options → ℕ → ℕ → Collection
  unfolding new_stat
  init o retention now = record {
    global_stats = new_stat o now;
    peer_stats = [];
    transport_stats = [];
    protocol_stats = [];
    old_peers = new_cache retention;
    listeners = 0;
  }

  -- The peer's statistic, which a message brings back from the closed peers or makes anew.
  find_peer : Options → ℕ → ℕ → Collection → Stat × Collection
  unfolding new_stat Stat.start
  find_peer o now peer c = elim (lookup peer c.peer_stats) [
    | some s ↦ (s, c)
    | none ↦
        let (found, cache) = get peer c.old_peers in
        elim found [
          | some s ↦ (Stat.start o s, record c { old_peers = remove peer cache })
          | none ↦ (Stat.start o (new_stat o now), record c { old_peers = cache })
        ]
  ]

  count_peer : Options → ℕ → Message → Collection → Collection
  unfolding find_peer Stat.push
  count_peer o now msg c =
      let (s, c') = find_peer o now msg.peer c in
      record c' {
        peer_stats =
            put msg.peer (Stat.push o (event_of msg.direction) (some msg.length) now s)
              c'.peer_stats;
      }

  -- A message with a transport tag is accounted for globally, for its peer and its transport.
  count_transport : Options → ℕ → Message → Option ℕ → Collection → Collection
  unfolding count_peer count_tag Stat.push
  count_transport o now msg none c = c
  count_transport o now msg (some tag) c =
      let c' = count_peer o now msg (record c {
        global_stats = Stat.push o (event_of msg.direction) (some msg.length) now c.global_stats;
      }) in
      record c' { transport_stats = count_tag o now msg tag c'.transport_stats }

  count_protocol : Options → ℕ → Message → Option ℕ → Collection → Collection
  unfolding count_tag
  count_protocol o now msg none c = c
  count_protocol o now msg (some tag) c = record c {
    protocol_stats = count_tag o now msg tag c.protocol_stats;
  }

  on_message : Options → ℕ → Message → Collection → Collection
  unfolding count_transport count_protocol
  on_message o now msg c =
      count_protocol o now msg msg.protocol (count_transport o now msg msg.transport c)

  -- The observer calls `onMessage` as often as it was attached.
  deliver : Options → ℕ → Message → ℕ → Collection → Collection
  unfolding on_message
  deliver o now msg zero c = c
  deliver o now msg (suc n) c = deliver o now msg n (on_message o now msg c)

  on_peer_closed : ℕ → Collection → Collection
  unfolding Stat.stop
  on_peer_closed peer c = elim (lookup peer c.peer_stats) [
    | none ↦ c
    | some s ↦ record c {
      peer_stats = erase peer c.peer_stats;
      old_peers = set_entry peer (Stat.stop s) c.old_peers;
    }
  ]

  unfoldable pub start : Options → Collection → Collection
  unfolding Stat.start
  start o c = record c {
    listeners = c.listeners + 1;
    global_stats = Stat.start o c.global_stats;
    peer_stats = each_value (Stat.start o) c.peer_stats;
    transport_stats = each_value (Stat.start o) c.transport_stats;
  }

  stop : Collection → Collection
  unfolding Stat.stop
  stop c = record c {
    listeners = c.listeners - 1;
    global_stats = Stat.stop c.global_stats;
    peer_stats = each_value Stat.stop c.peer_stats;
    transport_stats = each_value Stat.stop c.transport_stats;
  }

  -- `forPeer`, `forTransport`, `forProtocol`
  unfoldable for_peer : ℕ → Collection → Option Stat × Collection
  for_peer peer c = elim (lookup peer c.peer_stats) [
    | some s ↦ (some s, c)
    | none ↦ let (found, cache) = get peer c.old_peers in (found, record c { old_peers = cache })
  ]

  unfoldable for_transport : ℕ → Collection → Option Stat
  for_transport tag c = lookup tag c.transport_stats

  unfoldable for_protocol : ℕ → Collection → Option Stat
  for_protocol tag c = lookup tag c.protocol_stats

  -- A timer of a statistic fires.
  fire : Options → Target → Collection → Collection
  unfolding Stat.update
  fire o global c = record c { global_stats = state (Stat.update o c.global_stats) }
  fire o (of_peer k) c = record c { peer_stats = fire_in o k c.peer_stats }
  fire o (of_transport k) c = record c { transport_stats = fire_in o k c.transport_stats }
  fire o (of_protocol k) c = record c { protocol_stats = fire_in o k c.protocol_stats }

  step : Options → Call → Collection → Collection
  unfolding deliver on_peer_closed start stop fire
  step o (messages now msg) c = deliver o now msg c.listeners c
  step o (closes peer) c = on_peer_closed peer c
  step o starts c = start o c
  step o stops c = stop c
  step o (fires t) c = fire o t c

  unfoldable pub run : Options → List Call → Collection → Collection
  unfolding step
  run o [] c = c
  run o (a ∷ rest) c = run o rest (step o a c)
