-- ===== src/Stats/Examples.antt =====
-- The theorems on the statistics of src/stats/ at inputs that meet their hypotheses.
use js_libp2p_swarm.Prelude.{
  ℕ, ◌+◌, ◌≡◌, refl, Option, none, some, List, [], ◌∷◌, ◌==◌, if◌then◌else◌, ◌≢◌, arith, ==→≡, inl,
  inr,
}
use js_libp2p_swarm.Stats.Stat.{
  Options, Op, Stat, returned, init, run, update, Call, pushes, starts, stops, fires,
}
use js_libp2p_swarm.Stats.Stat.Counting.{counted, pushed, counter_of, run-counted, update-flushed}
use js_libp2p_swarm.Stats.Stat.Sampling.{Balanced, run-sampled}
use js_libp2p_swarm.Stats.Collection.{
  Collection, Lru, Message, incoming, outgoing, messages, closes,
}
use js_libp2p_swarm.Stats.Collection
use js_libp2p_swarm.Stats.Collection.Shares.{transport, carried}
use js_libp2p_swarm.Stats.Collection.Carried.{total, run-carried}

-- A throttle of two seconds, and moving averages over one and five minutes.
abbrev pub some_options : Options
some_options = record {
  compute_throttle_max_queue_size = 1000;
  compute_throttle_timeout = 2000;
  moving_average_intervals = 60000 ∷ 300000 ∷ [];
}

-- Twelve units, then an increment that is no number, and five units of another counter.
abbrev history : List Call
history =
    starts
    ∷ pushes 0 (some 12) 100
    ∷ fires
    ∷ pushes 0 none 200
    ∷ pushes 1 (some 5) 300
    ∷ fires
    ∷ stops
    ∷ []

abbrev fresh : Stat
fresh = init some_options 0 (0 ∷ 1 ∷ [])

run-counted_example :
    counted 0 (run some_options history fresh) ≡ counted 0 fresh + pushed 0 history
run-counted_example = run-counted some_options history 0 fresh

abbrev queued_op : ℕ → Op
queued_op n = record { counter = 0; inc = some n; time = 10 + n }

-- Two increments are queued and the timer is set.
abbrev loaded : Stat
loaded = record {
  queue = queued_op 3 ∷ queued_op 4 ∷ [];
  stats = (0, 5) ∷ [];
  frequency_last_time = 2;
  frequency_accumulators = (0, 1) ∷ [];
  moving_averages = [];
  timeout = some (1996000, 1000);
  updates = 2;
}

update-flushed_example :
    (s : Stat) × (update some_options loaded ≡ returned s)
    × (s.queue ≡ [])
    × (s.timeout ≡ none)
    × (s.updates ≡ 3)
    × ((key : ℕ) → counter_of key s.stats ≡ counted key loaded)
update-flushed_example =
    update-flushed some_options loaded (queued_op 3) (queued_op 4 ∷ []) refl refl

run-sampled_example : Balanced 60000 0 (run some_options history fresh)
run-sampled_example = run-sampled some_options 60000 0 refl refl 0 (0 ∷ 1 ∷ []) history

abbrev Entry : Type 0
Entry = Option (ℕ × Stat)

abbrev entry_at : ℕ → Entry → Option Stat
entry_at k none = none
entry_at k (some (j, s)) = if j == k then some s else none

pub entry_at_ne : (k j : ℕ) (s : Stat) → k ≢ j → entry_at j (some (k, s)) ≡ none
entry_at_ne k j s n = ground (arith, ==→≡ k j)

-- A cache of one entry.
abbrev pub one_entry : Lru
one_entry = record {
  Cache = Entry;
  new_cache = λ n. none;
  get = λ k c. (entry_at k c, c);
  set_entry = λ k s c. some (k, s);
  remove = λ k c. none;
  view = entry_at;
  view-new_cache = λ k n. refl;
  get-view = λ k c. refl;
  view-get = λ k j c. inr refl;
  view-set_entry = λ k j s c n. inl (entry_at_ne k j s n);
  view-remove = λ k j c. inl refl;
}

abbrev message : ℕ → Message
message n = record {
  peer = 7;
  transport = some 1;
  protocol = some 2;
  direction = incoming;
  length = n;
}

-- A message before the start is not counted; the peer is closed and comes back.
abbrev traffic : List Collection.Call
traffic =
    messages 100 (message 9)
    ∷ Collection.starts
    ∷ messages 200 (message 20)
    ∷ closes 7
    ∷ messages 300 (message 30)
    ∷ Collection.stops
    ∷ []

abbrev pub empty_collection : Collection one_entry
empty_collection = Collection.init one_entry some_options 50 0

run-carried_example :
    total one_entry some_options 0
      (transport 1)
      (Collection.run one_entry some_options traffic empty_collection)
    ≡ total one_entry some_options 0 (transport 1) empty_collection
      + carried 0 (transport 1) empty_collection.listeners traffic
run-carried_example = run-carried one_entry some_options 0 (transport 1) traffic empty_collection
