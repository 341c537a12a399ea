-- ===== src/Stats/Stat.antt =====
-- src/stats/stat.js: a `Stats` object. Operations are queued and worked off when a timer fires.
-- Counters and intervals are numbers; big numbers are exact. The packages `retimer` and
-- `moving-average` are seen by their calls: the delay that the timer was given, and what each
-- moving average was told. A rate stays a fraction.
pub mod Counting
pub mod Sampling
use js_libp2p_swarm.Prelude.{
  ℕ, zero, ◌+◌, ◌-◌, ◌*◌, Option, none, some, List, [], ◌∷◌, ◌++◌, leb, ◌==◌, if◌then◌else◌, length,
  lookup, put,
}

pub record Options : Type 0 where
  pub compute_throttle_max_queue_size : ℕ
  pub compute_throttle_timeout : ℕ
  pub moving_average_intervals : List ℕ

-- An increment that is not a number is `none`.
pub record Op : Type 0 where
  pub counter : ℕ
  pub inc : Option ℕ
  pub time : ℕ

-- A difference of two times; the clock may be set back. It is never `backward 0`.
pub data TimeDiff : Type 0 where
  forward backward : ℕ → TimeDiff

-- What a moving average is told: at a time, so many units in so many milliseconds. The rate is
-- `units * 1000` by the difference.
pub record Sample : Type 0 where
  pub time : ℕ
  pub units : ℕ
  pub millis : TimeDiff

-- The samples of each interval of a counter.
abbrev pub Averages : Type 0
Averages = List (ℕ × List Sample)

pub record Stat : Type 0 where
  pub queue : List Op
  pub stats : List (ℕ × ℕ)
  pub frequency_last_time : ℕ
  pub frequency_accumulators : List (ℕ × ℕ)
  pub moving_averages : List (ℕ × Averages)
  -- the delay that the timer was set to, a fraction
  pub timeout : Option (ℕ × ℕ)
  -- how often `update` was emitted
  pub updates : ℕ

abbrev pub or_zero : Option ℕ → ℕ
or_zero none = 0
or_zero (some n) = n

abbrev pub or_empty {ℓ} : {A : Type ℓ} → Option (List A) → List A
or_empty none = []
or_empty (some l) = l

-- `movingAverage.push(time, hz)`, on a moving average that is made if there is none.
push_average : Sample → ℕ → Averages → Averages
push_average sample interval averages =
    put interval (or_empty (lookup interval averages) ++ sample ∷ []) averages

push_averages : Sample → List ℕ → Averages → Averages
unfolding push_average
push_averages sample [] averages = averages
push_averages sample (interval ∷ rest) averages =
    push_averages sample rest (push_average sample interval averages)

-- The constructor's loop.
unfoldable pub initial : Options → ℕ → List ℕ → Stat → Stat
unfolding push_averages
initial o now [] s = s
initial o now (key ∷ rest) s = initial o now rest (record s {
  stats = put key 0 s.stats;
  moving_averages =
      put key
        (push_averages (record { time = now; units = 0; millis = forward 1 })
          o.moving_average_intervals [])
        s.moving_averages;
})

unfoldable pub init : Options → ℕ → List ℕ → Stat
unfolding initial
init o now counters = initial o now counters (record {
  queue = [];
  stats = [];
  frequency_last_time = now;
  frequency_accumulators = [];
  moving_averages = [];
  timeout = none;
  updates = 0;
})

-- `Math.max(computeThrottleTimeout * (1 - length / computeThrottleMaxQueueSize), 0)`: the
-- difference stops at 0, as the maximum does.
next_timeout : Options → Stat → ℕ × ℕ
next_timeout o s = (
  o.compute_throttle_timeout * (o.compute_throttle_max_queue_size - length s.queue),
  o.compute_throttle_max_queue_size,
)

-- A timer that is set is rescheduled, and one is made otherwise.
reset_compute_timeout : Options → Stat → Stat
unfolding next_timeout
reset_compute_timeout o s = record s { timeout = some (next_timeout o s) }

unfoldable pub start : Options → Stat → Stat
unfolding reset_compute_timeout
start o s = if length s.queue == 0 then s else reset_compute_timeout o s

unfoldable pub stop : Stat → Stat
stop s = record s { timeout = none }

unfoldable pub push : Options → ℕ → Option ℕ → ℕ → Stat → Stat
unfolding reset_compute_timeout
push o counter inc now s =
    reset_compute_timeout o
      (record s { queue = s.queue ++ record { counter = counter; inc = inc; time = now } ∷ [] })

-- `_applyOp` with an increment that is a number.
apply_op : ℕ → ℕ → Stat → Stat
apply_op key inc s = record s {
  stats = put key (or_zero (lookup key s.stats) + inc) s.stats;
  frequency_accumulators =
      put key (or_zero (lookup key s.frequency_accumulators) + inc) s.frequency_accumulators;
}

time_diff : ℕ → ℕ → TimeDiff
time_diff latest last =
    if leb last latest then forward (latest - last) else backward (last - latest)

-- `timeDiffMS || 1`
safe_time_diff : TimeDiff → TimeDiff
safe_time_diff (forward zero) = forward 1
safe_time_diff d = d

-- `_updateFrequencyFor`
update_frequency_for : Options → ℕ → TimeDiff → ℕ → Stat → Stat
unfolding safe_time_diff push_averages
update_frequency_for o key diff latest s =
    let sample : Sample = record {
      time = latest;
      units = or_zero (lookup key s.frequency_accumulators);
      millis = safe_time_diff diff;
    } in
    record s {
      frequency_accumulators = put key 0 s.frequency_accumulators;
      moving_averages =
          put key
            (push_averages sample o.moving_average_intervals
              (or_empty (lookup key s.moving_averages)))
            s.moving_averages;
    }

update_each : Options → List (ℕ × ℕ) → TimeDiff → ℕ → Stat → Stat
unfolding update_frequency_for
update_each o [] diff latest s = s
update_each o ((key, n) ∷ rest) diff latest s =
    update_each o rest diff latest (update_frequency_for o key diff latest s)

-- `_updateFrequency`
update_frequency : Options → ℕ → Stat → Stat
unfolding time_diff update_each
update_frequency o latest s =
    record (update_each o s.stats (time_diff latest s.frequency_last_time) latest s) {
      frequency_last_time = latest;
    }

-- `_update` either returns, or the operation that was shifted last is no number and throws.
pub data Completion : Type 0 where
  returned threw : Stat → Completion

abbrev pub state : Completion → Stat
state (returned s) = s
state (threw s) = s

-- The loop, the frequencies and the event: `ops` is what is still queued, `last` the time of the
-- operation that was shifted last.
work_off : Options → List Op → ℕ → Stat → Completion
unfolding apply_op update_frequency
work_off o [] last s = returned (
    let s' = update_frequency o last (record s { queue = [] }) in
    record s' { updates = s'.updates + 1 })
work_off o (op ∷ ops) last s = elim op.inc [
  | none ↦ threw (record s { queue = ops })
  | some n ↦ work_off o ops op.time (apply_op op.counter n s)
]

-- `_update` without its first line.
update_queue : Options → List Op → Stat → Completion
unfolding work_off
update_queue o [] s = returned s
update_queue o (op ∷ ops) s = work_off o (op ∷ ops) op.time s

unfoldable pub update : Options → Stat → Completion
unfolding update_queue
update o s = update_queue o s.queue (record s { timeout = none })

-- All that happens to a `Stats` object; `fires` is the timer.
pub data Call : Type 0 where
  pushes : (counter : ℕ) → (inc : Option ℕ) → (now : ℕ) → Call
  starts stops fires : Call

unfoldable pub step : Options → Call → Stat → Stat
unfolding push start stop update
step o (pushes counter inc now) s = push o counter inc now s
step o starts s = start o s
step o stops s = stop s
step o fires s = state (update o s)

pub run : Options → List Call → Stat → Stat
unfolding step
run o [] s = s
run o (a ∷ rest) s = run o rest (step o a s)
