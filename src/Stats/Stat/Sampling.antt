-- ===== src/Stats/Stat/Sampling.antt =====
-- What the moving averages of src/stats/stat.js are told: every counted unit, once.
use js_libp2p_swarm.Prelude.{
  ℕ, ◌+◌, ◌≡◌, refl, true, false, none, List, [], ◌∷◌, ◌++◌, arith, ◌==◌, lookup, lookup-put, has,
  distinct, Option-cases, inl, inr, Bool-cases, ==→≡,
}
use js_libp2p_swarm.Stats.Stat.{
  Options, Op, Sample, Averages, Stat, TimeDiff, forward, or_empty, push_average, push_averages,
  init, initial, start, stop, push, reset_compute_timeout, apply_op, update_frequency_for,
  update_each, update_frequency, work_off, update_queue, update, state, Call, pushes, starts, stops,
  fires, step, run, safe_time_diff, time_diff,
}
use js_libp2p_swarm.Stats.Stat.Counting.{counter_of}

abbrev pub units : List Sample → ℕ
units [] = 0
units (x ∷ l) = x.units + units l

units-append : (a b : List Sample) → units (a ++ b) ≡ units a + units b
units-append [] b = omega arith
units-append (x ∷ a) b = omega (arith, units-append a b)

-- What the moving average of an interval was told of a counter.
abbrev pub sampled : ℕ → ℕ → List (ℕ × Averages) → ℕ
sampled interval key averages = units (or_empty (lookup interval (or_empty (lookup key averages))))

lookup-push_averages_ne :
    (x : Sample) (i : ℕ) (is : List ℕ) (avs : Averages)
    → has i is ≡ false
    → lookup i (push_averages x is avs) ≡ lookup i avs
unfolding push_averages push_average
lookup-push_averages_ne x i [] avs h = refl
lookup-push_averages_ne x i (j ∷ is) avs h = ground (
  arith,
  lookup-push_averages_ne x i is (push_average x j avs),
  lookup-put j i (or_empty (lookup j avs) ++ x ∷ []) avs,
)

units-push_averages :
    (x : Sample) (i : ℕ) (is : List ℕ) (avs : Averages)
    → distinct is ≡ true
    → has i is ≡ true
    → units (or_empty (lookup i (push_averages x is avs)))
      ≡ units (or_empty (lookup i avs)) + x.units
unfolding push_averages push_average
units-push_averages x i [] avs d h = ground arith
units-push_averages x i (j ∷ is) avs d h = elim (Bool-cases (j == i)) [
  | inl y ↦ ground (
    arith,
    ==→≡ j i y,
    lookup-push_averages_ne x i is (push_average x j avs),
    lookup-put j i (or_empty (lookup j avs) ++ x ∷ []) avs,
    units-append (or_empty (lookup i avs)) (x ∷ []),
  )
  | inr n ↦ ground (
    arith,
    units-push_averages x i is (push_average x j avs),
    lookup-put j i (or_empty (lookup j avs) ++ x ∷ []) avs,
  )
]

-- What is counted of a key is what its moving average was told, and what is accumulated since.
abbrev pub Balanced : ℕ → ℕ → Stat → Type 0
Balanced interval key s =
    sampled interval key s.moving_averages + counter_of key s.frequency_accumulators
    ≡ counter_of key s.stats

module _ (o : Options) (i key : ℕ) (d : distinct o.moving_average_intervals ≡ true)
    (h : has i o.moving_average_intervals ≡ true) where
  update_frequency_for-Balanced :
      (k : ℕ) (diff : TimeDiff) (t : ℕ) (s : Stat)
      → Balanced i key s
      → Balanced i key (update_frequency_for o k diff t s)
  unfolding update_frequency_for
  update_frequency_for-Balanced k diff t s b =
      let x : Sample = record {
        time = t;
        units = counter_of k s.frequency_accumulators;
        millis = safe_time_diff diff;
      } in
      let avs = or_empty (lookup k s.moving_averages) in
      ground (
        arith,
        ==→≡ k key,
        lookup-put k key 0 s.frequency_accumulators,
        lookup-put k key (push_averages x o.moving_average_intervals avs) s.moving_averages,
        units-push_averages x i o.moving_average_intervals avs d h,
      )

  update_each-Balanced :
      (m : List (ℕ × ℕ)) (diff : TimeDiff) (t : ℕ) (s : Stat)
      → Balanced i key s
      → Balanced i key (update_each o m diff t s)
  unfolding update_each
  update_each-Balanced [] diff t s b = b
  update_each-Balanced ((k, n) ∷ m) diff t s b =
      update_each-Balanced m diff t (update_frequency_for o k diff t s)
        (update_frequency_for-Balanced k diff t s b)

  apply_op-Balanced : (k n : ℕ) (s : Stat) → Balanced i key s → Balanced i key (apply_op k n s)
  unfolding apply_op
  apply_op-Balanced k n s b = ground (
    arith,
    ==→≡ k key,
    lookup-put k key (counter_of k s.stats + n) s.stats,
    lookup-put k key (counter_of k s.frequency_accumulators + n) s.frequency_accumulators,
  )

  work_off-Balanced :
      (ops : List Op) (last : ℕ) (s : Stat)
      → Balanced i key s
      → Balanced i key (state (work_off o ops last s))
  unfolding work_off update_frequency
  work_off-Balanced [] last s b =
      update_each-Balanced s.stats (time_diff last s.frequency_last_time) last
        (record s { queue = [] }) b
  work_off-Balanced (op ∷ ops) last s b = elim (Option-cases op.inc) [
    | inl e ↦ rw (e, work_off) b
    | inr (n, e) ↦
        rw (e, work_off)
          (work_off-Balanced ops op.time (apply_op op.counter n s)
            (apply_op-Balanced op.counter n s b))
  ]

  update_queue-Balanced :
      (ops : List Op) (s : Stat) → Balanced i key s → Balanced i key (state (update_queue o ops s))
  unfolding update_queue
  update_queue-Balanced [] s b = b
  update_queue-Balanced (op ∷ ops) s b = work_off-Balanced (op ∷ ops) op.time s b

  step-Balanced : (a : Call) (s : Stat) → Balanced i key s → Balanced i key (step o a s)
  unfolding step push start stop reset_compute_timeout update
  step-Balanced (pushes counter inc now) s b = b
  step-Balanced starts s b = ground arith
  step-Balanced stops s b = b
  step-Balanced fires s b = update_queue-Balanced s.queue (record s { timeout = none }) b

  run-Balanced : (calls : List Call) (s : Stat) → Balanced i key s → Balanced i key (run o calls s)
  unfolding run
  run-Balanced [] s b = b
  run-Balanced (a ∷ rest) s b = run-Balanced rest (step o a s) (step-Balanced a s b)

  initial-Balanced :
      (now : ℕ) (counters : List ℕ) (s : Stat)
      → counter_of key s.frequency_accumulators ≡ 0
      → counter_of key s.stats ≡ 0
      → sampled i key s.moving_averages ≡ 0
      → Balanced i key (initial o now counters s)
  unfolding initial
  initial-Balanced now [] s a c m = omega arith
  initial-Balanced now (k ∷ rest) s a c m =
      let x : Sample = record { time = now; units = 0; millis = forward 1 } in
      initial-Balanced now rest _ a (ground (arith, lookup-put k key 0 s.stats)) (
        ground (
          arith,
          lookup-put k key (push_averages x o.moving_average_intervals []) s.moving_averages,
          units-push_averages x i o.moving_average_intervals [] d h,
        ))

  -- At distinct intervals, and after any history, a counter is what the moving average of an
  -- interval was told of it, and what has been counted since the last update of the frequencies.
  pub run-sampled :
      (now : ℕ) (counters : List ℕ) (calls : List Call)
      → Balanced i key (run o calls (init o now counters))
  run-sampled now counters calls =
      run-Balanced calls (init o now counters)
        (unfold init in initial-Balanced now counters _ refl refl refl)
