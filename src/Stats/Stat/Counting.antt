-- ===== src/Stats/Stat/Counting.antt =====
-- What a `Stats` object of src/stats/stat.js counts: nothing that was pushed is lost between the
-- queue, the counters, the accumulators and the moving averages.
use js_libp2p_swarm.Prelude.{
  ℕ, ◌+◌, ◌≡◌, refl, Bool, true, false, ◌&&◌, none, some, List, [], ◌∷◌, ◌++◌, arith, ◌==◌,
  if◌then◌else◌, lookup, lookup-put, Option-cases, inl, inr, ◌∙◌, ap, ==→≡,
}
use js_libp2p_swarm.Stats.Stat.{
  Options, Op, Stat, TimeDiff, or_zero, start, stop, push, reset_compute_timeout, apply_op,
  update_frequency_for, update_each, update_frequency, work_off, update_queue, update, returned,
  state, Call, pushes, starts, stops, fires, step, run, time_diff,
}

abbrev pub counter_of : ℕ → List (ℕ × ℕ) → ℕ
counter_of key m = or_zero (lookup key m)

-- The increments of a counter that are queued, and that a history pushes.
abbrev pub queued : ℕ → List Op → ℕ
queued key [] = 0
queued key (op ∷ ops) = (if op.counter == key then or_zero op.inc else 0) + queued key ops

abbrev pub pushed : ℕ → List Call → ℕ
pushed key [] = 0
pushed key (pushes counter inc now ∷ rest) =
    (if counter == key then or_zero inc else 0) + pushed key rest
pushed key (_ ∷ rest) = pushed key rest

-- What the object knows of a counter.
abbrev pub counted : ℕ → Stat → ℕ
counted key s = counter_of key s.stats + queued key s.queue

queued-append : (key : ℕ) (a b : List Op) → queued key (a ++ b) ≡ queued key a + queued key b
queued-append key [] b = omega arith
queued-append key (op ∷ a) b = ground (arith, queued-append key a b)

-- `_updateFrequency` writes the accumulators and the moving averages only.
same-update_each :
    (o : Options) (m : List (ℕ × ℕ)) (d : TimeDiff) (t : ℕ) (s : Stat)
    → update_each o m d t s ≡ record s {
      frequency_accumulators = (update_each o m d t s).frequency_accumulators;
      moving_averages = (update_each o m d t s).moving_averages;
    }
unfolding update_each update_frequency_for
same-update_each o [] d t s = refl
same-update_each o ((key, n) ∷ m) d t s =
    same-update_each o m d t (update_frequency_for o key d t s)

same-update_frequency :
    (o : Options) (t : ℕ) (s : Stat)
    → ((update_frequency o t s).stats ≡ s.stats)
      × ((update_frequency o t s).queue ≡ s.queue)
      × ((update_frequency o t s).timeout ≡ s.timeout)
      × ((update_frequency o t s).updates ≡ s.updates)
unfolding update_frequency
same-update_frequency o t s =
    let e = same-update_each o s.stats (time_diff t s.frequency_last_time) t s in
    (ap (λ x. x.stats) e, ap (λ x. x.queue) e, ap (λ x. x.timeout) e, ap (λ x. x.updates) e)

counter-apply_op :
    (key k n : ℕ) (s : Stat)
    → counter_of key (apply_op k n s).stats ≡ counter_of key s.stats + (if k == key then n else 0)
unfolding apply_op
counter-apply_op key k n s =
    ground (arith, lookup-put k key (counter_of k s.stats + n) s.stats, ==→≡ k key)

-- Working off keeps the sum of the counter and what is queued.
counted-work_off :
    (o : Options) (ops : List Op) (last key : ℕ) (s : Stat)
    → counted key (state (work_off o ops last s)) ≡ counter_of key s.stats + queued key ops
unfolding work_off
counted-work_off o [] last key s =
    ground (arith, same-update_frequency o last (record s { queue = [] }))
counted-work_off o (op ∷ ops) last key s = elim (Option-cases op.inc) [
  | inl e ↦ rw (e, work_off) (ground arith)
  | inr (n, e) ↦
      rw (e, work_off)
        (counted-work_off o ops op.time key (apply_op op.counter n s)
          ∙ ground (arith, counter-apply_op key op.counter n s))
]

counted-update :
    (o : Options) (key : ℕ) (s : Stat) → counted key (state (update o s)) ≡ counted key s
unfolding update
counted-update o key s = from_queue s.queue
  where
    from_queue :
        (ops : List Op)
        → counted key (state (update_queue o ops (record s { timeout = none; queue = ops })))
          ≡ counter_of key s.stats + queued key ops
    from_queue [] = unfold update_queue in refl
    from_queue (op ∷ ops) =
        unfold update_queue in
        counted-work_off o (op ∷ ops) op.time key (record s { timeout = none; queue = op ∷ ops })

pub counted-step :
    (o : Options) (a : Call) (key : ℕ) (s : Stat)
    → counted key (step o a s) ≡ counted key s + pushed key (a ∷ [])
unfolding step push start stop reset_compute_timeout
counted-step o (pushes counter inc now) key s =
    ground
      (arith, queued-append key s.queue (record { counter = counter; inc = inc; time = now } ∷ []))
counted-step o starts key s = ground arith
counted-step o stops key s = omega arith
counted-step o fires key s = omega (arith, counted-update o key s)

-- Whatever is called, started, stopped and fired, a counter and what is queued for it are together
-- what they were and all the increments that were pushed, also where an increment that is no number
-- throws, which counts for nothing.
pub run-counted :
    (o : Options) (calls : List Call) (key : ℕ) (s : Stat)
    → counted key (run o calls s) ≡ counted key s + pushed key calls
unfolding run
run-counted o [] key s = omega arith
run-counted o (a ∷ rest) key s =
    ground (arith, run-counted o rest key (step o a s), counted-step o a key s, pushed-cons a)
  where
    pushed-cons : (a : Call) → pushed key (a ∷ rest) ≡ pushed key (a ∷ []) + pushed key rest
    pushed-cons (pushes counter inc now) = omega arith
    pushed-cons starts = omega arith
    pushed-cons stops = omega arith
    pushed-cons fires = omega arith

abbrev pub all_numbers : List Op → Bool
all_numbers [] = true
all_numbers (op ∷ ops) = (elim op.inc [ none ↦ false | some n ↦ true ]) && all_numbers ops

worked_off :
    (o : Options) (ops : List Op) (last : ℕ) (s : Stat)
    → all_numbers ops ≡ true
    → (s' : Stat) × (work_off o ops last s ≡ returned s')
      × (s'.queue ≡ [])
      × (s'.timeout ≡ s.timeout)
      × (s'.updates ≡ s.updates + 1)
unfolding work_off
worked_off o [] last s h =
    let same = same-update_frequency o last (record s { queue = [] }) in
    (_, refl, same.1, same.2, ap (λ n. n + 1) same.3)
worked_off o (op ∷ ops) last s h = elim (Option-cases op.inc) [
  | inl e ↦ absurd (ground arith)
  | inr (n, e) ↦
      rw (e, work_off) (worked_off o ops op.time (apply_op op.counter n s) (ground arith))
]

-- When the timer fires on a queue of numbers, the whole queue is worked off and `update` emitted:
-- every counter holds what it held and all that was queued, the queue is empty and no timer is set.
pub update-flushed :
    (o : Options) (s : Stat) (op : Op) (ops : List Op)
    → s.queue ≡ op ∷ ops
    → all_numbers s.queue ≡ true
    → (s' : Stat) × (update o s ≡ returned s')
      × (s'.queue ≡ [])
      × (s'.timeout ≡ none)
      × (s'.updates ≡ s.updates + 1)
      × ((key : ℕ) → counter_of key s'.stats ≡ counted key s)
unfolding update update_queue
update-flushed o s op ops q h =
    let done = worked_off o (op ∷ ops) op.time (record s { timeout = none }) (ground (arith, h)) in
    let e : update o s ≡ returned done.0 =
      ap (λ x. update_queue o x (record s { timeout = none })) q ∙ done.1 in
    (
      done.0,
      e,
      done.2,
      done.3,
      done.4,
      λ key. ground (arith, counted-update o key s, ap (λ x. counted key (state x)) e, done.2),
    )
