-- ===== src/Dialer/Queue/Denylist.antt =====
-- How long a queue of src/dialer/queue.js is denied: `denylist`, `isDialAllowed` and `add`.
use js_libp2p_swarm.Prelude.{
  ℕ, ◌+◌, ◌-◌, ◌*◌, ◌/◌, ◌≤◌, ◌<◌, ◌≡◌, Bool, true, false, List, [], ◌∷◌, arith, leb, ◌==◌, ◌&&◌,
  length,
}
use js_libp2p_swarm.Errors.{err_denied}
use js_libp2p_swarm.Dialer.Context.{Context, random_unit}
use js_libp2p_swarm.Dialer.Queue.{
  Queue, Dial, allowed, until, forever, Deny, deferred, add, jitter, base_ttl, denylist, abort,
}

-- The two products of `jitter`, by the fraction that `Math.random` gave.
jitter_product : (r t u : ℕ) → r < u → r * (t * 11 - t * 9) ≤ u * (t * 2)
jitter_product r t u h = let e : t * 11 - t * 9 ≡ t * 2 = omega arith in rw e (grind arith)

-- For a random number below 1 the denial lasts at least nine and at most eleven tenths of the time
-- that it is given, both rounded down.
jitter_bounds :
    (random ttl : ℕ)
    → random < random_unit
    → (ttl * 9 / 10 ≤ jitter random ttl) × (jitter random ttl ≤ ttl * 11 / 10)
unfolding jitter
jitter_bounds random ttl h = omega (arith, jitter_product random ttl random_unit h)

module _ (c later : Context) (q : Queue) (d : Dial) where
  -- A failure below the limit of attempts, with a random number below 1, denies the peer: until
  -- nine tenths of the scheduled time are over, a request is refused and changes nothing.
  pub denylist-add_early :
      c.random < random_unit
      → q.denylist_count + 1 < c.deny_attempts
      → later.now < c.now + base_ttl c (q.denylist_count + 1) * 9 / 10
      → let denied = (denylist c q).queue in
        ((add later d denied).effects ≡ deferred d.callback err_denied ∷ [])
        × ((add later d denied).queue ≡ denied)
  unfolding denylist add abort
  denylist-add_early r h early =
      ground (arith, jitter_bounds c.random (base_ttl c (q.denylist_count + 1)))

  -- A failure below the limit of attempts, with a random number below 1 and a clock that is not at
  -- 0, denies the peer for a time: once eleven tenths of the scheduled time are over, a request is
  -- queued, as the only one, and the denial is reset.
  pub denylist-add_late :
      c.random < random_unit
      → 0 < c.now
      → q.denylist_count + 1 < c.deny_attempts
      → c.now + base_ttl c (q.denylist_count + 1) * 11 / 10 < later.now
      → let o = add later d (denylist c q).queue in
        (o.effects ≡ []) × (o.queue.queue ≡ d ∷ []) × (o.queue.denylisted ≡ allowed)
  unfolding denylist add abort
  denylist-add_late r p h late =
      ground (arith, jitter_bounds c.random (base_ttl c (q.denylist_count + 1)))

  -- At the limit of attempts the peer is denied for good: every later request is refused, and the
  -- dials that were queued are neither aborted nor is the queue stopped.
  pub denylist_forever :
      c.deny_attempts ≤ q.denylist_count + 1
      → let o = denylist c q in
        (o.effects ≡ [])
        × (o.stopped ≡ false)
        × (o.queue.queue ≡ q.queue)
        × (o.queue.is_running ≡ q.is_running)
        × (o.queue.denylisted ≡ forever)
        × ((add later d o.queue).effects ≡ deferred d.callback err_denied ∷ [])
        × ((add later d o.queue).queue ≡ o.queue)
  unfolding denylist add abort
  denylist_forever h = ground arith

-- The queue after failures at the given readings, none of which is forgiven.
abbrev pub denylist_all : List Context → Queue → Queue
denylist_all [] q = q
denylist_all (c ∷ cs) q = denylist_all cs (denylist c q).queue

abbrev pub all_limit : ℕ → List Context → Bool
all_limit n [] = true
all_limit n (c ∷ cs) = (c.deny_attempts == n) && all_limit n cs

count-denylist :
    (c : Context) (q : Queue) → (denylist c q).queue.denylist_count ≡ q.denylist_count + 1
unfolding denylist abort
count-denylist c q = ground arith

abbrev pub is_forever : Deny → Bool
is_forever allowed = false
is_forever (until t) = false
is_forever forever = true

forever-denylist :
    (c : Context) (q : Queue)
    → is_forever (denylist c q).queue.denylisted ≡ leb c.deny_attempts (q.denylist_count + 1)
unfolding denylist abort
forever-denylist c q = ground arith

-- One or more failures, at one limit of attempts, are each counted, and the peer is denied for
-- good after them exactly if the count has reached the limit.
pub denylist_all_forever :
    (c : Context) (cs : List Context) (q : Queue)
    → all_limit c.deny_attempts cs ≡ true
    → (is_forever (denylist_all (c ∷ cs) q).denylisted
        ≡ leb c.deny_attempts (q.denylist_count + length (c ∷ cs)))
      × ((denylist_all (c ∷ cs) q).denylist_count ≡ q.denylist_count + length (c ∷ cs))
denylist_all_forever c [] q h = ground (arith, count-denylist c q, forever-denylist c q)
denylist_all_forever c (b ∷ cs) q h =
    ground (arith, count-denylist c q, denylist_all_forever b cs (denylist c q).queue)
