-- ===== src/Stats/Collection/Shares.antt =====
-- The statistics of one kind in src/stats/index.js, by their tags, and which traffic is theirs.
use js_libp2p_swarm.Prelude.{
  ℕ, ◌+◌, ◌-◌, ◌*◌, ◌≡◌, refl, Bool, true, false, Option, none, some, List, [], ◌∷◌, arith, ◌==◌,
  if◌then◌else◌, lookup, lookup-put, Option-cases, inl, inr, ==→≡,
}
use js_libp2p_swarm.Stats.Stat.{Options, Stat, state}
use js_libp2p_swarm.Stats.Stat
use js_libp2p_swarm.Stats.Stat.Counting.{counted, counted-step}
use js_libp2p_swarm.Stats.Collection.{
  Message, event_of, new_stat, count_tag, each_value, Call, messages, closes, starts, stops, fires,
  fire_in,
}

-- What a tag's statistic counts, queued increments included.
abbrev pub reading : ℕ → ℕ → List (ℕ × Stat) → ℕ
reading event tag m = elim (lookup tag m) [ none ↦ 0 | some s ↦ counted event s ]

-- The length of a message for a counter.
abbrev pub length_for : ℕ → Message → ℕ
length_for event msg = if event_of msg.direction == event then msg.length else 0

pub counted-new_stat : (o : Options) (now event : ℕ) → counted event (new_stat o now) ≡ 0
unfolding new_stat Stat.init Stat.initial
counted-new_stat o now event = ground arith

pub counted-push :
    (o : Options) (k n now event : ℕ) (s : Stat)
    → counted event (Stat.push o k (some n) now s) ≡ counted event s + (if k == event then n else 0)
counted-push o k n now event s =
    unfold Stat.step in omega (arith, counted-step o (Stat.pushes k (some n) now) event s)

pub counted-start :
    (o : Options) (event : ℕ) (s : Stat) → counted event (Stat.start o s) ≡ counted event s
counted-start o event s = unfold Stat.step in omega (arith, counted-step o Stat.starts event s)

pub counted-stop : (event : ℕ) (s : Stat) → counted event (Stat.stop s) ≡ counted event s
unfolding Stat.stop
counted-stop event s = refl

pub counted-fires :
    (o : Options) (event : ℕ) (s : Stat) → counted event (state (Stat.update o s)) ≡ counted event s
counted-fires o event s = unfold Stat.step in omega (arith, counted-step o Stat.fires event s)

pub reading-count_tag :
    (o : Options) (now event : ℕ) (msg : Message) (tag j : ℕ) (m : List (ℕ × Stat))
    → reading event j (count_tag o now msg tag m)
      ≡ reading event j m + (if tag == j then length_for event msg else 0)
unfolding count_tag
reading-count_tag o now event msg tag j m = elim (Option-cases (lookup tag m)) [
  | inl e ↦ ground (
    arith,
    ==→≡ tag j,
    lookup-put tag j (Stat.push o (event_of msg.direction) (some msg.length) now (new_stat o now))
        m,
    counted-push o (event_of msg.direction) msg.length now event (new_stat o now),
    counted-new_stat o now event,
  )
  | inr (s, e) ↦ ground (
    arith,
    ==→≡ tag j,
    lookup-put tag j (Stat.push o (event_of msg.direction) (some msg.length) now s) m,
    counted-push o (event_of msg.direction) msg.length now event s,
  )
]

pub reading-each_value :
    (f : Stat → Stat) (event j : ℕ) (m : List (ℕ × Stat))
    → ((s : Stat) → counted event (f s) ≡ counted event s)
    → reading event j (each_value f m) ≡ reading event j m
reading-each_value f event j [] keep = refl
reading-each_value f event j ((k, s) ∷ m) keep =
    ground (arith, keep s, reading-each_value f event j m keep)

pub reading-fire_in :
    (o : Options) (event k j : ℕ) (m : List (ℕ × Stat))
    → reading event j (fire_in o k m) ≡ reading event j m
reading-fire_in o event k j m = elim (Option-cases (lookup k m)) [
  | inl e ↦ ground arith
  | inr (s, e) ↦
      ground (arith, ==→≡ k j, lookup-put k j (state (Stat.update o s)) m, counted-fires o event s)
]

-- The traffic that a statistic is about.
pub data Tag : Type 0 where
  everything : Tag
  transport protocol : ℕ → Tag

abbrev pub is_tag : ℕ → Option ℕ → Bool
is_tag t none = false
is_tag t (some u) = u == t

-- Whether a message is accounted for by the statistic: globally those with a transport tag.
abbrev pub selects : Tag → Message → Bool
selects everything msg = elim msg.transport [ none ↦ false | some t ↦ true ]
selects (transport t) msg = is_tag t msg.transport
selects (protocol t) msg = is_tag t msg.protocol

abbrev pub by_transport : Tag → Option ℕ → Bool
by_transport everything none = false
by_transport everything (some u) = true
by_transport (transport t) x = is_tag t x
by_transport (protocol t) x = false

abbrev pub by_protocol : Tag → Option ℕ → Bool
by_protocol (protocol t) x = is_tag t x
by_protocol (transport t) x = false
by_protocol everything x = false

abbrev pub share : ℕ → Tag → Message → ℕ
share event tag msg = if selects tag msg then length_for event msg else 0

-- The traffic of a history in which the statistics listen `n` times at the start.
abbrev pub carried : ℕ → Tag → ℕ → List Call → ℕ
carried event tag n [] = 0
carried event tag n (messages now msg ∷ rest) = n * share event tag msg + carried event tag n rest
carried event tag n (starts ∷ rest) = carried event tag (n + 1) rest
carried event tag n (stops ∷ rest) = carried event tag (n - 1) rest
carried event tag n (closes peer ∷ rest) = carried event tag n rest
carried event tag n (fires t ∷ rest) = carried event tag n rest
