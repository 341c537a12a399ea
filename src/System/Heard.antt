-- ===== src/System/Heard.antt =====
-- src/dialer/queue.js:221-277: what stays true when the listeners of an event have run.
use js_libp2p_swarm.Prelude.{
  ℕ, zero, suc, ◌<◌, ◌≡◌, ◌∙◌, refl, Bool, true, false, ◌&&◌, ◌||◌, inl, inr, some, List, [], ◌∷◌,
  ◌++◌, arith, length, get_elem?, ◌==◌, ==→≡, if◌then◌else◌, Bool-cases, sym, ap, subst,
}
use js_libp2p_swarm.Dialer.Manager.{Pending}
use js_libp2p_swarm.Dialer.Manager.Listeners.{set_pending}
use js_libp2p_swarm.Dialer.Manager.Waiting.Places.{
  get_elem?-set_pending_self, get_elem?-set_pending_ne, get_elem?-lt,
}
use js_libp2p_swarm.Connection.Machine.{Effect}
use js_libp2p_swarm.System.{Link}
use js_libp2p_swarm.System.Endings.{Ending, by_close, ends, emitted, inboxed, early_at, is_removal}
use js_libp2p_swarm.System.Sound.{Sound, listens, early_at-bounded}

get_elem?-append_lt {ℓ} :
    {A : Type ℓ} (xs ys : List A) (k : ℕ) → k < length xs → get_elem? (xs ++ ys) k ≡ get_elem? xs k
get_elem?-append_lt [] ys k h = absurd (omega arith)
get_elem?-append_lt (x ∷ xs) ys zero h = refl
get_elem?-append_lt (x ∷ xs) ys (suc k) h = get_elem?-append_lt xs ys k (omega arith)

-- Dials were added.
pub grown-Sound :
    (ps more : List Pending) (ls : List Link) (b : List (ℕ × Effect))
    → length ls ≡ length ps
    → Sound ps ls b
    → Sound (ps ++ more) ls b
grown-Sound ps more ls b n w = record {
  from_links = w.from_links;
  told = λ v k p l gp gl on h.
      let within : k < length ps = omega (arith, n, get_elem?-lt ls k l gl) in
      w.told v k p l (sym (get_elem?-append_lt ps more k within) ∙ gp) gl on h;
  in_order = λ k p h gp.
      let within : k < length ps =
        omega (arith, n, early_at-bounded (length ls) k b w.from_links h) in
      w.in_order k p h (sym (get_elem?-append_lt ps more k within) ∙ gp);
  honest = w.honest;
}

-- Of the dial at `k`, `p`, what remains when an event of its connection was heard.
pub record Remains (x : Effect) (p after : Pending) : Type 0 where
  pub wears : (v : Ending) → listens v after ≡ true → (listens v p ≡ true) × (ends v x ≡ false)
  pub spent : p.next ≡ false → after.next ≡ false
  pub closes : (ends by_close x || is_removal x) ≡ true → after.next ≡ false

and_false : (a b : Bool) → b ≡ false → (a && b) ≡ false
and_false a b h = ground arith

not_first :
    (here end waits : Bool) → ((here && end) || waits) ≡ true → (here && end) ≡ false → waits ≡ true
not_first here end waits h n = ground arith

-- The first of the events is neither a close nor a removal of this connection.
early_later :
    (here c r later : Bool)
    → (here && (c || r)) ≡ false
    → later ≡ true
    → (if here then if c then false else if r then true else later else later) ≡ true
early_later here c r later n h = ground arith

written_self :
    (k j : ℕ) (p after q : Pending) (ps : List Pending)
    → get_elem? ps k ≡ some p
    → k ≡ j
    → get_elem? (set_pending k after ps) j ≡ some q
    → after ≡ q
written_self k j p after q ps g here gq = some_inj (
    sym (get_elem?-set_pending_self k after ps p g)
    ∙ ap (get_elem? (set_pending k after ps)) here
    ∙ gq)
  where
    some_inj : {a b : Pending} → some a ≡ some b → a ≡ b
    some_inj e = ground arith

-- At the place itself.
module _ (ps : List Pending) (ls : List Link) (rest : List (ℕ × Effect)) (k : ℕ) (x : Effect)
    (p after : Pending) (g : get_elem? ps k ≡ some p) (r : Remains x p after)
    (w : Sound ps ls ((k, x) ∷ rest)) where
  told_here :
      (v : Ending) (l : Link)
      → get_elem? ls k ≡ some l
      → listens v after ≡ true
      → emitted v l.connection.log ≡ true
      → inboxed v k rest ≡ true
  told_here v l gl on h =
      let (was, other) = r.wears v on in
      not_first (k == k) (ends v x) _ (w.told v k p l g gl was h) (and_false _ _ other)

  in_order_here : early_at k rest ≡ true → after.next ≡ false
  in_order_here h = elim (Bool-cases (ends by_close x || is_removal x)) [
    | inl last ↦ r.closes last
    | inr n ↦ r.spent (
        w.in_order k p (early_later (k == k) (ends by_close x) (is_removal x) _ (and_false _ _ n) h)
          g)
  ]

pub heard-Sound :
    (ps : List Pending) (ls : List Link) (rest : List (ℕ × Effect)) (k : ℕ) (x : Effect)
    (p after : Pending)
    → get_elem? ps k ≡ some p
    → Remains x p after
    → Sound ps ls ((k, x) ∷ rest)
    → Sound (set_pending k after ps) ls rest
heard-Sound ps ls rest k x p after g r w = record {
  from_links = ground arith;
  told = λ v j q l gq gl on h. elim (Bool-cases (k == j)) [
    | inl y ↦
        let here : k ≡ j = ==→≡ k j y in
        let same = written_self k j p after q ps g here gq in
        subst (λ i. inboxed v i rest ≡ true) here
          (told_here ps ls rest k x p after g r w v l
            (subst (λ i. get_elem? ls i ≡ some l) (sym here) gl)
            (subst (λ z. listens v z ≡ true) (sym same) on) h)
    | inr far ↦
        let old : get_elem? ps j ≡ some q =
          sym (get_elem?-set_pending_ne k after ps j (ground arith)) ∙ gq in
        not_first (k == j) (ends v x) _ (w.told v j q l old gl on h) (rw far refl)
  ];
  in_order = λ j q h gq. elim (Bool-cases (k == j)) [
    | inl y ↦
        let here : k ≡ j = ==→≡ k j y in
        subst (λ z. z.next ≡ false) (written_self k j p after q ps g here gq)
          (in_order_here ps ls rest k x p after g r w
            (subst (λ i. early_at i rest ≡ true) (sym here) h))
    | inr far ↦
        let old : get_elem? ps j ≡ some q =
          sym (get_elem?-set_pending_ne k after ps j (ground arith)) ∙ gq in
        w.in_order j q (early_later (k == j) (ends by_close x) (is_removal x) _ (rw far refl) h) old
  ];
  honest = w.honest;
}

-- An event that no listener of the dialer hears.
pub ignored-Sound :
    (ps : List Pending) (ls : List Link) (rest : List (ℕ × Effect)) (k : ℕ) (x : Effect)
    → ((v : Ending) → ends v x ≡ false)
    → is_removal x ≡ false
    → Sound ps ls ((k, x) ∷ rest)
    → Sound ps ls rest
ignored-Sound ps ls rest k x n m w = record {
  from_links = ground arith;
  told = λ v j q l gq gl on h.
      not_first (k == j) (ends v x) _ (w.told v j q l gq gl on h) (and_false _ _ (n v));
  in_order = λ j q h gq.
      w.in_order j q
        (early_later (k == j) (ends by_close x) (is_removal x) _ (ground (arith, n by_close)) h) gq;
  honest = w.honest;
}
