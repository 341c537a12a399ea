-- ===== src/System/Sound.antt =====
-- What holds of the dialer and its connections between two listeners, and that the events which a
-- connection emits keep it (src/connection/index.js with src/dialer/queue.js:221-277).
use js_libp2p_swarm.Prelude.{
  ℕ, zero, suc, ◌<◌, ◌≤◌, ◌≡◌, ◌≢◌, ◌∙◌, refl, Bool, true, false, ◌&&◌, ◌||◌, ◌⊎◌, inl, inr, some,
  List, [], ◌∷◌, ◌++◌, map, arith, ◌==◌, ltb, length, get_elem?, set, length-set, Option-cases,
  Bool-cases, sym, ap, subst,
}
use js_libp2p_swarm.Dialer.Manager.{Pending}
use js_libp2p_swarm.Dialer.Manager.Waiting.Places.{get_elem?-lt}
use js_libp2p_swarm.Connection.States.{Fsm}
use js_libp2p_swarm.Connection.Machine.{Connection, Readings, Effect}
use js_libp2p_swarm.Connection.Inputs.{Input}
use js_libp2p_swarm.Connection.Inputs
use js_libp2p_swarm.System.{Link, System, step_link}
use js_libp2p_swarm.System.Endings.{
  Ending, by_close, by_muxed, by_unmuxed, emitted, inboxed, early, early_at, is_muxed, is_connected,
  emitted-append, inboxed-append, early_at-append, step-IsTidy, IsTidy,
}

abbrev pub listens : Ending → Pending → Bool
listens by_close p = p.on_close
listens by_muxed p = p.on_muxed
listens by_unmuxed p = p.on_unmuxed

-- A connection that is muxed, or can do no more, has said so.
pub record IsHonest (k : Connection) : Type 0 where
  pub says_muxed : is_muxed k.state ≡ true → emitted by_muxed k.log ≡ true
  pub says_connected : is_connected k.state ≡ true → emitted by_unmuxed k.log ≡ true

abbrev pub bounded : ℕ → List (ℕ × Effect) → Bool
bounded n [] = true
bounded n ((j, x) ∷ rest) = ltb j n && bounded n rest

pub record Sound (ps : List Pending) (ls : List Link) (inbox : List (ℕ × Effect)) : Type 0 where
  -- an event waits only for a connection that there is
  pub from_links : bounded (length ls) inbox ≡ true
  -- an event whose listener is attached has not happened, or is still to be heard
  pub told :
      (v : Ending) (k : ℕ) (p : Pending) (l : Link)
      → get_elem? ps k ≡ some p
      → get_elem? ls k ≡ some l
      → listens v p ≡ true
      → emitted v l.connection.log ≡ true
      → inboxed v k inbox ≡ true
  -- listeners are removed only when `next` was called
  pub in_order :
      (k : ℕ) (p : Pending) → early_at k inbox ≡ true → get_elem? ps k ≡ some p → p.next ≡ false
  pub honest : (k : ℕ) (l : Link) → get_elem? ls k ≡ some l → IsHonest l.connection

abbrev pub IsSound : System → Type 0
IsSound s = Sound s.dialer.pending s.links s.inbox

pub bounded_mono :
    (n n' : ℕ) (b : List (ℕ × Effect)) → n ≤ n' → bounded n b ≡ true → bounded n' b ≡ true
bounded_mono n n' [] h b = refl
bounded_mono n n' ((j, x) ∷ rest) h b = ground (arith, bounded_mono n n' rest h)

bounded-append :
    (n k : ℕ) (es : List Effect) (b : List (ℕ × Effect))
    → k < n
    → bounded n b ≡ true
    → bounded n (map (λ x. (k, x)) es ++ b) ≡ true
bounded-append n k [] b h w = w
bounded-append n k (x ∷ es) b h w = ground (arith, bounded-append n k es b h w)

pub early_at-bounded :
    (n k : ℕ) (b : List (ℕ × Effect)) → bounded n b ≡ true → early_at k b ≡ true → k < n
early_at-bounded n k [] w h = absurd (ground arith)
early_at-bounded n k ((j, x) ∷ rest) w h = elim (Bool-cases (j == k)) [
  | inl here ↦ ground arith
  | inr far ↦ early_at-bounded n k rest (ground arith) (ground arith)
]

get_elem?-set {ℓ} :
    {A : Type ℓ} (xs : List A) (i j : ℕ) (v w x : A)
    → get_elem? xs i ≡ some w
    → get_elem? (set xs i v) j ≡ some x
    → ((i ≡ j) × (v ≡ x)) ⊎ ((i ≢ j) × (get_elem? xs j ≡ some x))
get_elem?-set [] i j v w x g h = absurd (ground arith)
get_elem?-set (y ∷ ys) zero zero v w x g h = inl (refl, ground arith)
get_elem?-set (y ∷ ys) zero (suc j) v w x g h = inr (ground arith, h)
get_elem?-set (y ∷ ys) (suc i) zero v w x g h = inr (ground arith, h)
get_elem?-set (y ∷ ys) (suc i) (suc j) v w x g h = elim (get_elem?-set ys i j v w x g h) [
  | inl (here, same) ↦ inl (ap suc here, same)
  | inr (far, old) ↦ inr (ground arith, old)
]

or_right : (a b : Bool) → b ≡ true → (a || b) ≡ true
or_right a b h = ground arith

now_or_before :
    (a new old waits : Bool)
    → a ≡ true
    → (old || new) ≡ true
    → (old ≡ true → waits ≡ true)
    → ((a && new) || waits) ≡ true
now_or_before a new old waits h o f = ground arith

-- The link at `k` has a log that is longer by `es`, and `es` is to be heard.
pub link-Sound :
    (ps : List Pending) (ls : List Link) (b : List (ℕ × Effect)) (k : ℕ) (l l' : Link)
    (es : List Effect)
    → get_elem? ls k ≡ some l
    → l'.connection.log ≡ l.connection.log ++ es
    → early es ≡ false
    → IsHonest l'.connection
    → Sound ps ls b
    → Sound ps (set ls k l') (map (λ x. (k, x)) es ++ b)
link-Sound ps ls b k l l' es g log tidy honest w = record {
  from_links =
      rw (length-set ls k l')
        (bounded-append (length ls) k es b (get_elem?-lt ls k l g) w.from_links);
  told = λ v j p lk gp gl on h. elim (get_elem?-set ls k j l' l lk g gl) [
    | inl (here, same) ↦
        let all : (emitted v l.connection.log || emitted v es) ≡ true =
          sym (emitted-append v l.connection.log es)
          ∙ ap (emitted v) (sym log ∙ ap (λ z. z.connection.log) same)
          ∙ h in
        let gp' : get_elem? ps k ≡ some p = subst (λ i. get_elem? ps i ≡ some p) (sym here) gp in
        inboxed-append v j k es b
        ∙ now_or_before (k == j) _ _ _ (ground arith) all
            (λ o. subst (λ i. inboxed v i b ≡ true) here (w.told v k p l gp' g on o))
    | inr (far, old) ↦
        let t : inboxed v j b ≡ true = w.told v j p lk gp old on h in
        inboxed-append v j k es b ∙ or_right _ _ t
  ];
  in_order = λ j p h gp. w.in_order j p (early_at-append j k es b tidy h) gp;
  honest = λ j lk gl. elim (get_elem?-set ls k j l' l lk g gl) [
    | inl (here, same) ↦ subst (λ z. IsHonest z.connection) same honest
    | inr (far, old) ↦ w.honest j lk old
  ];
}

IsHonest-step :
    (k k' : Connection)
    → IsHonest k
    → IsTidy (record k { log = [] }) k'
    → IsHonest (record k' { log = k.log ++ k'.log })
IsHonest-step k k' h t = record {
  says_muxed =
      λ m. emitted-append by_muxed k.log k'.log ∙ says_one _ _ _ h.says_muxed (t.becomes_muxed m);
  says_connected = λ m.
      emitted-append by_unmuxed k.log k'.log
      ∙ says_one _ _ _ h.says_connected (t.becomes_connected m);
}
  where
    says_one :
        (was old new : Bool) → (was ≡ true → old ≡ true) → (was || new) ≡ true → (old || new) ≡ true
    says_one was old new f o = ground arith

-- An input of a connection.
pub step_link-Sound :
    (fsm : Fsm) (r : Readings) (i : Input) (k : ℕ) (s : System)
    → IsSound s
    → IsSound (step_link fsm r i k s)
unfolding step_link
step_link-Sound fsm r i k s w = elim (Option-cases (get_elem? s.links k)) [
  | inl e ↦ rw (e, step_link) w
  | inr (l, e) ↦ elim (Option-cases (Inputs.step fsm r i (record l.connection { log = [] }))) [
    | inl g ↦ rw (e, g, step_link) w
    | inr (c, g) ↦
        let t = step-IsTidy fsm r i (record l.connection { log = [] }) c refl g in
        rw (e, g, step_link)
          (link-Sound s.dialer.pending s.links s.inbox k l _ c.log e refl t.tidy
            (IsHonest-step l.connection c (w.honest k l e) t) w)
  ]
]
