-- ===== src/Dialer/Manager/Waiting/Calls.antt =====
-- src/dialer/queueManager.js: `add`, `clearDenylist`, `stop` and `_clean` leave no queue stuck.
use js_libp2p_swarm.Prelude.{
  ℕ, ◌≡◌, refl, true, false, inl, inr, List, [], ◌∷◌, ◌++◌, some, arith, length, length-append,
  get_elem?, Bool-cases, Option-cases, sym, ◌<◌,
}
use js_libp2p_swarm.Dialer.Context.{Context}
use js_libp2p_swarm.Dialer.Queue.{Queue, Outcome, allowed}
use js_libp2p_swarm.Dialer.Queue
use js_libp2p_swarm.Dialer.Queue.Waiting.{add-Carries, abort-Carries, start-Carries}
use js_libp2p_swarm.Dialer.Manager.{
  Cell, Pending, Manager, find, write, unlist, is_at_rest, dial_of, Completion, returned, threw,
  state, ◌>>=◌, Request, call, add, add_at, add_to, after_add, enlist_and_run, check_dial, enlist,
  get_queue, clear_denylist, is_refused, abort_request,
}
use js_libp2p_swarm.Dialer.Manager.Sweep.{
  stop, listed_refs, is_stale, clean, clean_one, abort_and_delete, for_each,
}
use js_libp2p_swarm.Dialer.Manager.Waiting.{
  AllWait, AllWait-But, IsWaiting, KeepsWait, quiet, run-KeepsWait, call-KeepsWait,
}
use js_libp2p_swarm.Dialer.Manager.Waiting.Places.{get_elem?-snoc, length-unlist, get_elem?-unlist}

-- A new object rests.
AllWait-append :
    (heap : List Cell) (d : Cell) (ps : List Pending)
    → d.object.is_running ≡ false
    → AllWait heap ps
    → AllWait (heap ++ d ∷ []) ps
AllWait-append heap d ps r w = record {
  placed = λ k p g.
      let old : p.ref < length heap = w.placed k p g in omega (arith, length-append heap (d ∷ []));
  attached = w.attached;
  waited = λ ref c g h. elim (get_elem?-snoc heap d ref c g) [
    | inl old ↦ w.waited ref c old h
    | inr same ↦ absurd (ground arith)
  ];
}

AllWait-unlist :
    (ref : ℕ) (heap : List Cell) (ps : List Pending)
    → AllWait heap ps
    → AllWait (unlist ref heap) ps
AllWait-unlist ref heap ps w = record {
  placed = λ k p g. rw (length-unlist ref heap) (w.placed k p g);
  attached = w.attached;
  waited = λ r c g h.
      let (d, old, same) = get_elem?-unlist ref heap r c g in w.waited r d old (rw same h);
}

-- A write that does not start the queue.
pub AllWait-write :
    (ref : ℕ) (q : Queue) (c : Cell) (heap : List Cell) (ps : List Pending)
    → get_elem? heap ref ≡ some c
    → q.is_running ≡ c.object.is_running
    → AllWait heap ps
    → AllWait (write ref q heap) ps
AllWait-write ref q c heap ps g same w =
    quiet ref q heap ps (AllWait-But ref w) (λ h. w.waited ref c g (rw (sym same) h))

get_queue-IsWaiting : (id : ℕ) (m : Manager) → IsWaiting m → IsWaiting (get_queue id m).1
unfolding get_queue Queue.init
get_queue-IsWaiting id m w = elim (Option-cases (find id 0 m.heap)) [
  | inl e ↦ rw (e, get_queue) (AllWait-append m.heap _ m.pending refl w)
  | inr (ref, e) ↦ rw (e, get_queue) w
]

pub clear_denylist-IsWaiting :
    (id : ℕ) (m : Manager) → IsWaiting m → IsWaiting (clear_denylist id m)
unfolding clear_denylist
clear_denylist-IsWaiting id m w =
    let m' = (get_queue id m).1 in
    let w' = get_queue-IsWaiting id m w in
    elim (Option-cases (get_elem? m'.heap (get_queue id m).0)) [
      | inl e ↦ rw (e, clear_denylist) w'
      | inr (cell, e) ↦
          rw (e, clear_denylist)
            (AllWait-write (get_queue id m).0 _ cell m'.heap m'.pending e refl w')
    ]

check_dial-IsWaiting :
    (c : Context) (ref : ℕ) (m : Manager) → IsWaiting m → IsWaiting (check_dial c ref m).0
unfolding check_dial Queue.is_dial_allowed
check_dial-IsWaiting c ref m w = elim (Option-cases (get_elem? m.heap ref)) [
  | inl e ↦ rw (e, check_dial) w
  | inr (cell, e) ↦ rw (e, check_dial) (AllWait-write ref _ cell m.heap m.pending e refl w)
]

enlist-IsWaiting : (r : Request) (m : Manager) → IsWaiting m → IsWaiting (enlist r m)
unfolding enlist
enlist-IsWaiting r m w = ground arith

>>=-IsWaiting :
    (x : Completion) (f : Manager → Completion)
    → KeepsWait f
    → IsWaiting (state x)
    → IsWaiting (state (x >>= f))
>>=-IsWaiting (returned m) f k w = k m w
>>=-IsWaiting (threw m) f k w = w

module _ (c : Context) (book : (id : ℕ) → c.in_peer_book id ≡ true) where
  enlist_and_run-KeepsWait : (r : Request) (ref : ℕ) → KeepsWait (enlist_and_run c r ref)
  unfolding enlist_and_run
  enlist_and_run-KeepsWait r ref m w =
      let m' = (check_dial c ref m).0 in
      let w' = check_dial-IsWaiting c ref m w in
      elim (Bool-cases (check_dial c ref m).1) [
        | inr n ↦ rw (n, enlist_and_run) w'
        | inl y ↦ elim (Bool-cases (is_at_rest ref m')) [
          | inr n ↦ rw (y, n, enlist_and_run) (run-KeepsWait c book m' w')
          | inl rest ↦
              rw (y, rest, enlist_and_run)
                (run-KeepsWait c book (enlist r m') (enlist-IsWaiting r m' w'))
        ]
      ]

  after_add-KeepsWait : (r : Request) (ref : ℕ) → KeepsWait (after_add c r ref)
  unfolding after_add
  after_add-KeepsWait r ref m w = elim (Bool-cases (c.is_connected r.peer)) [
    | inl h ↦
        rw (h, after_add)
          (call-KeepsWait c book ref (λ q. (Queue.start c (length m.pending) q).0)
            (λ q. start-Carries c (length m.pending) q (book q.id)) m w)
    | inr h ↦ rw (h, after_add) (enlist_and_run-KeepsWait r ref m w)
  ]

  pub add-KeepsWait : (r : Request) → KeepsWait (add c r)
  unfolding add add_at add_to abort_request
  add-KeepsWait r m w =
      let m' = (get_queue r.peer m).1 in
      let ref = (get_queue r.peer m).0 in
      let w' = get_queue-IsWaiting r.peer m w in
      elim (Bool-cases (is_refused c r m')) [
        | inl y ↦ rw (y, add) w'
        | inr n ↦
            rw (n, add)
              (>>=-IsWaiting (call c ref (Queue.add c (dial_of r)) m') (after_add c r ref)
                (after_add-KeepsWait r ref)
                (call-KeepsWait c book ref (Queue.add c (dial_of r)) (add-Carries c (dial_of r)) m'
                  w'))
      ]

  for_each-KeepsWait :
      (f : ℕ → Manager → Completion) (refs : List ℕ)
      → ((ref : ℕ) → KeepsWait (f ref))
      → KeepsWait (for_each f refs)
  unfolding for_each
  for_each-KeepsWait f [] k m w = w
  for_each-KeepsWait f (ref ∷ refs) k m w =
      >>=-IsWaiting (f ref m) (for_each f refs) (for_each-KeepsWait f refs k) (k ref m w)

  abort_and_delete-KeepsWait : (ref : ℕ) → KeepsWait (abort_and_delete c ref)
  unfolding abort_and_delete
  abort_and_delete-KeepsWait ref m w =
      >>=-IsWaiting (call c ref Queue.abort m) _ (λ m' w'. AllWait-unlist ref m'.heap m'.pending w')
        (call-KeepsWait c book ref Queue.abort abort-Carries m w)

  clean_one-KeepsWait : (ref : ℕ) → KeepsWait (clean_one c ref)
  unfolding clean_one
  clean_one-KeepsWait ref m w = elim (Option-cases (get_elem? m.heap ref)) [
    | inl e ↦ rw (e, clean_one) w
    | inr (cell, e) ↦ elim (Bool-cases (is_stale c cell.object)) [
      | inl h ↦ rw (e, h, clean_one) (abort_and_delete-KeepsWait ref m w)
      | inr h ↦ rw (e, h, clean_one) w
    ]
  ]

  pub clean-KeepsWait : KeepsWait (clean c)
  unfolding clean
  clean-KeepsWait m w =
      >>=-IsWaiting (for_each (clean_one c) (listed_refs 0 m.heap) m) _ (λ m' w'. w')
        (for_each-KeepsWait (clean_one c) (listed_refs 0 m.heap) clean_one-KeepsWait m w)

  pub stop-KeepsWait : KeepsWait (stop c)
  unfolding stop
  stop-KeepsWait m w =
      for_each-KeepsWait (abort_and_delete c) (listed_refs 0 m.heap) abort_and_delete-KeepsWait _ w
