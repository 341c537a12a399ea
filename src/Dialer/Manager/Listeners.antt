-- ===== src/Dialer/Manager/Listeners.antt =====
-- src/dialer/queue.js:221-277: the listeners that `_run` puts on the connection of a dial, and
-- the call of `next`, which they share.
use js_libp2p_swarm.Prelude.{
  ℕ, zero, suc, false, none, some, List, [], ◌∷◌, ◌++◌, if◌then◌else◌, length, get_elem?,
}
use js_libp2p_swarm.Errors.{SwitchError}
use js_libp2p_swarm.Dialer.Context.{Context}
use js_libp2p_swarm.Dialer.Queue.{Queue, Dial, Deny, allowed, until, forever, Effect}
use js_libp2p_swarm.Dialer.Queue
use js_libp2p_swarm.Dialer.Manager.{Pending, Manager, Completion, returned, write, call}

-- The listeners that wait on a connection.
pub data Event : Type 0 where
  errored : SwitchError → Event
  closed muxed unmuxed : Event

unfoldable pub set_pending : ℕ → Pending → List Pending → List Pending
set_pending k p [] = []
set_pending zero p (q ∷ qs) = p ∷ qs
set_pending (suc k) p (q ∷ qs) = q ∷ set_pending k p qs

-- `next()`: the first call runs the queue, later ones do nothing.
unfoldable pub call_next : Context → ℕ → Pending → Manager → Completion
unfolding call set_pending Queue.run
call_next c k p m =
    if p.next
    then call c p.ref (λ q. Queue.run c (length m.pending) q)
        (record m { pending = set_pending k (record p { next = false }) m.pending })
    else returned m

-- The listener of `muxed` and of `unmuxed`.
unfoldable pub established : Context → ℕ → Pending → Manager → Completion
unfolding call_next Queue.on_established
established c k p m = elim (get_elem? m.heap p.ref) [
  | none ↦ returned m
  | some cell ↦
      let (q, effect) = Queue.on_established k p.dial cell.object in
      call_next c k p (record m { heap = write p.ref q m.heap; log = m.log ++ effect ∷ [] })
]

-- A connection emits an event; a listener is taken off before it is called.
unfoldable pub fire : Context → ℕ → Pending → Event → Manager → Completion
unfolding call established call_next set_pending Queue.on_error
fire c k p (errored e) m =
    if p.on_error
    then call c p.ref (Queue.on_error c e p.dial)
        (record m { pending = set_pending k (record p { on_error = false }) m.pending })
    else returned m
fire c k p closed m =
    let p' = record p { on_close = false } in
    if p.on_close
    then call_next c k p' (record m { pending = set_pending k p' m.pending })
    else returned m
fire c k p muxed m =
    let p' = record p { on_muxed = false } in
    if p.on_muxed
    then established c k p' (record m { pending = set_pending k p' m.pending })
    else returned m
fire c k p unmuxed m =
    let p' = record p { on_unmuxed = false } in
    if p.on_unmuxed
    then established c k p' (record m { pending = set_pending k p' m.pending })
    else returned m

unfoldable pub emit : Context → ℕ → Event → Manager → Completion
unfolding fire
emit c k e m = elim (get_elem? m.pending k) [ none ↦ returned m | some p ↦ fire c k p e m ]
