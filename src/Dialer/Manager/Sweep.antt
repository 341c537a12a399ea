-- ===== src/Dialer/Manager/Sweep.antt =====
-- src/dialer/queueManager.js: `stop` and `_clean`, which go through all queues.
use js_libp2p_swarm.Prelude.{
  ℕ, suc, Bool, true, false, not, ◌&&◌, none, some, List, [], ◌∷◌, ◌==◌, if◌then◌else◌, length,
  get_elem?,
}
use js_libp2p_swarm.Dialer.Context.{Context}
use js_libp2p_swarm.Dialer.Queue.{Queue, Dial, Deny, allowed, until, forever, Effect}
use js_libp2p_swarm.Dialer.Queue
use js_libp2p_swarm.Dialer.Manager.{Cell, Manager, Completion, returned, ◌>>=◌, unlist, call}

-- The places of the listed queues, `Object.values(_queues)`.
unfoldable pub listed_refs : ℕ → List Cell → List ℕ
listed_refs i [] = []
listed_refs i (c ∷ cs) = if c.listed then i ∷ listed_refs (suc i) cs else listed_refs (suc i) cs

-- `dialQueue.abort(); delete this._queues[dialQueue.id]`
unfoldable pub abort_and_delete : Context → ℕ → Manager → Completion
unfolding call Queue.abort
abort_and_delete c ref m =
    call c ref Queue.abort m >>= λ m'. returned (record m' { heap = unlist ref m'.heap })

unfoldable pub for_each : (ℕ → Manager → Completion) → List ℕ → Manager → Completion
for_each f [] m = returned m
for_each f (ref ∷ refs) m = f ref m >>= for_each f refs

unfoldable pub stop : Context → Manager → Completion
unfolding listed_refs abort_and_delete for_each
stop c m =
    let m' = record m {
      is_running = false;
      queue = [];
      cold_call_queue = [];
      clean_scheduled = false;
    } in
    for_each (abort_and_delete c) (listed_refs 0 m'.heap) m'

-- Whether `_clean` drops the queue.
pub is_stale : Context → Queue → Bool
is_stale c q = elim q.denylisted [
  | forever ↦ true
  | until t ↦ (t == 0) && not q.is_running && (length q.queue == 0) && not (connected c q.id)
  | allowed ↦ not q.is_running && (length q.queue == 0) && not (connected c q.id)
]
  where
    connected : Context → ℕ → Bool
    connected c id = c.in_peer_book id && c.is_connected id

unfoldable pub clean_one : Context → ℕ → Manager → Completion
unfolding is_stale abort_and_delete
clean_one c ref m = elim (get_elem? m.heap ref) [
  | none ↦ returned m
  | some cell ↦ if is_stale c cell.object then abort_and_delete c ref m else returned m
]

unfoldable pub clean : Context → Manager → Completion
unfolding listed_refs clean_one for_each
clean c m = for_each (clean_one c) (listed_refs 0 m.heap) m >>= λ m'.
    returned (record m' { clean_scheduled = true })
