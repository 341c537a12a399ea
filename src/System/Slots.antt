-- ===== src/System/Slots.antt =====
-- What a slot of src/dialer/queueManager.js waits for, in the states of src/connection/index.js.
use js_libp2p_swarm.Prelude.{
  ℕ, ◌≡◌, true, false, inl, inr, some, [], arith, get_elem?, has, Option-cases, Bool-cases,
}
use js_libp2p_swarm.Dialer.Context.{Context, Limits}
use js_libp2p_swarm.Dialer.Manager.Waiting.Alive.{IsUnderWay, IsUnderWay-from}
use js_libp2p_swarm.Dialer.Manager.Waiting.Places.{get_elem?-le, get_elem?-lt}
use js_libp2p_swarm.Dialer.Manager.Waiting.{IsAttached}
use js_libp2p_swarm.Dialer.Manager.{Pending}
use js_libp2p_swarm.Connection.States.{Fsm}
use js_libp2p_swarm.System.{Link, System, Reach}
use js_libp2p_swarm.System.Endings.{
  Ending, by_close, by_muxed, by_unmuxed, emitted, inboxed, is_muxed, is_connected,
}
use js_libp2p_swarm.System.Sound.{listens}
use js_libp2p_swarm.System.Holds.{Holds, FitsDialer}
use js_libp2p_swarm.System.Reached.{Reach-Holds}

-- The slot of the peer `id` is held for a dial whose connection is neither muxed nor connected and
-- has emitted none of the events that end a dial.
pub record IsHeld (c : Context) (id : ℕ) (s : System) : Type 0 where
  pub under_way : IsUnderWay c id s.dialer
  pub link : Link
  pub at_place : get_elem? s.links under_way.connection ≡ some link
  pub not_ended : (v : Ending) → emitted v link.connection.log ≡ false
  pub not_muxed : is_muxed link.connection.state ≡ false
  pub not_connected : is_connected link.connection.state ≡ false

attached-listens : (p : Pending) (v : Ending) → IsAttached p → listens v p ≡ true
attached-listens p by_close a = a.0
attached-listens p by_muxed a = a.1
attached-listens p by_unmuxed a = a.2

link_at :
    (l : Limits) (s : System) (k : ℕ) (p : Pending)
    → Holds l s.inbox s
    → get_elem? s.dialer.pending k ≡ some p
    → (lk : Link) × (get_elem? s.links k ≡ some lk)
link_at l s k p w g = elim (Option-cases (get_elem? s.links k)) [
  | inr there ↦ there
  | inl e ↦
      absurd
        (omega (arith, get_elem?-le s.links k e, get_elem?-lt s.dialer.pending k p g, w.paired))
]

-- In every state that the dialer and its connections reach while no event waits to be heard, at
-- limits that do not change and with a peer book that knows the peers, each slot of
-- `_dialingQueues` is held by a queue that runs and has a dial whose connection was told to dial and
-- whose `next` was not called. That connection is neither muxed nor connected, has emitted none of
-- `close`, `muxed` and `unmuxed`, and runs the queue on when it closes.
pub Reach-IsHeld :
    (fsm : Fsm) (l : Limits) (s : System) (c : Context) (id : ℕ)
    → Reach fsm (FitsDialer l) s
    → s.inbox ≡ []
    → has id s.dialer.dialing_queues ≡ true
    → IsHeld c id s
Reach-IsHeld fsm l s c id reach quiet h =
    let w = Reach-Holds fsm l reach in
    let u = IsUnderWay-from c id s.dialer (w.valid.slots id h) w.waiting w.announced in
    let (lk, g) = link_at l s u.connection u.waiting w u.at_connection in
    let silent : (v : Ending) → emitted v lk.connection.log ≡ false = λ v.
      elim (Bool-cases (emitted v lk.connection.log)) [
        | inr n ↦ n
        | inl y ↦
            let t : inboxed v u.connection s.inbox ≡ true =
              w.sound.told v u.connection u.waiting lk u.at_connection g
                (attached-listens u.waiting v u.attached) y in
            absurd (ground (arith, t, quiet))
      ] in
    let honest = w.sound.honest u.connection lk g in
    record {
      under_way = u;
      link = lk;
      at_place = g;
      not_ended = silent;
      not_muxed = elim (Bool-cases (is_muxed lk.connection.state)) [
        | inr n ↦ n
        | inl y ↦ absurd (ground (arith, silent by_muxed, honest.says_muxed y))
      ];
      not_connected = elim (Bool-cases (is_connected lk.connection.state)) [
        | inr n ↦ n
        | inl y ↦ absurd (ground (arith, silent by_unmuxed, honest.says_connected y))
      ];
    }

-- In every state that the dialer and its connections reach while no event waits to be heard, at
-- limits that do not change and with a peer book that knows the peers: where the connection of a
-- dial has emitted `close`, `muxed` or `unmuxed`, the dial is over, and its `next` was called.
pub Reach-heard :
    (fsm : Fsm) (l : Limits) (s : System) (v : Ending) (k : ℕ) (p : Pending) (lk : Link)
    → Reach fsm (FitsDialer l) s
    → s.inbox ≡ []
    → get_elem? s.dialer.pending k ≡ some p
    → get_elem? s.links k ≡ some lk
    → emitted v lk.connection.log ≡ true
    → p.next ≡ false
Reach-heard fsm l s v k p lk reach quiet gp gl h =
    let w = Reach-Holds fsm l reach in
    elim (Bool-cases p.next) [
      | inr off ↦ off
      | inl on ↦
          let a : listens v p ≡ true = attached-listens p v (w.waiting.attached k p gp on) in
          let t : inboxed v k s.inbox ≡ true = w.sound.told v k p lk gp gl a h in
          absurd (ground (arith, t, quiet))
    ]
