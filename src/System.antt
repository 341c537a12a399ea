-- ===== src/System.antt =====
-- How the dialer of src/dialer/, the connections that it makes (src/connection/index.js) and the
-- connection manager (src/connection/manager.js) work together: src/dialer/queue.js:184-277 and the
-- listener of `muxed` in src/connection/manager.js:42-46. The events that a connection has emitted
-- wait in `inbox` until their listeners have run; one listener runs at a time, the first of what a
-- listener causes before what came later, as by calls. The connection of the dial at a place of
-- the dialer's `pending` is the link at that place.

pub mod Endings
pub mod Sound
pub mod Opened
pub mod Heard
pub mod Holds
pub mod Emitted
pub mod Reached
pub mod Slots
pub mod Examples
use js_libp2p_swarm.Prelude.{
  ℕ, Bool, true, false, Option, none, some, List, [], ◌∷◌, ◌++◌, ◌≡◌, map, length, get_elem?, set,
  if◌then◌else◌,
}
use js_libp2p_swarm.Dialer.Context.{Context}
use js_libp2p_swarm.Dialer.Manager.{Cell, Pending, Manager, state, clear_denylist}
use js_libp2p_swarm.Dialer.Manager
use js_libp2p_swarm.Dialer.Manager.Listeners.{errored, closed, muxed, unmuxed, set_pending}
use js_libp2p_swarm.Dialer.Manager.History.{Call, adds, clears, starts, stops, cleans, emits, step}
use js_libp2p_swarm.Connection.States.{State, Fsm}
use js_libp2p_swarm.Connection.States
use js_libp2p_swarm.Connection.Machine.{
  Connection, Readings, Effect, emit_error, emit_close, emit_muxed, emit_unmuxed, remove_listeners,
  untrack,
}
use js_libp2p_swarm.Connection.Machine
use js_libp2p_swarm.Connection.Inputs.{Input, dials}
use js_libp2p_swarm.Connection.Inputs
use js_libp2p_swarm.Connection.Manager.{Connections, ConnectionManager, get_one, notes, on_muxed}
use js_libp2p_swarm.Connection.Manager as Tracker

-- A connection that the dialer has made.
pub record Link : Type 0 where
  pub peer : ℕ
  pub connection : Connection
  -- whether the connection manager's listener of `muxed` is attached
  pub awaits_muxed : Bool

-- The readings of a moment, those of a connection by its place.
pub record Env : Type 0 where
  pub context : Context
  pub readings : ℕ → Readings

pub record System : Type 0 where
  pub dialer : Manager
  pub links : List Link
  pub tracked : ConnectionManager
  pub inbox : List (ℕ × Effect)

pub init : System
unfolding Manager.init Tracker.init
init = record { dialer = Manager.init; links = []; tracked = Tracker.init; inbox = [] }

abbrev is_muxed_state : State → Bool
is_muxed_state States.muxed = true
is_muxed_state _ = false

-- What the connection manager reads from the links.
connections_of : List Link → Connections
connections_of links = record {
  their_id = λ k. elim (get_elem? links k) [ none ↦ 0 | some l ↦ l.peer ];
  has_peer_info = λ k. true;
  is_muxed =
      λ k. elim (get_elem? links k) [ none ↦ false | some l ↦ is_muxed_state l.connection.state ];
}

-- `switch.connection.getOne` reads the links.
pub context_of : Env → System → Context
unfolding connections_of get_one
context_of e s = record e.context {
  get_one = λ p. get_one (connections_of s.links) p s.tracked.connections;
}

-- `this._events.error`
pub readings_of : Env → ℕ → System → Readings
readings_of e k s = record (e.readings k) {
  has_error_listener = elim (get_elem? s.dialer.pending k) [ none ↦ false | some p ↦ p.on_error ];
}

-- The link at `k` gets an input, and what it emits is the next to be heard. An exception of
-- fsm-event leaves it as it is.
pub step_link : Fsm → Readings → Input → ℕ → System → System
step_link fsm r i k s = elim (get_elem? s.links k) [
  | none ↦ s
  | some l ↦ elim (Inputs.step fsm r i (record l.connection { log = [] })) [
    | none ↦ s
    | some c ↦ record s {
      links =
          set s.links k (record l { connection = record c { log = l.connection.log ++ c.log } });
      inbox = map (λ x. (k, x)) c.log ++ s.inbox;
    }
  ]
]

-- The id of the queue object that a dial waits for.
peer_of : Manager → Pending → ℕ
peer_of m p = elim (get_elem? m.heap p.ref) [ none ↦ 0 | some c ↦ c.object.id ]

-- `new ConnectionFSM`, `switch.connection.add(connectionFSM)` and, when the listeners are
-- attached, `connectionFSM.dial()`.
open_link : Fsm → Env → Pending → System → System
unfolding connections_of readings_of step_link peer_of Tracker.add
open_link fsm e p s =
    let k = length s.links in
    let l : Link = record {
      peer = peer_of s.dialer p;
      connection = Machine.init;
      awaits_muxed = true;
    } in
    let links = s.links ++ l ∷ [] in
    let s' : System = record s {
      links = links;
      tracked = Tracker.add (connections_of links) k s.tracked;
    } in
    step_link fsm (readings_of e k s') dials k s'

pub open_links : Fsm → Env → List Pending → System → System
unfolding open_link
open_links fsm e [] s = s
open_links fsm e (p ∷ ps) s = open_links fsm e ps (open_link fsm e p s)

-- The dials that have no link yet.
pub beyond : List Link → List Pending → List Pending
beyond [] ps = ps
beyond (l ∷ ls) [] = []
beyond (l ∷ ls) (p ∷ ps) = beyond ls ps

-- A call of the dialer's manager, with the connections that it makes.
pub on_dialer : Fsm → Env → Call → System → System
unfolding context_of open_links beyond step
on_dialer fsm e a s =
    let m = state (step (context_of e s) a s.dialer) in
    open_links fsm e (beyond s.links m.pending) (record s { dialer = m })

-- The connection manager's listener of `muxed`, which was attached first.
pub tracker_muxed : ℕ → System → System
unfolding clear_denylist
tracker_muxed k s = elim (get_elem? s.links k) [
  | none ↦ s
  | some l ↦
      if l.awaits_muxed
      then record s {
        dialer = clear_denylist l.peer s.dialer;
        links = set s.links k (record l { awaits_muxed = false });
        tracked = notes (on_muxed k) s.tracked;
      }
      else s
]

abbrev no_listeners : Pending → Pending
no_listeners p = record p {
  on_error = false;
  on_close = false;
  on_muxed = false;
  on_unmuxed = false;
}

forget_muxed : ℕ → List Link → List Link
forget_muxed k links = elim (get_elem? links k) [
  | none ↦ links
  | some l ↦ set links k (record l { awaits_muxed = false })
]

-- `removeAllListeners()`
pub remove_all : ℕ → System → System
unfolding set_pending forget_muxed
remove_all k s = elim (get_elem? s.dialer.pending k) [
  | none ↦ s
  | some p ↦ record s {
    dialer = record s.dialer { pending = set_pending k (no_listeners p) s.dialer.pending };
    links = forget_muxed k s.links;
  }
]

-- The listeners of one event run.
pub deliver : Fsm → Env → ℕ → Effect → System → System
unfolding connections_of on_dialer tracker_muxed remove_all Tracker.remove
deliver fsm e k (emit_error err) s = on_dialer fsm e (emits k (errored err)) s
deliver fsm e k emit_close s = on_dialer fsm e (emits k closed) s
deliver fsm e k emit_muxed s = on_dialer fsm e (emits k muxed) (tracker_muxed k s)
deliver fsm e k emit_unmuxed s = on_dialer fsm e (emits k unmuxed) s
deliver fsm e k remove_listeners s = remove_all k s
deliver fsm e k untrack s = record s {
  tracked = Tracker.remove (connections_of s.links) k s.tracked;
}
deliver fsm e k _ s = s

-- Only a connection emits events.
abbrev is_call : Call → Bool
is_call (emits k e) = false
is_call _ = true

-- All that can happen: while an event waits, its listeners run; otherwise the dialer is called, its
-- timer fires, or a connection gets an answer or a call.
pub data Step (fsm : Fsm) : Env → System → System → Type 0 where
  delivered :
      (e : Env) (s : System) (k : ℕ) (x : Effect) (rest : List (ℕ × Effect))
      → s.inbox ≡ (k, x) ∷ rest
      → Step fsm e s (deliver fsm e k x (record s { inbox = rest }))
  called :
      (e : Env) (s : System) (a : Call)
      → s.inbox ≡ []
      → is_call a ≡ true
      → Step fsm e s (on_dialer fsm e a s)
  received :
      (e : Env) (s : System) (k : ℕ) (i : Input)
      → s.inbox ≡ []
      → Step fsm e s (step_link fsm (readings_of e k s) i k s)

-- A state that steps lead to, at moments that are as `P` says.
pub data Reach (fsm : Fsm) (P : Env → Type 0) : System → Type 0 where
  starts_here : Reach fsm P init
  goes : {s t : System} → Reach fsm P s → (e : Env) → P e → Step fsm e s t → Reach fsm P t
