-- ===== src/Transports/LimitDialer.antt =====
-- src/limit-dialer/index.js and src/limit-dialer/queue.js: the dials of one list of addresses.
-- `tryEach` of the package async is a parameter with its documented laws, `timeout` is seen by its
-- answer, and `queue` starts each of these dials, since they come one after the other.
pub mod Tried
use js_libp2p_swarm.Prelude.{
  ℕ, ◌≡◌, Bool, true, false, Option, none, some, List, [], ◌∷◌, ◌++◌, if◌then◌else◌, has, insert,
}
use js_libp2p_swarm.Errors.{SwitchError}
use js_libp2p_swarm.Transports.Addresses.{Multiaddr}

-- How a transport answers to a dial within the timeout, which is an error too.
pub data Dialed : Type 0 where
  failed : SwitchError → Dialed
  connected : (conn : ℕ) → Dialed

-- What the tasks of a `dialMany` share: the token, the errors, and what was called.
pub record Attempts : Type 0 where
  pub cancel : Bool
  pub errors : List SwitchError
  pub dialed : List Multiaddr
  -- connections that came too late and were closed
  pub closed : List ℕ

pub record Success : Type 0 where
  pub multiaddr : Multiaddr
  pub conn : ℕ

-- The callback of a task: an error, or a result, which is missing where the dial was cancelled.
pub data Called : Type 0 where
  with_error : SwitchError → Called
  with_result : Option Success → Called

abbrev pub Task : Type 0
Task = Attempts → Called × Attempts

-- The tasks run in turn until one calls back without an error, and its result is the final one.
-- After the last of them there is none.
pub record TryEach : Type 0 where
  pub try_each : List Task → Attempts → Option Success × Attempts
  pub try_each-nil : (s : Attempts) → try_each [] s ≡ (none, s)
  pub try_each-error :
      (t : Task) (ts : List Task) (s s' : Attempts) (e : SwitchError)
      → t s ≡ (with_error e, s')
      → try_each (t ∷ ts) s ≡ try_each ts s'
  pub try_each-result :
      (t : Task) (ts : List Task) (s s' : Attempts) (r : Option Success)
      → t s ≡ (with_result r, s')
      → try_each (t ∷ ts) s ≡ (r, s')

-- `_doWork` behind the answer of the transport.
do_work : Multiaddr → Dialed → Attempts → Called × Attempts
do_work addr (failed e) s = (with_error e, s)
do_work addr (connected n) s =
    if s.cancel
    then (with_result none, record s { closed = s.closed ++ n ∷ [] })
    else (with_result (some (record { multiaddr = addr; conn = n })), record s { cancel = true })

-- The callback of `dialMany` that keeps the errors.
keep_error : Called × Attempts → Called × Attempts
keep_error (with_error e, s) = (with_error e, record s { errors = s.errors ++ e ∷ [] })
keep_error (with_result r, s) = (with_result r, s)

-- `dialSingle`, `push`, `_doWork` and `_dialWithTimeout` for one address.
dial_single : (Multiaddr → Dialed) → Multiaddr → Task
unfolding do_work keep_error
dial_single answer addr s =
    keep_error (do_work addr (answer addr) (record s { dialed = s.dialed ++ addr ∷ [] }))

tasks_of : (Multiaddr → Dialed) → List Multiaddr → List Task
unfolding dial_single
tasks_of answer [] = []
tasks_of answer (addr ∷ rest) = dial_single answer addr ∷ tasks_of answer rest

-- What `dialMany` calls back: errors, or a success.
pub data Outcome : Type 0 where
  errors : List SwitchError → Outcome
  success : Success → Outcome

abbrev pub conclude : Option Success × Attempts → Outcome × Attempts
conclude (some r, s) = (success r, s)
conclude (none, s) = (errors s.errors, s)

abbrev pub no_attempts : Attempts
no_attempts = record { cancel = false; errors = []; dialed = []; closed = [] }

unfoldable pub dial_many : TryEach → (Multiaddr → Dialed) → List Multiaddr → Outcome × Attempts
unfolding tasks_of
dial_many t answer addrs = conclude (t.try_each (tasks_of answer addrs) no_attempts)

-- The peers that a queue was made for.
unfoldable queue_for : ℕ → List ℕ → List ℕ
queue_for peer queues = if has peer queues then queues else insert peer queues
