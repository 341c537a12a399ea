-- ===== src/Dialer/Api.antt =====
-- src/dialer/index.js: `dial`, `dialFSM`, `connect` and `clearDenylist` of the switch, over the
-- manager of the queues and the peer book. The two forms of a call, with and without a protocol or
-- options, are told apart by their arguments.
use js_libp2p_swarm.Prelude.{
  ℕ, ◌<◌, ◌≡◌, refl, ap, ◌∙◌, Bool, true, false, Option, none, some, List, [], ◌∷◌, ◌++◌, length,
  insert, leb, ltb, ◌≤◌, arith, Option-cases, inl, inr,
}
use js_libp2p_swarm.Constants.{priority_high, priority_low}
use js_libp2p_swarm.Constants
use js_libp2p_swarm.Errors.{SwitchError, dial_aborted}
use js_libp2p_swarm.PeerInfos.{
  PeerBook, Peer, multiaddr, peer_id, Lookup, found, get_peer_info, get_peer_info_unknown,
}
use js_libp2p_swarm.PeerInfos
use js_libp2p_swarm.Dialer.Context.{Context, Limits}
use js_libp2p_swarm.Dialer.Queue.{failed, Effect, deferred}
use js_libp2p_swarm.Dialer.Queue
use js_libp2p_swarm.Dialer.Manager.{
  Cell, Pending, Manager, Completion, returned, threw, state, Request, add, find, add_at,
  is_refused, abort_request, get_queue,
}
use js_libp2p_swarm.Dialer.Manager
use js_libp2p_swarm.Dialer.Manager.FirstDial.{resting, add_throws}

-- The options of the switch that are not numbers are left to the defaults.
pub record SwitchOptions : Type 0 where
  pub deny_attempts : Option ℕ
  pub deny_ttl : Option ℕ
  pub max_cold_calls : Option ℕ
  pub max_parallel_dials : Option ℕ

abbrev or_default : Option ℕ → ℕ → ℕ
or_default none d = d
or_default (some n) d = n

unfoldable limits_of : SwitchOptions → Limits
limits_of o = record {
  deny_attempts = or_default o.deny_attempts Constants.deny_attempts;
  deny_ttl = or_default o.deny_ttl Constants.deny_ttl;
  max_cold_calls = or_default o.max_cold_calls Constants.max_cold_calls;
  max_parallel_dials = or_default o.max_parallel_dials Constants.max_parallel_dials;
}

-- The second argument of a dial: a protocol, nothing, or the callback in its place.
pub data ProtocolArgument : Type 0 where
  protocol : ℕ → ProtocolArgument
  no_protocol : ProtocolArgument
  callback_instead : ℕ → ProtocolArgument

pub record DialOptions : Type 0 where
  pub use_fsm : Bool
  pub priority : ℕ

-- The options that a caller of `connect` gives; a field that is missing keeps its default.
pub data ConnectArgument : Type 0 where
  options : (use_fsm : Option Bool) → (priority : Option ℕ) → ConnectArgument
  no_options : ConnectArgument
  callback_first : ℕ → ConnectArgument

-- The protocol and the callback that remain.
abbrev pub shift : ProtocolArgument → Option ℕ → Option ℕ × Option ℕ
shift (protocol n) cb = (some n, cb)
shift no_protocol cb = (none, cb)
shift (callback_instead f) cb = (none, some f)

is_some {ℓ} : {A : Type ℓ} → Option A → Bool
is_some none = false
is_some (some a) = true

-- `callback(err)`: without a callback the call itself throws.
refuse : SwitchError → Option ℕ → Manager → Completion
refuse e none m = threw m
refuse e (some f) m = returned (record m { log = m.log ++ failed (some f) e ∷ [] })

module _ (p : PeerBook) where
  open p use {Book, Info, id_of, get, new_info, add_addr}

  -- The readings with the peers that the book has.
  abbrev with_book : Context → Book → Context
  with_book c b = record c { in_peer_book = λ id. is_some (get b id) }

  dial_found :
      Context → Lookup Info → Book → Option ℕ → DialOptions → Option ℕ → Manager → Completion
  unfolding refuse is_some add
  dial_found c (PeerInfos.found i) b proto o cb m =
      add (with_book c b)
        (record {
          peer = id_of i;
          protocol = proto;
          use_fsm = o.use_fsm;
          priority = o.priority;
          callback = cb;
        })
        m
  dial_found c (PeerInfos.threw e) b proto o cb m = refuse e cb m

  -- `_dial`
  dial_with :
      Context
      → Peer Info
      → ProtocolArgument
      → DialOptions
      → Option ℕ
      → Book × Manager
      → Book × Completion
  unfolding dial_found get_peer_info
  dial_with c peer arg o cb (b, m) =
      let (proto, cb') = shift arg cb in
      let (result, b') = get_peer_info p peer b in (b', dial_found c result b' proto o cb' m)

  pub dial : Context → Peer Info → ProtocolArgument → Option ℕ → Book × Manager → Book × Completion
  unfolding dial_with
  dial c peer arg = dial_with c peer arg (record { use_fsm = false; priority = priority_high })

  unfoldable dial_fsm :
      Context → Peer Info → ProtocolArgument → Option ℕ → Book × Manager → Book × Completion
  unfolding dial_with
  dial_fsm c peer arg = dial_with c peer arg (record { use_fsm = true; priority = priority_high })

  -- `{ useFSM: false, priority: PRIORITY_LOW, ...options }`
  merge_options : ConnectArgument → DialOptions
  merge_options (options f n) = record {
    use_fsm = elim f [ none ↦ false | some x ↦ x ];
    priority = or_default n priority_low;
  }
  merge_options no_options = record { use_fsm = false; priority = priority_low }
  merge_options (callback_first f) = record { use_fsm = false; priority = priority_low }

  connect_callback : ConnectArgument → Option ℕ → Option ℕ
  connect_callback (options f n) cb = cb
  connect_callback no_options cb = cb
  connect_callback (callback_first f) cb = some f

  pub connect :
      Context → Peer Info → ConnectArgument → Option ℕ → Book × Manager → Book × Completion
  unfolding dial_with merge_options connect_callback
  connect c peer arg cb = dial_with c peer no_protocol (merge_options arg) (connect_callback arg cb)

  -- The `DialQueueManager` takes a peer info; only its id is read.
  clear_denylist : Info → Manager → Manager
  clear_denylist i = Manager.clear_denylist (id_of i)

module _ (p : PeerBook) (c : Context) (addr id : ℕ) (arg : ProtocolArgument) (cb : Option ℕ) where
  open p use {Book, Info, get, new_info, id_of, id-new_info, id-add_addr, add_addr}

  -- The request that the dial makes for a peer.
  abbrev request_of : ℕ → Request
  request_of peer = record {
    peer = peer;
    protocol = (shift arg cb).0;
    use_fsm = false;
    priority = priority_high;
    callback = (shift arg cb).1;
  }

  -- A dial by the multiaddr of a peer that the peer book does not know throws, and nothing was
  -- called: the queue of the peer is left running with the request in it, and one of the dialer's
  -- slots stays taken. The manager runs, the peer is not connected, no queue of it is listed, no
  -- peer is enlisted and a slot is free.
  pub dial-threw :
      (b : Book) (heap : List Cell) (dialing : List ℕ) (scheduled : Bool) (pending : List Pending)
      (log : List Effect)
      → get b id ≡ none
      → find id 0 heap ≡ none
      → c.is_connected id ≡ false
      → length dialing < c.max_parallel_dials
      → (dial p c
          (multiaddr addr (some id))
          arg
          cb
          (b, resting heap dialing scheduled pending log)).1
        ≡ threw (
            resting
              (heap
                ++ record {
                  object = record (Queue.init id) {
                    queue =
                        record {
                          protocol = (shift arg cb).0;
                          use_fsm = false;
                          callback = (shift arg cb).1;
                        }
                        ∷ [];
                    is_running = true;
                  };
                  listed = true;
                }
                  ∷ [])
              (insert id dialing)
              scheduled
              pending
              log)
  unfolding dial dial_with dial_found get_peer_info is_some
  dial-threw b heap dialing scheduled pending log g f u room =
      let m = resting heap dialing scheduled pending log in
      ap
        (λ l.
          dial_found p c l b (shift arg cb).0 (record { use_fsm = false; priority = priority_high })
            (shift arg cb).1 m)
        (get_peer_info_unknown p addr id b g).0
      ∙ ap (λ q. add (with_book p c b) (request_of q) m)
          (id-add_addr (new_info id) addr ∙ id-new_info id)
      ∙ add_throws (with_book p c b) (request_of id) heap dialing scheduled pending log f refl u
          (ap is_some g) room

-- The cold calls that `add` refuses.
too_many :
    (c : Context) (r : Request) (m : Manager) (ref : ℕ)
    → leb c.max_cold_calls (length m.cold_call_queue) ≡ true
    → ltb priority_high r.priority ≡ true
    → add_at c r (ref, m)
      ≡ returned (record m { log = m.log ++ deferred r.callback dial_aborted ∷ [] })
unfolding add_at is_refused abort_request
too_many c r m ref full low = ground arith

cold-get_queue : (id : ℕ) (m : Manager) → (get_queue id m).1.cold_call_queue ≡ m.cold_call_queue
unfolding get_queue
cold-get_queue id m = elim (Option-cases (find id 0 m.heap)) [
  | inl e ↦ rw (e, get_queue) refl
  | inr (ref, e) ↦ rw (e, get_queue) refl
]

module _ (p : PeerBook) (c : Context) (id : ℕ) (cb : Option ℕ) where
  open p use {Book, Info, get, id_of, id-get}

  -- When as many cold calls are queued as the limit allows, `connect` without options to the id of
  -- a peer of the peer book is refused: the manager is as `getQueue` leaves it, but for
  -- `DIAL_ABORTED` given to the callback.
  pub connect-refused :
      (b : Book) (i : Info) (m : Manager)
      → get b id ≡ some i
      → c.max_cold_calls ≤ length m.cold_call_queue
      → let m' = (get_queue id m).1 in
        (connect p c (peer_id id) no_options cb (b, m)).1
        ≡ returned (record m' { log = m'.log ++ deferred cb dial_aborted ∷ [] })
  unfolding connect dial_with dial_found get_peer_info merge_options connect_callback add
  connect-refused b i m g full =
      rw (g, get_peer_info, id-get b id i g)
        (too_many (with_book p c b)
          (record {
            peer = id;
            protocol = none;
            use_fsm = false;
            priority = priority_low;
            callback = cb;
          })
          (get_queue id m).1 (get_queue id m).0 (ground (arith, cold-get_queue id m)) refl)
