-- ===== src/PeerInfos.antt =====
-- src/get-peer-info.js. The peer book, the peer infos and the multiaddrs are packages of their own:
-- `PeerBook` is what the code uses of them, with the documented laws of `put` and `get`.
pub mod Examples
use js_libp2p_swarm.Prelude.{ℕ, ◌≡◌, refl, Option, none, some, arith, Option-cases, inl, inr, ◌≢◌}
use js_libp2p_swarm.Errors.{SwitchError, no_peer_info, peer_type_not_recognized, invalid_peer_id}

pub record PeerBook : Type 1 where
  pub Book : Type 0
  pub Info : Type 0
  -- the id of a peer info; base58 strings are numbers
  pub id_of : Info → ℕ
  -- `new PeerInfo(PeerId.createFromB58String(id))`
  pub new_info : ℕ → Info
  -- `peerInfo.multiaddrs.add(addr)`
  pub add_addr : Info → ℕ → Info
  -- `get(id)`, which throws where this is `none`
  pub get : Book → ℕ → Option Info
  -- `put(info)` returns the latest info of the peer
  pub put : Book → Info → Book × Info
  pub id-new_info : (id : ℕ) → id_of (new_info id) ≡ id
  pub id-add_addr : (i : Info) (a : ℕ) → id_of (add_addr i a) ≡ id_of i
  pub id-get : (b : Book) (id : ℕ) (i : Info) → get b id ≡ some i → id_of i ≡ id
  pub id-put : (b : Book) (i : Info) → id_of (put b i).1 ≡ id_of i
  pub get-put : (b : Book) (i : Info) → get (put b i).0 (id_of i) ≡ some (put b i).1

-- The argument of a dial: `isPeerInfo`, `isMultiaddr` with what `getPeerId()` gives, `isPeerId`, or
-- none of these.
pub data Peer (Info : Type 0) : Type 0 where
  peer_info : Info → Peer Info
  multiaddr : (addr : ℕ) → (peer : Option ℕ) → Peer Info
  peer_id : ℕ → Peer Info
  unrecognized : Peer Info

pub data Lookup (Info : Type 0) : Type 0 where
  found : Info → Lookup Info
  threw : SwitchError → Lookup Info

module _ (p : PeerBook) where
  open p use {
    Book, Info, id_of, new_info, add_addr, get, put, id-new_info, id-add_addr, id-get, id-put,
    get-put,
  }

  -- The multiaddr's peer, from the book or made anew. `createFromB58String` refuses a missing id.
  of_multiaddr : Book → ℕ → Option ℕ → Lookup Info
  of_multiaddr b addr none = threw invalid_peer_id
  of_multiaddr b addr (some id) = elim (get b id) [
    | some i ↦ found (add_addr i addr)
    | none ↦ found (add_addr (new_info id) addr)
  ]

  -- The peer info, and the book that is left.
  unfoldable pub get_peer_info : Peer Info → Book → Lookup Info × Book
  unfolding of_multiaddr
  get_peer_info (peer_info i) b = let (b', latest) = put b i in (found latest, b')
  get_peer_info (multiaddr addr peer) b = (of_multiaddr b addr peer, b)
  get_peer_info (peer_id id) b = elim (get b id) [
    | some i ↦ (found i, b)
    | none ↦ (threw no_peer_info, b)
  ]
  get_peer_info unrecognized b = (threw peer_type_not_recognized, b)

  -- The peer that an argument names.
  abbrev pub named : Peer Info → Option ℕ
  named (peer_info i) = some (id_of i)
  named (multiaddr addr peer) = peer
  named (peer_id id) = some id
  named unrecognized = none

  -- A peer info that is returned is one of the peer that was asked for.
  id-get_peer_info :
      (x : Peer Info) (b : Book) (i : Info)
      → (get_peer_info x b).0 ≡ found i
      → named x ≡ some (id_of i)
  unfolding get_peer_info
  id-get_peer_info (peer_info j) b i h = ground (arith, id-put b j)
  id-get_peer_info (multiaddr addr none) b i h = ground arith
  id-get_peer_info (multiaddr addr (some id)) b i h = elim (Option-cases (get b id)) [
    | inl e ↦ ground (arith, id-add_addr (new_info id) addr, id-new_info id)
    | inr (j, e) ↦ ground (arith, id-add_addr j addr, id-get b id j e)
  ]
  id-get_peer_info (peer_id id) b i h = elim (Option-cases (get b id)) [
    | inl e ↦ ground arith
    | inr (j, e) ↦ ground (arith, id-get b id j e)
  ]
  id-get_peer_info unrecognized b i h = ground arith

  -- A peer info that is returned is the one that the peer book has for its id afterwards, unless
  -- the peer was named by a multiaddr.
  get-get_peer_info :
      (x : Peer Info) (b : Book) (i : Info)
      → ((addr : ℕ) (peer : Option ℕ) → x ≢ multiaddr addr peer)
      → (get_peer_info x b).0 ≡ found i
      → get (get_peer_info x b).1 (id_of i) ≡ some i
  unfolding get_peer_info
  get-get_peer_info (peer_info j) b i n h = ground (arith, id-put b j, get-put b j)
  get-get_peer_info (multiaddr addr peer) b i n h = absurd (n addr peer refl)
  get-get_peer_info (peer_id id) b i n h = elim (Option-cases (get b id)) [
    | inl e ↦ ground arith
    | inr (j, e) ↦ ground (arith, id-get b id j e)
  ]
  get-get_peer_info unrecognized b i n h = ground arith

  -- A multiaddr of a peer that the book does not know yields a peer info, and the book still does
  -- not know the peer.
  pub get_peer_info_unknown :
      (addr id : ℕ) (b : Book)
      → get b id ≡ none
      → ((get_peer_info (multiaddr addr (some id)) b).0 ≡ found (add_addr (new_info id) addr))
        × (get (get_peer_info (multiaddr addr (some id)) b).1 id ≡ none)
  unfolding get_peer_info
  get_peer_info_unknown addr id b h = ground arith
