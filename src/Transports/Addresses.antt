-- ===== src/Transports/Addresses.antt =====
-- src/transport.js: `dialables`, `ourAddresses`, `getDestination`, and the addresses that `listen`
-- listens on, with `uniqueBy` of src/utils.js. A multiaddr is seen by what its package answers.
use js_libp2p_swarm.Prelude.{
  ℕ, ◌+◌, ◌-◌, Bool, true, false, not, ◌&&◌, ◌||◌, Option, none, some, List, [], ◌∷◌, ◌++◌, ◌==◌,
  if◌then◌else◌, length,
}
use js_libp2p_swarm.Transports.Texts.{
  Text, codes, starts_with, text_eq, last_index_of, drop, slice_before,
}

pub record Multiaddr : Type 0 where
  -- `toString()`, `protoNames()`, `getPeerId()`, and `Number(toOptions().port)`, where `none` is NaN
  pub text : Text
  pub proto_names : List Text
  pub peer_id : Option Text
  pub port : Option ℕ

pub record PeerInfo : Type 0 where
  pub id : Text
  pub multiaddrs : List Multiaddr

abbrev pub ipfs : Text → Text
ipfs id = codes "/ipfs/" ++ id

-- The address without the suffix of its peer, or with the suffix of ours.
pub other_address : Text → Multiaddr → Text
unfolding slice_before last_index_of
other_address our_id a = elim a.peer_id [
  | some id ↦ slice_before (last_index_of (ipfs id) a.text) a.text
  | none ↦ a.text ++ ipfs our_id
]

abbrev pub unless_empty : Text → List Text
unless_empty [] = []
unless_empty (c ∷ s) = (c ∷ s) ∷ []

-- The `reduce` and the `filter` of `ourAddresses`.
unfoldable pub expand : Text → List Multiaddr → List Text
unfolding other_address
expand our_id [] = []
expand our_id (a ∷ rest) =
    unless_empty a.text ++ (unless_empty (other_address our_id a) ++ expand our_id rest)

unfoldable pub our_addresses : PeerInfo → List Text
unfolding expand
our_addresses p = expand p.id p.multiaddrs ++ ipfs p.id ∷ []

abbrev pub relay_protos : List Text
relay_protos =
    codes "p2p-circuit"
    ∷ codes "p2p-websocket-star"
    ∷ codes "p2p-webrtc-star"
    ∷ codes "p2p-stardust"
    ∷ []

abbrev pub includes : Text → List Text → Bool
includes s [] = false
includes s (t ∷ ts) = text_eq t s || includes s ts

-- `protoNames().reverse().find(…)`: the last relay protocol.
find_last_relay : List Text → Option Text
find_last_relay [] = none
find_last_relay (p ∷ ps) = elim (find_last_relay ps) [
  | some q ↦ some q
  | none ↦ if includes p relay_protos then some p else none
]

-- `addr.slice(addr.lastIndexOf(p) + p.length)`; the index is -1 where there is none.
slice_behind : Text → Text → Text
unfolding last_index_of
slice_behind p s = elim (last_index_of p s) [
  | some i ↦ drop (i + length p) s
  | none ↦ drop (length p - 1) s
]

pub get_destination : Multiaddr → Text
unfolding find_last_relay slice_behind
get_destination a = elim (find_last_relay a.proto_names) [
  | none ↦ a.text
  | some p ↦ slice_behind p a.text
]

abbrev pub starts_with_any : Text → List Text → Bool
starts_with_any s [] = false
starts_with_any s (p ∷ ps) = starts_with s p || starts_with_any s ps

-- The `filter` of `dialables`.
unfoldable pub without_ours : List Text → List Multiaddr → List Multiaddr
unfolding get_destination
without_ours ours [] = []
without_ours ours (a ∷ rest) =
    if starts_with_any (get_destination a) ours
    then without_ours ours rest
    else a ∷ without_ours ours rest

-- `dialables`; a transport is its `filter`, or none.
unfoldable pub dialables :
    Option (List Multiaddr → List Multiaddr) → List Multiaddr → Option PeerInfo → List Multiaddr
unfolding without_ours our_addresses
dialables none addrs ours = []
dialables (some filter) addrs none = filter addrs
dialables (some filter) addrs (some ours) = without_ours (our_addresses ours) (filter addrs)

-- What `listen` tells addresses apart by: a port that is not 0, or the text.
pub data Key : Type 0 where
  by_port : ℕ → Key
  by_text : Text → Key

unfoldable pub key_of : Multiaddr → Key
key_of a = elim a.port [
  | none ↦ by_text a.text
  | some n ↦ if n == 0 then by_text a.text else by_port n
]

abbrev pub same_key : Key → Key → Bool
same_key (by_port m) (by_port n) = m == n
same_key (by_text s) (by_text t) = text_eq s t
same_key _ _ = false

-- `map.set(k, a)`: a key keeps its place, and gets the new value.
unfoldable pub set_key : Key → Multiaddr → List (Key × Multiaddr) → List (Key × Multiaddr)
set_key k a [] = (k, a) ∷ []
set_key k a ((j, b) ∷ m) = if same_key j k then (j, a) ∷ m else (j, b) ∷ set_key k a m

unfoldable pub to_map : List Multiaddr → List (Key × Multiaddr) → List (Key × Multiaddr)
unfolding set_key key_of
to_map [] m = m
to_map (a ∷ rest) m = to_map rest (set_key (key_of a) a m)

abbrev pub map_values : List (Key × Multiaddr) → List Multiaddr
map_values [] = []
map_values ((k, a) ∷ m) = a ∷ map_values m

-- `uniqueBy(addrs, …)` of `listen`
unfoldable pub unique_by_key : List Multiaddr → List Multiaddr
unfolding to_map
unique_by_key addrs = map_values (to_map addrs [])

unfoldable listen_addresses : Option (List Multiaddr → List Multiaddr) → PeerInfo → List Multiaddr
unfolding unique_by_key dialables
listen_addresses transport p = dialables transport (unique_by_key p.multiaddrs) none

-- An address that starts with none of the texts, once relays are left out.
abbrev pub is_foreign : List Text → Multiaddr → Bool
is_foreign ours a = not (starts_with_any (get_destination a) ours)

abbrev pub all_foreign : List Text → List Multiaddr → Bool
all_foreign ours [] = true
all_foreign ours (a ∷ rest) = is_foreign ours a && all_foreign ours rest
