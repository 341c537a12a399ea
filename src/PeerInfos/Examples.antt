-- ===== src/PeerInfos/Examples.antt =====
-- A peer book for src/get-peer-info.js, the lookups of src/get-peer-info.js in it, and the theorems
-- at those inputs.
use js_libp2p_swarm.Prelude.{
  ℕ, ◌≡◌, refl, Option, none, some, List, [], ◌∷◌, ◌==◌, if◌then◌else◌, arith, inl, inr,
  Option-cases,
}
use js_libp2p_swarm.PeerInfos.{PeerBook, multiaddr, found, get_peer_info}

-- The addresses of each peer that is known.
abbrev Addresses : Type 0
Addresses = ℕ → Option (List ℕ)

abbrev lookup : Addresses → ℕ → Option (ℕ × List ℕ)
lookup b id = elim (b id) [ none ↦ none | some addrs ↦ some (id, addrs) ]

abbrev remember : Addresses → ℕ × List ℕ → Addresses
remember b (id, addrs) x = if x == id then some addrs else b x

pub id-lookup : (b : Addresses) (id : ℕ) (i : ℕ × List ℕ) → lookup b id ≡ some i → i.0 ≡ id
id-lookup b id i h = elim (Option-cases (b id)) [
  | inl e ↦ ground arith
  | inr (addrs, e) ↦ ground arith
]

pub lookup-remember : (b : Addresses) (i : ℕ × List ℕ) → lookup (remember b i) i.0 ≡ some i
lookup-remember b i = ground arith

-- A book of addresses; a peer info is an id with its addresses.
abbrev pub address_book : PeerBook
address_book = record {
  Book = Addresses;
  Info = ℕ × List ℕ;
  id_of = λ i. i.0;
  new_info = λ id. (id, []);
  add_addr = λ i a. (i.0, a ∷ i.1);
  get = lookup;
  put = λ b i. (remember b i, i);
  id-new_info = λ id. refl;
  id-add_addr = λ i a. refl;
  id-get = id-lookup;
  id-put = λ b i. refl;
  get-put = lookup-remember;
}

abbrev pub empty_book : Addresses
empty_book id = none

-- A book that knows peer 7.
abbrev pub known_seven : Addresses
known_seven id = if id == 7 then some [] else none

get_unknown :
    get_peer_info address_book (multiaddr 31 (some 7)) empty_book ≡ (found (7, 31 ∷ []), empty_book)
unfolding get_peer_info
get_unknown = refl
