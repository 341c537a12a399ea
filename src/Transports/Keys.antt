-- ===== src/Transports/Keys.antt =====
-- Which addresses `listen` of src/transport.js tells apart, by `uniqueBy` of src/utils.js.
use js_libp2p_swarm.Prelude.{
  ℕ, ◌==◌, ◌∙◌, none, if◌then◌else◌, Option-cases, ◌≡◌, refl, Bool, true, false, not, ◌&&◌, ◌||◌,
  some, List, [], ◌∷◌, arith, ap, Bool-cases, inl, inr, ==→≡,
}
use js_libp2p_swarm.Transports.Texts.{text_eq, text_eq_refl, text_eq→≡}
use js_libp2p_swarm.Transports.Addresses.{
  Multiaddr, Key, by_port, by_text, key_of, same_key, set_key, to_map, map_values, unique_by_key,
}

same_key→≡ : (j k : Key) → same_key j k ≡ true → j ≡ k
same_key→≡ (by_port m) (by_port n) h = ap by_port (==→≡ m n h)
same_key→≡ (by_text s) (by_text t) h = ap by_text (text_eq→≡ s t h)
same_key→≡ (by_port m) (by_text t) h = ground arith
same_key→≡ (by_text s) (by_port n) h = ground arith

same_key_refl : (k : Key) → same_key k k ≡ true
same_key_refl (by_port n) = ground arith
same_key_refl (by_text s) = text_eq_refl s

-- Whether an address of the list has the key, and whether no two share one.
abbrev has_key : Key → List Multiaddr → Bool
has_key k [] = false
has_key k (a ∷ l) = same_key (key_of a) k || has_key k l

abbrev distinct_keys : List Multiaddr → Bool
distinct_keys [] = true
distinct_keys (a ∷ l) = not (has_key (key_of a) l) && distinct_keys l

-- Every entry stands at the key of its address.
abbrev keyed : List (Key × Multiaddr) → Bool
keyed [] = true
keyed ((k, a) ∷ m) = same_key (key_of a) k && keyed m

keyed-set_key :
    (a : Multiaddr) (m : List (Key × Multiaddr))
    → keyed m ≡ true
    → keyed (set_key (key_of a) a m) ≡ true
unfolding set_key
keyed-set_key a [] v = ground (arith, same_key_refl (key_of a))
keyed-set_key a ((j, b) ∷ m) v = elim (Bool-cases (same_key j (key_of a))) [
  | inl y ↦ ground (arith, same_key→≡ j (key_of a) y, same_key_refl (key_of a))
  | inr n ↦ ground (arith, keyed-set_key a m)
]

has_key-set_key :
    (q : Key) (a : Multiaddr) (m : List (Key × Multiaddr))
    → keyed m ≡ true
    → has_key q (map_values (set_key (key_of a) a m))
      ≡ (same_key (key_of a) q || has_key q (map_values m))
unfolding set_key
has_key-set_key q a [] v = refl
has_key-set_key q a ((j, b) ∷ m) v = elim (Bool-cases (same_key j (key_of a))) [
  | inl y ↦ ground (arith, same_key→≡ j (key_of a) y, same_key→≡ (key_of b) j)
  | inr n ↦ ground (arith, has_key-set_key q a m)
]

distinct_keys-set_key :
    (a : Multiaddr) (m : List (Key × Multiaddr))
    → keyed m ≡ true
    → distinct_keys (map_values m) ≡ true
    → distinct_keys (map_values (set_key (key_of a) a m)) ≡ true
unfolding set_key
distinct_keys-set_key a [] v d = refl
distinct_keys-set_key a ((j, b) ∷ m) v d = elim (Bool-cases (same_key j (key_of a))) [
  | inl y ↦ ground (arith, same_key→≡ j (key_of a) y, same_key→≡ (key_of b) j)
  | inr n ↦ ground (
    arith,
    distinct_keys-set_key a m,
    has_key-set_key (key_of b) a m,
    same_key→≡ (key_of b) j,
    same_key→≡ (key_of a) (key_of b),
    same_key_refl (key_of b),
  )
]

to_map-keys :
    (q : Key) (addrs : List Multiaddr) (m : List (Key × Multiaddr))
    → keyed m ≡ true
    → distinct_keys (map_values m) ≡ true
    → (distinct_keys (map_values (to_map addrs m)) ≡ true)
      × (has_key q (map_values (to_map addrs m)) ≡ (has_key q addrs || has_key q (map_values m)))
unfolding to_map
to_map-keys q [] m v d = (d, refl)
to_map-keys q (a ∷ rest) m v d =
    let rec =
      to_map-keys q rest (set_key (key_of a) a m) (keyed-set_key a m v)
        (distinct_keys-set_key a m v d) in
    (rec.0, ground (arith, rec.1, has_key-set_key q a m v))

-- The port of an address, 0 where it has none, and whether two addresses stand for one to listen on:
-- they have the same port, or no port and the same text.
abbrev pub port_or_zero : Multiaddr → ℕ
port_or_zero a = elim a.port [ none ↦ 0 | some n ↦ n ]

abbrev pub is_like : Multiaddr → Multiaddr → Bool
is_like a b =
    if port_or_zero a == 0
    then (port_or_zero b == 0) && text_eq a.text b.text
    else port_or_zero a == port_or_zero b

abbrev pub has_like : Multiaddr → List Multiaddr → Bool
has_like a [] = false
has_like a (b ∷ l) = is_like b a || has_like a l

-- No two addresses of the list are like each other.
abbrev pub all_differ : List Multiaddr → Bool
all_differ [] = true
all_differ (a ∷ l) = not (has_like a l) && all_differ l

abbrev pub any : (Multiaddr → Bool) → List Multiaddr → Bool
any p [] = false
any p (a ∷ l) = p a || any p l

is_like-same_key : (a b : Multiaddr) → is_like a b ≡ same_key (key_of a) (key_of b)
unfolding key_of
is_like-same_key a b = elim (Option-cases a.port) [
  | inl e ↦ elim (Option-cases b.port) [
    | inl g ↦ ground (arith, e, g)
    | inr (n, g) ↦ ground (arith, e, g)
  ]
  | inr (m, e) ↦ elim (Option-cases b.port) [
    | inl g ↦ ground (arith, e, g)
    | inr (n, g) ↦ ground (arith, e, g)
  ]
]

has_like-has_key : (a : Multiaddr) (l : List Multiaddr) → has_like a l ≡ has_key (key_of a) l
has_like-has_key a [] = refl
has_like-has_key a (b ∷ l) =
    ap (λ x. x || has_like a l) (is_like-same_key b a)
    ∙ ap (λ x. same_key (key_of b) (key_of a) || x) (has_like-has_key a l)

all_differ-distinct_keys : (l : List Multiaddr) → all_differ l ≡ distinct_keys l
all_differ-distinct_keys [] = refl
all_differ-distinct_keys (a ∷ l) =
    ap (λ x. not x && all_differ l) (has_like-has_key a l)
    ∙ ap (λ x. not (has_key (key_of a) l) && x) (all_differ-distinct_keys l)

any-set_key :
    (p : Multiaddr → Bool) (k : Key) (a : Multiaddr) (m : List (Key × Multiaddr))
    → any p (map_values (set_key k a m)) ≡ true
    → (p a || any p (map_values m)) ≡ true
unfolding set_key
any-set_key p k a [] h = ground arith
any-set_key p k a ((j, b) ∷ m) h = ground (arith, any-set_key p k a m)

any-to_map :
    (p : Multiaddr → Bool) (addrs : List Multiaddr) (m : List (Key × Multiaddr))
    → any p (map_values (to_map addrs m)) ≡ true
    → (any p addrs || any p (map_values m)) ≡ true
unfolding to_map
any-to_map p [] m h = ground arith
any-to_map p (a ∷ rest) m h =
    let s = any-to_map p rest (set_key (key_of a) a m) h in
    ground (arith, s, any-set_key p (key_of a) a m)

-- The addresses that `listen` keeps of the peer's: each is one of the peer's, no two of them have
-- the same port that is not 0, or no such port and the same text, and each address of the peer has
-- one like it, by its port or its text, among them.
pub unique_by_key_lem :
    (addrs : List Multiaddr)
    → (all_differ (unique_by_key addrs) ≡ true)
      × ((a : Multiaddr) → has_like a (unique_by_key addrs) ≡ has_like a addrs)
      × ((p : Multiaddr → Bool) → any p (unique_by_key addrs) ≡ true → any p addrs ≡ true)
unfolding unique_by_key
unique_by_key_lem addrs = (
  all_differ-distinct_keys (unique_by_key addrs) ∙ (to_map-keys (by_port 0) addrs [] refl refl).0,
  λ a.
      has_like-has_key a (unique_by_key addrs)
      ∙ ground (arith, to_map-keys (key_of a) addrs [] refl refl, has_like-has_key a addrs),
  λ p h. ground (arith, any-to_map p addrs [] h),
)
