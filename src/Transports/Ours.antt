-- ===== src/Transports/Ours.antt =====
-- Which addresses `dialables` of src/transport.js leaves out.
use js_libp2p_swarm.Prelude.{
  ◌≡◌, refl, Bool, true, false, not, ◌&&◌, ◌||◌, some, List, [], ◌∷◌, ◌++◌, arith, ap, subst,
  Bool-cases, inl, inr,
}
use js_libp2p_swarm.Transports.Texts.{Text, starts_with, is_empty, text_eq, text_eq_refl, text_eq→≡}
use js_libp2p_swarm.Transports.Addresses.{
  Multiaddr, PeerInfo, ipfs, other_address, unless_empty, expand, our_addresses, includes,
  get_destination, starts_with_any, without_ours, dialables, all_foreign,
}

-- No address of the list has a destination that starts with the text.
abbrev pub avoids : Text → List Multiaddr → Bool
avoids t [] = true
avoids t (a ∷ rest) = not (starts_with (get_destination a) t) && avoids t rest

includes-append :
    (t : Text) (a b : List Text) → includes t (a ++ b) ≡ (includes t a || includes t b)
includes-append t [] b = refl
includes-append t (x ∷ a) b = ground (arith, includes-append t a b)

includes-unless_empty : (t : Text) → is_empty t ≡ false → includes t (unless_empty t) ≡ true
includes-unless_empty [] h = ground arith
includes-unless_empty (c ∷ s) h = ground (arith, text_eq_refl s)

starts_with_of_includes :
    (s t : Text) (ps : List Text)
    → includes t ps ≡ true
    → starts_with_any s ps ≡ false
    → starts_with s t ≡ false
starts_with_of_includes s t [] i h = ground arith
starts_with_of_includes s t (p ∷ ps) i h = elim (Bool-cases (text_eq p t)) [
  | inl y ↦ let e = text_eq→≡ p t y in subst (λ x. starts_with s x ≡ false) e (ground arith)
  | inr n ↦ ground (arith, starts_with_of_includes s t ps)
]

avoids-without_ours :
    (t : Text) (ours : List Text) (addrs : List Multiaddr)
    → includes t ours ≡ true
    → avoids t (without_ours ours addrs) ≡ true
unfolding without_ours
avoids-without_ours t ours [] h = refl
avoids-without_ours t ours (a ∷ rest) h =
    ground (
      arith,
      avoids-without_ours t ours rest h,
      starts_with_of_includes (get_destination a) t ours h,
    )

without_ours_of_foreign :
    (ours : List Text) (addrs : List Multiaddr)
    → all_foreign ours addrs ≡ true
    → without_ours ours addrs ≡ addrs
unfolding without_ours
without_ours_of_foreign ours [] h = refl
without_ours_of_foreign ours (a ∷ rest) h = ground (arith, without_ours_of_foreign ours rest)

includes-expand :
    (id : Text) (pre post : List Multiaddr) (a : Multiaddr)
    → is_empty a.text ≡ false
    → includes a.text (expand id (pre ++ a ∷ post)) ≡ true
unfolding expand
includes-expand id [] post a h = ground (
  arith,
  includes-append a.text (unless_empty a.text)
      (unless_empty (other_address id a) ++ expand id post),
  includes-unless_empty a.text h,
)
includes-expand id (b ∷ pre) post a h = ground (
  arith,
  includes-append a.text (unless_empty b.text)
      (unless_empty (other_address id b) ++ expand id (pre ++ a ∷ post)),
  includes-append a.text (unless_empty (other_address id b)) (expand id (pre ++ a ∷ post)),
  includes-expand id pre post a h,
)

includes-our_address :
    (ours : PeerInfo) (pre post : List Multiaddr) (a : Multiaddr)
    → ours.multiaddrs ≡ pre ++ a ∷ post
    → is_empty a.text ≡ false
    → includes a.text (our_addresses ours) ≡ true
unfolding our_addresses
includes-our_address ours pre post a e h = ground (
  arith,
  includes-append a.text (expand ours.id ours.multiaddrs) (ipfs ours.id ∷ []),
  includes-expand ours.id pre post a h,
  ap (λ x. includes a.text (expand ours.id x)) e,
)

includes-our_id : (ours : PeerInfo) → includes (ipfs ours.id) (our_addresses ours) ≡ true
unfolding our_addresses
includes-our_id ours = ground (
  arith,
  includes-append (ipfs ours.id) (expand ours.id ours.multiaddrs) (ipfs ours.id ∷ []),
  text_eq_refl (ipfs ours.id),
)

-- A node does not dial itself: no address that `dialables` returns has, behind its last relay, a
-- destination that starts with one of our addresses or with our own id, and where no address that
-- fits the transport is ours, all of them are returned.
pub dialables-avoids :
    (filter : List Multiaddr → List Multiaddr) (addrs : List Multiaddr) (ours : PeerInfo)
    (pre post : List Multiaddr) (a : Multiaddr)
    → ours.multiaddrs ≡ pre ++ a ∷ post
    → is_empty a.text ≡ false
    → let result = dialables (some filter) addrs (some ours) in
      (avoids a.text result ≡ true)
      × (avoids (ipfs ours.id) result ≡ true)
      × (all_foreign (our_addresses ours) (filter addrs) ≡ true → result ≡ filter addrs)
unfolding dialables
dialables-avoids filter addrs ours pre post a e h = (
  avoids-without_ours a.text (our_addresses ours) (filter addrs)
      (includes-our_address ours pre post a e h),
  avoids-without_ours (ipfs ours.id) (our_addresses ours) (filter addrs) (includes-our_id ours),
  without_ours_of_foreign (our_addresses ours) (filter addrs),
)
