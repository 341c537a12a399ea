-- ===== src/Connection/Manager/Lookups.antt =====
-- What `getOne` of src/connection/manager.js finds, and what `remove` does with a connection that is
-- not tracked.
use js_libp2p_swarm.Prelude.{
  ℕ, ◌≡◌, refl, true, false, none, some, List, [], ◌∷◌, ◌++◌, arith, has, delete, Option-cases, inl,
  inr, ==→≡,
}
use js_libp2p_swarm.Connection.Manager.{
  Connections, ConnectionManager, Entries, at, change, get_all, get_one, find_muxed, after_splice,
  remove, connection_end,
}
use js_libp2p_swarm.Connection.Manager.Entries.{
  is_empty, well_formed, has-append, has_of_all, lacks-has, lacks_of_at, has-at,
}

muxed_of_list :
    (s : Connections) (l : List ℕ) (c : ℕ)
    → find_muxed s l ≡ some c
    → (has c l ≡ true) × (s.is_muxed c ≡ true)
unfolding find_muxed
muxed_of_list s [] c h = ground arith
muxed_of_list s (x ∷ l) c h = ground (arith, muxed_of_list s l c)

none_of_list :
    (s : Connections) (l : List ℕ) (c : ℕ)
    → find_muxed s l ≡ none
    → has c l ≡ true
    → s.is_muxed c ≡ false
unfolding find_muxed
none_of_list s [] c h t = ground arith
none_of_list s (x ∷ l) c h t = ground (arith, none_of_list s l c, ==→≡ x c)

-- A connection that `getOne` returns.
has-at_all :
    (t : ℕ → ℕ) (p c : ℕ) (es : Entries) (l : List ℕ)
    → well_formed t es ≡ true
    → at p es ≡ some l
    → has c l ≡ true
    → (has c (get_all es) ≡ true) × (t c ≡ p)
unfolding at get_all
has-at_all t p c [] l w h i = ground arith
has-at_all t p c ((q, k) ∷ es) l w h i =
    ground (arith, has-at_all t p c es l, has-append c k (get_all es), has_of_all t q c k, ==→≡ q p)

-- In well-formed lists `getOne` returns a muxed connection of the peer that is tracked, if it
-- returns one.
pub get_one-tracked :
    (s : Connections) (p c : ℕ) (es : Entries)
    → well_formed s.their_id es ≡ true
    → get_one s p es ≡ some c
    → (has c (get_all es) ≡ true) × (s.their_id c ≡ p) × (s.is_muxed c ≡ true)
unfolding get_one
get_one-tracked s p c es w h = elim (Option-cases (at p es)) [
  | inl e ↦ ground arith
  | inr (l, e) ↦ ground (arith, muxed_of_list s l c, has-at_all s.their_id p c es l w e)
]

-- In well-formed lists, where `getOne` finds no connection to a peer, no connection of the peer
-- that is tracked is muxed.
get_one_none :
    (s : Connections) (c : ℕ) (es : Entries)
    → well_formed s.their_id es ≡ true
    → get_one s (s.their_id c) es ≡ none
    → has c (get_all es) ≡ true
    → s.is_muxed c ≡ false
unfolding get_one
get_one_none s c es w h t = elim (Option-cases (at (s.their_id c) es)) [
  | inl e ↦ ground (arith, lacks_of_at (s.their_id c) es e, lacks-has s.their_id c es w)
  | inr (l, e) ↦ ground (arith, has-at s.their_id c es l w e, none_of_list s l c)
]

delete_absent : (c : ℕ) (l : List ℕ) → has c l ≡ false → delete c l ≡ l
delete_absent c [] h = refl
delete_absent c (x ∷ l) h = ground (arith, delete_absent c l)

change_absent :
    (c p : ℕ) (es : Entries) (l : List ℕ)
    → at p es ≡ some l
    → has c l ≡ false
    → change (delete c) p es ≡ es
unfolding at change
change_absent c p [] l h n = refl
change_absent c p ((q, k) ∷ es) l h n = ground (arith, change_absent c p es l, delete_absent c k)

occupied :
    (t : ℕ → ℕ) (p : ℕ) (es : Entries) (l : List ℕ)
    → well_formed t es ≡ true
    → at p es ≡ some l
    → is_empty l ≡ false
unfolding at
occupied t p [] l w h = ground arith
occupied t p ((q, k) ∷ es) l w h = ground (arith, occupied t p es l)

-- In well-formed lists, removing a connection that is not tracked, of a peer that has others,
-- leaves the lists as they are, and reports the end of a connection all the same.
pub remove_untracked :
    (s : Connections) (c : ℕ) (l : List ℕ) (m : ConnectionManager)
    → well_formed s.their_id m.connections ≡ true
    → at (s.their_id c) m.connections ≡ some l
    → has c (get_all m.connections) ≡ false
    → remove s c m ≡ record m { log = m.log ++ connection_end c ∷ [] }
unfolding remove
remove_untracked s c l m w h n =
    rw
      (h, remove, delete_absent c l absent, change_absent c (s.their_id c) m.connections l h absent)
      (ends l (occupied s.their_id (s.their_id c) m.connections l w h))
  where
    absent : has c l ≡ false
    absent = ground (arith, has-at s.their_id c m.connections l w h)

    ends :
        (k : List ℕ)
        → is_empty k ≡ false
        → after_splice s c k m ≡ record m { log = m.log ++ connection_end c ∷ [] }
    ends [] e = ground arith
    ends (x ∷ k) e = unfold after_splice in refl
