-- ===== src/Dialer/Manager/Slots.antt =====
-- The heap of queue objects: which peers have a listed queue that runs.
use js_libp2p_swarm.Prelude.{
  ℕ, zero, suc, ◌+◌, ◌≡◌, refl, Bool, true, false, ◌&&◌, ◌||◌, some, List, [], ◌∷◌, ◌++◌, ◌==◌,
  arith, none, get_elem?, ap, length, ◌≢◌, subst, sym, ◌∙◌, Bool-cases, inl, inr,
}
use native.Mathlib.Nat.{zero-add, add-zero}
use js_libp2p_swarm.Dialer.Queue.{Queue}
use js_libp2p_swarm.Dialer.Manager.{Cell, find, write, unlist}

abbrev pub runs : ℕ → List Cell → Bool
runs id [] = false
runs id (c ∷ cs) = (c.listed && (c.object.id == id) && c.object.is_running) || runs id cs

pub runs-write_ne :
    (id ref : ℕ) (q : Queue) (c : Cell) (cs : List Cell)
    → get_elem? cs ref ≡ some c
    → q.id ≡ c.object.id
    → id ≢ q.id
    → runs id (write ref q cs) ≡ runs id cs
runs-write_ne id ref q c [] g e n = refl
runs-write_ne id zero q c (d ∷ cs) g e n = ground arith
runs-write_ne id (suc ref) q c (d ∷ cs) g e n = ground (arith, runs-write_ne id ref q c cs g e n)

pub runs-write_mono :
    (id ref : ℕ) (q : Queue) (c : Cell) (cs : List Cell)
    → get_elem? cs ref ≡ some c
    → q.id ≡ c.object.id
    → (c.object.is_running ≡ true → q.is_running ≡ true)
    → runs id cs ≡ true
    → runs id (write ref q cs) ≡ true
runs-write_mono id ref q c [] g e n h = h
runs-write_mono id zero q c (d ∷ cs) g e n h = ground arith
runs-write_mono id (suc ref) q c (d ∷ cs) g e n h =
    ground (arith, runs-write_mono id ref q c cs g e n)

pub runs-write_self :
    (ref : ℕ) (q : Queue) (c : Cell) (cs : List Cell)
    → get_elem? cs ref ≡ some c
    → c.listed ≡ true
    → q.is_running ≡ true
    → runs q.id (write ref q cs) ≡ true
runs-write_self ref q c [] g l r = ground arith
runs-write_self zero q c (d ∷ cs) g l r = ground arith
runs-write_self (suc ref) q c (d ∷ cs) g l r = ground (arith, runs-write_self ref q c cs g l r)

pub runs-unlist :
    (id ref : ℕ) (cs : List Cell)
    → ((c : Cell) → get_elem? cs ref ≡ some c → c.object.is_running ≡ false)
    → runs id (unlist ref cs) ≡ runs id cs
runs-unlist id ref [] h = refl
runs-unlist id zero (d ∷ cs) h = ground (arith, h d)
runs-unlist id (suc ref) (d ∷ cs) h = ground (arith, runs-unlist id ref cs h)

pub runs-append :
    (id : ℕ) (cs : List Cell) (d : Cell)
    → d.object.is_running ≡ false
    → runs id (cs ++ d ∷ []) ≡ runs id cs
runs-append id [] d h = ground arith
runs-append id (c ∷ cs) d h = ground (arith, runs-append id cs d h)

find_from :
    (id i : ℕ) (cs : List Cell) (ref : ℕ)
    → find id i cs ≡ some ref
    → (k : ℕ) × (c : Cell) × (ref ≡ i + k)
      × (get_elem? cs k ≡ some c)
      × (c.listed ≡ true)
      × (c.object.id ≡ id)
unfolding find
find_from id i [] ref h = absurd (ground arith)
find_from id i (c ∷ cs) ref h = elim (Bool-cases (c.listed && (c.object.id == id))) [
  | inl hit ↦ (0, c, ground arith, refl, ground arith, ground arith)
  | inr miss ↦
      let (k, d, e, g, l, p) = find_from id (suc i) cs ref (ground arith) in
      (suc k, d, omega arith, g, l, p)
]

-- The place that `find` gives holds a listed queue of the peer.
pub find_lem :
    (id : ℕ) (cs : List Cell) (ref : ℕ)
    → find id 0 cs ≡ some ref
    → (c : Cell) × (get_elem? cs ref ≡ some c) × (c.listed ≡ true) × (c.object.id ≡ id)
find_lem id cs ref h =
    let (k, c, e, g, l, i) = find_from id 0 cs ref h in
    (c, subst (λ r. get_elem? cs r ≡ some c) (sym (e ∙ zero-add k)) g, l, i)

pub get_elem?-write_self :
    (ref : ℕ) (q : Queue) (c : Cell) (cs : List Cell)
    → get_elem? cs ref ≡ some c
    → get_elem? (write ref q cs) ref ≡ some (record c { object = q })
get_elem?-write_self ref q c [] g = ground arith
get_elem?-write_self zero q c (d ∷ cs) g = ground arith
get_elem?-write_self (suc ref) q c (d ∷ cs) g = get_elem?-write_self ref q c cs g

pub get_elem?-write_ne :
    (ref k : ℕ) (q : Queue) (cs : List Cell)
    → ref ≢ k
    → get_elem? (write ref q cs) k ≡ get_elem? cs k
get_elem?-write_ne ref k q [] n = refl
get_elem?-write_ne zero zero q (d ∷ cs) n = absurd (n refl)
get_elem?-write_ne zero (suc k) q (d ∷ cs) n = refl
get_elem?-write_ne (suc ref) zero q (d ∷ cs) n = refl
get_elem?-write_ne (suc ref) (suc k) q (d ∷ cs) n =
    get_elem?-write_ne ref k q cs (λ e. n (omega arith))

-- The object that was made last.
pub get_at :
    (pre : List Cell) (c : Cell) (rest : List Cell)
    → get_elem? (pre ++ c ∷ rest) (length pre) ≡ some c
get_at [] c rest = refl
get_at (d ∷ pre) c rest = get_at pre c rest

pub write_at :
    (pre : List Cell) (c : Cell) (rest : List Cell) (q : Queue)
    → write (length pre) q (pre ++ c ∷ rest) ≡ pre ++ record c { object = q } ∷ rest
write_at [] c rest q = refl
write_at (d ∷ pre) c rest q = ap (◌∷◌ d) (write_at pre c rest q)

-- It is found where no older object of the peer is listed.
find_last :
    (id i : ℕ) (pre : List Cell) (c : Cell)
    → find id i pre ≡ none
    → c.listed ≡ true
    → c.object.id ≡ id
    → find id i (pre ++ c ∷ []) ≡ some (i + length pre)
unfolding find
find_last id i [] c h l e = ground (arith, add-zero i)
find_last id i (d ∷ pre) c h l e = elim (Bool-cases (d.listed && (d.object.id == id))) [
  | inl hit ↦ absurd (ground arith)
  | inr miss ↦ let ih = find_last id (suc i) pre c (ground arith) l e in ground (arith, ih)
]

pub find-append :
    (id : ℕ) (pre : List Cell) (c : Cell)
    → find id 0 pre ≡ none
    → c.listed ≡ true
    → c.object.id ≡ id
    → find id 0 (pre ++ c ∷ []) ≡ some (length pre)
find-append id pre c h l e = find_last id 0 pre c h l e ∙ ap some (zero-add (length pre))
