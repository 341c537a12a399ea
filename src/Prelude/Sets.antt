-- ===== src/Prelude/Sets.antt =====
-- JavaScript's `Set` of peer ids: a list without repetitions, in the order of insertion.
use Prim.Native.Nat.{ℕ, ◌+◌, ◌≤◌}
use mathlib.Core.Path.{◌≡◌, refl}
use mathlib.Core.Bool.{Bool, true, false, not, ◌&&◌, ◌||◌}
use mathlib.Core.List.{List, [], ◌∷◌}
use native.Mathlib.Omega.{arith}
use js_libp2p_swarm.Prelude.Tests.{◌==◌, if◌then◌else◌}
use js_libp2p_swarm.Prelude.Lists.{length}

abbrev pub has : ℕ → List ℕ → Bool
has a [] = false
has a (x ∷ xs) = (x == a) || has a xs

-- `set.add(a)`: at the end, unless it is there.
abbrev pub insert : ℕ → List ℕ → List ℕ
insert a [] = a ∷ []
insert a (x ∷ xs) = if x == a then x ∷ xs else x ∷ insert a xs

-- `set.delete(a)`
abbrev pub delete : ℕ → List ℕ → List ℕ
delete a [] = []
delete a (x ∷ xs) = if x == a then xs else x ∷ delete a xs

-- No element twice.
abbrev pub distinct : List ℕ → Bool
distinct [] = true
distinct (x ∷ xs) = not (has x xs) && distinct xs

pub has-insert : (a b : ℕ) (xs : List ℕ) → has a (insert b xs) ≡ ((b == a) || has a xs)
has-insert a b [] = refl
has-insert a b (x ∷ xs) = ground (arith, has-insert a b xs)

pub has-delete :
    (a b : ℕ) (xs : List ℕ) → distinct xs ≡ true → has a (delete b xs) ≡ (not (b == a) && has a xs)
has-delete a b [] h = ground arith
has-delete a b (x ∷ xs) h = ground (arith, has-delete a b xs)

pub has-delete_mono : (a b : ℕ) (xs : List ℕ) → has a (delete b xs) ≡ true → has a xs ≡ true
has-delete_mono a b [] h = h
has-delete_mono a b (x ∷ xs) h = ground (arith, has-delete_mono a b xs)

pub distinct-insert : (a : ℕ) (xs : List ℕ) → distinct xs ≡ true → distinct (insert a xs) ≡ true
distinct-insert a [] h = refl
distinct-insert a (x ∷ xs) h = ground (arith, distinct-insert a xs, has-insert x a xs)

pub distinct-delete : (a : ℕ) (xs : List ℕ) → distinct xs ≡ true → distinct (delete a xs) ≡ true
distinct-delete a [] h = h
distinct-delete a (x ∷ xs) h = ground (arith, distinct-delete a xs, has-delete_mono x a xs)

pub length-insert-le : (a : ℕ) (xs : List ℕ) → length (insert a xs) ≤ length xs + 1
length-insert-le a [] = omega arith
length-insert-le a (x ∷ xs) = ground (arith, length-insert-le a xs)

pub insert_of_has : (a : ℕ) (xs : List ℕ) → has a xs ≡ true → insert a xs ≡ xs
insert_of_has a [] h = ground arith
insert_of_has a (x ∷ xs) h = ground (arith, insert_of_has a xs)

pub length-delete-le : (a : ℕ) (xs : List ℕ) → length (delete a xs) ≤ length xs
length-delete-le a [] = omega arith
length-delete-le a (x ∷ xs) = ground (arith, length-delete-le a xs)

-- A set that has no element is empty.
pub nil_of_has : (xs : List ℕ) → ((a : ℕ) → has a xs ≡ false) → xs ≡ []
nil_of_has [] h = refl
nil_of_has (x ∷ xs) h = ground (arith, h x)
