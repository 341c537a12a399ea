-- ===== src/Prelude/Dict.antt =====
-- JavaScript's objects and `Map`s with keys that are numbers: an association list in the order of
-- insertion.
use Prim.Native.Nat.{ℕ}
use mathlib.Core.Path.{◌≡◌, refl}
use mathlib.Core.Bool.{true, false, ◌||◌}
use mathlib.Core.Option.{Option, none, some}
use mathlib.Core.List.{List, [], ◌∷◌}
use native.Mathlib.Omega.{arith}
use js_libp2p_swarm.Prelude.Tests.{◌==◌, if◌then◌else◌}
use js_libp2p_swarm.Prelude.Sets.{has, distinct}

module _ {ℓ} {V : Type ℓ} where
  -- `m[k]`, `m.get(k)`
  abbrev pub lookup : ℕ → List (ℕ × V) → Option V
  lookup k [] = none
  lookup k ((j, v) ∷ m) = if j == k then some v else lookup k m

  -- `m[k] = v`, `m.set(k, v)`
  abbrev pub put : ℕ → V → List (ℕ × V) → List (ℕ × V)
  put k v [] = (k, v) ∷ []
  put k v ((j, w) ∷ m) = if j == k then (j, v) ∷ m else (j, w) ∷ put k v m

  -- `delete m[k]`, `m.delete(k)`
  abbrev pub erase : ℕ → List (ℕ × V) → List (ℕ × V)
  erase k [] = []
  erase k ((j, w) ∷ m) = if j == k then m else (j, w) ∷ erase k m

  abbrev pub keys : List (ℕ × V) → List ℕ
  keys [] = []
  keys ((j, v) ∷ m) = j ∷ keys m

  pub lookup-put :
      (k j : ℕ) (v : V) (m : List (ℕ × V))
      → lookup j (put k v m) ≡ (if k == j then some v else lookup j m)
  lookup-put k j v [] = refl
  lookup-put k j v ((i, w) ∷ m) = ground (arith, lookup-put k j v m)

  pub has-keys-put :
      (k j : ℕ) (v : V) (m : List (ℕ × V)) → has j (keys (put k v m)) ≡ ((k == j) || has j (keys m))
  has-keys-put k j v [] = refl
  has-keys-put k j v ((i, w) ∷ m) = ground (arith, has-keys-put k j v m)

  pub distinct-keys-put :
      (k : ℕ) (v : V) (m : List (ℕ × V))
      → distinct (keys m) ≡ true
      → distinct (keys (put k v m)) ≡ true
  distinct-keys-put k v [] d = refl
  distinct-keys-put k v ((i, w) ∷ m) d =
      ground (arith, distinct-keys-put k v m, has-keys-put k i v m)

  pub lookup_of_lacks : (k : ℕ) (m : List (ℕ × V)) → has k (keys m) ≡ false → lookup k m ≡ none
  lookup_of_lacks k [] h = refl
  lookup_of_lacks k ((i, w) ∷ m) h = ground (arith, lookup_of_lacks k m)

  pub lookup-erase :
      (k j : ℕ) (m : List (ℕ × V))
      → distinct (keys m) ≡ true
      → lookup j (erase k m) ≡ (if k == j then none else lookup j m)
  lookup-erase k j [] d = ground arith
  lookup-erase k j ((i, w) ∷ m) d = ground (arith, lookup-erase k j m, lookup_of_lacks k m)

  pub has-keys-erase_mono :
      (k j : ℕ) (m : List (ℕ × V)) → has j (keys (erase k m)) ≡ true → has j (keys m) ≡ true
  has-keys-erase_mono k j [] h = h
  has-keys-erase_mono k j ((i, w) ∷ m) h = ground (arith, has-keys-erase_mono k j m)

  pub distinct-keys-erase :
      (k : ℕ) (m : List (ℕ × V)) → distinct (keys m) ≡ true → distinct (keys (erase k m)) ≡ true
  distinct-keys-erase k [] d = refl
  distinct-keys-erase k ((i, w) ∷ m) d =
      ground (arith, distinct-keys-erase k m, has-keys-erase_mono k i m)
