-- ===== src/Prelude/Table.antt =====
-- `std::unordered_map` as an association list: a loop over the map visits it in the list's order,
-- and a theorem about every list is one about every order of iteration.
use mathlib.Core.Path.{◌≡◌, refl}
use mathlib.Core.Option.{Option, none, some}
use mathlib.Core.List.{List, [], ◌∷◌}
use native.Mathlib.Omega.{arith}
use aidt.Prelude.Tests.{if◌then◌else◌}
use aidt.Prelude.Keys.{Key, ◌==◌}

module _ {ℓ κ} {K : Type ℓ} {V : Type κ} ⦃e : Key K⦄ where
  abbrev pub find : K → List (K × V) → Option V
  find k [] = none
  find k ((j, v) ∷ m) = if j == k then some v else find k m

  -- `m[k] = v`: the value of a key that is there is replaced in its place.
  abbrev pub insert : K → V → List (K × V) → List (K × V)
  insert k new [] = (k, new) ∷ []
  insert k new ((j, old) ∷ rest) =
      let later = insert k new rest in if j == k then (k, new) ∷ rest else (j, old) ∷ later

  abbrev pub erase : K → List (K × V) → List (K × V)
  erase k [] = []
  erase k ((j, v) ∷ m) = if j == k then erase k m else (j, v) ∷ erase k m

  pub find-insert :
      (j k : K) (v : V) (m : List (K × V))
      → find j (insert k v m) ≡ (if k == j then some v else find j m)
  find-insert j k v [] = refl
  find-insert j k v ((i, w) ∷ m) =
      ground (arith, e.same_iff i k, e.same_iff i j, e.same_iff k j, find-insert j k v m)

  pub find-erase :
      (j k : K) (m : List (K × V)) → find j (erase k m) ≡ (if k == j then none else find j m)
  find-erase j k [] = ground arith
  find-erase j k ((i, w) ∷ m) =
      ground (arith, e.same_iff i k, e.same_iff i j, e.same_iff k j, find-erase j k m)

  -- A value that is assigned anew leaves nothing of the one before.
  pub insert-insert :
      (k : K) (v w : V) (m : List (K × V)) → insert k v (insert k w m) ≡ insert k v m
  insert-insert k v w [] = ground (arith, e.same_iff k k)
  insert-insert k v w ((i, u) ∷ m) =
      ground (arith, e.same_iff i k, e.same_iff k k, insert-insert k v w m)
