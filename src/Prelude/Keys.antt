-- ===== src/Prelude/Keys.antt =====
-- Boolean equality as an interface, for numbers and for byte strings.
use Prim.Native.Nat.{ℕ}
use mathlib.Core.Path.{◌≡◌, refl}
use mathlib.Core.Logic.{◌↔◌}
use mathlib.Core.Bool.{Bool, true, false, ◌&&◌}
use mathlib.Core.List.{List, [], ◌∷◌}
use native.Mathlib.Omega.{arith}
use aidt.Prelude.Tests.{nat_beq, nat_beq_iff}

-- A type of keys has a test that decides their equality.
pub record Key {ℓ} (K : Type ℓ) : Type ℓ where
  pub same : K → K → Bool
  pub same_iff : (j k : K) → (same j k ≡ true) ↔ (j ≡ k)

module _ {ℓ} {K : Type ℓ} ⦃key : Key K⦄ where
  infix 50 ◌==◌
  abbrev pub ◌==◌ : K → K → Bool
  j == k = key.same j k

abbrev pub list_beq : List ℕ → List ℕ → Bool
list_beq [] [] = true
list_beq (x ∷ xs) (y ∷ ys) = nat_beq x y && list_beq xs ys
list_beq _ _ = false

pub list_beq_iff : (xs ys : List ℕ) → (list_beq xs ys ≡ true) ↔ (xs ≡ ys)
list_beq_iff [] [] = (λ h. refl, λ h. refl)
list_beq_iff [] (y ∷ ys) = (λ h. cc, λ h. cc)
list_beq_iff (x ∷ xs) [] = (λ h. cc, λ h. cc)
list_beq_iff (x ∷ xs) (y ∷ ys) =
    let (to, from) = list_beq_iff xs ys in (λ h. ground (arith, to), λ h. ground (arith, from))

instance abbrev pub nat_eq : Key ℕ
nat_eq = record { same = nat_beq; same_iff = nat_beq_iff }

instance abbrev pub bytes_eq : Key (List ℕ)
bytes_eq = record { same = list_beq; same_iff = list_beq_iff }
