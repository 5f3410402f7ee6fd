-- ===== src/Delivery/Merge.antt =====
-- Two lists that together make up a third: each of its elements is the next of the one or of the other.
use aidt.Prelude.{List, [], ◌∷◌, ◌++◌, map}

pub data Merge {ℓ} {A : Type ℓ} : List A → List A → List A → Type ℓ where
  nothing : Merge [] [] []
  of_first : {xs ys zs : List A} (x : A) → Merge xs ys zs → Merge (x ∷ xs) ys (x ∷ zs)
  of_second : {xs ys zs : List A} (y : A) → Merge xs ys zs → Merge xs (y ∷ ys) (y ∷ zs)

module _ {ℓ} {A : Type ℓ} where
  pub Merge-nil : (ys : List A) → Merge [] ys ys
  Merge-nil [] = nothing
  Merge-nil (y ∷ ys) = of_second y (Merge-nil ys)

  -- More elements of the first list, and of the second.
  pub Merge-first :
      {xs ys zs : List A} (more : List A) → Merge xs ys zs → Merge (xs ++ more) ys (zs ++ more)
  Merge-first [] nothing = nothing
  Merge-first (x ∷ more) nothing = of_first x (Merge-first more nothing)
  Merge-first more (of_first x h) = of_first x (Merge-first more h)
  Merge-first more (of_second y h) = of_second y (Merge-first more h)

  pub Merge-second :
      {xs ys zs : List A} (more : List A) → Merge xs ys zs → Merge xs (ys ++ more) (zs ++ more)
  Merge-second more nothing = Merge-nil more
  Merge-second more (of_first x h) = of_first x (Merge-second more h)
  Merge-second more (of_second y h) = of_second y (Merge-second more h)

  pub Merge-front :
      {xs ys zs : List A} (front : List A) → Merge xs ys zs → Merge xs (front ++ ys) (front ++ zs)
  Merge-front [] h = h
  Merge-front (y ∷ front) h = of_second y (Merge-front front h)

pub Merge-map {ℓ κ} :
    {A : Type ℓ} {B : Type κ} (f : A → B) {xs ys zs : List A}
    → Merge xs ys zs
    → Merge (map f xs) (map f ys) (map f zs)
Merge-map f nothing = nothing
Merge-map f (of_first x h) = of_first (f x) (Merge-map f h)
Merge-map f (of_second y h) = of_second (f y) (Merge-map f h)
