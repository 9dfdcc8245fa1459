-- ===== src/Prelude/Lists.antt =====
-- Lists over the native numbers under the library's names, and the array methods of the source.
use Prim.Native.Nat.{ℕ, zero, suc, ◌+◌}
use mathlib.Core.Path.{◌≡◌, refl, ap, ◌∙◌}
use mathlib.Core.Logic.{◌⊎◌, inl, inr}
use mathlib.Core.Bool.{Bool, true, false, ◌&&◌, ◌||◌}
use mathlib.Core.List.{List, [], ◌∷◌, ◌++◌, Memᴰ}
use mathlib.Core.Option.{Option, none, some}
use native.Mathlib.Omega.{arith}
use qwen_harness.Prelude.Tests.{if◌then◌else◌, and-true, or-true, Bool-cases}

module _ {ℓ} {A : Type ℓ} where
  abbrev pub length : List A → ℕ
  length [] = 0
  length (x ∷ xs) = suc (length xs)

  abbrev pub is_empty : List A → Bool
  is_empty [] = true
  is_empty (x ∷ xs) = false

  -- `xs[0]`
  abbrev pub head? : List A → Option A
  head? [] = none
  head? (x ∷ xs) = some x

  abbrev pub get_elem? : List A → ℕ → Option A
  get_elem? [] i = none
  get_elem? (x ∷ xs) zero = some x
  get_elem? (x ∷ xs) (suc i) = get_elem? xs i

  abbrev pub take : ℕ → List A → List A
  take zero xs = []
  take (suc n) [] = []
  take (suc n) (x ∷ xs) = x ∷ take n xs

  abbrev pub drop : ℕ → List A → List A
  drop zero xs = xs
  drop (suc n) [] = []
  drop (suc n) (x ∷ xs) = drop n xs

  -- `xs.some(p)`
  abbrev pub any : (A → Bool) → List A → Bool
  any p [] = false
  any p (x ∷ xs) = p x || any p xs

  -- `xs.every(p)`
  abbrev pub all : (A → Bool) → List A → Bool
  all p [] = true
  all p (x ∷ xs) = p x && all p xs

  -- `xs.filter(p)`
  abbrev pub keep : (A → Bool) → List A → List A
  keep p [] = []
  keep p (x ∷ xs) = if p x then x ∷ keep p xs else keep p xs

  pub length-append : (xs ys : List A) → length (xs ++ ys) ≡ length xs + length ys
  length-append [] ys = omega arith
  length-append (x ∷ xs) ys = omega (arith, length-append xs ys)

  abbrev pub All {κ} : (A → Type κ) → List A → Type κ
  All P [] = Unit
  All P (x ∷ xs) = P x × All P xs

  -- An element of the list that passes a test.
  abbrev pub Some {κ} : (A → Type κ) → List A → Type (ℓ ⊔ κ)
  Some P xs = (a : A) × Memᴰ a xs × P a

module _ {ℓ} {A : Type ℓ} where
  pub any-Some : (p : A → Bool) (xs : List A) → any p xs ≡ true → Some (λ a. p a ≡ true) xs
  any-Some p [] h = cc
  any-Some p (x ∷ xs) h = elim (or-true (p x) (any p xs) h) [
    | inl here ↦ (x, Memᴰ.head refl, here)
    | inr later ↦ let (a, m, q) = any-Some p xs later in (a, Memᴰ.tail m, q)
  ]

  pub any_of_mem : (p : A → Bool) (a : A) (xs : List A) → Memᴰ a xs → p a ≡ true → any p xs ≡ true
  any_of_mem p a [] m h = elim m [ ]
  any_of_mem p a (x ∷ xs) (Memᴰ.head e) h = ground arith
  any_of_mem p a (x ∷ xs) (Memᴰ.tail m) h = ground (arith, any_of_mem p a xs m h)

  pub all_of_mem : (p : A → Bool) (a : A) (xs : List A) → all p xs ≡ true → Memᴰ a xs → p a ≡ true
  all_of_mem p a [] h m = elim m [ ]
  all_of_mem p a (x ∷ xs) h (Memᴰ.head e) = ground arith
  all_of_mem p a (x ∷ xs) h (Memᴰ.tail m) = all_of_mem p a xs (and-true (p x) (all p xs) h).1 m

  pub mem-append_left : (a : A) (xs ys : List A) → Memᴰ a xs → Memᴰ a (xs ++ ys)
  mem-append_left a [] ys m = elim m [ ]
  mem-append_left a (x ∷ xs) ys (Memᴰ.head e) = Memᴰ.head e
  mem-append_left a (x ∷ xs) ys (Memᴰ.tail m) = Memᴰ.tail (mem-append_left a xs ys m)

  pub mem-append_right : (a : A) (xs ys : List A) → Memᴰ a ys → Memᴰ a (xs ++ ys)
  mem-append_right a [] ys m = m
  mem-append_right a (x ∷ xs) ys m = Memᴰ.tail (mem-append_right a xs ys m)

  pub mem-append-cases : (a : A) (xs ys : List A) → Memᴰ a (xs ++ ys) → Memᴰ a xs ⊎ Memᴰ a ys
  mem-append-cases a [] ys m = inr m
  mem-append-cases a (x ∷ xs) ys (Memᴰ.head e) = inl (Memᴰ.head e)
  mem-append-cases a (x ∷ xs) ys (Memᴰ.tail m) = elim (mem-append-cases a xs ys m) [
    | inl left ↦ inl (Memᴰ.tail left)
    | inr right ↦ inr right
  ]

  pub mem-keep :
      (p : A → Bool) (a : A) (xs : List A) → Memᴰ a (keep p xs) → Memᴰ a xs × (p a ≡ true)
  mem-keep p a [] m = elim m [ ]
  mem-keep p a (x ∷ xs) m = elim (Bool-cases (p x)) [
    | inl t ↦ kept t (mem-keep p a xs) (rw t at m)
    | inr f ↦ let (i, q) = mem-keep p a xs (rw f at m) in (Memᴰ.tail i, q)
  ]
    where
      kept :
          p x ≡ true
          → (Memᴰ a (keep p xs) → Memᴰ a xs × (p a ≡ true))
          → Memᴰ a (x ∷ keep p xs)
          → Memᴰ a (x ∷ xs) × (p a ≡ true)
      kept t ih (Memᴰ.head e) = (Memᴰ.head e, ap p e ∙ t)
      kept t ih (Memᴰ.tail m') = let (i, q) = ih m' in (Memᴰ.tail i, q)

  pub all_intro :
      (p : A → Bool) (xs : List A) → ((a : A) → Memᴰ a xs → p a ≡ true) → all p xs ≡ true
  all_intro p [] h = refl
  all_intro p (x ∷ xs) h = rw (h x (Memᴰ.head refl)) (all_intro p xs (λ a m. h a (Memᴰ.tail m)))

  pub mem-keep_intro :
      (p : A → Bool) (a : A) (xs : List A) → Memᴰ a xs → p a ≡ true → Memᴰ a (keep p xs)
  mem-keep_intro p a [] m h = elim m [ ]
  mem-keep_intro p a (x ∷ xs) (Memᴰ.head e) h =
      let t : p x ≡ true = rw (← e) h in rw t (Memᴰ.head e)
  mem-keep_intro p a (x ∷ xs) (Memᴰ.tail m) h = elim (Bool-cases (p x)) [
    | inl t ↦ rw t (Memᴰ.tail (mem-keep_intro p a xs m h))
    | inr f ↦ rw f (mem-keep_intro p a xs m h)
  ]
