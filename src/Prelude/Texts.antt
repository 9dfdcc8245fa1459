-- ===== src/Prelude/Texts.antt =====
-- Text: a JavaScript string as the list of its UTF-16 code units, with the methods the source calls.
pub mod Splits
use Prim.Native.Char.{code}
use Prim.Native.String.{String}
use Prim.Native.Nat.{ℕ, zero, suc, ◌+◌, ◌/◌, ◌%◌}
use mathlib.Core.Path.{◌≡◌, refl, ap₂}
use mathlib.Core.Bool.{Bool, true, false, ◌&&◌}
use mathlib.Core.List.{List, [], ◌∷◌, ◌++◌, Memᴰ}
use native.Mathlib.Omega.{arith}
use qwen_harness.Prelude.Tests.{◌==◌, if◌then◌else◌, ==_iff, and-true}
use qwen_harness.Prelude.Lists.{any, any-Some, any_of_mem}

abbrev pub Text : Type 0
Text = List ℕ

codes : String → Text
codes String.[] = []
codes (String.◌∷◌ c s) = code c ∷ codes s

-- A literal of the source; all of them are ASCII but for one typographic apostrophe, in a reason.
unfoldable pub str : String → Text
unfolding codes
str s = codes s

-- `a === b`
unfoldable pub text_eq : Text → Text → Bool
text_eq [] [] = true
text_eq [] (b ∷ bs) = false
text_eq (a ∷ as') [] = false
text_eq (a ∷ as') (b ∷ bs) = a == b && text_eq as' bs

pub text_eq_refl : (a : Text) → text_eq a a ≡ true
unfolding text_eq
text_eq_refl [] = refl
text_eq_refl (a ∷ s) = ground (arith, text_eq_refl s)

pub text_eq→eq : (a b : Text) → text_eq a b ≡ true → a ≡ b
unfolding text_eq
text_eq→eq [] [] h = refl
text_eq→eq [] (b ∷ bs) h = cc
text_eq→eq (a ∷ s) [] h = cc
text_eq→eq (a ∷ s) (b ∷ bs) h =
    let (p, q) = and-true (a == b) (text_eq s bs) h in
    ap₂ ◌∷◌ ((==_iff a b).0 p) (text_eq→eq s bs q)

pub text_eq_comm : (a b : Text) → text_eq a b ≡ text_eq b a
unfolding text_eq
text_eq_comm [] [] = refl
text_eq_comm [] (b ∷ t) = refl
text_eq_comm (a ∷ s) [] = refl
text_eq_comm (a ∷ s) (b ∷ t) = ground (arith, text_eq_comm s t)

-- `xs.includes(x)`, and the `has` of a set built from `xs`
abbrev pub includes : List Text → Text → Bool
includes xs x = any (text_eq x) xs

-- `s.startsWith(p)`
unfoldable pub starts_with : Text → Text → Bool
starts_with s [] = true
starts_with [] (p ∷ ps) = false
starts_with (c ∷ s) (p ∷ ps) = c == p && starts_with s ps

-- `s.endsWith(c)`, for one character
unfoldable pub ends_with : Text → ℕ → Bool
ends_with [] c = false
ends_with (d ∷ []) c = d == c
ends_with (d ∷ e ∷ s) c = ends_with (e ∷ s) c

-- `s.includes(c)`, for one character
unfoldable pub has_char : Text → ℕ → Bool
has_char s c = any (λ d. d == c) s

-- `s.split(c)`, for one character: the field being read, and the rest
split_from : ℕ → Text → Text → List Text
split_from c cur [] = cur ∷ []
split_from c cur (d ∷ s) =
    let closed = cur ∷ split_from c [] s in
    let longer = split_from c (cur ++ d ∷ []) s in if d == c then closed else longer

unfoldable pub split : Text → ℕ → List Text
unfolding split_from
split s c = split_from c [] s

-- `xs.join(sep)`
unfoldable pub join : Text → List Text → Text
join sep [] = []
join sep (x ∷ []) = x
join sep (x ∷ y ∷ xs) = x ++ sep ++ join sep (y ∷ xs)

-- `s.slice(0, -1)`
unfoldable pub but_last : Text → Text
but_last [] = []
but_last (c ∷ []) = []
but_last (c ∷ d ∷ s) = c ∷ but_last (d ∷ s)

-- A number in a template string; `n` digits are more than a number `n` has.
show_nat_from : ℕ → ℕ → Text → Text
show_nat_from zero n acc = acc
show_nat_from (suc fuel) n acc =
    let acc' = (48 + n % 10) ∷ acc in
    let rest = show_nat_from fuel (n / 10) acc' in if n / 10 == 0 then acc' else rest

unfoldable pub show_nat : ℕ → Text
unfolding show_nat_from
show_nat n = show_nat_from (suc n) n []

show_tests : show_nat 1024 ≡ str "1024"
unfolding show_nat str
show_tests = refl

split_tests : split (str "/a/b") 47 ≡ [] ∷ str "a" ∷ str "b" ∷ []
unfolding split str
split_tests = refl

pub starts_with_refl : (s : Text) → starts_with s s ≡ true
unfolding starts_with
starts_with_refl [] = refl
starts_with_refl (c ∷ s) = ground (arith, starts_with_refl s)

pub starts_with-append : (s t : Text) → starts_with (s ++ t) s ≡ true
unfolding starts_with
starts_with-append [] t = refl
starts_with-append (c ∷ s) t = ground (arith, starts_with-append s t)

pub starts_with_trans :
    (a b c : Text) → starts_with a b ≡ true → starts_with b c ≡ true → starts_with a c ≡ true
unfolding starts_with
starts_with_trans a b [] h k = refl
starts_with_trans a [] (x ∷ c) h k = cc
starts_with_trans [] (y ∷ b) (x ∷ c) h k = cc
starts_with_trans (z ∷ a) (y ∷ b) (x ∷ c) h k = ground (arith, starts_with_trans a b c)

pub starts_with_of_append : (a b c : Text) → starts_with a (b ++ c) ≡ true → starts_with a b ≡ true
unfolding starts_with
starts_with_of_append a [] c h = refl
starts_with_of_append [] (y ∷ b) c h = cc
starts_with_of_append (z ∷ a) (y ∷ b) c h = ground (arith, starts_with_of_append a b c)

pub includes-mem : (xs : List Text) (x : Text) → includes xs x ≡ true → Memᴰ x xs
includes-mem xs x h = let (a, m, e) = any-Some (text_eq x) xs h in rw (text_eq→eq x a e) m

pub mem-includes : (xs : List Text) (x : Text) → Memᴰ x xs → includes xs x ≡ true
mem-includes xs x m = any_of_mem (text_eq x) x xs m (text_eq_refl x)
