-- ===== src/Base/Text.antt =====
-- Text as the list of its code points, and decimal numbers as `format!` writes them.
use Prim.Native.Nat.{ℕ, zero, suc, ◌+◌, ◌-◌, ◌*◌, ◌/◌, ◌%◌, ◌<◌}
use Prim.Native.Char.{code}
use Prim.Native.String.{String}
use mathlib.Core.Path.{◌≡◌, refl, sym, ap, ◌∙◌}
use mathlib.Core.Bool.{Bool, true, false, ◌&&◌}
use mathlib.Core.Logic.{◌≢◌, ◌↔◌, inl, inr}
use mathlib.Core.List.{List, [], ◌∷◌, ◌++◌}
use native.Mathlib.Omega.{arith}
use arfw.Base.Tests.{ltb, ◌==◌, if◌then◌else◌, Bool-cases, ltb→lt}

abbrev pub codes : String → List ℕ
codes String.[] = []
codes (String.◌∷◌ c s) = code c ∷ codes s

unfoldable pub text_eq : List ℕ → List ℕ → Bool
text_eq [] [] = true
text_eq (a ∷ s) (b ∷ t) = a == b && text_eq s t
text_eq _ _ = false

pub text_eq→eq : (s t : List ℕ) → text_eq s t ≡ true → s ≡ t
unfolding text_eq
text_eq→eq [] [] h = refl
text_eq→eq [] (b ∷ t) h = cc
text_eq→eq (a ∷ s) [] h = cc
text_eq→eq (a ∷ s) (b ∷ t) h = ground (arith, text_eq→eq s t)

pub text_eq_self : (s : List ℕ) → text_eq s s ≡ true
unfolding text_eq
text_eq_self [] = refl
text_eq_self (a ∷ s) = ground (arith, text_eq_self s)

pub text_eq_iff : (s t : List ℕ) → (text_eq s t ≡ true) ↔ (s ≡ t)
text_eq_iff s t = (text_eq→eq s t, λ e. rw e (text_eq_self t))

-- The digits, with fuel: a number has fewer digits than its value and one.
decimal_fuel : ℕ → ℕ → List ℕ
decimal_fuel zero n = []
decimal_fuel (suc fuel) n =
    let front = decimal_fuel fuel (n / 10) in
    if ltb n 10 then (b'0' + n) ∷ [] else front ++ ((b'0' + n % 10) ∷ [])

unfoldable pub decimal : ℕ → List ℕ
unfolding decimal_fuel
decimal n = decimal_fuel (suc n) n

value : ℕ → List ℕ → ℕ
value acc [] = acc
value acc (d ∷ ds) = value (acc * 10 + (d - b'0')) ds

value-append : (acc : ℕ) (xs ys : List ℕ) → value acc (xs ++ ys) ≡ value (value acc xs) ys
unfolding value
value-append acc [] ys = refl
value-append acc (x ∷ xs) ys = value-append (acc * 10 + (x - b'0')) xs ys

value-decimal_fuel : (fuel n : ℕ) → n < fuel → value 0 (decimal_fuel fuel n) ≡ n
unfolding value decimal_fuel
value-decimal_fuel zero n h = elim h [ ]
value-decimal_fuel (suc fuel) n h = elim (Bool-cases (ltb n 10)) [
  | inl one ↦ rw one (omega arith)
  | inr more ↦
      rw
        (
          more,
          value-append 0 (decimal_fuel fuel (n / 10)) ((b'0' + n % 10) ∷ []),
          value-decimal_fuel fuel (n / 10) (ground arith),
        )
        (omega arith)
]

-- Different numbers have different texts.
pub decimal-injective : (m n : ℕ) → decimal m ≡ decimal n → m ≡ n
unfolding decimal
decimal-injective m n h =
    sym (value-decimal_fuel (suc m) m (omega arith))
    ∙ ap (value 0) h
    ∙ value-decimal_fuel (suc n) n (omega arith)

-- No character of the text is the given one.
abbrev pub Lacks : ℕ → List ℕ → Type 0
Lacks c [] = Unit {0}
Lacks c (x ∷ xs) = (x ≢ c) × Lacks c xs

Lacks-append : (c : ℕ) (xs ys : List ℕ) → Lacks c xs → Lacks c ys → Lacks c (xs ++ ys)
Lacks-append c [] ys p q = q
Lacks-append c (x ∷ xs) ys p q = (p.0, Lacks-append c xs ys p.1 q)

decimal_fuel-Lacks : (fuel n : ℕ) → Lacks b':' (decimal_fuel fuel n)
unfolding decimal_fuel
decimal_fuel-Lacks zero n = tt
decimal_fuel-Lacks (suc fuel) n = elim (Bool-cases (ltb n 10)) [
  | inl one ↦ rw one (let lt = ltb→lt n 10 one in (omega arith, tt))
  | inr more ↦ rw more (
      Lacks-append b':' (decimal_fuel fuel (n / 10)) ((b'0' + n % 10) ∷ [])
        (decimal_fuel-Lacks fuel (n / 10)) (omega arith, tt))
]

pub decimal-Lacks : (n : ℕ) → Lacks b':' (decimal n)
unfolding decimal
decimal-Lacks n = decimal_fuel-Lacks (suc n) n

-- A text is cut in one way only at the first occurrence of a character.
pub cut_unique :
    (c : ℕ) (xs xs' ys ys' : List ℕ)
    → Lacks c xs
    → Lacks c xs'
    → xs ++ (c ∷ ys) ≡ xs' ++ (c ∷ ys')
    → (xs ≡ xs') × (ys ≡ ys')
cut_unique c [] [] ys ys' p q e = (refl, ground arith)
cut_unique c [] (x ∷ xs') ys ys' p q e = absurd (q.0 (ground arith))
cut_unique c (x ∷ xs) [] ys ys' p q e = absurd (p.0 (ground arith))
cut_unique c (x ∷ xs) (x' ∷ xs') ys ys' p q e =
    let (front, back) = cut_unique c xs xs' ys ys' p.1 q.1 (ground arith) in
    let head : x ≡ x' = ground arith in (λ i. head i ∷ front i, back)
