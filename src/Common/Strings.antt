-- ===== src/Common/Strings.antt =====
-- Strings as their bytes, with Go's `==`, `strings.HasPrefix` and `%d`.
use Prim.Native.Nat.{ℕ, zero, suc, ◌+◌, ◌-◌, ◌*◌, ◌/◌, ◌%◌, ◌<◌}
use Prim.Native.Char.{code}
use Prim.Native.String.{String}
use mathlib.Core.Path.{◌≡◌, refl, sym, ap, ◌∙◌}
use mathlib.Core.Logic.{◌↔◌, inl, inr}
use mathlib.Core.Bool.{Bool, true, false, ◌&&◌}
use mathlib.Core.List.{List, [], ◌∷◌, ◌++◌, reverse, reverse_aux, reverse-reverse}
use native.Mathlib.Omega.{arith}
use reference_implementation.Common.Tests.{◌==◌, if◌then◌else◌, Bool-cases}

abbrev pub Text : Type 0
Text = List ℕ

-- The bytes of a literal, which are its code points where it is ASCII.
abbrev pub codes : String → Text
codes String.[] = []
codes (String.◌∷◌ c s) = code c ∷ codes s

unfoldable pub text_eq : Text → Text → Bool
text_eq [] [] = true
text_eq [] (y ∷ ys) = false
text_eq (x ∷ xs) [] = false
text_eq (x ∷ xs) (y ∷ ys) = x == y && text_eq xs ys

pub text_eq→eq : (a b : Text) → text_eq a b ≡ true → a ≡ b
unfolding text_eq
text_eq→eq [] [] h = refl
text_eq→eq [] (y ∷ ys) h = cc
text_eq→eq (x ∷ xs) [] h = cc
text_eq→eq (x ∷ xs) (y ∷ ys) h = ground (arith, text_eq→eq xs ys)

pub text_eq_refl : (a : Text) → text_eq a a ≡ true
unfolding text_eq
text_eq_refl [] = refl
text_eq_refl (x ∷ xs) = ground (arith, text_eq_refl xs)

pub text_eq_iff : (a b : Text) → (text_eq a b ≡ true) ↔ (a ≡ b)
text_eq_iff a b = (text_eq→eq a b, λ e. rw e (text_eq_refl b))

-- `strings.HasPrefix(s, p)`, with the prefix first.
unfoldable pub has_prefix : Text → Text → Bool
has_prefix [] s = true
has_prefix (p ∷ ps) [] = false
has_prefix (p ∷ ps) (c ∷ cs) = p == c && has_prefix ps cs

pub has_prefix-append : (p s : Text) → has_prefix p (p ++ s) ≡ true
unfolding has_prefix
has_prefix-append [] s = refl
has_prefix-append (x ∷ p) s = ground (arith, has_prefix-append p s)

-- The decimal digits of a number, the lowest first, on fuel.
decimal_rev : ℕ → ℕ → Text
decimal_rev zero n = []
decimal_rev (suc f) n =
    let rest = decimal_rev f (n / 10) in (48 + n % 10) ∷ (if n / 10 == 0 then [] else rest)

-- Zeros up to a width, on digits with the lowest first.
pad_rev : ℕ → Text → Text
pad_rev zero ds = ds
pad_rev (suc w) [] = 48 ∷ pad_rev w []
pad_rev (suc w) (d ∷ ds) = d ∷ pad_rev w ds

-- `fmt.Sprintf("%0wd", n)`; a number has at most as many digits as the fuel `n + 1`.
unfoldable pub print_padded : ℕ → ℕ → Text
unfolding decimal_rev pad_rev
print_padded w n = reverse (pad_rev w (decimal_rev (suc n) n))

value_rev : Text → ℕ
value_rev [] = 0
value_rev (d ∷ ds) = (d - 48) + 10 * value_rev ds

value_rev-decimal_rev : (f n : ℕ) → n < f → value_rev (decimal_rev f n) ≡ n
unfolding decimal_rev value_rev
value_rev-decimal_rev zero n h = elim h [ ]
value_rev-decimal_rev (suc f) n h = ground (arith, value_rev-decimal_rev f (n / 10))

value_rev-pad_rev : (w : ℕ) (ds : Text) → value_rev (pad_rev w ds) ≡ value_rev ds
unfolding pad_rev value_rev
value_rev-pad_rev zero ds = refl
value_rev-pad_rev (suc w) [] = omega (arith, value_rev-pad_rev w [])
value_rev-pad_rev (suc w) (d ∷ ds) = omega (arith, value_rev-pad_rev w ds)

-- Different numbers print differently.
pub print_padded_injective : (w m n : ℕ) → print_padded w m ≡ print_padded w n → m ≡ n
unfolding print_padded
print_padded_injective w m n e =
    sym (value_of m) ∙ ap value_rev (unreverse (digits m) (digits n) e) ∙ value_of n
  where
    digits : ℕ → Text
    digits k = pad_rev w (decimal_rev (suc k) k)

    value_of : (k : ℕ) → value_rev (digits k) ≡ k
    value_of k =
        value_rev-pad_rev w (decimal_rev (suc k) k) ∙ value_rev-decimal_rev (suc k) k (omega arith)

    unreverse : (a b : Text) → reverse a ≡ reverse b → a ≡ b
    unreverse a b h = sym (reverse-reverse a) ∙ ap reverse h ∙ reverse-reverse b

-- No byte is zero.
abbrev pub ZeroFree : Text → Type 0
ZeroFree [] = Unit
ZeroFree (c ∷ cs) = (0 < c) × ZeroFree cs

ZeroFree-reverse_aux : (a b : Text) → ZeroFree a → ZeroFree b → ZeroFree (reverse_aux a b)
ZeroFree-reverse_aux [] b h k = k
ZeroFree-reverse_aux (c ∷ a) b h k = ZeroFree-reverse_aux a (c ∷ b) h.1 (h.0, k)

ZeroFree-decimal_rev : (f n : ℕ) → ZeroFree (decimal_rev f n)
unfolding decimal_rev
ZeroFree-decimal_rev zero n = tt
ZeroFree-decimal_rev (suc f) n = elim (Bool-cases (n / 10 == 0)) [
  | inl last ↦ rw last (omega arith, tt)
  | inr more ↦ rw more (omega arith, ZeroFree-decimal_rev f (n / 10))
]

ZeroFree-pad_rev : (w : ℕ) (ds : Text) → ZeroFree ds → ZeroFree (pad_rev w ds)
unfolding pad_rev
ZeroFree-pad_rev zero ds h = h
ZeroFree-pad_rev (suc w) [] h = (omega arith, ZeroFree-pad_rev w [] tt)
ZeroFree-pad_rev (suc w) (d ∷ ds) h = (h.0, ZeroFree-pad_rev w ds h.1)

pub print_padded-ZeroFree : (w n : ℕ) → ZeroFree (print_padded w n)
unfolding print_padded
print_padded-ZeroFree w n =
    ZeroFree-reverse_aux _ [] (ZeroFree-pad_rev w _ (ZeroFree-decimal_rev (suc n) n)) tt

-- Texts without a zero byte are told apart in front of one.
pub zero_cut : (a b x y : Text) → ZeroFree a → ZeroFree b → a ++ 0 ∷ x ≡ b ++ 0 ∷ y → a ≡ b
zero_cut [] [] x y h k e = refl
zero_cut [] (d ∷ b) x y h k e = ground (arith, k.0)
zero_cut (c ∷ a) [] x y h k e = ground (arith, h.0)
zero_cut (c ∷ a) (d ∷ b) x y h k e = ground (arith, zero_cut a b x y h.1 k.1)

pub append_cancel : (p a b : Text) → p ++ a ≡ p ++ b → a ≡ b
append_cancel [] a b e = e
append_cancel (x ∷ p) a b e = append_cancel p a b (cc)

abbrev pub print_dec : ℕ → Text
print_dec = print_padded 0

print_padded_test : print_padded 6 1203 ≡ codes "001203"
unfolding print_padded
print_padded_test = refl

-- SHA-256 in hexadecimal, a parameter of which nothing is assumed.
pub record Sha256 : Type 0 where
  pub hex : Text → Text
