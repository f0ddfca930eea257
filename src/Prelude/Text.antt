-- ===== src/Prelude/Text.antt =====
-- Go strings as lists of code points (the program's strings are valid UTF-8), with the functions of
-- `strings` and `slices` that the program calls.
use Prim.Native.Nat.{ℕ, zero, suc, ◌+◌, ◌/◌, ◌%◌}
use Prim.Native.Char.{code}
use Prim.Native.String.{String}
use mathlib.Core.Path.{◌≡◌, ◌∙◌, sym, refl, ap₂}
use mathlib.Core.Logic.{◌↔◌, ◌≢◌, inl, inr}
use mathlib.Core.Bool.{Bool, true, false, ◌&&◌, ◌||◌, false≢true}
use mathlib.Core.List.{List, [], ◌∷◌, ◌++◌, reverse, reverse-append}
use native.Mathlib.Omega.{arith}
use telekom_k8s_breakglass.Prelude.Tests.{
  ◌==◌, if◌then◌else◌, Bool-cases, leb, ltb, or-eq-true, and-eq-true, ==_iff,
}
use telekom_k8s_breakglass.Prelude.Lists.{is_empty, In, here, there, not_In-nil}

abbrev pub Str : Type 0
Str = List ℕ

abbrev pub codes : String → Str
codes String.[] = []
codes (String.◌∷◌ c s) = code c ∷ codes s

-- `a == b` of two strings.
unfoldable pub str_eq : Str → Str → Bool
str_eq [] [] = true
str_eq (a ∷ s) (b ∷ t) = a == b && str_eq s t
str_eq _ _ = false

pub str_eq_refl : (s : Str) → str_eq s s ≡ true
unfolding str_eq
str_eq_refl [] = refl
str_eq_refl (a ∷ s) = ground (arith, str_eq_refl s)

pub eq-of-str_eq : (s t : Str) → str_eq s t ≡ true → s ≡ t
unfolding str_eq
eq-of-str_eq [] [] h = refl
eq-of-str_eq (a ∷ s) [] h = cc
eq-of-str_eq [] (b ∷ t) h = cc
eq-of-str_eq (a ∷ s) (b ∷ t) h = ground (arith, eq-of-str_eq s t)

pub str_eq_iff : (s t : Str) → (str_eq s t ≡ true) ↔ (s ≡ t)
str_eq_iff s t = (eq-of-str_eq s t, λ e. ground (arith, e, str_eq_refl s))

pub str_eq-false_iff : (s t : Str) → (str_eq s t ≡ false) ↔ (s ≢ t)
str_eq-false_iff s t = (
  λ h e. false≢true (sym h ∙ (str_eq_iff s t).1 e),
  λ ne. elim (Bool-cases (str_eq s t)) [ inl e ↦ absurd (ne ((str_eq_iff s t).0 e)) | inr e ↦ e ],
)

-- slices.Contains
unfoldable pub contains : List Str → Str → Bool
contains [] v = false
contains (s ∷ ss) v = str_eq s v || contains ss v

pub In-of_contains : {v : Str} (ss : List Str) → contains ss v ≡ true → In v ss
unfolding contains
In-of_contains [] h = elim (false≢true h) [ ]
In-of_contains {v} (s ∷ ss) h = elim ((or-eq-true (str_eq s v) (contains ss v)).0 h) [
  | inl e ↦ here (eq-of-str_eq s v e)
  | inr r ↦ there (In-of_contains ss r)
]

pub contains-of_In : {v : Str} (ss : List Str) → In v ss → contains ss v ≡ true
unfolding contains
contains-of_In [] m = not_In-nil m
contains-of_In {v} (s ∷ ss) (here e) = (or-eq-true _ _).1 (inl ((str_eq_iff s v).1 e))
contains-of_In (s ∷ ss) (there m) = (or-eq-true _ _).1 (inr (contains-of_In ss m))

pub contains_iff : (ss : List Str) (v : Str) → (contains ss v ≡ true) ↔ In v ss
contains_iff ss v = (In-of_contains ss, contains-of_In ss)

-- strings.HasPrefix
unfoldable pub has_prefix : Str → Str → Bool
has_prefix s [] = true
has_prefix [] (p ∷ ps) = false
has_prefix (c ∷ s) (p ∷ ps) = c == p && has_prefix s ps

-- strings.TrimPrefix
pub drop_as_long_as : Str → Str → Str
drop_as_long_as s [] = s
drop_as_long_as [] (p ∷ ps) = []
drop_as_long_as (c ∷ s) (p ∷ ps) = drop_as_long_as s ps

pub trim_prefix : Str → Str → Str
trim_prefix s p = if has_prefix s p then drop_as_long_as s p else s

-- strings.HasSuffix
pub has_suffix : Str → Str → Bool
has_suffix s p = has_prefix (reverse s) (reverse p)

-- strings.Contains
unfoldable pub has_substring : Str → Str → Bool
has_substring [] p = is_empty p
has_substring (c ∷ s) p = has_prefix (c ∷ s) p || has_substring s p

pub has_prefix-append : (p s : Str) → has_prefix (p ++ s) p ≡ true
unfolding has_prefix
has_prefix-append [] [] = refl
has_prefix-append [] (c ∷ s) = refl
has_prefix-append (c ∷ p) s = ground (arith, has_prefix-append p s)

pub has_substring-append : (before t after : Str) → has_substring (before ++ t ++ after) t ≡ true
unfolding has_substring has_prefix
has_substring-append [] [] [] = refl
has_substring-append [] [] (c ∷ after) = refl
has_substring-append [] (c ∷ t) after = ground (arith, has_prefix-append (c ∷ t) after)
has_substring-append (c ∷ before) t after = ground (arith, has_substring-append before t after)

pub has_suffix-append : (s p : Str) → has_suffix (s ++ p) p ≡ true
unfolding has_suffix
has_suffix-append s p = rw (reverse-append s p) (has_prefix-append (reverse p) (reverse s))

drop_as_long_as-append : (p s : Str) → drop_as_long_as (p ++ s) p ≡ s
unfolding drop_as_long_as
drop_as_long_as-append [] [] = refl
drop_as_long_as-append [] (c ∷ s) = refl
drop_as_long_as-append (c ∷ p) s = drop_as_long_as-append p s

drop_as_long_as-split : (s p : Str) → has_prefix s p ≡ true → s ≡ p ++ drop_as_long_as s p
unfolding has_prefix drop_as_long_as
drop_as_long_as-split [] [] h = refl
drop_as_long_as-split (c ∷ s) [] h = refl
drop_as_long_as-split [] (q ∷ p) h = absurd (false≢true h)
drop_as_long_as-split (c ∷ s) (q ∷ p) h =
    let (a, b) = (and-eq-true (c == q) (has_prefix s p)).0 h in
    ap₂ (λ (x : ℕ) xs. x ∷ xs) ((==_iff c q).0 a) (drop_as_long_as-split s p b)

-- A text with a prefix is the prefix and what is left when it is cut off.
pub has_prefix-split : (s p : Str) → has_prefix s p ≡ true → s ≡ p ++ trim_prefix s p
unfolding trim_prefix
has_prefix-split s p h = rw (trim_prefix, h) (drop_as_long_as-split s p h)

pub trim_prefix-append : (p s : Str) → trim_prefix (p ++ s) p ≡ s
unfolding trim_prefix
trim_prefix-append p s = rw (has_prefix-append p s) (drop_as_long_as-append p s)

-- `unicode.IsSpace`
unfoldable pub is_space : ℕ → Bool
is_space r =
    (leb 9 r && leb r 13)
    || r == 32
    || r == 0x85
    || r == 0xa0
    || r == 0x1680
    || (leb 0x2000 r && leb r 0x200a)
    || r == 0x2028
    || r == 0x2029
    || r == 0x202f
    || r == 0x205f
    || r == 0x3000

unfoldable pub drop_spaces : Str → Str
drop_spaces [] = []
drop_spaces (c ∷ s) = let rest = drop_spaces s in if is_space c then rest else c ∷ s

-- strings.TrimSpace
unfoldable pub trim_space : Str → Str
trim_space s = reverse (drop_spaces (reverse (drop_spaces s)))

-- The verb `%d` for a number: its decimal digits. The fuel is the number plus one.
decimal_on : ℕ → ℕ → Str → Str
decimal_on zero n digits = digits
decimal_on (suc fuel) n digits =
    let digits' = (b'0' + n % 10) ∷ digits in
    let more = decimal_on fuel (n / 10) digits' in if ltb n 10 then digits' else more

unfoldable pub decimal : ℕ → Str
unfolding decimal_on
decimal n = decimal_on (suc n) n []
