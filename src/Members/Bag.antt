-- ===== src/Members/Bag.antt =====
-- Lists of strings as bags: what equalStringSlices compares.
use mathlib.Core.Quot
use mathlib.Core.Quot.{Quot, Quot-set}
use native.Mathlib.Nat.{ℕ_set}
use telekom_k8s_breakglass.Prelude.{
  ℕ, suc, ◌+◌, ◌≤◌, true, false, List, [], ◌∷◌, Str, length, all, str_eq, str_eq_refl, str_eq_iff,
  ◌==◌, if◌then◌else◌, none, some, some-eq, Option-cases, StrMap, ◌≡◌, ◌≢◌, ◌↔◌, refl, sym, ap, inl,
  inr, Bool-cases, arith, false≢true,
}
use telekom_k8s_breakglass.Members.{
  count_at, increment, decrement, tally, take_away, equal_string_slices,
}

-- How often a string occurs.
abbrev pub count : Str → List Str → ℕ
count v [] = 0
count v (x ∷ xs) = (if str_eq x v then 1 else 0) + count v xs

abbrev pub SameItems : List Str → List Str → Type 0
SameItems xs ys = (v : Str) → count v xs ≡ count v ys

-- A list, its order forgotten.
abbrev pub Bag : Type 0
Bag = Quot SameItems

pub bag : List Str → Bag
bag xs = Quot.mk xs

occurrences : Str → Bag → ℕ
occurrences v = Quot.lift ℕ_set (count v) (λ xs ys h. h v)

pub bag_iff : (xs ys : List Str) → (bag xs ≡ bag ys) ↔ SameItems xs ys
unfolding bag occurrences
bag_iff xs ys = (λ e v. ap (occurrences v) e, λ h. Quot.sound h)

-- The sum of the counters.
abbrev total : StrMap ℕ → ℕ
total [] = 0
total ((k, n) ∷ m) = n + total m

count_at-increment :
    (v u : Str) (m : StrMap ℕ)
    → count_at (increment v m) u ≡ (if str_eq v u then 1 else 0) + count_at m u
unfolding count_at increment
count_at-increment v u [] = ground arith
count_at-increment v u ((k, n) ∷ m) = elim (Bool-cases (str_eq k v)) [
  | inl e ↦ rw (e, (str_eq_iff k v).0 e) (ground arith)
  | inr e ↦ rw e (ground (arith, count_at-increment v u m, e, (str_eq_iff k u), (str_eq_iff v u)))
]

count_at-decrement :
    (v u : Str) (m : StrMap ℕ)
    → (count_at m v == 0) ≡ false
    → (if str_eq v u then 1 else 0) + count_at (decrement v m) u ≡ count_at m u
unfolding count_at decrement
count_at-decrement v u [] h = cc
count_at-decrement v u ((k, n) ∷ m) h = elim (Bool-cases (str_eq k v)) [
  | inl e ↦ let ne = rw e at h in rw (e, (str_eq_iff k v).0 e) (ground arith)
  | inr e ↦
      let ih = count_at-decrement v u m (rw e at h) in
      rw e (ground (arith, ih, e, (str_eq_iff k u), (str_eq_iff v u)))
]

total-increment : (v : Str) (m : StrMap ℕ) → total (increment v m) ≡ suc (total m)
unfolding increment
total-increment v [] = refl
total-increment v ((k, n) ∷ m) = ground (arith, total-increment v m)

total-decrement :
    (v : Str) (m : StrMap ℕ) → (count_at m v == 0) ≡ false → suc (total (decrement v m)) ≡ total m
unfolding count_at decrement
total-decrement v [] h = cc
total-decrement v ((k, n) ∷ m) h = ground (arith, total-decrement v m)

count_at-tally :
    (u : Str) (vs : List Str) (m : StrMap ℕ) → count_at (tally vs m) u ≡ count u vs + count_at m u
unfolding tally
count_at-tally u [] m = omega arith
count_at-tally u (v ∷ vs) m =
    omega (arith, count_at-tally u vs (increment v m), count_at-increment v u m)

total-tally : (vs : List Str) (m : StrMap ℕ) → total (tally vs m) ≡ length vs + total m
unfolding tally
total-tally [] m = omega arith
total-tally (v ∷ vs) m = omega (arith, total-tally vs (increment v m), total-increment v m)

-- What the loop over `b` leaves.
Left : List Str → StrMap ℕ → StrMap ℕ → Type 0
Left vs m m' =
    ((u : Str) → count u vs + count_at m' u ≡ count_at m u) × (length vs + total m' ≡ total m)

take_away-Left : (vs : List Str) (m m' : StrMap ℕ) → take_away vs m ≡ some m' → Left vs m m'
unfolding Left take_away
take_away-Left [] m m' h =
    (λ u. omega (arith, ap (λ x. count_at x u) (some-eq h)), omega (arith, ap total (some-eq h)))
take_away-Left (v ∷ vs) m m' h = elim (Bool-cases (count_at m v == 0)) [
  | inl e ↦ absurd (none-ne-some (rw e at h))
  | inr e ↦
      let (c, t) = take_away-Left vs (decrement v m) m' (rw e at h) in
      (λ u. omega (arith, c u, count_at-decrement v u m e), omega (arith, t, total-decrement v m e))
]
  where
    none-ne-some : none ≢ some m'
    none-ne-some q = cc

count_at-all_zero :
    (u : Str) (m : StrMap ℕ) → all (λ entry. entry.1 == 0) m ≡ true → count_at m u ≡ 0
unfolding count_at
count_at-all_zero u [] h = refl
count_at-all_zero u ((k, n) ∷ m) h = ground (arith, count_at-all_zero u m)

all_zero-total : (m : StrMap ℕ) → total m ≡ 0 → all (λ entry. entry.1 == 0) m ≡ true
all_zero-total [] h = refl
all_zero-total ((k, n) ∷ m) h = ground (arith, all_zero-total m)

-- The loop over `b` succeeds when the counters are high enough.
take_away-enough :
    (vs : List Str) (m : StrMap ℕ)
    → ((u : Str) → count u vs ≤ count_at m u)
    → (m' : StrMap ℕ) × (take_away vs m ≡ some m')
unfolding take_away
take_away-enough [] m h = (m, refl)
take_away-enough (v ∷ vs) m h = elim (Bool-cases (count_at m v == 0)) [
  | inl e ↦ absurd (ground (arith, h v, str_eq_refl v, e))
  | inr e ↦
      let (m', q) =
        take_away-enough vs (decrement v m) (λ u. omega (arith, h u, count_at-decrement v u m e)) in
      (m', rw e q)
]

SameItems-of_equal : (a b : List Str) → equal_string_slices a b ≡ true → SameItems a b
unfolding equal_string_slices Left
SameItems-of_equal a b h = elim (Bool-cases (length a == length b)) [
  | inr e ↦ absurd (false≢true (rw e at h))
  | inl e ↦ elim (Option-cases (take_away b (tally a []))) [
    | inl q ↦ absurd (false≢true (rw (e, q) at h))
    | inr (m, q) ↦
        let left = take_away-Left b (tally a []) m q in
        let done = rw (e, q) at h in
        λ u. omega (arith, left.0 u, count_at-tally u a [], count_at-all_zero u m done)
  ]
]

-- What the two loops leave of lists with the same items.
tally-take_away :
    (a b : List Str)
    → SameItems a b
    → (m : StrMap ℕ) × (take_away b (tally a []) ≡ some m) × (length b + total m ≡ length a)
unfolding Left
tally-take_away a b h =
    let (m, q) = take_away-enough b (tally a []) (λ u. omega (arith, h u, count_at-tally u a [])) in
    (m, q, omega (arith, (take_away-Left b (tally a []) m q).1, total-tally a []))

equal-of_SameItems : (a b : List Str) → SameItems a b → equal_string_slices a b ≡ true
unfolding equal_string_slices
equal-of_SameItems a b h =
    let (m, q, t) = tally-take_away a b h in
    let (m', q', t') = tally-take_away b a (λ u. sym (h u)) in
    let same : (length a == length b) ≡ true = ground (arith, t, t') in
    rw (same, q) (all_zero-total m (omega (arith, t, t')))

-- equalStringSlices compares the lists as bags: in any order, each string as often.
pub equal_string_slices_iff : (a b : List Str) → (equal_string_slices a b ≡ true) ↔ (bag a ≡ bag b)
equal_string_slices_iff a b = (
  λ h. (bag_iff a b).1 (SameItems-of_equal a b h),
  λ e. equal-of_SameItems a b ((bag_iff a b).0 e),
)
