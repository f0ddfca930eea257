-- ===== src/Names/Shape.antt =====
-- Which characters the string loops let through, and what a text starts and ends with.
use mathlib.Core.List.{reverse-append, reverse-reverse}
use telekom_k8s_breakglass.Prelude.{
  ℕ, zero, suc, ◌≤◌, Bool, true, false, not, ◌&&◌, [], ◌∷◌, ◌++◌, Str, ◌≡◌, ◌∙◌, refl, sym, ap,
  subst, ◌≢◌, arith, length, length-append, Bool-cases, ◌==◌, inl, inr, All, reverse, take, ==_iff,
  and-eq-true,
}
use telekom_k8s_breakglass.Names.{
  replace_invalid, trim_left, trim_right, replace_pair, has_pair, collapse, not_alnum, is_alnum,
}

-- Every character passes the test.
abbrev pub Only : (ℕ → Bool) → Str → Type 0
Only p s = All (λ r. p r ≡ true) s

-- The text has a first character, and it passes the test.
abbrev pub Starts : (ℕ → Bool) → Str → Type 0
Starts p [] = ⊥
Starts p (c ∷ s) = p c ≡ true

abbrev pub Ends : (ℕ → Bool) → Str → Type 0
Ends p s = Starts p (reverse s)

module _ (p : ℕ → Bool) where
  pub Only-append : (s t : Str) → Only p s → Only p t → Only p (s ++ t)
  Only-append [] t h k = k
  Only-append (c ∷ s) t (e, h) k = (e, Only-append s t h k)

  pub Only-reverse : (s : Str) → Only p s → Only p (reverse s)
  Only-reverse [] h = tt
  Only-reverse (c ∷ s) (e, h) =
      subst (Only p) (sym (reverse-append (c ∷ []) s))
        (Only-append (reverse s) (c ∷ []) (Only-reverse s h) (e, tt))

  pub Only-trim_left : (cut : ℕ → Bool) (s : Str) → Only p s → Only p (trim_left cut s)
  unfolding trim_left
  Only-trim_left cut [] h = tt
  Only-trim_left cut (c ∷ s) (e, h) = elim (Bool-cases (cut c)) [
    | inl q ↦ rw q (Only-trim_left cut s h)
    | inr q ↦ rw q (e, h)
  ]

  pub Only-trim_right : (cut : ℕ → Bool) (s : Str) → Only p s → Only p (trim_right cut s)
  unfolding trim_right
  Only-trim_right cut s h =
      Only-reverse (trim_left cut (reverse s)) (Only-trim_left cut (reverse s) (Only-reverse s h))

  pub Only-take : (n : ℕ) (s : Str) → Only p s → Only p (take n s)
  Only-take zero s h = tt
  Only-take (suc n) [] h = tt
  Only-take (suc n) (c ∷ s) (e, h) = (e, Only-take n s h)

  pub Only-replace_invalid :
      (prev : Bool) (s : Str) → p b'-' ≡ true → Only p (replace_invalid p prev s)
  unfolding replace_invalid
  Only-replace_invalid prev [] d = tt
  Only-replace_invalid prev (c ∷ s) d =
      let rest = Only-replace_invalid (not (p c)) s d in
      elim (Bool-cases (p c)) [
        | inl e ↦ replaced_allowed prev c s e rest
        | inr e ↦ replaced_other prev c s d e rest
      ]
    where
      replaced_allowed :
          (prev : Bool) (c : ℕ) (s : Str)
          → p c ≡ true
          → Only p (replace_invalid p (not (p c)) s)
          → Only p (replace_invalid p prev (c ∷ s))
      replaced_allowed prev c s e rest = rw e (e, rw e at rest)

      replaced_other :
          (prev : Bool) (c : ℕ) (s : Str)
          → p b'-' ≡ true
          → p c ≡ false
          → Only p (replace_invalid p (not (p c)) s)
          → Only p (replace_invalid p prev (c ∷ s))
      replaced_other true c s d e rest = rw e (rw e at rest)
      replaced_other false c s d e rest = rw e (d, rw e at rest)

  pub Only-replace_pair : (c : ℕ) (s : Str) → Only p s → Only p (replace_pair c s)
  unfolding replace_pair
  Only-replace_pair c [] h = tt
  Only-replace_pair c (x ∷ []) h = h
  Only-replace_pair c (x ∷ y ∷ s) (e, (f, h)) = elim (Bool-cases (x == c && y == c)) [
    | inl q ↦ rw q (
      subst (λ z. p z ≡ true) ((==_iff x c).0 ((and-eq-true (x == c) (y == c)).0 q).0) e,
      Only-replace_pair c s h,
    )
    | inr q ↦ rw q (e, Only-replace_pair c (y ∷ s) (f, h))
  ]

  pub Only-collapse : (fuel c : ℕ) (s : Str) → Only p s → Only p (collapse fuel c s)
  unfolding collapse
  Only-collapse zero c s h = h
  Only-collapse (suc fuel) c s h = elim (Bool-cases (has_pair c s)) [
    | inl e ↦ rw e (Only-collapse fuel c (replace_pair c s) (Only-replace_pair c s h))
    | inr e ↦ rw e h
  ]

not_alnum-false : (c : ℕ) → not_alnum c ≡ false → is_alnum c ≡ true
not_alnum-false c h = ground arith

pub Starts-trim_left :
    (s : Str) → trim_left not_alnum s ≢ [] → Starts is_alnum (trim_left not_alnum s)
unfolding trim_left
Starts-trim_left [] h = absurd (h refl)
Starts-trim_left (c ∷ s) h = elim (Bool-cases (not_alnum c)) [
  | inl q ↦ rw q (Starts-trim_left s (rw q at h))
  | inr q ↦ rw q (not_alnum-false c q)
]

-- A nonempty front part starts like the whole.
pub Starts-append : (p : ℕ → Bool) (s t : Str) → s ≢ [] → Starts p (s ++ t) → Starts p s
Starts-append p [] t ne h = absurd (ne refl)
Starts-append p (c ∷ s) t ne h = h

trim_left-suffix : (cut : ℕ → Bool) (s : Str) → (front : Str) × (s ≡ front ++ trim_left cut s)
unfolding trim_left
trim_left-suffix cut [] = ([], refl)
trim_left-suffix cut (c ∷ s) = elim (Bool-cases (cut c)) [
  | inl q ↦ let (front, e) = trim_left-suffix cut s in (c ∷ front, rw q (ap (λ t. c ∷ t) e))
  | inr q ↦ ([], rw q)
]

pub trim_right-prefix : (cut : ℕ → Bool) (s : Str) → (back : Str) × (s ≡ trim_right cut s ++ back)
unfolding trim_right
trim_right-prefix cut s =
    let (front, e) = trim_left-suffix cut (reverse s) in
    (
      reverse front,
      sym (reverse-reverse s) ∙ ap reverse e ∙ reverse-append front (trim_left cut (reverse s)),
    )

pub take-prefix : (n : ℕ) (s : Str) → (back : Str) × (s ≡ take n s ++ back)
take-prefix zero s = (s, refl)
take-prefix (suc n) [] = ([], refl)
take-prefix (suc n) (c ∷ s) = let (back, e) = take-prefix n s in (back, ap (λ t. c ∷ t) e)

pub Starts-trim_right :
    (s : Str)
    → trim_right not_alnum s ≢ []
    → Starts is_alnum s
    → Starts is_alnum (trim_right not_alnum s)
Starts-trim_right s ne h =
    let (back, e) = trim_right-prefix not_alnum s in
    Starts-append is_alnum _ back ne (subst (Starts is_alnum) e h)

pub Starts-take : (n : ℕ) (s : Str) → take n s ≢ [] → Starts is_alnum s → Starts is_alnum (take n s)
Starts-take n s ne h =
    let (back, e) = take-prefix n s in
    Starts-append is_alnum _ back ne (subst (Starts is_alnum) e h)

pub Ends-trim_right :
    (s : Str) → trim_right not_alnum s ≢ [] → Ends is_alnum (trim_right not_alnum s)
unfolding trim_right
Ends-trim_right s ne =
    subst (Starts is_alnum) (sym (reverse-reverse (trim_left not_alnum (reverse s))))
      (Starts-trim_left (reverse s) (λ e. ne (ap reverse e)))

-- Trimming makes a text no longer.
pub length-trim_right-le : (cut : ℕ → Bool) (s : Str) → length (trim_right cut s) ≤ length s
length-trim_right-le cut s =
    let (back, e) = trim_right-prefix cut s in
    omega (arith, ap length e, length-append (trim_right cut s) back)
