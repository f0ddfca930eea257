-- ===== src/Names/Collapse.antt =====
-- The loops that collapse a doubled separator end, with no doubled separator left.
use telekom_k8s_breakglass.Prelude.{
  ℕ, zero, suc, ◌≤◌, ◌<◌, true, false, [], ◌∷◌, Str, ◌≡◌, refl, arith, length, Bool-cases, inl, inr,
}
use telekom_k8s_breakglass.Names.{replace_pair, has_pair, collapse}

pub length-replace_pair-le : (c : ℕ) (s : Str) → length (replace_pair c s) ≤ length s
unfolding replace_pair
length-replace_pair-le c [] = omega arith
length-replace_pair-le c (x ∷ []) = omega arith
length-replace_pair-le c (x ∷ y ∷ s) =
    ground (arith, length-replace_pair-le c s, length-replace_pair-le c (y ∷ s))

length-replace_pair-lt :
    (c : ℕ) (s : Str) → has_pair c s ≡ true → length (replace_pair c s) < length s
unfolding replace_pair has_pair
length-replace_pair-lt c [] h = cc
length-replace_pair-lt c (x ∷ []) h = cc
length-replace_pair-lt c (x ∷ y ∷ s) h =
    ground (arith, length-replace_pair-le c s, length-replace_pair-lt c (y ∷ s))

-- With as much fuel as the text is long, the loop over a doubled separator runs to its end: its test
-- fails on the result.
pub has_pair-collapse :
    (fuel c : ℕ) (s : Str) → length s ≤ fuel → has_pair c (collapse fuel c s) ≡ false
unfolding collapse
has_pair-collapse zero c [] h = unfold has_pair in refl
has_pair-collapse zero c (x ∷ s) h = absurd (omega arith)
has_pair-collapse (suc fuel) c s h = elim (Bool-cases (has_pair c s)) [
  | inl e ↦
      rw e
        (has_pair-collapse fuel c (replace_pair c s) (omega (arith, length-replace_pair-lt c s e)))
  | inr e ↦ rw (e, e)
]
