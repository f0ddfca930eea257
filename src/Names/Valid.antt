-- ===== src/Names/Valid.antt =====
-- What toRFC1123Label and toRFC1123Subdomain return, whatever their input.
use telekom_k8s_breakglass.Prelude.{
  ℕ, ◌≤◌, Bool, true, false, [], ◌∷◌, Str, ◌≡◌, ◌≢◌, refl, ap, arith, length, Bool-cases, inl, inr,
  take, is_empty, map, length-take-le, ltb,
}
use telekom_k8s_breakglass.Names.{
  trim_left, trim_right, collapse, not_alnum, is_alnum, x_name, subdomain_char, label_char,
  to_rfc1123_subdomain, subdomain_end, label_end, to_rfc1123_label,
}
use telekom_k8s_breakglass.Names.Shape.{
  Only, Starts, Ends, Only-trim_left, Only-trim_right, Only-take, Only-replace_invalid,
  Only-replace_pair, Only-collapse, Starts-trim_left, Starts-trim_right, Starts-take,
  Ends-trim_right, length-trim_right-le,
}

-- A Kubernetes name part over the given characters: not empty, alphanumeric at both ends.
pub record IsNamePart (p : ℕ → Bool) (s : Str) : Type 0 where
  pub starts : Starts is_alnum s
  pub ends : Ends is_alnum s
  pub chars : Only p s

-- A label value: a name part of letters, digits, `-`, `_` and `.`, of at most 63 characters.
pub record IsLabelValue (s : Str) : Type 0 where
  pub part : IsNamePart label_char s
  pub short : length s ≤ 63

ne-of_is_empty : {s : Str} → is_empty s ≡ false → s ≢ []
ne-of_is_empty {s = []} h = cc
ne-of_is_empty {s = c ∷ s} h = cc

x_name-IsNamePart : (p : ℕ → Bool) → p b'x' ≡ true → IsNamePart p x_name
unfolding is_alnum
x_name-IsNamePart p h = record { starts = refl; ends = refl; chars = (h, tt) }

-- The two strip loops leave a name part, if anything.
stripped-IsNamePart :
    (p : ℕ → Bool) (s : Str)
    → Only p s
    → let out = trim_right not_alnum (trim_left not_alnum s) in out ≢ [] → IsNamePart p out
stripped-IsNamePart p s h ne = record {
  starts = Starts-trim_right front ne (Starts-trim_left s front_ne);
  ends = Ends-trim_right front ne;
  chars = Only-trim_right p not_alnum front (Only-trim_left p not_alnum s h);
}
  where
    front : Str
    front = trim_left not_alnum s

    front_ne : trim_left not_alnum s ≢ []
    front_ne e = ne (unfold trim_right trim_left in ap (trim_right not_alnum) e)

cut-IsLabelValue :
    (s : Str)
    → IsNamePart label_char s
    → trim_right not_alnum (take 63 s) ≢ []
    → IsLabelValue (trim_right not_alnum (take 63 s))
cut-IsLabelValue s v ne = record {
  part = record {
    starts = Starts-trim_right (take 63 s) ne (
        Starts-take 63 s (λ e. ne (unfold trim_right trim_left in ap (trim_right not_alnum) e))
          v.starts);
    ends = Ends-trim_right (take 63 s) ne;
    chars = Only-trim_right label_char not_alnum (take 63 s) (Only-take label_char 63 s v.chars);
  };
  short = omega (arith, length-trim_right-le not_alnum (take 63 s), length-take-le 63 s);
}

x_name-IsLabelValue : IsLabelValue x_name
unfolding is_alnum
x_name-IsLabelValue = record { part = x_name-IsNamePart label_char refl; short = omega arith }

label_end-IsLabelValue : (s : Str) → Only label_char s → IsLabelValue (label_end s)
unfolding label_end
label_end-IsLabelValue s h =
    let out = trim_right not_alnum (trim_left not_alnum s) in
    elim (Bool-cases (is_empty out)) [
      | inl e ↦ rw e x_name-IsLabelValue
      | inr e ↦
          let part = stripped-IsNamePart label_char s h (ne-of_is_empty e) in
          elim (Bool-cases (ltb 63 (length out))) [
            | inl long ↦ elim (Bool-cases (is_empty (trim_right not_alnum (take 63 out)))) [
              | inl gone ↦ rw (e, long, gone) x_name-IsLabelValue
              | inr left ↦ rw (e, long, left) (cut-IsLabelValue out part (ne-of_is_empty left))
            ]
            | inr fits ↦ rw (e, fits) (record { part = part; short = ground arith })
          ]
    ]

-- Whatever the text and the lowercasing of its runes, toRFC1123Label returns a label value: not
-- empty, at most 63 characters, each a letter, a digit, `-`, `_` or `.`, alphanumeric at both ends.
pub to_rfc1123_label-IsLabelValue :
    (to_lower : ℕ → ℕ) (s : Str) → IsLabelValue (to_rfc1123_label to_lower s)
unfolding to_rfc1123_label
to_rfc1123_label-IsLabelValue to_lower [] = x_name-IsLabelValue
to_rfc1123_label-IsLabelValue to_lower (c ∷ s) = label_end-IsLabelValue _ (
    collapsed b'-' _ (
      collapsed b'_' _ (
        collapsed b'.' _ (
          Only-trim_right label_char _ _ (
            Only-trim_left label_char _ _ (
              Only-replace_invalid label_char false (map to_lower (c ∷ s))
                (unfold is_alnum in refl)))))))
  where
    collapsed : (d : ℕ) (t : Str) → Only label_char t → Only label_char (collapse (length t) d t)
    collapsed d t h = Only-collapse label_char (length t) d t h

subdomain_end-IsNamePart :
    (s : Str) → Only subdomain_char s → IsNamePart subdomain_char (subdomain_end s)
unfolding subdomain_end
subdomain_end-IsNamePart s h = elim (Bool-cases (is_empty s)) [
  | inl e ↦ rw e (x_name-IsNamePart subdomain_char (unfold is_alnum in refl))
  | inr e ↦ elim (Bool-cases (is_empty (trim_right not_alnum (trim_left not_alnum s)))) [
    | inl gone ↦ rw (e, gone) (x_name-IsNamePart subdomain_char (unfold is_alnum in refl))
    | inr left ↦ rw (e, left) (stripped-IsNamePart subdomain_char s h (ne-of_is_empty left))
  ]
]

-- Whatever the text and the lowercasing of its runes, toRFC1123Subdomain returns a name part: not
-- empty, each character a letter, a digit, `-` or `.`, alphanumeric at both ends.
pub to_rfc1123_subdomain-IsNamePart :
    (to_lower : ℕ → ℕ) (s : Str) → IsNamePart subdomain_char (to_rfc1123_subdomain to_lower s)
unfolding to_rfc1123_subdomain
to_rfc1123_subdomain-IsNamePart to_lower [] =
    x_name-IsNamePart subdomain_char (unfold is_alnum in refl)
to_rfc1123_subdomain-IsNamePart to_lower (c ∷ s) = subdomain_end-IsNamePart _ (
    Only-collapse subdomain_char _ b'-' _ (
      Only-replace_pair subdomain_char b'.' _ (
        Only-trim_right subdomain_char _ _ (
          Only-trim_left subdomain_char _ _ (
            Only-replace_invalid subdomain_char false (map to_lower (c ∷ s))
              (unfold is_alnum in refl))))))
