-- ===== src/Names.antt =====
-- pkg/breakglass/session_controller.go: toRFC1123Subdomain, toRFC1123Label and isAlnum, which turn
-- free text into parts of object names and into label values.
pub mod Collapse
pub mod Shape
pub mod Valid
use telekom_k8s_breakglass.Prelude.{
  ℕ, zero, suc, Bool, true, false, not, ◌&&◌, ◌||◌, List, [], ◌∷◌, Str, codes, map, length, take,
  is_empty, leb, ltb, ◌==◌, if◌then◌else◌, has_substring, reverse,
}

pub is_alnum : ℕ → Bool
is_alnum r = (leb b'a' r && leb r b'z') || (leb b'0' r && leb r b'9')

abbrev pub subdomain_char : ℕ → Bool
subdomain_char r = is_alnum r || r == b'-' || r == b'.'

abbrev pub label_char : ℕ → Bool
label_char r = is_alnum r || r == b'-' || r == b'_' || r == b'.'

-- The loop with `prevDash`, which is set exactly when the last rune was not allowed.
pub replace_invalid : (ℕ → Bool) → Bool → Str → Str
replace_invalid allowed prev_dash [] = []
replace_invalid allowed prev_dash (r ∷ s) =
    let rest = replace_invalid allowed (not (allowed r)) s in
    if allowed r then r ∷ rest else if prev_dash then rest else b'-' ∷ rest

-- `strings.TrimLeft(s, cutset)`, and the loop that strips `out[0]`.
unfoldable pub trim_left : (ℕ → Bool) → Str → Str
trim_left cut [] = []
trim_left cut (c ∷ s) = let rest = trim_left cut s in if cut c then rest else c ∷ s

-- `strings.TrimRight(s, cutset)`, and the loop that strips the last byte.
pub trim_right : (ℕ → Bool) → Str → Str
trim_right cut s = reverse (trim_left cut (reverse s))

-- `strings.ReplaceAll(s, "cc", "c")`.
pub replace_pair : ℕ → Str → Str
replace_pair c [] = []
replace_pair c (x ∷ []) = x ∷ []
replace_pair c (x ∷ y ∷ s) =
    let merged = c ∷ replace_pair c s in
    let kept = x ∷ replace_pair c (y ∷ s) in if x == c && y == c then merged else kept

-- `strings.Contains(s, "cc")`.
pub has_pair : ℕ → Str → Bool
has_pair c [] = false
has_pair c (x ∷ []) = false
has_pair c (x ∷ y ∷ s) = (x == c && y == c) || has_pair c (y ∷ s)

-- `for strings.Contains(out, "cc") { out = strings.ReplaceAll(out, "cc", "c") }` on fuel.
pub collapse : ℕ → ℕ → Str → Str
collapse zero c s = s
collapse (suc fuel) c s =
    let again = collapse fuel c (replace_pair c s) in if has_pair c s then again else s

abbrev pub not_alnum : ℕ → Bool
not_alnum r = not (is_alnum r)

abbrev pub x_name : Str
x_name = b'x' ∷ []

-- The tail of toRFC1123Subdomain, from the fallback on an empty text on.
pub subdomain_end : Str → Str
subdomain_end out =
    if is_empty out
    then x_name
    else (let out = trim_right not_alnum (trim_left not_alnum out) in
        if is_empty out then x_name else out)

-- The tail of toRFC1123Label, from the strip loops on.
pub label_end : Str → Str
label_end out =
    let out = trim_right not_alnum (trim_left not_alnum out) in
    if is_empty out
    then x_name
    else if ltb 63 (length out)
    then (let out = trim_right not_alnum (take 63 out) in if is_empty out then x_name else out)
    else out

-- `to_lower` is `unicode.ToLower`, which `strings.ToLower` applies to each rune.
module _ (to_lower : ℕ → ℕ) where
  unfoldable pub to_rfc1123_subdomain : Str → Str
  to_rfc1123_subdomain [] = x_name
  to_rfc1123_subdomain (c ∷ s) =
      let out = replace_invalid subdomain_char false (map to_lower (c ∷ s)) in
      let out = trim_left (λ r. r == b'-' || r == b'.') out in
      let out = trim_right (λ r. r == b'-' || r == b'.') out in
      let out = replace_pair b'.' out in
      let out = collapse (length out) b'-' out in subdomain_end out

  pub to_rfc1123_label : Str → Str
  to_rfc1123_label [] = x_name
  to_rfc1123_label (c ∷ s) =
      let out = replace_invalid label_char false (map to_lower (c ∷ s)) in
      let out = trim_left (λ r. r == b'-' || r == b'.' || r == b'_') out in
      let out = trim_right (λ r. r == b'-' || r == b'.' || r == b'_') out in
      let out = collapse (length out) b'.' out in
      let out = collapse (length out) b'_' out in
      let out = collapse (length out) b'-' out in label_end out
