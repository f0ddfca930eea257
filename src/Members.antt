-- ===== src/Members.antt =====
-- pkg/breakglass/escalation_status_updater.go: the lists of members that the updater writes into the
-- status of an escalation, normalised and compared.
pub mod Normal
pub mod Bag
pub mod Keycloak
pub mod Updater
use telekom_k8s_breakglass.Prelude.{
  ℕ, zero, suc, ◌-◌, Bool, true, false, not, List, [], ◌∷◌, Str, map, length, is_empty, contains,
  all, trim_space, str_eq, ◌==◌, if◌then◌else◌, Option, none, some, StrMap, look_up,
}
use telekom_k8s_breakglass.Distinct.{collect_distinct}

-- The body of the loop: lower case, no spaces around.
pub normalized : (ℕ → ℕ) → Str → Str
normalized to_lower m = trim_space (map to_lower m)

-- `to_lower` is `unicode.ToLower`.
unfoldable pub normalize_members : (ℕ → ℕ) → List Str → List Str
unfolding normalized
normalize_members to_lower members = collect_distinct (normalized to_lower) [] members

-- `amap[v]`: 0 for a missing key
pub count_at : StrMap ℕ → Str → ℕ
count_at [] v = 0
count_at ((k, n) ∷ m) v = let rest = count_at m v in if str_eq k v then n else rest

-- `amap[v]++`
pub increment : Str → StrMap ℕ → StrMap ℕ
increment v [] = (v, 1) ∷ []
increment v ((k, n) ∷ m) =
    let rest = increment v m in if str_eq k v then (k, suc n) ∷ m else (k, n) ∷ rest

-- `amap[v]--` of a counter that is not 0
pub decrement : Str → StrMap ℕ → StrMap ℕ
decrement v [] = []
decrement v ((k, n) ∷ m) =
    let rest = decrement v m in if str_eq k v then (k, n - 1) ∷ m else (k, n) ∷ rest

-- The loop over `a`.
pub tally : List Str → StrMap ℕ → StrMap ℕ
unfolding increment
tally [] m = m
tally (v ∷ vs) m = tally vs (increment v m)

-- The loop over `b`: none where it returns false.
pub take_away : List Str → StrMap ℕ → Option (StrMap ℕ)
unfolding count_at decrement
take_away [] m = some m
take_away (v ∷ vs) m =
    let rest = take_away vs (decrement v m) in if count_at m v == 0 then none else rest

unfoldable pub equal_string_slices : List Str → List Str → Bool
unfolding tally take_away
equal_string_slices a b =
    if not (length a == length b)
    then false
    else elim (take_away b (tally a [])) [ none ↦ false | some m ↦ all (λ entry. entry.1 == 0) m ]
