-- ===== src/Members/Normal.antt =====
-- What normalizeMembers keeps.
use telekom_k8s_breakglass.Prelude.{AllDistinct, ℕ, List, [], Str, ◌≡◌, ◌≢◌, ◌↔◌, In}
use telekom_k8s_breakglass.Distinct.{collect_distinct_exact}
use telekom_k8s_breakglass.Members.{normalized, normalize_members}

-- The normalised members are distinct, and they are exactly the texts other than the empty one that some
-- member of the list gives in lower case and without spaces around.
pub normalize_members_exact :
    (to_lower : ℕ → ℕ) (ms : List Str)
    → AllDistinct (normalize_members to_lower ms)
      × ((v : Str)
          → In v (normalize_members to_lower ms)
            ↔ ((v ≢ []) × ((m : Str) × In m ms × (normalized to_lower m ≡ v))))
unfolding normalize_members
normalize_members_exact to_lower ms = collect_distinct_exact (normalized to_lower) ms
