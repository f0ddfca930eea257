-- ===== src/Webhook/Reason.antt =====
-- buildBreakglassLink, urlQueryEscape, finalizeReason and the texts of the answers.
use telekom_k8s_breakglass.Prelude.{
  ℕ, Bool, List, [], ◌∷◌, ◌++◌, Str, codes, is_empty, has_substring, ltb, ◌==◌, if◌then◌else◌,
  decimal,
}
use telekom_k8s_breakglass.Names.{trim_right}

-- The replacements of a space by `+`, and then of `#` by `%23`.
pub url_query_escape : Str → Str
url_query_escape [] = []
url_query_escape (c ∷ v) =
    (if c == 32 then b'+' ∷ [] else if c == b'#' then codes "%23" else c ∷ []) ++ url_query_escape v

pub build_breakglass_link : Str → Str → Str
build_breakglass_link base_url cluster =
    let base = trim_right (λ c. c == b'/') base_url in
    if is_empty base then [] else base ++ codes "?search=" ++ url_query_escape cluster

-- `fmt.Sprintf(denyReasonMessage, baseURL, cluster)`
pub deny_reason : Str → Str → Str
deny_reason base_url cluster =
    codes "Access denied. To request temporary access via Breakglass, visit "
    ++ base_url
    ++ codes "?search="
    ++ cluster
    ++ codes " and open a new request. Include the reason for access, the target cluster, and the "
    ++ codes "requested group(s). If you need help, contact your platform admins."

pub finalize_reason : Str → Str → Bool → Str → Str
unfolding build_breakglass_link deny_reason
finalize_reason base_url reason allowed cluster =
    let link = build_breakglass_link base_url cluster in
    if is_empty link
    then reason
    else if has_substring reason link
    then reason
    else if is_empty reason
    then (if allowed
        then codes "Allowed; view details or sessions at " ++ link
        else deny_reason base_url cluster)
    else reason ++ codes "; see " ++ link

-- The reason of a denial by a policy, for the number of escalations that are open to the user.
pub policy_reason : Str → ℕ → Str
unfolding decimal
policy_reason pol count =
    codes "Denied by policy "
    ++ pol
    ++ (if ltb 0 count
        then codes "; " ++ decimal count ++ codes " breakglass escalation(s) available"
        else codes "; No breakglass flow available for your user")

-- The verb `%v` for a slice of strings, without the brackets.
pub spaced : List Str → Str
spaced [] = []
spaced (s ∷ []) = s
spaced (s ∷ t ∷ ss) = s ++ codes " " ++ spaced (t ∷ ss)

-- The note on sessions that could not be checked against their cluster.
pub skipped_note : ℕ → List Str → Str → Str
unfolding decimal spaced
skipped_note count sess_info error =
    codes " Note: "
    ++ decimal count
    ++ codes " active breakglass session(s) found: ["
    ++ spaced sess_info
    ++ codes "]. Session-level authorization checks were skipped due to cluster validation error: "
    ++ error
    ++ codes
        ". If you believe you have valid access, ensure the platform has the cluster kubeconfig "
    ++ codes "configured."
