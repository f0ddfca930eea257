-- ===== src/Tests/Rounds.antt =====
-- Two rounds of the periodic task on the sample hub.
use telekom_k8s_breakglass.Prelude.{
  ◌+◌, arith, true, List, [], ◌∷◌, In, here, All, AllDistinct, not_In-nil, length, ◌≡◌, refl,
}
use telekom_k8s_breakglass.Api.Session.{Session}
use telekom_k8s_breakglass.Kube.Store.{names}
use telekom_k8s_breakglass.Session.{
  is_session_pending_approval, is_session_approval_timed_out, is_session_active,
}
use telekom_k8s_breakglass.Tasks.Timeout.{Readings, rounds, IsBetween, times_out_again}
use telekom_k8s_breakglass.Tests.Samples.{Store, request}
use telekom_k8s_breakglass.Tests.Hub.{hub, hub-IsStore}

-- A request whose approval has timed out.
abbrev late : Session
late = record request { status = record (request.status) { timeout_at = 3; retained_until = 500 } }

abbrev store : Store
store = late ∷ []

abbrev two_rounds : List Readings
two_rounds = (100, 101, 102) ∷ (200, 201, 202) ∷ []

late_timed_out : is_session_approval_timed_out 300 late ≡ true
unfolding is_session_approval_timed_out
late_timed_out = refl

distinct : AllDistinct (names store)
distinct = (λ m. not_In-nil m, tt)

between : All (IsBetween late.status) two_rounds
between = ((omega arith, omega arith), ((omega arith, omega arith), tt))

times_out_again_example :
    (s : Session) × In s (rounds hub two_rounds store)
    × (s.name ≡ late.name)
    × (is_session_approval_timed_out 300 s ≡ true)
    × (is_session_pending_approval s ≡ true)
    × (length s.status.conditions ≡ length late.status.conditions + 2)
    × (is_session_active 300 s ≡ is_session_active 300 late)
times_out_again_example =
    times_out_again hub-IsStore two_rounds 300 store late distinct (here refl) late_timed_out
      (omega arith) between
