-- ===== src/Session/Listing/Shown.antt =====
-- Which sessions GET /breakglassSessions shows.
use telekom_k8s_breakglass.Prelude.{
  Bool, true, false, not, ◌&&◌, ◌||◌, List, [], Str, keep, is_empty, str_eq, str_eq_iff, In,
  In-keep, keep-of_In, ok, ◌≡◌, ◌↔◌, refl, arith,
}
use telekom_k8s_breakglass.Api.Session.{Session}
use telekom_k8s_breakglass.Http.{Body, json}
use telekom_k8s_breakglass.Env.{Env, Context, lowered, get_email}
use telekom_k8s_breakglass.Approval.{is_session_approver}
use telekom_k8s_breakglass.Session.Listing.{
  StatusQuery, passes_state, asks_mine, queried_sessions, user_email, is_shown,
  handle_get_session_status,
}

for_approver :
    (a p : Bool) → (((false || a) && not (false && true) && p) ≡ true) ↔ ((a ≡ true) × (p ≡ true))
for_approver a p = (ground arith, ground arith)

for_requester :
    (e a p : Bool) → (((e || a) && not (true && not e) && p) ≡ true) ↔ ((e ≡ true) × (p ≡ true))
for_requester e a p = (ground arith, ground arith)

module _ {W : Type 0} (env : Env W) where
  -- The answer is the list of the shown sessions, in the order of the listing.
  Lists : Context → StatusQuery → W → List Session → Type 0
  Lists c q w out = handle_get_session_status env c q w ≡ json 200 (Body.many out)

  lists :
      (c : Context) (q : StatusQuery) (w : W) (all : List Session) (user : Str)
      → is_empty q.token ≡ true
      → queried_sessions env q w ≡ ok all
      → user_email env c q ≡ ok user
      → Lists c q w (keep (is_shown env c q user w) all)
  unfolding Lists handle_get_session_status
  lists c q w all user t e u = rw (handle_get_session_status, t, e, u) refl

  -- Without `mine=true`, also where the parameter is missing, GET /breakglassSessions answers with the sessions of the queried ones that the
  -- caller can approve and that pass the filter on the state, and no others: also the caller's own
  -- sessions are left out unless he can approve them.
  pub listed_for_approver :
      (c : Context) (q : StatusQuery) (w : W) (all : List Session)
      → is_empty q.token ≡ true
      → asks_mine q ≡ false
      → queried_sessions env q w ≡ ok all
      → (out : List Session) × (handle_get_session_status env c q w ≡ json 200 (Body.many out))
        × ((s : Session)
            → In s out ↔ (
                In s all
                × (is_session_approver env c s w ≡ true)
                × (passes_state (lowered env) env.now q.state s ≡ true)))
  unfolding Lists user_email is_shown
  listed_for_approver c q w all t m e =
      let u : user_email env c q ≡ ok [] = rw m refl in
      (
        keep (is_shown env c q [] w) all,
        lists c q w all [] t e u,
        λ s. (
          λ i.
              let (n, h) = In-keep (is_shown env c q [] w) all i in
              let (a, p) = (shown_iff s).0 h in (n, a, p),
          λ (n, a, p). keep-of_In (is_shown env c q [] w) all n ((shown_iff s).1 (a, p)),
        ),
      )
    where
      shown_iff :
          (s : Session)
          → (is_shown env c q [] w s ≡ true) ↔ (
              (is_session_approver env c s w ≡ true)
              × (passes_state (lowered env) env.now q.state s ≡ true))
      shown_iff s = rw m (for_approver (is_session_approver env c s w) _)

  -- With `mine=true`, GET /breakglassSessions answers a caller who has an email with the sessions of the
  -- queried ones that are his and that pass the filter on the state, and no others.
  pub listed_for_requester :
      (c : Context) (q : StatusQuery) (w : W) (all : List Session)
      → is_empty q.token ≡ true
      → asks_mine q ≡ true
      → is_empty c.email ≡ false
      → queried_sessions env q w ≡ ok all
      → (out : List Session) × (handle_get_session_status env c q w ≡ json 200 (Body.many out))
        × ((s : Session)
            → In s out ↔ (
                In s all
                × (s.spec.user ≡ c.email)
                × (passes_state (lowered env) env.now q.state s ≡ true)))
  unfolding Lists user_email is_shown get_email
  listed_for_requester c q w all t m ne e =
      let u : user_email env c q ≡ ok c.email = rw (m, get_email, ne) refl in
      (
        keep (is_shown env c q c.email w) all,
        lists c q w all c.email t e u,
        λ s. (
          λ i.
              let (n, h) = In-keep (is_shown env c q c.email w) all i in
              let (a, p) = (shown_iff s).0 h in (n, a, p),
          λ (n, a, p). keep-of_In (is_shown env c q c.email w) all n ((shown_iff s).1 (a, p)),
        ),
      )
    where
      shown_iff :
          (s : Session)
          → (is_shown env c q c.email w s ≡ true)
            ↔ ((s.spec.user ≡ c.email) × (passes_state (lowered env) env.now q.state s ≡ true))
      shown_iff s =
          let test = for_requester (str_eq s.spec.user c.email) (is_session_approver env c s w) in
          rw (m, ne)
            (
              λ h. let (a, p) = (test _).0 h in ((str_eq_iff _ _).0 a, p),
              λ (a, p). (test _).1 ((str_eq_iff _ _).1 a, p),
            )
