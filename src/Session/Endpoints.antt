-- ===== src/Session/Endpoints.antt =====
-- The endpoints of pkg/breakglass/session_controller.go that change a session, behind the middleware of
-- pkg/api/auth.go: the composition of Auth with the handlers.
pub mod Entitled
use telekom_k8s_breakglass.Prelude.{[], Str, codes, Option, none, some}
use telekom_k8s_breakglass.Http.{Response}
use telekom_k8s_breakglass.Env.{Env, Context}
use telekom_k8s_breakglass.Auth.{Identity, KeySet, Passage, next, aborted, middleware}
use telekom_k8s_breakglass.Session.Review.{handle_approve, handle_reject}
use telekom_k8s_breakglass.Session.Owner.{handle_withdraw, handle_drop}
use telekom_k8s_breakglass.Session.Cancel.{handle_approver_cancel}

-- The endpoints on one session that Register registers under POST.
pub data Action : Type 0 where
  approves rejects withdraws drops cancels : Action

-- The request's context after the middleware: its `c.Set`s, the path's `:name`, the body's `reason`.
unfoldable pub context_of : Option Identity → Str → Str → Context
context_of none name reason = record {
  email = [];
  username = [];
  groups = none;
  param_name = name;
  reason = reason;
}
context_of (some id) name reason = record {
  email = id.email;
  username = id.username;
  groups = id.groups;
  param_name = name;
  reason = reason;
}

module _ {W : Type 0} (env : Env W) where
  -- The handler of an endpoint.
  unfoldable pub endpoint : Action → Context → W → Response × W
  endpoint approves c w = handle_approve env c w
  endpoint rejects c w = handle_reject env c w
  endpoint withdraws c w = handle_withdraw env c w
  endpoint drops c w = handle_drop env c w
  endpoint cancels c w = handle_approver_cancel env c w

  -- What follows the middleware: `c.Abort` keeps the handler from running, `c.Next` runs it.
  unfoldable pub continue : Action → Str → Str → Passage → W → Response × W
  unfolding endpoint
  continue a name reason (next id) w = endpoint a (context_of id name reason) w
  continue a name reason (aborted r) w = (r, w)

  -- A POST on a session: Handlers puts the middleware before every handler.
  unfoldable pub serve :
      {J : Type 0} → KeySet J → Action → Str → Str → Str → J → W → (Response × W) × J
  unfolding continue
  serve keys a header name reason j w =
      let (passage, j') = middleware keys (codes "POST") header j in
      (continue a name reason passage w, j')
