-- ===== src/Http.antt =====
-- What a handler answers: the status code, and the JSON body that it writes, if any.
use telekom_k8s_breakglass.Prelude.{ℕ, Bool, List, Str}
use telekom_k8s_breakglass.Api.Session.{Session}
use telekom_k8s_breakglass.Api.Escalation.{Escalation}

pub data Body : Type 0 where
  empty : Body
  text : Str → Body
  -- `gin.H{"error": …}`, with `"session"` in the second
  problem : Str → Body
  conflict : Str → Session → Body
  one : Session → Body
  many : List Session → Body
  escalations : List Escalation → Body
  names : List Str → Body
  -- `gin.H{"valid": false}`
  invalid : Body
  -- `gin.H{"canApprove": …, "alreadyActive": …, "valid": …}`
  token_check : Bool → Bool → Bool → Body

pub record Response : Type 0 where
  pub code : ℕ
  pub body : Body

-- `c.Status(code)`
abbrev pub status : ℕ → Response
status code = record { code = code; body = Body.empty }

-- `c.JSON(code, body)`
abbrev pub json : ℕ → Body → Response
json code body = record { code = code; body = body }
