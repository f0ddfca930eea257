-- ===== src/Mail/Templates.antt =====
-- pkg/mail/templates.go: the templates and the functions that render them. The parser and the execution
-- of html/template are parameters, and so are the contents of the embedded files.
use telekom_k8s_breakglass.Prelude.{List, [], ◌∷◌, Str, Option, none, some, Result, ok, err}

pub record RequestMailParams : Type 0 where
  pub subject_full_name : Str
  pub subject_email : Str
  pub requested_role : Str
  pub url : Str
  pub branding_name : Str

pub record ApprovedMailParams : Type 0 where
  pub subject_full_name : Str
  pub subject_email : Str
  pub requested_role : Str
  pub approver_full_name : Str
  pub approver_email : Str
  pub branding_name : Str

pub record RequestBreakglassSessionMailParams : Type 0 where
  pub subject_email : Str
  pub subject_full_name : Str
  pub requested_cluster : Str
  pub requested_username : Str
  pub requested_group : Str
  pub url : Str
  pub branding_name : Str

-- The package's variables.
pub data Template : Type 0 where
  request_template : Template
  approved_template : Template
  breakglass_session_template : Template
  breakglass_notification_template : Template

-- The `any` that `render` is called with.
pub data MailParams : Type 0 where
  of_request : RequestMailParams → MailParams
  of_approved : ApprovedMailParams → MailParams
  of_breakglass_session : RequestBreakglassSessionMailParams → MailParams

-- init: each variable with the text of its file in this order; none is a panic.
module _ (raw : Template → Str) (parse : Template → Str → Result (Unit {0})) where
  pub parse_all : List Template → Option (Unit {0})
  parse_all [] = some tt
  parse_all (t ∷ ts) =
      let rest = parse_all ts in elim (parse t (raw t)) [ err e ↦ none | ok _ ↦ rest ]

  pub init : Option (Unit {0})
  unfolding parse_all
  init = parse_all (
      request_template ∷ approved_template ∷ breakglass_session_template
      ∷ breakglass_notification_template ∷ [])

-- `execute` answers what it has written to the buffer, and its error, if any.
module _ (execute : Template → MailParams → Str × Option Str) where
  unfoldable pub render : Template → MailParams → Str × Option Str
  render t p = execute t p

  pub render_request : RequestMailParams → Str × Option Str
  unfolding render
  render_request p = render request_template (of_request p)

  pub render_approved : ApprovedMailParams → Str × Option Str
  unfolding render
  render_approved p = render approved_template (of_approved p)

  unfoldable pub render_breakglass_session_request :
      RequestBreakglassSessionMailParams → Str × Option Str
  unfolding render
  render_breakglass_session_request p = render breakglass_session_template (of_breakglass_session p)

  pub render_breakglass_session_notification : RequestBreakglassSessionMailParams → Str × Option Str
  unfolding render
  render_breakglass_session_notification p =
      render breakglass_session_template (of_breakglass_session p)
