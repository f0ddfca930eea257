-- ===== src/Session/Request/Notice/Recipients.antt =====
-- Who gets the mail of a request.
use telekom_k8s_breakglass.Prelude.{
  false, List, [], ◌∷◌, Str, codes, str_eq, In, In-cons, here, there, not_In-nil, In-append,
  append-of_In, append-of_In_right, Option, none, some, ok, ◌≡◌, ◌↔◌, inl, inr, refl, ap,
}
use telekom_k8s_breakglass.Api.Session.{Session}
use telekom_k8s_breakglass.Api.Escalation.{Escalation}
use telekom_k8s_breakglass.Http.{Body, json}
use telekom_k8s_breakglass.Env.{Env, Context, get_username, email_or_empty}
use telekom_k8s_breakglass.Escalations.{get_cluster_group_escalations}
use telekom_k8s_breakglass.Mail.{Message, message}
use telekom_k8s_breakglass.Mail.Templates.{
  render_breakglass_session_request, breakglass_session_template, of_breakglass_session,
}
use telekom_k8s_breakglass.Session.Request.{SessionRequest, requester_groups}
use telekom_k8s_breakglass.Session.Request.Admitted.{Admits}
use telekom_k8s_breakglass.Session.Request.Create.{handle_request}
use telekom_k8s_breakglass.Session.Request.Create.Outcome.{request_created}
use telekom_k8s_breakglass.Session.Request.Notice.{
  Mailer, possible_approvers, created_of, created_session, request_params, request_subject,
  send_on_request_email, notify, recipients, handle_request_notified,
}

possible_approvers_iff :
    (ps : List Escalation) (u : Str)
    → In u (possible_approvers ps)
      ↔ ((esc : Escalation) × In esc ps × In u esc.spec.approvers.users)
unfolding possible_approvers
possible_approvers_iff ps u = (listed ps, of_listed ps)
  where
    listed :
        (ps : List Escalation)
        → In u (possible_approvers ps)
        → (esc : Escalation) × In esc ps × In u esc.spec.approvers.users
    listed [] m = not_In-nil m
    listed (p ∷ ps) m = elim (In-append p.spec.approvers.users (possible_approvers ps) m) [
      | inl k ↦ (p, here refl, k)
      | inr k ↦ let (esc, n, k') = listed ps k in (esc, there n, k')
    ]

    of_listed :
        (ps : List Escalation)
        → (esc : Escalation) × In esc ps × In u esc.spec.approvers.users
        → In u (possible_approvers ps)
    of_listed [] (esc, m, k) = not_In-nil m
    of_listed (p ∷ ps) (esc, m, k) = elim (In-cons m) [
      | inl e ↦
          append-of_In p.spec.approvers.users (possible_approvers ps)
            (rw (ap (λ (x : Escalation). x.spec.approvers.users) e) k)
      | inr n ↦
          append-of_In_right p.spec.approvers.users (possible_approvers ps)
            (of_listed ps (esc, n, k))
    ]

module _ {W : Type 0} (env : Env W) (c : Context) (request : SessionRequest) (w : W) where
  -- The escalations that are open to the requester on the cluster.
  abbrev pub IsPossible : List Escalation → Type 0
  IsPossible possible =
      (groups : List Str) × (requester_groups env c request w ≡ ok groups)
      × (get_cluster_group_escalations env.kube env.config request.cluster groups w ≡ ok possible)

module _ {W : Type 0} (env : Env W) (mailer : Mailer W) (c : Context) (request : SessionRequest)
    (w : W) where
  recipients-possible :
      (possible : List Escalation)
      → IsPossible env c request w possible
      → recipients env mailer c request w ≡ possible_approvers possible
  unfolding recipients
  recipients-possible possible (groups, g, p) = rw (recipients, g, p) refl

  email-sent :
      (bs : Session) (body : Str)
      → mailer.execute breakglass_session_template
          (of_breakglass_session (request_params env mailer bs (email_or_empty c) (get_username c)))
        ≡ (body, none)
      → (approvers : List Str) (w' : W)
      → send_on_request_email env mailer bs (email_or_empty c) (get_username c) approvers w'
        ≡ mailer.dial_and_send mailer.sender.dialer
            (message mailer.sender approvers (request_subject env mailer bs) body)
            w'
  unfolding send_on_request_email
      telekom_k8s_breakglass.Mail.Templates.render_breakglass_session_request
      telekom_k8s_breakglass.Mail.Templates.render telekom_k8s_breakglass.Mail.send
  email-sent bs body rendered approvers w' =
      let r : render_breakglass_session_request mailer.execute
            (request_params env mailer bs (email_or_empty c) (get_username c))
          ≡ (body, none) =
        rendered in
      rw (send_on_request_email, r, ap (λ (x : Str × Option Str). x.0) r) refl

  -- A request that is answered with 201 and the session `bs`, with the mail switched on and its template
  -- rendered: the handler with the mail gives the same answer, whatever becomes of the mail, and hands
  -- exactly one message to the dialer. Its hidden recipients are the approver users of the escalations
  -- that are open to the requester on the cluster, whatever group they grant; the approver users of an
  -- escalation by which the request is admitted are among them.
  pub request-mailed :
      (bs : Session) (body : Str)
      → (handle_request env c (ok request) w).0 ≡ some (json 201 (Body.one bs))
      → str_eq mailer.disable_email (codes "1") ≡ false
      → mailer.execute breakglass_session_template
          (of_breakglass_session (request_params env mailer bs (email_or_empty c) (get_username c)))
        ≡ (body, none)
      → (m : Message) × (handle_request_notified env mailer c (ok request) w ≡ (
        some (json 201 (Body.one bs)),
        (mailer.dial_and_send mailer.sender.dialer m (handle_request env c (ok request) w).1).1,
      ))
        × (m.body ≡ body)
        × ((possible : List Escalation) × IsPossible env c request w possible
            × ((u : Str)
                → In u m.bcc
                  ↔ ((esc : Escalation) × In esc possible × In u esc.spec.approvers.users)))
        × ((esc : Escalation) × Admits env c request w esc
            × ((u : Str) → In u esc.spec.approvers.users → In u m.bcc))
  unfolding handle_request_notified notify created_session created_of
  request-mailed bs body created enabled rendered =
      let ((esc, a), _) = request_created env c request w bs created in
      let (groups, g, (possible, p, within)) = a.open_to in
      let sent = recipients-possible possible (groups, g, p) in
      let listed = λ (u : Str). possible_approvers_iff possible u in
      (
        message mailer.sender (recipients env mailer c request w) (request_subject env mailer bs)
            body,
        rw (created, enabled, email-sent bs body rendered) refl,
        refl,
        (possible, (groups, g, p), λ u. rw sent (listed u)),
        (esc, a, λ u m. rw sent ((listed u).1 (esc, within, m))),
      )
