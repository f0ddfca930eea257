-- ===== src/Webhook.antt =====
-- pkg/webhook/controller.go: the authorization webhook. Its parts are in the modules below:
-- the reason texts, the user's sessions, the deny policies, the session access reviews, the handler.
pub mod Reason
pub mod Env
pub mod Sessions
pub mod Impersonate
pub mod Authorize
pub mod Granted
