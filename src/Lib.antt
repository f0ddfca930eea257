-- ===== src/Lib.antt =====
-- The core of k8s-breakglass: temporary privileged access to Kubernetes clusters. Users request a
-- session for a group of an escalation (BreakglassEscalation), approvers decide on it, and an
-- authorization webhook lets the API servers of the target clusters ask whether a user may do
-- something through a running session (BreakglassSession), unless a DenyPolicy forbids it.
--
-- The parts and where they are modelled:
-- * Api/ has the resources of api/v1alpha1: BreakglassSession (Api/Session), BreakglassEscalation
--   (Api/Escalation), DenyPolicy (Api/Policy) and ClusterConfig (Api/Cluster).
-- * Policy models pkg/policy/deny.go: scopeMatches, ruleMatches, contains, matchAny, and Match over a
--   listing of the policies. Policy/Rules, Policy/First and Policy/Scope have its proofs.
-- * Names models toRFC1123Subdomain and toRFC1123Label of pkg/breakglass/session_controller.go.
-- * Kube is the client of the hub cluster, a parameter: reads look at a state of any type, writes
--   return the state after them, also when they fail.
-- * Escalations models pkg/breakglass/escalation_manager.go and stripOIDCPrefixes of
--   pkg/breakglass/group_checker.go.
-- * Env is what a handler works with (client, clock, injected functions) and the request's context, with
--   GetEmail and GetUsername of pkg/breakglass/identity_provider.go; Http is what a handler answers.
-- * Approval models isSessionApprover of pkg/breakglass/session_controller.go.
-- * Session has the tests on a status and the durations; Session/Manager models
--   pkg/breakglass/session_manager.go, Session/Review setSessionStatus (handleApproveBreakglassSession
--   and handleRejectBreakglassSession), Session/Owner handleWithdrawMyRequest and handleDropMySession,
--   Session/Cancel handleApproverCancel, Session/Request and Session/Request/Create
--   handleRequestBreakglassSession with getActiveBreakglassSession, and Session/Request/Notice its end
--   with sendOnRequestEmail. Session/Lifecycle is the abstract life of a session, a step
--   relation on its status, which the handlers refine.
-- * Session/Endpoints composes the middleware of Auth with the handlers of the endpoints on one session,
--   as Register and Handlers of pkg/breakglass/session_controller.go do.
-- * Kube/Store states what a hub that stores sessions does, as a hypothesis; Tasks/Settled describes a
--   round of the periodic task over such a hub, Webhook/Granted what the endpoints mean for the webhook,
--   Session/Request/Create/Stored what a request leaves on the hub, and Webhook/Granted/Requested
--   composes the request, the approval and the webhook. Session/Uncounted is about the counters of
--   escalations.
-- * Tasks models the periodic task: pkg/breakglass/cleanup_task.go, expire_pending_sessions.go and
--   expire_approved_sessions.go in the same folder.
-- * Webhook models pkg/webhook/controller.go: the texts (Webhook/Reason), the user's sessions
--   (Webhook/Sessions), CanGroupsDo and authorizeViaSessions (Webhook/Impersonate), and
--   handleAuthorize (Webhook/Authorize). It uses Policy, Escalations and Session/Manager.
-- * Session/Listing models the list endpoints of pkg/breakglass/session_controller.go
--   (handleGetBreakglassSessionStatus with its approval link, handleGetBreakglassSessionByName and
--   handleListClusters), Escalations/Listing handleGetEscalations of
--   pkg/breakglass/escalation_controller.go, and Escalations/Possible pkg/breakglass/escalation.go.
-- * Members models pkg/breakglass/escalation_status_updater.go: the normalisation and comparison of
--   member lists, the Keycloak resolver with its cache (Members/Keycloak), and a run of the updater
--   (Members/Updater) over any resolver. Distinct is the loop that it shares with the token middleware.
-- * Clusters models the ClusterConfigs: pkg/cluster/cache.go (Clusters/Provider, with the states that it
--   reaches as a step relation in Clusters/Reached), and cluster_config_manager.go and
--   cluster_config_checker.go of pkg/breakglass (Clusters/Manager, Clusters/Checker).
-- * UserGroups models GetUserGroups of pkg/breakglass/group_checker.go and the getUserGroupsFn of
--   NewBreakglassSessionController, which uses Clusters/Provider; a handler has them as a field of Env.
-- * Validation models the admission validators of api/v1alpha1.
-- * Auth models the middleware of pkg/api/auth.go, which sets the identity in the request's context.
-- * Server models the routes, the public configuration and the OIDC proxy of pkg/api/api.go, Config
--   pkg/config/config.go, Mail and Mail/Templates pkg/mail, and Events
--   pkg/breakglass/event_recorder.go.
-- * Startup models what cmd/main.go and NewAuth choose at the start; Startup/Noop composes the chosen
--   resolver with the updater.
-- * Indices models the field indices that cmd/main.go registers, and the interval of the ClusterConfig
--   checker; Indices/Exact relates the look-ups of Escalations to them.
-- * Prelude has the shared names and lemmas, Tests the concrete inputs.
--
-- How the code is rendered. A handler is a function from the state of the cluster to its answer and
-- the state after it; a Go error is a value of Result with its message. A string is a list of code
-- points, a metav1.Time is a number of nanoseconds since the zero time, and a duration an integer.
-- A pointer field that may be nil is an Option. A handler's run reads the clock once; a round of
-- the periodic task reads it once in each of its parts. A map that the code reads back in an
-- unspecified order is read in the order of insertion. The managers and providers that the
-- constructors set are taken as present. A panic is an answer of its own. The loops over doubled
-- separators in Names run on fuel, the length of the text, which is enough; the three attempts of a
-- status update are counted down; decimal numerals run on the number plus one.
--
-- Not modelled: logs, metrics, and the events that handlers send; the text of an error that is only
-- logged, which is shortened; locks and tickers (a method of a cache runs alone, a periodic task is
-- one round); the set-up of the HTTP server and of the key set, and of the main function all but
-- its choices, which is wiring; pkg/api/spa.go, a copy of a library; and the generated deep copies.
-- The Kubernetes clients, the HTTP client, the JSON and YAML decoders, the escaping of net/url,
-- token verification, filepath.Match, html/template, the dialer of gomail, time.ParseDuration, rune
-- lowercasing, strings.EqualFold and the verb %q are parameters.
pub mod Prelude
pub mod Api
pub mod Policy
pub mod Names
pub mod Kube
pub mod Escalations
pub mod Env
pub mod Approval
pub mod Http
pub mod Distinct
pub mod Members
pub mod Clusters
pub mod Validation
pub mod Auth
pub mod UserGroups
pub mod Server
pub mod Events
pub mod Mail
pub mod Config
pub mod Indices
pub mod Session
pub mod Tasks
pub mod Webhook
pub mod Startup
pub mod Tests
