-- ===== src/Lib.antt =====
-- CodeForge (github.com/freema/codeforge): the sessions of a service that runs coding agents.
--
-- A session is created by a request, worked on by a worker, instructed again, reviewed and turned
-- into a pull request. Its state lives in a Redis hash; SQLite keeps a copy behind it.
--
--   Apperror            internal/apperror/errors.go: error values and their HTTP statuses
--   Session.Status      internal/session/state.go: the statuses and the table of transitions;
--                       Status.Graph: the diagram as a relation
--   Session.Model       internal/session/model.go: the records
--   Session.World       the Redis keys and the SQLite rows that the service touches, the outages to
--                       come, and the monad of its operations; Rules and Statuses: how to reason
--                       about them
--   Session.Sqlite      internal/session/sqlite_store.go: the statements on the table `sessions`;
--                       Rfc3339: the order of its times; Sqlite.Rows: what is saved and listed
--   Session.Service     internal/session/service.go: hashes, requests, prompts
--   Session.Creating    internal/session/service.go: Create
--   Session.Loading     internal/session/service.go: Get
--   Session.Operations  internal/session/service.go: the other operations; Safety: what they leave of
--                       the statuses; Effects: what they do;
--                       Creation: Create and Get; Moves: UpdateStatus for its callers
--   Session.PrPlan      internal/session/pr_service.go: the requests and answers of pull requests, and
--                       what CreatePR asks of git and of the provider
--   Session.PrService   internal/session/pr_service.go: CreatePR, PushToPR and GetPRStatus over the
--                       answers of git and of the provider, a parameter; Safety, Outcomes and
--                       FollowUps: what they leave
--   Session.Trace       the service's operations as one type of events
--   Worker.Pool         internal/worker/pool.go: the queue, the processing list and their recovery
--                       (Pool.Recovery)
--   Worker.Sweeper      internal/worker/sweeper.go: the failing of stuck sessions
--   Worker.Executor     internal/worker/executor.go: the workspace and the ends of a failed step
--                       (Endings), the timeouts, in Executor.Run the run of a session, and in
--                       Executor.Prompt the prompt of a run and the retries of its clone
--   Worker.Trace        the system as a history of requests, worker rounds, restarts and sweeps
--   Review.Parser       internal/review/parser.go: a review in what an agent prints; Objects: what
--                       the heuristic cuts out; Normal: what every parsed review has
--   Server.RateLimit    internal/server/middleware/ratelimit.go: the limiter of requests; Log: the
--                       limiter against the full log
--   Tenant              internal/tenant: tenants with their limits, the log of usage, and in
--                       Tenant.KeyPool the weighted pick of a key
--   Session.Listing     internal/session/service.go and sqlite_store.go: List; Pages: what it shows
--   Server.Auth         internal/server/middleware/auth.go and tenant.go: who a request comes from;
--                       Identity: whom it is taken for
--   Server.Http         handlers as programs that may answer at any point
--   Server.Sessions     internal/server/handlers/sessions.go: the limits of a tenant; Handlers: the
--                       routes and the guard of a tenant's sessions; PullRequests: the routes of
--                       pull requests; Checks, Limits and Ownership: what a tenant reaches;
--                       Calm: that the limits only read
--   Server.Webhooks     internal/server/handlers/webhook_receiver.go: the events of GitHub and
--                       GitLab; Receiver: the routes and their signatures; Commands and
--                       Comments: the commands in comments; Dedup, Signed and Reviews: what
--                       deliveries and commands do
--   Workspace           internal/workspace: the directories of sessions; Cleaner: the rounds that
--                       remove them; Giving, Keeping, Contained and Spared: what these leave
--   Git.Diff            internal/tool/git/diff_lines.go and diff.go: patches (Hunks), the pages of a
--                       pull request's files (Pages) and the counts of changes
--   Git.Provider        internal/tool/git/provider.go: repositories by their URLs (Names)
--   Slug                internal/slug/slug.go: readable names, and their shape (Slug.Shape)
--   Keys                internal/keys: tokens in SQLite (Keys) and in the Environment, and their
--                       Resolver; Stored: how they are kept; Order: how they are looked for
--   Crypto              internal/crypto: secrets as they are stored, and the law that the clients of
--                       a cipher assume, from the one of AES-GCM
--   Schedule            internal/schedule: sessions that recur; Leaving and Rounds: what the
--                       scheduler makes of their table
--   Tools               internal/tools: the catalog (Catalog), the table of tools (Registry), the
--                       tools of a session (Resolver) and the servers that are made of them; Filled
--                       and Supplied: what these are given; Lasting and Seeded: what the table keeps
--   Action              cmd/codeforge-action: the action for CI; Context: what a job knows of itself;
--                       Executor: its run; Exit: its exit code; Outputs and Reading: the variables
--                       that it leaves
--   *.Tests             the theorems at concrete sessions
--
-- Every round trip to Redis or SQLite takes its answer from a list of faults of the World, so the
-- theorems on any World hold for any outages. A Redis pipeline is one such call: it is done as a
-- whole or not at all. The clock stands still within an operation.
--
-- The loops run over lists: the processing list at a restart, the listed sessions of a sweep, the
-- rows of the table. Fuel is given to a number's digits, one more than the number,
-- and to the pages of a pull request's files, which end at the first page that is not full.
--
-- Values are not encoded: a hash keeps the records themselves, where the code keeps their JSON, and
-- a time is its nanoseconds. AES-GCM is a parameter. Not modelled, since they are I/O, texts
-- for people or tables that the status of a session does not depend on, are logging, metrics,
-- configuration, the transport of HTTP, the runners of the agents' programs, the commands of git
-- and the calls of its hosts, the streams of events, the webhooks and notices that are sent, and
-- the tables of workflows, of MCP servers and of iterations.
pub mod Prelude
pub mod Apperror
pub mod Session
pub mod Action
pub mod Crypto
pub mod Git
pub mod Keys
pub mod Review
pub mod Schedule
pub mod Server
pub mod Slug
pub mod Tenant
pub mod Tools
pub mod Worker
pub mod Workspace
