-- ===== src/Lib.antt =====
-- Verification of the M365-Copilot2API gateway: an HTTP server (internal/web) that offers the OpenAI
-- and Anthropic protocols on top of Microsoft 365 Copilot chats (internal/chathub), with several
-- Microsoft accounts (internal/auth), outbound proxies (internal/outbound) and MCP tools
-- (internal/mcp).
--
-- How the parts interact. A request is authenticated by an API key (Keys), its tool messages are
-- checked (ToolProtocol) and summed up (Ledger), the session that it continues is looked up
-- (Sessions, UserSessions), and its messages are cut to the context budget (Budget). An account of
-- the store (Accounts) is picked that is available (Health) and below its limit of concurrent
-- calls (Concurrency); the call runs on a connection that is kept ready (Parked) through a proxy
-- of the pool (Proxies). A failure is classified (Upstream), counted by the circuit that all
-- accounts share (Circuit) and parks the account for the cooldown of its category (Health), and
-- another account is looked for (Failover); the client sees the status of Responses. Tool calls
-- that the model made are checked against the declared tools before the client sees them
-- (ToolCalls), and the turn is recorded in the session. Tool calls of MCP wait in a queue for the
-- client (ToolQueue). Conversations are cleaned up by mode (Conversations) and in the background,
-- where those that sessions and users still use are spared (AutoCleanup), and stores are written
-- by flushes that run beside their changes (Persistence); each request leaves a usage record
-- (Usage). The administrator logs in behind a limit on failures by address (LoginGuard).
--
-- Files and code:
--   Base, Dict, Text   shared: Boolean tests, lists and moments over native numbers, Go's maps, and
--                      trimming and lower case of texts as comparisons with ASCII words see them.
--   Messages           oaiMsg of internal/web/server.go, as far as the modelled code reads it.
--   Upstream           error types, categories and cooldowns of internal/web/account_health.go,
--                      internal/web/errors.go and internal/chathub/client.go. Upstream/Classify is
--                      ClassifyError without the circuit.
--   Circuit            globalCircuitState of internal/web/account_health.go: is_open, record_result
--                      are IsOpen, Record; classify is ClassifyError, which asks the circuit.
--   Responses          upstreamStatus and IsRetryable of internal/web/errors.go, with IsRateLimited and
--                      IsAuthFailure of internal/web/account_health.go.
--   Health             accountHealth of the same file, a record of maps. Health/Failures has MarkFailure
--                      and MarkSuccess, Health/Queries the questions that schedulers ask.
--   Concurrency        accountConcurrency of internal/web/account_concurrency.go. acquire is one round
--                      of Acquire, none where it waits; a lease is the release function of one call.
--   ToolProtocol       validateToolConversation of internal/web/tool_state.go.
--   Budget             slidingWindow and the atoms of internal/web/context_budget.go, with the heuristic
--                      counter of internal/web/codex_usage.go.
--   Proxies            Pool of internal/outbound/pool.go and Check of internal/outbound/health.go;
--                      Proxies/Mark has mark, Proxies/Replay has RoundTrip.
--   Keys               apiKeyStore of internal/web/keys.go, with flushNowBlocking of
--                      internal/web/persist.go.
--   Ledger             buildAgentLedger, CanContinue and activeMessages of internal/web/agent_ledger.go.
--   Persistence        persistStore of internal/web/persist.go, as a step relation of its sections.
--   Conversations      conversationManager of internal/web/conversation_manager.go.
--   Sessions           sessionResolver of internal/web/session_resolver.go. Sessions itself has the map,
--                      its index and eviction, Sessions/Matching the comparison of histories,
--                      Sessions/History cloneMessages, Sessions/Resolving Resolve, Sessions/Recording
--                      Bind and Sessions/Listing the lists.
--   UserSessions       sessionStore and userSessionStore of internal/web/sessions.go.
--   AutoCleanup        autoCleanupOnce of internal/web/auto_cleanup.go, over Conversations, Sessions and
--                      UserSessions.
--   Json               values of encoding/json and the type assertions on them.
--   ToolCalls          validateJSONSchema of internal/web/tooldecision.go; ToolCalls/Detected has
--                      validateDetectedToolCalls of internal/web/toolloop.go.
--   Accounts           Store of internal/auth/cache.go; Accounts/Secrets has the saved form and
--                      Accounts/Refreshing the sections of refreshInflight.
--   Failover           nextHealthyAccount of internal/web/server.go and accountAvailable of
--                      internal/web/account_concurrency.go, over Accounts, Health and Concurrency.
--   LoginGuard         loginAllowed, recordLoginFailure and clearLoginFailures of
--                      internal/web/admin_security.go.
--   Usage              usageLog of internal/web/usage.go, its flushes as interleaved halves.
--   Parked             ConnPool of internal/chathub/connpool.go.
--   ToolQueue          ToolCallQueue of internal/mcp/queue.go.
--
-- Conventions. A method that holds a lock is one step, so an interleaving is a list of events;
-- where the code frees the lock between two halves (the operations on keys, a refresh, Warm of the
-- pool, a change and its markDirty), the halves are steps of their own, and the operations on keys
-- are also composed from them, for calls that nothing comes between. The clock is an argument, read
-- once for each step, in nanoseconds; 0 is the zero time. Durations that a product may wrap are 64-bit integers with the
-- wrap written out (Base/Int). Failures of files, transports and hash functions are arguments: a
-- Boolean, a function from attempts to outcomes, a function on texts. So are uuids, json.Marshal
-- and json.Unmarshal, the cipher of the refresh tokens, the answer of the token endpoint, and what
-- the cloud lists and deletes. Maps are association lists whose order nothing observes (Dict).
--
-- Bounds and fuel. The only fuel is that of Budget.group, the rounds of a loop that takes at least
-- one message a round; build_atoms gives it the number of messages, and the partition below shows
-- that this is enough, since no message is left over. Proxies.replay counts the rounds that the
-- code counts, at most three, AutoCleanup.rounds the hundred rounds of a cleanup, and
-- Failover.probes the sixteen rounds of a search. All other loops are structural.
--
-- Not modelled: HTTP handlers, streaming and rendering (internal/web/server.go, protocol_*.go,
-- stream.go, conversations.go and others), the reading of tool calls from model texts
-- (toolloop.go, fenced_tools.go, xml_tools.go), the cache of the last conversation of an account and
-- a model (conversation_cache.go), the SignalR conversation (internal/chathub/client.go), logins
-- (internal/auth/token.go, device.go), the pages of the usage log, MCP transports, settings and
-- the administration pages. The tiktoken counter, dialling and files belong to other libraries or
-- the system. UpdateThrottling, GetThrottling and Snapshot of accountHealth copy JSON values and
-- are left out, as are log lines everywhere, the loading of files but for the accounts, and
-- settings from the environment. Indexes of messages in the texts of errors are not kept. The
-- regular expressions of the ledger and its cut of long results are parameters.
pub mod Base
pub mod Text
pub mod Dict
pub mod Messages
pub mod Upstream
pub mod Circuit
pub mod Responses
pub mod Health
pub mod Concurrency
pub mod ToolProtocol
pub mod Ledger
pub mod Budget
pub mod Proxies
pub mod Keys
pub mod Parked
pub mod ToolQueue
pub mod Persistence
pub mod Conversations
pub mod Sessions
pub mod Json
pub mod ToolCalls
pub mod UserSessions
pub mod AutoCleanup
pub mod Accounts
pub mod LoginGuard
pub mod Usage
pub mod Failover
