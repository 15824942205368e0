-- ===== src/Lib.antt =====
-- phlox-gw is a gateway in front of providers of language models. A client calls it with an API key
-- and the name of a model; the gateway resolves the name to candidates, checks the allowlist, the
-- budgets and the rate limits of the caller, calls the candidates in order with retries, feeds the
-- circuit breaker of each provider with the outcomes and writes a usage record for each call, from
-- which the next checks are answered.
--
-- The parts, by the directories of the repository:
--   Store    internal/store. Store.Types has the rows (models.go, providers.go, users.go, apikeys.go,
--            budgets.go, ratelimits.go, usage.go, requestlog.go) and the database Db, one list of
--            rows per table. Store.Clock and Store.Calendar are the times as text of helpers.go and
--            monthBounds of usage.go; Store.Lists the lists as text of helpers.go; Store.Models,
--            Store.Providers, Store.Users, Store.ApiKeys, Store.Budgets, Store.RateLimits and Store.Usage the operations, each
--            a function from a Db to a Result. SQL statements are read as the list functions of
--            Store.Table: UPDATE, DELETE, the first row of a query, ORDER BY. Store.Accounts and
--            Store.Catalog are steps by these operations, on users with their keys and on providers
--            with their models; the operations check what the schema asks of the tables' keys.
--   Gateway  internal/httpapi. Gateway.Health is recordProviderOutcome and providerCircuitOpen;
--            Gateway.Policy the checks of policy.go and checkRouteAdmission; Gateway.Routing
--            the plan of routing.go with its weights, fallbacks, retries and timeouts;
--            Gateway.Execution the loops that call its candidates, over what is outside the process
--            (the record Outside: clock, random ids, answers of providers); Gateway.Usage the rows
--            that are written after each call; Execution.Trace states which calls may follow which,
--            with what is left to call, and Execution.Frame what the records of calls leave alone; Gateway.Rules and Gateway.Guardrails, with its
--            Values and Bodies, are guardrails.go, over JSON values (Gateway.Json) and a package regexp that is
--            given; Gateway.Handlers has the two handlers of gateway.go, from the guardrails to the
--            reply; Gateway.BetaHeaders is beta_headers.go. Gateway.Bridge is
--            bridge_openai_anthropic.go: Bridge.Messages, Bridge.Turns and Bridge.Requests the body of
--            a chat completion as a body of the Messages API, Bridge.Answers and Bridge.Calls the
--            answer and the call, Bridge.Retries the retries without rejected parameters (on fuel: the
--            loop of proxyOpenAIViaAnthropicStream ends after three rounds), Bridge.Events,
--            Bridge.Pieces and Bridge.Stream the event stream. Gateway.Reverse is
--            bridge_anthropic_openai.go: Reverse.Messages and Reverse.Requests the body of the Messages
--            API as a chat completion, Reverse.Answers the answer and the call, Reverse.Events,
--            Reverse.Blocks and Reverse.Stream the event stream, in which an int is a block's
--            index from 0 or none. Gateway.Fields has the access to maps, Gateway.Flows the loops
--            that write a stream.
--            Gateway.Sessions is who is let through, of middleware.go and auth.go, with Sessions.Logins,
--            Sessions.Revocation and Sessions.Keys on tokens and keys, and Sessions.Oidc the user of
--            verified OpenID Connect claims.
--   Auth     internal/auth: the signed tokens of sessions (auth.go), over the packages hmac, base64
--            and json, which are given.
--   Common   what they share: Boolean tests, lists, signed integers over the native numbers, and the
--            functions of the Go library on text that the source uses (TrimSpace, Fields, FieldsFunc,
--            Cut, Join, Atoi), over the bytes of a string.
--   Tests    sample rows, the runs of the definitions on them, and the uses of the theorems.
-- The checks of Gateway.Policy read the store through the record PolicyStore, whose operations may
-- fail; Gateway.Policy.Database fills it with the operations of the store.
--
-- Choices. A string is a list of bytes. An int is a signed integer without bound, where the source
-- only compares and counts; it wraps at 64 bits where a product or sum of stored values can reach the
-- bound (the sum of weights, the nanoseconds of a timeout). Money is a whole number of millionths of
-- a dollar, the unit that the source rounds costs to, and percentages of warnings are in the same
-- unit; the ratio of spend and budget that the source shows beside them is left out. A
-- time is a count of seconds from 1970 and of nanoseconds; a check reads the clock once, where the
-- source reads it for each statement. Random numbers, fresh ids and the answers of providers are
-- arguments. The database compares text by its bytes. Functions that print a number take as many
-- steps as the number, which is more than its digits.
--
-- Not modelled: SQL errors other than through PolicyStore, the HTTP server, the
-- exchange and the cookies of OpenID Connect, the admin pages and their summaries, the translation to Bedrock, the copying of streams that are not translated,
-- configuration, telemetry and the seeding of demo data: they are I/O, display, or code of other packages.
pub mod Common
pub mod Store
pub mod Auth
pub mod Gateway
mod Tests
