-- ===== src/Lib.antt =====
-- godxfeed streams market data. A service dials dxLink, a websocket feed, with a token that it gets
-- from tastytrade, keeps a set of (event, symbol) subscriptions on that connection, and publishes
-- every event that arrives to NATS, on a subject of its own for each subscription. An HTTP server
-- changes the subscriptions, one by one or from a sentence that a language model turns into a filter.
--
-- Files and what they are about, with the paths of the repository:
-- - Common: what the parts share. Common/Outcome has Go's errors, Common/Dict its maps, Common/Text its
--   package strings, Common/Sort its sort.Slice, Common/Dates its time.Parse for days, Common/Int64
--   its int64, Common/Floats what is used of float64.
-- - Subject: SubjectFor of service/ingress.go.
-- - Subscriptions: service/subscriptions.go. A method of SubscriptionManager takes the manager and
--   returns it changed with its error. The manager also carries the calls it made of its
--   FeedController, newest first; the controller is a function from those calls and the arguments to
--   an error or nil. Subscriptions/Wire reads from the calls what a dxLink server is subscribed to,
--   Subscriptions/History takes any sequence of calls, and Subscriptions/Interleaving cuts Add, BulkAdd,
--   Remove and Rebind at their locks, for calls from several goroutines.
-- - Dxclient: dxclient/message.go, dxclient/client.go and dxclient/handlers.go. What a connection
--   brings is a list of events: messages, its death, the timer of the call that waits. A call that
--   waits is its handler run over that list; where the list ends, the call still waits.
--   Authenticate also has what happens between the registration of its handler and its select, where
--   the verdict and the death of the connection race; the other calls stand in their select when the
--   first event comes.
--   Dxclient/Transport has Send, writeForever and the end of readForever once more, as a step relation
--   on the goroutines of a client: a step is one of a goroutine, or two that meet at a channel.
--   Dxclient/Dispatch does the same for the loop of readForever, the goroutines that it starts for the
--   handlers, and the calls that wait for a verdict of theirs.
--   Dxclient/Client/Keepalive has the goroutine of Dial; its interval is an int that wraps around.
--   Dxclient/Event has the structs of dxclient/event.go, which nothing else uses.
-- - Ingress: the rest of service/ingress.go and runIngressLoop of service/service.go.
-- - Backoff: service/backoff.go.
-- - Service: service/service.go. Service/Connect has dialAndSubscribe and StartIngress,
--   Service/Reconnect the reconnect loop and its goroutine, Service/Symbols the REST calls.
-- - StreamerToken, Oauth: service/streamer_token.go, service/oauth.go.
-- - Api: the records of service/api/api.go.
-- - Resolver: service/llm/resolver.go and the filter of service/llm/provider.go.
-- - Http: http/. A handler takes a request and the service and returns the service and a reply.
--   Http/Auth has the authorizers, Http/Routes the table of routes.
-- - Prompt, Exchange, Providers: Extract of service/llm/anthropic.go, openai.go and gemini.go: the
--   body of the request with the prompt and the schema of provider.go, the exchange over HTTP, and the
--   reading of the response. Providers/Reply says independently what a reply is and what it carries.
-- - Gemini: the rewriting of the schema in service/llm/gemini.go.
-- - NatsAuth: service/nats_auth_service.go, the set-up, and from the request of NATS to the response.
-- - Sinks: service/analytics/ and EnsureQuotesStream of service/jetstream.go. The rows that the sink
--   has stored are a list, newest first.
--   Sinks/Delivery is what NATS hands over of the publications of Ingress, at most once and in order.
-- - EnvFile: upsertEnv of cmd/godxfeed/admin.go on the text of a file, and requireFlags of
--   cmd/godxfeed/validate.go.
-- - Cli: cmd/godxfeed/services.go, data.go and, in Cli/Tokens, admin.go; Cli/Flags has the table of
--   commands in main.go. The flags are functions from names to values; what the
--   program meets when it starts is the record Host of Cli/Startup. Cli/Registry has buildLLMRegistry.
--   serve_http calls setupService and StartIngress, and passes the service, the language models and
--   the sinks to RunHTTPServer, whose routes are in Http/Routes.
-- - Examples: the theorems at concrete values.
--
-- Loops are structural recursion. The loops of the source that do not end by themselves, the
-- reconnect loop, its goroutine and the ingress loop, run over a list of what the world does: the
-- rounds of the backoff, the connections, the messages. Where the list ends, the code waits, and the
-- result says so; the lists are of any length, so nothing is cut off. normalizeForGemini recurses on a
-- fuel that geminiSchema takes as the number of the objects in the schema, plus one.
--
-- Parameters are the websocket, encoding/json, the HTTP client, NATS, the database, the package
-- that parses flags, the JWT library, gorilla's CORS, templates, the language models, and the case
-- tables of package unicode beyond ASCII. What is asked of them is a named hypothesis: that CORS
-- answers by itself or passes a request on (IsCors), that floats which are not NaN are ordered as
-- IEEE 754 says (IsOrdered), that a subscription to godxfeed.quote.> gets only subjects with these tokens
-- (IsQuoteFilter), that encoding/json reads the same field the same way twice (IsCoherent) and
-- leaves a field empty that is not there (IsJson), and that a token which was just signed is
-- verified (IsJwt).
--
-- Not modelled: logging, the static files and the listening of the HTTP server, the mock server, and
-- the generated database code.
-- Strings are read as texts, and times are nanoseconds since 1970.
mod Common
pub mod Subject
pub mod Subscriptions
pub mod Dxclient
pub mod Ingress
pub mod Backoff
pub mod Api
pub mod Service
pub mod StreamerToken
pub mod Oauth
pub mod Resolver
pub mod Http
pub mod Examples
pub mod NatsAuth
pub mod EnvFile
pub mod Gemini
pub mod Providers
pub mod Prompt
pub mod Exchange
pub mod Sinks
pub mod Cli
