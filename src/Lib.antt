-- ===== src/Lib.antt =====
-- The WhatsApp and Instagram gateway: Meta's webhooks come in, are checked, resolved to the inboxes
-- of one or more environments, and forwarded to each environment's URL, with retries and a
-- dead-letter queue.
--
-- Webhook/Guard (src/webhook/guards/meta-signature.guard.ts, and `verify` of
-- src/webhook/webhook.controller.ts) lets a request in. Webhook (src/webhook/webhook.service.ts)
-- reads the phone number id or the WABA id, takes the inboxes and starts a dispatch for each.
-- Dispatch (src/dispatch/dispatch-handler.service.ts) posts to the environment of an inbox.
-- MetaErrors/Extractor (src/meta-error-logs/meta-webhook-errors.extractor.ts) collects the errors
-- that a webhook carries. Ambiente (src/ambiente) is the registry of environments behind the Redis
-- cache that the dispatch reads. Inboxes (src/inbox) says which inbox a number or a WABA has in
-- which environment. Instagram (src/instagram-webhook) takes in the webhooks of a page and forwards
-- the raw body. Redirections (src/redirecionamentos-webhooks) sends a webhook to further URLs.
-- ApiKeys (src/api-keys) keeps the API keys and guards with them. DeadLetters (src/dead-letter) is
-- the table of the dead letters: their consumer on the queue, the pages of their list, their
-- removal and clean-up; Resend (src/resend/resend.service.ts) dispatches them again. Rabbit
-- (src/rabbitmq/rabbitmq.service.ts) consumes the queues: one acknowledgement or refusal for a
-- message, and the consumers' tags. MetaErrors/Logs (src/meta-error-logs) records what Meta
-- answered with an error, redacted. Wpp (src/wpp/wpp.service.ts) forwards requests and uploads to
-- Meta's Graph API and records its errors there; Uploads (the consumer
-- src/wpp-media-business-profiles/wpp-media-upload-consumer.service.ts) runs the queued uploads
-- over it and calls back. Flows (src/wpp-flow-callbacks, with
-- src/wpp-flows/wpp-flows-endpoint.service.ts in Flows/Endpoint) keeps the clients' URLs behind a
-- Redis cache and answers the encrypted requests of Meta's flows by them. Metrics
-- (src/sentry/sentry-metrics.service.ts) counts and measures in windows of a minute. Excecoes
-- (src/common/filters/global-exception.filter.ts over src/sentry/sentry.service.ts) reports, logs
-- and answers what is thrown in a request.
--
-- Json is a parsed JSON value and JavaScript's reading of it. Effects is what the services do to
-- the world outside: an operation is an `Exec`, a function from the calls made so far, latest
-- first, to its result and the calls with its own added. What is not this repository's code
-- (Prisma, Redis, RabbitMQ, axios, Node's crypto, `JSON.parse`, the configuration) is a field of a
-- record `Services`, whose answers may depend on every call before; a theorem that needs more of it
-- takes a record of its documented behaviour (`Answers`, `Sound`). Table is one table of the
-- database and the Redis keys, with the laws that the repositories rely on, its unique constraints
-- and what its columns and foreign keys admit among them, and Table/Logs what the logs read of
-- theirs besides, in pages and by age; Table/Rows, Table/Keys and Table/Logs/Rows are concrete ones
-- that satisfy them. Base holds the shared names and lists, Examples the concrete services on which
-- each theorem is applied.
--
-- Numbers are natural numbers without a bound; identifiers and counts of the program are small. The
-- retry loops of a dispatch and of an upload's callback run by structural recursion on the rounds
-- that are left, so they need no fuel; the other loops are recursion on lists. A started call that
-- is not awaited is an event, and what it does is the theorem of its own operation. The handlers of
-- the queues' messages are interleaved in any order (Rabbit); the sends of a redirected webhook run
-- at once, each in a trace of its own, which stand in any interleaving (Redirections); any other
-- request runs by itself, but the answers of the services may change at every call.
--
-- Not modelled: logging but for that of the exception filter, the calls of the Sentry SDK that trace
-- requests and redact events, Swagger and the user interface, the health probes, the configuration
-- schema and the wiring of the framework, which are input and output; the Graph API controllers,
-- each of whose operations passes its arguments to Wpp; the validation decorators of the data
-- transfer objects; the controllers that queue an upload; and the connection of the RabbitMQ
-- client, which is the library's.
pub mod Json
pub mod MetaErrors
pub mod Wpp
pub mod Uploads
pub mod Effects
pub mod Records
pub mod Dispatch
pub mod Webhook
pub mod Table
pub mod Ambiente
pub mod Inboxes
pub mod Instagram
pub mod Resend
pub mod Rabbit
pub mod Flows
pub mod Metrics
pub mod DeadLetters
pub mod Redirections
pub mod ApiKeys
pub mod Base
pub mod Examples
pub mod Excecoes
