-- ===== src/Lib.antt =====
-- WCTM: a backend that connects WooCommerce stores to Telegram. A Store's webhooks are authenticated,
-- stored once and queued; a worker claims each stored event, projects the order or the product of
-- it into the database and schedules notifications. Tenants own Stores, members act for Tenants, and
-- an entitlement says whether a Tenant may use the service.
--
-- Parts, and the code that they model:
-- - Prelude: texts, optional values, Boolean tests, and the monad of an `async` method, which passes
--   the state, returns or throws, and can be a transaction that is rolled back.
-- - Database: the Prisma client of one table, a third-party library, as a record of methods and of
--   the laws that the services rely on; Memory is a client that meets them and runs the tests.
-- - Entitlements: backend/src/entitlements/entitlement.service.ts (resolveTenant, assertActive,
--   isActive, manage). State has the data and the methods, Laws the theorems.
-- - Memberships: backend/src/memberships/memberships.service.ts with the methods of
--   backend/src/tenant/tenant-scoped-prisma.service.ts and backend/src/common/audit/audit.service.ts
--   that it calls. State and Service have the data and the methods, Owners and Isolation the
--   theorems.
-- - Webhooks: backend/src/webhooks/woocommerce-webhook-ingestion.service.ts (Headers and Ingestion:
--   requireHeaders, receive, persistOrFind) and backend/src/queue/woocommerce-webhook.processor.ts
--   (Events: the rows and each `where` and `data`; Processor: process, markFailed, releaseForRetry,
--   failClaimed, resolveUnclaimed). Lease, Lifecycle, Steps, Exclusion, Outcome, Handling,
--   Stored and Deliveries have the theorems.
-- - Projection: withProjectionTransaction of backend/src/inventory/inventory-projection.service.ts
--   and backend/src/orders/order-projection.service.ts, which is the same text twice.
-- - Orders: backend/src/orders/order-projection.service.ts (project, applyProjection,
--   projectDeletion, reconcile), with withRemoteDeletedAt of
--   backend/src/orders/order-payload.mapper.ts. Progress, Evolution and Reapply have the theorems.
-- - Inventory: backend/src/inventory/inventory-projection.service.ts (Apply: applyProjection, with
--   decideInventoryProjection, nextIncident and replaySignal; Service: projectWebhook,
--   projectBootstrapPayload, reconcile, projectDeletion), and classifyInventoryItem of
--   backend/src/inventory/inventory-payload.mapper.ts. State, Incident, Apply and Service have the
--   data and the methods; Signals and Alerts, Advance and Freshness, Replay and Redelivery, Evolution
--   and Webhook, and Deletion the theorems.
-- - Notifications: backend/src/queue/order-notification.processor.ts and
--   backend/src/queue/inventory-notification.processor.ts, one program over what they differ in
--   (State: the rows and each `where` and `data`; Processor: process, markFailed, persistState,
--   resolveUnclaimed; Kinds: the two instances), and backend/src/telegram/telegram-delivery.client.ts
--   (Client: send, parseDeliveryResult). Sends, Kept, Finality, Outcome and Answers have the
--   theorems. The schedulers that make the deliveries, backend/src/queue/order-notification.scheduler.ts
--   (OrderScheduler) and backend/src/queue/inventory-notification.scheduler.ts
--   (InventoryScheduler: schedule, captureRecipients, signalMatches), choose the members alike
--   (Recipients); OnePerChat and Captured have their theorems.
-- - Limits: incrementFixedWindow of backend/src/queue/queue-runtime.service.ts with the limiters of
--   backend/src/auth/public-auth-rate-limiter.service.ts and
--   backend/src/store/plugin-registration-rate-limiter.service.ts (Window), and
--   telegram-bot/src/update-deduplicator.ts (Deduplicator). Counting and Repeats have the theorems.
-- - Tenant: backend/src/tenant/guards/tenant-context.guard.ts with tenant-context.service.ts and the
--   context of backend/src/common/request-context/request-context.service.ts (Guard: canActivate,
--   requiredClaim, setTenant, active). Admission has the theorem.
-- - Linking: backend/src/telegram/telegram-linking.service.ts (State: the rows, the results and each
--   `where` and `data`; Context: resolveContext, issueToken; Redemption: redeem; Unlinking: status,
--   unlink). Tokens, Once, Issued and Accounts have the theorems.
-- - Bootstrap: backend/src/queue/inventory-bootstrap.processor.ts (State: the columns of a Store, each
--   `where` and `data`, and the progress from page to page; Processor: process, processOneUnit,
--   advance, resolveUnclaimed, markFailed) and backend/src/queue/inventory-bootstrap.scheduler.ts
--   (Scheduler: ensureInitialized). Scan, Pages and Units have the theorems; Scan iterates the progress of one
--   job, as the queue does by handing over the next job.
--
-- How the parts meet: the ingestion and the worker share the table of events, so Webhooks/Steps.antt
-- interleaves the writes of both with those of the queue's hook; the worker takes the projections
-- and the schedulers as a record, Pipeline. The projections of orders and of the inventory write in the
-- retried transaction of Projection.
--
-- Modelling: a stateful method takes the state to a result and a state. Times, new identifiers and
-- the outcome of cryptography are arguments. A `$transaction` is serializable, so its body runs on one
-- state; Projection/Retry.antt adds what the others commit before each of its three attempts, the
-- bound that the code has, and that is all the fuel there is. Identifiers and fingerprints, which
-- are only compared, are natural numbers, and a date is its number of milliseconds.
--
-- Not modelled: the log lines, which change no state; the payload mappers and the minimizer of
-- payloads; the rest of Telegram; the
-- registration of Stores; authentication; privacy; the WooCommerce client. What the models use of
-- them is an argument.

pub mod Prelude
pub mod Database
pub mod Entitlements
pub mod Memberships
pub mod Tenant
pub mod Webhooks
pub mod Projection
pub mod Orders
pub mod Inventory
pub mod Notifications
pub mod Limits
pub mod Linking
pub mod Bootstrap
