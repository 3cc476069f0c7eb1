-- ===== src/Lib.antt =====
-- express-nest-blueprint: a NestJS-like framework on Express (packages/backend/common), the API
-- built on it (packages/backend/core-api) and its admin front end (packages/frontend/admin). The
-- development models the parts that decide what a request may do and what becomes of it.
--
-- A request first meets RateLimitMiddleware, then the guards of its route, which
-- RequestHandlerFactory runs one after the other; the handler's class comes from the dependency
-- injection container, its methods may stand behind a circuit breaker, and its queries are built by
-- QueryBuilder and sent through PostgreSQLAdapter. Changes of users and of the admin's tables may go
-- through a queue to a worker, and what is read often stands in a cache in Redis.
--
-- - Base: shared names; association lists for Map (Base/Map), texts as lists of code points
--   (Base/Text), signed numbers (Base/Int), lists and their slices, Boolean tests, and in Base/Settled
--   what an awaited call comes to.
-- - CircuitBreaker: packages/backend/common/src/infrastructure/circuit-breaker:
--   CircuitBreakerService and the wrapper of CircuitBreakerExplorer.patchMethod. The state is the
--   three maps; a patched call is two steps, since other calls come in between at its await, and
--   `now` is given to each step.
-- - RateLimit: packages/backend/common/src/infrastructure/throttler/throttler.service.ts and
--   packages/backend/common/src/core/middleware/rate-limit.middleware.ts. Redis is a parameter;
--   RateLimit/Commands has the documented INCR, TTL and EXPIRE.
-- - Query: packages/backend/common/src/infrastructure/database/query-builder.ts and the
--   query-builder/where-builder.ts beside it. A query is a list of text pieces and numbered
--   placeholders; Query/Sql renders it as the source's text.
-- - Guards: under packages/backend/common/src, core/guards, core/decorators/auth.decorator.ts and
--   runGuards of application/nest-application/request-handler.ts. JwtService.verify is a parameter.
-- - Container: packages/backend/common/src/core/container/container.ts and
--   packages/backend/common/src/domain/constants/module/module.const.ts. Metadata and constructors
--   are parameters. The fuel of `resolve` is the depth of the call stack, and Container/Acyclic says
--   how much is enough.
-- - Postgres: packages/backend/common/src/infrastructure/database/adapters/postgresql.adapter.ts.
--   How the pool and the server answer connect, BEGIN, COMMIT and ROLLBACK is an argument, one
--   `Attempt` for each round; what a server keeps is said by IsServer of Postgres/Atomicity.
-- - Bulk: packages/backend/common/src/domain/helpers/bulk-operations.helpers.ts and, under
--   packages/backend/core-api/src/modules/admin, services/admin-bulk-operations.service.ts and
--   workers/admin-commands.worker.ts. The CRUD services are a parameter.
-- - Drafts: the unsaved changes of the front end, under
--   packages/frontend/admin/src/app/core/services: utilities/draft-operations.service.ts,
--   utilities/draft-storage.service.ts, database/helpers/draft-manager.ts,
--   database/helpers/draft-publisher.ts and database/database-draft.service.ts. The server that
--   answers a publication is a parameter, as is JSON; the time is given to each operation.
-- - Auth: packages/backend/core-api/src/modules/auth/auth.service.ts, over a repository, bcrypt and
--   a JwtService that are parameters; Auth/Login meets the guards.
-- - Themes: packages/backend/core-api/src/modules/themes/repositories/theme-versions.repository.ts,
--   over a table that is a parameter.
-- - Routing: packages/backend/common/src/core/middleware/middleware-consumer.ts: matchPath and the
--   wrapping of a middleware with its exclusions.
-- - Crud:
--   packages/backend/common/src/infrastructure/database/repository-extensions/crud-operations.ts,
--   which joins Query to the connections.
-- - Pages: under
--   packages/backend/common/src/infrastructure/database/repository-extensions, query-methods.ts and
--   transaction-methods.ts, by which BaseRepository pages and searches. The reads are parameters.
-- - Tables: the admin's tables. RepositoryManager, CacheInvalidator and, under
--   packages/backend/core-api/src/modules/admin/services, admin-crud.service.ts and crud-operations.
--   The repositories, the queue and the cache are parameters; Tables/Service fills the interface
--   that the worker of Bulk takes.
-- - Lifecycle: under packages/backend/common/src, domain/helpers/retry.helper.ts,
--   application/lifecycle/lifecycle.service.ts and the listening of
--   application/nest-application/lifecycle-hooks.ts. What is tried again is a parameter, and the
--   recursion is on the attempts that are left. Lifecycle/Graceful is
--   application/services/graceful-shutdown.service.ts over them.
-- - Cache: packages/backend/common/src/infrastructure/cache, cache.service.ts and the wrappers of
--   cache.explorer.ts. Redis and JSON are parameters; Cache/Commands has the documented behaviour of
--   the commands, and each call is given its time.
-- - Users: under packages/backend/core-api/src/modules/users, users.repository.ts with its helpers,
--   the services that queue commands and the worker with its handlers. Rows, queue, transaction and
--   Kafka are parameters; Users/Futile meets the admin's tables.
-- - Settings: packages/backend/core-api/src/modules/settings, settings.service.ts with its cached and
--   invalidating methods over Cache, settings.repository.ts, and in Settings/Maintenance
--   packages/backend/common/src/core/middleware/maintenance.middleware.ts.
-- - Compute: packages/backend/common/src/infrastructure/compute, compute.service.ts and
--   compute.explorer.ts: the pending jobs as a run of events, and the methods of the instances as
--   data, of which the first step is modelled.
-- - Tokens: the theme editor, under packages/frontend/admin/src/app/core/services/theme: the tokens'
--   drafts and their storage, related tokens, style properties and the publication. JSON,
--   adjustOpacity and the server are parameters; Tokens/View is the editor without its drafts.
-- - Kafka: packages/backend/common/src/infrastructure/kafka: the connections of KafkaService, the
--   exploration of subscribers and the processing of a message. The client of kafkajs is a
--   parameter, and calls run one after the other.
-- - Connections: packages/backend/common/src/infrastructure/database/database.service.ts, over
--   adapters that are parameters.
-- - Exceptions: packages/backend/common/src/core/filters/global-exception.filter.ts. Whether the
--   configuration is that of production is a parameter, and so are the time and the values of JSON.
-- - Layout: packages/frontend/admin/src/app/core/services/ui, layout-customization.service.ts over
--   JSON, which is a parameter, and in Layout/Pager pagination.service.ts.
-- - Forms: under packages/frontend/admin/src/app/core/services, the validation services and, of
--   utilities/user-utility.service.ts, the permissions that they ask.
-- - Health: packages/backend/common/src/infrastructure/health/health.service.ts, over Connections
--   and Kafka; what it asks of Redis, the queues and the storage is a parameter.
--
-- The decimal text of a placeholder's number is computed on fuel above the number, which is more
-- than its digits.
--
-- Not modelled: Express, Redis, PostgreSQL, Kafka, BullMQ, bcrypt and jsonwebtoken themselves, which
-- are libraries; decorators that only record metadata, Swagger and GraphQL generation and the
-- Angular components, which are glue; and the
-- fall back of compute offloading, profile images, and the
-- services of the front end that fill a form.
pub mod Base
pub mod CircuitBreaker
pub mod RateLimit
pub mod Query
pub mod Guards
pub mod Container
pub mod Postgres
pub mod Bulk
pub mod Drafts
pub mod Auth
pub mod Themes
pub mod Routing
pub mod Crud
pub mod Pages
pub mod Tables
pub mod Lifecycle
pub mod Cache
pub mod Users
pub mod Settings
pub mod Compute
pub mod Tokens
pub mod Kafka
pub mod Forms
pub mod Exceptions
pub mod Layout
pub mod Connections
pub mod Health
