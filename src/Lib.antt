-- ===== src/Lib.antt =====
-- A verification library for Retail Order Sync Hub, which keeps the orders of an ERP (Odoo) and of
-- two marketplaces (Paris and MercadoLibre) in step.
--
-- The program. Inbound: `src/webhook_receiver` takes signed webhooks, keeps each event once as a
-- bronze row and publishes it; `src/subscriber` takes the events from the broker, normalizes them into
-- the silver table `orders` and writes deliveries to the ERP by way of `src/reconciler`. Outbound:
-- `src/outbox_worker` copies the ERP's confirmed orders into the table `outbox` and pushes the entries
-- that are due through `src/adapters`, with retries, a backoff and dead letters. Beside these,
-- `src/mcp_server` gives tools on the state behind scopes and an audit trail, `src/bq_sync` feeds
-- BigQuery, and `src/paris_mock` stands in for the marketplace Paris. All services share the database
-- of `src/common/models.py`.
--
-- The modules, by the code that they model:
--   Model         src/common/models.py: a record for each mapped class, and the database of the tables
--   Config        src/common/config.py: `Settings` with the defaults
--   World         the state of the running system: database, id sequences, clock, counters, the outside
--   World.Session src/common/db.py: `session_scope`, which commits, or rolls back and raises again
--   World.Keeps   what an action leaves as it is, by the form of the action
--   Exec          exceptions as values, and actions on a state that may raise
--   Json, Access  Python's dynamic values, and `v.get(k)`, `v[k]`
--   Signing       src/common/signing.py
--   Secrets       src/common/secrets.py
--   Odoo          src/common/odoo.py: the rows that are read, and `Client` (`upsert`)
--   Adapters      src/adapters: `Dto` (base.py), `Http` (_http.py), `Paris` (paris.py), `OAuth` and
--                 `MercadoLibre` (mercadolibre.py), `Registry` (`default_adapters`), and
--                 `Console` (the commands of mercadolibre.py)
--   Outbox        src/outbox_worker: `Source` (source.py), `Enqueue` (enqueue.py), `Processor`
--                 (processor.py), `Worker` (__main__.py); `Queue` and `Invariant` are what the rows of
--                 the table have in common
--   Webhook       src/webhook_receiver: `Store` (store.py), `Receiver` (app.py), `Publisher`
--   Subscriber    src/subscriber: `Normalize`, `Silver`, `Handler` (with the loop of __main__.py)
--   Reconciler    src/reconciler/reconcile.py, with the loop of __main__.py
--   Mcp           src/mcp_server: `Auth`, `Audit`, `WriteTools`, `Queries`, `Server` (server.py)
--   BqSync        src/bq_sync/sync.py and client.py
--   ParisMock     src/paris_mock/app.py and storage.py
--   OpsConsole    ops_console/app.py: what it does on the machine
--   Gauges        src/common/metrics.py: the gauges on the outbox
--   Scripts       scripts: `SyncDemo`, `FloodDlq` (chaos/flood_dlq.py), `InitPubsub`, `SeedOdoo`,
--                 `SendWebhooks`, `BackfillBronze`
--   System        the steps of all services on the shared state, in any order
-- Below a component stand the modules of its theorems, named for what they show, and `Tests` with
-- concrete runs. `Base` holds what all of them share, `Fixtures` an instance of each parameter.
--
-- The correspondence. A function of the source is a definition with its name, less a leading
-- underscore. A method that reads or writes the database is an action `Exec (World E) A`: it takes the
-- state, and gives back its result or its exception beside the state. A row that a session has loaded
-- and changed is written at the commit (`write_back`, `flush`). A nested function or a block of a long
-- function is a definition of its own.
--
-- What is a parameter. `Runtime` holds the pure functions of libraries: JSON, HMAC-SHA256,
-- Pydantic's reading of a field, and what the database driver binds a value for a text column as.
-- `Publisher`, `Odoo`, `Rpc`, `Http`, `BigQuery`, `Warehouse`, `Random`, `Dice`, `SecretManager`,
-- `Broker`, `Sender`, `Terminal`, `Machine`, `PubSubClient` and `Outside` are services that
-- act on an outside `E`, of which nothing is known. A property that relies on a service names what it
-- relies on: `ReadsFields`, `IsUniform`, `Retries`, `RaisesOwn`, `RendersNotes`, `KeepsRecords`, `Takes`, `IsRegistry`.
--
-- Bounds. Times are microseconds since the epoch and durations milliseconds, as natural numbers: no
-- time before the epoch arises, but in the window of the failed orders, which is an integer. Ids of
-- rows are natural numbers, ids of the ERP integers. Python's integers have no bound, and neither
-- have these; the database's limits on them, the lengths of its text columns (String(255),
-- String(50)) and its 32-bit Integer ids, are not modelled, so that a statement does not fail by
-- them. `decimal n` runs on n + 1 rounds of fuel, one more than the digits of `n` need. The
-- mapping of letters to capitals and back is that of ASCII. All other loops are recursion on a list
-- or on a number of rounds, and tenacity's loop of attempts is a parameter. The clock does not move
-- while one operation runs, and one operation runs at a time: the locks of the outbox rows and the
-- unique keys of the tables give that in the program.
--
-- Not modelled. Logging, tracing, histograms and the start of the services; the command lines of
-- the scripts and what they print; the opening and closing of HTTP clients; the pages of the
-- operations console, whose widgets call the functions of the model; the migrations.
pub mod Base
pub mod Json
pub mod Exec
pub mod Model
pub mod World
pub mod Services
pub mod Access
pub mod Odoo
pub mod Reconciler
pub mod Subscriber
pub mod Mcp
pub mod BqSync
pub mod ParisMock
pub mod Config
pub mod Adapters
pub mod Outbox
pub mod Signing
pub mod Webhook
pub mod Fixtures
pub mod System
pub mod Secrets
pub mod Scripts
pub mod Gauges
pub mod OpsConsole
