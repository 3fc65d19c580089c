-- ===== src/Lib.antt =====
-- Statusnook: a verification of the status page's administration.
--
-- Statusnook is one Go program: an HTTP server over one SQLite file, with handlers for the public
-- status page and the administration, and loops that check monitors, deliver notifications and
-- prune old rows. This library models the parts whose state decides what is shown and who may
-- change it, from the handlers down to the SQL statements.
--
-- World: a handler is an action on a snapshot of the tables, the process memory and a reply. It
--   has the steps of the code: `begin`, `exec` and `commit` for rwDB.Begin, a statement and
--   tx.Commit, `attempt` for a statement whose error the code looks at, and early replies. Any
--   database call may fail: `Env.fails` is a parameter that every theorem ranges over, unless it
--   says that no call fails. World/Hoare, World/Rules and World/Attempts have the rules for
--   handlers, World/Stores those for handlers that change the memory after their commit, World/Reads
--   those for read transactions of a loop, World/Steps the equations for runs without failing calls.
-- Engine: SQLite's choice of a row id and its nocase comparison, as parameters with what is
--   documented of them. Text: strconv.Atoi and len of a text.
-- Alerts: alerts3.go, alerts4.go, alertsdb.go and the statements of sql/alerts.sql
--   (internal/sqlcgen/alerts.sql.go) over schema.sql. Alerts/Tables has the rows, Alerts/Queries the
--   statements with foreign keys and cascades, Alerts/Severity getOngoingAlerts and the loop that
--   finds the page's severity, Alerts/Handlers the handlers, Alerts/Requests the routes.
-- Auth: loginlimit.go, users.go, users2.go, usersdb.go, the statements of sql/users.sql and the
--   middleware of router.go. Auth/Limiter has the map of failures by address, Auth/CrossTokens the
--   tokens for another domain, Auth/Queries the statements, Auth/Login and Auth/Users the handlers,
--   Auth/Gate the middleware of /admin.
-- Monitors: checkDueMonitors of monitors2.go. Monitors/Check has the attempts of one check, with what
--   each meets as an argument, and the log row; Monitors/Notify the decision to notify, and a run of
--   checks, whose state is the response code of the last one that was logged. The database calls of
--   a check are numbered in their order, and each may fail. The scheduler around it and the dispatch
--   to the channels are not modelled: a monitor is taken to have channels throughout, and its last
--   log row to be kept.
-- Notifications: drainNotificationQueue of notifications.go, and the subscriptions by email of
--   notifications2.go. Notifications/Tables has the settings and the channels, Notifications/Queue the
--   query for the unsent rows, Notifications/Drain one pass of the loop, whose process memory is the
--   list of deliveries made so far; what Slack or the mail server answers to the next one is a
--   parameter, and so is json.Unmarshal. Notifications that belong to messages of one time stay in
--   the table's order, which SQLite leaves open. Notifications/Request has the request
--   for a subscription, whose memory holds the mails handed over, Notifications/Subscribe its
--   confirmation and the two links, and Notifications/Settings the form of the alert settings, with
--   url.ParseRequestURI and strconv.FormatBool as parameters.
-- Slugs: generateSlug of db.go, with strings.ToLower and the class of letters as parameters. The loop
--   runs on fuel, one attempt more than there are slugs, which is enough: no two attempts try one
--   slug. Services: services.go and servicesdb.go, over the tables of alerts.
-- Setup: the wizard of setup.go, its middleware in router.go, metadb.go and the atomics of
--   metastate.go. Setup/Meta has the table, Setup/Handlers the steps and the routes; the resolver and
--   the ACME client are parameters, and the pages, which only read, are one reply. Setup/Load is
--   loadMetaState; which of its reads and writes fail, and its random bytes, are parameters.
-- Retention: `prune` of retention.go on the rows of one table, with a test of which rows are old.
--   SQLite leaves open which of the old rows a batch takes; the model takes the first ones. The loop
--   runs on fuel and tells whether it has returned; a fuel above the number of rows is enough, since
--   a turn that goes on has deleted a full batch.
-- Tests: concrete tables and requests, with the theorems at them.
--
-- A Go function keeps its name, in snake case: postLogin is post_login, loginRateLimited is
-- login_rate_limited. A time is a number of nanoseconds; time.Now() is read once in a request. A Go
-- map is an association list in which a write replaces the entry of its key. The results of
-- rand.Read, base64 encoded, and the address of the client are arguments of the handlers; bcrypt is a
-- parameter with what is documented of it. Loops are over lists, except those of prune and
-- generateSlug. rwDB has one connection, so write requests do not overlap, and requests run one after another.
--
-- Not modelled: pages, templates and the texts of messages, the forms for monitors, channels and mail
-- groups, Slack's callback, the configuration file, the settings pages, updates, and the start of
-- the process but for loadMetaState.
pub mod Prelude
pub mod World
pub mod Engine
pub mod Text
pub mod Alerts
pub mod Auth
pub mod Monitors
pub mod Notifications
pub mod Retention
pub mod Services
pub mod Setup
pub mod Slugs
pub mod Tests
