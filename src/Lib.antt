-- ===== src/Lib.antt =====
-- The DMARC and TLS-RPT report service of src/dmarc_service: reports come in by mail (smtp/server.py),
-- by HTTPS (api/app.py) and by upload (api/ui.py); ingest/pipeline.py stores them; control_plane/service.py
-- hands out the report addresses by which a message finds its tenant, and checks the DNS records.
--
-- Which file models which part:
--
--   Schema, Schema/Insert        db/models.py: a table is a list of records, and `Db` is all tables, the next
--                                id and the clock. An insertion checks the UNIQUE constraints.
--   Schema/Session               db/session.py: `session_scope` commits, or rolls back on an exception.
--   Config                       config.py, the settings that are read here.
--   Parsers                      ingest/parsers.py. `Decoders` holds the library readers (MIME, gzip, zip,
--                                XML, JSON, numbers and dates) as parameters.
--   Pipeline/Store, Message,     ingest/pipeline.py: `_store_aggregate` is store_aggregate, `_store_tlsrpt`
--   Upload, Http, Reprocess      is store_tlsrpt, and so on; the other names are the source's.
--   ControlPlane/Provision,      control_plane/service.py: tenants, domains and addresses; the DNS records;
--   Records, Check, Resolve      the DNS cache and the statuses; the lookups. The public suffix list is a
--                                parameter.
--   Resolver                     the resolver of the DNS library, a parameter: its answers are any.
--   Api/Control, Api/Ingest      the handlers of api/app.py that change state, its token check for the
--                                ingest endpoint, and the loop of `upload_reports` of api/ui.py.
--   Auth/Users, Auth/Tokens      auth/service.py, and `require_api_token` of api/app.py.
--   Api/Reports                  the listings and totals of api/app.py.
--   Smtp                         `ReportHandler` of smtp/server.py.
--   Imap/Fetch, Imap/Poll        ingest/imap.py: `fetch_once` and `fetch_all`. A `Server` (Imap/Client) is a
--                                parameter, which answers each command given those that were sent before.
--   Ui/Visit, Entry, Forms,      api/ui.py: the session cookie and the guards, signing in, and the forms;
--   Settings, Submit, Pages      `submit` is the dispatch by route; pagination.
--   Ui/View                      api/ui.py: the pages, as what their templates are given; `view` is the
--                                dispatch by route. The order of texts, the dates, the rounded percentages,
--                                addresses and networks, and the answers of the network are parameters
--                                (`Reader`).
--   Reports                      the figures of api/ui.py: rows, daily series, coverage gaps.
--   Metrics                      metrics.py: Counts, Gauges and Snapshot are what is published, Server is
--                                who may read it.
--   Backup                       backup.py: the destination, and pruning.
--   Cli                          the commands of cli.py that change users and single sign-on.
--   Spf/Expand, Spf/Cached       ingest/spf.py. The instant and the cache that a page finds, and when an
--                                expansion ends, are parameters.
--   Enrich, Enrich/Ips, Lookup   ingest/enrich.py. The answers of the registry are a parameter.
--   Ui/Kept                      what a property of the database must survive to hold after every request to
--                                the web interface; Ui/Staffed and Ui/Constrained fill it.
--   Service                      all that changes the database as a step relation, and the reachable
--                                databases.
--   Base                         texts, integers, exceptions and stateful calls, tables, dictionaries, sorted
--                                lists, totals by key.
--   Tests                        runs on small inputs.
--
-- A text is a list of code points and a byte string a list of numbers. Code that reads and writes the
-- session is a function from the database to a result and the next database (Base/Exec); an exception
-- is a value, and what was written before it stays until the session is rolled back. A handler of the web
-- interface works on a `Visit`: the database, the cookie and the DNS cache. Case folding and white space
-- are those of ASCII. An instant is a number of seconds, and a day a number of days; the DNS cache counts
-- milliseconds. Counts of messages are integers, since a reporter can send negative ones. Random texts, such
-- as the local part of a new address, are arguments. Where a query leaves open how rows with equal keys
-- follow each other, they come in the order in which they were stored.
--
-- The expansion of SPF records is on fuel: eleven steps, one more than the budget of ten lookups, since
-- each call within a call has spent one. The search for missing days is on fuel: the number of days up to
-- yesterday, so that the loop ends where the source's does.
--
-- Not modelled: concurrent sessions (the entry points run one after the other); the templates of
-- api/ui.py with the context that all of them get, and the geometry of its chart, which is in floating
-- point; the endless loops that poll and refresh; the dump programs; argument parsing; the cipher of stored
-- passwords; the migrations, which a library runs. The wording of database errors, timestamps that
-- nothing reads, and the logging are left out.
pub mod Base
pub mod Resolver
pub mod Schema
pub mod Config
pub mod ControlPlane
pub mod Api
pub mod Parsers
pub mod Pipeline
pub mod Auth
pub mod Spf
pub mod Smtp
pub mod Enrich
pub mod Imap
pub mod Reports
pub mod Ui
pub mod Metrics
pub mod Backup
pub mod Cli
pub mod Service
pub mod Tests
