-- ===== src/Lib.antt =====
-- ARQS, a relay that queues packets between nodes: the server (arqs-server/app) keeps nodes,
-- endpoints, links and queued packets in SQLite and serves them over HTTP; programs use it through
-- a client kit (apis/appkit) with an outbox for sends that must survive failures.
--
-- The parts and their files:
-- - Models, Models/Cascade: the tables of arqs-server/app/models.py. A table is the list of its rows
--   and `Db` is the database; Cascade has what the foreign keys delete with a row. Ids are numbers,
--   since they are only compared, and a datetime is a number of seconds.
-- - Json: JSON objects, their equality (Python's `==` on dicts) and the size of their compact text.
-- - Http, Txn, Config: the errors of the handlers, one constructor for each detail; commit and
--   rollback; the settings with their defaults (arqs-server/app/config.py).
-- - Services, Services/Live, Services/Cleanup: arqs-server/app/services.py, with the live deliveries,
--   the join that every queue of the program is read from.
-- - Server and its children: the handlers of arqs-server/app/main.py, one module for the handlers of
--   identities, endpoints, links, packets, the inbox and statistics, and below each what it proves.
--   A handler takes the authenticated node, its request and the database and returns its result
--   with the new database. New uuids, the time and random values are arguments.
-- - Auth: arqs-server/app/auth.py. A key is a list of character codes.
-- - Notifier: arqs-server/app/inbox_notifier.py, the wake-ups of long polls, as a machine that takes
--   one event after the other.
-- - Access: the decision on client addresses, from arqs-server/app/runtime_access_cache.py and
--   arqs-server/app/admin_services.py. Access/Client: the address that a request comes from and the
--   key that it brings (auth.py), and the middleware that applies the decision (main.py).
-- - Outbox: apis/appkit/outbox.py, the client's queue with retries.
-- - Server/Consistent: the foreign keys of all tables and the unique ids of all but the routes as one
--   invariant, and the databases that the server reaches by its handlers as a step relation.
-- - Admin: the operator's queries and changes of arqs-server/app/admin_services.py.
-- - Conventions: apis/arqs_conventions.py, the headers that clients put on a packet and how a body is
--   decoded and shown.
-- - Receiver: apis/appkit/receiver.py and apis/appkit/commands.py. A handler of the application is a
--   script of its calls, each of which may fail; the log of the calls that succeeded is what the
--   theorems speak of.
-- - Transport: apis/appkit/transport.py, the choice between HTTP and HTTPS.
-- - Prelude: what the modules share. Tests: runs on small inputs.
--
-- Requests run at the same time. A handler whose reads and writes can be parted by another request
-- takes the database that it reads and the one that it writes to (`at_write`) as two arguments: a
-- redemption of a link code, and a send, whose `views` are the databases that it reads again after
-- a collision. The long poll takes what the clock shows the server and a list of its rounds, with
-- the notification that ends the wait of each, if one comes before the timeout; after the last of
-- them the poll is not notified any more and waits until its timeout. The loop has no fuel: it is
-- recursion on that list.
--
-- Parameters stand for code outside the repository: PBKDF2, base64, integer and UUID parsing in
-- Auth, the parsing of addresses and networks in Access, the scheme of a URL in Transport; `str` of
-- a value that is no text, UUID parsing, base64, gzip and the codecs in Conventions; the client's
-- sends in Outbox are a function of the entry. Numbers are natural numbers without overflow, as
-- Python's are.
--
-- Not modelled: floats in JSON other than NaN, reading of the configuration, logging, threads and start-up, the command lines, the
-- runtime settings of the operator, the contacts of the kit, the receiver's thread, the HTTP
-- client, the hash of a reaction, the Discord adapter and the desktop client. The source of a
-- random link code is an argument, and the size of the database files too.
pub mod Prelude
pub mod Json
pub mod Http
pub mod Models
pub mod Notifier
pub mod Outbox
pub mod Transport
pub mod Access
pub mod Auth
pub mod Config
pub mod Conventions
pub mod Receiver
pub mod Services
pub mod Txn
pub mod Server
pub mod Admin
pub mod Tests
