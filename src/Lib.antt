-- ===== src/Lib.antt =====
-- The administration back end of an MQTT broker stack, admin-api/app: operators sign in, change the
-- broker's clients, groups and roles through HTTP routes, and every change is written to an audit log
-- whose rows are chained by hashes. A query route explains which rule of the broker allows a topic.
--
-- The parts, and how they interact:
--   policy.py   topic filters and the search for the rule that decides a permission. It uses no other
--               part.
--   auth.py     operators, sessions, CSRF tokens, the rate limiter. The routes run its checks first.
--   audit.py    redaction of metadata, appending to the audit table, verifying the table. The routes
--               append through `audit`.
--   models.py   the three tables.
--   config.py   the settings, read once from the environment. auth.py and main.py use them.
--   broker.py   sends a command to the broker and waits for its response.
--   main.py     the routes. Every mutating route authorises the request, and all the changes go through
--               `broker_mutation`: rate limit, broker command, audit event.
--   scripts/migrate_dynsec.py  makes the broker's first state from a password file, an ownership table
--               and an ACL file. Policy.Evaluate reads that state in one theorem.
--
-- The files:
--   Common         texts (lists of code points), Boolean tests, lists, dictionaries, sorting, integers.
--   Policy.Topic   `topic_matches`: the expanded levels, the regular expression as a list of pieces, and
--                  a matcher that tries its pieces as `re` does. Filter has the two descriptions of filters
--                  on levels that the matcher is compared with: MQTT's, and the narrower one of the
--                  code; Split, Expression and Matching relate levels to texts; Laws has the
--                  theorems.
--   Policy.Evaluate  `evaluate_permission`: the roles to search, the rules of a role in order, the first
--                  match. Order and Search describe the search; Laws and Decisions have the theorems.
--   Models         the tables, the state of the whole program (World) and what it takes from outside
--                  (Env), with `Exec`, the functions on World that end with a value or an exception.
--   Auth           auth.py: Base the shared records, Limiter, Login (passwords and new sessions) and Access
--                  (who is let in); RateLimit, Sessions and RoundTrip have the theorems.
--   Audit          audit.py; Redaction and Chain have the theorems.
--   Api            `audit`, `broker_mutation` and `require_confirmation` of main.py; Bodies the request
--                  bodies of schemas.py and Topics its validator of topic filters; Session the start of
--                  the program and the routes login, logout and me; Clients, Groups and Roles the
--                  mutating routes; Routes all of them as one request type; Queries the lists, the
--                  connections and the permission query, with `list_objects` of broker.py, and Questions
--                  all of these as one request type; History the audit history; Oidc the sign-in with
--                  OpenID Connect; Health the readiness check. Sent, Guards, Confirmed, Audited,
--                  SignIn, Asking, Asks, Granted and Callback have the lemmas and theorems.
--   Config         config.py; Production says what its defaults mean for the sessions.
--   Broker         broker.py: the callbacks of `command` on what they share with the caller, and how the
--                  caller concludes; Runs has the runs of the callbacks as a step relation, Status the
--                  states that `overview` and `certificate_status` show.
--   Migration      scripts/migrate_dynsec.py: Passwords, Owners (with Python's csv reader) and Acls the
--                  three parsers, State (with Base and Parts) the new state and the exit status.
--                  Complete, Coverage, Unique, Parsed, Contents, Allowed and Identities have the
--                  theorems; Decision says what policy.py decides for a client with one migrated role.
--   Samples        a concrete Env and states for the tests, which stand in the modules named so; the
--                  settings for them are in Config.Samples.
--
-- The state: World holds the tables, the attempts of the rate limiter, the commands sent to the broker,
-- the cookies set on the response, and how often each clock and the random source was read, so that
-- Env gives the n-th reading. A write before an exception stays written, since each write is committed
-- before the next test. Times count microseconds. A name in the source is the name here: `current_actor`
-- of auth.py is `current_actor` of Auth. A function of the source that is long is split, and each piece
-- says which part of it it is.
--
-- From outside, as parameters: SHA-256, the password hasher, random tokens, clocks, the JSON text of a
-- value and its reading (with the hypothesis IsCodec where rows are read back), `str.lower`, the text of
-- a time stamp, the broker's reply to a command, Python's tables of Unicode digits, the environment's
-- variables and files with `int` and `float`, SQL's LIKE, the claims of the OpenID Connect provider, `str`
-- and `str.casefold`, and what `evaluate_permission` reads of a reply (Views of Api.Queries, for replies
-- of the documented shape). There is no fuel: every loop of the source goes along a list, and the matcher
-- recurses on the pieces and then on the text.
--
-- Not modelled: the other routes of main.py (overview, audit export, liveness and capabilities) and its
-- middleware; the exchange with the OpenID Connect provider; `audit_view`, so that the history gives
-- rows; the length limits and name patterns of schemas.py; the MQTT client of broker.py, its TLS and
-- certificates; db.py; the names of files in the messages of scripts/migrate_dynsec.py, its command line
-- and the replacement of its output file; the interleaving of two requests on one database; the browser
-- front end, the shell scripts and the configuration files.
pub mod Common
pub mod Policy
pub mod Models
pub mod Samples
pub mod Auth
pub mod Audit
pub mod Api
pub mod Migration
pub mod Broker
pub mod Config
