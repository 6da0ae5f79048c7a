-- ===== src/Lib.antt =====
-- CHIMERA: a verification library for the Python code of macbastion, the hub in chimera/core and the
-- modules PULSE and ORACLE in chimera/modules.
--
-- Core is one process that the modules (vault, tether, pulse, oracle, ...) reach over a UNIX socket.
-- Its server (chimera/core/server.py) parses JSON-RPC frames, checks a capability token, and either
-- answers a `core.*` method or routes a module's method to the connection of that module. Behind it
-- stand the registry of modules, the lifecycle that each module's state walks, the broker that fans
-- events out, the supervisor that launches the processes, and the stores for the override phrase, the
-- audit trail and PURGE.
--
-- Errors models chimera/core/errors.py, with Python's exceptions as values; Exec is a small monad for
-- methods that change an object and may raise, where what was written before a raise stays written.
-- Broker models broker.py: a queue is a list, a subscription has the number that stands for the
-- object. Lifecycle models lifecycle.py at microsecond ticks, Registry models registry.py: it holds
-- the lifecycle, which holds the broker, since they share them. Gate, Override, Tokens, Tier0, Audit and
-- Envelope model gate.py, override.py, tokens.py, tier0.py, audit.py and envelope.py. Supervisor
-- models the waves of supervisor.py, Supervisor/Processes its launches and restarts
-- (proofs in Boot and Restarts below it). Server models
-- server.py: Server/Params the parameters and error responses, Server/Router the forwarding of
-- requests, Server/Reflex what core does on events, Server/Handlers the `core.*` methods,
-- Server/Command the dispatch and the life of a connection. Server/Replies, Writes, Authority and
-- Actuation hold the proofs on these. Tests applies the theorems to a small concrete core.
--
-- Server/Sockets models `start`, `stop` and one turn of each loop on events, Server/Delivery proves
-- what a loop does with an event. Helpers models the clients to the privileged helpers, shim_client.py
-- and echo_shaper_client.py, which differ in their words; Helpers/Secrets has the proofs on the secret.
-- Cli models the launch and the installation in __main__.py, with the proofs in Cli/Agents; Cli/Monitor
-- models `run_up`, which ties supervisor and core together, with the proofs in Cli/Monitor/Respawns.
--
-- Pulse models the PULSE module, chimera/modules/pulse/pulse: Pulse itself idle.py, chronotype.py and
-- registry.py, Pulse/Scoring scoring.py, input.py, drift.py and temporal.py, Pulse/Store baseline.py and
-- assess.py, Pulse/Client the signals and the tick of client.py, Pulse/Dispatch its requests and its
-- loop over a sequence of inputs. Pulse/Scores, Retention, Quiet, Inert and Habits hold the proofs.
-- Oracle models the ORACLE module, chimera/modules/oracle/oracle: Oracle/Store baseline.py, Oracle/Detector
-- detector.py, Oracle/Ask query.py and ask.py, Oracle/Client observer.py and client.py. Oracle/Counts,
-- Edges, Trace and Windows hold the proofs. What core and the modules have to say to each other goes
-- through the frames that Envelope parses and the events that Broker hands on.
--
-- Parameters: Prelude/Floats has the operations on Python's floats as a record, with the laws of the
-- order that the proofs use (FloatLaws); Cipher stands for the encryption of stored
-- rows; ISO dates, the language model's answers and the regular expressions that salvage them are
-- functions in the environment of the module that uses them. `int()` of a text is a parameter too.
--
-- An `await` hands the state to the other tasks of the event loop: an operation that awaits takes a
-- function on the state, `pause`, for what they do. The state records what was written to modules and
-- asked of the privileged shim, and the clock is a field of it.
--
-- Fuel: the waves of the supervisor run on one unit more than there are modules, which is enough
-- because a wave takes a module at least. All other loops are structural.
--
-- Simplified: the calls of one helper client run one after the other, so that two tasks that both shake
-- hands are not modelled; a `core.subscribe` with topics that are no texts is refused with an error, where
-- the source accepts it and fails at the next publication. A launch of a process can fail, as `Popen`
-- does; which calls fail is a parameter of the supervisor.
--
-- Not modelled: JSON text, reading and writing of sockets, file permissions, SQLite itself (a table is
-- a list of rows), pydantic's loading of the configuration; PBKDF2, HMAC and base64 are parameters.
-- Floats of the wire are texts that the program hands on. Left aside are the native modules, the
-- rendering of the status view, argument parsing, signal handlers, and of the two Python modules the
-- connecting and reconnecting of their sockets, their heartbeats, and ORACLE's prompts and HTTP client.
pub mod Prelude
pub mod Errors
pub mod Exec
pub mod Broker
pub mod Cipher
pub mod Cli
pub mod Config
pub mod Oracle
pub mod Helpers
pub mod Lifecycle
pub mod Registry
pub mod Gate
pub mod Override
pub mod Envelope
pub mod Audit
pub mod Tier0
pub mod Tokens
pub mod Supervisor
pub mod Server
pub mod Tests
pub mod Pulse
