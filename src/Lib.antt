-- ===== src/Lib.antt =====
-- A model of the core of the MikroTik OpenVPN dashboard, and its correctness.
--
-- The dashboard reads the state of a router over two protocols and streams it to browsers. The
-- router's Binary API (routeros_binary.py) gives sentences of words; the broker
-- (telemetry_broker.py) makes of each reply or snapshot a cache of VPN sessions and numbered
-- events; the gateway (telemetry_gateway.py) redacts the events into frames, keeps the newest of
-- them, and gives each subscriber what it has not seen; the polling bridge
-- (telemetry_socketio_polling.py) carries the frames over HTTP. The login limiter (security.py)
-- stands before all of it, and telemetry_state.py says how fresh the stream is.
--
-- Binary: the Binary API. Length is `encode_length` and `decode_length`, Words is `encode_word`,
--   `encode_sentence` and `decode_words`, Reader is `SentenceReader`, Reply is `parse_reply`, Query
--   is `_validated_query`, Connection is `RouterOSBinaryConnection` on what its socket gives. A
--   byte is a number. The loops that scan and feed run on fuel, one step for each byte that is
--   left. The socket answers without an end; the loop that reads it runs on fuel, one step for each
--   byte that the limit on a sentence allows, since a round that goes on adds a byte to a buffer that
--   stays below the limit.
-- Broker: Text is `_text` and the counters, Session is `normalize_session`,
--   `_preserve_unobserved_counters` and `_payload`, Sessions is `apply`, Reconcile is `reconcile`
--   and `recovery_snapshot`, Interfaces is `reconcile_interfaces`, Run is any run of replies and
--   snapshots of sessions.
-- Gateway: Value is the Python values of a payload, Limits the constants, Bounded the checks of one
--   value, Frame is `_build_frame`, Principal who may stream, Queue is `open`, `close` and
--   `publish`, Poll is `poll`.
-- Polling: Bridge is `handshake` and the closing of clients, Post is `post`, Poll is `poll`.
-- Limiter: Attempts is `reserve` and `finish` of `LoginRateLimiter`, Audit its four audit calls.
-- Freshness: State is `TelemetryRuntimeState`.
-- SessionStore: State is the tables of `SessionStore` (security.py) and their bookkeeping, Lookup
--   is `get` and the other questions, Create is `create` and `rotate`, Revoke every revocation,
--   with the retry that it queues where it does not get a lock, Roles is `revalidate_role`.
-- Supervisor: Attempt is `run_attempt` and `_publish` of `TelemetrySupervisor`, Retry is
--   `run_forever`, Sampler is `TelemetryInterfaceSampler`. A run takes its attempts from a list of
--   answers from outside, with what its handlers of events raise.
-- Stream: `_publish` of telemetry_runtime.py, which takes the events of the broker to the gateway.
-- Common: what these share; Dict is a Python dict as a list of its items in insertion order.
--
-- A call that Python runs under a lock is one step. Exceptions are values. A clock is an argument,
-- as are new identifiers and what another thread does while a call waits. Parameters of the model
-- are Python's floats and their division, `strip`, `str`, `int`, `isdecimal` and the decoding of
-- UTF-8 on texts, and the length of `json.dumps`.
--
-- Not modelled: sockets and TLS, SQL, HTML, the web framework, and the command line tools; the lock
-- objects of the session store and the worker that makes its queued revocations; and the
-- supervisor's thread that closes a connection whose authorization has gone.
pub mod Common
pub mod Binary
pub mod Limiter
pub mod Gateway
pub mod Broker
pub mod Polling
pub mod Freshness
pub mod SessionStore
pub mod Supervisor
pub mod Stream
