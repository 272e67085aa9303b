-- ===== src/Lib.antt =====
-- A verification library for three programs of this repository. The virtual ECU, virtual_ecu/virtecu,
-- is a DoIP (ISO 13400-2) entity over TCP that answers UDS (ISO 14229) requests, with plugins in front
-- of its built-in services. The edge node, doip_edgenode, is a DoIP gateway: testers connect to it,
-- and it relays their diagnostic messages to ECUs over DoIP connections of its own. The echo ECU,
-- echo_ecu, is a small ECU to relay to.
--
-- The parts of the virtual ECU, from the wire inwards. A connection (session.py, `EcuSession`) has
-- three tasks. Its pump reads frames (doip.py), handles routing activation, alive checks and
-- diagnostic messages, and queues accepted requests. Its worker takes one request after another
-- through `resolve_uds`, which sends 0x78 while the handlers run, to the dispatcher (dispatcher.py):
-- observers, service hooks, catch-alls, the core services (services/), the fallback. Its supervisor
-- ends the connection at the inactivity deadlines. All connections share the registry of testers, the
-- table of session states (core.py) and the stored DID values (store.py). Beside the connections,
-- DoIP-layer hooks decide codes and replies (doip_dispatcher.py), and UDP discovery answers vehicle
-- identification (udp.py).
--
-- The parts of the edge node. A tester's session (session.py, `TesterSession`) reads frames, admits
-- the tester through the registry (session_registry.py), which bounds the number of sessions and
-- keeps one session for a source address, checks the addresses of a diagnostic message against the
-- routing table (routing.py), and forwards it through the ECU's link (ecu_client.py). Replies from an
-- ECU pass a chain of middleware (middleware/) on their way to the tester. Beside the sessions it
-- answers UDP discovery (udp_announcer.py).
--
-- Base, Base/: lists, dictionaries, byte strings, Boolean tests on numbers.
-- Doip: virtual_ecu/virtecu/doip.py. `read_frame` is a function from the bytes to come to a
--   `ReadResult`; a stream that ends early is `incomplete_read`.
-- Config: the dataclasses of virtual_ecu/virtecu/config.py, with the fields that the model reads.
-- Uds: virtual_ecu/virtecu/uds.py. A SID of -1, that of an empty request, is `none`.
-- Effect: the process state `World`, and `Action`: a handler returns or raises, and leaves a world.
-- Store, Core: store.py and core.py. `SessionState` objects are identities into `World.objects`, so
--   that Python's `is` is equality of identities; an armed S3 timer is the time at which it fires.
-- Hooks, Dispatcher: dispatcher.py, its tables with the hooks of plugin.py, and its ladder. A plugin's
--   method is any `Action`.
-- Services, Identifier, Routine, CoreServices: the files of virtual_ecu/virtecu/services.
-- Resolve: `resolve_uds` and `_dispatch_with_p2` of session.py.
-- Session, Pump, Worker: `SessionRegistry` and `EcuSession` of session.py. A connection is a number,
--   `System` holds all connections, the registry and the frames sent, oldest first.
-- Entity: the tasks of all connections as one step relation.
-- DoipHooks: virtual_ecu/virtecu/doip_dispatcher.py, registration of DoIP-layer hooks and their
--   resolution.
-- Discovery: virtual_ecu/virtecu/udp.py, the guard against storms and the handling of a datagram.
-- Gateway: the parts of doip_edgenode/config.py and doip_edgenode/routing.py that sessions read.
--   Gateway.Wire is the reading of frames, Gateway.Activation is session_registry.py and routing
--   activation, Gateway.Diagnostic the checks and forwarding of diagnostic messages, Gateway.Exchange
--   the wait for an ECU's replies, Gateway.Serving a frame from its dispatch to its end, all with
--   doip_edgenode/session.py. Gateway.EcuLink is
--   doip_edgenode/ecu_client.py, Gateway.Middleware the chain of doip_edgenode/middleware and
--   Gateway.Announcer the discovery socket of doip_edgenode/udp_announcer.py.
-- Echo: echo_ecu/echo_ecu.py, its framing, and its connections with their registry as one step
--   relation.
-- Tests, Tests/: the properties at concrete inputs.
-- A child module states and proves what its name says about its parent, or models a part of it.
--
-- Fuel. `wait_loop` of Resolve runs on fuel, one unit for each waiting window; one unit more than
-- `max_response_pending` is enough. In Gateway, the reading of a stream
-- of frames takes one unit for each frame and the skipping of a payload one for each byte, and the
-- wait for replies takes the milliseconds of its budget and the deliveries to come, which are enough. All
-- other loops are structural.
--
-- What is assumed. Between two waits of asyncio a step is not interrupted; the one wait inside a
-- handler of the pump, for an Alive Check Response, splits routing activation into
-- `handle_routing_activation` and `after_probe`. A request's handlers run as one step of the worker;
-- when they end is the parameter `Timing`, as is what a handler that is cancelled has done by then.
-- The registry is present, and an event loop runs. For a session of the virtual ECU DoIP-layer hooks
-- are their results (`Overrides`), which DoipHooks computes, and those of frames and of sending change
-- nothing. A frame that is sent reaches the writer: a closed socket's errors are left out. Numbers
-- that the configuration loader admits only when they are not negative are natural numbers, and so
-- are the priorities of hooks. A plugin's method raises no `BaseException` but a cancellation.
-- In the edge node the activation lock of an address is an asyncio.Lock, which one session holds at a
-- time; the result of a probe and the time at which each frame arrives from an ECU are arguments; a
-- packet of Scapy is its bytes; the relay of an ECU's frame takes no time and raises nothing.
--
-- What is not modelled: the loaders and checks of both config.py, the socket code of server.py and
-- netutil.py of both programs, loading of plugins, logging and descriptions; of the edge node, the
-- server, the TLS bridge, the retirement of sessions and their timers, and the
-- middleware that replays, delays, logs, rewrites addresses or breaks TLS; the sockets and the
-- configuration of echo_ecu; pc_tester, the tools, the tests and the container files.
mod Base
pub mod Doip
pub mod Config
pub mod Uds
pub mod Effect
pub mod Store
pub mod Core
pub mod Hooks
pub mod Dispatcher
pub mod Services
pub mod Identifier
pub mod Routine
pub mod CoreServices
pub mod Resolve
pub mod Session
pub mod Pump
pub mod Worker
pub mod Entity
pub mod DoipHooks
pub mod Discovery
pub mod Gateway
pub mod Tests
pub mod Echo
