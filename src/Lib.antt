-- ===== src/Lib.antt =====
-- The privileged VPN service of GlobalProtect-openconnect with the tunnel monitor (who may connect,
-- which attempt runs, which client owns a session, what clients are told of it), the scripts that a
-- user has approved, and on the client's side the embedded sign-in, the choice of a gateway and the
-- daemon of the widget.
--
-- Parts and files:
-- - Prelude: Boolean tests, results, lists and association maps; Prelude/Attempt has the operators
--   of do blocks over results.
-- - VpnState: the published connection state and its data (crates/gpapi/src/service/vpn_state.rs,
--   session.rs, session/connection.rs, session/desktop/connection_plan.rs, gateway/mod.rs,
--   script_tun.rs).
-- - Drain: the cancellation token and the completion that an attempt's holders share, on a heap
--   (CancellationToken and AttemptCompletion in apps/gpservice/src/vpn_task.rs).
-- - Lifecycle: LifecycleHandle and ConnectReservation of apps/gpservice/src/vpn_task.rs, one
--   function per method, on a state passed explicitly. Each method holds the mutex, so it is atomic.
--   Lifecycle/Laws and Lifecycle/Reserve hold their lemmas.
-- - VpnTask: the actor of the same file. VpnTask/Connect, VpnTask/Finish and VpnTask/Events are its
--   handlers; `end_attempt` is split at the wait for its worker. VpnTask/System puts the actor among
--   the threads around it: a Label is one atomic step of a request handler, a worker or the actor,
--   and a run is a list of labels, so that every interleaving is a run. VpnTask/Ownership,
--   VpnTask/Stopping, VpnTask/Tokens and VpnTask/Completion are about runs.
-- - Registry: SessionRegistry of apps/gpservice/src/session_registry.rs. Registry/Handshake has the
--   life of a session, Registry/Attachment the connections bound to an attachment (they take the
--   lifecycle operation as an argument, as the code takes a closure), Registry/Hip the reports of
--   the host. Registry/Claims, Registry/Pending and Registry/Closing are proofs, Registry/Calls runs
--   of calls, Registry/Preview a client that reads a preview chunk by chunk. Registry/Store fills
--   the interface SessionStore through which the actor asks the registry.
-- - Monitor: Observation and TunnelMonitor of crates/gptunnel/src/monitor.rs, with the data of
--   crates/gpapi/src/session/desktop/tunnel.rs. Monitor/State and Monitor/Apply are the methods,
--   Monitor/Sampling the requests for statistics and the moves that make up a run;
--   Monitor/Sequences, Monitor/Endings, Monitor/Freshness and Monitor/Progress are about runs.
-- - Broadcast: the service's connections to its clients. Broadcast/State, Broadcast/Server and
--   Broadcast/Events are the methods of WsServerContext in apps/gpservice/src/ws_server.rs over the
--   session registry, with ConnectionControl of apps/gpservice/src/ws_connection.rs; the tunnel
--   monitor is an interface, MonitorMethods. Broadcast/Widget is the reader of the messages in
--   apps/gpwidget/src/daemon/ws_client.rs. Broadcast/Runs has the moves of the service,
--   Broadcast/Replica, Broadcast/Synced and Broadcast/Attached what a client knows.
-- - Dispatch: RequestDispatcher of apps/gpservice/src/request_dispatcher.rs, which composes the
--   registry and the lifecycle for a request to connect; Dispatch/Replies is about its answers.
-- - HipApproval: the approved scripts of apps/gpservice/src/hip_approval.rs. HipApproval/Store has the
--   operations, HipApproval/Owners and HipApproval/Installed are proofs.
-- - SignIn: Recovery of crates/auth/src/webview/recovery.rs; SignIn/Window is the event loop
--   wait_for_auth of crates/auth/src/webview/webview_auth.rs, SignIn/Restarts is about runs of it.
--   SignIn/Certificates has the exemptions from verification of crates/auth/src/webview/gtk_tls.rs,
--   SignIn/Certificates/Consent is about them.
-- - Portal: the gateways of crates/gpapi/src/portal/config.rs; Portal/Preferred and Portal/Sorting are
--   about the choice among them.
-- - Rendering: the observer of diagnostics and the recovery of
--   crates/gpapi/src/process/rendering_recovery.rs; Rendering/Lines is about both.
-- - Widget: the daemon of apps/gpwidget. Widget/Messages has the messages of its socket and its
--   configuration, Widget its model of the connection, Widget/State, Widget/Connect, Widget/Events
--   and Widget/Daemon the methods of `Daemon` in apps/gpwidget/src/daemon/mod.rs, with the events
--   of Broadcast. What the daemon does to its surroundings is a list of effects. Widget/Branches
--   and Widget/Starting are about starting a connect flow, Widget/Snapshots about its status messages, Widget/Keeping about
--   what a turn of its loop keeps, Widget/Leaving, Widget/Resting and Widget/Watching about runs.
-- - Configuration: TunnelConfiguration of crates/gpapi/src/session/desktop/tunnel.rs and its
--   `limit_encoded_size`, with proofs in Configuration/Limits and Configuration/Cuts.
--   Configuration/Normalize is the conversion in crates/gptunnel/src/configuration.rs.
-- - Sessions: the ledger of issued gateway sessions, GatewaySessions of
--   crates/gpapi/src/session/desktop/gateway_sessions.rs; Sessions/Owned is about where they go.
-- - Tests: concrete runs.
--
-- Conventions: numbers are natural numbers, and a 64-bit count is written with its bound: the
-- attempt number wraps, a generation that cannot be counted up is an error, a sequence that cannot
-- be counted up is a panic and the result `none`. A Uuid is a number; where the code draws one, it is
-- an argument. Times are nanoseconds given as arguments. A send on a bounded queue takes its outcome
-- as an argument. Functions are structural, except the reader of a preview in Registry/Preview, whose
-- fuel is a count of requests, and the loop of Configuration, whose fuel is a count of rounds.
-- Parsing of a Uuid, JSON, base64 and digests and the sizes of messages are arguments, as is the
-- shortening of a configuration in Broadcast. The generations of the widget wrap, and
-- its requests are sent at once, where the code sends some from tasks of their own.
--
-- Not modelled: the worker of an attempt (its events are steps of the environment), the preparation
-- of client identities, poisoned locks of the lifecycle (they end the process), logging, the clearing
-- of memory, failures of the disk, sockets and their encryption, the dispatcher's other requests,
-- requests to portals and gateways and their answers, the connect flow of the widget, web views
-- (but for the certificates on GTK),
-- the command line, user interfaces, and the bindings to libopenconnect. The validation of an
-- edited report and, in Monitor, the normalization of a configuration are any function.
pub mod Prelude
pub mod VpnState
pub mod Drain
pub mod Lifecycle
pub mod VpnTask
pub mod Registry
pub mod Monitor
pub mod SignIn
pub mod HipApproval
pub mod Broadcast
pub mod Portal
pub mod Dispatch
pub mod Rendering
pub mod Widget
pub mod Configuration
pub mod Sessions
pub mod Tests
