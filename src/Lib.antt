-- ===== src/Lib.antt =====
-- A verification of the core of ntwire, which tunnels TCP and UDP over WireGuard between a client
-- and a server, with a public relay for servers that nobody can reach directly. The names
-- below are those of Go code in the repository.
--
-- The relay routes a connection by the server name of its ClientHello to a server that registered
-- for that name and keeps a control connection, and forwards UDP between a server's port and a
-- client's address.
-- * Relay/Sni.antt is the ClientHello parser of pkg/relay/sni.go, Relay/Sni/Peek.antt the reassembly of
--   TLS records around it. Encoding.antt says what a client sends, after the RFCs.
-- * Relay/Registry.antt is Registry of pkg/relay/registry.go: Register (Register.antt), Open,
--   Redeem, Release and cancelPending (Registry.antt), ReplaceRegistrations (Agents.antt), and
--   UpsertKubernetes, RemoveKubernetes and the choices of OpenSNI (Kubernetes.antt, with
--   Kubernetes/History.antt for any sequence of the first two). Every section
--   under the mutex is one function, and Steps.antt runs them in any order, which covers every
--   interleaving of the goroutines that call them.
-- * Relay/Udp/Ports.antt, Session.antt and Table.antt are portAllocator, udpRelaySession and
--   udpSessionTable of pkg/relay/udpsession.go; Table/Steps.antt runs the calls in any order.
--   Udp/Forward.antt is the two handlers of pkg/relay/udpforward.go, over the control frames of
--   pkg/wstransport/direct.go (Udp/Frames.antt).
-- * Server/Sessions.antt is Sessions of pkg/server/session.go.
-- * Relay/NativeWireguard.antt is nativeWGRelay of pkg/relay/nativewg.go: issue, remove, handle and
--   recordPair. Tokens.antt runs them in any order; Fifo.antt is the two bounded maps.
-- * Server/RelayPool.antt is RelayPool of pkg/server/relaypool.go. update has two critical sections, and
--   RelayPool/World.antt runs those of many updates in any order, with what the callbacks are told.
-- * Multipath/Scheduler.antt is Scheduler of pkg/wstransport/multipath.go over Multipath/Candidate.antt,
--   Scheduler/Steps.antt its calls in any order; Duplicates.antt is DuplicateCache, and PathMtu.antt is
--   pathmtu.go. RateLimiter.antt is byteRateLimiter of multipath_options.go, and Bind.antt is Send of
--   MultipathBind over these. The penalty of a loss and the quotient of a score are floats in the code: a parameter
--   here for the scheduler, a fraction for the pool.
-- * AuthLimit is pkg/authlimit/authlimit.go: NonceCache, which Register calls, and SourceLimiter.
-- * Protocol is the signed payloads and the capabilities of pkg/protocol/protocol.go.
-- * Egress/Filter.antt is pkg/socks/filter.go, which Egress/Policy.antt uses as
--   pkg/server/policy.go does, for what a tunnel may reach.
-- * Client/TransportState.antt is pkg/client/transportstate.go, the client's route.
-- * Tray/SlotPool.antt is slotPool of internal/gui/tray/pool.go.
-- * Base holds what these share, and Tests concrete inputs.
--
-- Times are nanoseconds in the natural numbers, and a call is given the clock's reading. A Go map
-- is an association list with each key once; where the order of a map matters, the list's order
-- stands for the order that Go happens to take. Bytes are numbers below 256. Packet counters wrap at
-- 2^64. Random identifiers are arguments, and a run supposes that they are not in use.
--
-- The loops of the ClientHello parser take fuel: one more than the bytes that they read, each turn of
-- which takes some; the loop over records takes five, since the fifth record is refused. Relay/Sni/Replay.antt
-- shows that neither runs out.
--
-- Not modelled: sockets, channels, HTTP, WireGuard, TLS and logging, which are input and output; what
-- Go's libraries compute (netip, strings, time, x/crypto) is a parameter. The sockets of the
-- multipath binds, the client and the rest of the
-- user interface are not modelled.
pub mod AuthLimit
pub mod Base
pub mod Client
pub mod Egress
pub mod Multipath
pub mod Protocol
pub mod Relay
pub mod Server
pub mod Tests
pub mod Tray
