-- ===== src/Lib.antt =====
-- outway, an HTTP and SOCKS5 proxy that chooses its source addresses: the core of its behaviour.
--
-- A client authenticates (internal/server/socks, internal/server/http), its username may carry
-- an extension (internal/ext), and its connections are dialled from a source address inside a
-- configured CIDR that the extension selects (internal/connect). Names are resolved through a
-- shared cache (internal/connect/dns_cache.go), and the servers limit and register their
-- connections (internal/serverbase).
--
-- The files, and what they model:
--   Base      helpers: Boolean tests, lists, byte strings, big-endian numbers, bit operations,
--             `int` where it may be negative, maps keyed by strings
--   Net       the standard library's netip addresses, as far as the code uses them
--   Wire      internal/server/socks/proto/proto.go: streams with errors, as a state monad
--   Proto     internal/server/socks/proto: addresses (address.go), datagrams (udp.go), commands,
--             replies, requests and responses
--   Handshake internal/server/socks/proto/handshake: method selection, username and password
--   Socks     internal/server/socks: authentication of a connection (Auth, for auth.go and
--             conn.go); of server.go who may send datagrams (Relay), which batches go out in one
--             send (Gso), what is read before a command (Negotiate), what the commands do
--             (Commands), and the datagrams of a client (Inbound) and of its targets
--             (Responder); what all associations share, and what their goroutines
--             do to it in turns (Runtime, for udp_runtime.go); how batches are written and read on Linux (Writer and Reader,
--             for udp_io_linux.go, udp_gso_linux.go and udp_gro_linux.go)
--   Ext       internal/ext/ext.go: extensions of usernames; the clock is an argument
--   Config    internal/config/config.go: the configuration and its validation
--   Server    internal/serverbase/serverbase.go: the gate (Gate), the set of connections
--             (Registry), listeners (Listen), and the accept loop of
--             internal/server/socks/server.go that shares them (Accept)
--   Connect   internal/connect: 128-bit arithmetic (Uint128), source addresses (Source), the cache
--             of names (Dns), the source that a dial uses (Dial), the loops that wait for racing
--             dials (Race), resolving and UDP packets (Relay)
--   Http      internal/server/http: authentication of a request (Auth, for auth.go), and of
--             server.go the transports (Transports), hop-by-hop headers (Headers) and the
--             handling of a request (Handler)
--   Auto      internal/server/auto.go: a connection from its first byte on
--   Examples  runs at concrete inputs
--
-- State and concurrency: what a lock protects is a record, each critical section is one function
-- on it, and the interleavings are the lists of these steps that a relation `Reachable` collects.
-- Where code takes several steps without a lock, as on the shared UDP runtime, each operation on
-- a channel or a counter is a step, and a record counts the goroutines between two of them
-- (Socks/Runtime/Steps); what is said of one goroutine alone takes its steps together. A buffered
-- channel of tokens is its capacity and its count. A loop around a select is a machine that the
-- messages it receives drive. Times are numbers of nanoseconds.
--
-- Machine integers: a byte, a uint32 and a uint64 are native numbers with the wrap-around of each
-- operation written out; the lengths of slices and the counters do not overflow. The loops of the
-- code are structural recursion, but for three on fuel: a super-datagram is cut into segments, of
-- which there are no more than the 64 that the kernel allows or one for each packet of the batch;
-- and the loops of sendmmsg and of UDP_SEGMENT sends have as many turns as there are packets,
-- since each turn but the last sends one.
--
-- Buffers: a pooled buffer is its bytes and a name, and what is put back into the pool is the list
-- of these names. Where a function has effects on sockets, they are the list of what it does, in
-- order, a deferred close where the function returns.
--
-- Arguments of the model, not definitions: random numbers, the clock, the operating system's
-- answers to listening, dialling, reading, sending and closing, `netip.ParseAddr`,
-- `net.SplitHostPort`, base64, the round trip of a transport, and the resolver.
-- `strings.ToLower` is modelled on ASCII, which host names and log levels are.
--
-- Not modelled: the epoll reactor and the watch over the control connection of an association
-- (system calls and timers), the accept loops of the HTTP server and of protocol detection, which
-- repeat that of the SOCKS5 server, the bytes of HTTP responses (net/http), TLS, half-closing
-- copies, logging, the daemon, the command line, and self-update.
pub mod Base
pub mod Net
pub mod Wire
pub mod Server
pub mod Http
pub mod Auto
pub mod Config
pub mod Proto
pub mod Handshake
pub mod Ext
pub mod Socks
pub mod Connect
pub mod Examples
