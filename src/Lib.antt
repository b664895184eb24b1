-- ===== src/Lib.antt =====
-- NCX for mall: a relay that makes a service of an inner network reachable from outside. The server
-- (ncx_server) listens for clients. A client (ncx_client) says hello on a control channel; the server
-- answers with a nonce and opens a port for visitors. For each visitor the server asks the client for a
-- data channel, and joins the two by a bridge that forwards what either end receives to the other.
-- Below both lies the network layer (network): an epoll loop with channels, connections and buffers,
-- and the messages with their headers (protocol).
--
-- The files, bottom up:
-- - Prelude and its children: Boolean tests, lists over the native numbers, faults and results, and
--   `std::unordered_map` as an association list.
-- - Memory: the parts of `std::vector<char>` and `std::copy` that the buffer uses.
-- - Buffer (network/buffer.h, network/buffer.cpp): `Buffer` with its two indices. `append` is Append,
--   `retrieve` is Retrieve, and so on; a `char*` into the buffer is an index. Buffer/Invariant has
--   validity and writing, Buffer/Reads reading, Buffer/Queue the abstract queue of bytes, and
--   Buffer/Refine the refinement.
-- - Protocol (protocol/protocol.proto and the serializers in protocol/protocol.pb.cc): the messages.
--   The functions of the protobuf library are the fields of `Wire`, a parameter; `HeaderLaws` is what
--   is relied on of them: a fixed32 field takes five bytes, is read back, and is below 2^32.
-- - Framing (protocol/protoMsgUtil.h): `header_installer` and `can_read_msg`, and `read_msg`, which is
--   how each message handler begins. Framing/Receive, Framing/Frames and Framing/Stream have the
--   results for any bytes, for one frame and for a stream.
-- - Socket (ReadNonBlocking, WriteNonBlocking and Send of network/connection.cpp): the results of the
--   system calls are a list, one to a call; a loop ends with the list at the latest, with the exit
--   `loops`, so no fuel is needed. Socket/Reading and Socket/Writing.
-- - Channel (network/channel.cpp, network/epoll.cpp): the events of a descriptor, and the calls of
--   `epoll_ctl`. Channel/Registration, and Channel/Running for the callbacks of an event.
-- - EventLoop (network/EventLoop.cpp): a step relation for the loop's thread and the threads that give
--   it tasks. A step is what happens between two points where another thread can come in.
--   EventLoop/Order. EventLoop/Wakeup adds the eventfd, with the point between `add_to_do` and
--   `wakeup_loop`; EventLoop/Awake and EventLoop/Alone have its results.
-- - Address (network/InetAddress.cpp): addresses over the conversions of the system, a parameter.
-- - Exceptions: how code with exceptions ends (`Try`), and in Exceptions/Rules how it is compared with a
--   description by options.
-- - Config (util/config.h): the parsers of the server's and the client's configuration over `Toml`, which
--   stands for the TOML library; of its casts `TomlLaws` asks that they succeed just where the tests say
--   so. Config/Parsed; Config/Remote has the configuration that comes from a gateway.
-- - Model (http/model.h): the messages of the gateway over `Json`, which stands for the JSON library, and
--   `JsonLaws`, what is relied on of it. Model/Service, Model/Parsed and Model/RoundTrip.
-- - Http (http/http_client.h, http/code.h): the session as a state machine; `Network` has the results of
--   its operations. Four completions are all that a session has, which is the fuel of `io_run`. Http/Run.
-- - Connection (network/connection.h, network/connection.cpp): a connection, made and torn down. Its
--   callbacks are named by constructors. Connection/Life.
-- - Server (network/server.cpp, ncx_server/bridgecloser.cpp, ncx_server/scontrolchannel.h): the state of
--   the server and the closing of connections. Connections are numbers, so that servers, queues and
--   bridges share them; a weak pointer is a number that is tested with `is_alive`. `handle_close` calls
--   itself through the bridge that it cuts off, and is defined on fuel; Server/Fuel has how much is
--   enough and Server/Kept what closing leaves as it is. Server/Closing, Server/Bridges (with Origin and Visitor) and Server/Waiting.
-- - NServer (ncx_server/nserver.cpp, ncx_server/scontrolchannel.cpp, newConnectionHandle of
--   network/server.cpp): hellos, visitors and forwarding. NServer/Forwarding, NServer/Tunnel,
--   NServer/Handshake, NServer/Arrival, NServer/Opening and NServer/Throughput. NServer/Sound has the
--   invariant of the whole server, over its connections, queues and bridges; its children show that
--   each event keeps it (Events, Queues, Arriving, Joining, Reads), and what follows for the states
--   that the server comes to from its start (Reach, Apart).
-- - Client (ncx_client/ccontrolchannel.cpp, ncx_client/datachannel.cpp, ncx_client/nclient.cpp): the
--   control channel's hello, its registration under the server's nonce, its commands, and data
--   channels. Client/Registration and Client/Relay; Client/Duplex has the read events of a data channel's
--   two connections and its deletion, with Client/Duplex/Handlers and Client/Duplex/Backward: a handler
--   has its `this` as an option, which is empty once the channel is deleted. Client/Startup makes the
--   control channels of a configuration, whose starts wait in the loop's queue until it runs, with
--   Client/Startup/Registered.
-- - Session: server and client together. What the write loop of `Send` puts on the wire for a text comes
--   in at the other side in one read event, cut into pieces. The results of `write` and the cuts are a
--   parameter, `Transport`; `TakesWhole` is the condition that the kernel takes each text in one piece,
--   without which Socket/Writing shows that texts are doubled or lost. Session/Hop has one such hop,
--   Session/Serving, Session/Bridging and Session/Relaying the server's events, Session/Dialling the
--   client's, and Session/Opened and Session/Whole the run.
-- - Connector (network/client.cpp, network/connector.cpp): how a client connects and loses its
--   connection, on the loop's thread. Connector/Once.
-- - TcpSocket (network/socket.cpp, network/acceptor.cpp): how a socket connects, accepts, reads and writes;
--   the results of the system calls are a parameter, and so is what `epoll_wait` says of the listening
--   descriptor, with what epoll(7) says of it as `EpollLaws`. TcpSocket/Connect, TcpSocket/Accept and
--   TcpSocket/Transfer.
-- - Cli (cli/cli.h): the command line of the client, over `Shell`, which has the option parser and the
--   files. Cli/Starts.
-- - Tests and its children: the library at concrete values.
--
-- Numbers are natural; `size_t` sums and differences are taken modulo 2^64, the length in a header
-- modulo 2^32 and a port modulo 2^16. The largest vector has 2^63 - 1 bytes.
--
-- Not modelled: the destructors, what else network/socket.cpp and network/socketops.cpp do, which
-- are calls of the system, the entry points, the thread pool (network/evPoolThread.cpp), the
-- log output, and the code that the protobuf compiler makes but for the serializers. A `write` that
-- fails and so closes the connection in the middle of `Send` is modelled in Socket but not in
-- NServer, where `Send` is recorded with its text. What the assignment to `req.body` in
-- util/config.h does is a parameter, since the line does not compile. Before `run` the loop's `tid_`
-- has no value; it is taken not to be the current thread's, so that tasks are queued.
pub mod Prelude
pub mod Http
pub mod Memory
pub mod Model
pub mod Buffer
pub mod Protocol
pub mod Framing
pub mod Socket
pub mod Channel
pub mod EventLoop
pub mod Connection
pub mod Server
pub mod TcpSocket
pub mod NServer
pub mod Session
pub mod Cli
pub mod Client
pub mod Connector
pub mod Address
pub mod Exceptions
pub mod Config
pub mod Tests
