-- ===== src/Lib.antt =====
-- The message bus of zerobus: listeners subscribe to named channels and post messages to them, and
-- bridges carry channels and messages between buses.
--
-- Prelude.antt: Boolean tests, lists, bits, keys, association lists and maps in key order.
-- Messages.antt: src/zerobus/message.h, the operations of bridge_api.h and namespace Msg of
--   bridge.h, as data.
-- Wire.antt: src/zerobus/serialization.h and serialization.cpp. Wire/Uint.antt has write_uint,
--   write_string and their readers, Wire/Codec.antt the overloads of Serialization and
--   Deserialization. A text is a list of bytes; a reader returns what it leaves.
-- Bus.antt: src/zerobus/local_bus.h and local_bus.cpp. Bus/Channel.antt is ChanDef,
--   Bus/BackPath.antt is BackPathStorage, Bus/State.antt the fields of LocalBus and of TLState,
--   Bus/Deferred.antt the queue of changes to subscriptions, Bus/Subscriptions.antt,
--   Bus/Groups.antt and Bus/Serial.antt the operations of the same subjects, Bus/Routing.antt
--   send_message, dispatch_message and forward_message_internal, and Bus/Delivery.antt the queue
--   of messages with the listeners' callbacks. Bus/Valid.antt has the invariant of the bus and
--   Bus/Effect.antt what an operation does to the subscriptions.
--
-- WebSocket.antt: src/zerobus/websocket.h and websocket.cpp, Parser and Builder of frames.
--   WebSocket/Parser.antt has push_data, finalize and get_message, WebSocket/Builder.antt build_t,
--   WebSocket/Sha1.antt class SHA1 and WebSocket/Accept.antt base64_encode and calculate_ws_accept.
--
-- Bridge.antt: src/zerobus/bridge.h, bridge.cpp, bridge_api.h and filter.h. Bridge/Api.antt has what
--   AbstractBridge uses of a bus and of a filter, as records of operations, and its own fields;
--   Bridge/Channels.antt send_mine_channels and check_rules, Bridge/Receive.antt the overloads of
--   receive, Bridge/Listener.antt the callbacks from the bus, Bridge/Local.antt LocalBus as the bus
--   behind a bridge. Bridge/View.antt has what the other side knows by the updates sent to it. What a
--   bridge sends is recorded in `sent`.
-- Pipe.antt: src/zerobus/bridge_pipe.h and bridge_pipe.cpp, the messages of a bridge on a pipe.
--   INetContext is a parameter: the count of bytes that a send accepts is an argument, and the other
--   calls are recorded.
-- Http.antt: src/zerobus/http_utils.h, the parsing of headers, the comparison of strings and
--   url_decode.
-- Tcp.antt: src/zerobus/bridge_tcp_common.h and bridge_tcp_common.cpp, the queue of output, with
--   lost_connection of src/zerobus/bridge_tcp_client.cpp. Tcp/Input.antt has receive_complete after
--   the handshake. Tcp/Client.antt has the step relation of a client's
--   output; the events that the network may bring come in any order in it. Tcp/Request.antt has
--   the request of send_handshake with parse_websocket_header and websocket_handshake of
--   src/zerobus/bridge_tcp_server.cpp, Tcp/Handshake.antt the response and check_ws_response, and
--   Tcp/Peer.antt the check for dead peers. Tcp/Address.antt has the parts of a URL,
--   Tcp/Connection.antt class BridgeTCPClient with its handshake, Tcp/Server.antt class
--   BridgeTCPServer with its list of peers, Tcp/Server/Session.antt what a peer does with its
--   handshake and its session, and Tcp/Server/Events.antt and Tcp/Server/Timeout.antt what the
--   server's events and its timeout leave. The counter of the peers' numbers has 32 bits.
-- Net.antt: class NetContext of src/zerobus/network_linux.h and network_linux.cpp. Net/Socket.antt
--   has the table of sockets, Net/Timer.antt the set of timers, Net/Call.antt the calls of
--   INetContext and Net/Event.antt process_event_lk and the loops of run_worker. What the kernel
--   answers is an argument, but for changes and removals in the epoll, which are taken to succeed;
--   what is asked of it is recorded, and the peers and servers, with what other threads do
--   meanwhile, are a function from a callback to the calls made during it.
--   Net/Valid.antt has the invariant of the context. Net/Command.antt has parse_command_line.
--
-- Objects that the program shares by pointer are numbers on a heap that is part of the state, and
-- the null pointer is 0. What the bus calls on listeners and monitors is a list of events. A
-- listener is a function from the events so far and the message to the calls that it makes from
-- on_message, so a call inside it meets the running delivery and its queues, or the lock if it is
-- called on a return path. The other callbacks of listeners, and the monitors, make no calls here.
--
-- Loops are structural recursion, recursion on Acc (write_uint), or have a bound: the eviction of
-- return paths has a round for each entry, which is always enough, and the delivery loop has as
-- many rounds as the caller gives, since listeners that answer one another for ever keep the
-- program in it too; a delivery that has not ended by then is the value `unfinished`, and so is a call
-- on a return path that is deeper inside others than the caller's bound. The loop of
-- SHA1's update has a round for each byte, and each round takes at least one, and so has
-- parse_messages, receive_complete over TCP and parse_http_header; alloc_socket_lk needs no more
-- rounds than the first free number and one. send_mine_channels and the loops of run_worker have as
-- many rounds as the caller gives: a filter that changes its rules whenever it is asked, or a
-- callback that sets a timer in the past, keeps the program in the loop too.
--
-- Mailbox addresses are generated from the clock, the process number, a counter and a random
-- device: they are a stream of names here, which the invariant asks to be distinct. Threads, the
-- locks of the operating system and memory resources are not modelled: the state machine is that
-- of one thread; what other threads add to the lock of send_mine_channels is looked at by itself,
-- and a NetContext has one worker.
--
-- Not modelled: the direct bridge, which hands each message to its other half inside the call; the
-- making of sockets from addresses, the epoll, processes and the network of Windows, which are
-- calls of the operating system; class Stream of the HTTP helpers, whose operations hold a lock
-- from one call to another; url_encode, whose test for characters returns nothing, so that it
-- cannot be instantiated; the client helpers, the abstract interfaces, and the programs of
-- src/server and src/examples.
pub mod Prelude
pub mod Messages
pub mod Wire
pub mod Bus
pub mod WebSocket
pub mod Bridge
pub mod Http
pub mod Pipe
pub mod Tcp
pub mod Net
