-- ===== src/Lib.antt =====
-- lua-server: a network server framework in C++ for Lua. This library models the code by which a
-- TCP connection turns messages into bytes and bytes into messages, and some of what stands beside
-- it. All paths are below src/.
--
-- Parts, and how they interact
--   ByteBuffer: common/ByteBuffer.h and .cpp. A byte vector with a read and a write position; every
--     method is a function on the record. ByteBuffer/Values: the operators << and >> and the typed
--     pushes and getters of network/BasePacket.cpp.
--   MessageBuffer: network/MessageBuffer.h, the receive buffer of a socket. MessageBuffer/Laws: its
--     invariant; MessageBuffer/Growth: Normalize, Write and EnsureFreeSpace.
--   NetPacket: network/NetPacket.cpp and the part of BasePacket.cpp that it uses. A packet is its
--     ByteBuffer, with a head of 8 bytes.
--   NetConnect: network/NetConnect.cpp, `on_msgbuffer` one round at a time. NetConnect/Stream is its
--     specification, which reads the stream one byte at a time; Round, Body and Refine relate a
--     round of the loop to it. NetConnect/Receive: `echo_read` of network/TcpSocket.cpp around it.
--     NetConnect/Send: both `sendMsg`; Deliver: from one connection to another. NetConnect/Stall: a
--     head with a negative length.
--   TcpSocket: network/TcpSocket.cpp, the queue of packets to send; `write` and `echo_write` are its
--     events. TcpSocket/Batch, Queue and Progress: what it sends, and that it does.
--   Base64: common/base64.cpp.
--   HttpParam: common/HttpParam.cpp. HttpParam/Split: splitting against joining; Params: what the
--     constructor finds and what getStr changes.
--   ObjectPool: common/Objectpool.h, with the store of its objects. ObjectPool/Use: objects in use
--     and free objects.
--   Json: utils/Json.cpp, values and `write`. Json/Reader: utils/JsonReader.cpp, each function on the
--     text that is left. Json/Readable: which values are read back; Json/Numbers, Text, Loops and
--     RoundTrip: why. Json/Edit: the setters of arrays and objects; Order: objects as maps.
--     Json/Total: the reader ends; Json/Empty: what is not read back.
--   WebSocket: network/WebSocketPacket.cpp, and the loop of network/WebSocketConnect.cpp behind the
--     handshake. WebSocket/Send: what is sent; Frame: what a client sends; Head, Round, Deliver and
--     Pieces: how frames are read in pieces; LongHead, Long and Stall: lengths that are not read as they are
--     meant; Length: what a complete frame does.
--   HttpConnect: network/HttpConnect.cpp with utils/HttpParser.cpp and utils/ParseUrl.cpp, over a
--     record of what llhttp, http_parser and std::vector do. HttpConnect/Scan: how the end of a head
--     is found; Requests: what a client sends, and in which pieces; Round, Deliver and Reads: what
--     the loop makes of it.
--   UdpPacket: network/UdpPacket.cpp. Kcp: network/KcpSession.cpp and KcpServer.cpp, the sessions of a
--     server, over a record of what ikcp does. The sessions in memory and the map by id are
--     functions, and the event object is the list of calls made. Kcp/Valid: the invariant; Receive:
--     what is asked of ikcp; Events: datagrams, timers and closing; Send: one session to another.
--   ThreadPool: common/ThreadPool.cpp, every call and every turn of a thread as a step, over a record of
--     what the queue behind common/TQueue.h does. ThreadPool/Counts: where the tasks are; Runs: runs in
--     every order; Finishes: what a thread brings to an end.
--   Timer: common/Timer.cpp, over a record of what the heap of common/Heap.h does; callbacks are a
--     function on the state. Timer/Valid: the timers that run are the nodes of the heap; Events:
--     starting, stopping and calling; Update: one update; Sorted: a sorted list as a heap.
--   Common: shared names; Common/Tests, Lists and Bytes: tests, lists and little-endian words;
--     Taken: bytes taken as far as they are missing; Tables: facts checked for each small number.
--
-- Numbers
--   A size_t, uint32 or int is a natural number; an int stands by its bits, and sums and differences
--   wrap where the code's do (% 2 ^ 32, % 2 ^ 64), unless positions in memory cannot come near. Bytes
--   are numbers in lists. The host is little endian, and EndianConvert does nothing, since
--   TRINITY_ENDIAN is defined nowhere. A read or write outside of a vector, and a call that the
--   code's libraries do not allow, is `none`, `fault` or `crashed`. Floats are their bits, printed and
--   read by a parameter.
--
-- Fuel
--   `on_msgbuffer` runs on fuel, and so does `echo_within` around it. `echo_read` gives 2 * n + 2 rounds for n bytes, since each round
--   takes a byte or hands a packet on; the results below show that this is enough wherever the loop
--   ends at all. `frame_loop` is given one round more than there are bytes, since each round takes a
--   byte if payloads are not empty. The loop of
--   HttpConnect is given one more than there are bytes too. The loop of `splite` is given one round more than there are
--   characters, since a round passes one separator. The JSON reader is given 2 * n + 3 calls for n characters: an array
--   or an object takes a bracket, and each round of its loop a value. `decimal` prints n with n + 1.
--
-- Not modelled
--   libuv itself: what it reads is the argument of `echo_read`, and what it writes is the list of
--   calls of uv_write. Handlers of messages: the calls made are listed. Opening and closing of
--   sockets, addresses, logging, databases, scripts, HTTP responses and routes, the
--   handshake of a WebSocket, the KCP client and the timers of libuv are not modelled;
--   vendored code, ikcp and the heap among it, is not either.
pub mod Common
pub mod ByteBuffer
pub mod MessageBuffer
pub mod NetPacket
pub mod NetConnect
pub mod TcpSocket
pub mod Base64
pub mod HttpParam
pub mod ObjectPool
pub mod Json
pub mod WebSocket
pub mod HttpConnect
pub mod UdpPacket
pub mod Kcp
pub mod ThreadPool
pub mod Timer
