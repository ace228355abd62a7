-- ===== src/Lib.antt =====
-- The programs of cpp-socket-programming: servers, proxies and libraries over POSIX sockets. This
-- library models the parts that carry state of their own: the connection pool, the load balancer,
-- the chat server, the thread pool, the string utilities, the Socket class, the proxies, the
-- servers for several clients, the upload of files, the libuv server, the chat client, the two
-- programs that talk turn by turn, the TLS echo server and its client, and of the protocol server
-- the listening thread, the scheduler, the pipeline, the handler for tasks, the client sockets and
-- the logger with its media, with the program that is its client.
--
-- The parts interact little. A proxy borrows connections from the pool, whose factory makes TCP
-- connections through the socket classes; the protocol server chooses a target with the load
-- balancer, hands its work to the thread pool, and cuts header lines with the string utilities. Its
-- listening thread pushes a task for each client that it accepts. A thread of its pipeline gathers
-- a request from a Socket and gives it to the handler, which pushes tasks to the thread pool. The
-- thread of a proxy passes bytes between two Sockets; one of the three proxies chooses its target
-- with the load balancer, another borrows it from the pool. A message between two chat clients goes
-- through the chat server. The servers for several clients, the programs that talk turn by turn,
-- the upload server, the TLS proxy and the libuv server are programs on their own.
--
-- Files, with paths from the repository's root:
--
-- - Prelude, Prelude/Tests, Prelude/Lists, Prelude/Counts, Prelude/Int, Prelude/Part: library
--   names, Boolean tests, lists and integers over the native numbers, lists as multisets, and parts
--   of lists in their order.
-- - Pool: connection-pool/src/pool.cpp and include/connection-pool/pool.h. `get_connection`,
--   `release_connection`, `check_connect`, `heart_beat` and the sizes keep their names; the
--   constructor is `make_pool`, the proxies' special members are `move_construct`, `move_assign`
--   and `destroy_proxy`. Pool/Owners runs any sequence of those calls over variables that hold
--   proxies. Pool/Nodes, Acquire, Release, Ownership, Setup and Misuse hold proofs.
-- - Pool/Factory: the factory of connection-pool/src/impl/TcpConnection.h, `create`, with
--   `disconnect`; it takes the constructor of CClientSocket from ClientSocket.
-- - Balancer: protocol-server/src/engine/load_balancer. `selectServer` is `select_round_robin`,
--   `select_weighted` and `select_random`; `requests` is a number of calls of `requestServer` in a
--   row.
-- - Chat: chat-server/Server.cpp. `closeClientConnection` is `close_client`, `processRequest(int)`
--   is `process_client`, the two halves of `processRequest()` are `admit` and `serve_slots`, and
--   `pass` is one pass of the loop in `main`. Chat/Program is `main` itself: `start` up to the
--   loop, and `loop` with the calls of `select`. Chat/Table, Valid, Mail and Effects hold proofs
--   about a pass, Chat/Covered and Poll about the loop.
-- - ChatClient: chat-server/Client.cpp. `input_line` is a round of `inputListener`,
--   `process_request` is `processRequest`, and `pass` one pass of the loop in `main`; `run` takes
--   both in any order. ChatClient/Sent has what is sent, ChatClient/Delivered a message through the
--   chat server.
-- - ThreadPool: protocol-server/src/utils/thread_pool and thread_safe_queue. `Step` is one step of
--   a client, a worker or the destructor, and `Reach` any interleaving of them.
-- - Text: protocol-server/src/utils/StringUtils.h. `split`, `chop_line` for `ChopLine`, `escape`
--   for `getStringWithEscapes`.
-- - Socket: protocol-server/src/engine/socket/Socket.cpp. `send_line`, `receive_line`,
--   `receive_bytes` and `recv_blocking` keep the names of the methods; Socket/Life has the
--   constructors, `operator=` and the destructor, and Socket/Calls has `Receive`, `SendBytes` and
--   `Peek`.
-- - Scheduler: protocol-server/src/utils/scheduler. `add_task` is `addTask`, and `start` keeps its
--   name; a `sweep` is one round of its loop.
-- - Pipeline: protocol-server/src/pipeline/CProtocolPipeline.cpp. `pipeline` is
--   `CProtocolPipeline`, and `read_request` the loop in it.
-- - SyncApi: protocol-server/src/handler/SyncApiProtocolHandler.cpp, with payload/Payload.h and
--   utils/uuid/UuidGenerator.h. `handle_data` is `HandleData`, `connect` and `check_status` its two
--   branches, and `complete_task` what a worker of the thread pool does later. SyncApi/Status runs
--   any sequence of these.
-- - SyncClient: protocol-client/src/main.cpp, with payload/Payload.h. `main` keeps its name, and
--   `poll` is its loop. SyncClient/Session lets it talk to the handler of SyncApi.
-- - ProtocolServer: protocol-server/src/main.cpp, with engine/interface/CProtocolSocket.h and .cpp,
--   the start in engine/socket/CServerSocket and the handlers of handler/. `setup` is
--   `setupDefaultPipeline` and `setupSchedulerPipeline`, `start` is `Start` with `Open`, and
--   `thread_handle` is `ThreadHandler`; `serve` is what the routine of a server does.
--   ProtocolServer/Start has the servers that run, ProtocolServer/Routines the two routines.
-- - Relay: the threads of three proxies. `run_proxy_thread` is `RunProxyThread` of
--   passthrough-proxy/Proxy.cpp, `thread_handler` is `CProxySocket::ThreadHandler` of
--   protocol-server/src/engine/interface/CProxySocket.cpp, and `run_proxy_client_thread` is
--   `RunProxyClientThread` of connection-pool/src/proxy.cpp. Relay/Traffic has the channels that
--   the first one implements, Relay/Same the second over the balancer, Relay/Services the set-up in
--   CProxySocket.h with its clients in turn, Relay/Loan the third over the pool, and
--   Relay/Accepting the loops that accept: `run` is that of `main` in passthrough-proxy/Proxy.cpp,
--   `run_shared` that of `StartListeningThread` in connection-pool/src/proxy.h.
-- - Passthrough: passthrough-proxy/Socket.cpp, where it differs from the Socket class of the
--   protocol server. `receive_bytes` is `ReceiveBytes`, `make_server` and `make_client` are the
--   constructors, with the descriptors that they open and close.
-- - Turns: single-client-turn-based/Client.cpp and Server.cpp. `client_loop` and `server_loop` are
--   the loops in `main`, with what follows them. Turns/Typed has what is sent, Turns/Conversation
--   the two programs together.
-- - Clients: multiple-client-single-thread/Server_select.cpp and Server_poll.cpp. `pass_select` and
--   `pass_poll` are one pass of the loops in `main`; the table of clients is the list of places.
--   Clients/Program is multiple-client-single-thread/Client.cpp, with `main` behind `connect`.
-- - Listener: protocol-server/src/engine/socket/CServerSocket.cpp. `listen_round` is a round of
--   `ListenThreadProc`, `client_thread_proc` a task with `ClientThreadProc`, and `run` any order of
--   the two.
-- - ClientSocket: protocol-server/src/engine/socket/CClientSocket.cpp and .h. `construct` is the
--   constructor, `connect`, `resolve` and `reconnect` keep their names, and `destroy` is the
--   destructor with that of the base. ClientSocket/Held has the descriptors that are open,
--   ClientSocket/Twice the second close.
-- - Select: protocol-server/src/engine/socket/SocketSelect.cpp. `socket_select` is the constructor
--   and `readable` is `Readable`; `read_round` is what a round of `CProxySocket::ThreadHandler`
--   reads. Select/Rounds has its proofs.
-- - Logger: protocol-server/src/utils/logger. `create_logger` is `CreateLogger`, `message` and
--   `net_message` what the `Log` of a strategy makes of its arguments, `do_log` is `DoLog` with
--   `Write`, and `log_worker` a turn of `logWorker`. Logger/Quotes has the strings of JSON,
--   Logger/Complete the messages that are written. The media: Logger/Files is
--   strategy/FileLogStrategy.h with content-writer/FileContentWriter.h, and Logger/Lost what it
--   loses; Logger/Database is content-writer/DbContentWriter.h with util/SQLAccess.h;
--   Logger/Network is util/TcpClient.h.
-- - Wire: protocol-server/src/utils/ProtocolHelper.h. `read_int32`, `read_c_string` and the others
--   are `readInt32`, `readCString` and so on. Wire/Address has the readers of numbers, Wire/Ends
--   the loop of `readCString`.
-- - Echo: ssl-client/Client.cpp, with the request of `sendRequest` in Echo/Request. `echo_loop` is
--   the echo loop and `server_loop` the loop around it; `client` is `sendRequest` with the loop of
--   the client. Echo/Session has the server up to the client that stops it, Echo/Answers the client
--   up to its end. The two do not run together as they are: the request fills the buffer of the
--   server.
-- - Libuv: libuv-based/Server.cpp. `on_alloc`, `on_read` and `on_new_connection` keep their names;
--   `run` is any sequence of callbacks. Libuv/Paired, Life and Moves hold the invariant and its
--   proofs, Libuv/Forward what is forwarded.
-- - Upload: file-upload/main.cpp. `handle_client` is `handleClient`, and `content_length` the loop
--   over its header.
-- - Ssl: ssl-proxy/Proxy.cpp. `copy` is one of the two loops of `main`, and `serve` what `main`
--   does with a client.
--
-- Bounds and fuel. `split` runs on fuel, one unit for each round of its loop; a text of n bytes
-- takes n + 1 rounds at most. `receive_bytes` runs on fuel in the same way, and each round takes at
-- least one of the bytes pending. `read_c_string` has one unit for each byte behind its start, and
-- one for the NUL. The other `receive_bytes` is alike, and `content_length` has one unit of fuel
-- for each line, of which a text has no more than bytes. Every other loop is structural, some over
-- the answers of the operating system. A `size_t` in `recv_blocking` has 64 bits and wraps around,
-- and so has the number of workers at 32 bits; other integers are lengths, indices and descriptors
-- that stay far below their bounds.
--
-- Parameters. The driver of a connection, the place of a new node in an `unordered_map`, the values
-- of `rand()` and of the random digits of an id, the readings of the clock, the bytes of a packet
-- that the code leaves unset, and the calls of the operating system (`socket`, `connect`, `recv`,
-- `ioctl`, `select`, `poll`, `fcntl`) and of OpenSSL, what libuv answers, the handler of a proxy,
-- the memory of a `std::string` object and the conversions of the byte order, and what other
-- threads do to the pool are arguments of the definitions that use them. What is supposed of them
-- is a hypothesis: `IsAddressed` says that a string begins with the address of its characters,
-- `NodeOrder` says that a node is inserted once, `IsQuiet` what `recv` and `FIONREAD` answer while
-- nothing new arrives, `IsTame` that other threads do not give back this thread's loan and that
-- they lose no connection, `IsFresh` that `socket` gives a descriptor that is not open, `IsSelect`
-- what `select` leaves of its set, `IsWrittenBack` that it writes the rest of the timeout back,
-- `IsNew` and `IsNewcomers` that `accept` gives descriptors that are no client's (`IsNew` also that
-- they are at most 5 above the listening socket, as far as the `select` of the code reaches),
-- `IsInserting` what an insert statement does to the rows of a table, `IsApart` that other threads
-- leave a descriptor alone, and the digits of an id are below 16.
--
-- Not modelled: output to the console, and which messages the programs log; the set-up of the
-- server sockets other than those of the chat server and of the protocol server; the creation of
-- the table of the log database; the contexts and handshakes of TLS; the files of protocol-client,
-- and the socket classes below connection-pool and passthrough-proxy, where they repeat those of
-- protocol-server; the reconnection of TcpConnection, which runs a function without the return of
-- its value, so that what it does is not defined; libuv itself, whose headers are a copy.
pub mod Prelude
pub mod Pool
pub mod Balancer
pub mod Chat
pub mod ThreadPool
pub mod Text
pub mod Select
pub mod Socket
pub mod Scheduler
pub mod Pipeline
pub mod SyncApi
pub mod ProtocolServer
pub mod Relay
pub mod ClientSocket
pub mod Clients
pub mod Upload
pub mod Wire
pub mod Passthrough
pub mod Ssl
pub mod Echo
pub mod Libuv
pub mod Listener
pub mod Logger
pub mod SyncClient
pub mod Turns
pub mod ChatClient
