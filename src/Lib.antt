-- ===== src/Lib.antt =====
-- AgoraIM: a reactor network library in C++ with an HTTP server on it. One thread runs an event
-- loop. It waits for ready descriptors, runs the handlers of their channels, and then the timers
-- that are due. A TCP connection reads into one byte buffer and writes from another; an HTTP
-- connection feeds the first to an incremental parser.
--
-- The parts modelled, with the files that model them:
--   Buffer      include/agora/net/buffer.h and src/net/buffer.cpp. The vector is a list of bytes,
--               a pointer into it an index, and an assertion that fails gives `none`. `size_t` is
--               64 bits wide, its sums and differences taken modulo 2 ^ 64.
--   Http        include/agora/net/http and src/net/http. Http.Request is HttpRequest, its
--               `unordered_map` an association list. Http.Context is HttpContext: `parse_request`
--               is `parseRequest`, whose loop runs on fuel, one more than the bytes that wait. Each
--               round that goes on takes at least the two bytes of a line end, so that is enough.
--               Buffer.Search and Http.Context.Refine link the two levels: a parser over the real
--               buffer, and one over the list of its unread bytes.
--               Http.Response is HttpResponse, with `std::to_string` as an argument.
--               Http.Mime is MimeType, and Http.StaticFiles is StaticFileServer: `on_request` is
--               `onRequest`, the files are an argument, and `std::stoi` is written out, an exception
--               as `none`. Http.Server is HttpServer: `on_message` is `onMessage`, on a TcpConnection
--               with its Http.Context; Http.Server.Site sets the static files as its handler.
--   TimerQueue  include/agora/net/timer.h, timer_id.h, timer_queue.h and their sources. A `Timer*`
--               is an address and a heap says which timers are alive, so that a use of a deleted
--               timer gives an error. The `std::set` is a list in its order. What callbacks do to
--               the queue is an argument: any list of additions and cancellations.
--               TimerQueue.Lifetime is the constructor and the destructor, with the channel.
--   Channel     include/agora/net/channel.h and src/net/channel.cpp: a descriptor, its event mask as
--               a record of bits, and the dispatch of events to callbacks.
--   EPollPoller src/net/epoll_poller.cpp: which descriptors the kernel watches, and for what.
--               The kernel is an interface, `Epoll`: its state, `epoll_ctl`, and the laws of the
--               manual. EPollPoller.Simulated is an instance. EPollPoller.Poll is `poll`, to which what
--               `epoll_wait` answers is an argument.
--   TcpConnection  include/agora/net/tcp_connection.h and src/net/tcp_connection.cpp: the states of a
--               connection, its channel, its two buffers, and the bytes that the kernel took. User
--               callbacks are functions on that state. TcpConnection.Within says when they are
--               bounded: wherever there is room for what they send, they keep the invariant; the
--               callbacks of the echo server are (Programs.Room). The theorems on Http.Server ask
--               for callbacks that need no room, of which only the one for complete writes is
--               called there. Its event handlers are dispatched by Channel.
--               TcpConnection.Life is the constructor, and runs of any calls from there on;
--               TcpConnection.Exact is `send` when no callback sends more; TcpConnection.Logged is
--               what a connection logs. TcpConnection.Finishes follows `shutdown` through the write
--               events after it, with no fuel: the list of events is as long as the output, and the
--               kernel takes at least a byte at each.
--   Connector   include/agora/net/connector.h and src/net/connector.cpp: the attempts to connect to
--               a server, as a state machine over the events that the loop runs. It follows who
--               owns the descriptor, how long retries wait, and the queued `resetChannel`; what the
--               poller does for its channel is left to EPollPoller.
--   EventLoop   include/agora/net/event_loop.h and src/net/event_loop.cpp: the queue of functors and
--               the eventfd, run in sequence (EventLoop, EventLoop.Batch), and as the interleaved
--               steps of the loop's thread and of any number of others (EventLoop.Threads, and
--               Awake, Order and Progress for what holds of them). A step of another thread is what
--               it does under the mutex, or its write to the eventfd. EventLoop.Timers is the
--               loop's interface to its TimerQueue, and EventLoop.Opening the constructor and the
--               destructor, with the three descriptors of a loop. EventLoop.OwnThread is the check
--               of the thread.
--   EventLoopThread  include/agora/net/event_loop_thread.h and its source: the thread and its owner
--               as interleaved steps, from `startLoop` to the join in the destructor.
--   EventLoopThreadPool  include/agora/net/event_loop_thread_pool.h and its source: the loops of the
--               threads, and their turns. The start of a thread is an argument.
--   Acceptor    src/net/acceptor.cpp, with `accept` of src/net/sockets_ops.cpp: what `accept4` answers is a
--               list, one answer for each call. Acceptor.Opening is the constructor over Sockets,
--               and Acceptor.Accepting is `accept` with its log.
--   TcpServer   include/agora/net/tcp_server.h and src/net/tcp_server.cpp: the map of connections, their
--               names and loops, and what is queued on those loops, as a list. A connection is its
--               name, loop, descriptor and peer; what it does is in TcpConnection.
--   TcpClient   include/agora/net/tcp_client.h and src/net/tcp_client.cpp: the one connection of a
--               client over its Connector, event by event. A connection is its descriptor, and what
--               is asked of it is a list.
--   Timestamp   include/agora/base/timestamp.h and src/base/timestamp.cpp: times that are not
--               negative, and their texts. `std::put_time` is an argument.
--   Logger      src/base/logger.cpp, log_level.cpp, log_message.cpp, current_thread.cpp and their
--               headers: the lines on the standard output, and the abort that a FATAL message makes.
--               The clock, the thread and the place of a call are arguments.
--   InetAddress include/agora/net/inet_address.h and src/net/inet_address.cpp: an address as the
--               bytes that lie in memory. `inet_pton` and `inet_ntop` are arguments.
--   Sockets     include/agora/net/sockets_ops.h, socket.h and their sources: the calls of the system
--               in order, what the kernel answers to them being an argument, with what is logged.
--   Programs    examples/echo/echo_server.cpp, echo_client.cpp and src/main.cpp: what they give the
--               servers and the client to call.
--   Shared      Boolean tests, lists measured by the native numbers, decimal digits, results with
--               errors.
--
-- Outside the model: the kernel (`readv` and `write` are arguments, `epoll_ctl` is part of an
-- interface, the answers to the other calls are an argument of Sockets, and `timerfd_settime` records
-- the time it is given), `new`, an argument that gives free addresses, and the files on disk. The log
-- is modelled in Logger and Sockets; in the other parts a line below FATAL is left out. Apart from
-- EventLoop.Threads and EventLoopThread every operation modelled is one that runs in the loop's
-- thread. An interval is a double in the source; of it the code reads only its sign and its
-- microseconds, which the model holds; the sum of a time and an interval has no bound here, where the
-- source has 64 bits. Not modelled: the bodies of `main`, which make objects and set callbacks; and the
-- setters of callbacks, whose callbacks are arguments here.
pub mod Shared
pub mod Programs
pub mod Acceptor
pub mod Buffer
pub mod Channel
pub mod Connector
pub mod EPollPoller
pub mod EventLoop
pub mod EventLoopThread
pub mod EventLoopThreadPool
pub mod Http
pub mod InetAddress
pub mod Logger
pub mod Sockets
pub mod TcpClient
pub mod TcpConnection
pub mod TcpServer
pub mod TimerQueue
pub mod Timestamp
