-- ===== src/Lib.antt =====
-- A verification of a small network library in the style of muduo: one event loop per thread, epoll
-- underneath, non-blocking TCP connections with buffers on top. Each part of the program is a
-- module of this library.
--
-- Buffer (Buffer.h, Buffer.cc): the bytes of the vector with the two indices. Memory holds the byte
-- moves that the operations are made of, Contents what each operation does to the readable bytes,
-- Queue the whole as a queue of bytes, Descriptor readFd and writeFd.
--
-- Channel (Channel.h, Channel.cc): a descriptor with its event mask, its place in the poller and
-- its callbacks; Dispatch is about handleEvent. Poller (Poller.h, Poller.cc, EPOLLPoller.h,
-- EPOLLPoller.cc): the map of channels and their registration with epoll. Tracking, Frame and
-- Registration keep map, index and epoll's interest list together, Polling is about poll, Registry
-- about the events that it reports, Creation makes and ends a poller (DefaultPoller.cc).
--
-- EventLoop (Eventloop.h, Eventloop.cc): the loop with the functors that wait to be run in it.
-- Interleaving gives the steps of its thread and of other threads as a relation, with the eventfd
-- as a counter; Wakeup is about what its runs keep, Ending about the end of loop(), Refining and
-- its child Loop about the functions as runs of these steps. Creation is the constructor and the
-- destructor, with the number of the thread from CurrentThread (CurrentThread.h, CurrentThread.cc);
-- Ownership is about them.
--
-- Connection (TcpConnection.h, TcpConnection.cc): one connection with its loop and the kernel, the
-- object and its callbacks in Object. Invariant is what holds between two calls, Sending is about
-- sendInLoop, Conversation about any sequence of sends, flushes and a shutdown, Requests about
-- send, Flushing and Emptying about handleWrite, Receiving about handleRead, Events about whatever
-- epoll reports, Opening about the constructor and establishing, Lifecycle about shutting down,
-- closing and destroying; Returning is about sending where epoll refuses no channel, Unmoved about
-- what sending leaves alone; Sample holds the states of the examples.
--
-- ThreadPool (EventLoopThreadLoop.h, EventLoopThreadLoop.cc): the pool of loops. Server
-- (TcpServer.h, TcpServer.cc): the connections of a server, with the loops of the process by
-- address; Names is about the names of connections, History about sequences of accepted and removed
-- connections, with Once, Queueing about runInLoop and queueInLoop.
--
-- Service (TcpServer.h, TcpServer.cc) puts the server and its connections into one process: the
-- connections are objects by address, the functors of the base loop find them there, and a
-- connection that closes calls the server's removeConnection. Object holds the process and how a
-- call passes from a connection to the server and back, Frames what such calls leave alone, Removal
-- is about removeConnection called from a connection, Closing about a connection that closes,
-- Opening about newConnection without further threads, Ending about an end of stream together with
-- the functors that it queues, Session about a connection that comes and goes.
--
-- Socket (Socket.h, Socket.cc) and Acceptor (Acceptor.h, Acceptor.cc): the listening socket.
-- Accepting is about handleRead, alone and with the server's newConnection, Listening about listen
-- and the destructor. InetAddress (InetAddress.h, InetAddress.cc): addresses; RoundTrip is about
-- printing them.
--
-- Thread (Thread.h, Thread.cc): the flags and the name of a thread. LoopThread (EventLoopThread.h,
-- EventLoopThread.cc): the owner of a loop's thread and that thread as interleaved steps; Invariant
-- is what holds in every run, Starting is about startLoop, Ending about what happens when the loop
-- ends. Example (example/testserver.cc): the echo server's callbacks; Echo composes them with the
-- connection, Serving with the server's process; Main is the program's main, over any callbacks.
--
-- Timestamp (Timestamp.h, Timestamp.cc): times and their printed form; Printing is about its width.
-- Logger (Logger.h, Logger.cc): the level, the macros and the characters that they write; Lines is
-- about a sequence of them.
--
-- State is passed explicitly: an operation takes the record of its object and returns the new one.
-- Common holds the shared types: an Outcome tells a call that returns from one that ends the
-- process (LOG_FATAL), one that calls an empty std::function, and one that C++ leaves undefined.
-- Sizes are 64-bit, with the wrap-around written out, and what would read or write beyond a vector
-- is no result. A socket's bytes are lists of numbers.
--
-- The system calls are parameters: System gives them as a record over an abstract kernel state,
-- with what the manual pages say of them as laws. System.Part makes the same calls in a process
-- that holds more than the kernel. System.Net, System.Fds and System.Libc do so for sockets, for
-- the descriptors of a loop and for the C library. System.Toy, with ToyNet, ToyFds and ToyLibc, is
-- a small kernel that satisfies the laws; the examples run on it. User callbacks are parameters
-- too. Pointers to objects are their addresses.
--
-- The only fuel is that of the loop as a function (loop_turns, run_loop), which runs as long as
-- nobody asks it to quit: where a functor that waits asks it, two rounds are enough. The steps of
-- the loop need no fuel.
--
-- Not modelled: the destructors when main returns; in Service the keep-alive option of a new
-- connection, which Connection.construct sets; the messages that the other parts log, since nothing
-- reads them, and several threads that log at once. In Service a destroyed connection stays in the
-- store, and a high-water mark, which the server never sets, is left to a parameter, as are the
-- functors that belong to no connection. In the steps of LoopThread the wakeup that quit sends is
-- left out, and the loop is one step that a callback may ask to quit. The server's map is kept by
-- the number in a connection's name, and lifetimes by shared_ptr are not followed. The memory model
-- is interleaving: atomic flags and the parts under the mutex are single steps.
pub mod Common
pub mod System
pub mod Buffer
pub mod Channel
pub mod Poller
pub mod EventLoop
pub mod Connection
pub mod ThreadPool
pub mod Server
pub mod Socket
pub mod InetAddress
pub mod CurrentThread
pub mod Acceptor
pub mod Service
pub mod Timestamp
pub mod Logger
pub mod Thread
pub mod LoopThread
pub mod Example
