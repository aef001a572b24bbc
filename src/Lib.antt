-- ===== src/Lib.antt =====
-- MyGameServer, a server for battles of two players in real time, written in C++. This library models
-- its parts and what makes them correct. Paths are from the root of the repository.
--
-- An IO thread reads from a connection into a buffer (src/net/Buffer), from which the codec
-- (src/proto/ProtobufCodec) cuts frames. A dispatcher (src/proto/Dispatcher.h) parses each message, and its
-- handler hands it to the loop (src/net/EventLoop) of the lobby thread, where
-- src/game/GameServer keeps the sessions, pairs players with its queue (src/game/MatchQueue.h), keeps
-- time with a timer wheel (src/timer/TimerWheel), and hands work to the loop of a room. There the
-- battle simulation (src/game/BattleSim) advances by steps of 50 ms in a room (src/game/Room). Connections
-- (src/net/TcpConnection) write through an output buffer and are registered by their channels
-- (src/net/Channel, src/net/EPollPoller). A server (src/net/TcpServer) gives each connection that it
-- accepts (src/net/Acceptor) to the loop of one IO thread (src/net/EventLoopThread). Results go to a storage
-- thread (src/storage/AsyncWriter), which keeps them in MySQL and Redis (src/storage/MySqlStore,
-- src/storage/RedisClient). A client (examples/bot_client.cc) hears the snapshots of its room.
--
-- Files, and the code that each is about:
--   Base: names, maps as association lists, sets of ids, lemmas on lists and Boolean tests.
--   MatchQueue: src/game/MatchQueue.h. `push`, `remove`, `contains`, `compact`, `take_front` and
--     `pop_pair` are the methods; `Line` reads a queue as a line, and `Serve` is
--     about how `popPair` serves it.
--   Buffer: src/net/Buffer.h and src/net/Buffer.cc, one function for each method; `Queue` holds the
--     byte queue that the buffer implements.
--   Codec: src/proto/ProtobufCodec.h and src/proto/ProtobufCodec.cc. `round` is the body of the loop of
--     `onMessage`; `Frame` describes the bytes of a stream without the buffer.
--   TimerWheel: src/timer/TimerWheel.h and src/timer/TimerWheel.cc. `Inv` is the invariant, `Client`
--     says what a callback may do to the wheel, `OnTime` when a timer fires.
--   BattleSim: src/game/BattleSim.h and src/game/BattleSim.cc. `Move`, `Attack` and `Flight` are the
--     loops of `step`; `Collision` and `Damage` are about who is hit.
--   Room: src/game/Room.h and src/game/Room.cc, with `fillState` and `fillProjectileState` of BattleSim in
--     `Defs`.
--   Connection: src/net/TcpConnection.h and src/net/TcpConnection.cc. `Read` is `handleRead`, `Reports`
--     what `Channel::handleEvent` calls of a connection.
--   Server: src/net/TcpServer, with the functors that wait in its loops; `Accept` is the loop of
--     src/net/Acceptor.cc and `Accounts` the books of one connection.
--   Thread: src/net/EventLoopThread with `loop` and `quit` of src/net/EventLoop.cc, the moves of two threads.
--   Poller: src/net/Channel and src/net/EPollPoller, a channel with its entry in the poller; `Poll` is `poll`.
--   Loop: the functors and the eventfd of src/net/EventLoop.
--   Dispatcher: src/proto/Dispatcher.h, with the parser of protobuf as a parameter.
--   Writer: src/storage/AsyncWriter.h and src/storage/AsyncWriter.cc, with the condition variable: the thread
--     sleeps until it is notified, and a notification is a step of its own.
--   Storage: src/storage/MySqlStore (`MySql`), src/storage/RedisClient (`Redis`) and the tasks that
--     src/game/GameServer.cc gives to its storage thread (`Tasks`); `Services` is what they call of the client
--     libraries.
--   Bot: the main loop of examples/bot_client.cc; `Socket` is its reading of frames and `Steer` the choice
--     of its input. `Follow` to `Copy` are about its copy of the world beside the room it hears.
--   Bench: examples/bench_client.cc, a connection of the load generator. `Cut` is its loop over frames, `Worker`
--     what a worker does for the connection.
--   Lobby: the handlers of src/game/GameServer.cc and their state, src/game/Session.h and
--     `getNextLoop` of src/net/EventLoopThreadPool.cc. `Inv` is the invariant of the lobby, and `Calls` the
--     sequences of everything that the loop of the lobby runs. `Intake` is the constructor of `GameServer`, from
--     the bytes of a client to calls of the handlers, and `Teardown` the destructor.
--
-- Choices: a hash map is an association list, so that no theorem relies on an order that the code does
-- not fix. Bytes are numbers. What system calls find is an argument; the loops of `handleRead` and
-- `handleWrite` are over lists of such results, behind which the kernel reports EAGAIN. The loop of
-- `onMessage` runs on as much fuel as there are bytes, and one more: each round but the last takes at
-- least six bytes off. The operations on `float` are a parameter; `BattleSim.Arena` and
-- `BattleSim.Collision` ask of them what IEEE 754 has. 64-bit counters are not brought to wrap.
-- A blocking `recv` follows a script of how much the kernel hands over, or that the timeout passes. The
-- bot starts its search with 1e9 as a float, made from the integer. Connections of the server are named by
-- their numbers, and the functors of all its loops are one list, each with its loop: a loop runs its oldest
-- at any moment. Messages between server and client are parsed values there; `Codec` has their bytes. MySQL
-- and Redis are records of calls over an abstract state, and the text of numbers is one of printing; what
-- the statements and commands do to the databases is left open.
--
-- Not modelled: sockets and system calls (src/net/Socket, src/net/InetAddress, src/timer/PeriodicTimer);
-- the start and the summary of the load generator, and the main programs, which are input and output;
-- and the Unity client, which displays what it hears. The functors of the destructor of
-- src/game/GameServer are modelled by themselves, without other work that the lobby may still do.
pub mod Base
pub mod MatchQueue
pub mod Buffer
pub mod Codec
pub mod Dispatcher
pub mod TimerWheel
pub mod BattleSim
pub mod Room
pub mod Lobby
pub mod Connection
pub mod Poller
pub mod Server
pub mod Loop
pub mod Thread
pub mod Writer
pub mod Storage
pub mod Bot
pub mod Bench
