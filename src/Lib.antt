-- ===== src/Lib.antt =====
-- boutique: a database server that keeps documents of fixed layouts in memory and answers commands
-- of a binary protocol.
--
-- The program's parts, and the modules that model them:
--   * core/serialize.hpp, core/serialize.cpp, core/span.hpp: Core.Serialize. A cursor over a
--     `ConstBuffer` is the list of bytes that are left; a value of w bytes is little-endian.
--     Core.Serialize.NullTerminated has the strings that end with a zero byte, which no other part uses.
--   * core/streambuf.hpp, core/streambuf.cpp: Core.StreamBuf. m_buf, m_size and m_used are the fields
--     of a record; a failed assertion is `none`.
--   * db/schema.hpp, db/schema.cpp: Db.Schema, Db.Layout. alignment, size and offset keep the code's
--     masks, and the wrap of the sums in offset at 2 ^ 64.
--   * db/storage.hpp, db/storage.cpp: Db.Storage. m_data is a list of bytes, a pointer to a document
--     is its index.
--   * db/collection.hpp, db/collection.cpp: Db.Collection. The buckets are a list; `std::hash` is the
--     parameter `hash`, one function for each type of key, of which nothing is assumed. A null pointer is
--     `null`, and `none` is a failed assertion or a read outside of a document or of the argument.
--   * db/database.hpp, db/database.cpp: Db.Database. A std::unordered_map is an association list,
--     since the program looks names up and never walks over a map.
--   * protocol/messages.hpp, protocol/binary_protocol.hpp, protocol/binary_protocol.cpp:
--     Protocol.Messages, Protocol.Read and Protocol.Binary. A reader gives a value and the bytes left,
--     INCOMPLETE, or INVALID, which are the outcomes of ReadResult.
--   * server/client_handler.hpp, server/client_handler.cpp: Server.Execute, what each command does to
--     the database, and Server.Handler, recv_handler with the buffer, the loop over commands and the
--     buffers given to async_send_all in order. The server's database is passed along as state.
--   * io/context.hpp, io/context.cpp: Io.Context. The four queues are lists; `turn` is a round of the
--     loop of run. What select reports is the parameter `System`, and what a queued function does, with
--     the operations that it queues, is the parameter `Program`. An exception is `none`.
--   * io/helpers.hpp, io/helpers.cpp: Io.Transfer, async_recv_all and async_send_all, whose handlers
--     differ in the operation they queue only. A pointer into a buffer is a distance.
--   * io/socket.cpp, io/timer.cpp, io/unix_utils.cpp: Io.Socket, recv, send, accept and expire_count over
--     the results of the system's calls; Io.Owners, who closes a descriptor; and Io.Setup, constructors,
--     flags and times.
--   * server/server.hpp, server/server.cpp: Server.Clients, accept_handler, with the addresses of the
--     list's nodes, since pending operations point to handlers.
--   * cli/main.cpp: Cli.Exchange, the loop that sends a command and the loop that reads a response,
--     where what is printed is a list of what is shown; Cli.Dialogue, the lines that define a schema,
--     Cli.Document, those that are the values of a document or a key; and Cli.Loop, the loop over commands
--     with its caches. The conversions of std to numbers are parameters.
--
-- How the parts meet: recv_handler appends what was received to the stream buffer, reads commands off
-- it with the protocol's reader, executes each on the database, writes the responses with the
-- protocol's writer, and consumes what it has read. Server.Handler.Serve says what the loop does on
-- bytes alone, and Server.Handler.Commands on commands alone. Server.Handler.Pieces hands
-- the server one command in several calls, and Cli.Exchange.Whole puts the client's loop behind it.
-- Cli.Document.Whole compares the key in a document that the client makes with the key that it sends.
-- Io.Context.Runs counts the turns of run. Db.Collection.Index says what the buckets hold of the documents,
-- Db.Collection.Stays and Grow that both parts of put keep it, and Db.Collection.Puts follows the
-- calls of put from a new collection on. Db.Collection.Room, Rehash and Total are about free buckets,
-- which put always finds. Db.Collection.Renamed, Marks and Removal say what remove does to the buckets,
-- Db.Collection.Contents and Reached what a collection is as a finite map. Server.Execute.Store is the
-- server's abstract specification, a store of such maps, which Server.Execute.Store.Acts relates to the
-- database and Server.Handler.Stores to the bytes that are received and sent.
--
-- Bounds and fuel: a loop whose end hangs on data takes fuel. The reader of fields has fuel for every
-- byte of the buffer, since a field takes one at least. The loops over the buckets have fuel for every
-- bucket, since the code stops when it is back at the first. The loop of recv_handler has fuel for
-- every byte, since a command takes one. The `while` of Storage::put has fuel for every byte needed.
-- The loop of run goes on for as long as the program does, so `run` takes a number of rounds and says
-- when they were too few. The loops of the client take what the system's calls give, one after another.
--
-- Where the model stops: reading outside of the argument of put, or outside of a document, is `none`,
-- a failure. The handler hands the bytes of a put command on without comparing their number with the
-- size of a document, so that the code reads on into what lies behind them in the buffer. The
-- alignment of the vector's memory, logging, the text that the command line client prints, and addresses
-- and options of sockets are not modelled. A call of recv_handler may be given any number of bytes, where
-- m_buf has 128. Several operations that are in flight on one descriptor, which run does not keep apart,
-- are performed one after another; that async_send_all then keeps the bytes of two responses apart is
-- not shown, and what the server sends is the buffers that it hands to async_send_all.
-- Durations are not negative. An operation keeps the descriptor that it was queued with. A put of a key
-- that is there, after a remove, may store it twice, and is outside of what Db.Collection.Reached says.
pub mod Common
pub mod Core
pub mod Db
pub mod Protocol
pub mod Io
pub mod Server
pub mod Cli
pub mod Tests
