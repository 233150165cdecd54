-- ===== src/Lib.antt =====
-- Verification library of AgentLinkCoro, a C++ coroutine network library (src/base).
--
-- Prelude and its children hold what the other modules share; Outcome says how a call of the C++
-- code can end.
--
-- ByteArray models src/base/bytearray.h and src/base/endian.h, the buffer under every protocol.
-- ByteArray/Chain is the chain of blocks and the loops of write, read and setPosition;
-- ByteArray/Store is the class with its operations, under the names of the C++ members in snake
-- case (addCapacity is add_capacity); Store/Invariant says when a buffer is well formed, Store/Grow,
-- Store/Cursor, Store/Write and Store/Read prove what each operation does, and Store/View compares
-- them with a flat sequence of bytes. ByteArray/Fixed, ByteArray/Varint and ByteArray/Text are the
-- codecs, and ByteArray/Buffers the iovec arrays. ByteArray/Sequence joins calls that follow one
-- another. A pointer into the chain is the rest of the chain or the number of a node; the null
-- pointer is the empty rest. Following it, and copying past the end of a block, is the outcome
-- `fault`. An exception keeps no state. Uninitialised memory reads as an arbitrary fixed byte.
-- Integers are bit patterns below a power of two; size_t arithmetic wraps at 2 ^ 64 where the code
-- could. The host is little endian. Not modelled: float and double, which copy their bits into the
-- integers that are modelled, files, digests, the hex dump, and moving a buffer.
--
-- Timer models src/base/coro/timer.h and timer.cc. Timer/Ordered is the comparator and std::set over
-- it, as an ordered list that insert and find walk from the front; Timer is the manager with its
-- calls. Timer objects stand in a store by address, since the set and the holders of a shared_ptr
-- share them; a null m_cb is `none`. GetCurrentMS, and the address that an allocation gives, are
-- arguments. Each call is one step, as the manager's lock makes it. Timer/Invariant, Timer/Expiry and
-- Timer/Wait prove what calls do, Timer/Calls joins them into histories. Not modelled:
-- addConditionTimer, which only wraps the callback.
--
-- Balance models src/base/net/streams/load_balance.h and load_balance.cc, the table of the items of a
-- service and the choice of one. Items are addresses, whether a stream is connected and rand() are
-- arguments, and an unordered_map is a list of its entries in the order in which it is walked.
-- Streams connect and close at any time, so initNolock and a get behind it are given a World each.
-- Balance/Table is about the table, Balance/Scan about the search that both kinds share and the
-- choice in turn, Balance/Weights about the choice by weight, and Balance/Stats models the counters of
-- each item for the last seconds. Weights are bit patterns, as getIdx mixes signed and unsigned ones.
-- Not modelled: FairLoadBalance, whose weights are float arithmetic,
-- and SDLoadBalance.
--
-- FdManager models src/base/coro/fd_manager.h and fd_manager.cc, the table of what the system call
-- hooks know of each descriptor. fstat and fcntl are a record of what the system says; descriptors
-- are int bit patterns, and those the system gives are taken to lie below 2 ^ 30, so that fd * 1.5 is
-- an int. FdManager/Slots is the vector as a table, FdManager/Access what get and del do, and
-- FdManager/Race what get does between its two locks.
--
-- Hex models the hexadecimal strings of src/base/util/hash_util.cc, on lists of character codes.
--
-- Stream models readFixSize and writeFixSize of src/base/net/stream.cc. A stream is the bytes on their
-- way to it and the bytes it has sent, with the number of bytes that each call of read and write moves;
-- the loops run on fuel for the bytes left, since every round moves one or ends. Stream/FixSize says
-- what they do.
--
-- WebSocket models WSRecvMessage, WSSendMessage, WSPing and WSPong of src/base/net/http/ws_session.cc
-- over such a stream. A step gives `none` where the code breaks out of its loop. WebSocket/Frame is the
-- bytes of a frame, WebSocket/Send, WebSocket/Receive and WebSocket/Rounds are about one frame,
-- WebSocket/Exchange is about whole messages, WebSocket/Steps and WebSocket/Limits about any bytes at
-- all, and WebSocket/Mishaps about what is lost. The loop of WSRecvMessage has one round more than
-- bytes on their way, since each round reads two. The masking of the sender's own message is not
-- handed back. What WSSendMessage returns is the bit pattern of its int32_t, and `none` is its -1.
-- Not modelled: the handshake.
--
-- IoManager models src/base/coro/iomanager.h and iomanager.cc, what waits for which event of which
-- descriptor. Each call holds the lock of one context and is one step, except that addEvent grows the
-- table in a step of its own where it must. Whether epoll_ctl succeeds is an argument, and the state
-- keeps the calls of it that did; what epoll_wait says is the argument of the body of idle's loop. The
-- table is a function with a size, behind which it is as contextResize makes it. IoManager/EventMask
-- is one context, IoManager/Contexts and IoManager/Triggers what triggering does to it, IoManager/Answers,
-- IoManager/Adding and IoManager/Polling are about single calls, IoManager/Invariant about what holds
-- between them, IoManager/Calls about histories and IoManager/Resize about races. Not modelled: the pipe of tickle and the timeout of idle.
--
-- Base64 models base64encode and base64decode of the same file. Base64/RoundTrip joins them, and
-- Base64/Room is about the buffer of the decoder. The decoder's loop runs on fuel for its characters.
--
-- Scheduler models the queue of src/base/coro/scheduler.h and scheduler.cc, and what a round of run does
-- with it and with the state of a fiber of src/base/coro/fiber.cc. Taking a task, switching to it and what
-- follows are steps of their own, as the lock is only held for the first. Scheduler/Picking is about the
-- queue, and Scheduler/Rounds about rounds that follow one another. Not modelled: the threads, the idle
-- fiber and the switch itself.
--
-- Servlets models ServletDispatch of src/base/net/http/servlet.h and servlet.cc, with fnmatch of the C
-- library and what a new servlet is as arguments. Servlets/Table is about the tables, and
-- Servlets/Dispatch about the choice of a servlet. Not modelled: the calls of the servlet chosen.
--
-- Url models UrlEncode and UrlDecode of src/base/util.cc. Url/Plain is about the string that UrlEncode
-- only makes when it is needed, and Url/RoundTrip joins the two. The decoder's loop runs on fuel for its
-- characters.
pub mod Prelude
pub mod Outcome
pub mod ByteArray
pub mod Timer
pub mod Balance
pub mod FdManager
pub mod Hex
pub mod Stream
pub mod WebSocket
pub mod IoManager
pub mod Base64
pub mod Scheduler
pub mod Servlets
pub mod Url
