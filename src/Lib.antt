-- ===== src/Lib.antt =====
-- A model of uvloop, the asyncio event loop over libuv, and proofs of what the loop and its
-- transports promise.
--
-- The program's parts. The loop (uvloop/loop.pyx) owns libuv handles; a handle
-- (uvloop/handles/handle.pyx) with a protocol is a transport (uvloop/handles/basetransport.pyx); a
-- stream transport (uvloop/handles/stream.pyx) writes bytes and pauses its protocol; a server
-- (uvloop/server.pyx) counts its connections; the TLS protocol (uvloop/sslproto.pyx) is the protocol
-- of a stream below and the transport of an application above. The errors of libuv become
-- exceptions (uvloop/errors.pyx), and converted addresses (uvloop/dns.pyx) are
-- cached (uvloop/lru.pyx).
--
-- Which file models what.
--   Prelude: numbers, lists, options and Booleans; Prelude/Int is the integers.
--   Python: methods as functions from a state to an outcome and a state. An exception leaves the
--     state as it was changed so far. `catch` is `try`/`except`, `finally` is `try`/`finally`.
--     Python/Frames has rules for relations between the states before and after a method.
--   Errors: uvloop/errors.pyx, one constructor for each libuv code that the source names.
--   FlowControl: uvloop/includes/flowcontrol.pxd, over C integers of 32 bits.
--   Lru: uvloop/lru.pyx. The OrderedDict is a list of entries, the oldest first.
--   Loop: the queue of callbacks of uvloop/loop.pyx, with uvloop/cbhandles.pyx and the idle, check,
--     async and timer handles. Loop/State is the state, Loop/Queue how callbacks get into the loop
--     and how they run, Loop/Rounds the callbacks of libuv and a run of the loop. Handles, timer
--     handles, callbacks and streams are numbers. User code is a `Program`: it calls methods of the
--     loop and goes on with what they return. The fields from `appended` on record what was done.
--   Signals: Unix signals in uvloop/loop.pyx. The self-pipe is a pair of numbers, the dictionary of
--     handlers a list of entries, a set a list without repetitions. What Python's signal module and
--     sockets do is the record `SignalEnv`, and so is what `_add_reader` and `_remove_reader` do.
--     Signals/Handlers is how a signal reaches its callback, and `add_signal_handler`.
--   Polls: uvloop/handles/poll.pyx, and `_add_reader`, `_remove_reader`, `_has_reader` and their kin
--     of uvloop/loop.pyx. `UVPoll`s, handles, descriptors and file objects are numbers; user code is
--     a `PollProgram`, which calls these methods. Polls/Methods has the methods that can come to user
--     code, since a failing `uv_poll_start` runs the handles at once, and the callback of libuv;
--     `run_handle` has as its depth what Python allows in nested calls, and raises below it.
--     `uv_poll_stop` succeeds, as libuv documents. The transports, the numbers that `fileno` gives,
--     and what user code does are the record `PollEnv`; `Accepting` (Polls/Finding) is what the table
--     asks of it, and has which descriptors libuv refuses.
--   Dns: uvloop/dns.pyx, addresses of Python and of C, and `_is_sock_stream` of uvloop/loop.pyx. The
--     state is the cache `sockaddrs`, an `LruCache`. Python objects that are equal are the same
--     value, a member of an enumeration is its number, and a type of socket is not negative. Only an
--     address with a `bytearray` in it has no hash.
--     Dns/Static is `__static_getaddrinfo` and its kin; Dns/Cached and Dns/Lookups compare with
--     conversion and lookups with no cache, and Dns/Mild says what conversions may raise. What
--     Python's codecs, service names and libuv's functions on addresses do is the record `DnsEnv`.
--   Server: uvloop/server.pyx. Listening sockets and futures are numbers, with their calls in
--     `Sockets`. A coroutine is its part up to the `await`, and its part after a cancellation.
--   Stream: uvloop/handles/stream.pyx with what it inherits. Stream/State has one field for each
--     attribute that the modelled methods use; Stream/Transport is closing, fatal errors and the
--     pausing of the protocol; Stream/Write is the write path; Stream/WriteContext is
--     `_StreamWriteContext`. What libuv, the system and the protocol do is the record `Env` over a
--     type `W` of states; `Faithful` (Stream/Laws) is what the proofs ask of it. The counter
--     `_conn_lost` has 32 bits and wraps, which `wrapped` records.
--   Ssl: uvloop/sslproto.pyx. Ssl/State is the state and `_set_state`, Ssl/Writing the outgoing flow
--     and the flow control, Ssl/Closing the shutdown and `connection_lost`, Ssl/Handshake the
--     handshake and the incoming flow. The `SSLObject`, its buffers, the transport below and the
--     application are the record `Env`.
--   Proofs stand in modules below the code's: Lru/Eviction and Lru/History; Server/Waiting and
--     Server/Histories; Stream/Frame to Stream/Runs, of which Stream/Delivery says where bytes may
--     be, and Stream/Runs has the histories of a stream; Ssl/Forward, Ssl/Backlog and Ssl/Lifecycle,
--     which has the histories of a TLS connection. Loop/Code and Loop/Turns have rules for what
--     user code and runs of the loop keep; Loop/Grow and Loop/Later are what the loop's methods do;
--     Loop/Served, Loop/Order and Loop/Round the order of a round; Loop/Steady, Loop/Known,
--     Loop/Clock, Loop/Clearing and Loop/Timers what stays true. Signals/Dispatch and
--     Signals/Arrival follow a signal; Signals/Pipe and Signals/Runs are the self-pipe;
--     Signals/Shutdown and Signals/Adding the table of handlers. Polls/Watched to Polls/Runs follow what
--     libuv watches; Polls/Table to Polls/Requests are the table of readers and writers, of which
--     Polls/Watching is the abstract view. Modules named Tests run the code on
--     examples.
--   A method `_m` of the source is the definition `m`; parts of a method have names of their own.
--
-- Fuel. The loop of `__setitem__` in the cache has the length of the dictionary as fuel, which is
-- enough since each round drops an entry. The loop round `write(2)` has `max_interrupts`: the system
-- is taken not to interrupt a write more often in a row. `_do_write` has the bytes and the pieces of
-- the backlog: a round writes a byte or drops a piece. The loops that read from an `SSLObject` have
-- the bytes that are pending in it: a round reads a byte or ends. `_read_from_self` goes through the
-- list of what successive calls of `recv` do.
--
-- What is not modelled. Calls that the protocol makes back into its transport while a method of
-- the transport runs, so the theorems on streams are for protocols that write nothing in
-- `pause_writing` and `resume_writing`, of which `SSLProtocol`, whose `resume_writing` writes, is
-- not one; checks that run only in debug builds; reference counts, warnings on deallocation and
-- log lines; the bookkeeping of `Py_buffer`s; in uvloop/handles the read callbacks, accepting and
-- connecting; in uvloop/sslproto.pyx reading into the buffers of a `BufferedProtocol` and the
-- setters of the limits; in uvloop/loop.pyx running the loop and closing more than its `UVPoll`s,
-- the sock_* methods and the factories of transports; contexts; in uvloop/dns.pyx the requests to
-- the resolver; and the other handles. To start or stop an idle or a check handle and to send an
-- async handle is taken to succeed, as libuv documents. Where an event stands for a thread, its
-- call is a step of its own.
pub mod Prelude
pub mod Errors
pub mod Python
pub mod FlowControl
pub mod Dns
pub mod Lru
pub mod Stream
pub mod Server
pub mod Signals
pub mod Polls
pub mod Loop
pub mod Ssl
