-- ===== src/Lib.antt =====
-- libemq: the client library of the EagleMQ message broker.
--
-- A client holds one connection to the server and one request buffer. A call of src/emq.c clears the
-- error, has src/packet.c build a request in the buffer, hands the buffer to src/network.c, and,
-- unless acknowledgements are off, reads a response header and what follows it, checks it, and stores
-- a status and an error in the client. Subscriptions are lists of the client; emq_process reads
-- events from the connection and calls the callbacks of these lists.
--
-- Files and sources:
--   Wire, Protocol    src/protocol.h: the packed structs as lists of members with their bytes, the
--                     commands, statuses and events, and the three headers. The byte order is
--                     little-endian, as on the hosts that the library is built for.
--   System            the system calls as parameters over an unknown world: read, write, writev,
--                     malloc and realloc, with the promises of their manual pages (`Posix`), and
--                     those of a connection that works (`Reliable`), of one that takes its vectors
--                     whole (`Gathers`), of an allocator that does not run out (`Ample`), and of
--                     one under a limit (`Limited`). System/Pipe is an instance of all but the
--                     last, System/Limit of that.
--   Client            src/emq.h: `emq_client`, the error codes, and the shape of every function: a
--                     program over the client and the world that ends with a value, by
--                     `goto error`, in a fault (what C leaves undefined), or is left waiting.
--   Packet            src/packet.c: the request buffer, one function for each request function, and
--                     the checks of headers. Packet/Calls lists the 43 functions as one type with a
--                     server's parser; Packet/RoundTrip relates the two. Packet/Growth is about the
--                     buffer when it has to grow.
--   Network           src/network.c: emq_client_read, emq_client_write and emq_client_writev.
--   Api               src/emq.c: the functions that wait for a bare response (`run_command`) and for
--                     one number (`run_query`), part by part in the children, and the functions
--                     that subscribe and unsubscribe (Api/Subscribe). Api/Commands lists those that
--                     wait for a bare response; Api/Replies and Api/Stages are about their runs,
--                     Api/Confirm about that of emq_queue_confirm. Api/Verdicts says what a
--                     response's header means, by the numbers of src/protocol.h.
--                     Api/Exchange, Api/Unsubscribe, Api/Joining and Api/Subscribing are about the
--                     runs of the functions of Api/Subscribe, Api/Queries about those of `run_query`.
--                     Api/Transfer has the functions that send or fetch a message, and Api/Push and
--                     Api/Fetch are about their runs. Api/Lists has the functions that return a
--                     list, with Api/Listings about their runs, and Api/Stat is emq_stat. Api/Ask is
--                     about all that wait for a response with a body; Api/Steps and Api/Errors are
--                     about connections that fail.
--   Listing           src/emq.h and src/emq.c: the structs in those lists and the loop that copies
--                     them out of a response; Listing/Records has the bytes as a server writes them
--                     and Listing/Loop is about the loop.
--   LinkedList        src/emq.c, emq_list_init to emq_list_next: nodes in a heap with both links.
--                     LinkedList/Linked says what a list of values is in the heap, and
--                     LinkedList/Removal relates the loops over nodes to Subscription.
--   Message           src/emq.c: emq_msg_create, emq_read_message and their like.
--   Subscription      src/emq.c: the lists of subscriptions and the comparison of names.
--   Connection        src/emq.c: emq_client_init, emq_client_release; Connection/Connect has
--                     emq_tcp_connect, emq_unix_connect and emq_disconnect, and the functions of
--                     src/network.c that connect. The calls of the system are parameters, and the
--                     blocks (by kind) and the descriptors that the library holds are counted.
--   Process           src/emq.c: emq_process, emq_queue_process and emq_channel_process.
--                     Process/Rounds and Process/ChannelRounds are about the delivery of one event,
--                     Process/Unclaimed about an event without a subscription, Process/Ends about the
--                     end of the loop. Process/Events has the events as the server writes them,
--                     Process/Replay what the loop does to a sequence of them, as a fold without
--                     bytes, and Process/Refinement shows that the loop implements it.
--                     Process/Departure has a callback that unsubscribes.
--   Benchmark         src/benchmark.c: the configuration, parse_args, the message, and the loop of
--                     worker, with `atoi` and `rand` as parameters. Benchmark/Server has worker,
--                     setup_server and cleanup_server as programs over Connection and Api. Its host
--                     counts the blocks of messages too.
--                     Benchmark/Arguments is about parse_args, Benchmark/Contents about the
--                     message; Benchmark/Answers, Benchmark/Pushing
--                     and Benchmark/Work are about what a worker sends, Benchmark/Visits about what
--                     the other two do on any connection, and Benchmark/Leaving and Benchmark/Worker
--                     about what the three leave behind.
--   Tests             clients, connections and arguments at which the theorems are applied.
--
-- State: `Client` has the members of the C struct. The error is the entry of `emq_error_array` whose
-- text the C buffer holds; a pointer to a block is an `Option` of its bytes; a list of subscriptions
-- is the sequence that the iterator gives from the head. Sizes are those of a 64-bit host. An `int`
-- is its 32-bit pattern where it can be -1, and a count that becomes negative is a fault.
--
-- Bounds and fuel: the loops of emq_client_read and emq_client_write have one round more than there
-- are bytes to transfer, since each round moves a byte at least; running out means a transfer past
-- the buffer, and is a fault. emq_client_writev tries again after EINTR as often as `patience`
-- says. The loop over the records of a list has one round more than the body has bytes, the loop
-- that deletes nodes one more than the list has. emq_process has a number of rounds as its fuel,
-- and a run that uses them up is `stuck`.
--
-- Not modelled: the texts of net_set_error, which are lost with the client that holds them (the kind
-- of the error and its errno are a value of the call that failed); the threads of src/benchmark.c, so
-- that its workers are one connection each, and all that it prints; the examples, straight lines of
-- calls whose results they print.
pub mod Base
pub mod Benchmark
pub mod Wire
pub mod System
pub mod Protocol
pub mod Client
pub mod Connection
pub mod Packet
pub mod Network
pub mod Message
pub mod Subscription
pub mod Listing
pub mod LinkedList
pub mod Api
pub mod Process
pub mod Tests
