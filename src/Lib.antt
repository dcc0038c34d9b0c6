-- ===== src/Lib.antt =====
-- Verification of vyatta-route-broker, which passes routes from the kernel and from a routing
-- daemon to consumers that read at their own speed.
--
-- The program's parts and the files that model them:
--   broker/broker.c, broker/broker.h (one broker: a queue of objects in which every client has a
--     place): Broker.antt has the data and one function for each function of the source, named
--     as it is; Broker/Lifecycle.antt has `broker_create` and `broker_delete`. The queues of
--     <sys/queue.h> are lists of addresses, head first (Circleq.antt). An address leads to a
--     `broker_obj` by the broker's `mem`. The state of the owner of the objects, on which the
--     callbacks act, is passed along (`State`).
--   broker/route_broker.c, broker/route_broker_internal.h (three brokers, one for each priority,
--     and the table of topics): Route.antt. `RouteBroker` holds the globals of the file; the
--     routes, their reference counts and the table are its `World`. `object_broker_publish` is
--     in Route/Publish.antt, the readers in Route/Client.antt, their creation and removal and
--     the checks of `object_broker_init_all` in Route/Setup.antt, the walk of the show command
--     in Route/Show.antt and Route/Show/Walk.antt, `route_broker_init_all` in Route/InitAll.antt,
--     `route_broker_init` and `route_broker_destroy` in Route/Init.antt.
--     Route/Table.antt is about the table and the queues, Route/Sound.antt about a whole state,
--     Route/Calls.antt has the calls as steps, Route/View.antt the map from topics to routes that
--     publishing and reading work on, Route/Drain.antt the loop of a client over the three priorities,
--     Route/Sync.antt the replica of a client that stores what it is told (Kept to Published: what
--     publishing leaves for it; Steady to Own: the calls of clients; Follow, Replica, CatchUp: the
--     runs).
--   broker/topic.c (the topic of a route): Topic.antt with Decimal (the numbers in it), Bounds (the
--     length), Key (what the topic tells apart) and Refused. The functions of libmnl and libc and
--     the conditional parts of the file are the record `Platform`.
--   czmq's hash table, which is not part of the repository: the record `Zhash` (Zhash.antt), a
--     parameter with the laws of lookup, insertion (which keeps an entry that is there) and
--     deletion. Zhash/Assoc.antt is an instance.
--   daemon/fpm.h (the header of the messages of a routing daemon): Fpm.antt.
--   daemon/broker_process.c (messages of the kernel and of the routing daemon): Netlink.antt with
--     Rtnl (what is published of a route message), Walk (the loop over the messages of a buffer),
--     Published (both together, and what is read from the kernel), Stream (the loop over `recv`),
--     Receive (reading a message from the stream) and Dump (the routes that the kernel has when the
--     daemon starts).
--   broker/route_broker_dp_ctrl.c (the sessions of the dataplanes): Dataplane.antt with Message (the
--     messages), Ctrl (the handlers), Sessions and Connect (what holds of them), Config (the
--     configuration), Shutdown, Thread and Ledger (the thread from its start to the closing of all
--     sessions). `ZhashCursor` is the part of czmq's hash table that the closing uses.
--   broker/route_broker_dp_data.c, broker/route_broker_kernel.c (the threads that read from the route
--     broker and publish): Dataplane/Consumer.antt, as steps on the events that a thread meets, and
--     Dataplane/Sockets.antt, the sockets of several threads.
--   daemon/broker_main.c (the daemon): Daemon.antt has the poll loop of `main`, a round for each
--     return of `poll`, and Daemon/Startup.antt what comes before it: the options, the change of
--     group and user, the sockets and the start of the library, as steps that may end the daemon.
-- The parts call each other downwards: Netlink publishes to Route, Route calls three brokers, each
-- with its own callbacks on the common World, and a consumer reads from Route, which asks the
-- brokers in the order of their priority.
--
-- How it is modelled. Broker/Calls.antt makes each call of a broker a step with what its caller
-- has to see to; Broker/Invariant.antt has what holds between calls. The mutex of the route broker
-- makes each of its operations one step; what other threads do while a client waits for its
-- condition variable is the argument `wakeups` of `route_broker_client_get_data`. Identifiers,
-- counters and lengths wrap around at 64 or 32 bits as in the source. Memory that is freed is
-- noted in lists. Allocation, callbacks and sockets are arguments: an address or none, a function,
-- the pieces in which `recv` gives the stream.
--
-- Bounds and fuel. The loop over netlink messages has a round for each 16 bytes of the buffer and
-- one more, and every round uses up at least a header of 16 bytes. The loop over `recv` has a
-- round for each byte that is wanted, and `recv` gives at least one. The loop of a consumer needs
-- one round more than there are pending objects, over the three brokers one more for each. The
-- closing of all sessions has a round more than the table has entries, and the show command one
-- more than it visits elements. A decimal number of 32 bits has at most ten digits.
--
-- Not modelled: a client of the route broker for which one of the brokers has no memory (the
-- source does not notice it), the logging callbacks, the copies of netlink messages, the start and
-- the end of the actors (route_broker_dataplane_ctrl_init), and the filter on the socket of the
-- kernel (daemon/broker_main.c), all of which are largely calls of zeromq, czmq, libmnl and Linux.
-- The output of the show command is a list of its calls of `cli_out`, with the values that they
-- print; the number of errors of a client is an argument of it, and its summary is left out.
mod Base
pub mod Circleq
pub mod Zhash
pub mod Broker
pub mod Route
pub mod Topic
pub mod Fpm
pub mod Netlink
pub mod Dataplane
pub mod Daemon
