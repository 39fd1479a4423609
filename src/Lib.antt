-- ===== src/Lib.antt =====
-- mbus is a message bus of a server and clients that exchange JSON texts in frames over a
-- connection. This library models the server, what it does with bytes that have arrived, with the
-- requests in them, and which bytes it prepares to be sent; and the library by which a program is a
-- client.
--
-- Buffer (src/buffer/buffer.c): `struct mbus_buffer` is the record Buffer, mbus_buffer_push is
-- `push`, and so on. The block of memory is a list of bytes; an access outside it is a fault. The
-- allocator is the parameter Memory. The growth loop has 2 ^ 20 + 1 rounds of fuel, as many as there
-- are chunks of 4096 bytes in 32 bits, so a size that is not reached by then comes round again.
-- Compress (src/compress/compress.c): the guards around zlib, which is the parameter Zlib.
-- Frame (src/buffer/buffer.c, src/server/server.c): mbus_buffer_push_string, which writes a frame,
-- and `next_frame`, a round of the receive loop of mbus_server_run_timeout.
-- Json (src/json/json.c): the readers over cJSON, which is the parameter CJson. The path loop has the
-- length of the path for fuel, since each round takes at least one character off.
-- Method (src/server/method.c, src/method/method.h): a request with its result.
-- Client (src/server/server.c, src/server/subscription.c, src/server/command.c): `struct client` and
-- the functions client_*.
-- Clock (src/clock/clock.h): mbus_clock_after on 64 bits.
-- Server (src/server/server.c): `struct mbus_server` and its look-ups. A pointer to a client is the
-- number `handle`; to follow one whose client has gone is a fault. Its children are
--   Server/Events: server_send_event_to and the notifications;
--   Server/Commands, Server/Calls, Server/Create, Server/Status: the server_handle_command_*;
--   Server/Connections: server_client_connection_establish and the callbacks of a websocket
--     connection;
--   Server/Dispatch: server_handle_methods and server_handle_method;
--   Server/Pings, Server/Outbound, Server/Receive, Server/Presence, Server/Run: the parts of
--     mbus_server_run_timeout, and their order before and after the call of poll. The receive loop
--     has the length of the buffer and one for fuel: a round that goes on takes at least one byte
--     off, or, after the length 2 ^ 32 - 4, none for ever.
-- The proofs about the server stand in Server/Keeps, Server/Handlers, Server/CallHandlers,
-- Server/CreateHandler, Server/Steps, Server/Safety and Server/Names, and below the part that they are about.
-- ClientLib (src/client/client.c, src/client/client.h): `struct mbus_client`, with the calls of the
-- program's callbacks as a log. Its children are
--   ClientLib/Requests, ClientLib/Commands, ClientLib/Subscribe, ClientLib/Register,
--     ClientLib/Publish, ClientLib/Options, ClientLib/Api: mbus_client_create and the calls of a
--     program, which queue requests;
--   ClientLib/Connect: mbus_client_run_connect;
--   ClientLib/Receive, ClientLib/Responses: the handlers of messages and the answers to the library's
--     own commands. The input loop has the length of the buffer and one for fuel, as the server's;
--   ClientLib/Reset: mbus_client_reset. The cancellation of command.create resets again; each nested
--     reset has at least one request less, so their number and one is fuel enough;
--   ClientLib/Timers, ClientLib/Flush, ClientLib/Run: mbus_client_run. Behind a connection that timed
--     out the code goes back to `out` once, where no timer of the connection is left, so the fuel is 2;
--   ClientLib/Status: the texts of the enumerations.
-- The proofs about it stand in ClientLib/Invariant, ClientLib/Queueing, ClientLib/Outcomes,
-- ClientLib/Ends, ClientLib/Sending and the modules named for what they show.
-- Base has the names and helpers that all share; a run that C code ends by undefined behaviour is
-- `fault` in Base/Outcome. The modules Examples hold concrete inputs.
--
-- A receive is a call of run_after_poll: receive_all queues methods, handle_methods executes them on
-- the clients, update_presence announces and removes clients. A send is the end of run_before_poll:
-- prepare_out moves one message of each client to its output buffer. A program's call queues a request in
-- its client; mbus_client_run moves the queue to the output buffer and hands what comes in to the
-- callbacks.
--
-- Not modelled: sockets, TLS, the websocket library and the tables of poll descriptors, which are
-- input and output; the options; log lines; freeing of memory, and allocations that fail outside the buffer;
-- the tail queue macros, for which lists stand; the mutex of a client and callbacks that call the
-- library; the command line programs. The
-- identifiers that the server draws for clients are the list `draws` of Env, so a run that has used
-- them up is `spin`.
pub mod Base
pub mod Buffer
pub mod Compress
pub mod Frame
pub mod Json
pub mod Method
pub mod Client
pub mod Server
pub mod Clock
pub mod ClientLib
