-- ===== src/Lib.antt =====
-- A model of the SOCKSv5 proxy: its byte buffer, the parsers of the two protocols that it speaks,
-- the machine of a connection's states with the handlers of a client's and of an administrator's
-- connection, the settings with the table of users, the selector's table, the metrics and the
-- sniffer of POP3 passwords.
--
-- The proxy reads from a socket into a `buffer` (src/buffer.c), and the handler of a connection's
-- state gives the buffer to the parser of the message that it waits for: the client's hello
-- (src/parsers/hello.c), its user name and password (src/parsers/auth.c) and its request
-- (src/parsers/request.c), or the administrator's messages (src/parsers/admin_*.c). A parser is
-- fed byte by byte until it is done; the answer is written into another buffer. The machine of
-- src/stm.c calls the handler, and the administrator's messages change src/server_config.c.
--
-- - Base: names of the libraries, tests on numbers, lists as C arrays. `none` is a failed
--   `assert`, an `abort` or an access outside of an array.
-- - Buffer: src/buffer.c. The pointers are offsets from `data`. `Holds b q` says that the bytes
--   between the pointers are `q`, inside of the limit; the limit may be one more than the storage,
--   as the program has it, and `HasRoom b n` says that `n` more bytes are inside of both.
-- - Parsing: the loop `..._consume`, which each parser repeats, over a record of what differs:
--   the step and the test for a final state. Its fuel is the number of bytes in the buffer, and
--   each round takes one, so it is enough: Parsing/Stream compares the loop with a recursion over
--   the bytes that has no fuel. Parsing/Collect and Parsing/Text run a field of given length.
-- - Hello, Auth, Request: src/parsers/hello.c, auth.c and request.c, with the enumerations and
--   structures of include/parsers/. `feed_in` is the switch of `..._parser_feed`.
-- - Admin: src/parsers/admin_connect.c, admin_put.c, admin_edit.c, admin_delete.c, admin_get.c,
--   admin_configbuffsize.c and admin_configstatus.c, one module for each.
-- - Stm: src/stm.c, the machine of a connection's states. Its handlers are functions on a world
--   that is a parameter; Mng and Socks fill it.
-- - Config: src/server_config.c, the settings and the table of users. `IsTable c t` says that the
--   table holds the list `t` of names and passwords; the theorems are about that list.
-- - Config/Report: the getters of src/server_config.c that answer the administrator's queries.
-- - Listgeneric, Metrics: src/listgeneric.c and src/metrics.c.
-- - Socket: what the handlers do with a buffer around `recv` and `send`. What these return is an
--   input of each event: `received` and `sent`.
-- - Mng: src/mng.c and src/mng_handler.c. `World` is a connection with what it reaches;
--   `Handler` is what tells the reading handlers apart, `handle` their common text. `Views` reads
--   the union of the parsers as each of its members.
-- - Sniffer: src/pop3_sniffer.c, with the list of src/listgeneric.c. The bytes in its buffer are
--   the fuel of its loop, of which each round takes one.
-- - Socks: src/socks5.c and the handlers of src/socks5_hello.c, src/socks5_auth.c,
--   src/socks5_request.c and src/socks5_copy.c. The outcomes of `socket`, `connect` and
--   `getsockopt` are inputs of the event; `request_connect` calls itself once for each outcome.
-- - Selector: src/selector.c, the table of descriptors with its sets for select(2). A loop over
--   the bits of a number has the number as its fuel, which is at least the count of its bits.
-- - Client: the requests of management_protocol/management_protocol_handler.c, as the bytes that
--   are given to `send`.
--
-- A byte is a number; `uint8_t` counters wrap at 256. A `bool *` that may be NULL is an optional
-- flag. `malloc` is taken to succeed. Log messages are left out; the values of an enumeration are
-- those that it declares, so that the `default` branches that only log are not reached.
--
-- Not modelled: the main program and the command line, which are system calls and parsing of
-- `argv`; the selector's iteration, threads and signals; the thread that resolves names, whose
-- outcome is the list of addresses; the logs, which only print; and of the management client, a
-- program of its own, the options, the printing and the replies that it receives.
pub mod Base
pub mod Buffer
pub mod Parsing
pub mod Hello
pub mod Auth
pub mod Request
pub mod Admin
pub mod Stm
pub mod Config
pub mod Selector
pub mod Listgeneric
pub mod Metrics
pub mod Socket
pub mod Mng
pub mod Sniffer
pub mod Socks
pub mod Client
