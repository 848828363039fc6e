-- ===== src/Lib.antt =====
-- CoreConnect-Binary: a C++ toolkit of clients for a binary exchange gateway, and the utility library
-- that they stand on. This library is about the parts of util_lib that carry the protocol: fields of a
-- message, frames on a stream, times as text, TCP connections, multicast sockets, configuration files
-- and logging, about the messages of api, and about the two clients.
--
-- A client reads bytes from a TCP connection (util_lib/tcp), or from a multicast socket
-- (util_lib/multicast), gives them to a framer (util_lib/generic_framer), which calls the client back
-- with whole frames; the client builds its frames and the fields in them with util_lib/fields, and
-- stamps them with util_lib/time. What the clients report goes to a logger (util_lib/logger), whose
-- buffers a second thread writes to disk.
--
-- Base: lists, tests, memory and integers that the models share. `Base.Memory` has `memcpy`,
--   C strings and little-endian numbers; `Base.Int` the signed integers.
-- Fields: util_lib/fields/h/fields.hpp, the class `fields`. The record `Fields` has its members; each
--   method is a function of the object that returns or throws, with the object after it.
-- Framer: util_lib/generic_framer/src/generic_framer.cpp and generic_framer1.cpp, and the header of
--   the first. `StreamControl` is the control block of a stream, `turn` a round of the loop of
--   `parse_raw_rx_data`, `loop` the loop, and `parse_raw_rx_data` the method; the virtual function
--   `process_rx_frame` is a parameter, a function on the state of the host. The two framers differ in
--   whether the length counts the two bytes of the header: the parameter `header_counted` is 2 or 0.
--   `Framer.Spec` says byte by byte what a framer does. The loop runs on fuel, `2 * length + 2` rounds:
--   a round takes a byte, or follows one that does.
--   `Framer.Four` is generic_framer2.cpp, with its length of four bytes and wrap at 2^32; a round of its
--   loop takes a byte or ends it, so the length of the input is fuel enough.
-- Timestamp: util_lib/time/h/timestamp.hpp, times of the day as text: printing, parsing, validation;
--   and, with util_lib/time/src/timestamp.cpp, the clock and the caches of its texts. The answer of
--   `gettimeofday` is an argument; `localtime_r` and `gmtime_r` are a parameter. `Timestamp.Date` is
--   util_lib/time/src/datestamp.cpp.
-- Kernel: the system calls, as a record of functions on the state of the operating system, a parameter
--   of the models of Tcp and Multicast. `Kernel.Sample` is an instance for tests.
-- Tcp: util_lib/tcp/src/tcp_connection.cpp, tcp_client.cpp and tcp_server.cpp, with the codes of
--   util_lib/tcp/h/tcp_error.hpp. The loop of `write_data` runs on fuel: a round for every byte and for
--   every interruption is enough.
-- Multicast: util_lib/multicast/src/multicast.cpp.
-- FileConfig: util_lib/file_config/src/file_config.cpp. An open file is the bytes still to be read, the
--   multimap an ordered list. The loops over lines run on fuel, one round for every byte and one more:
--   every round reads a line with its newline.
-- Logger: util_lib/logger/src/logger.cpp. `Logger.Line` has the state of `logger`, its lines and
--   `p_do_work`; `Logger.Settings` its switches; `Logger.Files` the loops over `write`, on fuel for every
--   byte and interruption; `Logger.Pool` the buffers shared with the disk thread, whose `disk_thread` is
--   cut into steps at each place where it gives up `m_write_mutex`: `Run` interleaves these steps with
--   those of the threads that log. The clock is a parameter. `overrun` tells whether a byte was written
--   behind the log buffer.
-- Latency: util_lib/latency. The loop of `calc` runs on at most a million rounds, the number of counters.
-- Api: api/moonx_binary_api.hpp. `Api.Layout` says how a packed struct lies in memory; a struct is the
--   list of its fields' names and types in `Api.Requests`, `Api.Responses` and `Api.Notifications`;
--   `Api.Messages` has the union and the frame, `Api.Structs` the requests as records.
-- Client: src/binary_gateway_load_test_client.cpp. `Client.Session` has the client's state and its order
--   statistics, `Client.Timers` the load levels, `Client.Sending` heartbeats and batches over
--   Tcp, `Client.Receiving` the way from the connection through the framer to the orders. `Client.Console`
--   has the commands, with `Client.Setup` for the start of a load test, `Client.Requests` for those that
--   send a request and `Client.Structures` for a document sent as a message; `Client.Start` has the start
--   and the events. The event engine, the
--   message layouts and rapidjson, which are not the repository's own, are parameters. The loop of a batch
--   runs on as many rounds as the batch has orders: each round sends one, or ends it.
-- Sample: src/sample_test_client_moonx.cpp. `Sample.Prompts` asks for requests, `Sample.Sending` sends
--   them, `Sample.Console` has the commands, `Sample.Receiving` reads the two connections, whose frames
--   are of two streams of one framer, over the layouts of Api, and `Sample.Start` has the start and the
--   events.
--
-- Not modelled: the text that util_lib/latency prints; the hex dump of the logger; the main functions of
-- the two clients, the constructor of the load test client, and what they print; the JSON commands of the
-- sample client, which nothing calls; the numbers of the errors in api; the copies of eventpp, linenoise
-- and rapidjson, which are other projects' code; the getters of a connection and the lookups of its
-- peer's names after `connect` and `accept`, which are for display; the read of a multicast socket that
-- also returns the kernel's timestamp.
--
-- Taken as given: the numbers of type int of Client, Sample and Latency stay in their range, and the
-- intervals that the load levels divide by are not 0; the two clients have connection objects where the
-- source has null pointers until a connection is made; the texts of commands and the members of JSON
-- documents fit the buffers and have the kinds that the code asks for; the settings of the load client
-- are read as numbers. A call of `send_to_files` is one step of the disk thread, whatever the file takes
-- of it: the loops over `write`, with their errors, are in `Logger.Files`.
pub mod Base
pub mod Fields
pub mod Framer
pub mod Timestamp
pub mod Kernel
pub mod Tcp
pub mod Multicast
pub mod Latency
pub mod FileConfig
pub mod Api
pub mod Client
pub mod Logger
pub mod Sample
