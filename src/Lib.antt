-- ===== src/Lib.antt =====
-- Dracon, an HTTP/1.x server that hands each request to a session of a plugin. The server reads bytes
-- from a connection, feeds them to one request parser per connection, picks a session by the head of
-- the request, and the session reads the body and writes a response, whole or in chunks.
--
-- The modules and the code they are about (paths from the repository's root):
--   * HttpParser: src/server/http_parser.h, class http_request_parser. State holds its members and
--     begin_request, Detail the functions on text (make_char_table, trim_ows, for_each_token,
--     canonical_name, next_line), Head parse_head with parse_request_line, parse_header_field and
--     finalize_head, Body parse_body with parse_chunked and deliver. The parser and the request it
--     fills are passed as a pair. Lines, Head/Bounds, Head/Loop, Body/Deliver and Body/Loop have the
--     lemmas on one round of each loop; Head/Fields and
--     Head/Follows follow the fields and the counts through the loop of the head; Incremental, Limits,
--     Framing, Announced, Chunked and Sized have the theorems.
--   * Http: include/dracon/http.h. Request has the fields and the members of class request that the
--     parser sets; Response has namespace detail and response::to_string, with Status on the table of
--     status codes, Reading on a client that reads line by line, and Split the theorem on both.
--   * Stream: include/dracon/stream.h. Chunked is class chunked_stream on a next layer that appends
--     what it is given; Hex, RoundTrip, Decode and Encode follow what it writes through the parser.
--     Ostream is class ostream_buffer on a stream that records its writes, for any capacity that the
--     standard library's `reserve` leaves if it is at least what was asked; Ostream/Keeps has its
--     theorem, and HttpParser/Output the two streams and the parser together.
--   * Utils: include/dracon/utils.h. UnescapeUrl is from_hex and unescape_url, Split is split,
--     Buffer is class buffer of characters, once its pointers are into its allocation. LruCache is
--     class lru_cache, where an iterator is the identity of a node; Lists has the lemmas on nodes, Refines
--     the invariant and what changes the entries, Reads the reads and erase, History sequences of calls.
--   * HttpSession: src/server/streams.cpp, class basic_http_session. A loop that reads or writes is
--     recursion over the list of what the socket and the event loop answer. Feeding and Feeding/Rounds
--     follow the common loop of read_headers and read for any parser that may be handed its input in
--     pieces; Reading and Body are the two parsers. Writing has the two writes and what a TLS session
--     offers of several buffers, with its theorems in Vectored and Offer. Connection is what a plugin's
--     session does to a connection, the operators << and >> of include/dracon/http.h, and IoLoop is
--     io_loop with its catch clauses, for any sessions. Ahead and Ends count the bytes still to read;
--     Once, Alike, Plans and Turns compare a connection with one where all is pending, read by read,
--     session by session and turn by turn, up to Delivery.
--   * EventLoop: src/server/sessions_event_loop.cpp, and the part of src/server/server_session.h that
--     the loop calls (EventLoop/Session), as operations on the state of one loop. Sets and Effects say
--     what each operation changes, Deadlines, Scan and Keeps follow the earliest deadline, Published follows
--     the deadline of a new session until it is registered, Timely and Due are on all histories of a loop, Order is on the order of events and Poll on the wait for them.
--   * Restful: include/dracon/restful.h, restful_route and restful_router for handlers of any type.
--     Choice says which route answers, Dispatch follows a URL that is written from a route, Routes is
--     on declaring routes and methods.
--   * StaticContent: src/plugins/static_content/static_content_plugin.cpp, with a record of functions
--     for what the file system answers. FilePath is std::filesystem::path as the plugin uses it, Files
--     the cache of mapped files, Session mime_type, create_session and what is sent. Normal and Under
--     follow the path from the URL, Fresh the cache, Session/Serves all of it.
--   * Server: src/server/server.cpp, the admission of connections by address and the counts of
--     sessions, with Connections on the map of addresses and Counts on all histories. Choice is
--     create_session over the plugins of src/server/server_plugin.h and the choice of a loop,
--     Properties is merged_properties, Status is src/server/server_service_sessions.cpp.
--   * ThreadWorker: include/dracon/thread_worker.h, the queue and the threads as steps, with the
--     order of the tasks in InOrder.
--   * Scanner: what the loops of the parser have in common. A loop takes turns on the bytes that are
--     left until a turn stops; the theory says when it ends and when a cut of the input does not
--     matter.
--   * Prelude: the names, lists, tests and results that the modules share.
--
-- Bytes are numbers below 256, size_t is a number with its wrap-around at 2 ^ 64 written out where a
-- sum can reach it. A thrown dracon::response is `fail` with its status and text. The loops of the
-- parser have as fuel one more than the bytes they are handed; each round that goes on consumes a
-- byte, or spends the one round without bytes, so it never runs out (Scanner/Fuel). clean_cache has
-- as fuel the number of keys, of which it erases one a round; xsputn one more than the characters, of
-- which each round takes one at least; io_loop one more than the bytes that are still to come, of
-- which the head of each request takes one at least. The body callback of a request is one that appends to a
-- string, and the writes of a stream are taken to succeed.
--
-- A std::unordered_map is its entries in the order of insertion for the fields, and a function with a
-- count for the cache's index. What sockets, TLS and epoll answer, and what a coroutine does when it
-- is resumed, is given to the model. The operations on an event loop are one after the other; the
-- construction of a session, which publishes its deadline, and its registration are two of them: a
-- scan in between loses the deadline, so that the theorems on deadlines are on histories without one. The clock counts nanoseconds from a time before the program. A file system answers the
-- calls of one session alike: nothing is written in between. The steps of the threads of a
-- pool are one after the other. The loading of plugins is not modelled.
pub mod Prelude
pub mod Http
pub mod Scanner
pub mod HttpParser
pub mod Stream
pub mod Utils
pub mod EventLoop
pub mod HttpSession
pub mod Restful
pub mod Server
pub mod StaticContent
pub mod ThreadWorker
