-- ===== src/Lib.antt =====
-- A model of the thread-pool web server of this repository (server.c, request.c, log.c, segel.c and
-- their headers), of its client (client.c) and of a CGI program (output.c), with the theorems that make
-- it correct.
--
-- The program. The main thread (server.c) accepts connections and puts them into a bounded circular
-- queue; a fixed number of worker threads take them out in order. A worker reads a request with the
-- buffered reader of segel.c, answers it (request.c), and counts it in its own statistics, which it
-- prints into each answer. GET requests for files and programs also append the statistics to a log that
-- all workers share (log.c); a POST is answered with the text of the log. The log has a lock with many
-- readers or one writer, in which writers go first.
--
-- Which file models what:
--   Server/Queue     server.c, `RequestQueue`, `init_queue`, `enqueue`, `dequeue`, `finishHandling`;
--                    request.h, `Request`. A function is the code between taking and releasing the
--                    mutex, and gives `none` where it would sleep. Bounds has the invariant and the
--                    ranges, Refine the first-in first-out queue that the buffer stands for.
--   Server/Pool      server.c, the loop of `main` against the loops of `worker_thread`, as a step
--                    relation: one step for each critical section, with signals and spurious wake-ups.
--                    Invariant and Preserve are the proof, Safety and Runs what follows. A request
--                    for which `requestHandle` does not return is a worker that takes no further step.
--   Server/Args      server.c, `getargs` and `main` up to its loop, with `atoi` of libc.
--   Server/Worker    server.c, `worker_thread` from a dequeued request to `Close`, and over a run of
--                    requests; between two of them other threads may have changed the log.
--   Server/World     the threads of Server/Pool with the counters of each worker and the shared log: a
--                    worker's round is one step. Runs has what holds in every run, Serves what a
--                    worker does with the request of a client.
--   Log/Buffer       log.h, `struct server_log`; log.c, `create_log` and the growing buffer of
--                    `add_to_log`, with `size_t` arithmetic modulo 2^64.
--   Log/Guard        log.c, `log_start_read`, `log_end_read`, `log_start_write`, `log_end_write`.
--   Log/Whole        log.c, `add_to_log` and `get_log` from call to return, with nobody else in the log.
--   Log/Threads      log.c, any number of readers and writers interleaved, as a step relation.
--                    Threads/History names the entries that a run appends.
--   Rio/Read, Line   segel.c, `rio_readinitb`, `rio_read`, `rio_readlineb`, over a descriptor that is a
--                    list of what its calls of `read` meet: bytes, interruptions, errors, end of file.
--   Rio/Write        segel.c, `rio_writen`, over a list of how much each `write` takes.
--   Rio/Fill         segel.c, `rio_readn` and `rio_readnb`.
--   Rio/Wrapped      segel.c, `Rio_readn`, `Rio_readinitb`, `Rio_readnb`, `Rio_readlineb`.
--   Segel            segel.c, the error functions, the wrappers, `open_clientfd`, `open_listenfd`.
--   Request/Stats    request.h, `Threads_stats`; request.c, `append_stats`.
--   Request/Uri      request.c, `requestParseURI`, `requestGetFiletype`.
--   Request/Headers  request.c, `requestReadhdrs`.
--   Request/Session  the state of a worker during a request, and what the operating system answers.
--   Request/Answer   request.c, `requestError`, `requestServeStatic`, `requestServeDynamic`,
--                    `requestServePost`.
--   Request/Handle   request.c, `requestHandle`. Reaction is its abstract specification: the answer, the
--                    counters and the log entry as functions of the request and the files. Reacts
--                    relates the two, Grows has the log in every environment, Same two deliveries
--                    of the same bytes, Tallied the counters, Ends that the handler comes to an end, Cut a
--                    client that takes no answer.
--   Client           client.c, `clientSend` and `clientPrint`; Start has `main`. Fetch takes the client's
--                    request to the server's reaction, and Start/Fetched the answer back to the client's
--                    terminal; Shows and Shows/Length have what it prints of an answer. Fits
--                    has the requests for which no buffer of the client or the server overflows.
--   Output           output.c, `getargs`, `Time_GetSeconds` and `main`.
--   Base             numbers, lists, C strings, `sprintf` of numbers, `timersub`.
--
-- Numbers and text. An `int` or a `size_t` that may wrap is a natural number with its modulus written
-- out; the counters of the queue and of the lock are natural numbers, with theorems that they stay in
-- range. A C string is the list of its bytes without the zero. What a buffer on the stack holds when a
-- function is entered is an argument. A text that `sprintf` or `strcpy` makes is given whole, whatever
-- the size of the buffer: Client/Fits bounds the requests for which it fits, Request/Uri has one for
-- which it does not.
--
-- Fuel. The loop that doubles the capacity of the log gets the size that is needed, the loop over the
-- header lines one more round than there are bytes and events to come, and `rio_readn` a round for
-- each byte and each interruption; there are theorems that this is enough. `rio_writen` gives `none`
-- where the list of the descriptor's answers ends.
--
-- Parameters. The operating system is the record `Env` of Request/Session, the lists of Rio, and the
-- results of calls that the functions of Segel, `main_start` and `client_main` take. The arithmetic of
-- `double` in output.c is the record `Doubles` of Output. `malloc` is a function to the
-- bytes that the new memory holds; theorems that need it assume that they are as many as asked for.
--
-- Waiting. A write to a client that does not read and a program that does not end may hang: the handler
-- is then stuck. A read that blocks is not in the lists of Rio; they are what the reads have met when
-- they are over.
--
-- Not modelled. SIGPIPE; the part of a text that a failing `Rio_writen` has sent; test.c (a test
-- harness) and the scripts; the clean-up at the end of the server's `main`, which is never reached; the
-- sleep of output.c itself, of which only the length is given; what a `sprintf` that prints a buffer into
-- itself does beyond the append that it is meant to be.
pub mod Base
pub mod Server
pub mod Log
pub mod Rio
pub mod Segel
pub mod Request
pub mod Client
pub mod Output
pub mod Tests
