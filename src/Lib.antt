-- ===== src/Lib.antt =====
-- Models of the HTTP proxies of this repository and of the small web server beside them, and what
-- is proved of them.
--
-- The programs
-- - proxylab-handout/proxy.c is a proxy with one thread and an epoll loop. `main` registers an
--   `event_action` per connection; its `callback` is the handler for the next event: a listener has
--   `handle_new_client`; a connection goes from `clread` (the request from the client) to `srvwrite`
--   (the request to the server), `srvread` (the response) and `clwrite` (the response to the
--   client). EventProxy models it: Action (the struct, `freeEventAction`), Read and Srvread (the two
--   read loops, `srvread`), Request, Wire, Cache and Clread (the parts of `clread`; Feed in it is
--   its calls over the events of one connection), Write (`srvwrite`, `clwrite`), Accept
--   (`handle_new_client`), MainLoop (`main`; in it, Exchange is about one request and its response
--   over four turns, Commute about the order of two events, Ends about the answers that stop the
--   loops, Connection about what epoll watches), Echo (`handle_client`, which nothing calls).
-- - httpProxy-master/proxylab-handout/proxy.c is a proxy with four threads behind a bounded buffer
--   of descriptors, which sbuf.c has as well. ThreadProxy models it: Sbuf (the two bounded
--   buffers; Calls in it splits their calls at the semaphores), Store (the cache: search,
--   storing, eviction; History in it is any sequence of them), Lock (its readers-writer lock,
--   over all interleavings of the threads), Relay (the loop that passes the response on), Worker
--   (one round of `thread`; Session in it is rounds one after the other, Ends about when they end),
--   Log (`logThread`, and the entries of `thread`). The code that takes a request apart and
--   builds the one for the server is the same text in both proxies; Worker uses the model in
--   EventProxy.
-- - proxylab-handout/tiny/tiny.c is the web server. Tiny models it: Uri (`parse_uri`,
--   `get_filetype`), Print (`sprintf`), Serve (`serve_static`, `serve_dynamic`, `clienterror`), Doit
--   (`doit`, `read_requesthdrs`).
-- - proxylab-handout/tiny/cgi-bin has two programs that the web server runs, adder.c and slow.c. Cgi
--   models them: Atoi (`atoi` and `int` arithmetic), Adder, Slow. They get their query from the
--   `run_cgi` of the web server's model.
--
-- How C is modelled
-- - Memory: an object `char[n]` is a list of `n` bytes. The functions of string.h follow their
--   definition on it, and a read or write outside the object is the outcome `fault`. Objects that
--   the code does not clear are parameters (`temp`, `stack`, `buf2`): each event brings what they
--   hold, like the value of errno, and nothing ties it to the events before. A pointer whose block
--   was freed has no value until it is assigned, and to test or free it is a fault.
-- - `sprintf(buf, "%s...", buf)` reads the buffer that it writes, which C leaves undefined: what it
--   leaves is a parameter (Sprintf in Tiny/Print), and IsAppending says that it appends.
-- - Outcomes: `done`, `fault` (undefined behaviour), or `starved` (the code waits: a loop wants an
--   answer of the system that is not in the list, or a semaphore is 0).
-- - The system: a handler takes the answers of its system calls as lists and values (`Read`,
--   `Write`, `Accepted`, `Address`), and leaves its action, its return value, and its calls in
--   order. A loop over the system's answers is a recursion on the list of them, so it needs no fuel;
--   `starved` says that the list ended first. A `write` of 2^64 - 1 bytes, which the relay asks for
--   when a read fails, is taken to be refused, as Linux does. The fuel of `decimal` is more than the digits.
-- - The epoll set: MainLoop/Watch says what the calls of epoll_ctl and close make of it, as the
--   system documents them, where they work.
-- - Platform: the values of EINTR, EAGAIN and EWOULDBLOCK and the block that `malloc` returns are
--   parameters; IsLinux has what Linux and its allocator document of them. `malloc` never fails.
-- - Integers: `size_t` is a natural number with its wrap-around at 2^64 written out (add64, sub64);
--   descriptors and the results of system calls are integers. Positions in buffers stay below the
--   buffers' sizes. `currentCacheSize` of the threaded proxy is an `int`; the model has it as a
--   natural number, and is about states in which no entry is larger than the counted total.
-- - The epoll loop: the heap of actions is a list by address, with `none` for a freed one; an event
--   is a slot of the array that `epoll_wait` fills, which keeps the slots of earlier turns.
-- - The log: the `buf` of each thread is an object in a list, and an entry of `logEntries` is the
--   number of the thread whose `buf` it points to.
-- - Tests has runs of the models and the theorems at concrete inputs.
--
-- Not modelled: diagnostics on stdout and stderr; the set-up of sockets in the three `main`s;
-- csapp.c, a library that the programs only call; the lock of the entries' times; the line that
-- `logThread` writes when it starts; the interleaving of the threads inside the log entry and the
-- round of `logThread`, which are one step each.
pub mod Prelude
pub mod Memory
pub mod Platform
pub mod EventProxy
pub mod ThreadProxy
pub mod Tiny
pub mod Cgi
pub mod Tests
