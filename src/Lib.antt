-- ===== src/Lib.antt =====
-- X-Server: a web server of a master process and worker processes, each with an event loop.
--
-- The parts that are modelled, and how they meet:
--   - Http: src/http.c and include/http.h. connection.c hands the bytes that have arrived to
--     parse_http_request_from_buffer. Http/Line is read_line_from_buffer, Http/Path is
--     normalize_path, Http/Header is the handling of one header line with get_header_value,
--     Http/Method is parse_method with http_method_str, and Http/Request puts them together.
--   - Limit: src/connection_limit.c and include/connection_limit.h. connection.c asks
--     check_connection_limit and then check_rate_limit for each accepted client, and calls
--     release_connection when the rate refuses it and when the connection closes. Limit/Table is
--     ip_hash with the chains of both hash tables; Limit is every operation but the statistics of
--     all tables and their clearing, which are Limit/Stats.
--   - ThreadPool: src/thread_pool.c and include/thread_pool.h. ThreadPool is thread_pool_create,
--     thread_pool_add, thread_pool_destroy and one turn of thread_worker under the lock;
--     ThreadPool/System is the interleaving of callers and threads as a step relation, with those
--     calls of thread_pool_destroy that go on to join the threads, and ThreadPool/Drain the loop of
--     one thread.
--   - OAuth: src/oauth.c and include/oauth.h. validate_request calls validate_oauth for a route
--     that demands it. OAuth is find_api_auth_config, is_url_allowed and validate_oauth; the file
--     of applications and md5_hash are arguments.
--   - Routes and Files: find_route of src/config.c, rewrite_path of src/proxy.c, and get_mime_type
--     and the decisions of handle_local_file in src/file_handler.c. connection.c finds the route of
--     a request and hands the request to the proxy or to the static files. The file system is an
--     argument.
--   - Gateway: handle_request of src/connection.c with validate_request of src/auth.c. It is the path
--     of a request through Http, Routes, OAuth and Files to its answers.
--   - MemoryPool: src/memory_pool.c and include/memory_pool.h. MemoryPool is create_memory_pool,
--     pool_malloc, pool_free and get_pool_stats, and MemoryPool/Compress compress_memory_pool. The
--     memory behind a pointer that pool_free reads is an argument.
--   - HttpParser: src/http_optimized.c and include/http_optimized.h, a second request parser that
--     goes on where the bytes ended. HttpParser is http_parser_parse, one function for each state,
--     and HttpParser/Batch http_parser_parse_batch.
--   - EventLoop: src/event_loop.c and include/event_loop.h, on Linux. EventLoop is the hash table of
--     handlers with the operations on it, EventLoop/Turn one turn of event_loop_thread. The reply of
--     epoll_ctl and the events of epoll_wait are arguments, as the callbacks are; the memory of the
--     handlers is a list of those that are not freed.
--   - ConnectionPool: src/connection_pool.c and include/connection_pool.h. A call that locks a mutex
--     which its thread holds never returns; that is one of its outcomes. ConnectionPool/Calls is the
--     interleaving of clients and the clean-up thread, where a return is two steps: its first test
--     holds no mutex.
--   - Config: src/config.c and include/config.h. Config is the lines, numbers and routes of a
--     configuration file, Config/Settings config_t with its defaults and keys and load_config, and
--     Config/Validate validate_config. A file is its bytes, and the number of processors an argument.
--   - FileCache: src/file_io_enhanced.c and include/file_io_enhanced.h, the hash table of cached files
--     and a turn of its clean-up thread.
--   - Master: src/master_process.c and include/master_process.h, the flags, the workers and the turns
--     of the main loop. What fork and waitpid do is an argument of the turn.
--   - SharedMemory: src/shared_memory.c and include/shared_memory.h, the configuration and the
--     statistics that the processes share, each under its semaphore.
-- Text is what the code uses of <string.h>, <ctype.h> and <stdlib.h> in the C locale, and Prelude
-- the names and lemmas that the modules share.
--
-- How state and operations correspond. A buffer is the list of its unread bytes, and a C string
-- the list of its bytes before the NUL; `char` is signed. An operation on shared state is a
-- function from the state to the state and the result, one step under the mutex that the code
-- holds. Readings of the clock and the outcome of malloc or of a pthread call are arguments; in
-- the request parser malloc succeeds. NULL is `none`. A failed request is a value of the result
-- type, as its error code is in the source.
--
-- Bounds and fuel. The lengths are those of the source: lines of 8192 bytes, and of 1023 bytes in
-- a configuration, 100 headers, a URI of 2048 bytes, a request of 65536 bytes, a body of 10 MB,
-- 1024 hash chains, addresses of 45 bytes. The header loop of the parser runs on fuel, one more
-- than the unread bytes, of which each turn takes at least one; the loop of a thread on one more
-- than the queued tasks; the loop of http_parser_parse on three turns for each byte and three
-- more; and that of the batch on one turn for each byte and one more. The `int` counters of the
-- limiter, the thread pool and the event loop are natural numbers: none of them goes below 0, and
-- each is bounded by a limit of the code or by what is open. Those of the connection pool go
-- below 0 and are kept modulo 2 ^ 32. The numbers of a configuration are two's complement on 32
-- bits. Hashes are kept to their 32 or 64 bits; the sizes of the memory pool are bounded by the
-- memory.
--
-- Not modelled: sockets, files, processes and signals (the set-up in shared_memory.c, the
-- shutdown in master_process.c, worker_process.c, process_lock.c, logger.c, the sending half of
-- file_io_enhanced.c, and event_loop.c on other systems than Linux), the socket-reading variant
-- of the request parser, what the handlers send (the rest of proxy.c, file_handler.c and
-- connection.c), the rest of auth.c, and what http_optimized.c does around its two parsers.
pub mod Config
pub mod ConnectionPool
pub mod EventLoop
pub mod FileCache
pub mod Files
pub mod Gateway
pub mod Http
pub mod HttpParser
pub mod Limit
pub mod Master
pub mod MemoryPool
pub mod OAuth
pub mod Prelude
pub mod Routes
pub mod SharedMemory
pub mod Text
pub mod ThreadPool
