-- ===== src/Lib.antt =====
-- A verification library for http_web_server_c, an HTTP/1.x server library in C with a web interface for
-- gdb on top of it. The library models the text-processing core of the server: everything that turns the
-- bytes of a socket into a request, that keeps headers, routes and query parameters, and that turns a
-- response or a JSON object back into bytes. It also models the thread pool that runs the requests, the
-- dispatch of a request to a route or a file, and the web interface: its request handlers and the table of
-- the processes that they start.
--
-- How the parts of the program interact. src/runner.c accepts connections and hands each one to a worker
-- of the pool of src/threadpool.c. The worker calls `parse_http_request` (src/http.c), which splits the
-- start line, parses the headers (`parse_http_headers`, `parse_http_header`) and the query
-- (`parse_query_parameters`); it then looks up the route (`find_route`, which compares paths with
-- `url_path_cmp` of src/utility.h), calls its callback, and writes what `http_response_stringify` returns.
-- A path without a route is looked up as a file. The callbacks of gdbc/src/main.c read and write JSON
-- bodies with src/json.c, and start, feed, read and stop processes with gdbc/src/service.c.
--
-- Which file models which part:
--   Base            numbers, lists, and `Outcome`: `ok` for a C function that returns, `fault` for undefined
--                   behaviour (a null or dangling pointer, a read or write outside an object, a double
--                   free), `abort` for a failed assertion or an exit, `timeout` for a model that runs
--                   out of fuel
--   CString         strings of C as lists of bytes, and the functions of <string.h> that the program calls
--   Utility         src/utility.h and src/utility.c: `is_non_space`, `find_non_space`, `url_path_cmp`;
--                   Utility/Slice is the trimming and copying that the parsers of src/http.c and src/json.c share
--   Table           the arrays of `struct routes`, `struct http_headers` and `struct json_object`, their
--                   doubling and their linear search
--   Http/Names      methods, versions and status codes, to and from text
--   Http/Routes     `struct route`, `init_routes`, `find_route`, `insert_route`
--   Http/Headers    `struct http_header`, `find_header`, `insert_header`, `destruct_http_headers`,
--                   `http_headers_stringify`
--   Http/HeaderLine `parse_http_header`, with quoted keys and values
--   Http/HeaderBlock `parse_http_headers`
--   Http/Query      `parse_http_query_parameter`, `insert_query_parameter`, `parse_query_parameters`,
--                   `free_query_parameters`, `find_query_parameter`
--   Http/Request    `struct http_request`, `init_http_request`, `parse_http_request`
--   Http/Response   `struct http_response`, `init_http_response`, `http_response_stringify`
--   Json/Escape, Json/StringToken, Json/Element, Json/Object, Json/Insertion, Json/Printing
--                   src/json.c: `is_hex_digit` and the two `switch`es of `json_object_stringify`,
--                   `parse_string_token`, `parse_json_element`, `parse_json`, `insert_json_element` with
--                   `find_json_element`, and `json_object_stringify`
--   Collections     src/collections.c: `struct array` and its five functions, with the calls of the cleanup
--                   handler recorded
--   ThreadPool      src/threadpool.c: the linked list of `job_enqueue` and `job_dequeue` on a heap
--                   (ThreadPool/Queue), and `threadpool_create`, `worker_thread`, `threadpool_add_job` and the
--                   stop of `threadpool_destroy` as a step relation (ThreadPool/Pool), and its loop that
--                   frees the jobs of the queue (ThreadPool/Destroy)
--   Runner          src/runner.c: `get_static_file` and the responses that `run_web_server` prepares
--                   (Runner/Answers), the read buffers (Runner/Buffers), `handle_http_request`
--                   (Runner/Dispatch), the loop that writes the response (Runner/Sending), the claims of
--                   buffers by several threads (Runner/Sharing), and `run_web_server` (Runner/Startup);
--                   Runner/Handlers is what the dispatch asks of the callbacks, which the callbacks of gdbc
--                   fulfil in Gdbc/Main/Serving
--   Blocks          the heap blocks that `destruct_http_headers`, `destruct_json_object`,
--                   `free_query_parameters`, `destruct_http_request` and the end of `handle_http_request` free
--   Gdbc            gdbc/src/service.c: the table of processes (Gdbc/Processes), the argument arrays
--                   (Gdbc/Arguments) and `build_and_run` (Gdbc/Build); gdbc/src/main.c: `trim_string`
--                   (Gdbc/Trim), `validate_run_request` (Gdbc/Run), `execute_program` (Gdbc/Execute), the
--                   callbacks (Gdbc/Callbacks), the routes of `main` (Gdbc/Main) and the rest of `main`
--                   (Gdbc/Main/Start); the descriptors around the fork of `build_and_run`
--                   (Gdbc/Descriptors), the child up to its `execv` (Gdbc/Child), and two threads in
--                   `stop_process` (Gdbc/Race); `atoi` and the
--                   text of an `int` are in Gdbc/Numbers
--   Tests           runs on concrete inputs, and the theorems applied to concrete inputs
--
-- How state and operations correspond to the code. A pointer that is walked along a string is an index
-- into the string, or the rest of the string from it. A function that changes a struct takes it and returns
-- the changed one, with a flag that is false where the source returns NULL. Calls that nest a dozen
-- conditions in C are split into one definition per step, named for what the step does. A function that
-- takes a null pointer for its target takes a flag in its place.
--
-- Bounds and fuel. The loops over a header block, a query, a JSON object and a string token are recursion
-- on fuel. The first three get one more than the length of their text, the last one the index behind the
-- closing quotation mark; each round uses at least one byte, so the fuel is enough. The loop
-- of `threadpool_destroy` gets one more than `job_count`, and each round takes one job.
--
-- What is left out. Allocations of the parsers find memory; `insert_route`, `insert_header`,
-- `insert_json_element`, `insert_query_parameter`, `init_routes` and `http_response_stringify` take
-- flags for theirs. Blocks are numbers in Blocks only, where the destructors are; the other parts do
-- not track what is never freed. An overflow of `int`, by a text of 2^31 bytes or by the counts of
-- builds and of source files, is not modelled. Bytes are compared as unsigned bytes except in
-- `url_path_cmp`, which compares `char` as a signed type. The steps of the pool are the blocks under
-- its locks, with the test and the wait of a worker as two. A waiting worker may be woken by a step at
-- any time, as POSIX allows, and needs no signal for it; that a signal reaches one, which the code does
-- not ensure, is not modelled. A join of `threadpool_destroy` is no step: what it waits for is a state in
-- which the workers have returned. A response that is written to a socket that was closed before is no text to a
-- client. The debug log writes nothing that the models keep. What the operating system answers
-- (the file system, `read`, `pipe`, `fork`, `kill`, `fprintf`) is an argument of the models of
-- src/runner.c and gdbc; what they ask of it is kept as a list. Calls of the service by several
-- threads at once are modelled for `stop_process` only.
pub mod Base
pub mod CString
pub mod Utility
pub mod Table
pub mod Http
pub mod Json
pub mod Blocks
pub mod Collections
pub mod ThreadPool
pub mod Gdbc
pub mod Runner
pub mod Tests
