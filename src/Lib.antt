-- ===== src/Lib.antt =====
-- The C runtime of the Kod language, as a library of definitions and theorems. Compiled Kod
-- programs, the compiler and the language server (all written in Kod) call this runtime.
--
-- How the parts fit together. A program keeps strings and arrays in memory that the arena hands
-- out and gives back all at once. The string builder makes strings from parts. The file descriptor
-- calls return strings and leave an error number behind, which stdlib/stream.kod turns into a kind
-- of error. The language server keeps its documents and its cached compile outside the arena, so
-- that they outlive a reset. A child process is run with both of its output streams captured into
-- two growing buffers; the capture is a state machine over the rounds of poll. A TLS session reads
-- and writes its socket through callbacks that Secure Transport calls, and leaves what went wrong
-- in globals. The test framework and the profiler are sets of globals that generated code and a
-- signal handler write.
--
-- Files, each with child modules for its proofs and a Tests module with runs and examples:
--   Base         shared names, lists, lookups, memory and its bounds, the result of a call
--   Growth       the doubling loop `while (new_cap < need) new_cap *= 2` of stdlib/runtime.c
--   Str          KodStr and kod_str_new of stdlib/kod_rt.h; kod_str_slice, kod_str_concat,
--                kod_str_cmp, kod_str_from_cstr and kod_bytes_from_array of stdlib/runtime.c
--   StrBuilder   kod_sb_new, kod_sb_append and the rest of the builder, stdlib/runtime.c
--   Arrays       kod_array_slice, kod_array_copy, kod_array_concat and kod_array_concat_new of
--                stdlib/runtime.c, on a store of headers and blocks by address
--   Arena        new_block, arena_alloc and arena_reset of stdlib/arena.c
--   Lsp          lsp_docs_set, lsp_cache_lookup and the other lsp_ calls of stdlib/runtime.c
--   Testing      kod_test_reset, kod_test_fail, kod_test_report and kod_test_summary of
--                stdlib/runtime.c
--   Panic        kod_panic, kod_index_oob and kod_eprint of stdlib/runtime.c
--   Profiler     kod_prof_handler and the _profiling_ accessors of stdlib/runtime.c
--   Fd           kod_fd_open, kod_fd_read, kod_fd_write and kod_errno_kind of stdlib/runtime.c, and
--                IoKind, kind_at and kind_of_errno of stdlib/stream.kod
--   Stdin        read_stdin_line of stdlib/runtime.c
--   Spawn        the descriptors of a child, for kod_run_process and kod_spawn of stdlib/runtime.c
--   Process      kod_run_process, kod_spawn, kod_kill and kod_exec of stdlib/runtime.c
--   Capture      the loop of kod_run_process over poll and read, and append_to_buf
--   Tcp          kod_tcp_connect, kod_tcp_listen and the other calls of stdlib/net/tcp.c
--   TlsIo        read_cb and write_cb of stdlib/net/tls.c
--   Tls          kod_tls_read, kod_tls_write and the report of failures, stdlib/net/tls.c
--   TlsOpen      kod_tls_open, check_trust, kod_tls_close and load_certificates of stdlib/net/tls.c
--   Float        kod_f64_valid of stdlib/runtime.c
--   FloatBits    kod_f64_to_i64, kod_f64_is_nan and kod_f64_is_inf of stdlib/runtime.c
--   Decimal      kod_f64_to_str of stdlib/runtime.c
--   Inflate      kod_inflate of stdlib/compress/inflate.c
--   Files        read_file and read_stdin_exact of stdlib/runtime.c
--   Clock        kod_monotonic_ns, kod_unix_ns and kod_sleep_ns of stdlib/runtime.c
--   Duration     format_duration and monotonic_res_ns of stdlib/runtime.c
--
-- Conventions. A definition has the name of the C function it stands for. A call returns a Run: a
-- value, a panic with its text, `undefined` for what C leaves undefined (an access outside an
-- object, a signed overflow), or `out_of_fuel`. Sizes that are not negative are natural numbers, and
-- sums and products of them are checked against the range of int64_t where they are made; arguments
-- that may be negative are integers. Memory that nothing has written holds what a parameter `junk`
-- says. An arena allocation outside Arena is new memory of its own.
--
-- Bounds and fuel. Growth.grow runs on fuel: the doubling starts at a positive capacity, so that as
-- many rounds as the size needed are enough. Float.digits_loop runs on one more than the length of
-- the string. Fd.retry runs on fuel: one round more than the number of interrupted calls is enough,
-- and the relation Fd.Retry.Settles counts them. The loops that wait for the system
-- (Capture.capture, Tcp.await, TlsIo.read_loop, TlsIo.write_loop, TlsOpen.handshake) run over the
-- list of the system's answers, and are out of fuel where the list ends before they do; the
-- theorems say which lists are long enough. Inflate.inflate_loop runs on more than the number of
-- calls of zlib that the input takes, and Files.file_loop on more than the length of the file.
-- Files.exact_loop has one round more than the bytes asked for, which is always enough. All other
-- loops are structural. The bounds on lengths in the theorems (2 ^ 58 elements, 2 ^ 60 to 2 ^ 62
-- bytes, 2 ^ 31 calls) keep the sizes in the range of their C types.
--
-- Outside the model. The operating system and the C library are parameters: malloc, the system
-- calls with the state they change, the streams of files, the size of what memcmp returns, the
-- printing of numbers, the clock, the memory and the registers that a signal interrupts, the rounds
-- of poll, the answers for each address of a resolved name, and the numbers of the errors. So are
-- the calls of Secure Transport and of zlib. Not modelled are the arithmetic of floating-point
-- numbers, the calls that only pass on the result of one system call (the environment, directories,
-- write_file), and the code written in Kod apart from the kinds of error.
pub mod Base
pub mod Growth
pub mod Str
pub mod Spawn
pub mod StrBuilder
pub mod Arrays
pub mod Lsp
pub mod Arena
pub mod Fd
pub mod Testing
pub mod Panic
pub mod Profiler
pub mod Stdin
pub mod Clock
pub mod Duration
pub mod Process
pub mod Capture
pub mod Tcp
pub mod TlsIo
pub mod Tls
pub mod TlsOpen
pub mod Float
pub mod FloatBits
pub mod Inflate
pub mod Decimal
pub mod Files
