-- ===== src/Lib.antt =====
-- A model of the core of Radeon Developer Panel: the capture API, which lets a program take traces
-- of another process's GPU work, and the parts of the tracing library that it stands on.
--
-- The parts, and the files that model them (paths are from the repository's root):
--
-- - Common: tests, lists, sets, maps and byte strings that the other files share.
-- - Api.Wildcard: `MatchesWildcard` of source/api/api_blocklist.cpp. Token is how the pattern
--   pointer is read, Loop the loop over both pointers, Relation what a pattern means, with no
--   search in it, and Decision that the loop decides it. The loop runs on fuel, one more than the
--   length of the name times one more than the length of the pattern; Decision shows that it is
--   enough.
-- - Api.Blocklist: the rest of that file. Text holds the operations on strings, Defaults the
--   entries of a new list, Entries the calls (`AddEntry`, `RemoveEntry`, `Clear`, `LoadFile`,
--   `GetEntries`, `Contains`, `SetBlockedCallback`, `NotifyBlocked`), and the other files what
--   holds of them.
-- - Api.Stream: source/api/api_trace_io.cpp. Memory is a stream over its growing buffer, with
--   64-bit sizes that wrap, Provider the provider of streams, File an abstract file; the other
--   files show that the streams are such files. The loop that doubles the capacity runs on fuel,
--   which Buffer shows to be enough for positions below 2 ^ 63. Memory is taken never to run out:
--   `Write` does not test what `ApiRealloc` returns.
-- - Api.Client: source/api/client_manager.cpp, which lets in the connections of one process at a
--   time. It asks the blocklist and the user's filter.
-- - Api.Context: `EnableFeature` and `DisableFeature` of source/api/capture_context.cpp, with the
--   configuration of the trace sources in source/api/trace_source_adapter.cpp. They are refused
--   while the client manager has a process. Exclusive, Live and Asked are what any
--   calls keep, Rollback what a call that disables undoes.
-- - Api.Requests: `TraceSourceAdapter` of source/api/trace_source_adapter.cpp, between a trace
--   source and the user's callbacks: its events, and the requests of traces that it passes on.
-- - Api.System: `GetSystemInfo` and `FreeSystemInfo` of source/api/capture_context.cpp. Any call of
--   `ApiAlloc` may fail; the memory is the list of the blocks that are live.
-- - Api.Clocks: source/api/api_clocks.cpp, the GPUs by index, on the model of the device clocks.
-- - Api.Data, Api.Result: source/api/api_data.h and results of source/api/RdpCaptureApi.h.
-- - Trace.Connections: `ClientConnectionManager` of source/trace/src/client_connection_manager.cpp,
--   which tells a trace source of its connections. Trace.Api names their APIs.
-- - Trace.Status: `TraceSourceStatus` of source/trace/src/source_status.cpp, which the adapters
--   turn into the stages of the capture API.
-- - Trace.Source: `BaseTraceSource` of source/trace/src/base_trace_source/base_trace_source.inl, which
--   the trace sources extend. Clients is what the source knows of a client, State the state and the
--   status that is built of it, Handlers the events of the driver and the calls of clients, Calls
--   sequences of them, Reporting the threads that take the events out of the queues, Writer and Heartbeat
--   what writes a trace to a stream (source/trace/src/base_trace_source/file_writing.cpp); the other
--   files show what holds of them. A subclass's client is a parameter: in which state of the driver
--   it is initialized, whether that succeeds, and which states it takes in a handler.
-- - Trace.Overlay: source/trace/src/overlay_manager.cpp, which shows the states of the trace sources in
--   the driver's overlay. Manager is its state and handlers, Lines what the queued operations draw,
--   View what an operation does to one client, Asked and Held what was asked for and where it is
--   held, Clocks and Steps that the operations keep it, Shown that a line shows it.
-- - Trace.Spm: the chunk of derived counters in a trace file,
--   source/trace/src/counters/rgp_derived_spm_database.cpp. Words and Buffer are how values are read and
--   written, Header the header of a chunk, Search the search for a chunk, Serialize the writer of the chunk;
--   Layout and Sizes say what the chunk looks like, and the other files show what holds. The search runs on
--   fuel, one more than the bytes of the file; Ends shows in which files it is enough.
-- - Trace.Counters: how source/trace/src/counters/rgp_spm_database_parse.cpp evaluates the formula of a
--   component of a counter. Formula is the evaluation, Sums what it makes of sums. A read past the end of
--   a vector and an assertion that fails give nothing; the doubles and their addition are parameters.
-- - Trace.Clocks: source/trace/src/device_clocks.cpp. Gpu is one GPU with the clock mode that the
--   driver holds for it, Manager the requests of modes and the connections that force the peak
--   mode, Router the events of the router, Peak, Asked and Names what holds of them. A count of GPUs of one
--   name is 16 bits wide and wraps.
-- - Api.Examples, Trace.Examples: the theorems at concrete inputs.
--
-- Handlers that hold one mutex throughout are one step each; state is passed from call to call.
-- What the driver tools and the router answer (`SetFeature`, `SetClockMode`,
-- `QueryPathByProcessId`), the user's filter, the contents of files, the bytes of fresh memory
-- and the format of a name with its index are parameters.
--
-- Not modelled: the start and the end of a capture context, which build the objects and call the
-- driver tools' libraries; the progress events and the parameters of captures; the subclasses
-- of the base trace source; the calculation of the derived counters by the counter library, the raw
-- counters of the profiler and its RDF files; the frontend, whose views are glue on Qt; the command line
-- client;
-- vendored libraries.
mod Common
pub mod Api
pub mod Trace
