-- ===== src/Lib.antt =====
-- A model of the parts of the console's web client that keep state, with the theorems that make them
-- correct. The client is a single-page application in TypeScript, web/src; it talks to a proxy in
-- front of the Kubernetes API.
--
-- The parts and their files:
--
--   LogsStream    web/src/composables/useLogsStream.ts. The buffer of log lines (Buffer: trim, flush,
--                 append, reset) and the loop that reads and reconnects (Machine: start, stop, the
--                 reads of runOnce, the waits). `Stream` is the composable's refs and local variables,
--                 with the point at which its latest loop waits (`Phase`); an `Event` is an answer
--                 of the network or a timer, tagged with the generation of the loop that awaited it.
--   LogSearch     web/src/utils/logSearch.ts (Scan) and web/src/composables/useLogSearch.ts (State,
--                 Fresh, Cursor). The search reads the buffer of LogsStream; Cursor composes both.
--   RingBuffer    web/src/utils/ringBuffer.ts, the aligned series of metric samples.
--   MetricsCache  web/src/utils/metricsCache.ts, the shared cache of such series. The buffers stand in
--                 a heap and the cache maps a key to an address, since charts keep their buffers.
--   Auth          web/src/stores/auth.ts, the sessions per cluster (Store), what sessionStorage holds
--                 of them (Storage, Decode) and a page load (Restore). The end of a session evicts the
--                 caches of its cluster, of which the model keeps a log.
--   Polling       web/src/composables/usePollingLoop.ts, the polling loop as a machine that steps on
--                 calls, timers, changes of visibility and settled polls.
--   ResourceList  web/src/composables/useResourceList.ts, the rows of a live table with the index by key
--                 that is kept across watch events (Rows), and the view that they refine (View); the
--                 loads as a machine (Loads), in which a walk settles by an event, tagged with the
--                 generation that awaited it, and where a watched list comes from (Origin).
--   Gateway       web/src/api/k8s.ts and web/src/utils/tableFallback.ts: paths (Path), requests
--                 (Requests), a page of a collection (Table), the walk over its pages (Walk) and the
--                 list of namespaces (Namespaces). What a server gives is a function of the round
--                 and the continue token; `Serves` says which pages, or which error, that is.
--   WatchStream   web/src/composables/useWatch.ts, the Kubernetes watch: its lines, its backoff, its
--                 generations and the signal of its attempt. `stop` leaves the loop where it stands; the
--                 signal and the generation are what makes it end. A late wait of an old generation
--                 still doubles the backoff, as in the code.
--   ExecSession   web/src/composables/useExecSession.ts, the session of the exec terminal with all its
--                 sockets (Session), as a machine that steps on calls, credentials and the sockets'
--                 events. A socket is in one of the four states of the WebSocket interface.
--   LogLines      web/src/utils/logJson.ts: the literals at a position (Literals) and the scanner of a
--                 line (Scan), whose position is the text that is left; the segments of a line between
--                 its hits (Hits, Marked, Segments), of web/src/utils/logSearch.ts.
--   Preferences   web/src/stores/preferences.ts, the preferences with what localStorage holds of them, and
--                 the pinned resources (Store). JSON values are those of Auth.
--   Shared        lists, dictionaries in the order of a JavaScript Map, texts, Boolean tests.
--
-- Bounds and fuel. Numbers are whole and not negative: lengths, milliseconds, generations. The
-- clock of a browser never reaches the 2^53 above which its numbers are not exact, and no
-- operation of these parts wraps around. The loops on fuel: the rounds of a walk over pages, of
-- which the code itself has a largest number, the scanner of a line, for which twice the length of
-- the line is enough, the search for hits and the cuts of a piece at them, for which the length of
-- the line and of the piece are enough since each moves on, and the second loop of MetricsCache's
-- evict: each round drops an entry, so the number of entries is enough, since it starts with that
-- many. All other loops are structural recursion on a list.
--
-- What is not under web/src is a parameter: the regular expression's test, JSON and its text, the sort
-- of names, the browser's storage and clock. Chunks of a log arrive decoded. A context whose name is an
-- array index, which JavaScript enumerates first, keeps its place here. Vue's reactivity is written out
-- where code depends on it, as the calls that a watch makes.
--
-- Not modelled: the helpers of tables and pods, the stores of the toasts and of the view,
-- components, pages and the router (templates and wiring), the Go proxy, the deployment files.
pub mod Shared
pub mod Auth
pub mod ExecSession
pub mod Gateway
pub mod LogLines
pub mod LogSearch
pub mod LogsStream
pub mod MetricsCache
pub mod Polling
pub mod Preferences
pub mod ResourceList
pub mod RingBuffer
pub mod WatchStream
