-- ===== src/Lib.antt =====
-- plex-mirror keeps local copies of media items of a Plex or Jellyfin server. Its parts are the
-- `items` table, the download engine that moves a queued row to `ready`, the storage manager that
-- evicts ready rows over the caps, the service that the portal and the MCP tools call, and the
-- configuration, which the settings that the portal stores overlay.
--
-- The engine drives the rows of one source: Queue inserts or revives a row, Download fetches it with
-- resumable attempts into a partial file, renames that to its final path and has the storage manager
-- record it. The manager counts the bytes of the ready rows, and takes the oldest ones off the disk
-- under the guard of the media root. The service gathers the leaves of a container from a source and
-- runs Queue or EvictItem on each. Saving the settings page validates the form with the stored
-- settings, writes it in one transaction with the credentials encrypted, and swaps in a runtime that
-- is built from the result; a reconnect does so over a connection that responded.
--
-- Which file models which part:
-- Base.antt: tests, lists and Go strings, which are lists of code points (a byte that is no part
--   of UTF-8 is the lone surrogate 0xDC00 + byte); int64 values, strconv.ParseInt, decimal printing,
--   base64.
-- Items.antt: the table of internal/db/migrations and the SQL statements on it (find,
--   update_where, delete_where, upsert). Items/Order.antt holds its constraints: ids grow along the
--   rowids, and (source, source_key) is unique.
-- Files.antt: the files under the media root by path.
-- Source.antt: internal/source/source.go.
-- Storage.antt: internal/storage/manager.go. record_ready and evict_item are RecordReady and
--   EvictItem; in Storage/Eviction.antt, evict_now, eviction_target and sweep are EvictNow,
--   evictionTarget and a tick of RunSweeper; Storage/Paths.antt is
--   pathIsUnderRoot, Storage/Candidates.antt the query of EvictNow.
-- Layout.antt: internal/download/layout.go. final, partial and sanitize are Final, Partial and
--   sanitize.
-- Download.antt: internal/download/engine.go. download is Download with its retry loop,
--   Download/Fetch.antt fetchOnce, Download/Queueing.antt Queue, the updates of a row and the scan
--   of RunOnce, Download/ContentRange.antt parseContentRangeTotal.
-- Service.antt: internal/service: the sources, queue_download, evict and cancel; Service/Leaves.antt,
--   Service/Bulk.antt and Service/BulkEvict.antt are bulk.go, Service/Health.antt is
--   health.go with seedHealth in Service/Health/Seed.antt.
-- Config.antt, Config/Load.antt: internal/config/config.go; Settings.antt: Effective of
--   internal/settings/settings.go. Settings/Store.antt is its Store (get_all, set_many and
--   encrypt_plaintext_secrets are GetAll, SetMany and EncryptPlaintextSecrets), with NewStore in
--   Settings/Store/Salt.antt; Settings/Crypto.antt is internal/settings/crypto.go.
-- Service/Reload.antt: boot, build_runtime_with and reload_with are New, buildRuntimeWith and
--   reloadWith of internal/service/service.go. Service/Settings.antt and Service/Settings/View.antt are
--   ApplySettings and ConfigView of internal/service/settings.go. Service/Reconnect.antt: do_reconnect
--   is doReconnect of internal/service/health.go. Service/Queries.antt: in_flight, list_mirrored and
--   storage_stats are DownloadStatus, ListMirrored and StorageStats of internal/service/mirror.go.
-- Portal.antt: status_map and find_mirror are statusMap and findMirror of internal/server/portal.go,
--   with the helpers of internal/server/views/helpers.go that decide what is offered; Portal/Auth.antt
--   is the authentication of internal/server/portal.go and internal/server/server.go.
-- Discovery.antt: internal/source/plex/discover.go, past its HTTP calls.
-- Lifecycle.antt: the statements of all parts on the table as one step relation, in any order, and the
--   operations as runs of it.
-- Tests.antt: runs on concrete inputs.
--
-- Choices of the model. Sizes and caps are counts of bytes; a negative size is not modelled. What
-- int64 arithmetic can wrap is written with wrap64: nine tenths of the hard cap, and the product of
-- ParseSize. unixepoch() is an argument. A SQL statement takes effect, but for the UPDATE of an
-- eviction, which Env.update_fails makes fail. What lies outside the program is a parameter: the
-- working directory, the files that the system refuses to remove, SHA-256, the source's metadata and
-- children, the answer of the server to each attempt at each offset with its failing file operations,
-- the context's cancellation, what plex.tv lists and which URL responds, the cipher and the
-- random source, the statements on the settings that fail, which URL a client accepts, and
-- time.ParseDuration with the printing of a duration. The body of an answer is the list of what Read
-- returns; a list that ends without an end of file is a broken connection. strings.ToUpper and
-- ToLower map ASCII letters. The messages of errors are constructors with their arguments.
--
-- Recursion and bounds. The retry loop is recursion on the attempts that are left, the copy loop on
-- the body, collectLeaves on the levels left of maxChildDepth, and listAllChildren on the pages left
-- of its 1000: the code's own bounds, so no fuel is added. show_nat prints below 10 ^ 20, more than
-- any int64.
--
-- Not modelled: the worker pool of RunOnce and the poll and sweep timers, backoff delays, the
-- throughput log, FreeBytesAt, the browse calls, the start and stop of the worker goroutines around a
-- reload, the loops of the monitor and of the reconnect supervisor, the routes and pages of the portal
-- with the text of its views, and the MCP and command line front ends, which are I/O, glue or left to
-- later work.
pub mod Base
pub mod Files
pub mod Items
pub mod Source
pub mod Storage
pub mod Layout
pub mod Config
pub mod Settings
pub mod Download
pub mod Discovery
pub mod Service
pub mod Portal
pub mod Lifecycle
mod Tests
