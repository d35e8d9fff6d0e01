-- ===== src/Lib.antt =====
-- dotfs-mcp-server: a server that indexes the symbols of C and Go repositories and answers queries
-- about them. A crawl parses the files of a repository and writes one record per symbol into a
-- key-value cache; tools look records up by name, scan the files when the cache has none, read
-- snippets, and ask language servers for references and call trees, whose answers are compacted. A
-- management API starts crawls in the background.
--
-- The files, and the code that they model:
--   Base            shared tests, lists, maps, sorting, text, numbers and errors; Base/Bytes has the
--                   functions of strings, strconv and unicode/utf8 that the program calls, on bytes
--   Ast             internal/ast/model.go: `SymbolRecord`, its validation and fingerprint
--   Store           internal/ast/store/store.go: Keys the key layout, Backend the database as a
--                   record of operations with laws, Put `PutSymbol`, Lookup `Lookup` and
--                   `FileSymbols`, Prune `PruneRepo`, Stats `Stats`
--   Utils           internal/utils: Names the checks of names, Paths the functions of path/filepath,
--                   Files the file system as a record of its calls, Safe `SafeRepoPath`
--   Parser          internal/ast/parser/parser.go: the registry of the engines, and text helpers;
--                   Parser/Golang the Go engine of golang.go, on the nodes of go/ast that it
--                   reads; Parser/Clang the C engine of clang.go, on a tree of Tree-sitter nodes
--   Indexer         internal/ast/indexer/indexer.go: Options, Files `parseFile` and `collectFiles`,
--                   Cycle `IndexRepo` and `IndexAll`, Live `SearchLive`, Snippet `ReadSnippet`
--   Httpapi         internal/httpapi: Jobs the tracker, Server the handlers and the worker, and
--                   Server/Workers the steps of requests and workers
--   Lsp             internal/lsp: Protocol payloads and file URIs, Command the command line of a
--                   server, Manager the pool, with Manager/Steps its callers, Client a session, with
--                   Client/Steps its calls and replies, Stdio the frames, with Stdio/Writers the
--                   writers that overlap
--   Xref            internal/xref: Source the lines and identifiers, Compact the compaction of
--                   locations, Service the queries
--   Capabilities    internal/capabilities/capabilities.go: the matrix of profiles, the briefing
--   Mcpserver       internal/mcpserver/server.go: Arguments what a handler reads, Resolve the cache
--                   and the live search, Advice `xrefError`, Queries and Retrieval the tools on the
--                   cache, Relations the tools on the language servers, Tools the schemas and `New`
--   Config          internal/config/config.go: Values one variable, Load the whole configuration, and
--                   the head of `main` in cmd/main.go, Numbers and Laws what is proved of them
--   Tests           runs of the parts on concrete inputs
--
-- State is passed on: an operation of the store takes the database's state and returns the new one,
-- and an error is a value that carries its sentinel, as `errors.Is` sees it, without the values
-- that a format puts into its message. A name of the code in camel case is the same name in snake
-- case. Text is a list of bytes, and an `int` that may be negative is an integer; the sums of lines
-- and offsets stay far below 2 ^ 63, so they do not wrap.
--
-- The tools of Mcpserver call the lookup of Store, the live search and the snippets of Indexer and
-- the queries of Xref, which Mcpserver/Resolve/Laws and Mcpserver/Relations/Laws put together as
-- `run` of cmd/main.go does. Xref asks the pool for a session through `Provider`. An answer of a
-- tool carries the words of its message and the values that the format puts in, side by side.
--
-- Parameters are the database, the JSON codecs, the digest, the file system, the environment with
-- time.ParseDuration, the parsing of URLs, of MIME headers and of Go files, the trees of
-- Tree-sitter, with their finite depth, the sessions of language servers and the arguments of a
-- request. Of the codec of records it is asked only that a record in valid UTF-8 comes back as it
-- was, since encoding/json puts U+FFFD in the place of bytes that are not. Store/Backend/Memory is a database that meets the laws, and Tests has hosts, engines,
-- sessions and a reader of headers.
--
-- Fuel is the number of stale entries for the batches of `PruneRepo`, of which each round takes at
-- least one; the three tries of `ClientSession`, as in the code; and the number of frames that
-- `readLoop` is watched for, since that loop ends with its stream only. The rest is recursion on
-- lists, trees and numbers; the digits of a number and the walks of the C engine go by well-founded
-- recursion.
--
-- What runs at the same time is a relation of steps, one for each critical section. In the pool a
-- step is a caller's turn, the end of a spawn, the crash of a server or `Close`; in a session it is
-- the start of a call, its end, a reply or the end of the session; on the pipe it is one of the two
-- writes of a frame. The workers of a crawl run at the same time and one writer takes their
-- results: the order of arrival is a parameter. Cancellation is what `ctx.Err()` gives at each
-- place that asks for it.
--
-- Not modelled: starting and stopping the process of a language server, with the messages of its
-- handshake (part of internal/lsp); the set-up of gopls, the wiring and the timers of cmd/main.go;
-- the listening server of internal/httpapi; opening and closing the database; logging and
-- durations. The descriptions in the
-- schemas of the tools are not part of the model.
pub mod Base
pub mod Ast
pub mod Utils
pub mod Store
pub mod Httpapi
pub mod Lsp
pub mod Xref
pub mod Parser
pub mod Indexer
pub mod Tests
pub mod Capabilities
pub mod Mcpserver
pub mod Config
