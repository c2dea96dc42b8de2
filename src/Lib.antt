-- ===== src/Lib.antt =====
-- ocfl-index keeps an index of the objects in an OCFL storage root: the object roots, the
-- inventories with their versions, and the trees of logical paths of each version state. A server
-- rebuilds the index as a task in the background and answers requests from it.
--
-- The parts, and the files that model them:
-- - PathTree (internal/pathtree/pathtree.go): a tree of named nodes. `get`, `set`, ... are its
--   functions Get, Set, ...; what changes a tree at a path is in PathTree/Update, and what goes
--   through a whole tree (DirEntries, Walk, AllPaths, Copy, Map) in PathTree/Walk.
-- - IndexTree (internal/index/pathtree.go): dirDigests and dirSizes on the tree of a version state;
--   PathTree, which builds it, is in IndexTree/Build. IndexTree/Listing reads the listing of a
--   directory back from its digest, and so has a digest stand for a directory.
-- - Sqlite (internal/sqlite/schema.sql, sqlc/models.go, sqlc/sqlc_queries.sql.go, tx.go, sqlite.go):
--   the tables as lists of rows. Sqlite/Roots has the object roots, Sqlite/Nodes the nodes and names
--   of path trees, Sqlite/Versions the versions, Sqlite/Inventories the inventories and what indexes
--   one, Sqlite/Objects and Sqlite/Details the queries on objects. A tree reaches Sqlite/Nodes from
--   IndexTree. Sqlite/Lookup has the recursive queries (internal/sqlite/get_node_by_path.sql and
--   get_node_children.sql), Sqlite/State has GetObject and GetObjectState, which use them, and
--   Sqlite/Schema has InitSchema. Sqlite/Content tells what the tables of nodes and names hold by
--   digests alone, from the first row to what GetObjectState answers once objects are indexed.
--   Sqlite/Queries has the queries that only the debugging functions call, or nothing.
-- - Paging: what a query with a cursor and a limit gives, as internal/sqlite/sqlite.go uses it.
-- - Indexer (internal/index/indexer.go): syncObjectRoots, which writes what a scan of the storage
--   root finds to Sqlite/Roots and deletes the rest, and addAllObjectsPaths, which reads it page by
--   page. Indexer/Inventories has indexInventories and Index: parsing one object, and the function
--   that takes the results into Sqlite/Inventories one after another, with its commits. Its child
--   modules Content and Served carry Sqlite/Content over a whole run.
-- - Service (internal/index/service.go): the messages and handlers over Sqlite and Async
--   (Service/Handlers), and the download of a file (Service/Download).
-- - Ox (cmd/ox/cmd/root/root.go, ls/ls.go, export/export.go): the client's commands over a record of
--   the calls that they make; `service_client` fills it with the handlers of Service. Ox/Objects has
--   the object iterator, Ox/Ls the command ls and its completions, Ox/Export the command export.
-- - Async and Monitor (internal/index/async.go): the work loop that runs one task at a time, and the
--   loop that sends log messages to the connected clients. Both are steps on the contents of
--   channels. Monitor/Calls has Write and Handle, which send to that loop.
-- - Config (cmd/ocfl-index/cmd/config.go): the configuration from the environment.
-- - Pipeline (internal/pipeline/pipeline.go): the goroutines of Run as steps.
-- - Text: Go strings as lists of bytes, with the functions of the standard library that the program
--   uses (strings, unicode/utf8, io/fs, path). Base: what all parts share.
--
-- Bounds and fuel: the loops of Get and MkdirAll run on more fuel than the path has bytes, and each
-- round cuts off one element and its slash. addAllObjectsPaths and the client's loops take fuel for
-- their pages or objects; one more than there are rows is enough. The query for a path goes one
-- level deeper than the path has bytes, and the query for the files below a node one level deeper
-- than there are names. Sizes are taken modulo 2 ^ 64. The limit of GetObjectState is an integer;
-- that of the other listings is a natural number, and below 1 and above 1000 it is replaced, as in
-- the source.
--
-- Not modelled: errors of the database driver and of the file system inside a function, other
-- than the error with which a scan ends; the capacity of the monitor's channels; the router and
-- the request logger of internal/index/service.go; flags, connections and file transfers of the
-- commands under cmd, and the server command; the generated code under gen. The row ids of
-- foreign keys are taken to be those of rows that are there. Parameters are the hash of a
-- directory's listing, the version numbers, parsers, validation of inventories and path
-- resolution of package ocfl, the content path of a logical path, and the operator LIKE of the
-- SQL engine, of which a theorem may ask that a percent sign stands for any text and other
-- characters for themselves. Where a theorem needs that different directories have different
-- digests, it has a function that gives the listing back from its hash, for the directories at
-- hand; a line break in a name is then left out, since it ends a line of the listing.
pub mod Base
pub mod Text
pub mod PathTree
pub mod Paging
pub mod IndexTree
pub mod Sqlite
pub mod Service
pub mod Ox
pub mod Config
pub mod Indexer
pub mod Async
pub mod Monitor
pub mod Pipeline
