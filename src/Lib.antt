-- ===== src/Lib.antt =====
-- restic stores backups as blobs: pieces of file data and trees, each named by its hash, sealed
-- by a key and collected in pack files. An index says in which pack a blob lies. This library
-- models the core of that storage and two decisions that users depend on, what prune removes and
-- which snapshots and files a policy or a filter selects, and proves what makes them correct.
--
-- The parts, their files and the code they model:
--   Blob: internal/restic/blob.go, the types and handles of blobs and entries of packs.
--   Crypto, Crypto/Laws: internal/crypto/crypto.go, Key.Seal as `seal`, Key.Open as `open_sealed`.
--   Pack: internal/repository/pack/pack.go, the constants and sizes. Pack/Header has makeHeader
--     and the parser of entries, Pack/Reader has readRecords, readHeader and List, Pack/Packer has
--     the Packer with Add and Finalize. A Packer seals its header with Crypto, and Finalize opens
--     it again with List to verify it.
--   Index/HashedArrayTree, Index/IndexMap: internal/repository/index/indexmap.go. The array tree
--     holds the entries of the hash table; the table's chains are positions in it. A pointer that
--     Ref returns is written through by `put`.
--   Index/PackIndex: internal/repository/index/index.go. One table for each type of blob; the
--     methods that hash are in Index/PackIndex/Operations.
--   Index/MasterIndex: internal/repository/index/master_index.go. A list of indexes, of which the
--     first is the one that MergeFinalIndexes merges into, and the set of pending blobs.
--   Index/AssociatedSet: internal/repository/index/associated_data.go. A value for each blob, found
--     by the blob's position in the first index of a MasterIndex.
--   Sets: internal/restic/idset.go and blob_set.go, once for both kinds of members.
--   Node, Tree: internal/restic/node.go and tree.go. Tree has Find and Insert; Tree/Builder has
--     TreeJSONBuilder; Tree/Directory has LoadTree and FindTreeDirectory, which uses Find.
--   BlobCache: internal/bloblru/cache.go. BlobCache/Room has the loop of Add, BlobCache/Calls the
--     methods; BlobCache/Download has GetOrCompute with the channels that its callers wait for.
--   Prune: internal/repository/prune.go. Prune/Select has packInfoFromIndex, with the copy of each
--     blob that is kept; Prune/Decide has decidePackAction, which works on what Select returns;
--     Prune/Plan has PlanPrune, which runs both; Prune/Execute has Execute, as the calls it makes.
--   Filter: internal/filter/filter.go, with `list` in Filter/Listing.
--   Policy: internal/restic/snapshot_policy.go, with `apply_policy` for ApplyPolicy.
--   Prelude: results, lists, maps, Go's order on strings, and tests on numbers that the parts share.
--   Samples: concrete inputs.
--
-- Conventions. Numbers are natural numbers; where Go's uint, uint64 or uint32 can wrap around in
-- the modelled code, the remainder is written out. Bytes and IDs are lists of numbers. A failing
-- operation returns a Result; panics are errors of their own, so that a theorem that an operation
-- returns a value, or ends without a panic, says that Go does not panic there. Maps and sets are
-- association lists.
--
-- Bounds and fuel. The loops along a chain of the hash table take as many steps as the table has
-- positions; the theorems of Index/IndexMap/Lookup show that this is enough on every map that add
-- builds. The parser of a header takes as many rounds as the header has bytes, which
-- Pack/Reader shows to be enough, since each entry takes at least 37. match of the filter recurs
-- once for each double wildcard of the pattern. sort.Search has as many rounds as the tree has
-- nodes, and the eviction loop of the cache one more than the LRU has entries; Tree/Search and
-- BlobCache/Room show that both end within them. The fuel of GetOrCompute bounds the rounds that
-- it waits for the download of another goroutine, which must close its channel within them.
--
-- Parameters. AES, counter mode and Poly1305 (`Primitives`, with `IsStandard` for what they
-- promise), maphash (the hash under the seed of each map is a field of the map), io.Writer,
-- io.ReaderAt, sort.Slice, filepath.Match, filepath.Clean, the calendar of package time, what
-- time.Now returns, simplelru (`Lru`, with its documented behaviour), JSON, path.Clean, LoadBlob,
-- saving of an index, the answers of the repository to Execute (`World`, any function of the calls
-- so far), and what other goroutines do to the cache between the steps of GetOrCompute.
--
-- Not modelled: backends, the repository's goroutines and locks, JSON, the archiver and the
-- restorer, file systems, the command line and its output. They move bytes between the parts
-- above and the outside. Within the modelled files: random keys, EachByPack, the printing of
-- policies, ValidatePatterns, Load, Rewrite and SaveFallback of the MasterIndex, and the restoring of
-- nodes.
mod Prelude
pub mod Blob
pub mod Sets
pub mod Node
pub mod Tree
pub mod BlobCache
pub mod Crypto
pub mod Pack
pub mod Index
pub mod Prune
pub mod Filter
pub mod Policy
mod Samples
