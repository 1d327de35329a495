-- ===== src/Lib.antt =====
-- A Merkle tree of fixed depth over a pluggable hasher and a pluggable store.
--
-- The program. `MerkleTree<H, S, DEPTH>` (src/tree.rs) keeps a hasher, a store, the roots of the
-- empty subtrees and two scratch buffers. `add_leaves` writes a batch of leaves behind the ones
-- that the store has and recomputes the ancestors that change, level by level; `root`, `proof` and
-- `num_leaves` read the store; `verify_proof` recomputes a root from a proof. The hasher
-- (src/hasher.rs) hashes a pair of 32-byte nodes (src/node.rs). The store (src/stores/store.rs)
-- maps a level and an index to a node. `MemoryStore` (src/stores/memory_store.rs) is kept in
-- memory, `FileStore` (src/stores/file_store.rs) in one flat file for each level, `SledStore`,
-- `RocksDbStore` and `SqliteStore` (src/stores/sled_store.rs, src/stores/rocksdb_store.rs,
-- src/stores/sqlite_store.rs) in a database. Errors are the values of src/errors.rs.
--
-- The files.
--   Base, with its children Tests, Lists, Elements, Tabulate and Bits   shared names, Boolean
--     tests, lists over native numbers, the laws of `&`, `^` and shifts that the indices use.
--   Run, Run/Method   what a call gives (a value, an error of src/errors.rs, or a panic), and a
--     method as a function from the object to the object after the call and its result.
--   Node              src/node.rs: `Node`, `ZERO`, `LEN`, `==`. A node is the list of its bytes.
--     Node/Hex is about its hexadecimal text, Node/Random about `Node::random`.
--   Hasher            src/hasher.rs: the trait `Hasher` and its default `hash_pairs`;
--     Hasher/Default and Hasher/Chunks are about the default and about hashing in chunks, and
--     Hasher/Keccak and Hasher/Poseidon about `Keccak256Hasher` and `PoseidonHasher`.
--   Store             src/stores/store.rs: the trait as a record of its three operations, and its
--     contract `StoreLaws`, stated by what each position reads. The tree's theorems take a store
--     with these laws as an instance argument; each store's Laws fills the record.
--   Memory            src/stores/memory_store.rs: every function of it; Memory/Levels, Memory/Laws.
--   Files             src/stores/file_store.rs: every function of it, over the files of one
--     directory (Files/System, what the store uses of std::fs). Files/Name and Files/Bytes are
--     about the file names and the bytes of a level; Files/Valid has the invariant; then
--     Files/Reads, Files/Replaced, Files/Written, Files/Laws, Files/Reopen (`new` over the
--     directory of an earlier store), Files/PastPrefix (a run that leaves a hole) and Files/Refused
--     (a write that fails half way).
--   KeyValue          what `SledStore` and `RocksDbStore` share: the database as a record of its
--     calls with its laws, the keys (KeyValue/Keys), the batch of a `put` (KeyValue/Batches), and
--     what a database keeps for a store (KeyValue/Valid).
--   Sled              src/stores/sled_store.rs: every function of it; Sled/Reads, Sled/Laws,
--     Sled/Reopen.
--   RocksDb           src/stores/rocksdb_store.rs: every function of it; RocksDb/Laws compares it
--     with `SledStore`.
--   Sqlite            src/stores/sqlite_store.rs: every function of it, over a connection whose
--     statements are known by their text; Sqlite/Query (the query of `get`), Sqlite/Valid,
--     Sqlite/Reads, Sqlite/Writes and Sqlite/Atomic (the transaction of `put`), Sqlite/Laws and
--     Sqlite/Reopen.
--   Tree              src/tree.rs: `MerkleTree`, `MerkleProof`, `Zeros`, the arithmetic on u64.
--   Tree/Create       `new`.
--   Tree/Fetch, Tree/Level, Tree/Insert   `add_leaves`: the fetch of the left partners, the
--     hashing of one level (`hash_level`), and the loop over the levels with the writes.
--   Tree/Query        `root`, `proof`, `verify_proof`, `num_leaves`.
--   Tree/Spec         the abstract tree: the node at a level and an index over a list of leaves,
--     and `Represents`, which ties a `MerkleTree` to the leaves that it holds. Tree/Spec/Reference
--     is the bottom-up recomputation `reference_root` of the tests of src/tree.rs.
--   Tree32            `MerkleTree32` and its default.
--   Tree/Interrupted  what an `add_leaves` that failed leaves behind.
--   Tree/Reach        sequences of calls of `add_leaves`, as a relation on trees.
--   Checks            the tests of src/tree.rs on batches, proofs and a full tree, each as a
--     function of the hasher, the depth and the leaves that the source fixes; Checks/Filled,
--     Checks/Pass and Checks/Calls show that they pass. Checks/OnFiles, Checks/OnMemory and
--     Checks/OnHashers are the tests of src/stores/file_store.rs, src/stores/memory_store.rs and
--     src/hasher.rs, with Checks/Stores for what the stores' tests share. Checks/OnNodes is the test of
--     src/node.rs, and Checks/OnZeros has the tests of the cached zeros, with the expected hashes
--     (Checks/Vectors).
--   Durable           a tree whose store on disk, and then the tree, are opened again;
--     Durable/Resume adds leaves after that.
--   Session           sequences of calls of the tree's methods, with the store and the tree opened
--     again in between, beside the same calls on the list of the leaves; Session/Serves (what
--     opening again promises), Session/Follows (a store that may refuse a write), Session/Refines,
--     Session/Agree (two stores), Session/Again and Session/Stores (the stores on disk), and
--     Session/Fresh, with its child Databases (their first use).
--   Tests             a small hasher, trees of depth 3 over `MemoryStore`, and the runs of the
--     theorems at them; its children are about the hashers, `MemoryStore`, the other
--     stores over databases that are functions, sequences of calls, chunks that are hashed out of
--     order (Tests/Schedules), and a call that the store interrupts (Tests/Interrupted).
--
-- Numbers and bounds. u64 and usize are natural numbers below 2 ^ 64, with the wrap of a release
-- build written out where the source computes with them (`add64`, `bit64`, `shr64`); casts to u32
-- are `as_u32`. `DEPTH` is an argument; the theorems on a tree ask for a depth below 64, since
-- `1 << DEPTH` overflows at 64, as the source's own TODO says. Loops over a list or over the levels
-- are structural. `chunks` takes the length of its list as fuel, which is enough since every chunk
-- takes at least one element away. `new` of `FileStore` probes for files on fuel: one round more
-- than the first level without a file is enough, whatever the directory holds. A file has fewer
-- than 2 ^ 63 bytes, so a level of a `FileStore` has room for 2 ^ 58 - 1 nodes, and a tree over it
-- that the theorems speak of has a depth below 58; the other stores have room for every u64 index.
-- One call of `get` asks for 256 positions at most, which is the limit of `SqliteStore`. Hashing in
-- chunks on several threads (rayon) is modelled as the chunks in order, and in Tree/Level/Parallel as
-- the chunks in the order of any schedule; a chunk is one step, since it writes its own part of the
-- output and reads nothing that another one writes.
--
-- Code of other crates. `Keccak256Hasher` takes the two functions of keccak_batch as parameters,
-- with the law that hashing a batch is hashing each of its messages; `PoseidonHasher` takes two of
-- light_poseidon, with the law that the hash of two inputs takes numbers below the modulus of the
-- field, gives one, and refuses others (`CircomLaws`). The databases of sled, rocksdb and rusqlite
-- are parameters: records of the calls that the stores make, which may answer with an error. Their
-- laws say that a sound database answers, that a batch or a transaction that succeeds is written
-- whole, and that one that fails changes nothing. The two databases of keys share one record with
-- one record of laws (`DatabaseLaws`), with what each has of its own (`clear`; `flush` and
-- `multi_get`) beside it. The laws of the connection of rusqlite (`ConnectionLaws` of Sqlite/Valid,
-- `OpenLaws` of Sqlite/Reopen) give the meaning of each statement for its text, which they spell
-- out, and by the state of the connection: the schema makes the tables, the other statements need
-- them, and a statement that writes keeps to the transaction only where one is begun. They are
-- silent on any other text and on the same text in another state.
--
-- Not modelled. The opening of a database and its options (path, caches, temporary databases),
-- which only call other crates; the benchmarks, the tests in the directory tests, and the tests of
-- single hashes of the real hash functions. The file system keeps what was written: the loss of
-- unsynced writes in a crash is outside of the model. The tree's theorems take the hasher as a
-- parameter whose hash always answers, with the laws that a hash is a node and that `hash_pairs`
-- agrees with hashing pair by pair; `PoseidonHasher` panics on a node that light_poseidon refuses,
-- so it is no such hasher on all nodes, and Hasher/Poseidon says on which it answers. They take a
-- store whose `put` writes its run or fails and changes nothing, which is how the databases
-- behave; a `FileStore` whose write breaks off half way is the subject of Files/Refused alone.
pub mod Base
pub mod Run
pub mod Node
pub mod Hasher
pub mod Store
pub mod Memory
pub mod Files
pub mod KeyValue
pub mod Sled
pub mod RocksDb
pub mod Sqlite
pub mod Tree
pub mod Durable
pub mod Session
pub mod Tree32
pub mod Checks
mod Tests
