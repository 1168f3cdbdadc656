-- ===== src/Lib.antt =====
-- kvtsjl: a typed, composable library for key-value storage. A keymap maps keys to values on some
-- medium; a record may be spread over several targets, one of which is its authority (the commit
-- point), some its components (written before it), some its dependents (written after it), some
-- its fallbacks (only read). The modules follow the program's:
--   Errors, Exec     src/kvtsjl/exceptions.py, and actions that change media and may raise: an
--                    action takes the state and returns a result and the state that it leaves.
--   Serde            src/kvtsjl/serde/__init__.py: codecs, their pipelines, streaming codecs.
--   Keys             how records get their keys. Escape: src/kvtsjl/schema/blob_ops.py. Scope:
--                    src/kvtsjl/scope.py. Binding: src/kvtsjl/bind/namespace.py. KvSet (with
--                    Parts, RoundTrip, Apart, Listing, Siblings):
--                    src/kvtsjl/store/schema/kvset.py. Codec: the keys of
--                    src/kvtsjl/store/backend.py and src/kvtsjl/store/schema/key_codec.py. Text:
--                    Python's operations on texts.
--   Memory           src/kvtsjl/backends/memory.py, the leaf backend in memory, whose entries
--                    expire. Batch, Versions, Listing: its operations. View, Reads, Writes,
--                    Fresh, Steps, Evolves, Conflicts, Expired: what is proved of them.
--   ObjectTtl        src/kvtsjl/backends/object/ttl.py: the expiry of objects on blob stores.
--   FsDriver         src/kvtsjl/backends/object/fs_driver.py: one object on the file system, and
--                    its writes and live reads by store.py beside it.
--   Batching         src/kvtsjl/batching.py: `iter_chunks`, `chunk_sequence`.
--   Ttl              src/kvtsjl/store/schema/ttl.py: retention policies.
--   KeyMap           src/kvtsjl/keymap.py: versions, conditional writes, `update`, `batch_update`.
--   DictMap          src/kvtsjl/keymap_algebra/dict_map.py: the in-memory map and its versions.
--                    Steps: its versions while others change it. Contended, Linear, Live:
--                    `update` on it while others write.
--   Topology         src/kvtsjl/keymap_algebra/topology.py. Target: `Target`, `KeyMapTarget`. Sync:
--                    `_committing`, `_settle`, `_try_fill`, `DependentSyncs`. Shape: a topology's
--                    targets by role. Write, Conditional (with Changes), Fill, Assemble, Read: its
--                    operations. Anchor, Commit, Outcome, Reached, Flush, Lost (with Nothing),
--                    Lookups, Downstream, Refused: what is proved of them; Loops and Reach: laws of
--                    the loops over targets.
--   Algebra          the readable views of src/kvtsjl/keymap_algebra: map.py, then.py, expand.py,
--                    util.py. Coherent: what is proved of them.
--   Scan             src/kvtsjl/store/schema/scan.py. Row, Predicate, Pushdown, Compile, Cascade:
--                    rows, the predicate language, what is pushed to a leaf, the scan that is
--                    compiled from a listing, and the filtering of the rest on the client.
--   Prelude          tests, equality, lists measured by native numbers, and Python's dict as an
--                    association list in the order of first insertion.
-- A target is a record of its operations on the state `W` of all media, so targets may share a
-- medium; a node of a topology adds the queue of the operations that wait for its commit. A part
-- reads back an `O`, Python's `object`, which every record is. Client libraries stand behind the
-- targets' operations, which are parameters. A generator is the list of what it yields, with what
-- it raises after them. A `datetime` is a number of microseconds.
-- Loops are recursive on the list that they run over, but for `slices`, which runs on fuel (as
-- many rounds as there are items, each of which takes at least one), and `rounds`, which counts
-- the attempts that the caller of `update` allows.
-- A text is the list of its code points. The clock is a parameter of the memory backend, which
-- reads it as often and in the order that the code does.
-- Not modelled: logging and the messages of exceptions, a topology's streams, `missing_pages`, the
-- combinators that build topologies or write, keys that are bytes (but for their escaping), the
-- layouts of object paths, the store compositions, the other backends' media, index views, the
-- codecs of libraries.
pub mod Prelude
pub mod Errors
pub mod Batching
pub mod Scan
pub mod Serde
pub mod Exec
pub mod Ttl
pub mod KeyMap
pub mod Keys
pub mod Memory
pub mod ObjectTtl
pub mod FsDriver
pub mod DictMap
pub mod Algebra
pub mod Topology
