-- ===== src/Lib.antt =====
-- A verification library for the search service: one node keeps a durable corpus and the state
-- derived from it, a coordinator spreads a corpus over shards with replicas.
--
-- The parts and their files:
--
--   Analysis        app/search/analysis.py: normalize, tokenize, analyze
--   Document        app/search/document.py: Document
--   Results, Float  app/search/results.py and the order of every ranking; the floats
--   Index           app/search/index.py: InvertedIndex, CorpusStats, merge_corpus_stats
--   Ranking         app/search/ranking.py: BM25Scorer
--   VectorIndex     app/semantic/vector_index.py: ExactVectorIndex
--   Storage         app/storage/sqlite_store.py: SqliteDocumentStore
--   Engine          app/search/engine.py: SearchEngine (Rebuild: recovery; Query: searches)
--   Cluster         app/cluster/topology.py, routing.py, coordinator.py and the interface of client.py
--                   (Replication: app/cluster/replication.py)
--   Fusion          app/hybrid/fusion.py: reciprocal_rank_fusion
--   Http            app/api/internal.py and dependencies.py, the client of app/cluster/client.py, and
--                   the node link of app/cluster/replication.py
--   Api             the public endpoints: app/api/documents.py, search.py, semantic.py, hybrid.py,
--                   index.py, health.py (Single) and cluster.py (Clustered)
--   Settings        app/core/config.py, and how app/main.py starts a coordinator (Starting) and a node
--                   (Nodes)
--   Base            what the parts share; Examples: the theorems on concrete data
--
-- A method that changes its object and may raise is an action `Exec S A`, a function from the state
-- to a result and the state after it; what was written before a raise stays written. The fields of
-- a class are the fields of a record of the same name, and a method has the method's name, without
-- its leading underscore and `_locked`. The engine holds its store, index, cache and vectors as
-- parts; its lock makes each method one step. The coordinator works on the state of all nodes, a
-- parameter, through the methods of the record ShardClient.
--
-- Strings are lists of code points and dictionaries are association lists in the order of
-- insertion. What is not in the repository is a parameter: the floats (Float, with the order of the
-- values other than NaN as its law), the tables of Unicode, the digest of the router, the arrays of
-- numpy, the embedding model, and the HTTP library (Transport; Delivers says what the proofs rely on).
-- Where two classes have a method of one name, that of the coordinator is named for the cluster
-- (distributed_search_for, cluster_index_stats). A list of faults in the store says which calls of SQLite raise.
-- A closed store or engine serves no more calls, and is not a state of the model: close gives its
-- outcome only. Loops are structural; only the batches of `_rebuild_vectors` run on a bound, the
-- number of documents, and a batch takes at least one.
--
-- The components compose as the code composes them: an endpoint calls a method of the engine or of
-- the coordinator; the coordinator calls the methods of ShardClient, which over HTTP reach the
-- endpoints of a shard node; and a primary calls its replicas through the same kind of link.
--
-- Left out: texts of messages, logging, timings, the closing of an application, how the environment
-- is read into settings, the loading of an embedding model, the creation of the database file with
-- its tables, and the scripts. Where the code runs requests at the same time, their effects are
-- taken one after the other, in the order in which the code lists them.
pub mod Base
pub mod Analysis
pub mod Float
pub mod Results
pub mod Index
pub mod Document
pub mod Storage
pub mod Ranking
pub mod VectorIndex
pub mod Engine
pub mod Cluster
pub mod Settings
pub mod Fusion
pub mod Http
pub mod Api
pub mod Examples
