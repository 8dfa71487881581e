-- ===== src/Examples/Reports.antt =====
-- The reports of the cluster and of one engine, run.
use pysearch.Base.{
  ◌≡◌, refl, [], none, ok, keys, contains, ◌=ₛ◌, Distinct, ◌&&◌, ℕ, Str, str_lt, lookup, member,
  put, remove, sorted, insert, for_each,
}
use pysearch.Storage.{store_documents, store_generation, attempt, attempt_with}
use pysearch.Index.{add_document}
use pysearch.Index.Validation.{validate}
use pysearch.Analysis.{analyze}
use pysearch.Engine.Rebuild.{initialize, rebuild, rebuild_index, rebuild_vectors}
use pysearch.Engine.Query.{engine_stats}
use pysearch.Cluster.Coordinator.{index_stats_from_any_copy, from_any_copy}
use pysearch.Float.{naturals}
use pysearch.Ranking.{index_stats}
use pysearch.Engine.Checks.{validate_engine, validate_engine-ok}
use pysearch.Cluster.Status.{all, readiness, cluster_status, cluster_index_stats}
use pysearch.Cluster.Available.{has_ready_copy, is_up, cluster_status-readiness}
use pysearch.Cluster.Figures.{figures_of, cluster_index_stats-exact}
use pysearch.Examples.{lexical, first_id, first_text, second_id, second_text}
use pysearch.Examples.Engines.{serving_engine, serving_engine-InSync}
use pysearch.Examples.Clusters.{two_coordinator}
use pysearch.Examples.Parts.{
  started, started_serves, both_cached, parts, coordinator, measured_shards, copies,
}

cluster_status-readiness_example :
    ((readiness two_coordinator tt).0.ready ≡ all (has_ready_copy tt) two_coordinator.topology)
    × ((cluster_status two_coordinator tt).0.search_available
        ≡ (readiness two_coordinator tt).0.ready)
    × ((cluster_status two_coordinator tt).0.write_available
        ≡ all (λ copies. is_up tt copies.primary) two_coordinator.topology)
    × (((cluster_status two_coordinator tt).0.write_available
          && (cluster_status two_coordinator tt).0.search_available)
        ≡ (cluster_status two_coordinator tt).0.write_available)
    × ((cluster_status two_coordinator tt).1 ≡ tt)
    × ((readiness two_coordinator tt).1 ≡ tt)
cluster_status-readiness_example =
    cluster_status-readiness tt two_coordinator
      (((refl, refl), tt), (((refl, refl), ((refl, refl), tt)), tt))

measured :
    (document_id text : Str) (shard_id : ℕ)
    → index_stats_from_any_copy (copies document_id text shard_id) tt
      ≡ (ok (index_stats naturals (started document_id text).index), tt)
unfolding index_stats_from_any_copy from_any_copy engine_stats
measured document_id text shard_id = rw (started_serves document_id text).1

cluster_index_stats-exact_example :
    (cluster_index_stats coordinator tt ≡ (ok (figures_of lexical coordinator measured_shards), tt))
    × ((figures_of lexical coordinator measured_shards).document_count
        ≡ (index_stats naturals serving_engine.index).document_count)
    × ((figures_of lexical coordinator measured_shards).average_document_length
        ≡ (index_stats naturals serving_engine.index).average_document_length)
cluster_index_stats-exact_example =
    cluster_index_stats-exact lexical coordinator measured_shards tt serving_engine refl
      (measured first_id first_text 0, (measured second_id second_text 1, tt))
      ((started_serves first_id first_text).0, ((started_serves second_id second_text).0, tt)) parts

serving_engine_cached : Distinct (keys serving_engine.documents)
unfolding contains ◌=ₛ◌
serving_engine_cached = rw both_cached (refl, (refl, tt))

serving_engine_plain : (serving_engine.store.faults ≡ []) × (serving_engine.vectors ≡ none)
unfolding initialize rebuild rebuild_index store_documents store_generation attempt attempt_with
    add_document validate put rebuild_vectors sorted insert lookup remove member for_each contains
    ◌=ₛ◌ analyze str_lt
serving_engine_plain = (refl, refl)

validate_engine-ok_example : validate_engine lexical serving_engine ≡ (ok tt, serving_engine)
validate_engine-ok_example =
    validate_engine-ok lexical serving_engine serving_engine-InSync serving_engine_plain.0
      serving_engine_plain.1 serving_engine_cached
