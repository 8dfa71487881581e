-- ===== src/Http/Relaying.antt =====
-- An HTTP library that delivers requests to the application of a node, and what the client then
-- gets: the node's own result, with its refusals turned into errors of the cluster.
use pysearch.Base.{
  ℕ, Str, Bool, true, false, ◌&&◌, ◌||◌, [], ◌∷◌, ◌≡◌, refl, ap, ◌∙◌, leb, ◌==◌, Error, Result, ok,
  err, lift, ◌>>=◌, document_not_found, shard_unavailable, invalid_document, engine_not_ready,
  index_invariant, storage_error, embedding_error, vector_index_error, semantic_disabled, key_error,
  value_error, index_error, shard_timeout, replication_error, distributed_search, copies_exhausted,
}
use pysearch.Float.{Float}
use pysearch.Ranking.{IndexStats}
use pysearch.VectorIndex.{Vectors}
use pysearch.Engine.{Config}
use pysearch.Cluster.Replication.{ReplicationTarget}
use pysearch.Http.{
  Request, Payload, Response, put_document_request, delete_document_request,
  replicate_document_request, replicate_delete_request, detail, respond, error_status,
  answered_with, no_content,
}
use pysearch.Http.Internal.{Node, Duty, Answer, serve}
use pysearch.Http.Client.{Transport, answered, translate, request, request_delete, deleted_from}

-- A character that stands for itself in the path of a URL: a letter, a digit, `-`, `_` or `~`.
abbrev is_unreserved : ℕ → Bool
is_unreserved c =
    (leb 97 c && leb c 122)
    || (leb 65 c && leb c 90)
    || (leb 48 c && leb c 57)
    || c == 45
    || c == 95
    || c == 126

abbrev pub is_path_safe : Str → Bool
is_path_safe [] = true
is_path_safe (c ∷ s) = is_unreserved c && is_path_safe s

-- The document that the path of a request names.
abbrev pub path_id : {V : Type 0} → Request V → Str
path_id (put_document_request document_id text) = document_id
path_id (delete_document_request document_id) = document_id
path_id (replicate_document_request document_id text generation) = document_id
path_id (replicate_delete_request document_id generation) = document_id
path_id _ = []

-- What the caller sees of a result: a failure of the node is that the node is unavailable.
abbrev pub relayed {ℓ} : {A : Type ℓ} → Result A → Result A
relayed (ok a) = ok a
relayed (err _) = err shard_unavailable

-- A deletion of a document that is not there is passed on as that.
abbrev pub relayed_delete : Result (Unit {0}) → Result (Unit {0})
relayed_delete (ok _) = ok tt
relayed_delete (err document_not_found) = err document_not_found
relayed_delete (err _) = err shard_unavailable

module _ {S : Type 0} {fl : Float} {vs : Vectors fl} (cfg : Config vs) (is_space : ℕ → Bool)
    {T : Type 0} (target : ReplicationTarget T) where
  -- The HTTP library delivers every request whose path means what it says to the application of
  -- the node that `node_in` finds in the state, and brings the answer back; only that node
  -- changes.
  pub record Delivers (http : Transport S fl vs.V) (node_in : S → Node vs T)
      (with_node : Node vs T → S → S) : Type 0 where
    pub delivers :
        (asked : Request vs.V) (s : S)
        → is_path_safe (path_id asked) ≡ true
        → http asked s ≡ (
          answered (serve cfg is_space target asked (node_in s)).0,
          with_node (serve cfg is_space target asked (node_in s)).1 s,
        )
    pub unchanged : (s : S) → with_node (node_in s) s ≡ s

module _ {S : Type 0} {fl : Float} {vs : Vectors fl} (cfg : Config vs) (is_space : ℕ → Bool)
    {T : Type 0} (target : ReplicationTarget T) {http : Transport S fl vs.V}
    {node_in : S → Node vs T} {with_node : Node vs T → S → S}
    (wire : Delivers cfg is_space target http node_in with_node) (s : S) where
  -- A request that a handler answers by the node's duty.
  pub routed :
      (asked : Request vs.V) (f : Duty T → Node vs T → Answer fl × Node vs T) (duty : Duty T)
      → is_path_safe (path_id asked) ≡ true
      → serve cfg is_space target asked (node_in s) ≡ f (node_in s).duty (node_in s)
      → (node_in s).duty ≡ duty
      → http asked s ≡ (answered (f duty (node_in s)).0, with_node (f duty (node_in s)).1 s)
  routed asked f duty safe h same =
      wire.delivers asked s safe
      ∙ ap (λ r. (answered r.0, with_node r.1 s)) (h ∙ ap (λ d. f d (node_in s)) same)

-- Every exception is answered with a status that the client takes for a failure.
pub refuses : (error : Error) → leb 400 (error_status error) ≡ true
refuses document_not_found = refl
refuses invalid_document = refl
refuses engine_not_ready = refl
refuses storage_error = refl
refuses shard_unavailable = refl
refuses shard_timeout = refl
refuses replication_error = refl
refuses (distributed_search _) = refl
refuses (copies_exhausted _) = refl
refuses semantic_disabled = refl
refuses embedding_error = refl
refuses vector_index_error = refl
refuses index_invariant = refl
refuses key_error = refl
refuses value_error = refl
refuses index_error = refl

module _ {S : Type 0} {fl : Float} {V : Type 0} (http : Transport S fl V) {A : Type 0}
    {N : Type 0} where
  -- What a request gives whose answer the client reads the handler's value from.
  pub request-respond :
      (asked : Request V) (s s' : S) (answer : A → Answer fl)
      (decode : Payload fl.F (IndexStats fl) → Result A) (r : Result A × N)
      → http asked s ≡ (answered (respond detail answer r).0, s')
      → ((a : A) → leb 400 (answer a).status_code ≡ false)
      → ((a : A) → decode (answer a).body ≡ ok a)
      → (request http asked >>= λ body. lift (decode body)) s ≡ (relayed r.0, s')
  unfolding request translate
  request-respond asked s s' answer decode (ok a, n) e good read = rw (e, good a, read a)
  request-respond asked s s' answer decode (err error, n) e good read = rw (e, refuses error)

pub respond-state {ℓ} :
    {A P : Type 0} {S : Type ℓ} (refusal : P) (answer : A → Response P) (r : Result A × S)
    → (respond refusal answer r).1 ≡ r.1
respond-state refusal answer (ok a, s) = refl
respond-state refusal answer (err error, s) = refl

absent_or_refused :
    {S P : Type 0} (refusal : P) (error : Error) (s : S)
    → deleted_from
        (translate true (answered (record { status_code = error_status error; body = refusal }), s))
      ≡ (relayed_delete (err error), s)
unfolding translate
absent_or_refused refusal document_not_found s = refl
absent_or_refused refusal invalid_document s = refl
absent_or_refused refusal engine_not_ready s = refl
absent_or_refused refusal storage_error s = refl
absent_or_refused refusal shard_unavailable s = refl
absent_or_refused refusal shard_timeout s = refl
absent_or_refused refusal replication_error s = refl
absent_or_refused refusal (distributed_search _) s = refl
absent_or_refused refusal (copies_exhausted _) s = refl
absent_or_refused refusal semantic_disabled s = refl
absent_or_refused refusal embedding_error s = refl
absent_or_refused refusal vector_index_error s = refl
absent_or_refused refusal index_invariant s = refl
absent_or_refused refusal key_error s = refl
absent_or_refused refusal value_error s = refl
absent_or_refused refusal index_error s = refl

module _ {S : Type 0} {fl : Float} {V : Type 0} (http : Transport S fl V) {N : Type 0} where
  -- What a deletion gives.
  pub request_delete-respond :
      (document_id : Str) (s s' : S) (r : Result (Unit {0}) × N)
      → http (delete_document_request document_id) s
        ≡ (answered (respond detail (answered_with 204 (λ _. no_content)) r).0, s')
      → request_delete http document_id s ≡ (relayed_delete r.0, s')
  unfolding request_delete translate
  request_delete-respond document_id s s' (ok _, n) e = rw e
  request_delete-respond document_id s s' (err error, n) e =
      rw e (absent_or_refused detail error s')
