-- ===== src/Results/Order.antt =====
-- The ranking order is a total preorder, and it decides every pair of different documents.
use pysearch.Base.{
  Str, true, false, not, ◌≡◌, str_lt_trans, str_lt_irrefl, str_lt_connected, IsPreorder, arith,
}
use pysearch.Float.{Float, IsOrdered}
use pysearch.Results.{ranks_before, hit_le, item_le}

module _ {fl : Float} (o : IsOrdered fl) where
  ranks_before_asym :
      (s t : fl.F) (i j : Str) → ranks_before fl s i t j ≡ true → ranks_before fl t j s i ≡ false
  unfolding ranks_before
  ranks_before_asym s t i j h =
      ground (arith, o.asym s t, o.asym t s, str_lt_trans i j i, str_lt_irrefl i)

  -- Not after is transitive.
  not_after_trans :
      (s t u : fl.F) (i j k : Str)
      → ranks_before fl t j s i ≡ false
      → ranks_before fl u k t j ≡ false
      → ranks_before fl u k s i ≡ false
  unfolding ranks_before
  not_after_trans s t u i j k h l = ground (
    arith,
    o.between s u t,
    o.between u s t,
    o.between t u s,
    o.between u t s,
    o.between s t u,
    o.between t s u,
    o.asym s t,
    o.asym t u,
    o.asym s u,
    str_lt_trans k i j,
    str_lt_trans k j i,
    str_lt_trans j k i,
    str_lt_trans j i k,
    str_lt_connected i j,
    str_lt_connected j k,
  )

  ranks_before_total :
      (s t : fl.F) (i j : Str)
      → not (ranks_before fl s i t j) ≡ false
      → not (ranks_before fl t j s i) ≡ true
  ranks_before_total s t i j h = ground (arith, ranks_before_asym s t i j)

  pub hit_le-IsPreorder : IsPreorder (hit_le fl)
  unfolding hit_le
  hit_le-IsPreorder = record {
    total = λ a b h. ranks_before_total b.score a.score b.document_id a.document_id h;
    trans = λ a b c h k.
        ground (
          arith,
          not_after_trans a.score b.score c.score a.document_id b.document_id c.document_id,
        );
  }

  pub item_le-IsPreorder : IsPreorder (item_le fl)
  unfolding item_le
  item_le-IsPreorder = record {
    total = λ a b h. ranks_before_total b.1 a.1 b.0 a.0 h;
    trans = λ a b c h k. ground (arith, not_after_trans a.1 b.1 c.1 a.0 b.0 c.0);
  }

  -- The order by rank of anything that has a score and an identifier.
  pub by_rank-IsPreorder :
      {A : Type 0} (score : A → fl.F) (id : A → Str)
      → IsPreorder (λ (a b : A). not (ranks_before fl (score b) (id b) (score a) (id a)))
  by_rank-IsPreorder score id = record {
    total = λ a b h. ranks_before_total (score b) (score a) (id b) (id a) h;
    trans = λ a b c h k.
        ground (arith, not_after_trans (score a) (score b) (score c) (id a) (id b) (id c));
  }
