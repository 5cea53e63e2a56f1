-- ===== src/Clusters/Normalize.antt =====
-- The ids that a merge works on: the caller's, each once, in increasing order.
use tca.Base.{ℕ, ◌≡◌, refl, List, [], ◌∷◌, member, arith}
use tca.Base.Sort.{member-insert_once, insert_once-IsIncreasing, IsIncreasing}
use tca.Clusters.{normalize_cluster_ids}

pub member-normalize_cluster_ids :
    (k : ℕ) (ids : List ℕ) → member k (normalize_cluster_ids ids) ≡ member k ids
unfolding normalize_cluster_ids member
member-normalize_cluster_ids k [] = refl
member-normalize_cluster_ids k (c ∷ cs) =
    ground
      (arith, member-insert_once k c (normalize_cluster_ids cs), member-normalize_cluster_ids k cs)

pub normalize_cluster_ids-IsIncreasing : (ids : List ℕ) → IsIncreasing (normalize_cluster_ids ids)
unfolding normalize_cluster_ids
normalize_cluster_ids-IsIncreasing [] = tt
normalize_cluster_ids-IsIncreasing (c ∷ cs) =
    insert_once-IsIncreasing c (normalize_cluster_ids cs) (normalize_cluster_ids-IsIncreasing cs)
