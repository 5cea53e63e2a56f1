-- ===== src/Clusters/Tests.antt =====
-- Runs of the cluster operations on a small database, and the theorems at it.
use tca.Base.{
  ◌⊎◌, All, ℕ, ◌*◌, ◌≡◌, refl, true, false, none, some, [], ◌∷◌, arith, keep, exists_row,
  count_rows, member,
}
use tca.Store.{Item, Cluster, Member, Database, has_cluster, has_member}
use tca.Store.Rank.{url_rank, representative, ranks_before}
use tca.Base.{IsIn}
use tca.Store.First.{IsAhead, representative_first}
use tca.Store.Integrity.{IsIntact}
use tca.Clusters.{
  ok, err, too_few, missing_target, merge_clusters, merge_result, assign_item_to_cluster,
  normalize_cluster_ids,
}
use tca.Clusters.Assign.{AssignOutcome, assign_item_to_cluster_outcome}
use tca.Clusters.Joined.{assign_item_to_cluster-IsIntact}
use tca.Clusters.Merge.{MergeOutcome, merge_clusters_outcome}
use tca.Clusters.Again.{merge_clusters_again}
use tca.Clusters.Integrity.{merge_clusters-IsIntact}

abbrev plain : ℕ → Item
plain i = record {
  id = i;
  raw_message_id = none;
  published_at = some (10 * i);
  title = some (65 ∷ []);
  body = none;
  canonical_url = none;
  created_at = 10 * i;
}

abbrev linked : ℕ → Item
linked i = record (plain i) { canonical_url = some (104 ∷ []) }

abbrev pair : ℕ → ℕ → Member
pair c i = record { cluster_id = c; item_id = i }

abbrev row : ℕ → ℕ → Cluster
row c i = record { id = c; representative_item_id = some i }

-- Three clusters; item 2 is the only one with a URL.
abbrev library : Database
library = record {
  items = plain 1 ∷ linked 2 ∷ plain 3 ∷ plain 4 ∷ [];
  clusters = row 1 1 ∷ row 2 2 ∷ row 3 4 ∷ [];
  members = pair 1 1 ∷ pair 2 2 ∷ pair 2 3 ∷ pair 3 4 ∷ [];
  decisions = [];
  raw_messages = [];
  ingest_errors = [];
  deliveries = [];
}

library-IsIntact : IsIntact library
unfolding exists_row
library-IsIntact = record {
  member_cluster = λ c i h. ground arith;
  member_item = λ c i h. ground arith;
  representative_member = λ c i h. ground arith;
  decision_item = λ i h. cc;
  decision_cluster = λ c h. cc;
  decision_candidate = λ i h. cc;
  delivery_cluster = λ c h. cc;
  item_raw_message = λ k h. ground arith;
}

merged_library : Database
unfolding merge_clusters
merged_library = (merge_clusters (2 ∷ 1 ∷ 2 ∷ []) library).1

-- Clusters 1 and 2 become cluster 1, which item 2 represents.
merge_run :
    (has_member 1 1 merged_library ≡ true)
    × (has_member 1 3 merged_library ≡ true)
    × (has_cluster 2 merged_library ≡ false)
    × (representative 1 merged_library ≡ some 2)
unfolding merged_library exists_row keep count_rows member representative ranks_before url_rank
merge_run = (refl, refl, refl, refl)

merge_too_few : merge_clusters (2 ∷ 2 ∷ []) library ≡ (err too_few, library)
unfolding merge_clusters
merge_too_few = refl

merge_missing_target : merge_clusters (9 ∷ 8 ∷ []) library ≡ (err (missing_target 8), library)
unfolding merge_clusters exists_row
merge_missing_target = refl

merge_clusters_outcome_example :
    MergeOutcome
      (normalize_cluster_ids (2 ∷ 1 ∷ 2 ∷ []))
      library
      (merge_clusters (2 ∷ 1 ∷ 2 ∷ []) library)
merge_clusters_outcome_example = merge_clusters_outcome (2 ∷ 1 ∷ 2 ∷ []) library

merge_clusters-IsIntact_example : IsIntact (merge_clusters (2 ∷ 1 ∷ 2 ∷ []) library).1
merge_clusters-IsIntact_example = merge_clusters-IsIntact (2 ∷ 1 ∷ 2 ∷ []) library library-IsIntact

merge_clusters_again_example :
    merge_clusters (2 ∷ 1 ∷ 2 ∷ []) merged_library
    ≡ (ok (merge_result 1 (2 ∷ []) merged_library false), merged_library)
unfolding merged_library merge_clusters exists_row keep count_rows member representative
merge_clusters_again_example = merge_clusters_again (2 ∷ 1 ∷ 2 ∷ []) library refl

assign_item_to_cluster_outcome_example :
    AssignOutcome 4 (some 2) library (assign_item_to_cluster 4 (some 2) library)
assign_item_to_cluster_outcome_example = assign_item_to_cluster_outcome 4 (some 2) library

assign_item_to_cluster-IsIntact_example : IsIntact (assign_item_to_cluster 4 none library).1
assign_item_to_cluster-IsIntact_example =
    assign_item_to_cluster-IsIntact 4 none library library-IsIntact

representative_first_example :
    (r : Item) × (r.id ≡ 2)
    × IsIn r library.items
    × (has_member 2 2 library ≡ true)
    × All (λ i. (has_member 2 i.id library ≡ false) ⊎ IsAhead r i) library.items
unfolding representative exists_row keep ranks_before url_rank
representative_first_example = representative_first 2 2 library refl
