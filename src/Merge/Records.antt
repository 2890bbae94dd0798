-- ===== src/Merge/Records.antt =====
-- graph/runtime/state_merge.py: the merge of two execution graphs.
use trip_graph_agent_runtime.Prelude.{
  ℕ, ◌≡◌, refl, ap, ◌∙◌, String, Bool, true, ◌&&◌, ◌||◌, List, [], ◌∷◌, ◌++◌, map, map-append,
  eq_iff, str_eq, ◌==◌, ==_iff, arith,
}
use trip_graph_agent_runtime.Prelude.Sort.{sort, insert_sorted, by_key, Ordered, Ordered-sort}
use trip_graph_agent_runtime.ExecutionGraph.{
  NodeExecutionRecord, GraphEdgeRecord, ExecutionGraphModel,
}
use trip_graph_agent_runtime.Merge.{has_pair, pair_of, new_nodes, merge_graphs}

has_pair-append :
    (name : String) (n : ℕ) (xs ys : List (String × ℕ))
    → has_pair name n (xs ++ ys) ≡ (has_pair name n xs || has_pair name n ys)
unfolding has_pair
has_pair-append name n [] ys = refl
has_pair-append name n (p ∷ xs) ys = ground (arith, has_pair-append name n xs ys)

has_pair_eq :
    (name other : String) (n m : ℕ) (seen : List (String × ℕ))
    → (str_eq name other && n == m) ≡ true
    → has_pair other m seen ≡ has_pair name n seen
has_pair_eq name other n m seen h =
    rw ((eq_iff name other).0 (ground arith), (==_iff n m).0 (ground arith)) refl

module _ {Json : Type 0} (name : String) (n : ℕ) where
  abbrev among : List (NodeExecutionRecord Json) → Bool
  among records = has_pair name n (map pair_of records)

  among-insert_sorted :
      (le : NodeExecutionRecord Json → NodeExecutionRecord Json → Bool)
      (x : NodeExecutionRecord Json) (xs : List (NodeExecutionRecord Json))
      → among (insert_sorted le x xs) ≡ among (x ∷ xs)
  unfolding insert_sorted has_pair
  among-insert_sorted le x [] = refl
  among-insert_sorted le x (y ∷ ys) = ground (arith, among-insert_sorted le x ys)

  among-sort :
      (le : NodeExecutionRecord Json → NodeExecutionRecord Json → Bool)
      (xs : List (NodeExecutionRecord Json))
      → among (sort le xs) ≡ among xs
  unfolding sort has_pair
  among-sort le [] = refl
  among-sort le (x ∷ xs) = ground (arith, among-insert_sorted le x (sort le xs), among-sort le xs)

  among-new_nodes :
      (seen : List (String × ℕ)) (xs : List (NodeExecutionRecord Json))
      → (has_pair name n seen || among (new_nodes seen xs)) ≡ (has_pair name n seen || among xs)
  unfolding new_nodes has_pair
  among-new_nodes seen [] = refl
  among-new_nodes seen (x ∷ xs) = ground (
    arith,
    among-new_nodes seen xs,
    among-new_nodes (pair_of x ∷ seen) xs,
    has_pair_eq name x.node_id n x.sequence seen,
  )

module _ {Json : Type 0} where
  -- The merged graph has a record for a node and a sequence number exactly when one of the two
  -- graphs has, and its node records and edge records are in order of the sequence numbers.
  pub merge_graphs-records :
      (left right : ExecutionGraphModel Json) (name : String) (n : ℕ)
      → (has_pair name n (map pair_of (merge_graphs left right).node_records) ≡ (
          has_pair name n (map pair_of left.node_records)
          || has_pair name n (map pair_of right.node_records)))
        × Ordered
            (λ (r : NodeExecutionRecord Json). r.sequence)
            (merge_graphs left right).node_records
        × Ordered (λ (e : GraphEdgeRecord). e.sequence) (merge_graphs left right).edge_records
  unfolding merge_graphs
  merge_graphs-records left right name n = (
    among-sort name n (by_key (λ (r : NodeExecutionRecord Json). r.sequence))
          (left.node_records ++ new_nodes (map pair_of left.node_records) right.node_records)
        ∙ ap (has_pair name n) (
            map-append pair_of left.node_records
              (new_nodes (map pair_of left.node_records) right.node_records))
        ∙ has_pair-append name n (map pair_of left.node_records)
            (map pair_of (new_nodes (map pair_of left.node_records) right.node_records))
        ∙ among-new_nodes name n (map pair_of left.node_records) right.node_records,
    Ordered-sort (λ (r : NodeExecutionRecord Json). r.sequence) _,
    Ordered-sort (λ (e : GraphEdgeRecord). e.sequence) _,
  )
