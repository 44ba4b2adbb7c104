-- ===== src/Batch/Guard/Ollama.antt =====
-- The three-strikes rule of the check before an embedding.
use ai_brain.Prelude.{ℕ, suc, ◌≤◌, String, ◌≡◌, ◌↔◌, refl, Bool, true, false, List, [], ◌∷◌, arith}
use ai_brain.Batch.Guard.{
  hard_stop, BatchResourceGuard, embedding, check_ollama_for_embedding,
  check_before_expensive_operation, embedding_checks,
}

-- How many of the answers, the latest first, are failures in a row.
abbrev pub failures_in_a_row : List Bool → ℕ
failures_in_a_row [] = 0
failures_in_a_row (true ∷ bs) = 0
failures_in_a_row (false ∷ bs) = suc (failures_in_a_row bs)

-- The answers put on the front of earlier ones, so that the latest comes first.
abbrev latest_first : List Bool → List Bool → List Bool
latest_first [] earlier = earlier
latest_first (b ∷ bs) earlier = latest_first bs (b ∷ earlier)

module _ (free_at : String → ℕ) where
  counter_step :
      (b : Bool) (g : BatchResourceGuard) (earlier : List Bool)
      → g.consecutive_ollama_failures ≡ failures_in_a_row earlier
      → (check_before_expensive_operation free_at b embedding g).1.consecutive_ollama_failures
        ≡ failures_in_a_row (b ∷ earlier)
  unfolding check_before_expensive_operation check_ollama_for_embedding
  counter_step true g earlier h = refl
  counter_step false g earlier h = ground arith

  counter_counts :
      (bs : List Bool) (g : BatchResourceGuard) (earlier : List Bool)
      → g.consecutive_ollama_failures ≡ failures_in_a_row earlier
      → (embedding_checks free_at g bs).1.consecutive_ollama_failures
        ≡ failures_in_a_row (latest_first bs earlier)
  unfolding embedding_checks
  counter_counts [] g earlier h = h
  counter_counts (b ∷ bs) g earlier h =
      counter_counts bs (check_before_expensive_operation free_at b embedding g).1 (b ∷ earlier)
        (counter_step b g earlier h)

  hard_stop_iff :
      (b : Bool) (g : BatchResourceGuard) (earlier : List Bool)
      → g.consecutive_ollama_failures ≡ failures_in_a_row earlier
      → ((check_before_expensive_operation free_at b embedding g).0.tier ≡ hard_stop
          ↔ 3 ≤ failures_in_a_row (b ∷ earlier))
  unfolding check_before_expensive_operation check_ollama_for_embedding
  hard_stop_iff true g earlier h = (λ e. absurd (ground arith), λ l. absurd (omega arith))
  hard_stop_iff false g earlier h = (λ e. ground arith, λ l. ground arith)

  -- For a new guard that has made any checks before embeddings, the next one is a hard stop exactly
  -- when Ollama was unreachable at it and at the two checks before it, with none reachable in between.
  pub embedding_hard_stop :
      (g : BatchResourceGuard) (bs : List Bool) (b : Bool)
      → g.consecutive_ollama_failures ≡ 0
      → let g' = (embedding_checks free_at g bs).1 in
        (check_before_expensive_operation free_at b embedding g').0.tier ≡ hard_stop
        ↔ 3 ≤ failures_in_a_row (b ∷ latest_first bs [])
  embedding_hard_stop g bs b h =
      hard_stop_iff b (embedding_checks free_at g bs).1 (latest_first bs [])
        (counter_counts bs g [] h)
