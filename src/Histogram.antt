-- ===== src/Histogram.antt =====
-- server/core/histogram.go: a streaming histogram that merges its closest bins.
pub mod Merge
pub mod Bounds
pub mod Quantile
use nats_replicator.Prelude.{ℕ, zero, suc, List, [], ◌∷◌, ltb, eqb, length, if◌then◌else◌}
use nats_replicator.Prelude.Int.{add64}
use nats_replicator.Prelude.Outcome.{Outcome, done, panics, ◌>>=◌}
use nats_replicator.Float.{Float, le, whole}

module _ ⦃fl : Float⦄ where
  pub record Bin : Type 0 where
    pub value : fl.F
    pub count : fl.F

  -- `max_bins` is an `int` that every caller sets to 60; `total` is a `uint64`.
  pub record Histogram : Type 0 where
    pub bins : List Bin
    pub max_bins : ℕ
    pub total : ℕ

  -- NewHistogram
  unfoldable pub new_histogram : ℕ → Histogram
  new_histogram n = record { bins = []; max_bins = n; total = 0 }

  scale_bins : fl.F → List Bin → List Bin
  scale_bins s [] = []
  scale_bins s (b ∷ bins) = record b { value = fl.mul b.value s } ∷ scale_bins s bins

  -- Scale
  unfoldable pub scale : Histogram → fl.F → Histogram
  unfolding scale_bins
  scale h s = record h { bins = scale_bins s h.bins }

  -- The loop of Add: count up the bin of `n`, or put a new bin before the first greater one.
  unfoldable pub add_to_bins : fl.F → List Bin → List Bin
  add_to_bins n [] = record { value = n; count = whole 1 } ∷ []
  add_to_bins n (b ∷ bins) =
      if fl.eq b.value n
      then record b { count = fl.add b.count (whole 1) } ∷ bins
      else if fl.lt n b.value
      then record { value = n; count = whole 1 } ∷ b ∷ bins
      else b ∷ add_to_bins n bins

  -- The inner loop of trim, from the bin at index `i` on: `prev` is the value of the bin before.
  unfoldable pub closest : fl.F → List Bin → ℕ → fl.F → ℕ → ℕ
  closest prev [] i min_delta min_index = min_index
  closest prev (b ∷ bins) i min_delta min_index =
      let delta = fl.sub b.value prev in
      let nearer = fl.lt delta min_delta in
      closest b.value bins (suc i) (if nearer then delta else min_delta)
        (if nearer then i else min_index)

  -- minDeltaIndex: the loop passes over index 0.
  unfoldable pub min_delta_index : List Bin → ℕ
  unfolding closest
  min_delta_index [] = 0
  min_delta_index (b ∷ bins) = closest b.value bins 1 fl.huge 0

  unfoldable pub merged_bin : Bin → Bin → Bin
  merged_bin a b =
      let total = fl.add a.count b.count in
      record {
        value = fl.div (fl.add (fl.mul a.value a.count) (fl.mul b.value b.count)) total;
        count = total;
      }

  -- Put the merged bin in place of the bins i - 1 and i. An index out of range panics, as 0 does.
  unfoldable pub merge_at : ℕ → List Bin → Outcome (List Bin)
  unfolding merged_bin
  merge_at zero bins = panics
  merge_at (suc i) [] = panics
  merge_at (suc zero) (a ∷ []) = panics
  merge_at (suc zero) (a ∷ b ∷ bins) = done (merged_bin a b ∷ bins)
  merge_at (suc (suc i)) (a ∷ bins) = merge_at (suc i) bins >>= λ rest. done (a ∷ rest)

  -- The loop of trim. Each round drops a bin, so the number of bins is enough fuel.
  unfoldable pub trim_loop : ℕ → ℕ → List Bin → Outcome (List Bin)
  unfolding min_delta_index merge_at
  trim_loop zero max_bins bins = done bins
  trim_loop (suc fuel) max_bins bins =
      let round = merge_at (min_delta_index bins) bins >>= λ rest. trim_loop fuel max_bins rest in
      if ltb max_bins (length bins) then round else done bins

  -- trim
  unfoldable pub trim : Histogram → Outcome Histogram
  unfolding trim_loop
  trim h = trim_loop (length h.bins) h.max_bins h.bins >>= λ bins. done (record h { bins = bins })

  -- Add: the deferred trim runs after the bin was counted.
  unfoldable pub add : Histogram → fl.F → Outcome Histogram
  unfolding add_to_bins trim
  add h n = trim (record h { bins = add_to_bins n h.bins; total = add64 h.total 1 })

  -- The loop of Quantile.
  unfoldable pub quantile_loop : fl.F → List Bin → fl.F
  quantile_loop count [] = fl.minus_one
  quantile_loop count (b ∷ bins) =
      let left = fl.sub count b.count in
      if le left (whole 0) then b.value else quantile_loop left bins

  -- Quantile
  unfoldable pub quantile : Histogram → fl.F → fl.F
  unfolding quantile_loop
  quantile h q = quantile_loop (fl.mul q (fl.of_uint64 h.total)) h.bins

  weighted_sum : fl.F → List Bin → fl.F
  weighted_sum sum [] = sum
  weighted_sum sum (b ∷ bins) = weighted_sum (fl.add sum (fl.mul b.value b.count)) bins

  -- Mean
  unfoldable pub mean : Histogram → fl.F
  unfolding weighted_sum
  mean h =
      if eqb h.total 0
      then whole 0
      else fl.div (weighted_sum (whole 0) h.bins) (fl.of_uint64 h.total)

  -- Count
  unfoldable pub count : Histogram → fl.F
  count h = fl.of_uint64 h.total
