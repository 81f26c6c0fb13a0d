-- ===== src/Cluster/Throttle/Window.antt =====
-- Counting in windows of timestamps, and the rows of the bucket table under a bump.
use generik_dbhistogram_data.Base.{
  ℕ, ◌+◌, ◌≤◌, ◌≡◌, refl, List, [], ◌∷◌, arith, ◌==◌, if◌then◌else◌,
}
use generik_dbhistogram_data.Base.Lists.{keep, count_if}
use generik_dbhistogram_data.Cluster.Throttle.{Bucket, upsert, get_throttle_bucket, is_recent}

-- What a bump of one bucket does to the lookup of any bucket.
pub bucket-upsert :
    (m b w o : ℕ) (rows : List Bucket)
    → get_throttle_bucket m (upsert b w o rows) ≡ (
        if b == m
        then ((get_throttle_bucket m rows).0 + w, (get_throttle_bucket m rows).1 + o)
        else get_throttle_bucket m rows)
unfolding get_throttle_bucket upsert
bucket-upsert m b w o [] = ground arith
bucket-upsert m b w o (r ∷ rows) = ground (arith, bucket-upsert m b w o rows)

-- A later window lies in an earlier one.
pub recent-count_mono :
    (a b : ℕ) (xs : List ℕ) → a ≤ b → count_if (is_recent b) xs ≤ count_if (is_recent a) xs
recent-count_mono a b [] h = omega arith
recent-count_mono a b (x ∷ xs) h = ground (arith, recent-count_mono a b xs h)

-- Dropping what has left the window at `a` changes no count at a later time.
pub recent-count_keep :
    (a b : ℕ) (xs : List ℕ)
    → a ≤ b
    → count_if (is_recent b) (keep (is_recent a) xs) ≡ count_if (is_recent b) xs
recent-count_keep a b [] h = refl
recent-count_keep a b (x ∷ xs) h = ground (arith, recent-count_keep a b xs h)
