-- ===== src/Cluster/Throttle.antt =====
-- backtest/agartha_cluster/api_throttle.py and the table `api_throttle_buckets` of cluster_db.py:
-- the local budget of API weight per minute and of orders per ten seconds. Timestamps are
-- milliseconds; a test `t >= ts_ms - 10_000` on Python's ints is written `ts_ms <= t + 10_000`.
pub mod Window
pub mod Budget
pub mod Wait
use generik_dbhistogram_data.Base.{
  ℕ, ◌+◌, ◌-◌, ◌/◌, Bool, true, false, List, [], ◌∷◌, ◌++◌, ltb, leb, ◌==◌, if◌then◌else◌,
}
use generik_dbhistogram_data.Base.Lists.{length, keep, count_if, replicate}

-- A row of `api_throttle_buckets`.
pub record Bucket : Type 0 where
  pub minute_bucket : ℕ
  pub weight_used : ℕ
  pub orders_count : ℕ

-- `INSERT ... ON CONFLICT(minute_bucket) DO UPDATE` of `bump_throttle`; `minute_bucket` is the key.
unfoldable pub upsert : ℕ → ℕ → ℕ → List Bucket → List Bucket
upsert bucket weight orders [] =
    record { minute_bucket = bucket; weight_used = weight; orders_count = orders } ∷ []
upsert bucket weight orders (r ∷ rows) =
    if r.minute_bucket == bucket
    then record r { weight_used = r.weight_used + weight; orders_count = r.orders_count + orders }
      ∷ rows
    else r ∷ upsert bucket weight orders rows

unfoldable pub get_throttle_bucket : ℕ → List Bucket → ℕ × ℕ
get_throttle_bucket bucket [] = (0, 0)
get_throttle_bucket bucket (r ∷ rows) =
    if r.minute_bucket == bucket
    then (r.weight_used, r.orders_count)
    else get_throttle_bucket bucket rows

-- The rows after the bump, and what the `SELECT` behind it reads.
unfoldable pub bump_throttle : ℕ → ℕ → ℕ → List Bucket → List Bucket × ℕ × ℕ
bump_throttle bucket weight orders rows =
    let rows' = upsert bucket weight orders rows in
    let (w, o) = get_throttle_bucket bucket rows' in (rows', w, o)

-- `purge_throttle_buckets_older_than`; the second part is the number of rows deleted.
unfoldable pub purge_throttle_buckets_older_than : ℕ → List Bucket → List Bucket × ℕ
purge_throttle_buckets_older_than before rows =
    (keep (λ r. leb before r.minute_bucket) rows, count_if (λ r. ltb r.minute_bucket before) rows)

unfoldable pub minute_bucket_of : ℕ → ℕ
minute_bucket_of ts_ms = ts_ms / 60000

pub record ThrottleConfig : Type 0 where
  pub weight_limit_per_minute : ℕ
  pub orders_limit_per_10s : ℕ
  pub block_when_exceeded : Bool

-- An `ApiThrottle` with the rows of its database.
pub record ApiThrottle : Type 0 where
  pub config : ThrottleConfig
  pub buckets : List Bucket
  pub order_ts : List ℕ

-- `t >= ts_ms - 10_000`
abbrev pub is_recent : ℕ → ℕ → Bool
is_recent ts_ms t = leb ts_ms (t + 10000)

-- `ApiThrottle.record`
unfoldable pub record_use : ℕ → ℕ → ℕ → ApiThrottle → ApiThrottle × ℕ × ℕ
record_use weight orders ts_ms t =
    let (rows, weight_used, _) = bump_throttle (minute_bucket_of ts_ms) weight orders t.buckets in
    let window = keep (is_recent ts_ms) (t.order_ts ++ replicate orders ts_ms) in
    (record t { buckets = rows; order_ts = window }, weight_used, length window)

unfoldable pub used : ℕ → ApiThrottle → ℕ × ℕ
used ts_ms t =
    let (weight_used, _) = get_throttle_bucket (minute_bucket_of ts_ms) t.buckets in
    (weight_used, count_if (is_recent ts_ms) t.order_ts)

unfoldable pub can_send : ℕ → ℕ → ℕ → ApiThrottle → Bool
can_send weight orders ts_ms t =
    let (weight_used, order_count) = used ts_ms t in
    if ltb t.config.weight_limit_per_minute (weight_used + weight)
    then false
    else if ltb t.config.orders_limit_per_10s (order_count + orders)
    then false
    else true

-- The subtraction stops at 0, where the source takes a negative difference and does nothing.
unfoldable pub reconcile_server_weight : ℕ → ℕ → ApiThrottle → ApiThrottle
reconcile_server_weight used_weight_1m ts_ms t =
    let bucket = minute_bucket_of ts_ms in
    let (weight_used, _) = get_throttle_bucket bucket t.buckets in
    let diff = used_weight_1m - weight_used in
    if ltb 0 diff then record t { buckets = (bump_throttle bucket diff 0 t.buckets).0 } else t
