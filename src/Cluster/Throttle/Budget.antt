-- ===== src/Cluster/Throttle/Budget.antt =====
-- The budgets hold: a client that asks `can_send` and records what it sends stays within both caps.
use generik_dbhistogram_data.Base.{
  ℕ, zero, suc, max, ap, ◌∙◌, ◌+◌, ◌-◌, ◌≤◌, ◌≡◌, refl, inl, inr, true, List, [], ◌∷◌, ◌++◌, arith,
  ◌==◌, if◌then◌else◌, Bool-cases,
}
use generik_dbhistogram_data.Base.Lists.{count_if, replicate, count_if-append}
use generik_dbhistogram_data.Cluster.Throttle.{
  get_throttle_bucket, bump_throttle, is_recent, ApiThrottle, ThrottleConfig, minute_bucket_of,
  record_use, used, can_send, reconcile_server_weight,
}
use generik_dbhistogram_data.Cluster.Throttle.Window.{
  bucket-upsert, recent-count_mono, recent-count_keep,
}

pub record Request : Type 0 where
  pub weight : ℕ
  pub orders : ℕ
  pub ts_ms : ℕ

-- A throttle, with the send times of all orders so far, which the program does not keep.
pub record History : Type 0 where
  pub throttle : ApiThrottle
  pub sent : List ℕ

-- One request: it is sent and recorded if `can_send` allows it.
unfoldable pub guarded_send : Request → History → History
guarded_send r h =
    if can_send r.weight r.orders r.ts_ms h.throttle
    then record {
      throttle = (record_use r.weight r.orders r.ts_ms h.throttle).0;
      sent = h.sent ++ replicate r.orders r.ts_ms;
    }
    else h

unfoldable pub guarded_run : List Request → History → History
guarded_run [] h = h
guarded_run (r ∷ rs) h = guarded_run rs (guarded_send r h)

unfoldable pub fresh : ThrottleConfig → History
fresh c = record { throttle = record { config = c; buckets = []; order_ts = [] }; sent = [] }

-- The clock never runs backwards: the requests stand in the order of their times, from `from`.
abbrev pub IsOrdered : ℕ → List Request → Type 0
IsOrdered from [] = Unit
IsOrdered from (r ∷ rs) = (from ≤ r.ts_ms) × IsOrdered r.ts_ms rs

abbrev pub last_ts : ℕ → List Request → ℕ
last_ts from [] = from
last_ts from (r ∷ rs) = last_ts r.ts_ms rs

can_send_caps :
    (weight orders ts_ms : ℕ) (t : ApiThrottle)
    → can_send weight orders ts_ms t ≡ true
    → ((get_throttle_bucket (minute_bucket_of ts_ms) t.buckets).0 + weight
        ≤ t.config.weight_limit_per_minute)
      × (count_if (is_recent ts_ms) t.order_ts + orders ≤ t.config.orders_limit_per_10s)
unfolding can_send used
can_send_caps weight orders ts_ms t h = ground arith

bucket-record_use :
    (m weight orders ts_ms : ℕ) (t : ApiThrottle)
    → (get_throttle_bucket m (record_use weight orders ts_ms t).0.buckets).0 ≡ (
        if minute_bucket_of ts_ms == m
        then (get_throttle_bucket m t.buckets).0 + weight
        else (get_throttle_bucket m t.buckets).0)
unfolding record_use bump_throttle
bucket-record_use m weight orders ts_ms t =
    ground (arith, bucket-upsert m (minute_bucket_of ts_ms) weight orders t.buckets)

config-guarded_send :
    (r : Request) (h : History) → (guarded_send r h).throttle.config ≡ h.throttle.config
unfolding guarded_send record_use bump_throttle
config-guarded_send r h = ground arith

count-replicate_recent : (n ts : ℕ) → count_if (is_recent ts) (replicate n ts) ≡ n
count-replicate_recent zero ts = refl
count-replicate_recent (suc n) ts = ground (arith, count-replicate_recent n ts)

weight_kept :
    (limit m : ℕ) (r : Request) (h : History)
    → h.throttle.config.weight_limit_per_minute ≡ limit
    → (get_throttle_bucket m h.throttle.buckets).0 ≤ limit
    → (get_throttle_bucket m (guarded_send r h).throttle.buckets).0 ≤ limit
unfolding guarded_send
weight_kept limit m r h c b = elim (Bool-cases (can_send r.weight r.orders r.ts_ms h.throttle)) [
  | inl ok ↦ ground (
    arith,
    ok,
    can_send_caps r.weight r.orders r.ts_ms h.throttle ok,
    bucket-record_use m r.weight r.orders r.ts_ms h.throttle,
  )
  | inr refused ↦ rw refused b
]

weight_kept_run :
    (limit m : ℕ) (rs : List Request) (h : History)
    → h.throttle.config.weight_limit_per_minute ≡ limit
    → (get_throttle_bucket m h.throttle.buckets).0 ≤ limit
    → (get_throttle_bucket m (guarded_run rs h).throttle.buckets).0 ≤ limit
unfolding guarded_run
weight_kept_run limit m [] h c b = b
weight_kept_run limit m (r ∷ rs) h c b =
    weight_kept_run limit m rs (guarded_send r h)
      (ap (λ c. c.weight_limit_per_minute) (config-guarded_send r h) ∙ c)
      (weight_kept limit m r h c b)

-- From an empty table, after any requests at any times, of which those that `can_send` allows are
-- sent and recorded, no minute's bucket holds more weight than the limit.
pub weight_within_limit :
    (c : ThrottleConfig) (rs : List Request) (m : ℕ)
    → (get_throttle_bucket m (guarded_run rs (fresh c)).throttle.buckets).0
      ≤ c.weight_limit_per_minute
unfolding fresh get_throttle_bucket
weight_within_limit c rs m =
    weight_kept_run c.weight_limit_per_minute m rs (fresh c) refl (omega arith)

-- From the time `from` on, the pruned window counts what the whole history would, and the count is
-- within the limit.
record IsExact (limit from : ℕ) (h : History) : Type 0 where
  same_limit : h.throttle.config.orders_limit_per_10s ≡ limit
  agrees :
      (now : ℕ)
      → from ≤ now
      → count_if (is_recent now) h.throttle.order_ts ≡ count_if (is_recent now) h.sent
  capped : (now : ℕ) → from ≤ now → count_if (is_recent now) h.sent ≤ limit

window-record_use :
    (weight orders ts now : ℕ) (t : ApiThrottle)
    → ts ≤ now
    → count_if (is_recent now) (record_use weight orders ts t).0.order_ts
      ≡ count_if (is_recent now) t.order_ts + count_if (is_recent now) (replicate orders ts)
unfolding record_use bump_throttle
window-record_use weight orders ts now t h =
    recent-count_keep ts now (t.order_ts ++ replicate orders ts) h
    ∙ count_if-append (is_recent now) t.order_ts (replicate orders ts)

module _ (limit from : ℕ) (r : Request) (h : History) (later : from ≤ r.ts_ms)
    (x : IsExact limit from h) where
  sent_agrees :
      (now : ℕ)
      → r.ts_ms ≤ now
      → count_if (is_recent now) (record_use r.weight r.orders r.ts_ms h.throttle).0.order_ts
        ≡ count_if (is_recent now) (h.sent ++ replicate r.orders r.ts_ms)
  sent_agrees now e =
      window-record_use r.weight r.orders r.ts_ms now h.throttle e
      ∙ omega (
        arith,
        x.agrees now (omega arith),
        count_if-append (is_recent now) h.sent (replicate r.orders r.ts_ms),
      )

  sent_capped :
      can_send r.weight r.orders r.ts_ms h.throttle ≡ true
      → (now : ℕ) → r.ts_ms ≤ now
      → count_if (is_recent now) (h.sent ++ replicate r.orders r.ts_ms) ≤ limit
  sent_capped ok now e = omega (
    arith,
    x.same_limit,
    x.agrees r.ts_ms later,
    can_send_caps r.weight r.orders r.ts_ms h.throttle ok,
    count_if-append (is_recent r.ts_ms) h.sent (replicate r.orders r.ts_ms),
    count-replicate_recent r.orders r.ts_ms,
    recent-count_mono r.ts_ms now (h.sent ++ replicate r.orders r.ts_ms) e,
  )

  guarded_send-IsExact : IsExact limit r.ts_ms (guarded_send r h)
  guarded_send-IsExact = elim (Bool-cases (can_send r.weight r.orders r.ts_ms h.throttle)) [
    | inl ok ↦ record {
      same_limit = ap (λ c. c.orders_limit_per_10s) (config-guarded_send r h) ∙ x.same_limit;
      agrees = λ now e. unfold guarded_send in rw ok (sent_agrees now e);
      capped = λ now e. unfold guarded_send in rw ok (sent_capped ok now e);
    }
    | inr refused ↦
        unfold guarded_send in
        rw refused (record {
          same_limit = x.same_limit;
          agrees = λ now e. x.agrees now (omega arith);
          capped = λ now e. x.capped now (omega arith);
        })
  ]

guarded_run-IsExact :
    (limit from : ℕ) (rs : List Request) (h : History)
    → IsOrdered from rs
    → IsExact limit from h
    → IsExact limit (last_ts from rs) (guarded_run rs h)
unfolding guarded_run
guarded_run-IsExact limit from [] h o x = x
guarded_run-IsExact limit from (r ∷ rs) h o x =
    guarded_run-IsExact limit r.ts_ms rs (guarded_send r h) o.1
      (guarded_send-IsExact limit from r h o.0 x)

-- While the clock does not run backwards, the order count that `used` reports at any later time is
-- the number of all orders sent in the ten seconds before it, and that number is within the limit.
pub orders_within_limit :
    (c : ThrottleConfig) (rs : List Request) (now : ℕ)
    → IsOrdered 0 rs
    → last_ts 0 rs ≤ now
    → let h = guarded_run rs (fresh c) in
      ((used now h.throttle).1 ≡ count_if (is_recent now) h.sent)
      × ((used now h.throttle).1 ≤ c.orders_limit_per_10s)
unfolding used
orders_within_limit c rs now o e = omega (arith, x.agrees now e, x.capped now e)
  where
    x : IsExact c.orders_limit_per_10s (last_ts 0 rs) (guarded_run rs (fresh c))
    x = guarded_run-IsExact c.orders_limit_per_10s 0 rs (fresh c) o (
        unfold fresh in
        record { same_limit = refl; agrees = λ n e. refl; capped = λ n e. omega arith })

-- After a reconciliation the bucket of that minute holds the larger of the local and the server's
-- weight, and every other bucket, the order window and the limits are as they were.
pub reconcile_lifts_to_server :
    (server ts m : ℕ) (t : ApiThrottle)
    → let t' = reconcile_server_weight server ts t in
      ((get_throttle_bucket m t'.buckets).0 ≡ (
        if minute_bucket_of ts == m
        then max (get_throttle_bucket m t.buckets).0 server
        else (get_throttle_bucket m t.buckets).0))
      × ((get_throttle_bucket m t'.buckets).1 ≡ (get_throttle_bucket m t.buckets).1)
      × (t'.order_ts ≡ t.order_ts)
      × (t'.config ≡ t.config)
unfolding reconcile_server_weight bump_throttle
reconcile_lifts_to_server server ts m t = ground (
  arith,
  bucket-upsert m (minute_bucket_of ts)
      (server - (get_throttle_bucket (minute_bucket_of ts) t.buckets).0) 0 t.buckets,
)
