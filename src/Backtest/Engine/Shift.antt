-- ===== src/Backtest/Engine/Shift.antt =====
-- A bar does not depend on the sequence number: a run whose numbers are one ahead does the same.
use mathlib.Core.List.{append_assoc, map-append, append-nil}
use generik_dbhistogram_data.Base.{
  ℕ, ◌+◌, ◌≡◌, refl, sym, ap, ◌∙◌, Option, none, some, List, [], ◌∷◌, ◌++◌, map, arith, inl, inr,
  Bool-cases,
}
use generik_dbhistogram_data.Base.Float.{Float}
use generik_dbhistogram_data.Backtest.Broker.{Side, other, SpotBroker, Fill, execute_market}
use generik_dbhistogram_data.Backtest.Engine.{
  Candle, Signal, StrategyContext, Strategy, Event, EventsMode, full, lite, minimal, EngineConfig,
  Core, Logs, Emission, is_clamped,
}
use generik_dbhistogram_data.Backtest.Engine.Bar.{
  snapshot_due, append, mark_executed, bar_event, after_hold, after_order, after_signal,
  process_bar, run_trigger, triggered, step_bar,
}

unfoldable pub shift : {A S : Type 0} → Core A S → Core A S
shift c = record c { seq = c.seq + 1 }

unfoldable pub bump : {A : Type 0} → Event A → Event A
bump e = record e { seq = e.seq + 1 }

unfoldable pub bumped : {A : Type 0} → Emission A → Emission A
unfolding bump
bumped e = record e { events = map bump e.events }

module _ {A S : Type 0} ⦃F : Float A⦄ where
  after_hold-shift :
      (m : EventsMode) (seconds ts : ℕ) (equity : A) (s : S) (c : Core A S)
      → after_hold m seconds ts equity s (shift c) ≡ (
        shift (after_hold m seconds ts equity s c).0,
        bumped (after_hold m seconds ts equity s c).1,
      )
  unfolding after_hold shift bumped bar_event
  after_hold-shift full seconds ts equity s c = refl
  after_hold-shift lite seconds ts equity s c =
      elim (Bool-cases (snapshot_due seconds ts c.last_snapshot_ts)) [
        | inl due ↦ rw due refl
        | inr not_due ↦ rw not_due refl
      ]
  after_hold-shift minimal seconds ts equity s c = refl

module _ {A D S E M : Type 0} ⦃F : Float A⦄ (strat : Strategy A D S E M) where
  after_order-shift :
      (ts : ℕ) (px equity : A) (signal : Signal A M) (ctx : StrategyContext A D) (s : S)
      (c : Core A S) (r : SpotBroker A × Option (Fill A))
      → after_order strat ts px equity signal ctx s (shift c) r ≡ (
        shift (after_order strat ts px equity signal ctx s c r).0,
        bumped (after_order strat ts px equity signal ctx s c r).1,
      )
  unfolding after_order shift bumped
  after_order-shift ts px equity signal ctx s c (b, none) = refl
  after_order-shift ts px equity signal ctx s c (b, some f) = refl

  after_signal-shift :
      (cfg : EngineConfig) (ts : ℕ) (px equity : A) (ctx : StrategyContext A D) (c : Core A S)
      (s : S) (signal : Signal A M) (side : Side)
      → after_signal strat cfg ts px equity ctx (shift c) s signal side ≡ (
        shift (after_signal strat cfg ts px equity ctx c s signal side).0,
        bumped (after_signal strat cfg ts px equity ctx c s signal side).1,
      )
  unfolding after_signal shift
  after_signal-shift cfg ts px equity ctx c s signal other =
      after_hold-shift cfg.events_mode cfg.snapshot_seconds ts equity s c
  after_signal-shift cfg ts px equity ctx c s signal side =
      after_order-shift ts px equity signal ctx s c
        (execute_market side px signal.size_pct c.broker)

  pub process_bar-shift :
      (cfg : EngineConfig) (candles : List (Candle A D)) (i : ℕ) (candle : Candle A D)
      (c : Core A S)
      → process_bar strat cfg candles i candle (shift c) ≡ (
        shift (process_bar strat cfg candles i candle c).0,
        bumped (process_bar strat cfg candles i candle c).1,
      )
  unfolding process_bar shift
  process_bar-shift cfg candles i candle c = after_signal-shift cfg candle.open_time _ _ _ c _ _ _

-- Two runs' logs have grown alike since `b` and `b'`: the second run's new events are those of the
-- first with sequence numbers one higher, and the new equities and profits are the same.
pub record GrownAlike {A E : Type 0} (b l b' l' : Logs A E) : Type 0 where
  pub new_events : List (Event A)
  pub new_equities : List A
  pub new_pnls : List A
  pub events : l.events ≡ b.events ++ new_events
  pub events' : l'.events ≡ b'.events ++ map bump new_events
  pub equities : l.equity_curve ≡ b.equity_curve ++ new_equities
  pub equities' : l'.equity_curve ≡ b'.equity_curve ++ new_equities
  pub pnls : l.trade_pnls ≡ b.trade_pnls ++ new_pnls
  pub pnls' : l'.trade_pnls ≡ b'.trade_pnls ++ new_pnls

pub GrownAlike-start : {A E : Type 0} (b b' : Logs A E) → GrownAlike b b b' b'
GrownAlike-start b b' = record {
  new_events = [];
  new_equities = [];
  new_pnls = [];
  events = sym (append-nil b.events);
  events' = sym (append-nil b'.events);
  equities = sym (append-nil b.equity_curve);
  equities' = sym (append-nil b'.equity_curve);
  pnls = sym (append-nil b.trade_pnls);
  pnls' = sym (append-nil b'.trade_pnls);
}

extend : {T : Type 0} (l b x y : List T) → l ≡ b ++ x → l ++ y ≡ b ++ (x ++ y)
extend l b x y e = ap (λ z. z ++ y) e ∙ append_assoc b x y

GrownAlike-append :
    {A E : Type 0} (b l b' l' : Logs A E) (e : Emission A)
    → GrownAlike b l b' l'
    → GrownAlike b (append e l) b' (append (bumped e) l')
unfolding append bumped
GrownAlike-append b l b' l' e g = record {
  new_events = g.new_events ++ e.events;
  new_equities = g.new_equities ++ e.equity ∷ [];
  new_pnls = g.new_pnls ++ e.trade_pnls;
  events = extend l.events b.events g.new_events e.events g.events;
  events' =
      extend l'.events b'.events (map bump g.new_events) (map bump e.events) g.events'
      ∙ ap (λ z. b'.events ++ z) (sym (map-append bump g.new_events e.events));
  equities = extend l.equity_curve b.equity_curve g.new_equities (e.equity ∷ []) g.equities;
  equities' = extend l'.equity_curve b'.equity_curve g.new_equities (e.equity ∷ []) g.equities';
  pnls = extend l.trade_pnls b.trade_pnls g.new_pnls e.trade_pnls g.pnls;
  pnls' = extend l'.trade_pnls b'.trade_pnls g.new_pnls e.trade_pnls g.pnls';
}

-- The trigger touches none of the lists but the checkpoints.
abbrev SameLists : {A E : Type 0} → Logs A E → Logs A E → Type 0
SameLists l m =
    (l.events ≡ m.events) × (l.equity_curve ≡ m.equity_curve) × (l.trade_pnls ≡ m.trade_pnls)

GrownAlike-same :
    {A E : Type 0} (b l m b' l' m' : Logs A E)
    → SameLists m l
    → SameLists m' l'
    → GrownAlike b l b' l'
    → GrownAlike b m b' m'
GrownAlike-same b l m b' l' m' s s' g = record {
  new_events = g.new_events;
  new_equities = g.new_equities;
  new_pnls = g.new_pnls;
  events = s.0 ∙ g.events;
  events' = s'.0 ∙ g.events';
  equities = s.1 ∙ g.equities;
  equities' = s'.1 ∙ g.equities';
  pnls = s.2 ∙ g.pnls;
  pnls' = s'.2 ∙ g.pnls';
}

module _ {A D S E M : Type 0} ⦃F : Float A⦄ (strat : Strategy A D S E M) where
  triggered-SameLists :
      (cfg : EngineConfig) (i ts : ℕ) (c : Core A S) (l : Logs A E)
      → SameLists (triggered strat cfg i ts c l) l
  unfolding triggered run_trigger
  triggered-SameLists cfg i ts c l = ground arith

  -- Two states that differ in the logs and by one in the sequence number.
  pub record Alike (b b' : Logs A E) (u v : Core A S × Logs A E) : Type 0 where
    pub core : v.0 ≡ shift u.0
    pub logs : GrownAlike b u.1 b' v.1

  process-Alike :
      (cfg : EngineConfig) (candles : List (Candle A D)) (i ts : ℕ) (candle : Candle A D)
      (c : Core A S) (b l b' l' : Logs A E)
      → GrownAlike b l b' l'
      → Alike b b'
          (
            (process_bar strat cfg candles i candle c).0,
            append (process_bar strat cfg candles i candle c).1 (triggered strat cfg i ts c l),
          )
          (
            (process_bar strat cfg candles i candle (shift c)).0,
            append
                (process_bar strat cfg candles i candle (shift c)).1
                (triggered strat cfg i ts (shift c) l'),
          )
  process-Alike cfg candles i ts candle c b l b' l' g =
      rw (process_bar-shift strat cfg candles i candle c) (record {
        core = refl;
        logs = GrownAlike-append b _ b' _ (process_bar strat cfg candles i candle c).1 (
            GrownAlike-same b l _ b' l' _ (triggered-SameLists cfg i ts c l)
              (triggered-SameLists cfg i ts (shift c) l') g);
      })

  pub step_bar-Alike :
      (cfg : EngineConfig) (candles : List (Candle A D)) (i : ℕ) (candle : Candle A D)
      (c : Core A S) (b l b' l' : Logs A E)
      → GrownAlike b l b' l'
      → Alike b b'
          (step_bar strat cfg candles i candle (c, l))
          (step_bar strat cfg candles i candle (shift c, l'))
  unfolding step_bar shift mark_executed
  step_bar-Alike cfg candles i candle c b l b' l' g =
      elim (Bool-cases (is_clamped cfg c.last_exec_ts candle.open_time)) [
        | inl early ↦ rw early (record { core = refl; logs = g })
        | inr due ↦ rw due (
            process-Alike cfg candles i candle.open_time candle (mark_executed candle.open_time c) b
              l b' l' g)
      ]
