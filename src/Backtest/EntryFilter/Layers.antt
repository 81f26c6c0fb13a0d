-- ===== src/Backtest/EntryFilter/Layers.antt =====
-- When the gate arms.
use generik_dbhistogram_data.Base.Float.{Float}
