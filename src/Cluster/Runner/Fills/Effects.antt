-- ===== src/Cluster/Runner/Fills/Effects.antt =====
-- What `on_fill` leaves of the world, in terms of the order's total.
use generik_dbhistogram_data.Base.{
  ℕ, ◌==◌, ◌≡◌, refl, ◌∙◌, ◌⊎◌, Bool, true, false, none, some, [], ◌∷◌, ◌++◌, if◌then◌else◌, inl,
  inr, arith,
}
use generik_dbhistogram_data.Base.Float.{Float, add, fmax}
use generik_dbhistogram_data.Cluster.Models.{
  awaiting_entry_fill, in_position, same_state, OrderSide, buy, filled, partially_filled,
  order_filled, order_partially_filled, info, binance_ws,
}
use generik_dbhistogram_data.Cluster.StateMachine.{transition, can_transition, successors, moved}
use generik_dbhistogram_data.Cluster.Orders.{
  OrderRow, get_order_by_client_id, sum_fills_for_order, insert_fill, is_fill_of,
  update_order_state, with_state,
}
use generik_dbhistogram_data.Cluster.Orders.Lookup.{get-update_order_state, get_order-id}
use generik_dbhistogram_data.Cluster.Orders.Sums.{total-insert_fill}
use generik_dbhistogram_data.Cluster.Bots.{BotRecord, get_bot, or_zero}
use generik_dbhistogram_data.Cluster.Bots.Lookup.{get-update_bot, get-append_state_log}
use generik_dbhistogram_data.Cluster.Exec.{pure, gets, modify, ◌>>=◌}
use generik_dbhistogram_data.Cluster.World.{
  World, Ambient, set_bot, fetch_bot, emit, add_fill, set_order, log_state,
}
use generik_dbhistogram_data.Cluster.Runner.{transition_bot, apply_transition, write_state}
use generik_dbhistogram_data.Cluster.Runner.Fills.{
  FillReport, fill_row, is_fully_filled, enter_position, apply_total, take_fill, match_order,
  move_bot, on_fill,
}

enters : transition awaiting_entry_fill in_position ≡ moved in_position
unfolding transition can_transition successors same_state
enters = ground arith

stays : transition in_position in_position ≡ moved in_position
unfolding transition same_state
stays = ground arith

moves : same_state in_position awaiting_entry_fill ≡ false
unfolding same_state
moves = ground arith

same : same_state in_position in_position ≡ true
unfolding same_state
same = ground arith

module _ {A : Type 0} ⦃F : Float A⦄ where
  abbrev pub bought : FillReport A → BotRecord A → A → A → BotRecord A → BotRecord A
  bought report bot total vwap r = record r {
    entry_filled_ts = some report.ts_ms;
    entry_price = some vwap;
    entry_qty = some total;
    peak_price = some (fmax (or_zero bot.peak_price) vwap);
  }

  -- Where the fill is stored and the order's row is changed, before the bot is.
  abbrev pub stored_fill : FillReport A → Ambient A → OrderRow A → BotRecord A → World A → World A
  stored_fill report amb row bot w =
      let orders = insert_fill (fill_row report row bot) w.orders in
      let (total, vwap, fee) = sum_fills_for_order row.order_pk orders in
      let full = is_fully_filled total row.order.qty in
      record w {
        orders =
            update_order_state report.client_order_id (if full then filled else partially_filled)
              (some total) (some vwap) none none amb.now_ms orders;
        events =
            w.events
            ++ record {
              source = binance_ws;
              level = info;
              kind = if full then order_filled else order_partially_filled;
              bot_id = some bot.bot_id;
              symbol = some report.symbol;
            }
              ∷ [];
      }

  pub on_fill_matched :
      (report : FillReport A) (amb : Ambient A) (row : OrderRow A) (bot : BotRecord A) (w : World A)
      → get_order_by_client_id report.client_order_id w.orders ≡ some row
      → get_bot row.order.bot_id w.tables ≡ some bot
      → on_fill report amb w ≡ (
          let (total, vwap, fee) =
            sum_fills_for_order row.order_pk (insert_fill (fill_row report row bot) w.orders) in
          move_bot report bot amb total vwap
            (is_fully_filled total row.order.qty)
            report.side
            (stored_fill report amb row bot w))
  unfolding on_fill match_order ◌>>=◌ gets fetch_bot take_fill add_fill modify apply_total set_order
      emit
  on_fill_matched report amb row bot w found there = rw (found, there) refl

  -- What `enter_position` leaves of a bot that is buying or has bought.
  pub record Entered (report : FillReport A) (bot : BotRecord A) (total : A) (full : Bool)
      (before after : World A) : Type 0 where
    pub entered : BotRecord A
    pub there : get_bot bot.bot_id after.tables ≡ some entered
    pub stands : entered.state ≡ (if full then in_position else bot.state)
    pub same_orders : after.orders ≡ before.orders

  pub enter_position-Entered :
      (report : FillReport A) (bot : BotRecord A) (amb : Ambient A) (total vwap : A) (full : Bool)
      (w : World A)
      → (bot.state ≡ awaiting_entry_fill) ⊎ (bot.state ≡ in_position)
      → get_bot bot.bot_id w.tables ≡ some bot
      → Entered report bot total full w (enter_position report bot amb total vwap full w).0
  unfolding enter_position ◌>>=◌ set_bot modify pure transition_bot apply_transition write_state
      log_state emit
  enter_position-Entered report bot amb total vwap false w s there = record {
    entered = bought report bot total vwap bot;
    there = get-update_bot bot.bot_id (bought report bot total vwap) w.tables bot (λ x. refl) there;
    stands = refl;
    same_orders = refl;
  }
  enter_position-Entered report bot amb total vwap true w (inl s) there =
      rw (s, enters, moves)
        (record {
          entered = record (bought report bot total vwap bot) { state = in_position };
          there =
              get-append_state_log bot.bot_id _ _
              ∙ get-update_bot bot.bot_id (λ r. record r { state = in_position }) _ _ (λ x. refl)
                  (get-update_bot bot.bot_id (bought report bot total vwap) w.tables bot (λ x. refl)
                    there);
          stands = refl;
          same_orders = refl;
        })
  enter_position-Entered report bot amb total vwap true w (inr s) there =
      rw (s, stays, same)
        (record {
          entered = bought report bot total vwap bot;
          there =
              get-update_bot bot.bot_id (bought report bot total vwap) w.tables bot (λ x. refl)
                there;
          stands = s;
          same_orders = refl;
        })

  abbrev pub total_with : FillReport A → OrderRow A → World A → A
  total_with report row w = add (sum_fills_for_order row.order_pk w.orders).0 report.qty

  pub total_stored :
      (report : FillReport A) (row : OrderRow A) (bot : BotRecord A) (w : World A)
      → (sum_fills_for_order row.order_pk (insert_fill (fill_row report row bot) w.orders)).0
        ≡ total_with report row w
  unfolding fill_row is_fill_of
  total_stored report row bot w =
      total-insert_fill row.order_pk (fill_row report row bot) w.orders
      ∙ rw (same_key row.order_pk) refl
    where
      same_key : (k : ℕ) → (k == k) ≡ true
      same_key k = ground arith

  -- The order's row after the fill.
  pub record Filled (report : FillReport A) (row : OrderRow A) (total : A) (full : Bool)
      (after : World A) : Type 0 where
    pub order : OrderRow A
    pub found : get_order_by_client_id report.client_order_id after.orders ≡ some order
    pub key : order.order_pk ≡ row.order_pk
    pub qty : order.order.qty ≡ row.order.qty
    pub owner : order.order.bot_id ≡ row.order.bot_id
    pub state : order.order.state ≡ (if full then filled else partially_filled)
    pub filled_qty : order.order.filled_qty ≡ total
    pub sum : (sum_fills_for_order row.order_pk after.orders).0 ≡ total

  pub stored_fill-Filled :
      (report : FillReport A) (amb : Ambient A) (row : OrderRow A) (bot : BotRecord A)
      (w after : World A)
      → get_order_by_client_id report.client_order_id w.orders ≡ some row
      → after.orders ≡ (stored_fill report amb row bot w).orders
      → Filled report row
          (sum_fills_for_order row.order_pk (insert_fill (fill_row report row bot) w.orders)).0
          (is_fully_filled
            (sum_fills_for_order row.order_pk (insert_fill (fill_row report row bot) w.orders)).0
            row.order.qty)
          after
  unfolding insert_fill get_order_by_client_id with_state update_order_state sum_fills_for_order
  stored_fill-Filled report amb row bot w after found e =
      let t = insert_fill (fill_row report row bot) w.orders in
      let (total, vwap, fee) = sum_fills_for_order row.order_pk t in
      let s = if is_fully_filled total row.order.qty then filled else partially_filled in
      rw e (record {
        order = with_state s (some total) (some vwap) none none amb.now_ms row;
        found =
            get-update_order_state report.client_order_id s (some total) (some vwap) none none
              amb.now_ms report.client_order_id t
            ∙ rw (found, get_order-id report.client_order_id w.orders row found) refl;
        key = refl;
        qty = refl;
        owner = refl;
        state = refl;
        filled_qty = refl;
        sum = refl;
      })

  pub buys :
      (report : FillReport A) (bot : BotRecord A) (amb : Ambient A) (total vwap : A) (full : Bool)
      (side : OrderSide) (w : World A)
      → side ≡ buy
      → move_bot report bot amb total vwap full side w
        ≡ enter_position report bot amb total vwap full w
  unfolding move_bot
  buys report bot amb total vwap full side w e = rw e refl
