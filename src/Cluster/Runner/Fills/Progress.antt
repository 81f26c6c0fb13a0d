-- ===== src/Cluster/Runner/Fills/Progress.antt =====
-- How the fills of an entry order move its bot: an abstract counter of what is filled, which
-- `on_fill` follows.
use Prim.Native.String.{String}
use generik_dbhistogram_data.Base.{
  ℕ, ◌≡◌, refl, ◌∙◌, ap, sym, subst, ◌⊎◌, Bool, true, false, some, List, [], ◌∷◌, map,
  if◌then◌else◌, inr,
}
use generik_dbhistogram_data.Base.Lists.{All}
use generik_dbhistogram_data.Base.Float.{Float, add, mul, lit, le}
use generik_dbhistogram_data.Cluster.Models.{BotState, awaiting_entry_fill, in_position, buy}
use generik_dbhistogram_data.Cluster.Orders.{
  OrderRow, get_order_by_client_id, sum_fills_for_order, insert_fill,
}
use generik_dbhistogram_data.Cluster.Bots.{BotRecord, get_bot}
use generik_dbhistogram_data.Cluster.Bots.Lookup.{get_bot-id}
use generik_dbhistogram_data.Cluster.World.{World, Ambient}
use generik_dbhistogram_data.Cluster.Runner.Fills.{
  FillReport, fill_row, is_fully_filled, enter_position, on_fill,
}
use generik_dbhistogram_data.Cluster.Runner.Fills.Effects.{
  stored_fill, on_fill_matched, Entered, enter_position-Entered, total_stored, Filled,
  stored_fill-Filled, buys,
}

-- What is filled of an entry order, and where its bot stands.
pub record Progress (A : Type 0) : Type 0 where
  pub total : A
  pub state : BotState

still_buying :
    {s : BotState} (full : Bool)
    → (s ≡ awaiting_entry_fill) ⊎ (s ≡ in_position)
    → ((if full then in_position else s) ≡ awaiting_entry_fill)
      ⊎ ((if full then in_position else s) ≡ in_position)
still_buying true h = inr refl
still_buying false h = h

module _ {A : Type 0} ⦃F : Float A⦄ where
  -- A fill adds its amount; the bot enters its position once 99.5 percent are filled.
  unfoldable pub advance : A → A → Progress A → Progress A
  advance order_qty qty p =
      let total = add p.total qty in
      record {
        total = total;
        state = if le (mul order_qty (lit 995 3)) total then in_position else p.state;
      }

  unfoldable pub advance_all : A → List (FillReport A) → Progress A → Progress A
  unfolding advance
  advance_all order_qty [] p = p
  advance_all order_qty (f ∷ fs) p = advance_all order_qty fs (advance order_qty f.qty p)

  unfoldable pub on_fills : List (FillReport A × Ambient A) → World A → World A
  on_fills [] w = w
  on_fills ((f, amb) ∷ fs) w = on_fills fs (on_fill f amb w).0

  -- The order of the client id `id` is there with its key, amount and bot; its fills sum up to the
  -- progress, and its bot stands where the progress says.
  pub record Follows (id : String) (pk : ℕ) (order_qty : A) (bot_id : ℕ) (w : World A)
      (p : Progress A) : Type 0 where
    pub order : OrderRow A
    pub found : get_order_by_client_id id w.orders ≡ some order
    pub key : order.order_pk ≡ pk
    pub qty : order.order.qty ≡ order_qty
    pub owner : order.order.bot_id ≡ bot_id
    pub bot : BotRecord A
    pub there : get_bot bot_id w.tables ≡ some bot
    pub stands : bot.state ≡ p.state
    pub sum : (sum_fills_for_order pk w.orders).0 ≡ p.total
    pub buying : (p.state ≡ awaiting_entry_fill) ⊎ (p.state ≡ in_position)

  -- One fill of the order, a purchase, advances the progress.
  on_fill-Follows :
      (id : String) (pk : ℕ) (order_qty : A) (bot_id : ℕ) (report : FillReport A) (amb : Ambient A)
      (w : World A) (p : Progress A)
      → report.client_order_id ≡ id
      → report.side ≡ buy
      → Follows id pk order_qty bot_id w p
      → Follows id pk order_qty bot_id (on_fill report amb w).0 (advance order_qty report.qty p)
  unfolding advance is_fully_filled
  on_fill-Follows id pk order_qty bot_id report amb w p is_id is_buy h =
      subst (λ v. Follows id pk order_qty bot_id v (advance order_qty report.qty p)) (sym ends)
        (record {
          order = filled_by.order;
          found =
              subst (λ i. get_order_by_client_id i w2.orders ≡ some filled_by.order) is_id
                filled_by.found;
          key = filled_by.key ∙ h.key;
          qty = filled_by.qty ∙ h.qty;
          owner = filled_by.owner ∙ h.owner;
          bot = entered_by.entered;
          there =
              subst (λ i. get_bot i w2.tables ≡ some entered_by.entered)
                (get_bot-id bot_id w.tables h.bot h.there) entered_by.there;
          stands = entered_by.stands ∙ rw (total, h.qty, h.stands) refl;
          sum =
              subst (λ k. (sum_fills_for_order k w2.orders).0 ≡ sums.0) h.key filled_by.sum ∙ total;
          buying = still_buying (is_fully_filled (add p.total report.qty) order_qty) h.buying;
        })
    where
      found : get_order_by_client_id report.client_order_id w.orders ≡ some h.order
      found = rw is_id h.found

      there : get_bot h.order.order.bot_id w.tables ≡ some h.bot
      there = rw h.owner h.there

      w1 : World A
      w1 = stored_fill report amb h.order h.bot w

      sums : A × A × A
      sums =
          sum_fills_for_order h.order.order_pk
            (insert_fill (fill_row report h.order h.bot) w.orders)

      full : Bool
      full = is_fully_filled sums.0 h.order.order.qty

      entered_by :
          Entered report h.bot sums.0 full w1
            (enter_position report h.bot amb sums.0 sums.1 full w1).0
      entered_by =
          enter_position-Entered report h.bot amb sums.0 sums.1 full w1 (rw h.stands h.buying) (
            subst (λ i. get_bot i w.tables ≡ some h.bot)
              (sym (get_bot-id bot_id w.tables h.bot h.there)) h.there)

      w2 : World A
      w2 = (enter_position report h.bot amb sums.0 sums.1 full w1).0

      filled_by : Filled report h.order sums.0 full w2
      filled_by = stored_fill-Filled report amb h.order h.bot w w2 found entered_by.same_orders

      ends : (on_fill report amb w).0 ≡ w2
      ends =
          ap (λ r. r.0)
            (on_fill_matched report amb h.order h.bot w found there
              ∙ buys report h.bot amb sums.0 sums.1 full report.side w1 is_buy)

      total : sums.0 ≡ add p.total report.qty
      total = total_stored report h.order h.bot w ∙ rw (h.key, h.sum) refl

  -- Purchases of one order, whose bot awaits its entry or has entered: in whatever portions the fills
  -- come in, the order's total, the bot and its state follow the abstract counter, in which the bot
  -- enters its position with the first fill that brings the total to 99.5 percent of the order's
  -- amount, and stays in it.
  pub on_fills-Follows :
      (id : String) (pk : ℕ) (order_qty : A) (bot_id : ℕ) (fs : List (FillReport A × Ambient A))
      (w : World A) (p : Progress A)
      → All (λ f. (f.0.client_order_id ≡ id) × (f.0.side ≡ buy)) fs
      → Follows id pk order_qty bot_id w p
      → Follows id pk order_qty bot_id (on_fills fs w) (advance_all order_qty (map (λ f. f.0) fs) p)
  unfolding on_fills advance_all
  on_fills-Follows id pk order_qty bot_id [] w p all h = h
  on_fills-Follows id pk order_qty bot_id ((f, amb) ∷ fs) w p all h =
      on_fills-Follows id pk order_qty bot_id fs (on_fill f amb w).0 (advance order_qty f.qty p)
        all.1 (on_fill-Follows id pk order_qty bot_id f amb w p all.0.0 all.0.1 h)
