-- ===== src/Cluster/Runner/Ahead/Sending.antt =====
-- To store an order gives the permission to send it.
use Prim.Native.String.{String}
use text.Mathlib.TextEquality.{eq_iff}
use generik_dbhistogram_data.Base.{ℕ, ◌≡◌, refl, ◌∙◌, Option, none, some, List, [], ◌∷◌, ◌++◌}
use generik_dbhistogram_data.Base.Lists.{All, All-append, All-map}
use generik_dbhistogram_data.Cluster.Orders.{
  OrderRecord, OrderTables, insert_order, get_order_by_client_id,
}
use generik_dbhistogram_data.Cluster.Orders.Lookup.{get-insert_order}
use generik_dbhistogram_data.Cluster.Exec.{client_error, modify, raise, gets, ◌>>=◌}
use generik_dbhistogram_data.Cluster.Exec.Keeps.{
  Meets, Keeps, Keeps-or_raise, Meets-bind, Meets-modify, Meets-weaken, Post,
}
use generik_dbhistogram_data.Cluster.World.{
  World, ExchangeRequest, limit_order, cancel, PlaceOrderResult, stored, add_order, ask, Step,
}
use generik_dbhistogram_data.Cluster.Runner.Ahead.{
  Ahead, Differs, AllDiffer, taken_id, IsStored, IsStored-insert_order,
}
use generik_dbhistogram_data.Base.Float.{Float}
use generik_dbhistogram_data.Cluster.Runner.Entry.{submit_entry}
use generik_dbhistogram_data.Cluster.Runner.Exit.{submit_exit}
use generik_dbhistogram_data.Cluster.Runner.Manual.{submit_manual}
use generik_dbhistogram_data.Cluster.Runner.Keeps.{KeepsSteps}
use generik_dbhistogram_data.Cluster.Models.{buy, sell}
use generik_dbhistogram_data.Cluster.Bots.{BotRecord}
use generik_dbhistogram_data.Cluster.Runner.{RunnerConfig, pending_order}
use generik_dbhistogram_data.Cluster.World.{Ambient}
use generik_dbhistogram_data.Cluster.Runner.Ahead.{
  set_bot-Ahead, emit-Ahead, log_api_call-Ahead, set_order-Ahead, add_fill-Ahead,
  record_weight-Ahead, wait_budget-Ahead, transition_bot-Ahead,
}

module _ {A : Type 0} where
  -- The request that an order is sent with.
  abbrev pub request_of : OrderRecord A → ExchangeRequest A
  request_of o = limit_order o.symbol o.side o.price o.qty o.client_order_id

  new_id :
      (o : OrderRecord A) (t : OrderTables A)
      → get_order_by_client_id o.client_order_id t ≡ none
      → (s : ExchangeRequest A) → IsStored t s
      → Differs s (request_of o)
  new_id o t free (cancel symbol id) h = tt
  new_id o t free (limit_order symbol side price qty id) h = λ same. let found = h.1 in cc

  one_more :
      (rs : List (ExchangeRequest A)) (r : ExchangeRequest A)
      → AllDiffer rs
      → All (λ s. Differs s r) rs
      → AllDiffer (rs ++ r ∷ [])
  one_more [] r h k = (tt, tt)
  one_more (s ∷ rs) r h k = (All-append _ rs (r ∷ []) h.0 (k.0, tt), one_more rs r h.1 k.1)

  -- A stored order may be sent.
  pub add_order-Ahead :
      (o : OrderRecord A)
      → Meets (Ahead []) (add_order o) (λ _. Ahead (request_of o ∷ [])) (Ahead [])
  unfolding add_order stored ◌>>=◌ gets raise modify Ahead
  add_order-Ahead o = record { meets = λ w h. after w h (insert_order o w.orders) refl }
    where
      after :
          (w : World A)
          → Ahead [] w
          → (r : Option (OrderTables A × ℕ)) → insert_order o w.orders ≡ r
          → Post (λ _. Ahead (request_of o ∷ [])) (Ahead []) (stored r w)
      after w h none e = h
      after w h (some (t, pk)) e = (
        (
          (
            (
              record { order_pk = pk; order = o },
              get-insert_order o w.orders t pk o.client_order_id e
                  ∙ rw ((eq_iff o.client_order_id o.client_order_id).1 refl) refl,
              refl,
              refl,
              refl,
              refl,
            ),
            All-map _ (new_id o w.orders (taken_id o w.orders t pk e)) w.sent h.1,
          ),
          tt,
        ),
        All-map _ (IsStored-insert_order o w.orders t pk e) w.sent h.1,
        h.2,
      )

  -- Sending uses up the permission.
  pub ask-Ahead :
      (r : ExchangeRequest A) (answer : Option (PlaceOrderResult A))
      → Meets (Ahead (r ∷ [])) (ask r answer) (λ _. Ahead []) (Ahead [])
  unfolding ask Ahead
  ask-Ahead r answer = Meets-bind _ _ sending (λ _. Keeps-or_raise client_error answer)
    where
      sending :
          Meets
            (Ahead (r ∷ []))
            (modify λ (w : World A). record w { sent = w.sent ++ r ∷ [] })
            (λ _. Ahead [])
            (Ahead [])
      sending =
          Meets-modify _ λ w h.
            (tt, All-append _ w.sent (r ∷ []) h.1 (h.0.0.0, tt), one_more w.sent r h.2 h.0.0.1)

  no_id :
      (symbol id : String) (rs : List (ExchangeRequest A))
      → All (λ s. Differs s (cancel symbol id)) rs
  no_id symbol id [] = tt
  no_id symbol id (limit_order _ _ _ _ _ ∷ rs) = (tt, no_id symbol id rs)
  no_id symbol id (cancel _ _ ∷ rs) = (tt, no_id symbol id rs)

  -- A cancellation needs none.
  pub cancel-Ahead :
      (symbol id : String) (answer : Option (PlaceOrderResult A))
      → Keeps (Ahead []) (ask (cancel symbol id) answer)
  unfolding Ahead
  cancel-Ahead symbol id answer = record {
    meets = λ w h.
        (ask-Ahead (cancel symbol id) answer).meets w
          (((tt, no_id symbol id w.sent), tt), h.1, h.2);
  }

  -- A step between the storing and the sending of an order.
  pub between :
      {B : Type 0} (rs : List (ExchangeRequest A)) (m : Step A B)
      → Keeps (Ahead rs) m
      → Meets (Ahead rs) m (λ _. Ahead rs) (Ahead [])
  unfolding Ahead
  between rs m h = Meets-weaken m h λ w k. (tt, k.1, k.2)

module _ {A : Type 0} ⦃F : Float A⦄ where
  submit_entry-Ahead :
      (config : RunnerConfig) (amb : Ambient A) (bot : BotRecord A) (price qty : A)
      → Keeps (Ahead []) (submit_entry config amb bot price qty)
  unfolding submit_entry pending_order
  submit_entry-Ahead config amb bot price qty =
      Meets-bind _ _ (add_order-Ahead (pending_order bot buy price qty amb)) λ _.
        Meets-bind _ _ (between _ _ (transition_bot-Ahead _ bot _ _ _)) λ _. ask-Ahead _ amb.placed

  submit_exit-Ahead :
      (amb : Ambient A) (bot : BotRecord A) (price qty : A)
      → Keeps (Ahead []) (submit_exit amb bot price qty)
  unfolding submit_exit pending_order
  submit_exit-Ahead amb bot price qty =
      Meets-bind _ _ (add_order-Ahead (pending_order bot sell price qty amb))
        λ _. ask-Ahead _ amb.placed

  submit_manual-Ahead :
      (amb : Ambient A) (bot : BotRecord A) (target qty : A)
      → Keeps (Ahead []) (submit_manual amb bot target qty)
  unfolding submit_manual pending_order
  submit_manual-Ahead amb bot target qty =
      Meets-bind _ _ (add_order-Ahead (pending_order bot sell target qty amb))
        λ _. Meets-bind _ _ (between _ _ (wait_budget-Ahead _ amb 2 1)) λ _. ask-Ahead _ amb.placed

  pub Ahead-steps : KeepsSteps F (Ahead [])
  Ahead-steps = record {
    sets_bot = λ id f _ _. set_bot-Ahead [] id f;
    emits = emit-Ahead [];
    logs_call = log_api_call-Ahead [];
    sets_order = set_order-Ahead [];
    adds_fill = add_fill-Ahead [];
    records = record_weight-Ahead [];
    waits = wait_budget-Ahead [];
    transitions = transition_bot-Ahead [];
    cancels = cancel-Ahead;
    submits_entry = submit_entry-Ahead;
    submits_exit = submit_exit-Ahead;
    submits_manual = submit_manual-Ahead;
  }
