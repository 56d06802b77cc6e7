-- ===== src/Routing/Tests.antt =====
-- Runs of trading/order/routing.go and its theorems at concrete inputs. Floats are whole numbers.
use expert_octo_enigma.Prelude.{
  ℕ, ◌+◌, ◌≤◌, String, ◌≡◌, refl, ◌⊎◌, Bool, true, false, Option, none, some, List, [], ◌∷◌, map,
  arith, ◌==◌, if◌then◌else◌, length, All,
}
use expert_octo_enigma.Prelude.Int.{ℤ, pos}
use expert_octo_enigma.Float.Whole.{Whole, whole}
use expert_octo_enigma.Orders.{Order}
use expert_octo_enigma.Routing.{
  Liquidity, RouteConfig, Router, new_order_router, split_count, route_liquidity, route_by,
  route_order, update_liquidity, get_liquidity,
}
use expert_octo_enigma.Routing.Splits.{IsPart, route_order-IsPart}
use expert_octo_enigma.Routing.Caching.{Call, routes, estimates, updates}

abbrev big_order : Order Whole
big_order = record {
  id = "a";
  symbol = "600000";
  side = "buy";
  type = "limit";
  quantity = some 1200;
  price = some 10;
  stop_price = some 0;
  status = "";
  filled_quantity = some 0;
  avg_price = some 0;
  create_time = 0;
  update_time = 0;
  submit_time = 0;
  fill_time = 0;
  error_message = "";
  parent_order_id = "";
  child_orders = [];
  metadata = [];
}

abbrev quote : String → ℕ → Liquidity Whole
quote symbol volume = record {
  symbol = symbol;
  bid_price = some 9;
  bid_volume = some volume;
  ask_price = some 10;
  ask_volume = some volume;
  spread = some 1;
  spread_pct = some 0;
  timestamp = pos 0;
}

abbrev splitting : RouteConfig Whole
splitting = record {
  strategy = "liquidity";
  split_orders = true;
  max_splits = pos 4;
  min_split_size = some 100;
  check_liquidity = false;
}

abbrev router : Router Whole
router = record { config = splitting; liquidity_cache = []; has_market_data = true }

-- A conversion that is right on the whole numbers; every quotient here is rounded down already.
abbrev ceiling : Whole → ℤ
ceiling none = pos 0
ceiling (some n) = pos n

abbrev numbered : ℕ → String
numbered n = if n == 0 then "ord_0" else "ord_1"

abbrev market : ℕ → String → Option (Liquidity Whole)
market volume symbol = some (quote symbol volume)

-- A tenth of the order at a time would be 12 parts of 100; the limit makes it 4 of 300.
split_runs :
    map (λ o. o.quantity) (route_order ceiling numbered (market 100) big_order router).0.1
    ≡ some 300 ∷ some 300 ∷ some 300 ∷ some 300 ∷ []
unfolding route_order route_by route_liquidity split_count expert_octo_enigma.Table.lookup
    expert_octo_enigma.Routing.split_into expert_octo_enigma.Routing.part_quantity
    expert_octo_enigma.Prelude.Int.◌-ℤ◌
split_runs = refl

defaults_run :
    (new_order_router
      (record splitting { max_splits = pos 0; min_split_size = some 0 })
      true).config.max_splits
    ≡ pos 5
unfolding new_order_router
defaults_run = refl

route_order-IsPart_example :
    let (after, orders) = (route_order ceiling numbered (market 100) big_order router).0 in
    (orders ≡ after ∷ []) ⊎ (All (IsPart numbered after) orders × (length orders ≤ 4))
route_order-IsPart_example =
    route_order-IsPart numbered ceiling (market 100) big_order router 4 refl

abbrev cached : Router Whole
cached = record router { liquidity_cache = ("600000", quote "600000" 2000) ∷ [] }

abbrev later : List (Call Whole)
later =
    routes (market 5) big_order ∷ updates (quote "000001" 7) ∷ estimates (market 6) big_order ∷ []
