-- ===== src/Routing.antt =====
-- trading/order/routing.go: the order router, its cache of quotes and the splitting of orders. The
-- answers of the market are an argument. A route returns the caller's order as it is afterwards,
-- since the best-price route writes to it, and the routed orders.
pub mod Splits
pub mod Caching
mod Tests
use expert_octo_enigma.Prelude.{
  ℕ, zero, suc, ◌+◌, String, Bool, true, false, not, ◌||◌, Option, none, some, List, [], ◌∷◌, ltb,
  ◌==◌, str_eq, if◌then◌else◌,
}
use mathlib.Core.Option
use expert_octo_enigma.Prelude.Int.{ℤ, pos, negsuc, pos_part, ◌-ℤ◌, ltb_ℤ}
use expert_octo_enigma.Table.{Table, lookup, insert}
use expert_octo_enigma.Float.{Float, nought}
use expert_octo_enigma.Orders.{Order, generate_order_id}

pub record Liquidity (F : Type 0) : Type 0 where
  pub symbol : String
  pub bid_price : F
  pub bid_volume : F
  pub ask_price : F
  pub ask_volume : F
  pub spread : F
  pub spread_pct : F
  pub timestamp : ℤ

pub record RouteConfig (F : Type 0) : Type 0 where
  pub strategy : String
  pub split_orders : Bool
  pub max_splits : ℤ
  pub min_split_size : F
  pub check_liquidity : Bool

pub record Router (F : Type 0) : Type 0 where
  pub config : RouteConfig F
  pub liquidity_cache : Table (Liquidity F)
  pub has_market_data : Bool

-- The caller's order afterwards, and the orders to place.
abbrev pub Routed : Type 0 → Type 0
Routed F = Order F × List (Order F)

abbrev pub is_zero : ℤ → Bool
is_zero (pos n) = n == 0
is_zero (negsuc n) = false

-- `i == n-1`, for an index of a loop over `n`.
abbrev pub is_last : ℤ → ℕ → Bool
is_last n i = suc i == pos_part n

module _ {F : Type 0} ⦃f : Float F⦄ where
  -- The defaults of a configuration: 5 splits of at least 100.
  with_defaults : RouteConfig F → RouteConfig F
  with_defaults c = record c {
    max_splits = if is_zero c.max_splits then pos 5 else c.max_splits;
    min_split_size = if f.eq c.min_split_size nought then f.lit 100 0 else c.min_split_size;
  }

  pub new_order_router : RouteConfig F → Bool → Router F
  unfolding with_defaults
  new_order_router c has_market_data = record {
    config = with_defaults c;
    liquidity_cache = [];
    has_market_data = has_market_data;
  }

  -- The other side of the book.
  abbrev pub available : Order F → Liquidity F → F
  available o l = if str_eq o.side "buy" then l.ask_volume else l.bid_volume

  abbrev pub best_price : Order F → Liquidity F → F
  best_price o l = if str_eq o.side "buy" then l.ask_price else l.bid_price

  abbrev direct : Order F → Routed F
  direct o = (o, o ∷ [])

  route_best_price : Order F → Liquidity F → Routed F
  route_best_price o l =
      if not (str_eq o.type "market")
      then direct o
      else direct (record o { price = best_price o l; type = "limit" })

  route_spread : Order F → Liquidity F → Routed F
  unfolding route_best_price
  route_spread o l = if f.lt (f.lit 2 2) l.spread_pct then direct o else route_best_price o l

  -- The quantity of part `i` of `n`: the last one takes what is left.
  unfoldable pub part_quantity : F → ℤ → F → ℕ → F
  part_quantity quantity n share i =
      if is_last n i then f.sub quantity (f.mul (f.of_int (n -ℤ pos 1)) share) else share

  -- `ids i` is the identifier of part `i`; the second number counts the parts left.
  unfoldable pub split_loop : (ℕ → String) → Order F → ℤ → F → ℕ → ℕ → List (Order F)
  split_loop ids o n share zero i = []
  split_loop ids o n share (suc left) i =
      let rest = split_loop ids o n share left (i + 1) in
      record o { id = ids i; parent_order_id = o.id; quantity = part_quantity o.quantity n share i }
      ∷ rest

  -- The number of parts, of which `ceil x` is `int(math.Ceil(x))`.
  pub split_count : (F → ℤ) → Router F → Order F → Liquidity F → ℤ
  split_count ceil r o l =
      let wanted = ceil (f.div o.quantity (available o l)) in
      if ltb_ℤ r.config.max_splits wanted then r.config.max_splits else wanted

  split_into : (ℕ → String) → Router F → Order F → ℤ → Routed F
  unfolding split_loop
  split_into ids r o n =
      let share = f.div o.quantity (f.of_int n) in
      if f.lt share r.config.min_split_size
      then direct o
      else (o, split_loop ids o n share (pos_part n) 0)

  pub route_liquidity : (F → ℤ) → (ℕ → String) → Router F → Order F → Liquidity F → Routed F
  route_liquidity ceil ids r o l =
      if not r.config.split_orders || f.le o.quantity (available o l)
      then direct o
      else split_into ids r o (split_count ceil r o l)

  -- The `switch` over the strategy.
  pub route_by : (F → ℤ) → (ℕ → String) → Router F → Order F → Liquidity F → Routed F
  route_by ceil ids r o l =
      if str_eq r.config.strategy "direct"
      then direct o
      else if str_eq r.config.strategy "best_bid" || str_eq r.config.strategy "best_ask"
      then route_best_price o l
      else if str_eq r.config.strategy "spread"
      then route_spread o l
      else if str_eq r.config.strategy "liquidity"
      then route_liquidity ceil ids r o l
      else direct o

module _ {F : Type 0} where
  -- An answer of the market is kept.
  keep_answer : String → Option (Liquidity F) → Router F → Option (Liquidity F) × Router F
  keep_answer symbol none r = (none, r)
  keep_answer symbol (some l) r =
      (some l, record r { liquidity_cache = insert symbol l r.liquidity_cache })

  -- The cache first, then the market.
  pub get_liquidity_info :
      (String → Option (Liquidity F)) → String → Router F → Option (Liquidity F) × Router F
  unfolding keep_answer
  get_liquidity_info market symbol r = elim (lookup symbol r.liquidity_cache) [
    | some l ↦ (some l, r)
    | none ↦ keep_answer symbol (if r.has_market_data then market symbol else none) r
  ]

  pub update_liquidity : Liquidity F → Router F → Router F
  update_liquidity l r = record r { liquidity_cache = insert l.symbol l r.liquidity_cache }

  pub clear_cache : Router F → Router F
  clear_cache r = record r { liquidity_cache = [] }

  pub get_liquidity : String → Router F → Option (Liquidity F)
  get_liquidity symbol r = lookup symbol r.liquidity_cache

module _ {F : Type 0} ⦃f : Float F⦄ where
  -- An order without a quote goes out as it is.
  route_with :
      (F → ℤ) → (ℕ → String) → Order F → Option (Liquidity F) × Router F → Routed F × Router F
  route_with ceil ids o (none, r) = (direct o, r)
  route_with ceil ids o (some l, r) = (route_by ceil ids r o l, r)

  pub route_order :
      (F → ℤ)
      → (ℕ → String)
      → (String → Option (Liquidity F))
      → Order F
      → Router F
      → Routed F × Router F
  unfolding get_liquidity_info route_with
  route_order ceil ids market o r = route_with ceil ids o (get_liquidity_info market o.symbol r)

  slippage : Order F → Liquidity F → F
  slippage o l =
      if f.le o.quantity (available o l)
      then nought
      else f.mul (f.div (f.sub o.quantity (available o l)) (available o l)) (f.lit 1 3)

  pub estimate_slippage : (String → Option (Liquidity F)) → Order F → Router F → Option F × Router F
  unfolding get_liquidity_info slippage
  estimate_slippage market o r =
      let (found, s) = get_liquidity_info market o.symbol r in (Option.map (slippage o) found, s)
