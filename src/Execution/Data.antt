-- ===== src/Execution/Data.antt =====
-- The types of trading/order/execution.go, and the engine's maps.
use expert_octo_enigma.Prelude.{
  ℕ, String, Bool, true, false, Option, none, some, List, [], ◌∷◌, ◌++◌, if◌then◌else◌,
}
use expert_octo_enigma.Prelude.Int.{ℤ, pos}
use expert_octo_enigma.Table.{Table, lookup, insert}
use expert_octo_enigma.Orders.{Order, Manager, SubmitResult, queued, Ready}
use expert_octo_enigma.Routing.{Liquidity, is_zero}

pub record Config (F : Type 0) : Type 0 where
  pub type : String
  pub duration : ℤ
  pub slice_count : ℤ
  pub participation : F
  pub min_slice_size : F

-- `-1` slices in total means that their number is not known.
pub record Slice (F : Type 0) : Type 0 where
  pub order_id : String
  pub slice_index : ℕ
  pub total_slices : ℤ
  pub quantity : F
  pub price : F
  pub status : String
  pub execute_time : ℕ

pub record Engine (F : Type 0) : Type 0 where
  pub orders : Table (Order F)
  pub slices : Table (List (Slice F))
  pub manager : Manager F
  pub has_market_data : Bool

-- What round `i` meets: whether the context has ended; the answers of the market; a place for the
-- slice's order; the readings of the clock; how its submission ends; and what the rest of the program
-- does to the order manager while the submission waits and during the sleep.
pub record Round (F : Type 0) : Type 0 where
  pub cancelled : Bool
  pub quote : Option (Liquidity F)
  pub next_quote : Option (Liquidity F)
  pub pointer : ℕ
  pub nanos : ℕ
  pub now : ℕ
  pub ready : Ready
  pub wait : Manager F → Manager F
  pub meanwhile : Manager F → Manager F

pub data Ending : Type 0 where
  finished context_ended unsupported crashed running : Ending
  refused : SubmitResult → Ending

abbrev pub new_execution_engine : {F : Type 0} → Manager F → Bool → Engine F
new_execution_engine m has_market_data = record {
  orders = [];
  slices = [];
  manager = m;
  has_market_data = has_market_data;
}

-- What the loop of POV does in a round: wait, end in a nil quote, or place a slice of a quantity at a
-- price.
pub data PovStep (F : Type 0) : Type 0 where
  waits nil_quote : PovStep F
  places : F → F → PovStep F

abbrev pub or_nothing : {A : Type 0} → Option (List A) → List A
or_nothing none = []
or_nothing (some xs) = xs

abbrev pub is_queued : SubmitResult → Bool
is_queued (queued id) = true
is_queued _ = false

-- A count of 0 is a default.
abbrev pub count_or : ℕ → ℤ → ℤ
count_or default n = if is_zero n then pos default else n

module _ {F : Type 0} where
  -- `e.slices[id]`, nil without an entry.
  abbrev pub slices_of : String → Engine F → List (Slice F)
  slices_of id e = or_nothing (lookup id e.slices)

  -- The pointer to the slice is the last in its list.
  abbrev pub mark_last : String → List (Slice F) → List (Slice F)
  mark_last status [] = []
  mark_last status (s ∷ []) = record s { status = status } ∷ []
  mark_last status (s ∷ t ∷ rest) = s ∷ mark_last status (t ∷ rest)

  abbrev pub get_liquidity : Engine F → Option (Liquidity F) → Option (Liquidity F)
  get_liquidity e answer = if e.has_market_data then answer else none

  abbrev pub store_parent : Order F → Engine F → Engine F
  store_parent o e = record e { orders = insert o.id o e.orders }

  -- `e.slices[order.ID] = append(…)`, and `slice.Status = …`.
  abbrev pub record_slice : Slice F → Engine F → Engine F
  record_slice s e = record e {
    slices = insert s.order_id (slices_of s.order_id e ++ s ∷ []) e.slices;
  }

  abbrev pub mark_slice : String → String → Engine F → Engine F
  mark_slice id status e = record e {
    slices = insert id (mark_last status (slices_of id e)) e.slices;
  }
