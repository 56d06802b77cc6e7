-- ===== src/Replay/Data.antt =====
-- The types of monitoring/replay_engine.go.
use expert_octo_enigma.Prelude.{ℕ, String, Bool, Option, List}
use expert_octo_enigma.Prelude.Int.{ℤ}
use expert_octo_enigma.Table.{Table}

-- ReplayStatus
abbrev pub playing : String
playing = "playing"

abbrev pub paused : String
paused = "paused"

abbrev pub stopped : String
stopped = "stopped"

pub record Signal (F : Type 0) : Type 0 where
  pub timestamp : ℕ
  pub type : String
  pub price : F
  pub quantity : ℤ
  pub strategy : String
  pub reason : String

-- The data of an event are a signal or a speed; the message is left out.
pub record Event (F : Type 0) : Type 0 where
  pub timestamp : ℕ
  pub type : String
  pub signal : Option (Signal F)
  pub speed : Option F

pub record Point (F : Type 0) : Type 0 where
  pub timestamp : ℕ
  pub open_price : F
  pub high : F
  pub low : F
  pub close : F
  pub volume : ℤ
  pub signals : List (Signal F)

pub record Session (F : Type 0) : Type 0 where
  pub id : String
  pub symbol : String
  pub start_date : ℕ
  pub end_date : ℕ
  pub speed : F
  pub status : String
  pub current_time : ℕ
  pub progress : F
  pub signals : List (Signal F)
  pub events : List (Event F)
  pub current_index : ℕ
  pub total_data : ℕ

-- Where the goroutine of a session stands: before it has its ticker; before its `select`; blocked in
-- the `select`, with the channel that it read from the map; or gone.
pub data Phase : Type 0 where
  starting entering exited : Phase
  selecting : Option ℕ → Phase

pub record Player (F : Type 0) : Type 0 where
  pub points : List (Point F)
  pub phase : Phase

pub record Engine (F : Type 0) : Type 0 where
  pub heap : ℕ → Session F
  pub sessions : Table ℕ
  pub stop_chan : Table ℕ
  pub closed : ℕ → Bool
  pub players : ℕ → Player F
  pub next : ℕ

-- The case that the `select` takes, if it is ready.
pub data Choice : Type 0 where
  on_tick : ℕ → Choice
  on_stop : Choice

pub data Error : Type 0 where
  fetch_failed no_data no_session not_playing not_paused invalid_speed : Error
