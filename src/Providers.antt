-- ===== src/Providers.antt =====
-- market/providers/manager.go: the manager of the data sources. A provider is a pointer (`id`) with its
-- name and its priority; what it answers is an argument. `mu` and `healthMu` are never held together
-- and each method returns them, so a method is one step. The health map changes between two steps only.
pub mod Primary
pub mod Fallback
mod Tests
use expert_octo_enigma.Prelude.{
  ℕ, String, Bool, true, false, not, ◌&&◌, ◌||◌, Option, none, some, List, [], ◌∷◌, ◌++◌, ◌==◌,
  if◌then◌else◌, str_eq,
}
use expert_octo_enigma.Prelude.Int.{ℤ, ltb_ℤ}
use expert_octo_enigma.Table.{Table, lookup, insert}

pub record DataProvider : Type 0 where
  pub id : ℕ
  pub name : String
  pub priority : ℤ

-- `stopped` once the channel of the health checks is closed.
pub record ProviderManager : Type 0 where
  pub providers : List DataProvider
  pub primary : Option DataProvider
  pub health : Table Bool
  pub stopped : Bool

unfoldable pub new_provider_manager : ProviderManager
new_provider_manager = record { providers = []; primary = none; health = []; stopped = false }

-- The condition under which a provider becomes the primary one.
abbrev pub outranks : DataProvider → Option DataProvider → Bool
outranks provider none = true
outranks provider (some p) = ltb_ℤ p.priority provider.priority

unfoldable pub add_provider : DataProvider → ProviderManager → ProviderManager
add_provider provider m = record m {
  providers = m.providers ++ provider ∷ [];
  health = insert provider.name true m.health;
  primary = if outranks provider m.primary then some provider else m.primary;
}

unfoldable pub named : String → List DataProvider → Option DataProvider
named name [] = none
named name (p ∷ ps) = let rest = named name ps in if str_eq p.name name then some p else rest

-- `false` for `ErrProviderNotFound`.
unfoldable pub set_primary_provider : String → ProviderManager → Bool × ProviderManager
unfolding named
set_primary_provider name m = elim (named name m.providers) [
  | none ↦ (false, m)
  | some p ↦ (true, record m { primary = some p })
]

abbrev or_false : Option Bool → Bool
or_false none = false
or_false (some b) = b

-- A name that is not in the map is not healthy.
unfoldable pub is_healthy : String → ProviderManager → Bool
is_healthy name m = or_false (lookup name m.health)

abbrev pub is_primary : DataProvider → Option DataProvider → Bool
is_primary p none = false
is_primary p (some q) = p.id == q.id

-- What a fetch gives, and the providers that it asked, in order.
pub record Fetched (A : Type 0) : Type 0 where
  pub answer : Option A
  pub asked : List DataProvider

module _ {A : Type 0} where
  abbrev pub first_of : DataProvider → Option A → Fetched A → Fetched A
  first_of p (some a) later = record { answer = some a; asked = p ∷ [] }
  first_of p none later = record { answer = later.answer; asked = p ∷ later.asked }

  -- The loop over the others; `ErrAllProvidersFailed` is `none`.
  unfoldable pub ask_fallbacks :
      (DataProvider → Option A) → ProviderManager → List DataProvider → Fetched A
  ask_fallbacks ask m [] = record { answer = none; asked = [] }
  ask_fallbacks ask m (p ∷ ps) =
      let later = ask_fallbacks ask m ps in
      if is_primary p m.primary
      then later
      else if is_healthy p.name m
      then first_of p (ask p) later
      else later

  -- The primary provider comes first, healthy or not.
  abbrev pub ask_first : (DataProvider → Option A) → Option DataProvider → Fetched A → Fetched A
  ask_first ask none later = later
  ask_first ask (some p) later = first_of p (ask p) later

  -- `FetchTick`, where `ask` is `none` for an error.
  unfoldable pub fetch_tick : (DataProvider → Option A) → ProviderManager → Fetched A
  unfolding ask_fallbacks
  fetch_tick ask m = let later = ask_fallbacks ask m m.providers in ask_first ask m.primary later

  abbrev pub unless_empty : Option (List A) → Option (List A)
  unless_empty none = none
  unless_empty (some []) = none
  unless_empty (some (x ∷ xs)) = some (x ∷ xs)

-- No lines at all are no answer.
unfoldable pub fetch_klines :
    {A : Type 0} → (DataProvider → Option (List A)) → ProviderManager → Fetched (List A)
unfolding fetch_tick
fetch_klines ask m = fetch_tick (λ p. unless_empty (ask p)) m

-- One round of a provider's monitor, with the result of its check.
unfoldable pub monitor_provider : DataProvider → Bool → ProviderManager → ProviderManager
monitor_provider p healthy m = record m { health = insert p.name healthy m.health }

-- Closing the channel again panics.
unfoldable pub stop_health_checks : ProviderManager → Option ProviderManager
stop_health_checks m = if m.stopped then none else some (record m { stopped = true })

unfoldable pub get_providers_status : ProviderManager → Table Bool
get_providers_status m = m.health

unfoldable pub get_primary_provider : ProviderManager → String
get_primary_provider m = elim m.primary [ none ↦ "" | some p ↦ p.name ]
