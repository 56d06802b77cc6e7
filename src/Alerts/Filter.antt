-- ===== src/Alerts/Filter.antt =====
-- Which alerts `Trigger` of trading/risk/realtime/alert_trigger.go sends.
use expert_octo_enigma.Prelude.{
  ℕ, ◌≤◌, String, ◌≡◌, refl, ◌⊎◌, ◌↔◌, Bool, true, not, ◌&&◌, none, some, List, [], ◌∷◌, map, ap,
  arith, any, keep, All, str_eq, eq_iff,
}
use expert_octo_enigma.Table.{Table}
use expert_octo_enigma.Alerts.{
  AlertConfig, AlertFilter, RateLimiter, RiskEvent, AlertTrigger, Senders, passes, match_filter,
  is_empty, check_rate_limit, send_alert, trigger_loop, trigger,
}

In : String → List String → Type 0
In x [] = ⊥
In x (y ∷ ys) = (x ≡ y) ⊎ In x ys

any-In : (x : String) (l : List String) → (any (λ y. str_eq x y) l ≡ true) ↔ In x l
unfolding In
any-In x [] = (λ e. ground arith, λ e. absurd e)
any-In x (y ∷ ys) =
    let ih = any-In x ys in
    (λ e. ground (arith, eq_iff x y, ih, e), λ e. ground (arith, eq_iff x y, ih, e))

is_empty_iff : (l : List String) → (is_empty l ≡ true) ↔ (l ≡ [])
is_empty_iff [] = (λ e. refl, λ e. refl)
is_empty_iff (x ∷ xs) = (λ e. cc, λ e. cc)

-- What a filter asks for: a level, and a type and a symbol out of its lists, of which an empty one asks
-- for nothing, as does an event without a symbol of the list of symbols.
pub Wanted : RiskEvent → AlertFilter → Type 0
Wanted event filter =
    (filter.min_level ≤ event.level)
    × ((filter.types ≡ []) ⊎ In event.type filter.types)
    × ((filter.symbols ≡ []) ⊎ (event.symbol ≡ "") ⊎ In event.symbol filter.symbols)

-- `matchFilter` lets an event pass a filter exactly if the event has the level, the type and the symbol
-- that the filter asks for.
pub match_filter_iff :
    (event : RiskEvent) (filter : AlertFilter)
    → (match_filter event (some filter) ≡ true) ↔ Wanted event filter
unfolding match_filter passes Wanted
match_filter_iff event filter =
    let t = any-In event.type filter.types in
    let u = is_empty_iff filter.types in
    let v = any-In event.symbol filter.symbols in
    let w = is_empty_iff filter.symbols in
    let z = eq_iff event.symbol "" in
    (
      λ e. (ground (arith, e), ground (arith, t, u, e), ground (arith, v, w, z, e)),
      λ e. ground (arith, e, t, u, v, w, z),
    )

abbrev wanted : RiskEvent → String × AlertConfig → Bool
wanted event e = e.1.enabled && match_filter event e.1.filter

sends :
    (senders : Senders) (now : ℕ) (event : RiskEvent) (configs : Table AlertConfig)
    (limiters : Table RateLimiter)
    → All (λ e. e.1.rate_limit ≡ none) configs
    → trigger_loop senders now event configs limiters
      ≡ (map (λ e. (e.0, send_alert senders e.1 event)) (keep (wanted event) configs), limiters)
unfolding trigger_loop check_rate_limit
sends senders now event [] limiters a = refl
sends senders now event ((name, config) ∷ rest) limiters a =
    ground (arith, a.0, sends senders now event rest limiters a.1)

any-map :
    (senders : Senders) (event : RiskEvent) (l : Table AlertConfig)
    → any {A = String × Bool} (λ s. not s.1) (map (λ e. (e.0, send_alert senders e.1 event)) l)
      ≡ any (λ e. not (send_alert senders e.1 event)) l
any-map senders event [] = refl
any-map senders event ((k, c) ∷ l) = ground (arith, any-map senders event l)

-- With no limit on the rate in any configuration, `Trigger` sends to the enabled configurations that the
-- event passes and to no others, each once and in the order of the visit; it succeeds exactly if every
-- one of these sends does, and it leaves the trigger as it was.
pub trigger_sends :
    (senders : Senders) (now : ℕ) (event : RiskEvent) (t : AlertTrigger)
    → All (λ e. e.1.rate_limit ≡ none) t.configs
    → ((trigger_loop senders now event t.configs t.rate_limiters).0
        ≡ map (λ e. (e.0, send_alert senders e.1 event)) (keep (wanted event) t.configs))
      × (trigger senders now event t ≡ (
        not (any (λ e. not (send_alert senders e.1 event)) (keep (wanted event) t.configs)),
        t,
      ))
unfolding trigger
trigger_sends senders now event t a =
    let s = sends senders now event t.configs t.rate_limiters a in
    (ap (λ x. x.0) s, rw (s, any-map senders event (keep (wanted event) t.configs)) refl)
