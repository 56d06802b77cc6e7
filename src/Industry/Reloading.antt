-- ===== src/Industry/Reloading.antt =====
-- The reloads at intervals of market/industry/cache.go.
use expert_octo_enigma.Prelude.{◌≡◌, true, false, arith, Bool-cases, inl, inr, ap}
use expert_octo_enigma.Lock.{done, crashed, done-injective}
use expert_octo_enigma.Industry.{Cache, start_auto_reload, stop_auto_reload}

-- When reloads at intervals were started and stopped, starting and stopping them again panics.
pub second_stop_panics :
    {F : Type 0} (c d : Cache F)
    → stop_auto_reload (start_auto_reload c) ≡ done d
    → stop_auto_reload (start_auto_reload d) ≡ crashed
unfolding stop_auto_reload start_auto_reload
second_stop_panics c d e = elim (Bool-cases c.stop_closed) [
  | inl b ↦ ground (arith, b, e)
  | inr b ↦
      let same =
        done-injective (record (start_auto_reload c) { stop_closed = true; auto_reload = false })
          {y = d} (ground (arith, b, e)) in
      ground (arith, ap (λ (x : Cache _). x.stop_closed) same)
]
