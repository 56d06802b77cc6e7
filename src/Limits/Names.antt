-- ===== src/Limits/Names.antt =====
-- The table of limits of trading/risk/realtime/risk_limit.go under its calls: what the keys are.
use expert_octo_enigma.Prelude.{
  String, ◌≡◌, refl, true, some, List, [], ◌∷◌, arith, inl, inr, sym, ◌∙◌, All, eq_iff, Bool-cases,
  Option-cases,
}
use expert_octo_enigma.Table.{
  Table, lookup, insert, delete, has, Distinct, insert-Distinct, delete-Distinct,
}
use expert_octo_enigma.Float.{Float}
use expert_octo_enigma.Lock.{Method, Guarded, done, free, bind-done, ◌>>=◌, pure}
use expert_octo_enigma.Limits.{
  State, Limit, LimitConfig, limit_of, add_limit, update_limit, remove_limit, update_current_value,
  change_limit, adjusted, adjust_all, auto_adjust_thresholds, set_thresholds, add_limits,
  default_limits, new_risk_limit_manager,
}

-- A call that can change the table.
pub data Call (F : Type 0) : Type 0 where
  adds : LimitConfig F → Call F
  updates : String → F → F → Call F
  removes : String → Call F
  sets_value : String → F → Call F
  adjusts : Call F

module _ {F : Type 0} ⦃f : Float F⦄ where
  abbrev ignore : {A : Type 0} → Method (State F) A → Method (State F) (Unit {0})
  ignore m = m >>= λ _. pure tt

  unfoldable pub perform : Call F → Method (State F) (Unit {0})
  unfolding add_limit update_limit remove_limit update_current_value auto_adjust_thresholds
  perform (adds c) = ignore (add_limit c)
  perform (updates n w c) = ignore (update_limit n w c)
  perform (removes n) = ignore (remove_limit n)
  perform (sets_value n v) = ignore (update_current_value n v)
  perform adjusts = auto_adjust_thresholds

  -- Each limit stands once, under its own name.
  pub record IsValid (s : State F) : Type 0 where
    pub distinct : Distinct s.limits
    pub named : All (λ e. e.0 ≡ e.1.name) s.limits

  named-insert :
      (k : String) (l : Limit F) (t : Table (Limit F))
      → k ≡ l.name
      → All (λ e. e.0 ≡ e.1.name) t
      → All (λ e. e.0 ≡ e.1.name) (insert k l t)
  unfolding insert
  named-insert k l [] e a = (e, tt)
  named-insert k l ((j, m) ∷ t) e a = ground (arith, named-insert k l t e a.1, eq_iff j k)

  named-delete :
      (k : String) (t : Table (Limit F))
      → All (λ e. e.0 ≡ e.1.name) t
      → All (λ e. e.0 ≡ e.1.name) (delete k t)
  unfolding delete
  named-delete k [] a = tt
  named-delete k ((j, m) ∷ t) a = ground (arith, named-delete k t a.1)

  named-lookup :
      (k : String) (l : Limit F) (t : Table (Limit F))
      → All (λ e. e.0 ≡ e.1.name) t
      → lookup k t ≡ some l
      → k ≡ l.name
  unfolding lookup
  named-lookup k l [] a e = ground arith
  named-lookup k l ((j, m) ∷ t) a e = ground (arith, named-lookup k l t a.1, eq_iff j k)

  adjusted-name : (c : F) (l : Limit F) → (adjusted c l).name ≡ l.name
  unfolding adjusted
  adjusted-name c l = ground arith

  named-adjust :
      (c : F) (t : Table (Limit F))
      → All (λ e. e.0 ≡ e.1.name) t
      → All (λ e. e.0 ≡ e.1.name) (adjust_all c t)
  unfolding adjust_all
  named-adjust c [] a = tt
  named-adjust c ((k, l) ∷ t) a = ground (arith, named-adjust c t a.1, adjusted-name c l)

  has-adjust : (c : F) (k : String) (t : Table (Limit F)) → has k (adjust_all c t) ≡ has k t
  unfolding adjust_all has
  has-adjust c k [] = refl
  has-adjust c k ((j, l) ∷ t) = ground (arith, has-adjust c k t)

  adjust_all-Distinct : (c : F) (t : Table (Limit F)) → Distinct t → Distinct (adjust_all c t)
  unfolding adjust_all
  adjust_all-Distinct c [] d = tt
  adjust_all-Distinct c ((k, l) ∷ t) d =
      ground (arith, adjust_all-Distinct c t d.1, has-adjust c k t)

  limit_of-name : (c : LimitConfig F) → (limit_of c).name ≡ c.name
  unfolding limit_of
  limit_of-name c = refl

  changed :
      (n : String) (change : Limit F → Limit F) (keeps : (l : Limit F) → (change l).name ≡ l.name)
      (s : State F)
      → IsValid s
      → (t : State F) × (ignore (change_limit n change) (record { mu = free; inner = s })
          ≡ done (tt, record { mu = free; inner = t }))
        × IsValid t
  unfolding change_limit
  changed n change keeps s v = elim (Option-cases (lookup n s.limits)) [
    | inl e ↦ (s, ground (arith, e), v)
    | inr (l, e) ↦ (
      record s { limits = insert n (change l) s.limits },
      ground (arith, e),
      record {
        distinct = insert-Distinct n (change l) s.limits v.distinct;
        named =
            named-insert n (change l) s.limits (named-lookup n l s.limits v.named e ∙ sym (keeps l))
              v.named;
      },
    )
  ]

  -- Every call on a free lock returns and leaves the lock free; from a table in which each limit stands
  -- once and under its own name, it leads to such a table.
  pub perform-IsValid :
      (c : Call F) (s : State F)
      → IsValid s
      → (t : State F) × (perform c (record { mu = free; inner = s })
          ≡ done (tt, record { mu = free; inner = t }))
        × IsValid t
  unfolding perform add_limit change_limit remove_limit auto_adjust_thresholds
  perform-IsValid (adds c) s v = elim (Bool-cases (has c.name s.limits)) [
    | inl e ↦ (s, ground (arith, e), v)
    | inr e ↦ (
      record s { limits = insert c.name (limit_of c) s.limits },
      ground (arith, e),
      record {
        distinct = insert-Distinct c.name (limit_of c) s.limits v.distinct;
        named = named-insert c.name (limit_of c) s.limits (limit_of-name c) v.named;
      },
    )
  ]
  perform-IsValid (updates n w k) s v = changed n (set_thresholds w k) (λ l. refl) s v
  perform-IsValid (removes n) s v = elim (Bool-cases (has n s.limits)) [
    | inl e ↦ (
      record s { limits = delete n s.limits },
      ground (arith, e),
      record {
        distinct = delete-Distinct n s.limits v.distinct;
        named = named-delete n s.limits v.named;
      },
    )
    | inr e ↦ (s, ground (arith, e), v)
  ]
  perform-IsValid (sets_value n x) s v =
      changed n (λ l. record l { current_value = x }) (λ l. refl) s v
  perform-IsValid adjusts s v = elim (Bool-cases s.enable_auto_adjust) [
    | inl e ↦ (
      record s { limits = adjust_all s.adjust_factor s.limits },
      ground (arith, e),
      record {
        distinct = adjust_all-Distinct s.adjust_factor s.limits v.distinct;
        named = named-adjust s.adjust_factor s.limits v.named;
      },
    )
    | inr e ↦ (s, ground (arith, e), v)
  ]

  ignored-done :
      {A : Type 0} (m : Method (State F) A) (g : Guarded (State F)) {h : Guarded (State F)}
      → ignore m g ≡ done (tt, h)
      → (a : A) × (m g ≡ done (a, h))
  ignored-done m g e =
      let (r, e', d) = bind-done m (λ _. pure tt) g e in (r.0, ground (arith, e', d))

  add_limits-IsValid :
      (cs : List (LimitConfig F)) (s : State F)
      → IsValid s
      → (t : State F) × (add_limits cs (record { mu = free; inner = s })
          ≡ done (tt, record { mu = free; inner = t }))
        × IsValid t
  unfolding add_limits perform
  add_limits-IsValid [] s v = (s, refl, v)
  add_limits-IsValid (c ∷ cs) s v =
      let (u, e, w) = perform-IsValid (adds c) s v in
      let (a, e') = ignored-done (add_limit c) (record { mu = free; inner = s }) e in
      let (t, g, z) = add_limits-IsValid cs u w in (t, ground (arith, e', g), z)

  -- `NewRiskLimitManager` returns with the lock free, and in its table each limit stands once and under
  -- its own name.
  pub new_risk_limit_manager-IsValid :
      (t : State F) × (new_risk_limit_manager ≡ done (tt, record { mu = free; inner = t }))
      × IsValid t
  unfolding new_risk_limit_manager
  new_risk_limit_manager-IsValid =
      add_limits-IsValid default_limits
        (record { limits = []; enable_auto_adjust = true; adjust_factor = f.lit 1 1 })
        (record { distinct = tt; named = tt })
