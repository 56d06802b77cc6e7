-- ===== src/Scheduler/Rounds.antt =====
-- Consecutive cycles of trading/scheduler/scheduler.go: the order in which they visit the symbols.
use expert_octo_enigma.Prelude.{
  ℕ, suc, ◌+◌, ◌*◌, ◌/◌, ◌%◌, String, ◌≡◌, ◌≢◌, refl, false, Option, some, List, [], ◌∷◌, ◌++◌, map,
  ap, ◌∙◌, arith, length, get_elem?, All, length-append, append-cons,
}
use native.Mathlib.Nat.{div-add-mod', add-mod_right, mul-add-mod_self_right, mod-eq_of_lt}
use expert_octo_enigma.Lock.{Method, free, done, ◌>>=◌, pure}
use expert_octo_enigma.Scheduler.{State, Error, current_symbol, is_empty}
use expert_octo_enigma.Scheduler.Cycle.{
  Strategies, execute_cycle, execute_cycle_returns, after_cycle, visit, name_of, cycle_at,
}

-- One cycle at each clock.
pub cycles : Strategies → List ℕ → Method State (List (Option (String × Option Error)))
cycles strategies [] = pure []
cycles strategies (now ∷ nows) =
    let rest = cycles strategies nows in
    execute_cycle strategies now >>= λ v. rest >>= λ vs. pure (v ∷ vs)

get_elem?-prefix :
    (pre post : List String) (x : String) → get_elem? (pre ++ (x ∷ post)) (length pre) ≡ some x
get_elem?-prefix [] post x = refl
get_elem?-prefix (y ∷ pre) post x = get_elem?-prefix pre post x

is_empty-append : (pre post : List String) (x : String) → is_empty (pre ++ (x ∷ post)) ≡ false
is_empty-append [] post x = refl
is_empty-append (y ∷ pre) post x = refl

-- The symbol that the index points at.
current_symbol-at :
    (q : ℕ) (pre post : List String) (x : String) (s : State)
    → s.symbols ≡ pre ++ (x ∷ post)
    → s.current_symbol_index ≡ q * length s.symbols + length pre
    → current_symbol s ≡ x
unfolding current_symbol
current_symbol-at q pre post x s e i =
    let n : length s.symbols ≡ length pre + suc (length post) =
      ap length e ∙ length-append pre (x ∷ post) in
    let m : s.current_symbol_index % length s.symbols ≡ length pre =
      ap (λ k. k % length s.symbols) i
      ∙ mul-add-mod_self_right q (length s.symbols) (length pre)
      ∙ mod-eq_of_lt {n = length pre} {m = length s.symbols} (omega (arith, n)) in
    let g = get_elem?-prefix pre post x in
    let ne : is_empty (pre ++ (x ∷ post)) ≡ false = is_empty-append pre post x in rw (m, e, ne, g)

next_index :
    (q n k : ℕ) (pre : List String) (x : String)
    → k ≡ n
    → q * n + length pre + 1 ≡ q * k + length (pre ++ (x ∷ []))
next_index q n k pre x z = rw (z, length-append pre (x ∷ [])) omega arith

cycles-cons :
    (strategies : Strategies) (now : ℕ) (nows : List ℕ) (s : State)
    (vs : List (Option (String × Option Error))) (t : State)
    → cycles strategies nows (record { mu = free; inner = after_cycle now s })
      ≡ done (vs, record { mu = free; inner = t })
    → cycles strategies (now ∷ nows) (record { mu = free; inner = s })
      ≡ done (visit strategies now s ∷ vs, record { mu = free; inner = t })
unfolding cycles
cycles-cons strategies now nows s vs t r = ground (arith, execute_cycle_returns strategies now s, r)

pub walk :
    (strategies : Strategies) (q : ℕ) (post pre : List String) (nows : List ℕ) (s : State)
    → s.symbols ≡ pre ++ post
    → s.current_symbol_index ≡ q * length s.symbols + length pre
    → length nows ≡ length post
    → All (λ x. x ≢ "") post
    → (vs : List (Option (String × Option Error))) × (t : State) × (cycles strategies nows
          (record { mu = free; inner = s })
        ≡ done (vs, record { mu = free; inner = t }))
      × (map name_of vs ≡ map some post)
      × (t.current_symbol_index ≡ s.current_symbol_index + length nows)
      × (t.execution_count ≡ s.execution_count + length nows)
      × (t.symbols ≡ s.symbols)
unfolding cycles
walk strategies q [] pre [] s e i l a = ([], s, refl, refl, omega arith, omega arith, refl)
walk strategies q [] pre (now ∷ nows) s e i l a = absurd (omega arith)
walk strategies q (x ∷ post) pre [] s e i l a = absurd (omega arith)
walk strategies q (x ∷ post) pre (now ∷ nows) s e i l a =
    let u = after_cycle now s in
    let (v, j, c, m) = cycle_at strategies now x s (current_symbol-at q pre post x s e i) a.0 in
    let (vs, t, r, names, j', c', m') =
      walk strategies q post (pre ++ (x ∷ [])) nows u (m ∙ e ∙ append-cons pre post x)
        (j
          ∙ ap (λ k. k + 1) i
          ∙ next_index q (length s.symbols) (length u.symbols) pre x (ap length m))
        (omega arith) a.1 in
    (
      visit strategies now s ∷ vs,
      t,
      cycles-cons strategies now nows s vs t r,
      rw (v, names),
      omega (arith, j, j'),
      omega (arith, c, c'),
      m' ∙ m,
    )

-- With names that are all non-empty and an index at the start of the list (a multiple of its
-- length), as many cycles as there are symbols all return, visit the symbols one after another in the
-- order of the list, count one execution each, and end with the index at the start again.
pub one_round :
    (strategies : Strategies) (nows : List ℕ) (s : State)
    → s.current_symbol_index % length s.symbols ≡ 0
    → length nows ≡ length s.symbols
    → All (λ x. x ≢ "") s.symbols
    → (vs : List (Option (String × Option Error))) × (t : State) × (cycles strategies nows
          (record { mu = free; inner = s })
        ≡ done (vs, record { mu = free; inner = t }))
      × (map name_of vs ≡ map some s.symbols)
      × (t.execution_count ≡ s.execution_count + length s.symbols)
      × (t.current_symbol_index % length s.symbols ≡ 0)
one_round strategies nows s i l a =
    let n = length s.symbols in
    let k = s.current_symbol_index in
    let start : k ≡ k / n * n + 0 = omega (arith, div-add-mod' k n, i) in
    let (vs, t, r, names, j, c, m) = walk strategies (k / n) s.symbols [] nows s refl start l a in
    (
      vs,
      t,
      r,
      names,
      omega (arith, c, l),
      ap (λ z. z % n) (j ∙ ap (λ z. k + z) l) ∙ add-mod_right k n ∙ i,
    )
