-- ===== src/Lock.antt =====
-- `sync.RWMutex` as one goroutine meets it. A method runs on a state with its lock; a call that waits
-- for a lock which the same goroutine holds waits for ever, and is `blocked`.
use expert_octo_enigma.Prelude.{ℕ, zero, suc, ◌≡◌, refl, ap, Option, none, some}

-- `reading n` is n + 1 read locks.
pub data Mutex : Type 0 where
  free : Mutex
  reading : ℕ → Mutex
  writing : Mutex

-- `Lock`; `none` waits for the goroutine itself.
abbrev pub lock : Mutex → Option Mutex
lock free = some writing
lock (reading n) = none
lock writing = none

abbrev pub r_lock : Mutex → Option Mutex
r_lock free = some (reading 0)
r_lock (reading n) = some (reading (suc n))
r_lock writing = none

-- `Unlock` and `RUnlock`; the runtime's fatal error on a lock that is not held is `none`.
abbrev pub unlock : Mutex → Option Mutex
unlock writing = some free
unlock _ = none

abbrev pub r_unlock : Mutex → Option Mutex
r_unlock (reading zero) = some free
r_unlock (reading (suc n)) = some (reading n)
r_unlock _ = none

pub record Guarded {ℓ} (S : Type ℓ) : Type ℓ where
  pub mu : Mutex
  pub inner : S

pub data Outcome {ℓ} (A : Type ℓ) : Type ℓ where
  done : A → Outcome A
  blocked : Outcome A
  crashed : Outcome A

-- What follows a call that returned.
abbrev pub and_then {ℓ κ} : {A : Type ℓ} {B : Type κ} → Outcome A → (A → Outcome B) → Outcome B
and_then (done a) f = f a
and_then blocked f = blocked
and_then crashed f = crashed

pub and_then-eq-done {ℓ κ} :
    {A : Type ℓ} {B : Type κ} (o : Outcome A) (f : A → Outcome B) {b : B}
    → and_then o f ≡ done b
    → (a : A) × (o ≡ done a) × (f a ≡ done b)
and_then-eq-done (done a) f e = (a, refl, e)
and_then-eq-done blocked f e = cc
and_then-eq-done crashed f e = cc

pub done-injective : {A : Type 0} (x : A) {y : A} → done x ≡ done y → x ≡ y
done-injective x r = ap (λ o. elim o [ done z ↦ z | blocked ↦ x | crashed ↦ x ]) r

-- A method body: it returns a result and the state, waits for ever, or crashes.
abbrev pub Method {ℓ κ} : Type ℓ → Type κ → Type (ℓ ⊔ κ)
Method S A = Guarded S → Outcome (A × Guarded S)

module _ {ℓ} {S : Type ℓ} where
  infixl 5 ◌>>=◌ ◌>>◌
  abbrev pub ◌>>=◌ {κ ι} : {A : Type κ} {B : Type ι} → Method S A → (A → Method S B) → Method S B
  ◌>>=◌ m f g = elim (m g) [ done (a, h) ↦ f a h | blocked ↦ blocked | crashed ↦ crashed ]

  abbrev pub ◌>>◌ {κ} : {B : Type κ} → Method S (Unit {0}) → Method S B → Method S B
  m >> k = m >>= λ _. k

  abbrev pub pure {κ} : {A : Type κ} → A → Method S A
  pure a g = done (a, g)

  abbrev pub gets {κ} : {A : Type κ} → (S → A) → Method S A
  gets f g = done (f g.inner, g)

  abbrev pub modify : (S → S) → Method S (Unit {0})
  modify f g = done (tt, record g { inner = f g.inner })

  abbrev set_mutex : (Mutex → Option Mutex) → Outcome (Guarded S) → Guarded S → Outcome (Guarded S)
  set_mutex op failed g = elim (op g.mu) [ none ↦ failed | some m ↦ done (record g { mu = m }) ]

  -- The body between the lock and its deferred release.
  abbrev pub between {κ} :
      {A : Type κ} → (Mutex → Option Mutex) → (Mutex → Option Mutex) → Method S A → Method S A
  between acquire release body g = elim (set_mutex acquire blocked g) [
    | done g' ↦ elim (body g') [
      | done (a, h) ↦ elim (set_mutex release crashed h) [
        | done h' ↦ done (a, h')
        | blocked ↦ blocked
        | crashed ↦ crashed
      ]
      | blocked ↦ blocked
      | crashed ↦ crashed
    ]
    | blocked ↦ blocked
    | crashed ↦ crashed
  ]

  -- `mu.Lock(); defer mu.Unlock()`
  abbrev pub locked {κ} : {A : Type κ} → Method S A → Method S A
  locked = between lock unlock

  -- `mu.RLock(); defer mu.RUnlock()`
  abbrev pub r_locked {κ} : {A : Type κ} → Method S A → Method S A
  r_locked = between r_lock r_unlock

  after :
      {A : Type 0} {B : Type 0}
      → (A → Method S B)
      → Outcome (A × Guarded S)
      → Outcome (B × Guarded S)
  after f o = elim o [ done (a, h) ↦ f a h | blocked ↦ blocked | crashed ↦ crashed ]

  after-done :
      {A : Type 0} {B : Type 0} (f : A → Method S B) (o : Outcome (A × Guarded S))
      {r : B × Guarded S}
      → after f o ≡ done r
      → (x : A × Guarded S) × (o ≡ done x) × (f x.0 x.1 ≡ done r)
  unfolding after
  after-done f (done x) e = (x, refl, e)
  after-done f blocked e = cc
  after-done f crashed e = cc

  -- A call that returned ran to the end of its first part.
  pub bind-done :
      {A : Type 0} {B : Type 0} (m : Method S A) (f : A → Method S B) (g : Guarded S)
      {r : B × Guarded S}
      → (m >>= f) g ≡ done r
      → (x : A × Guarded S) × (m g ≡ done x) × (f x.0 x.1 ≡ done r)
  unfolding after
  bind-done m f g e = after-done f (m g) e
