-- ===== src/Prelude/Lists.antt =====
-- Lists measured and indexed by native numbers, under the library's names, and lists filtered by a
-- Boolean test.
use Prim.Native.Nat.{ℕ, zero, suc, ◌+◌, ◌≤◌, ◌<◌}
use mathlib.Core.Path.{◌≡◌, refl, ap}
use mathlib.Core.Bool.{Bool, false, ◌||◌}
use mathlib.Core.List.{List, [], ◌∷◌, ◌++◌}
use mathlib.Core.Option.{Option, none, some}
use native.Mathlib.Omega.{arith}
use expert_octo_enigma.Prelude.Tests.{if◌then◌else◌}

module _ {ℓ} {A : Type ℓ} where
  abbrev pub length : List A → ℕ
  length [] = 0
  length (x ∷ xs) = suc (length xs)

  abbrev pub get_elem? : List A → ℕ → Option A
  get_elem? [] i = none
  get_elem? (x ∷ xs) zero = some x
  get_elem? (x ∷ xs) (suc i) = get_elem? xs i

  abbrev pub drop : ℕ → List A → List A
  drop zero xs = xs
  drop (suc n) [] = []
  drop (suc n) (x ∷ xs) = drop n xs

  abbrev pub take : ℕ → List A → List A
  take zero xs = []
  take (suc n) [] = []
  take (suc n) (x ∷ xs) = x ∷ take n xs

  -- The elements that pass the test, in order.
  abbrev pub keep : (A → Bool) → List A → List A
  keep p [] = []
  keep p (x ∷ xs) = let rest = keep p xs in if p x then x ∷ rest else rest

  abbrev pub copies : ℕ → A → List A
  copies zero x = []
  copies (suc n) x = x ∷ copies n x

  abbrev pub any : (A → Bool) → List A → Bool
  any p [] = false
  any p (x ∷ xs) = p x || any p xs

  abbrev pub All {κ} : (A → Type κ) → List A → Type κ
  All P [] = Unit
  All P (x ∷ xs) = P x × All P xs

module _ {ℓ} {A : Type ℓ} where
  pub length-append : (xs ys : List A) → length (xs ++ ys) ≡ length xs + length ys
  length-append [] ys = omega arith
  length-append (x ∷ xs) ys = omega (arith, length-append xs ys)

  pub take-suc :
      (n : ℕ) (xs : List A) (x : A)
      → get_elem? xs n ≡ some x
      → take (suc n) xs ≡ take n xs ++ x ∷ []
  take-suc n [] x h = cc
  take-suc zero (y ∷ xs) x h = ground (arith, h)
  take-suc (suc n) (y ∷ xs) x h = ap (λ l. y ∷ l) (take-suc n xs x h)

  pub take-all : (n : ℕ) (xs : List A) → length xs ≤ n → take n xs ≡ xs
  take-all zero [] h = refl
  take-all zero (x ∷ xs) h = absurd (omega arith)
  take-all (suc n) [] h = refl
  take-all (suc n) (x ∷ xs) h = ap (λ l. x ∷ l) (take-all n xs (omega (arith, h)))

  pub get_elem?-some : (n : ℕ) (xs : List A) → n < length xs → (x : A) × (get_elem? xs n ≡ some x)
  get_elem?-some n [] h = absurd (omega arith)
  get_elem?-some zero (x ∷ xs) h = (x, refl)
  get_elem?-some (suc n) (x ∷ xs) h = get_elem?-some n xs (omega (arith, h))

  pub get_elem?-lt : (n : ℕ) (xs : List A) (x : A) → get_elem? xs n ≡ some x → n < length xs
  get_elem?-lt n [] x h = cc
  get_elem?-lt zero (y ∷ xs) x h = omega arith
  get_elem?-lt (suc n) (y ∷ xs) x h = omega (arith, get_elem?-lt n xs x h)

  pub get_elem?-none : (n : ℕ) (xs : List A) → length xs ≤ n → get_elem? xs n ≡ none
  get_elem?-none n [] h = refl
  get_elem?-none zero (x ∷ xs) h = absurd (omega arith)
  get_elem?-none (suc n) (x ∷ xs) h = get_elem?-none n xs (omega (arith, h))

  pub append_assoc : (xs ys zs : List A) → (xs ++ ys) ++ zs ≡ xs ++ (ys ++ zs)
  append_assoc [] ys zs = refl
  append_assoc (x ∷ xs) ys zs = ap (λ l. x ∷ l) (append_assoc xs ys zs)

  pub All-append {κ} : (P : A → Type κ) (xs ys : List A) → All P xs → All P ys → All P (xs ++ ys)
  All-append P [] ys h k = k
  All-append P (x ∷ xs) ys h k = (h.0, All-append P xs ys h.1 k)

  pub append-cons : (pre post : List A) (x : A) → pre ++ (x ∷ post) ≡ (pre ++ (x ∷ [])) ++ post
  append-cons [] post x = refl
  append-cons (y ∷ pre) post x = ap (λ l. y ∷ l) (append-cons pre post x)

  pub append-nil : (xs : List A) → xs ++ [] ≡ xs
  append-nil [] = refl
  append-nil (x ∷ xs) = ap (λ l. x ∷ l) (append-nil xs)

  pub any-append : (p : A → Bool) (xs ys : List A) → any p (xs ++ ys) ≡ (any p xs || any p ys)
  any-append p [] ys = refl
  any-append p (x ∷ xs) ys = ground (arith, any-append p xs ys)
