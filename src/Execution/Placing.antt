-- ===== src/Execution/Placing.antt =====
-- The placement of a slice in trading/order/execution.go: when it is accepted, and what it records.
use expert_octo_enigma.Prelude.{
  ℕ, ◌+◌, ◌<◌, String, ◌≡◌, refl, ◌∙◌, ap, sym, subst, ◌⊎◌, inl, inr, true, false, List, [], ◌∷◌,
  ◌++◌, map, arith, length, if◌then◌else◌, eq_iff,
}
use expert_octo_enigma.Float.{Float}
use expert_octo_enigma.Orders.{
  Order, Manager, SubmitResult, room, queued, invalid, risk_refused, context_done, queue_full,
  submitted, failed, submit_order, write,
}
use expert_octo_enigma.Orders.Validation.{IsWellFormed}
use expert_octo_enigma.Orders.Submission.{
  HasRoom, submit_queued_iff, submit_accepts, submit_order-max,
}
use expert_octo_enigma.Execution.{
  Slice, Engine, Round, slices_of, mark_last, is_queued, submit, place,
}
use expert_octo_enigma.Execution.Statuses.{lookup-place}

-- What the reports read of a slice.
abbrev pub outline : {F : Type 0} → Slice F → F × String
outline s = (s.quantity, s.status)

outline-mark_last :
    {F : Type 0} (status : String) (xs : List (Slice F)) (s : Slice F)
    → map outline (mark_last status (xs ++ s ∷ [])) ≡ map outline xs ++ (s.quantity, status) ∷ []
outline-mark_last status [] s = refl
outline-mark_last status (x ∷ []) s = refl
outline-mark_last status (x ∷ y ∷ xs) s =
    ap (λ l. outline x ∷ l) (outline-mark_last status (y ∷ xs) s)

length-mark_last :
    {F : Type 0} (status : String) (xs : List (Slice F)) (s : Slice F)
    → length (mark_last status (xs ++ s ∷ [])) ≡ length xs + 1
length-mark_last status [] s = refl
length-mark_last status (x ∷ []) s = refl
length-mark_last status (x ∷ y ∷ xs) s = omega (arith, length-mark_last status (y ∷ xs) s)

write_same : {F : Type 0} (heap : ℕ → Order F) (p : ℕ) (o : Order F) → write heap p o p ≡ o
write_same heap p o = ground arith

is_queued-cases :
    (res : SubmitResult) → (is_queued res ≡ false) ⊎ ((id : String) × (res ≡ queued id))
is_queued-cases (queued id) = inr (id, refl)
is_queued-cases (invalid e) = inl refl
is_queued-cases risk_refused = inl refl
is_queued-cases context_done = inl refl
is_queued-cases queue_full = inl refl

module _ {F : Type 0} ⦃f : Float F⦄ (decimal : ℕ → String) where
  slices_of-place :
      (s : Slice F) (c : Order F) (r : Round F) (e : Engine F)
      → slices_of s.order_id (place decimal s c r e).1
        ≡ mark_last
            (if (place decimal s c r e).0 then submitted else failed)
            (slices_of s.order_id e ++ s ∷ [])
  slices_of-place s c r e =
      ground (arith, lookup-place decimal s c r e s.order_id, eq_iff s.order_id s.order_id)

  -- The list of slices grows by the slice, marked.
  pub place-outline :
      (s : Slice F) (c : Order F) (r : Round F) (e : Engine F)
      → map outline (slices_of s.order_id (place decimal s c r e).1)
        ≡ map outline (slices_of s.order_id e)
          ++ (s.quantity, if (place decimal s c r e).0 then submitted else failed) ∷ []
  place-outline s c r e =
      ap (map outline) (slices_of-place s c r e)
      ∙ outline-mark_last (if (place decimal s c r e).0 then submitted else failed)
          (slices_of s.order_id e) s

  pub length-place :
      (s : Slice F) (c : Order F) (r : Round F) (e : Engine F)
      → length (slices_of s.order_id (place decimal s c r e).1)
        ≡ length (slices_of s.order_id e) + 1
  length-place s c r e =
      ap length (slices_of-place s c r e)
      ∙ length-mark_last (if (place decimal s c r e).0 then submitted else failed)
          (slices_of s.order_id e) s

  -- A well-formed order is accepted where the queue decides and has room, also after the wait.
  pub place_accepts :
      (s : Slice F) (c : Order F) (r : Round F) (e : Engine F)
      → IsWellFormed c
      → r.ready ≡ room
      → ((m : Manager F) → HasRoom m → HasRoom (r.wait m))
      → HasRoom e.manager
      → (place decimal s c r e).0 ≡ true
  unfolding place submit
  place_accepts s c r e w h v l =
      let m = record (e.manager) { heap = write e.manager.heap r.pointer c } in
      let w' = subst IsWellFormed (sym (write_same e.manager.heap r.pointer c)) w in
      rw h (ap is_queued (submit_accepts decimal r.wait r.nanos r.now r.now r.pointer m w' v l).1)

  -- An order that is not well formed never is.
  pub place_refuses :
      (s : Slice F) (c : Order F) (r : Round F) (e : Engine F)
      → ¬ IsWellFormed c
      → (place decimal s c r e).0 ≡ false
  unfolding place submit
  place_refuses s c r e w =
      let m = record (e.manager) { heap = write e.manager.heap r.pointer c } in
      let here = write_same e.manager.heap r.pointer c in
      let iff = submit_queued_iff decimal r.ready r.wait r.nanos r.now r.now r.pointer m in
      elim (is_queued-cases
        (submit_order decimal r.ready r.wait r.nanos r.now r.now r.pointer m).0) [
          | inl n ↦ n
          | inr (id, q) ↦ absurd (w (subst IsWellFormed here (iff.0 (id, q)).0))
        ]

  -- After the sleep the queue has room again if the rest of the program sees to it.
  pub place-HasRoom :
      (s : Slice F) (c : Order F) (r : Round F) (e : Engine F)
      → ((m : Manager F) → HasRoom m → HasRoom (r.wait m))
      → ((m : Manager F) → 0 < m.max_pending_orders → HasRoom (r.meanwhile m))
      → HasRoom e.manager
      → HasRoom (place decimal s c r e).1.manager
  unfolding place submit
  place-HasRoom s c r e v h l =
      let m = record (e.manager) { heap = write e.manager.heap r.pointer c } in
      let (res, n) = submit_order decimal r.ready r.wait r.nanos r.now r.now r.pointer m in
      h n (submit_order-max decimal r.ready r.wait r.nanos r.now r.now r.pointer m v l)
