-- ===== src/Pei/Core/Dispatch.antt =====
-- The calls of DispatchPeims in PeiCoreMain.c.
use edk2_arc.Base.{
  ℕ, zero, suc, ◌+◌, ◌^◌, ◌<◌, ◌≡◌, refl, Option, none, some, lt→ltb, le→ltb, arith,
}
use edk2_arc.Edk2.{Mem, Platform, uintn_of_lt}
use edk2_arc.Pei.Core.{
  World, Flow, goes_on, stops, ◌then_go◌, dispatch_one, dispatch_loop, dispatch_peims,
}

module _ {T : Type 0} (p : Platform) (m : Mem)
    (call : ℕ → ℕ → World T → Option (Flow (World T))) where
  -- The calls for `n` slots from `idx` on, one after the other, up to one that does not return: for each
  -- slot that of the entry point of its PPI, with the PPI.
  abbrev pub dispatch_each : ℕ → ℕ → World T → Option (Flow (World T))
  dispatch_each zero idx w = some (goes_on w)
  dispatch_each (suc n) idx w =
      let ppi = (w.core.desc (w.core.ppi_ptrs idx)).ppi in
      call (w.core.entry ppi) ppi w then_go λ w'. dispatch_each n (idx + 1) w'

  -- The code that is called leaves the number of PPIs as it is.
  abbrev pub Steady : Type 0
  Steady =
      (f a : ℕ) (w w' : World T)
      → call f a w ≡ some (goes_on w')
      → w'.core.current_count ≡ w.core.current_count

  module _ (steady : Steady) where
    steady_one :
        (idx : ℕ) (w w' : World T)
        → dispatch_one p m call idx w ≡ some (goes_on w')
        → w'.core.current_count ≡ w.core.current_count
    unfolding dispatch_one
    steady_one idx w w' e = steady _ _ w w' e

    -- Two continuations that agree on every world with the number of PPIs agree behind a call.
    then_go_cong :
        (o : Option (Flow (World T))) (k k' : World T → Option (Flow (World T)))
        → ((w' : World T) → o ≡ some (goes_on w') → k w' ≡ k' w')
        → (o then_go k) ≡ (o then_go k')
    then_go_cong none k k' h = refl
    then_go_cong (some (goes_on w')) k k' h = h w' refl
    then_go_cong (some (stops w')) k k' h = refl

    dispatch_loop_lem :
        (n fuel idx : ℕ) (w : World T)
        → n < fuel
        → idx + n ≡ w.core.current_count
        → w.core.current_count < 2 ^ p.uintn_bits
        → dispatch_loop p m call fuel idx w ≡ dispatch_each n idx w
    unfolding dispatch_loop dispatch_one
    dispatch_loop_lem n zero idx w h e r = absurd (omega arith)
    dispatch_loop_lem zero (suc fuel) idx w h e r =
        rw (le→ltb idx w.core.current_count (omega arith)) refl
    dispatch_loop_lem (suc n) (suc fuel) idx w h e r =
        rw (lt→ltb idx w.core.current_count (omega arith), uintn_of_lt p (idx + 1) (omega arith))
          (then_go_cong (dispatch_one p m call idx w) _ _ λ w' called.
            dispatch_loop_lem n fuel (idx + 1) w' (omega arith)
              (omega (arith, steady_one idx w w' called))
              (omega (arith, steady_one idx w w' called)))

    -- DispatchPeims calls the entry point of every PPI in the database once, with the PPI, in the order
    -- of the slots, up to a call that does not return, if the code called does not change the number of PPIs. That
    -- number is in the range of a UINTN, and the fuel is more than it.
    pub dispatch_peims_lem :
        (fuel : ℕ) (w : World T)
        → w.core.current_count < fuel
        → w.core.current_count < 2 ^ p.uintn_bits
        → dispatch_peims p m call fuel w ≡ dispatch_each w.core.current_count 0 w
    unfolding dispatch_peims
    dispatch_peims_lem fuel w h r =
        dispatch_loop_lem w.core.current_count fuel 0 w h (omega arith) r
