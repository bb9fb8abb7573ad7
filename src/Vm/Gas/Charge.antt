-- ===== src/Vm/Gas/Charge.antt =====
-- chargeGasInternal of chain/vm/runtime.go, and what a run of charges uses. The trace of charges
-- is left out.
use filecoin.Base.{
  ◌≡◌, refl, ◌∙◌, Bool, true, false, List, [], ◌∷◌, if◌then◌else◌, arith, Bool-cases, inl, inr,
}
use filecoin.Base.Int.{ℤ, pos, ◌+ℤ◌, ◌-ℤ◌, ltb_ℤ, ◌≤ℤ◌, +ℤ_parts, -ℤ_parts, int_laws}
use filecoin.Vm.Gas.{GasCharge, total}

pub record Meter : Type 0 where
  pub gas_available : ℤ
  pub gas_used : ℤ

-- whether the charge was paid, and the meter after it
unfoldable pub charge_gas : Meter → GasCharge → Bool × Meter
charge_gas rt gas =
    if ltb_ℤ (rt.gas_available -ℤ total gas) rt.gas_used
    then (false, record rt { gas_used = rt.gas_available })
    else (true, record rt { gas_used = rt.gas_used +ℤ total gas })

-- charges in turn, up to the first that is not paid, which aborts the execution
unfoldable pub charge_all : Meter → List GasCharge → Bool × Meter
charge_all rt [] = (true, rt)
charge_all rt (g ∷ gs) =
    let (paid, rt') = charge_gas rt g in
    let rest = charge_all rt' gs in if paid then rest else (false, rt')

unfoldable pub sum_total : List GasCharge → ℤ
sum_total [] = pos 0
sum_total (g ∷ gs) = total g +ℤ sum_total gs

pub charge_gas_limit :
    (rt : Meter) (g : GasCharge)
    → rt.gas_used ≤ℤ rt.gas_available
    → ((charge_gas rt g).1.gas_used ≤ℤ rt.gas_available)
      × ((charge_gas rt g).1.gas_available ≡ rt.gas_available)
unfolding charge_gas
charge_gas_limit rt g h =
    ground (arith, -ℤ_parts rt.gas_available (total g), +ℤ_parts rt.gas_used (total g))

pub charge_gas_paid :
    (rt : Meter) (g : GasCharge)
    → (charge_gas rt g).0 ≡ true
    → (charge_gas rt g).1.gas_used ≡ rt.gas_used +ℤ total g
unfolding charge_gas
charge_gas_paid rt g e = ground arith

charge_gas_out :
    (rt : Meter) (g : GasCharge)
    → (charge_gas rt g).0 ≡ false
    → (charge_gas rt g).1.gas_used ≡ rt.gas_available
unfolding charge_gas
charge_gas_out rt g e = ground arith

pub charge_gas_available :
    (rt : Meter) (g : GasCharge) → (charge_gas rt g).1.gas_available ≡ rt.gas_available
unfolding charge_gas
charge_gas_available rt g = ground arith

-- Charges in a row, paid or not, never use more gas than is available, and leave what is
-- available.
pub charge_all_limit :
    (rt : Meter) (gs : List GasCharge)
    → rt.gas_used ≤ℤ rt.gas_available
    → ((charge_all rt gs).1.gas_used ≤ℤ rt.gas_available)
      × ((charge_all rt gs).1.gas_available ≡ rt.gas_available)
unfolding charge_all
charge_all_limit rt [] h = (h, refl)
charge_all_limit rt (g ∷ gs) h =
    ground (arith, charge_gas_limit rt g, charge_all_limit (charge_gas rt g).1 gs)

-- If all charges in a row are paid, the gas used has grown by the sum of their totals.
pub charge_all_paid :
    (rt : Meter) (gs : List GasCharge)
    → (charge_all rt gs).0 ≡ true
    → (charge_all rt gs).1.gas_used ≡ rt.gas_used +ℤ sum_total gs
unfolding charge_all sum_total
charge_all_paid rt [] e = omega int_laws
charge_all_paid rt (g ∷ gs) e = elim (Bool-cases (charge_gas rt g).0) [
  | inl f ↦ rw f (
      charge_all_paid (charge_gas rt g).1 gs (rw f at e)
      ∙ rw (charge_gas_paid rt g f) (omega int_laws))
  | inr f ↦ cc (e, f)
]

-- If a charge is refused, all the available gas counts as used, and no later charge is made.
pub charge_all_out :
    (rt : Meter) (gs : List GasCharge)
    → (charge_all rt gs).0 ≡ false
    → (charge_all rt gs).1.gas_used ≡ rt.gas_available
unfolding charge_all
charge_all_out rt [] e = cc
charge_all_out rt (g ∷ gs) e = elim (Bool-cases (charge_gas rt g).0) [
  | inl f ↦ rw f (charge_all_out (charge_gas rt g).1 gs (rw f at e) ∙ charge_gas_available rt g)
  | inr f ↦ rw f (charge_gas_out rt g f)
]
