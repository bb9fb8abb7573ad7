-- ===== src/Vm/GasHolder/Settles.antt =====
-- What goes to and from the gas holder of chain/vm/vm.go.
use filecoin.Base.{
  ℕ, ◌≡◌, refl, ap, ◌∙◌, true, false, if◌then◌else◌, ◌==◌, ==_refl, Option, none, some, nat_eq,
  arith,
}
use filecoin.Base.Int.{ℤ, pos, ◌+ℤ◌, ◌-ℤ◌, ltb_ℤ, +ℤ_parts, -ℤ_parts, eq_of_parts}
use filecoin.ChainTypes.Actor.{Actor}
use filecoin.StateTree.{StateTree, Found, actor, not_found, get_actor, set_actor}
use filecoin.StateTree.View.{view, result, view-set_actor, get_actor_lem}
use filecoin.Vm.Transfer.{deduct_funds, deposit_funds}
use filecoin.Vm.GasHolder.{
  Settled, write_back, mutate_found, mutate_actor, paired, paired_holder, transfer_to_gas_holder,
  transfer_from_gas_holder,
}

-- The function `f` on an actor and the gas holder has taken effect at `a`, and nothing else has
-- changed; or nothing at all has, and is_there was an error.
abbrev pub Mutated :
    ℕ → Actor → (Actor → Option (Actor × Actor)) → (ℕ → Option Actor) → Settled → ℕ → Type 0
Mutated a holder f old (st, holder', true) j =
    (act : Actor) × (act' : Actor) × (old a ≡ some act)
    × (f act ≡ some (act', holder'))
    × (view st j ≡ (if a == j then some act' else old j))
Mutated a holder f old (st, holder', false) j = (view st j ≡ old j) × (holder' ≡ holder)

module _ (a : ℕ) (holder : Actor) (f : Actor → Option (Actor × Actor)) (old : ℕ → Option Actor)
    (j : ℕ) where
  write_back-Mutated :
      (act : Actor) (st : StateTree) (o : Option (Actor × Actor))
      → f act ≡ o
      → old a ≡ some act
      → view st j ≡ old j
      → Mutated a holder f old (write_back a holder o st) j
  unfolding write_back
  write_back-Mutated act st none e g v = (v, refl)
  write_back-Mutated act st (some (act', holder')) e g v =
      (act, act', g, e, view-set_actor st a j act' ∙ ap (λ o. if a == j then some act' else o) v)

  mutate_found-Mutated :
      (r : Found) (st : StateTree)
      → r ≡ result (old a)
      → view st j ≡ old j
      → Mutated a holder f old (mutate_found a holder f (r, st)) j
  unfolding mutate_found
  mutate_found-Mutated not_found st e v = (v, refl)
  mutate_found-Mutated (actor act) st e v =
      write_back-Mutated act st (f act) refl (known (old a) e) v
    where
      known : (o : Option Actor) → actor act ≡ result o → o ≡ some act
      known none e = absurd (cc)
      known (some c) e = cc

pub mutate_actor-Mutated :
    (a : ℕ) (holder : Actor) (f : Actor → Option (Actor × Actor)) (st : StateTree) (j : ℕ)
    → Mutated a holder f (view st) (mutate_actor (some a) holder f st) j
unfolding mutate_actor
mutate_actor-Mutated a holder f st j =
    mutate_found-Mutated a holder f (view st) j (get_actor a st).0 (get_actor a st).1
      (get_actor_lem st a a).0 (get_actor_lem st a j).1

-- A mutation that the function allows takes place.
module _ (a : ℕ) (holder : Actor) (f : Actor → Option (Actor × Actor)) (st : StateTree)
    (act act' holder' : Actor) where
  abbrev pub Done : Settled → Type 0
  Done s =
      (st' : StateTree) × (s ≡ (st', holder', true))
      × ((j : ℕ) → view st' j ≡ (if a == j then some act' else view st j))

  mutate_found-Done :
      (r : Found) (st' : StateTree)
      → r ≡ actor act
      → f act ≡ some (act', holder')
      → ((j : ℕ) → view st' j ≡ view st j)
      → Done (mutate_found a holder f (r, st'))
  unfolding mutate_found write_back
  mutate_found-Done not_found st' e g v = absurd (cc)
  mutate_found-Done (actor b) st' e g v =
      let q : f b ≡ some (act', holder') = ap f (cc) ∙ g in
      (
        set_actor a act' st',
        ap (λ o. write_back a holder o st') q,
        λ j. view-set_actor st' a j act' ∙ ap (λ o. if a == j then some act' else o) (v j),
      )

  pub mutate_actor-Done :
      view st a ≡ some act → f act ≡ some (act', holder') → Done (mutate_actor (some a) holder f st)
  unfolding mutate_actor
  mutate_actor-Done e g =
      mutate_found-Done (get_actor a st).0 (get_actor a st).1
        ((get_actor_lem st a a).0 ∙ ap result e) g (λ j. (get_actor_lem st a j).1)

module _ (resolve : ℕ → Option ℕ) (addr a : ℕ) (known : resolve addr ≡ some a) (holder : Actor)
    (amt : ℤ) (fine : ltb_ℤ amt (pos 0) ≡ false) (st : StateTree) (act : Actor)
    (is_there : view st a ≡ some act) where
  pub to_gas_holder-Done :
      ltb_ℤ act.balance amt ≡ false
      → Done a holder
          (λ b. none)
          st
          act
          (record act { balance = act.balance -ℤ amt })
          (deposit_funds holder amt)
          (transfer_to_gas_holder resolve addr holder amt st)
  unfolding transfer_to_gas_holder
  to_gas_holder-Done covered =
      let kept = record act { balance = act.balance -ℤ amt } in
      rw (fine, known)
        (mutate_actor-Done a holder (λ b. paired (deposit_funds holder amt) (deduct_funds b amt)) st
          act kept (deposit_funds holder amt) is_there (rw covered refl))

  pub from_gas_holder-Done :
      ltb_ℤ holder.balance amt ≡ false
      → Done a holder
          (λ b. none)
          st
          act
          (deposit_funds act amt)
          (record holder { balance = holder.balance -ℤ amt })
          (transfer_from_gas_holder resolve addr holder amt st)
  unfolding transfer_from_gas_holder
  from_gas_holder-Done covered =
      let rest = record holder { balance = holder.balance -ℤ amt } in
      rw (fine, known)
        (mutate_actor-Done a holder
          (λ b. paired_holder (deposit_funds b amt) (deduct_funds holder amt)) st act
          (deposit_funds act amt) rest is_there (rw covered refl))

-- The gas holder `h` is empty, and the actors are what they were, but for what is refunded to `f` and
-- what is given to `w`.
pub record Emptied (f w : ℕ) (refund gain : ℤ) (b c : Actor) (s : Settled) : Type 0 where
  pub no_error : s.2 ≡ true
  pub empty : s.1.balance ≡ pos 0
  pub refunded : view s.0 f ≡ some (record b { balance = b.balance +ℤ refund })
  pub rewarded : view s.0 w ≡ some (record c { balance = c.balance +ℤ gain })

-- The arithmetic of what the gas holder has.
module _ (z cost refund gain : ℤ) (zero : z ≡ pos 0) (sum : refund +ℤ gain ≡ cost) where
  not_negative :
      ltb_ℤ refund (pos 0) ≡ false → ltb_ℤ gain (pos 0) ≡ false → ltb_ℤ cost (pos 0) ≡ false
  not_negative r g = ground (arith, +ℤ_parts refund gain, sum, r, g)

  pub covers_refund : ltb_ℤ gain (pos 0) ≡ false → ltb_ℤ (z +ℤ cost) refund ≡ false
  covers_refund g = ground (arith, +ℤ_parts z cost, +ℤ_parts refund gain, sum, zero, g)

  pub left_over : z +ℤ cost -ℤ refund ≡ gain
  left_over = eq_of_parts (z +ℤ cost -ℤ refund) gain (
      ground (arith, +ℤ_parts z cost, -ℤ_parts (z +ℤ cost) refund, +ℤ_parts refund gain, sum, zero))

pub minus_self : (x y : ℤ) → x ≡ y → x -ℤ y ≡ pos 0
minus_self x y e = eq_of_parts (x -ℤ y) (pos 0) (ground (arith, -ℤ_parts x y, e))

pub not_less : (x y : ℤ) → x ≡ y → ltb_ℤ x y ≡ false
not_less x y e = ground (arith, e)

module _ (resolve : ℕ → Option ℕ) (from reward f w : ℕ) (from_is : resolve from ≡ some f)
    (reward_is : resolve reward ≡ some w) (apart : f == w ≡ false) where
  -- The cost that the empty gas holder took from a sender who has it is given back in two parts
  -- that are not negative and make up the cost, to two actors that exist, whatever has run in
  -- between: no transfer fails, the gas holder ends with nothing, and each actor has its part
  -- more.
  pub gas_holder_empties :
      (cost refund gain : ℤ) (holder a b c : Actor) (st run : StateTree)
      → holder.balance ≡ pos 0
      → ltb_ℤ refund (pos 0) ≡ false
      → ltb_ℤ gain (pos 0) ≡ false
      → refund +ℤ gain ≡ cost
      → view st f ≡ some a
      → ltb_ℤ a.balance cost ≡ false
      → view run f ≡ some b
      → view run w ≡ some c
      → let taken = transfer_to_gas_holder resolve from holder cost st in
        let given = transfer_from_gas_holder resolve from taken.1 refund run in
        (taken.2 ≡ true)
        × (given.2 ≡ true)
        × Emptied f w refund gain b c (transfer_from_gas_holder resolve reward given.1 gain given.0)
  unfolding deposit_funds
  gas_holder_empties cost refund gain holder a b c st run zero r g sum va enough vb vc =
      let h1 = deposit_funds holder cost in
      let h2 = record h1 { balance = h1.balance -ℤ refund } in
      let (st1, p, _) =
        to_gas_holder-Done resolve from f from_is holder cost
          (not_negative holder.balance cost refund gain zero sum r g) st a va enough in
      let (st2, q, after) =
        from_gas_holder-Done resolve from f from_is h1 refund r run b vb
          (covers_refund holder.balance cost refund gain zero sum g) in
      let left = left_over holder.balance cost refund gain zero sum in
      let (st3, s, last) =
        from_gas_holder-Done resolve reward w reward_is h2 gain g st2 c (after w ∙ rw apart vc)
          (not_less h2.balance gain left) in
      rw (p, q, s)
        (
          refl,
          refl,
          record {
            no_error = refl;
            empty = minus_self h2.balance gain left;
            refunded = last f ∙ ground (arith, after f, apart);
            rewarded = last w ∙ ground (arith, ==_refl w);
          },
        )
