-- ===== src/Vm/Apply/Gas.antt =====
-- The gas that ApplyMessage of chain/vm/vm.go takes, refunds and rewards.
use native.Mathlib.Nat.{add-mul, mul_comm, mul-pos}
use filecoin.Base.{
  ℕ, ◌+◌, ◌-◌, ◌*◌, ◌^◌, ◌≤◌, ◌<◌, ◌≡◌, ap, ◌∙◌, sym, true, false, arith, suc, subst,
}
use filecoin.Base.Int.{ℤ, pos, negsuc, ◌+ℤ◌, ◌-ℤ◌, ◌*ℤ◌, ◌≤ℤ◌, ltb_ℤ}
use filecoin.ChainTypes.Message.{u64, u64_of_int}

-- An int64.
abbrev pub Fits : ℤ → Type 0
Fits a = ltb_ℤ a (pos (2 ^ 63)) ≡ true

pub u64_small : (n : ℕ) → ltb_ℤ (pos n) (pos (2 ^ 63)) ≡ true → u64 n ≡ n
u64_small n h = ground arith

mul_pos : (a b : ℕ) → pos a *ℤ pos b ≡ pos (a * b)
unfolding ◌*ℤ◌
mul_pos a b = ground arith

split : (l k p : ℕ) → k ≤ l → (l - k) * p + p * k ≡ l * p
split l k p h =
    ap (λ n. (l - k) * p + n) (mul_comm p k)
    ∙ sym (add-mul (l - k) k p)
    ∙ ap (λ n. n * p) (omega (arith, h))

abbrev pub cost_of : ℤ → ℤ → ℤ
cost_of limit price = pos (u64_of_int limit) *ℤ price

abbrev pub gain_of : ℤ → ℤ → ℤ
gain_of price used = price *ℤ pos (u64_of_int used)

-- The parts of the cost of a message with a price that is not negative.
pub record Parts (limit used price : ℤ) : Type 0 where
  pub refund_fine : ltb_ℤ (cost_of (limit -ℤ used) price) (pos 0) ≡ false
  pub gain_fine : ltb_ℤ (gain_of price used) (pos 0) ≡ false
  pub sum : cost_of (limit -ℤ used) price +ℤ gain_of price used ≡ cost_of limit price

cost_small : (n p : ℕ) → u64 n ≡ n → cost_of (pos n) (pos p) ≡ pos (n * p)
unfolding u64_of_int
cost_small n p h = mul_pos (u64 n) p ∙ ap (λ k. pos (k * p)) h

gain_small : (n p : ℕ) → u64 n ≡ n → gain_of (pos p) (pos n) ≡ pos (p * n)
unfolding u64_of_int
gain_small n p h = mul_pos p (u64 n) ∙ ap (λ k. pos (p * k)) h

minus_pos : (l k : ℕ) → k ≤ l → pos l -ℤ pos k ≡ pos (l - k)
unfolding ◌-ℤ◌
minus_pos l k h = ground arith

plus_pos : (a b : ℕ) → pos a +ℤ pos b ≡ pos (a + b)
unfolding ◌+ℤ◌
plus_pos a b = ground arith

split_pos-Parts :
    (l k p : ℕ) → k ≤ l → ltb_ℤ (pos l) (pos (2 ^ 63)) ≡ true → Parts (pos l) (pos k) (pos p)
split_pos-Parts l k p h b =
    let refund : cost_of (pos l -ℤ pos k) (pos p) ≡ pos ((l - k) * p) =
      ap (λ n. cost_of n (pos p)) (minus_pos l k h) ∙ cost_small (l - k) p (ground arith) in
    let gain = gain_small k p (ground arith) in
    record {
      refund_fine = ap (λ n. ltb_ℤ n (pos 0)) refund ∙ ground arith;
      gain_fine = ap (λ n. ltb_ℤ n (pos 0)) gain ∙ ground arith;
      sum =
          ap (λ n. n +ℤ gain_of (pos p) (pos k)) refund
          ∙ ap (λ n. pos ((l - k) * p) +ℤ n) gain
          ∙ plus_pos ((l - k) * p) (p * k)
          ∙ ap pos (split l k p h)
          ∙ sym (cost_small l p (u64_small l b));
    }

-- The cost is negative if the price is, so a transfer of the cost fails.
cost_negative : (l p : ℕ) → 0 < l → u64 l ≡ l → ltb_ℤ (cost_of (pos l) (negsuc p)) (pos 0) ≡ true
unfolding u64_of_int ◌*ℤ◌
cost_negative l p h q =
    let grows : 0 < u64 l * suc p = mul-pos (subst (λ n. 0 < n) (sym q) h) (omega arith) in
    ground (arith, grows)

-- With a limit that is an int64 and positive, and gas used up to it: if the cost is not negative,
-- it is refund and reward, none of them negative.
pub split_gas-Parts :
    (limit used price : ℤ)
    → Fits limit
    → ltb_ℤ (pos 0) limit ≡ true
    → ltb_ℤ used (pos 0) ≡ false
    → used ≤ℤ limit
    → ltb_ℤ (cost_of limit price) (pos 0) ≡ false
    → Parts limit used price
split_gas-Parts (negsuc l) used price f h g b n = absurd (ground arith)
split_gas-Parts (pos l) (negsuc k) price f h g b n = absurd (ground arith)
split_gas-Parts (pos l) (pos k) (pos p) f h g b n = split_pos-Parts l k p (omega (arith, b)) f
split_gas-Parts (pos l) (pos k) (negsuc p) f h g b n =
    absurd (cc (cost_negative l p (ground (arith, h)) (u64_small l f), n))
