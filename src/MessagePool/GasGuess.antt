-- ===== src/MessagePool/GasGuess.antt =====
-- chain/messagepool/gasguess/guessgas.go: a guess of the gas that a message will use.
use filecoin.Base.{
  ℕ, suc, ◌/◌, List, [], ◌∷◌, Bool, true, false, ◌&&◌, ◌==◌, if◌then◌else◌, Option, none, some,
  nat_eq,
}
use filecoin.Base.Int.{ℤ, pos, negsuc, ◌-ℤ◌, ltb_ℤ}
use filecoin.ChainTypes.Actor.{Actor}
use filecoin.ChainTypes.Message.{SignedMessage}

-- The builtin actors' codes, the number of the method that sends funds, and whether an address is
-- one of a SECP256K1 key.
pub record Builtin : Type 0 where
  pub init_code : ℕ
  pub market_code : ℕ
  pub miner_code : ℕ
  pub power_code : ℕ
  pub method_send : ℕ
  pub is_secp256k1 : ℕ → Bool

pub record CostKey : Type 0 where
  pub code : ℕ
  pub m : ℕ

-- Costs
unfoldable pub costs : Builtin → List (CostKey × ℕ)
costs b =
    (record { code = b.init_code; m = 2 }, 8916753)
    ∷ (record { code = b.market_code; m = 2 }, 6955002)
    ∷ (record { code = b.market_code; m = 4 }, 245436108)
    ∷ (record { code = b.miner_code; m = 4 }, 2315133)
    ∷ (record { code = b.miner_code; m = 5 }, 1600271356)
    ∷ (record { code = b.miner_code; m = 6 }, 22864493)
    ∷ (record { code = b.miner_code; m = 7 }, 142002419)
    ∷ (record { code = b.miner_code; m = 10 }, 23008274)
    ∷ (record { code = b.miner_code; m = 11 }, 19303178)
    ∷ (record { code = b.miner_code; m = 14 }, 566356835)
    ∷ (record { code = b.miner_code; m = 16 }, 5325185)
    ∷ (record { code = b.miner_code; m = 18 }, 2328637)
    ∷ (record { code = b.power_code; m = 2 }, 23600956)
    ∷ []

unfoldable pub cost_in : List (CostKey × ℕ) → ℕ → ℕ → Option ℕ
cost_in [] code m = none
cost_in ((k, cost) ∷ l) code m =
    if (k.code == code) && (k.m == m) then some cost else cost_in l code m

-- half of the limit, towards 0; the float64 of the source is exact below 2 ^ 53
unfoldable pub half_limit : ℤ → ℤ
unfolding ◌-ℤ◌
half_limit (pos n) = pos (n / 2)
half_limit (negsuc n) = pos 0 -ℤ pos (suc n / 2)

abbrev pub failed_gas_guess_max : ℤ
failed_gas_guess_max = pos 25000000

unfoldable pub failed_guess : SignedMessage → ℤ
unfolding half_limit
failed_guess m =
    let guess = half_limit m.message.gas_limit in
    if ltb_ℤ failed_gas_guess_max guess then failed_gas_guess_max else guess

unfoldable pub guess_by_cost : SignedMessage → Option ℕ → ℤ × Bool
unfolding failed_guess
guess_by_cost m none = (failed_guess m, false)
guess_by_cost m (some cost) =
    (if ltb_ℤ m.message.gas_limit (pos cost) then m.message.gas_limit else pos cost, true)

-- by the receiver
unfoldable pub guess_by_actor : Builtin → SignedMessage → Option Actor → ℤ × Bool
unfolding guess_by_cost costs cost_in
guess_by_actor b m none = (failed_guess m, false)
guess_by_actor b m (some act) = guess_by_cost m (cost_in (costs b) act.code m.message.method)

-- GuessGasUsed with the lookup of actors; whether there was no error
unfoldable pub guess_gas_used : Builtin → (ℕ → Option Actor) → SignedMessage → ℤ × Bool
unfolding guess_by_actor
guess_gas_used b al m =
    if m.message.method == b.method_send
    then (if b.is_secp256k1 m.message.from then pos 1385999 else pos 1298450, true)
    else guess_by_actor b m (al m.message.to)
