-- ===== src/MessagePool/Tally.antt =====
-- What pruneMessages of chain/messagepool/pruning.go knows of each sender: the messages that may be
-- included, in turn, with the reward and the gas limit up to each.
use filecoin.Base.{
  ℕ, ◌+◌, List, [], ◌∷◌, ◌++◌, Bool, false, not, ◌&&◌, ltb, ◌==◌, if◌then◌else◌, Option, none, some,
  nat_eq,
}
use filecoin.Base.Map.{Map, find, put}
use filecoin.Base.Int.{ℤ, pos, ◌+ℤ◌, ◌-ℤ◌, ◌*ℤ◌, ltb_ℤ}
use filecoin.ChainTypes.TipSet.{TipSet}
use filecoin.ChainTypes.Actor.{Actor}
use filecoin.ChainTypes.Message.{
  SignedMessage, Invalid, valid_for_block_inclusion, block_gas_limit, undef, required_funds, u64,
  u64_of_int,
}
use filecoin.MessagePool.State.{Provider}
use filecoin.MessagePool.GasGuess.{Builtin, guess_gas_used}

-- A float64 is its bits, and those of 0 are 0. `ratio` is the float64 of a reward divided by that of
-- a gas limit, which can be infinite or no number, and `at_least` compares.
pub record Library : Type 0 where
  pub builtin : Builtin
  pub address_bytes : ℕ → List ℕ
  pub ratio : ℤ → ℤ → ℕ
  pub at_least : ℕ → ℕ → Bool

-- a message, with the reward and the gas limit of the messages up to it
pub record Entry : Type 0 where
  pub gas_reward : ℤ
  pub gas_limit : ℤ
  pub msg : SignedMessage

-- The source's lists gasReward, gasLimit and msgs, which grow and are cut together, are one.
pub record SenderMeta : Type 0 where
  pub last_reward : ℤ
  pub last_gas_limit : ℤ
  pub entries : List Entry

pub record Tally : Type 0 where
  pub incl_nonces : Map ℕ ℕ
  pub incl_balances : Map ℕ ℤ
  pub out_by_sender : Map ℕ SenderMeta

unfoldable pub or_zero : Option ℕ → ℕ
or_zero none = 0
or_zero (some n) = n

unfoldable pub balance_or_zero : Option ℤ → ℤ
balance_or_zero none = pos 0
balance_or_zero (some b) = b

unfoldable pub meta_or_new : Option SenderMeta → SenderMeta
meta_or_new none = record { last_reward = pos 0; last_gas_limit = pos 0; entries = [] }
meta_or_new (some sm) = sm

unfoldable pub append_message : SignedMessage → ℤ → SenderMeta → SenderMeta
unfolding u64_of_int ◌+ℤ◌ ◌*ℤ◌
append_message m guess sm =
    let reward = sm.last_reward +ℤ pos (u64_of_int guess) *ℤ m.message.gas_price in
    let limit = sm.last_gas_limit +ℤ m.message.gas_limit in
    record {
      last_reward = reward;
      last_gas_limit = limit;
      entries = sm.entries ++ record { gas_reward = reward; gas_limit = limit; msg = m } ∷ [];
    }

unfoldable pub may_be_included : Option Invalid → SignedMessage → Bool
may_be_included (some e) m = false
may_be_included none m =
    not (ltb_ℤ block_gas_limit m.message.gas_limit) && not (m.message.to == undef)

-- the nonce and the balance of the sender, once for each sender
unfoldable pub look_up_sender : Tally → ℕ → Option ℕ → Option Actor → Option Tally
unfolding put
look_up_sender t from (some nonce) act = some t
look_up_sender t from none none = none
look_up_sender t from none (some act) = some (record t {
  incl_nonces = put from act.nonce t.incl_nonces;
  incl_balances = put from act.balance t.incl_balances;
})

unfoldable pub include : SignedMessage → ℤ → Tally → Tally
unfolding append_message meta_or_new balance_or_zero or_zero required_funds ◌-ℤ◌ find put
include m guess t =
    let from = m.message.from in
    let balance = balance_or_zero (find from t.incl_balances) in
    let nonce = or_zero (find from t.incl_nonces) in
    if ltb_ℤ balance (required_funds m.message)
    then t
    else if ltb nonce m.message.nonce
    then t
    else if ltb m.message.nonce nonce
    then t
    else record {
      incl_nonces = put from (u64 (m.message.nonce + 1)) t.incl_nonces;
      incl_balances = put from (balance -ℤ required_funds m.message) t.incl_balances;
      out_by_sender =
          put from (append_message m guess (meta_or_new (find from t.out_by_sender)))
            t.out_by_sender;
    }

unfoldable pub include_known : SignedMessage → ℤ → Tally → Option Tally → Tally
unfolding include
include_known m guess t none = t
include_known m guess t (some t') = include m guess t'

-- a round of the loop over the messages
unfoldable pub tally_one : Library → Provider → TipSet → SignedMessage → Tally → Tally
unfolding may_be_included valid_for_block_inclusion guess_gas_used look_up_sender include_known find
tally_one lib p ts m t =
    let min_gas = p.min_gas (p.codec.sealed_len m) ts.height in
    let guess = (guess_gas_used lib.builtin (λ a. p.state_get_actor a (some ts)) m).0 in
    let from = m.message.from in
    if may_be_included (valid_for_block_inclusion m.message min_gas) m
    then include_known m guess t
        (look_up_sender t from (find from t.incl_nonces) (p.state_get_actor from none))
    else t

unfoldable pub tally_all : Library → Provider → TipSet → List SignedMessage → Tally → Tally
unfolding tally_one
tally_all lib p ts [] t = t
tally_all lib p ts (m ∷ ms) t = tally_all lib p ts ms (tally_one lib p ts m t)
