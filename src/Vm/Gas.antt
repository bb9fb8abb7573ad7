-- ===== src/Vm/Gas.antt =====
-- chain/vm/gas.go, gas_v0.go and the charging of gas in runtime.go. An `int64` of gas is an
-- integer: the prices are constants below 2 ^ 32, and sizes and limits keep the sums far below
-- 2 ^ 63. The names and extras of charges, which go to traces only, are left out.
pub mod Charge
pub mod Epochs
use filecoin.Base.{
  zero, suc, ◌/◌, ℕ, Bool, true, false, List, [], ◌∷◌, Option, none, some, if◌then◌else◌, ◌==◌, not,
  nat_eq, ◌&&◌, ltb, leb,
}
use filecoin.Base.Map.{Map, find}
use filecoin.Base.Int.{ℤ, pos, negsuc, ◌+ℤ◌, ◌*ℤ◌, ◌-ℤ◌, ltb_ℤ, leb_ℤ}

pub record GasCharge : Type 0 where
  pub compute_gas : ℤ
  pub storage_gas : ℤ
  pub virtual_compute : ℤ
  pub virtual_storage : ℤ

abbrev pub gas_storage_multi : ℤ
gas_storage_multi = pos 1000

abbrev pub gas_compute_multi : ℤ
gas_compute_multi = pos 1

unfoldable pub total : GasCharge → ℤ
unfolding ◌+ℤ◌ ◌*ℤ◌
total g = g.compute_gas *ℤ gas_compute_multi +ℤ g.storage_gas *ℤ gas_storage_multi

unfoldable pub with_virtual : GasCharge → ℤ → ℤ → GasCharge
with_virtual g compute storage = record g { virtual_compute = compute; virtual_storage = storage }

unfoldable pub new_gas_charge : ℤ → ℤ → GasCharge
new_gas_charge compute storage = record {
  compute_gas = compute;
  storage_gas = storage;
  virtual_compute = pos 0;
  virtual_storage = pos 0;
}

pub record ScalingCost : Type 0 where
  pub flat : ℤ
  pub scale : ℤ

pub record PricelistV0 : Type 0 where
  pub on_chain_message_compute_base : ℤ
  pub on_chain_message_storage_base : ℤ
  pub on_chain_message_storage_per_byte : ℤ
  pub on_chain_return_value_per_byte : ℤ
  pub send_base : ℤ
  pub send_transfer_funds : ℤ
  pub send_transfer_only_premium : ℤ
  pub send_invoke_method : ℤ
  pub ipld_get_base : ℤ
  pub ipld_put_base : ℤ
  pub ipld_put_per_byte : ℤ
  pub create_actor_compute : ℤ
  pub create_actor_storage : ℤ
  pub delete_actor : ℤ
  pub verify_signature : Map ℕ ℤ
  pub hashing_base : ℤ
  pub compute_unsealed_sector_cid_base : ℤ
  pub verify_seal_base : ℤ
  pub verify_post_lookup : Map ℕ ScalingCost
  pub verify_consensus_fault : ℤ

-- The numbers of the kinds of signatures and proofs, and of the method that only sends funds,
-- which specs-actors defines.
pub record Numbers : Type 0 where
  pub sig_bls : ℕ
  pub sig_secp256k1 : ℕ
  pub window_512mib : ℕ
  pub window_32gib : ℕ
  pub window_64gib : ℕ
  pub method_send : ℕ

unfoldable pub prices_v0 : Numbers → PricelistV0
prices_v0 n = record {
  on_chain_message_compute_base = pos 137137;
  on_chain_message_storage_base = pos 36;
  on_chain_message_storage_per_byte = pos 1;
  on_chain_return_value_per_byte = pos 1;
  send_base = pos 97236;
  send_transfer_funds = pos 96812;
  send_transfer_only_premium = pos 347806;
  send_invoke_method = negsuc 3109;
  ipld_get_base = pos 417230;
  ipld_put_base = pos 396100;
  ipld_put_per_byte = pos 1;
  create_actor_compute = pos 750011;
  create_actor_storage = pos 76;
  delete_actor = negsuc 75;
  verify_signature = (n.sig_bls, pos 219946580) ∷ (n.sig_secp256k1, pos 6726720) ∷ [];
  hashing_base = pos 110685;
  compute_unsealed_sector_cid_base = pos 431890;
  verify_seal_base = pos 2000;
  verify_post_lookup =
      (n.window_512mib, record { flat = pos 106102820; scale = pos 10238878 })
      ∷ (n.window_32gib, record { flat = pos 1165718059; scale = pos 166657 })
      ∷ (n.window_64gib, record { flat = pos 1165718059; scale = pos 166657 })
      ∷ [];
  verify_consensus_fault = pos 495422;
}

-- the loop of PricelistByEpoch over the map of price lists by their first epoch
unfoldable pub latest_prices : ℕ → ℕ → PricelistV0 → Map ℕ PricelistV0 → PricelistV0
latest_prices epoch best_epoch best [] = best
latest_prices epoch best_epoch best ((e, pl) ∷ rest) =
    let later = ltb best_epoch e && leb e epoch in
    latest_prices epoch (if later then e else best_epoch) (if later then pl else best) rest

-- `prices` has a list for epoch 0; where there is none the source panics
unfoldable pub pricelist_by_epoch : Map ℕ PricelistV0 → ℕ → Option PricelistV0
unfolding latest_prices
pricelist_by_epoch prices epoch = elim (find 0 prices) [
  | none ↦ none
  | some first ↦ some (latest_prices epoch 0 first prices)
]

unfoldable pub on_chain_message : PricelistV0 → ℕ → GasCharge
unfolding new_gas_charge ◌+ℤ◌ ◌*ℤ◌
on_chain_message pl msg_size =
    new_gas_charge pl.on_chain_message_compute_base
      (pl.on_chain_message_storage_base +ℤ pl.on_chain_message_storage_per_byte *ℤ pos msg_size)

unfoldable pub on_chain_return_value : PricelistV0 → ℕ → GasCharge
unfolding new_gas_charge ◌*ℤ◌
on_chain_return_value pl data_size =
    new_gas_charge (pos 0) (pos data_size *ℤ pl.on_chain_return_value_per_byte)

abbrev pub is_zero : ℤ → Bool
is_zero v = not (ltb_ℤ v (pos 0)) && not (ltb_ℤ (pos 0) v)

unfoldable pub on_method_invocation : Numbers → PricelistV0 → ℤ → ℕ → GasCharge
unfolding new_gas_charge ◌+ℤ◌
on_method_invocation n pl value method_num =
    let send = method_num == n.method_send in
    let funds =
      if is_zero value
      then pl.send_base
      else if send
      then pl.send_base +ℤ pl.send_transfer_funds +ℤ pl.send_transfer_only_premium
      else pl.send_base +ℤ pl.send_transfer_funds in
    new_gas_charge (if send then funds else funds +ℤ pl.send_invoke_method) (pos 0)

unfoldable pub on_ipld_get : PricelistV0 → GasCharge
unfolding new_gas_charge
on_ipld_get pl = new_gas_charge pl.ipld_get_base (pos 0)

unfoldable pub on_ipld_put : PricelistV0 → ℕ → GasCharge
unfolding new_gas_charge ◌*ℤ◌
on_ipld_put pl data_size = new_gas_charge pl.ipld_put_base (pos data_size *ℤ pl.ipld_put_per_byte)

unfoldable pub on_create_actor : PricelistV0 → GasCharge
unfolding new_gas_charge
on_create_actor pl = new_gas_charge pl.create_actor_compute pl.create_actor_storage

unfoldable pub on_delete_actor : PricelistV0 → GasCharge
unfolding new_gas_charge
on_delete_actor pl = new_gas_charge (pos 0) pl.delete_actor

-- `none` is the error of an unsupported kind of signature
unfoldable pub on_verify_signature : PricelistV0 → ℕ → Option GasCharge
unfolding new_gas_charge
on_verify_signature pl sig_type = elim (find sig_type pl.verify_signature) [
  | none ↦ none
  | some cost ↦ some (new_gas_charge cost (pos 0))
]

unfoldable pub on_hashing : PricelistV0 → GasCharge
unfolding new_gas_charge
on_hashing pl = new_gas_charge pl.hashing_base (pos 0)

unfoldable pub on_verify_seal : PricelistV0 → GasCharge
unfolding new_gas_charge
on_verify_seal pl = new_gas_charge pl.verify_seal_base (pos 0)

unfoldable pub on_verify_consensus_fault : PricelistV0 → GasCharge
unfolding new_gas_charge
on_verify_consensus_fault pl = new_gas_charge pl.verify_consensus_fault (pos 0)

unfoldable pub on_compute_unsealed_sector_cid : PricelistV0 → GasCharge
unfolding new_gas_charge
on_compute_unsealed_sector_cid pl = new_gas_charge pl.compute_unsealed_sector_cid_base (pos 0)

-- Go's division by 2 of a signed integer, which rounds towards 0
abbrev half : ℤ → ℤ
half (pos n) = pos (n / 2)
half (negsuc zero) = pos 0
half (negsuc (suc n)) = negsuc (n / 2)

-- the number of the first proof's type, 0 if there is no proof
abbrev pub proof_type : List ℕ → ℕ
proof_type [] = 0
proof_type (t ∷ ts) = t

abbrev pub cost_or : ScalingCost → Option ScalingCost → ScalingCost
cost_or cost none = cost
cost_or cost (some c) = c

-- by the types of the proofs and the number of the challenged sectors
unfoldable pub on_verify_post : Numbers → PricelistV0 → List ℕ → ℕ → GasCharge
unfolding new_gas_charge ◌+ℤ◌ ◌*ℤ◌
on_verify_post n pl proofs challenged =
    let none_listed =
      cost_or (record { flat = pos 0; scale = pos 0 })
        (find n.window_512mib pl.verify_post_lookup) in
    let cost = cost_or none_listed (find (proof_type proofs) pl.verify_post_lookup) in
    new_gas_charge (half (cost.flat +ℤ pos challenged *ℤ cost.scale)) (pos 0)
