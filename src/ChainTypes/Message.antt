-- ===== src/ChainTypes/Message.antt =====
-- chain/types/message.go and signedmessage.go. An address is an identifier, `undef` the empty one;
-- a `BigInt` is an integer without bounds; an `int64` is an integer, and its conversion to
-- `uint64` is written out.
use Prim.Native.Nat.{◌^◌, ◌%◌}
use filecoin.Base.{ℕ, ◌-◌, ◌*◌, List, Bool, ◌==◌, if◌then◌else◌, Option, none, some, not, ◌&&◌}
use filecoin.Base.Int.{ℤ, pos, negsuc, ◌*ℤ◌, ltb_ℤ}
use filecoin.ChainTypes.BlockHeader.{Signature}

abbrev pub undef : ℕ
undef = 0

pub record Message : Type 0 where
  pub version : ℤ
  pub to : ℕ
  pub from : ℕ
  pub nonce : ℕ
  pub value : ℤ
  pub gas_price : ℤ
  pub gas_limit : ℤ
  pub method : ℕ
  pub params : List ℕ

pub record SignedMessage : Type 0 where
  pub message : Message
  pub signature : Signature

abbrev pub u64 : ℕ → ℕ
u64 n = n % 2 ^ 64

-- uint64(x) of an int64 x
unfoldable pub u64_of_int : ℤ → ℕ
u64_of_int (pos n) = u64 n
u64_of_int (negsuc n) = 2 ^ 64 - 1 - u64 n

-- build.BlockGasLimit
abbrev pub block_gas_limit : ℤ
block_gas_limit = pos 7500000000

-- types.TotalFilecoinInt = build.FilBase * build.FilecoinPrecision
abbrev pub total_filecoin : ℤ
total_filecoin = pos (2000000000 * 1000000000000000000)

unfoldable pub required_funds : Message → ℤ
unfolding u64_of_int ◌*ℤ◌
required_funds m = m.gas_price *ℤ pos (u64_of_int m.gas_limit)

pub data Invalid : Type 0 where
  version_unsupported to_empty from_empty value_negative value_too_high price_negative : Invalid
  gas_limit_too_high gas_limit_too_low : Invalid

abbrev is_zero : ℤ → Bool
is_zero v = not (ltb_ℤ v (pos 0)) && not (ltb_ℤ (pos 0) v)

-- `none` is the nil error
unfoldable pub valid_for_block_inclusion : Message → ℤ → Option Invalid
valid_for_block_inclusion m min_gas =
    if not (is_zero m.version)
    then some version_unsupported
    else if m.to == undef
    then some to_empty
    else if m.from == undef
    then some from_empty
    else if ltb_ℤ m.value (pos 0)
    then some value_negative
    else if ltb_ℤ total_filecoin m.value
    then some value_too_high
    else if ltb_ℤ m.gas_price (pos 0)
    then some price_negative
    else if ltb_ℤ block_gas_limit m.gas_limit
    then some gas_limit_too_high
    else if ltb_ℤ m.gas_limit min_gas
    then some gas_limit_too_low
    else none
