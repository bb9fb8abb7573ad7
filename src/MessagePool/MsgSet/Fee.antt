-- ===== src/MessagePool/MsgSet/Fee.antt =====
-- Replacing a pending message by one that pays more.
use filecoin.Base.{
  ◌*◌, ◌+◌, ◌≤◌, ◌<◌, ◌≡◌, ◌≢◌, true, false, some, nat_eq, arith, ◌⊎◌, inl, inr, Bool-cases,
}
use filecoin.Base.Map.{find, put, find-put_self}
use filecoin.Base.Int.{pos, ◌+ℤ◌, leb_ℤ, pos_part, neg_part, ℤ, negsuc, ◌*ℤ◌}
use filecoin.ChainTypes.Message.{SignedMessage}
use filecoin.MessagePool.MsgSet.{
  Codec, MsgSet, cid, add, advance, added, price_too_low, min_price, raise_price, div_ℤ,
}

-- Four times the price is more than five times the other: it is more than 1.25 times the other,
-- whatever the signs.
abbrev pub FiveFourths : ℤ → ℤ → Type 0
FiveFourths p q = 5 * pos_part p + 4 * neg_part q < 4 * pos_part q + 5 * neg_part p

min_price-FiveFourths : (p q : ℤ) → leb_ℤ (min_price p) q ≡ true → FiveFourths p q
unfolding min_price raise_price div_ℤ ◌+ℤ◌ ◌*ℤ◌
min_price-FiveFourths (pos n) (pos k) e = ground (arith, e)
min_price-FiveFourths (pos n) (negsuc k) e = ground (arith, e)
min_price-FiveFourths (negsuc n) (pos k) e = ground (arith, e)
min_price-FiveFourths (negsuc n) (negsuc k) e = ground (arith, e)

min_price_above :
    (p q : ℤ)
    → leb_ℤ (min_price p) q ≡ false
    → 4 * pos_part q + 5 * neg_part p ≤ 5 * pos_part p + 4 * neg_part q
unfolding min_price raise_price div_ℤ ◌+ℤ◌ ◌*ℤ◌
min_price_above (pos n) (pos k) e = ground (arith, e)
min_price_above (pos n) (negsuc k) e = ground (arith, e)
min_price_above (negsuc n) (pos k) e = ground (arith, e)
min_price_above (negsuc n) (negsuc k) e = ground (arith, e)

-- A message of another CID replaces the pending one of its nonce exactly if it pays the least
-- price, whatever the sign of the pending price; else the pending one stays.
pub add_replaces_iff :
    (c : Codec) (ms : MsgSet) (m ex : SignedMessage)
    → find m.message.nonce ms.msgs ≡ some ex
    → cid c m ≢ cid c ex
    → ((add c ms m).1 ≡ added false)
        × (find m.message.nonce (add c ms m).0.msgs ≡ some m)
        × (leb_ℤ (min_price ex.message.gas_price) m.message.gas_price ≡ true)
      ⊎ ((add c ms m).1 ≡ price_too_low)
        × (find m.message.nonce (add c ms m).0.msgs ≡ some ex)
        × (leb_ℤ (min_price ex.message.gas_price) m.message.gas_price ≡ false)
unfolding add cid
add_replaces_iff c ms m ex f d =
    elim (Bool-cases (leb_ℤ (min_price ex.message.gas_price) m.message.gas_price)) [
      | inl e ↦ inl (
        ground arith,
        ground (arith, find-put_self m.message.nonce m (advance ms m.message.nonce).msgs),
        e,
      )
      | inr e ↦ inr (ground arith, ground arith, e)
    ]

-- A message of another CID takes the place of the pending one of its nonce, which is the only
-- change to the messages, exactly if its gas price is more than 1.25 times the pending one,
-- whatever the signs of the prices; else it is refused and the messages stay.
pub add_needs_ratio :
    (c : Codec) (ms : MsgSet) (m ex : SignedMessage)
    → find m.message.nonce ms.msgs ≡ some ex
    → cid c m ≢ cid c ex
    → let p = ex.message.gas_price in
      let q = m.message.gas_price in
      FiveFourths p q
        × ((add c ms m).1 ≡ added false)
        × ((add c ms m).0.msgs ≡ put m.message.nonce m ms.msgs)
      ⊎ (4 * pos_part q + 5 * neg_part p ≤ 5 * pos_part p + 4 * neg_part q)
        × ((add c ms m).1 ≡ price_too_low)
        × ((add c ms m).0.msgs ≡ ms.msgs)
unfolding add cid advance
add_needs_ratio c ms m ex f d =
    let p = ex.message.gas_price in
    let q = m.message.gas_price in
    elim (Bool-cases (leb_ℤ (min_price p) q)) [
      | inl e ↦ inl (min_price-FiveFourths p q e, ground arith, ground arith)
      | inr e ↦ inr (min_price_above p q e, ground arith, ground arith)
    ]
