-- ===== src/Vm/Gas/Epochs.antt =====
-- The price list in force at an epoch: PricelistByEpoch of chain/vm/gas.go.
use filecoin.Base.{
  ℕ, ◌≤◌, ◌<◌, ◌≡◌, refl, ◌⊎◌, inl, inr, [], ◌∷◌, false, ◌&&◌, ltb, leb, some, nat_eq, arith,
  Bool-cases,
}
use filecoin.Base.Lists.{In, here, there}
use filecoin.Base.Map.{Map, find, AllEntries}
use filecoin.Vm.Gas.{PricelistV0, latest_prices, pricelist_by_epoch}

-- The list `pl` began at `from`, not after the epoch, and no list of the table began between.
pub record InForce (table : Map ℕ PricelistV0) (epoch : ℕ) (pl : PricelistV0) : Type 0 where
  pub from : ℕ
  pub listed : In (from, pl) table
  pub begun : from ≤ epoch
  pub latest : AllEntries (λ k other. (k ≤ from) ⊎ (epoch < k)) table

latest_prices-InForce :
    (epoch b : ℕ) (best : PricelistV0) (l : Map ℕ PricelistV0)
    → b ≤ epoch
    → InForce ((b, best) ∷ l) epoch (latest_prices epoch b best l)
unfolding latest_prices
latest_prices-InForce epoch b best [] h = record {
  from = b;
  listed = here;
  begun = h;
  latest = (inl (omega arith), tt);
}
latest_prices-InForce epoch b best ((e, pl) ∷ l) h = elim (Bool-cases (ltb b e && leb e epoch)) [
  | inl c ↦ rw c (
      newer (latest_prices-InForce epoch e pl l (ground (arith, c))) (ground (arith, c))
        (ground (arith, c)))
  | inr c ↦ rw c (older (latest_prices-InForce epoch b best l h) c)
]
  where
    first : (n : ℕ) → (e ≤ n) ⊎ (epoch < e) → b ≤ e → e ≤ epoch → (b ≤ n) ⊎ (epoch < b)
    first n (inl p) lt s = inl (omega arith)
    first n (inr p) lt s = absurd (omega arith)

    newer :
        {q : PricelistV0}
        → InForce ((e, pl) ∷ l) epoch q
        → b ≤ e
        → e ≤ epoch
        → InForce ((b, best) ∷ (e, pl) ∷ l) epoch q
    newer i lt s = record {
      from = i.from;
      listed = there i.listed;
      begun = i.begun;
      latest = (first i.from i.latest.0 lt s, i.latest);
    }

    skip : {x : ℕ × PricelistV0} → In x ((b, best) ∷ l) → In x ((b, best) ∷ (e, pl) ∷ l)
    skip here = here
    skip (there j) = there (there j)

    passed :
        (n : ℕ) → (b ≤ n) ⊎ (epoch < b) → ltb b e && leb e epoch ≡ false → (e ≤ n) ⊎ (epoch < e)
    passed n (inl p) c = elim (Bool-cases (leb e epoch)) [
      | inl d ↦ inl (ground (arith, c, d, p))
      | inr d ↦ inr (ground (arith, d))
    ]
    passed n (inr p) c = absurd (omega (arith, h, p))

    older :
        {q : PricelistV0}
        → InForce ((b, best) ∷ l) epoch q
        → ltb b e && leb e epoch ≡ false
        → InForce ((b, best) ∷ (e, pl) ∷ l) epoch q
    older i c = record {
      from = i.from;
      listed = skip i.listed;
      begun = i.begun;
      latest = (i.latest.0, (passed i.from i.latest.0 c, i.latest.1));
    }

-- With prices from epoch 0 on, every epoch has a price list: that of the latest epoch in the
-- table that is not after it.
pub pricelist_by_epoch-InForce :
    (prices : Map ℕ PricelistV0) (epoch : ℕ) (first : PricelistV0)
    → find 0 prices ≡ some first
    → (pl : PricelistV0) × (pricelist_by_epoch prices epoch ≡ some pl)
      × InForce ((0, first) ∷ prices) epoch pl
unfolding pricelist_by_epoch
pricelist_by_epoch-InForce prices epoch first e = (
  latest_prices epoch 0 first prices,
  rw (e, pricelist_by_epoch) refl,
  latest_prices-InForce epoch 0 first prices (omega arith),
)
