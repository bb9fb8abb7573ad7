-- ===== src/ChainTypes/Actor.antt =====
-- chain/types/actor.go.
use filecoin.Base.{ℕ}
use filecoin.Base.Int.{ℤ}

pub record Actor : Type 0 where
  pub code : ℕ
  pub head : ℕ
  pub nonce : ℕ
  pub balance : ℤ
