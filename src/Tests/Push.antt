-- ===== src/Tests/Push.antt =====
-- A pool of three messages to which the node adds its own, and which is pruned.
use filecoin.Base.Sort.{sort_by}
use filecoin.MessagePool.MsgSet.{cid}
use filecoin.MessagePool.Pruning.Cids.{CidsIdentify}
use filecoin.MessagePool.Pruning.Size.{prune_excess_messages_size}
use filecoin.Base.{
  List, zero, suc, ◌+◌, ap, ltb, Bool-cases, inl, inr, ℕ, ◌<◌, ◌≤◌, ◌⊎◌, ◌/◌, leb, ◌+◌, ◌*◌, ◌≡◌,
  refl, [], ◌∷◌, false, Option, none, some, if◌then◌else◌, ltb, nat_eq, arith,
}
use filecoin.Base.Int.{pos_part}
use filecoin.Base.Lists.{take}
use filecoin.Base.Map.{find, put}
use filecoin.ChainTypes.Message.{SignedMessage}
use filecoin.MessagePool.MsgSet.{Codec, add}
use filecoin.MessagePool.State.{Provider, MessagePool, mpool_add, mpool_remove}
use filecoin.MessagePool.Invariant.{IsPool}
use filecoin.MessagePool.Push.{pushed, push_with_nonce, republish_msgs}
use filecoin.MessagePool.Push.Fresh.{Adds, push_with_nonce-Adds}
use filecoin.MessagePool.Push.Republish.{RunsFrom, republish_msgs-RunsFrom}
use filecoin.MessagePool.Tally.{Library}
use filecoin.MessagePool.Pruning.{prune_excess_messages}
use filecoin.MessagePool.Pruning.Kept.{Pruned, prune_excess_messages-Pruned}
use filecoin.Tests.{message, tip_set}
use filecoin.Tests.Pool.{codec, provider, pool, pool-IsPool}

-- A message of the caller's for the key and the nonce; messages with a nonce above 100 are not signed.
abbrev signer : ℕ → ℕ → Option SignedMessage
signer key n = if ltb 100 n then none else some (message key n 2)

signer_true :
    (key n : ℕ) (m : SignedMessage)
    → signer key n ≡ some m
    → (m.message.from ≡ key) × (m.message.nonce ≡ n)
signer_true key n m q = ground (arith, q)

abbrev pool_at : MessagePool
pool_at = record pool { cur_ts = some (tip_set 1 0 10 1) }

pool_at-IsPool : IsPool pool_at
pool_at-IsPool = record {
  distinct = pool-IsPool.distinct;
  sets = pool-IsPool.sets;
  counted = pool-IsPool.counted;
}

abbrev pool_pushed : MessagePool
pool_pushed = record pool_at {
  local_addrs = (5, tt) ∷ [];
  pending =
      (
        5,
        record {
          msgs = (5, message 5 5 2) ∷ (3, message 5 3 1) ∷ (4, message 5 4 1) ∷ [];
          next_nonce = 6;
        },
      )
      ∷ (6, record { msgs = (3, message 6 3 100) ∷ []; next_nonce = 4 })
      ∷ [];
  current_size = 4;
  changes = mpool_add (message 5 5 2) ∷ [];
}

pushes : push_with_nonce provider pool_at 5 signer ≡ some (pool_pushed, pushed (message 5 5 2))
unfolding push_with_nonce find add put
pushes = refl

push_with_nonce-Adds_example : Adds provider pool_at pool_pushed (message 5 5 2)
push_with_nonce-Adds_example =
    push_with_nonce-Adds provider pool_at pool_at-IsPool signer signer_true 5 pool_pushed
      (message 5 5 2) pushes

abbrev pool_with_local : MessagePool
pool_with_local = record pool { local_addrs = (5, tt) ∷ [] }

pool_with_local-IsPool : IsPool pool_with_local
pool_with_local-IsPool = record {
  distinct = pool-IsPool.distinct;
  sets = pool-IsPool.sets;
  counted = pool-IsPool.counted;
}

sends_again : republish_msgs provider pool_with_local ≡ message 5 3 1 ∷ message 5 4 1 ∷ []
unfolding republish_msgs find sort_by
sends_again = refl

republish_msgs-RunsFrom_example :
    (runs : List SignedMessage) × RunsFrom pool_with_local pool_with_local-IsPool provider
      ((5, tt) ∷ [])
      runs
    × (republish_msgs provider pool_with_local ≡ take 5 runs)
republish_msgs-RunsFrom_example =
    republish_msgs-RunsFrom pool_with_local pool_with_local-IsPool provider

-- Ratios are rounded down.
abbrev library : Library
library = record {
  builtin = record {
    init_code = 10;
    market_code = 11;
    miner_code = 12;
    power_code = 13;
    method_send = 0;
    is_secp256k1 = λ a. false;
  };
  address_bytes = λ a. a ∷ [];
  ratio = λ r l. pos_part r / pos_part l;
  at_least = λ a b. leb b a;
}

-- A number for each pair.
unfoldable pair : ℕ → ℕ → ℕ
pair a b = (a + b) * (a + b) + b

square_over : (s t n : ℕ) → n ≤ s → s < t → s * s + n < t * t
square_over s zero n h k = absurd (omega (arith, k))
square_over zero (suc t) n h k = omega (arith, h)
square_over (suc s) (suc t) n h k =
    omega (arith, h, k, square_over s t s (omega arith) (omega (arith, k)))

pair_tells : (a b c d : ℕ) → pair a b ≡ pair c d → (a ≡ c) × (b ≡ d)
unfolding pair
pair_tells a b c d q = elim (Bool-cases (ltb (a + b) (c + d))) [
  | inl e ↦
      let over = square_over (a + b) (c + d) b (omega arith) (ground (arith, e)) in
      absurd (omega (arith, over, q))
  | inr e ↦ elim (Bool-cases (ltb (c + d) (a + b))) [
    | inl f ↦
        let over = square_over (c + d) (a + b) d (omega arith) (ground (arith, f)) in
        absurd (omega (arith, over, q))
    | inr f ↦
        let same : a + b ≡ c + d = ground (arith, e, f) in
        let square : (a + b) * (a + b) ≡ (c + d) * (c + d) = ap (λ s. s * s) same in
        let second : b ≡ d = omega (arith, q, square) in (omega (arith, same, second), second)
  ]
]

-- CIDs that tell the messages apart
abbrev cids : Codec
cids = record codec {
  message_cid = λ m. pair m.from m.nonce;
  sealed_cid = λ m. pair m.message.from m.message.nonce;
}

abbrev pruner : Provider
pruner = record provider { codec = cids }

-- the pool of three messages where one is enough
abbrev pool_full : MessagePool
pool_full = record pool_at { max_tx_pool_size_hi = 3; max_tx_pool_size_lo = 1 }

pool_full-IsPool : IsPool pool_full
pool_full-IsPool = record {
  distinct = pool-IsPool.distinct;
  sets = pool-IsPool.sets;
  counted = pool-IsPool.counted;
}

abbrev pool_pruned : MessagePool
pool_pruned = record pool_full {
  pending = (6, record { msgs = (3, message 6 3 100) ∷ []; next_nonce = 4 }) ∷ [];
  current_size = 1;
  changes = mpool_remove (message 5 4 1) ∷ mpool_remove (message 5 3 1) ∷ [];
}

prunes : prune_excess_messages library pruner pool_full ≡ some pool_pruned
unfolding prune_excess_messages pair
prunes = refl

prune_excess_messages-Pruned_example :
    (mp' : MessagePool) × (prune_excess_messages library pruner pool_full ≡ some mp')
    × (((3 < 3) × (mp' ≡ pool_full))
        ⊎ ((3 ≤ 3) × Pruned library pruner (tip_set 1 0 10 1) pool_full mp'))
prune_excess_messages-Pruned_example =
    prune_excess_messages-Pruned library pruner pool_full pool_full-IsPool (tip_set 1 0 10 1) refl

cids_tell : CidsIdentify cids
unfolding cid
cids_tell m k q =
    pair_tells m.message.from m.message.nonce k.message.from k.message.nonce (ground (arith, q))

prune_excess_messages_size_example :
    (mp' : MessagePool) × (prune_excess_messages library pruner pool_full ≡ some mp')
    × (mp'.current_size ≤ 1)
prune_excess_messages_size_example =
    prune_excess_messages_size library pruner pool_full (tip_set 1 0 10 1) pool_full-IsPool
      cids_tell refl (omega arith)
