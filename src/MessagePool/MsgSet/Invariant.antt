-- ===== src/MessagePool/MsgSet/Invariant.antt =====
-- What holds of a sender's set of messages, and that adding and removing keep it.
use filecoin.Base.{
  ℕ, ◌+◌, ◌-◌, ◌^◌, ◌≤◌, ◌<◌, ◌≡◌, refl, [], ◌∷◌, true, ◌||◌, ltb, leb, ◌==◌, if◌then◌else◌, nat_eq,
  arith, Bool-cases, Option-cases, inl, inr,
}
use filecoin.Base.Map.{
  Map, find, Distinct, AllEntries, AllEntries-mono, put-Distinct, put-AllEntries,
}
use filecoin.Base.Int.{leb_ℤ}
use filecoin.ChainTypes.Message.{SignedMessage, u64}
use filecoin.MessagePool.MsgSet.{
  Codec, MsgSet, cid, add, advance, store, is_empty, min_price, max_nonce, after_removal,
}

-- The messages below the nonce `n`, each under its own nonce.
abbrev pub Under : ℕ → ℕ → SignedMessage → Type 0
Under n k m = (m.message.nonce ≡ k) × (k < n)

pub record IsMsgSet (ms : MsgSet) : Type 0 where
  pub distinct : Distinct ms.msgs
  pub under : AllEntries (Under ms.next_nonce) ms.msgs

module _ (ms : MsgSet) (nonce : ℕ) (fits : nonce + 1 < 2 ^ 64) (v : IsMsgSet ms) where
  advance-Under : AllEntries (Under (advance ms nonce).next_nonce) ms.msgs
  unfolding advance
  advance-Under = elim (Bool-cases (is_empty ms.msgs)) [
    | inl e ↦ empty _ ms.msgs e
    | inr e ↦ rw e (elim (Bool-cases (leb ms.next_nonce nonce)) [
      | inl f ↦
          rw f (AllEntries-mono (Under ms.next_nonce) _ ms.msgs (λ k m u. ground arith) v.under)
      | inr f ↦ rw f v.under
    ])
  ]
    where
      empty :
          (P : ℕ → SignedMessage → Type 0) (l : Map ℕ SignedMessage)
          → is_empty l ≡ true
          → AllEntries P l
      empty P [] e = tt
      empty P (x ∷ l) e = absurd (cc)

  advance_above : nonce < (advance ms nonce).next_nonce
  unfolding advance
  advance_above = ground arith

  msgs-advance : (advance ms nonce).msgs ≡ ms.msgs
  unfolding advance
  msgs-advance = ground arith

module _ (ms : MsgSet) (m : SignedMessage) (fits : m.message.nonce + 1 < 2 ^ 64)
    (v : IsMsgSet ms) where
  store-IsMsgSet : IsMsgSet (store (advance ms m.message.nonce) m)
  unfolding store
  store-IsMsgSet = record {
    distinct =
        rw (msgs-advance ms m.message.nonce fits v)
          (put-Distinct m.message.nonce m ms.msgs v.distinct);
    under = rw (msgs-advance ms m.message.nonce fits v) (
        put-AllEntries (Under (advance ms m.message.nonce).next_nonce) m.message.nonce m ms.msgs
          (refl, advance_above ms m.message.nonce fits v)
          (advance-Under ms m.message.nonce fits v));
  }

  same-IsMsgSet : IsMsgSet (advance ms m.message.nonce)
  same-IsMsgSet = record {
    distinct = rw (msgs-advance ms m.message.nonce fits v) v.distinct;
    under = rw (msgs-advance ms m.message.nonce fits v) (advance-Under ms m.message.nonce fits v);
  }

  -- Adding a message, accepted or refused, keeps the set: no nonce twice, every message under its
  -- own nonce, all nonces below the next one.
  pub add-IsMsgSet : (c : Codec) → IsMsgSet (add c ms m).0
  unfolding add
  add-IsMsgSet c = elim (Option-cases (find m.message.nonce ms.msgs)) [
    | inl e ↦ rw e store-IsMsgSet
    | inr (ex, e) ↦
        rw e
          (elim (Bool-cases
            (cid c m == cid c ex || leb_ℤ (min_price ex.message.gas_price) m.message.gas_price)) [
              | inl f ↦ rw f store-IsMsgSet
              | inr f ↦ rw f same-IsMsgSet
            ])
  ]

max_nonce-ge : (l : Map ℕ SignedMessage) (a : ℕ) → a ≤ max_nonce l a
unfolding max_nonce
max_nonce-ge [] a = omega arith
max_nonce-ge ((k, m) ∷ l) a = ground (arith, max_nonce-ge l (if ltb a k then k else a))

max_nonce-Under :
    (l : Map ℕ SignedMessage) (a n : ℕ)
    → AllEntries (Under n) l
    → AllEntries (Under (max_nonce l a + 1)) l
unfolding max_nonce
max_nonce-Under [] a n h = tt
max_nonce-Under ((k, m) ∷ l) a n h = (
  (h.0.0, ground (arith, max_nonce-ge l (if ltb a k then k else a))),
  max_nonce-Under l (if ltb a k then k else a) n h.1,
)

max_nonce-lt :
    (l : Map ℕ SignedMessage) (a n : ℕ) → a < n → AllEntries (Under n) l → max_nonce l a < n
unfolding max_nonce
max_nonce-lt [] a n p h = p
max_nonce-lt ((k, m) ∷ l) a n p h = max_nonce-lt l (if ltb a k then k else a) n (ground arith) h.1

-- Setting the next nonce anew, after the message of a nonce has gone, keeps the set.
pub after_removal-IsMsgSet :
    (ms : MsgSet) (nonce : ℕ)
    → nonce + 1 < 2 ^ 64
    → ms.next_nonce < 2 ^ 64
    → IsMsgSet ms
    → IsMsgSet (after_removal ms nonce)
unfolding after_removal
after_removal-IsMsgSet ms nonce fits bound v = record {
  distinct = v.distinct;
  under =
      AllEntries-mono (Under (max_nonce ms.msgs 0 + 1)) _ ms.msgs (λ k m u. (u.0, above k u.1))
        (max_nonce-Under ms.msgs 0 ms.next_nonce v.under);
}
  where
    above :
        (k : ℕ)
        → k < max_nonce ms.msgs 0 + 1
        → k < u64 ((if ltb (max_nonce ms.msgs 0) nonce then nonce else max_nonce ms.msgs 0) + 1)
    above k lt =
        let top = max_nonce-lt ms.msgs 0 (2 ^ 64 - 1) (omega arith) (
          AllEntries-mono (Under ms.next_nonce) (Under (2 ^ 64 - 1)) ms.msgs
            (λ j m u. (u.0, omega arith)) v.under) in
        ground arith
