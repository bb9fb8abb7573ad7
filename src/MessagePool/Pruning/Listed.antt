-- ===== src/MessagePool/Pruning/Listed.antt =====
-- The messages that pruneMessages of chain/messagepool/pruning.go goes over are those of the pool.
use filecoin.Base.{
  ℕ, ◌<◌, ◌^◌, ◌≡◌, refl, sym, subst, [], ◌∷◌, ◌==◌, ==_iff, Option, none, some, nat_eq, arith,
  Bool-cases, Option-cases, inl, inr,
}
use filecoin.Base.Lists.{All, All-append, In, In-append_left, In-append_right}
use filecoin.Base.Map.{Map, find, values, AllEntries, find-AllEntries, find-In, entries_found}
use filecoin.Base.Sort.{sort_by-All}
use filecoin.Base.Sort.Canonical.{sort_by-In}
use filecoin.ChainTypes.Message.{SignedMessage}
use filecoin.MessagePool.MsgSet.{MsgSet}
use filecoin.MessagePool.MsgSet.Invariant.{Under}
use filecoin.MessagePool.State.{MessagePool}
use filecoin.MessagePool.Pool.{nonce_less, pending_of, pending_for, pending_all}
use filecoin.MessagePool.Held.{held, held_in}
use filecoin.MessagePool.Invariant.{Fits, IsSenderSet, IsPool}
use filecoin.MessagePool.Pruning.{msgs_by_nonce}

module _ (mp : MessagePool) (pool : IsPool mp) where
  -- The message stands in the pool, in its own place.
  pub record Pends (m : SignedMessage) : Type 0 where
    pub in_place : held mp m.message.from m.message.nonce ≡ some m
    pub fits : Fits m

  module _ (a : ℕ) (ms : MsgSet) (f : find a mp.pending ≡ some ms)
      (bound : ms.next_nonce < 2 ^ 64) where
    values-Pends :
        (l : Map ℕ SignedMessage)
        → AllEntries (λ n m. find n ms.msgs ≡ some m) l
        → AllEntries (Under ms.next_nonce) l
        → AllEntries (λ n m. m.message.from ≡ a) l
        → All Pends (values l)
    values-Pends [] g u o = tt
    values-Pends ((n, m) ∷ l) g u o = (
      record {
        in_place =
            let there : find m.message.nonce ms.msgs ≡ some m =
              subst (λ k. find k ms.msgs ≡ some m) (sym u.0.0) g.0 in
            subst (λ k. held mp k m.message.nonce ≡ some m) (sym o.0)
              (subst (λ s. held_in s m.message.nonce ≡ some m) (sym f) there);
        fits = omega (arith, u.0.0, u.0.1, bound);
      },
      values-Pends l g.1 u.1 o.1,
    )

  pending_of-Pends : (a : ℕ) (o : Option MsgSet) → find a mp.pending ≡ o → All Pends (pending_of o)
  unfolding pending_of
  pending_of-Pends a none f = tt
  pending_of-Pends a (some ms) f =
      let i = find-AllEntries IsSenderSet a mp.pending ms pool.sets f in
      sort_by-All nonce_less Pends (values ms.msgs) (
        values-Pends a ms f i.bound ms.msgs (entries_found ms.msgs i.formed.distinct) i.formed.under
          i.own)

  pending_all-Pends : (l : Map ℕ MsgSet) → All Pends (pending_all mp l)
  unfolding pending_all pending_for
  pending_all-Pends [] = tt
  pending_all-Pends ((a, ms) ∷ l) =
      All-append Pends (pending_for mp a) (pending_all mp l)
        (pending_of-Pends a (find a mp.pending) refl) (pending_all-Pends l)

  pub msgs_by_nonce-Pends : All Pends (msgs_by_nonce mp)
  unfolding msgs_by_nonce
  msgs_by_nonce-Pends =
      sort_by-All nonce_less Pends (pending_all mp mp.pending) (pending_all-Pends mp.pending)

  -- What stands in a place has its sender and its nonce.
  pub held_place :
      (a n : ℕ) (m : SignedMessage)
      → held mp a n ≡ some m
      → (m.message.from ≡ a) × (m.message.nonce ≡ n)
  held_place a n m h = by_set (find a mp.pending) refl h
    where
      by_set :
          (o : Option MsgSet)
          → find a mp.pending ≡ o
          → held_in o n ≡ some m
          → (m.message.from ≡ a) × (m.message.nonce ≡ n)
      by_set none f q = absurd (cc)
      by_set (some ms) f q =
          let i = find-AllEntries IsSenderSet a mp.pending ms pool.sets f in
          (
            find-AllEntries (λ k x. x.message.from ≡ a) n ms.msgs m i.own q,
            (find-AllEntries (Under ms.next_nonce) n ms.msgs m i.formed.under q).0,
          )

  In-pending_for :
      (a n : ℕ) (m : SignedMessage) (o : Option MsgSet) → held_in o n ≡ some m → In m (pending_of o)
  unfolding pending_of
  In-pending_for a n m none q = absurd (cc)
  In-pending_for a n m (some ms) q = sort_by-In nonce_less (values ms.msgs) (find-In n ms.msgs m q)

  In-pending_all :
      (a : ℕ) (m : SignedMessage) (ms : MsgSet) (l : Map ℕ MsgSet)
      → find a l ≡ some ms
      → In m (pending_for mp a)
      → In m (pending_all mp l)
  unfolding pending_all find
  In-pending_all a m ms [] f i = absurd (cc)
  In-pending_all a m ms ((b, s) ∷ l) f i = elim (Bool-cases (b == a)) [
    | inl y ↦
        In-append_left (pending_all mp l)
          (subst (λ k. In m (pending_for mp k)) (sym ((==_iff b a).0 y)) i)
    | inr y ↦ In-append_right (pending_for mp b) (In-pending_all a m ms l (ground (arith, f, y)) i)
  ]

  pub held-In_msgs : (a n : ℕ) (m : SignedMessage) → held mp a n ≡ some m → In m (msgs_by_nonce mp)
  unfolding msgs_by_nonce pending_for
  held-In_msgs a n m h = elim (Option-cases (find a mp.pending)) [
    | inl e ↦ absurd (by_none e)
    | inr (ms, e) ↦
        sort_by-In nonce_less (pending_all mp mp.pending)
          (In-pending_all a m ms mp.pending e (In-pending_for a n m (find a mp.pending) h))
  ]
    where
      by_none : find a mp.pending ≡ none → ⊥
      by_none e = ground (arith, e, h)
