-- ===== src/MessagePool/Invariant/Remove.antt =====
-- Removing a message keeps the pool well formed: remove of chain/messagepool/messagepool.go.
use filecoin.Base.{
  ℕ, ◌+◌, ◌<◌, ◌^◌, ◌≡◌, refl, subst, [], ◌∷◌, Option, none, some, nat_eq, arith, inl, inr,
  Option-cases,
}
use filecoin.Base.Lists.{length}
use filecoin.Base.Map.{
  Map, find, erase, Distinct, erase-Distinct, AllEntries, erase-AllEntries, erase-none,
  find-AllEntries, length-erase,
}
use filecoin.ChainTypes.Message.{SignedMessage}
use filecoin.MessagePool.MsgSet.{MsgSet, after_removal}
use filecoin.MessagePool.MsgSet.Invariant.{Under, after_removal-IsMsgSet}
use filecoin.MessagePool.State.{MessagePool}
use filecoin.MessagePool.Pool.{remove, remove_from, publish_removal, put_back}
use filecoin.MessagePool.Invariant.{
  IsSenderSet, Sound, IsPool, message_count-erase, Sound-over, Sound-erase,
}

module _ (from nonce : ℕ) (fits : nonce + 1 < 2 ^ 64) where
  -- the set after the removal
  removed-IsSet :
      (ms : MsgSet) (left : Map ℕ SignedMessage)
      → IsSenderSet from ms
      → erase nonce ms.msgs ≡ left
      → 0 < length left
      → IsSenderSet from (after_removal (record ms { msgs = left }) nonce)
  unfolding after_removal
  removed-IsSet ms left i e l = record {
    formed =
        after_removal-IsMsgSet (record ms { msgs = left }) nonce fits i.bound
          (record {
            distinct = subst Distinct e (erase-Distinct nonce ms.msgs i.formed.distinct);
            under =
                subst (AllEntries (Under ms.next_nonce)) e
                  (erase-AllEntries (Under ms.next_nonce) nonce ms.msgs i.formed.under);
          });
    bound = omega arith;
    filled = l;
    own =
        subst (AllEntries (λ n m. m.message.from ≡ from)) e
          (erase-AllEntries (λ n m. m.message.from ≡ from) nonce ms.msgs i.own);
  }

  put_back-Sound :
      (ms : MsgSet) (left : Map ℕ SignedMessage) (l : Map ℕ MsgSet) (size size' : ℕ)
      → find from l ≡ some ms
      → erase nonce ms.msgs ≡ left
      → size' + length ms.msgs ≡ length left + size
      → Sound l size
      → Sound (put_back from ms left nonce l) size'
  unfolding put_back
  put_back-Sound ms [] l size size' f e c s =
      Sound-erase from ms ms l size size' f (omega (arith, c)) s
  put_back-Sound ms (x ∷ left) l size size' f e c s =
      let kept = after_removal (record ms { msgs = x ∷ left }) nonce in
      let i = find-AllEntries IsSenderSet from l ms s.sets f in
      Sound-over from kept ms l size size' f (removed-IsSet ms (x ∷ left) i e (omega arith)) c s

  size_after :
      (mp : MessagePool) (ms : MsgSet)
      → find from mp.pending ≡ some ms
      → IsPool mp
      → (publish_removal (find nonce ms.msgs) mp).current_size + length ms.msgs
        ≡ length (erase nonce ms.msgs) + mp.current_size
  unfolding publish_removal
  size_after mp ms f s =
      let i = find-AllEntries IsSenderSet from mp.pending ms s.sets f in
      elim (Option-cases (find nonce ms.msgs)) [
        | inl e ↦ rw (e, erase-none nonce ms.msgs e) (omega arith)
        | inr (m, e) ↦ rw e (
            omega (
              arith,
              s.counted,
              message_count-erase from mp.pending ms s.distinct f,
              i.filled,
              length-erase nonce ms.msgs m i.formed.distinct e,
            ))
      ]

  -- Removing a nonce other than the largest one, known or not, leaves every sender's set well
  -- formed, no set empty, and the count of messages right.
  pub remove-IsPool : (mp : MessagePool) → IsPool mp → IsPool (remove mp from nonce)
  unfolding remove remove_from
  remove-IsPool mp s = by_set (find from mp.pending) refl
    where
      by_set : (o : Option MsgSet) → find from mp.pending ≡ o → IsPool (remove_from mp from nonce o)
      by_set none f = s
      by_set (some ms) f =
          put_back-Sound ms (erase nonce ms.msgs) mp.pending mp.current_size _ f refl
            (size_after mp ms f s) s
