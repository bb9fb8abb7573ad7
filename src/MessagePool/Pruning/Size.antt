-- ===== src/MessagePool/Pruning/Size.antt =====
-- The size of the pool after pruneExcessMessages of chain/messagepool/pruning.go.
use filecoin.Base.{
  ℕ, suc, ◌≤◌, ◌≡◌, refl, sym, ap, subst, List, [], ◌∷◌, map, Option, none, some, nat_eq, arith,
  inl, inr,
}
use filecoin.Base.Lists.{length, All, All-append, In}
use filecoin.Base.Map.{Map, find, values, AllEntries, entries_found}
use filecoin.ChainTypes.TipSet.{TipSet}
use filecoin.ChainTypes.Message.{SignedMessage}
use filecoin.MessagePool.MsgSet.{Codec, MsgSet, cid}
use filecoin.MessagePool.State.{Provider, MessagePool}
use filecoin.MessagePool.Held.{held, held_in}
use filecoin.MessagePool.Invariant.{IsSenderSet, IsPool}
use filecoin.MessagePool.Tally.{Library}
use filecoin.MessagePool.Pruning.{prune_excess_messages}
use filecoin.MessagePool.Pruning.Kept.{StaysIf, Pruned, prune_excess_messages-Pruned}
use filecoin.MessagePool.Pruning.Cids.{
  all_messages, length-all_messages, CidsIdentify, length-le, all_messages-Different,
}

stays_chosen :
    (c : Codec) (out : List SignedMessage) (m : SignedMessage) (before after : Option SignedMessage)
    → StaysIf c out before after
    → after ≡ some m
    → In (cid c m) (map (cid c) out)
stays_chosen c out m none after s q = absurd (cc)
stays_chosen c out m (some k) after (inl (i, e)) q =
    let one : k ≡ m = ground (arith, e, q) in subst (λ x. In (cid c x) (map (cid c) out)) one i
stays_chosen c out m (some k) after (inr (d, e)) q = absurd (cc)

module _ (lib : Library) (p : Provider) (ts : TipSet) (mp mp' : MessagePool)
    (r : Pruned lib p ts mp mp') where
  abbrev c : Codec
  c = p.codec

  values_chosen :
      (a : ℕ) (ms : MsgSet) (f : find a mp'.pending ≡ some ms) (msgs : Map ℕ SignedMessage)
      → AllEntries (λ n m. find n ms.msgs ≡ some m) msgs
      → All (λ m. In (cid c m) (map (cid c) r.out)) (values msgs)
  values_chosen a ms f [] g = tt
  values_chosen a ms f ((n, m) ∷ msgs) g =
      let placed : held mp' a n ≡ some m = subst (λ s. held_in s n ≡ some m) (sym f) g.0 in
      (
        stays_chosen c r.out m (held mp a n) (held mp' a n) (r.stays a n) placed,
        values_chosen a ms f msgs g.1,
      )

  all_chosen :
      (l : Map ℕ MsgSet)
      → AllEntries (λ a ms. find a mp'.pending ≡ some ms) l
      → AllEntries IsSenderSet l
      → All (λ m. In (cid c m) (map (cid c) r.out)) (all_messages l)
  all_chosen [] f i = tt
  all_chosen ((a, ms) ∷ l) f i =
      All-append (λ m. In (cid c m) (map (cid c) r.out)) (values ms.msgs) (all_messages l)
        (values_chosen a ms f.0 ms.msgs (entries_found ms.msgs i.0.formed.distinct))
        (all_chosen l f.1 i.1)

  length_cids : (l : List SignedMessage) → length (map (cid c) l) ≡ length l
  length_cids [] = refl
  length_cids (m ∷ l) = ap suc (length_cids l)

  Pruned-size : CidsIdentify c → mp'.current_size ≤ mp.max_tx_pool_size_lo
  Pruned-size same =
      let s = r.pool_kept in
      omega (
        arith,
        s.counted,
        r.few,
        length_cids r.out,
        length-all_messages mp'.pending,
        length-le c same (map (cid c) r.out) (all_messages mp'.pending)
            (all_messages-Different c same mp'.pending s.distinct s.sets)
            (all_chosen mp'.pending (entries_found mp'.pending s.distinct) s.sets),
      )

-- Pruning a well-formed pool with a current tipset that has reached the high limit ends without a
-- panic, and leaves at most as many messages as the low limit says, where CIDs tell messages of
-- different senders or nonces apart.
pub prune_excess_messages_size :
    (lib : Library) (p : Provider) (mp : MessagePool) (ts : TipSet)
    → IsPool mp
    → CidsIdentify p.codec
    → mp.cur_ts ≡ some ts
    → mp.max_tx_pool_size_hi ≤ mp.current_size
    → (mp' : MessagePool) × (prune_excess_messages lib p mp ≡ some mp')
      × (mp'.current_size ≤ mp.max_tx_pool_size_lo)
prune_excess_messages_size lib p mp ts pool same q h =
    let (mp', e, r) = prune_excess_messages-Pruned lib p mp pool ts q in
    elim r [
      | inl (s, _) ↦ absurd (omega (arith, h, s))
      | inr (_, r') ↦ (mp', e, Pruned-size lib p ts mp mp' r' same)
    ]
