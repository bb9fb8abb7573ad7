-- ===== src/MessagePool/Invariant/Add.antt =====
-- Adding a message keeps the pool well formed: addLocked of chain/messagepool/messagepool.go.
use filecoin.Base.{
  ℕ, ◌+◌, ◌<◌, ◌^◌, ◌≡◌, refl, ap, subst, sym, ◌∙◌, true, false, Option, none, some, nat_eq, arith,
  inl, inr, Bool-cases, ◌==◌, ◌||◌,
}
use filecoin.Base.Lists.{length}
use filecoin.Base.Map.{
  find, put, Distinct, AllEntries, put-AllEntries, find-AllEntries, length-put_new, length-put_over,
}
use filecoin.Base.Int.{ltb_ℤ, leb_ℤ}
use filecoin.ChainTypes.Message.{SignedMessage, block_gas_limit}
use filecoin.MessagePool.MsgSet.{
  Codec, MsgSet, cid, add, add_over, advance, store, Added, added, price_too_low, new_msg_set,
  min_price,
}
use filecoin.MessagePool.MsgSet.Invariant.{IsMsgSet, add-IsMsgSet}
use filecoin.MessagePool.State.{Provider, MessagePool}
use filecoin.MessagePool.Pool.{set_or_new, after_add, add_to_set, add_locked, cache_signature}
use filecoin.MessagePool.Held.{accepts, msgs-add, msgs-advance_eq, after_add-pending}
use filecoin.MessagePool.Invariant.{Fits, IsSenderSet, Sound, IsPool, Sound-new, Sound-over}

abbrev grown : Added → ℕ
grown (added true) = 1
grown (added false) = 0
grown price_too_low = 0

module _ (c : Codec) (m : SignedMessage) where
  length-add_over :
      (s : MsgSet) (old : Option SignedMessage)
      → find m.message.nonce s.msgs ≡ old
      → Distinct s.msgs
      → length (add_over c s old m).0.msgs ≡ grown (add_over c s old m).1 + length s.msgs
  unfolding add_over store
  length-add_over s none f d = omega (arith, length-put_new m.message.nonce m s.msgs f)
  length-add_over s (some ex) f d =
      elim (Bool-cases
        (cid c m == cid c ex || leb_ℤ (min_price ex.message.gas_price) m.message.gas_price)) [
          | inl e ↦ rw e (omega (arith, length-put_over m.message.nonce m ex s.msgs d f))
          | inr e ↦ rw e (omega arith)
        ]

  next-add_over :
      (s : MsgSet) (old : Option SignedMessage) → (add_over c s old m).0.next_nonce ≡ s.next_nonce
  unfolding add_over store
  next-add_over s none = refl
  next-add_over s (some ex) = ground arith

module _ (c : Codec) (ms : MsgSet) (m : SignedMessage) where
  length-add : IsMsgSet ms → length (add c ms m).0.msgs ≡ grown (add c ms m).1 + length ms.msgs
  unfolding add
  length-add v =
      let s = advance ms m.message.nonce in
      let same = sym (msgs-advance_eq ms m.message.nonce) in
      let n =
        length-add_over c m s (find m.message.nonce ms.msgs)
          (subst (λ l. find m.message.nonce l ≡ find m.message.nonce ms.msgs) same refl)
          (subst Distinct same v.distinct) in
      ground (arith, n, ap length (msgs-advance_eq ms m.message.nonce))

  add_own :
      (from : ℕ)
      → m.message.from ≡ from
      → AllEntries (λ n k. k.message.from ≡ from) ms.msgs
      → AllEntries (λ n k. k.message.from ≡ from) (add c ms m).0.msgs
  add_own from e h =
      subst (AllEntries (λ n k. k.message.from ≡ from)) (sym (msgs-add c ms m))
        (elim (Bool-cases (accepts (add c ms m).1)) [
          | inl f ↦
              rw f (put-AllEntries (λ n k. k.message.from ≡ from) m.message.nonce m ms.msgs e h)
          | inr f ↦ rw f h
        ])

  bound-add : ms.next_nonce < 2 ^ 64 → (add c ms m).0.next_nonce < 2 ^ 64
  unfolding add advance
  bound-add b =
      rw (next-add_over c m (advance ms m.message.nonce) (find m.message.nonce ms.msgs))
        (ground arith)

module _ (c : Codec) (ms : MsgSet) (m : SignedMessage) (fits : Fits m) where
  add-IsSet :
      (from : ℕ)
      → m.message.from ≡ from
      → 0 < length (add c ms m).0.msgs
      → IsMsgSet ms
      → ms.next_nonce < 2 ^ 64
      → AllEntries (λ n k. k.message.from ≡ from) ms.msgs
      → IsSenderSet from (add c ms m).0
  add-IsSet from e l v b o = record {
    formed = add-IsMsgSet ms m fits v c;
    bound = bound-add c ms m b;
    filled = l;
    own = add_own c ms m from e o;
  }

new-IsMsgSet : IsMsgSet new_msg_set
unfolding new_msg_set
new-IsMsgSet = record { distinct = tt; under = tt }

new-grows : (c : Codec) (m : SignedMessage) → (add c new_msg_set m).1 ≡ added true
unfolding add new_msg_set add_over find
new-grows c m = refl

size-after_add :
    (mp : MessagePool) (m : SignedMessage) (ms : MsgSet) (r : Added)
    → (after_add mp m (ms, r)).0.current_size ≡ grown r + mp.current_size
unfolding after_add
size-after_add mp m ms (added true) = omega arith
size-after_add mp m ms (added false) = omega arith
size-after_add mp m ms price_too_low = omega arith

after_add-IsPool :
    (mp : MessagePool) (m : SignedMessage) (ms : MsgSet) (r : Added)
    → Sound (put m.message.from ms mp.pending) (grown r + mp.current_size)
    → IsPool (after_add mp m (ms, r)).0
after_add-IsPool mp m ms r s = rw (after_add-pending mp m ms r, size-after_add mp m ms r) s

module _ (p : Provider) (m : SignedMessage) (fits : Fits m) where
  add_over-IsPool :
      (mp : MessagePool) (old : Option MsgSet)
      → find m.message.from mp.pending ≡ old
      → IsPool mp
      → IsPool (after_add mp m (add p.codec (set_or_new old) m)).0
  unfolding set_or_new
  add_over-IsPool mp none f s =
      let (ms, r) = add p.codec new_msg_set m in
      let len = length-add p.codec new_msg_set m new-IsMsgSet in
      let one = new_length in
      let i =
        add-IsSet p.codec new_msg_set m fits m.message.from refl (omega (arith, one)) new-IsMsgSet
          (omega arith) tt in
      after_add-IsPool mp m ms r (
        subst (Sound (put m.message.from ms mp.pending))
          (ap (λ k. k + mp.current_size) (one ∙ sym (ap grown (new-grows p.codec m))))
          (Sound-new m.message.from ms mp.pending mp.current_size f i s))
    where
      new_length : length (add p.codec new_msg_set m).0.msgs ≡ 1
      new_length =
          ground (arith, length-add p.codec new_msg_set m new-IsMsgSet, new-grows p.codec m)
  add_over-IsPool mp (some old) f s =
      let (ms, r) = add p.codec old m in
      let i = find-AllEntries IsSenderSet m.message.from mp.pending old s.sets f in
      let len = length-add p.codec old m i.formed in
      let j =
        add-IsSet p.codec old m fits m.message.from refl (omega (arith, len, i.filled)) i.formed
          i.bound i.own in
      after_add-IsPool mp m ms r (
        Sound-over m.message.from ms old mp.pending mp.current_size (grown r + mp.current_size) f j
          (omega (arith, len)) s)

  cached : (mp : MessagePool) → IsPool mp → IsPool (cache_signature p mp m)
  unfolding cache_signature
  cached mp s = elim (Bool-cases (m.signature.kind == p.codec.sig_bls)) [
    | inl e ↦ rw e s
    | inr e ↦ rw e s
  ]

  -- addLocked of a message whose nonce is not the largest one, with whatever result, leaves every
  -- sender's set well formed, no set empty, and the count of messages right.
  pub add_locked-IsPool : (mp : MessagePool) → IsPool mp → IsPool (add_locked p mp m).0
  unfolding add_locked add_to_set
  add_locked-IsPool mp s =
      let mp' = cache_signature p mp m in
      let s' = cached mp s in
      elim (Bool-cases (ltb_ℤ block_gas_limit m.message.gas_limit)) [
        | inl e ↦ rw e s'
        | inr e ↦ rw e (elim (Bool-cases (p.put_signed_message m)) [
          | inr f ↦ rw f s'
          | inl f ↦ rw f (elim (Bool-cases (p.put_message m.message)) [
            | inr g ↦ rw g s'
            | inl g ↦ rw g (add_over-IsPool mp' (find m.message.from mp'.pending) refl s')
          ])
        ])
      ]
