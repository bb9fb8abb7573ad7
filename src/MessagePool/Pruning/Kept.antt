-- ===== src/MessagePool/Pruning/Kept.antt =====
-- What stays in the pool after pruneExcessMessages of chain/messagepool/pruning.go.
use filecoin.Base.{
  ap, subst, map, ◌≢◌, ==_refl, ◌<◌, ◌⊎◌, ℕ, suc, ◌≤◌, ◌≡◌, refl, sym, ◌∙◌, List, [], ◌∷◌, Bool,
  true, false, not, ◌&&◌, ◌||◌, ltb, ◌==◌, ==_iff, if◌then◌else◌, Option, none, some, nat_eq, arith,
  Bool-cases, Option-cases, inl, inr,
}
use filecoin.Base.Map.{Map}
use filecoin.Base.Lists.{length, All, All-of, In, here, there, All-In, any, any-In, any-find}
use filecoin.ChainTypes.TipSet.{TipSet}
use filecoin.ChainTypes.Message.{SignedMessage}
use filecoin.MessagePool.MsgSet.{Codec, cid}
use filecoin.MessagePool.State.{Provider, MessagePool}
use filecoin.MessagePool.Held.{held}
use filecoin.MessagePool.Held.Operations.{remove_takes}
use filecoin.MessagePool.Invariant.{Fits, IsPool}
use filecoin.MessagePool.Invariant.Remove.{remove-IsPool}
use filecoin.MessagePool.Tally.{Library, SenderMeta, tally_all}
use filecoin.MessagePool.Pruning.{
  choose, ordered_senders, is_good, remove_unless, remove_bad, msgs_by_nonce, remove_unchosen,
  prune_listed, prune_at, prune_messages, prune_excess_messages,
}
use filecoin.MessagePool.Pruning.Tallied.{tally_all-Distinct, ordered_senders_cover}
use filecoin.MessagePool.Pruning.Exhausted.{Done, DoneOut, choose-DoneOut}
use filecoin.MessagePool.Pruning.Origin.{OwnOut, choose-OwnOut, tally_all-OwnAll}
use filecoin.MessagePool.Pruning.Choice.{choose-Ends}
use filecoin.MessagePool.Pruning.Listed.{Pends, msgs_by_nonce-Pends, held_place, held-In_msgs}

-- What becomes of a place: a message stays exactly if it has the CID of one that was chosen, and
-- an empty place stays empty.
abbrev pub StaysIf :
    Codec → List SignedMessage → Option SignedMessage → Option SignedMessage → Type 0
StaysIf codec out none after = after ≡ none
StaysIf codec out (some m) after =
    In (cid codec m) (map (cid codec) out) × (after ≡ some m)
    ⊎ All (λ k. cid codec k ≢ cid codec m) out × (after ≡ none)

-- The tally of the messages of a pool, by sender.
abbrev pub senders_of : Library → Provider → MessagePool → TipSet → Map ℕ SenderMeta
senders_of lib p mp ts =
    (tally_all lib p ts (msgs_by_nonce mp)
      (record { incl_nonces = []; incl_balances = []; out_by_sender = [] })).out_by_sender

-- What the loop chooses of a pool, from the tally of its messages.
abbrev pub chosen_of : Library → Provider → MessagePool → TipSet → Option (List SignedMessage)
chosen_of lib p mp ts =
    choose lib mp.max_tx_pool_size_lo (ordered_senders lib (senders_of lib p mp ts))
      (suc mp.max_tx_pool_size_lo) (record { out = []; out_by_sender = senders_of lib p mp ts })

-- The loop chooses `out`, at most as many messages of the pool as the low limit says, and fewer only
-- if nothing is left to choose; each of them stays, and of the others those that have a CID of one.
pub record Pruned (lib : Library) (p : Provider) (ts : TipSet) (mp mp' : MessagePool) : Type 0 where
  pub out : List SignedMessage
  pub chosen : chosen_of lib p mp ts ≡ some out
  pub few : length out ≤ mp.max_tx_pool_size_lo
  pub done : Done lib mp.max_tx_pool_size_lo (senders_of lib p mp ts) out
  pub chosen_stay : All (λ m. held mp' m.message.from m.message.nonce ≡ some m) out
  pub pool_kept : IsPool mp'
  pub stays : (a n : ℕ) → StaysIf p.codec out (held mp a n) (held mp' a n)

module _ (codec : Codec) (out : List SignedMessage) where
  abbrev is_bad : ℕ → ℕ → SignedMessage → Bool
  is_bad a n m = not (is_good codec out m) && ((m.message.from == a) && (m.message.nonce == n))

  remove_unless-IsPool :
      (b : Bool) (m : SignedMessage) (mp : MessagePool)
      → Fits m
      → IsPool mp
      → IsPool (remove_unless b m mp)
  unfolding remove_unless
  remove_unless-IsPool true m mp f i = i
  remove_unless-IsPool false m mp f i = remove-IsPool m.message.from m.message.nonce f mp i

  held-remove_unless :
      (b : Bool) (m : SignedMessage) (mp : MessagePool) (a n : ℕ)
      → held (remove_unless b m mp) a n
        ≡ (if not b && ((m.message.from == a) && (m.message.nonce == n)) then none else held mp a n)
  unfolding remove_unless
  held-remove_unless true m mp a n = refl
  held-remove_unless false m mp a n = remove_takes mp m.message.from m.message.nonce a n

  remove_bad-IsPool :
      (ms : List SignedMessage) (mp : MessagePool)
      → All Fits ms
      → IsPool mp
      → IsPool (remove_bad codec out ms mp)
  unfolding remove_bad
  remove_bad-IsPool [] mp f i = i
  remove_bad-IsPool (m ∷ ms) mp f i =
      remove_bad-IsPool ms (remove_unless (is_good codec out m) m mp) f.1
        (remove_unless-IsPool (is_good codec out m) m mp f.0 i)

  held-remove_bad :
      (a n : ℕ) (ms : List SignedMessage) (mp : MessagePool)
      → held (remove_bad codec out ms mp) a n ≡ (if any (is_bad a n) ms then none else held mp a n)
  unfolding remove_bad
  held-remove_bad a n [] mp = refl
  held-remove_bad a n (m ∷ ms) mp =
      held-remove_bad a n ms (remove_unless (is_good codec out m) m mp)
      ∙ joined (held mp a n) (is_bad a n m) (any (is_bad a n) ms)
          (held-remove_unless (is_good codec out m) m mp a n)
    where
      joined :
          {x : Option SignedMessage} (y : Option SignedMessage) (b c : Bool)
          → x ≡ (if b then none else y)
          → (if c then none else x) ≡ (if b || c then none else y)
      joined y b c q = ground (arith, q)

-- a message, if it has the CID of one that was chosen
abbrev if_good : Codec → List SignedMessage → Option SignedMessage → Option SignedMessage
if_good codec out none = none
if_good codec out (some m) = if is_good codec out m then some m else none

good_cid :
    (c : Codec) (out : List SignedMessage) (m : SignedMessage)
    → any (λ k. cid c k == cid c m) out ≡ true
    → In (cid c m) (map (cid c) out)
good_cid c [] m q = absurd (cc)
good_cid c (k ∷ out) m q = elim (Bool-cases (cid c k == cid c m)) [
  | inl e ↦ subst (λ x. In x (cid c k ∷ map (cid c) out)) ((==_iff (cid c k) (cid c m)).0 e) here
  | inr e ↦ there (good_cid c out m (ground (arith, e, q)))
]

bad_cid :
    (c : Codec) (out : List SignedMessage) (m : SignedMessage)
    → any (λ k. cid c k == cid c m) out ≡ false
    → All (λ k. cid c k ≢ cid c m) out
bad_cid c [] m q = tt
bad_cid c (k ∷ out) m q = (
  λ e. absurd (ground (arith, q, (==_iff (cid c k) (cid c m)).1 e)),
  bad_cid c out m (ground (arith, q)),
)

if_good-StaysIf :
    (c : Codec) (out : List SignedMessage) (before : Option SignedMessage)
    → StaysIf c out before (if_good c out before)
unfolding is_good
if_good-StaysIf c out none = refl
if_good-StaysIf c out (some m) = elim (Bool-cases (any (λ k. cid c k == cid c m) out)) [
  | inl e ↦ inl (good_cid c out m e, ground (arith, e))
  | inr e ↦ inr (bad_cid c out m e, ground (arith, e))
]

chosen_good :
    (c : Codec) (out : List SignedMessage) (m : SignedMessage) → In m out → is_good c out m ≡ true
unfolding is_good
chosen_good c out m i = any-In (λ k. cid c k == cid c m) i (==_refl (cid c m))

module _ (codec : Codec) (out : List SignedMessage) (mp : MessagePool) (pool : IsPool mp) where
  stays_good :
      (a n : ℕ)
      → (if any (is_bad codec out a n) (msgs_by_nonce mp) then none else held mp a n)
        ≡ if_good codec out (held mp a n)
  stays_good a n = elim (Option-cases (held mp a n)) [
    | inl e ↦ rw e (ground arith)
    | inr (m, e) ↦ elim (Bool-cases (any (is_bad codec out a n) (msgs_by_nonce mp))) [
      | inl y ↦
          let (k, i, q) = any-find (is_bad codec out a n) (msgs_by_nonce mp) y in
          let place = (All-In (Pends mp pool) i (msgs_by_nonce-Pends mp pool)).in_place in
          ground (arith, e, y, q, place, ==_iff k.message.from a, ==_iff k.message.nonce n)
      | inr y ↦
          let (s, t) = held_place mp pool a n m e in
          let i = held-In_msgs mp pool a n m e in
          ground (
            arith,
            e,
            y,
            any-In (is_bad codec out a n) i,
            ==_iff m.message.from a,
            ==_iff m.message.nonce n,
            s,
            t,
          )
    ]
  ]

  held-pruned :
      (a n : ℕ)
      → held (remove_bad codec out (msgs_by_nonce mp) mp) a n ≡ if_good codec out (held mp a n)
  held-pruned a n = held-remove_bad codec out a n (msgs_by_nonce mp) mp ∙ stays_good a n

  chosen-held :
      (m : SignedMessage)
      → In m out
      → Pends mp pool m
      → held (remove_bad codec out (msgs_by_nonce mp) mp) m.message.from m.message.nonce ≡ some m
  chosen-held m i h =
      held-pruned m.message.from m.message.nonce
      ∙ ap (if_good codec out) h.in_place
      ∙ ground (arith, chosen_good codec out m i)

all_fit :
    (mp : MessagePool) (pool : IsPool mp) (l : List SignedMessage)
    → All (Pends mp pool) l
    → All Fits l
all_fit mp pool [] h = tt
all_fit mp pool (m ∷ l) h = (h.0.fits, all_fit mp pool l h.1)

module _ (lib : Library) (p : Provider) (mp : MessagePool) (pool : IsPool mp) where
  chosen-Pends :
      (ts : TipSet) (out : List SignedMessage)
      → chosen_of lib p mp ts ≡ some out
      → All (Pends mp pool) out
  chosen-Pends ts out e = subst (OwnOut (Pends mp pool)) e (
      choose-OwnOut (Pends mp pool) lib mp.max_tx_pool_size_lo
        (ordered_senders lib (senders_of lib p mp ts)) (suc mp.max_tx_pool_size_lo)
        (record { out = []; out_by_sender = senders_of lib p mp ts })
        (
          tt,
          tally_all-OwnAll (Pends mp pool) lib p ts (msgs_by_nonce mp) _
              (msgs_by_nonce-Pends mp pool) tt,
        ))

  chosen-Done :
      (ts : TipSet) (out : List SignedMessage)
      → chosen_of lib p mp ts ≡ some out
      → Done lib mp.max_tx_pool_size_lo (senders_of lib p mp ts) out
  chosen-Done ts out e =
      let lo = mp.max_tx_pool_size_lo in
      let outs = senders_of lib p mp ts in
      subst (DoneOut lib lo outs) e (
        choose-DoneOut lib lo outs (ordered_senders lib outs) (ordered_senders_cover lib outs)
          (suc lo) (tally_all-Distinct lib p ts (msgs_by_nonce mp) _ tt))

  chosen-Pruned :
      (ts : TipSet) (out : List SignedMessage)
      → chosen_of lib p mp ts ≡ some out
      → length out ≤ mp.max_tx_pool_size_lo
      → Pruned lib p ts mp (remove_bad p.codec out (msgs_by_nonce mp) mp)
  chosen-Pruned ts out e few = record {
    out = out;
    chosen = e;
    few = few;
    done = chosen-Done ts out e;
    chosen_stay = All-of out (λ m i.
        chosen-held p.codec out mp pool m i (All-In (Pends mp pool) i (chosen-Pends ts out e)));
    pool_kept =
        remove_bad-IsPool p.codec out (msgs_by_nonce mp) mp
          (all_fit mp pool (msgs_by_nonce mp) (msgs_by_nonce-Pends mp pool)) pool;
    stays = λ a n.
        subst (StaysIf p.codec out (held mp a n)) (sym (held-pruned p.codec out mp pool a n))
          (if_good-StaysIf p.codec out (held mp a n));
  }

  prune_listed-Pruned :
      (ts : TipSet)
      → (mp' : MessagePool) × (prune_listed lib p mp ts (msgs_by_nonce mp) ≡ some mp')
        × Pruned lib p ts mp mp'
  unfolding prune_listed remove_unchosen
  prune_listed-Pruned ts =
      let lo = mp.max_tx_pool_size_lo in
      let (out, e, few) =
        choose-Ends lib lo (ordered_senders lib (senders_of lib p mp ts)) (suc lo)
          (record { out = []; out_by_sender = senders_of lib p mp ts }) (omega arith)
          (omega arith) in
      (
        remove_bad p.codec out (msgs_by_nonce mp) mp,
        ap (remove_unchosen p mp (msgs_by_nonce mp)) e,
        chosen-Pruned ts out e few,
      )

  -- Pruning a well-formed pool with a current tipset ends without a panic, whatever float64
  -- division and comparison give. Below the high limit the pool is as it was. Otherwise the loop
  -- chooses, from the tally of the pool's messages, at most as many messages as the low limit
  -- says, and fewer only if each sender's messages of the tally are chosen up to one whose ratio
  -- is not at least 0, or all; all of the chosen are messages of the pool and stay in their
  -- places; any other place keeps its message if that has the CID of a chosen one and is empty if
  -- not; and the pool is well formed.
  pub prune_excess_messages-Pruned :
      (ts : TipSet)
      → mp.cur_ts ≡ some ts
      → (mp' : MessagePool) × (prune_excess_messages lib p mp ≡ some mp')
        × (((mp.current_size < mp.max_tx_pool_size_hi) × (mp' ≡ mp))
            ⊎ ((mp.max_tx_pool_size_hi ≤ mp.current_size) × Pruned lib p ts mp mp'))
  unfolding prune_excess_messages prune_messages prune_at
  prune_excess_messages-Pruned ts q =
      elim (Bool-cases (ltb mp.current_size mp.max_tx_pool_size_hi)) [
        | inl y ↦ rw y (mp, refl, inl (ground (arith, y), refl))
        | inr y ↦
            let (mp', e, r) = prune_listed-Pruned ts in
            let e' = subst (λ o. prune_at lib p mp o (msgs_by_nonce mp) ≡ some mp') (sym q) e in
            rw y (mp', e', inr (ground (arith, y), r))
      ]
