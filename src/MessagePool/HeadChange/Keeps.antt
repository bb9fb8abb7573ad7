-- ===== src/MessagePool/HeadChange/Keeps.antt =====
-- HeadChange keeps the pool well formed, whatever is reverted and applied, and if it fails half-way.
use filecoin.Base.{
  ℕ, ◌≡◌, refl, subst, List, [], ◌∷◌, ◌++◌, Bool, true, false, Option, none, some, nat_eq, arith,
  map, inl, inr, Option-cases, Bool-cases,
}
use filecoin.Base.Lists.{All, All-append}
use filecoin.Base.Map.{Map}
use filecoin.ChainTypes.BlockHeader.{BlockHeader, Signature}
use filecoin.ChainTypes.TipSet.{TipSet, blocks, parents}
use filecoin.ChainTypes.Message.{Message, SignedMessage}
use filecoin.MessagePool.State.{Provider, MessagePool}
use filecoin.MessagePool.Invariant.{Fits, IsPool}
use filecoin.MessagePool.HeadChange.{
  State, recover_all, messages_for_blocks, note_all, revert_all, apply_blocks, set_cur_ts,
  apply_all, apply_after, finish, head_change,
}
use filecoin.MessagePool.HeadChange.Good.{
  Roomy, Good, rm_all-Good, Room-of_Fits, recover_all-Fits, note_all-Good, readd_all-IsPool,
}

module _ (p : Provider) (roomy : Roomy p) where
  messages-Fits :
      (cache : Map ℕ Signature) (bs : List BlockHeader) (out : List SignedMessage)
      → messages_for_blocks p cache bs ≡ some out
      → All Fits out
  unfolding messages_for_blocks
  messages-Fits cache [] [] e = tt
  messages-Fits cache [] (x ∷ out) e = absurd (cc)
  messages-Fits cache (b ∷ bs) out e =
      by_block (messages-Fits cache bs) (p.messages_for_block b) refl
        (messages_for_blocks p cache bs) refl
    where
      by_block :
          ((o : List SignedMessage) → messages_for_blocks p cache bs ≡ some o → All Fits o)
          → (o : Option (List Message × List SignedMessage)) → p.messages_for_block b ≡ o
          → (k : Option (List SignedMessage)) → messages_for_blocks p cache bs ≡ k
          → All Fits out
      by_block rest none f k g = absurd (ground (arith, f, e))
      by_block rest (some (bmsgs, smsgs)) f none g = absurd (ground (arith, f, g, e))
      by_block rest (some (bmsgs, smsgs)) f (some l) g =
          let (fb, fs) = roomy b bmsgs smsgs f in
          let same : smsgs ++ recover_all p cache bmsgs ++ l ≡ out = ground (arith, f, g, e) in
          subst (All Fits) same (
            All-append Fits (smsgs ++ recover_all p cache bmsgs) l
              (All-append Fits smsgs (recover_all p cache bmsgs) fs
                (recover_all-Fits p cache bmsgs fb))
              (rest l g))

  revert_all-Good : (l : List TipSet) (st : State) → Good st → Good (revert_all p st l).0
  unfolding revert_all
  revert_all-Good [] st h = h
  revert_all-Good (ts ∷ l) (mp, r) h =
      by_parents (revert_all-Good l) (p.load_tip_set (parents ts)) refl
    where
      by_parents :
          ((st : State) → Good st → Good (revert_all p st l).0)
          → (o : Option TipSet) → p.load_tip_set (parents ts) ≡ o
          → Good (revert_all p (mp, r) (ts ∷ l)).0
      by_parents rest none e = rw (e, revert_all) h
      by_parents rest (some pts) e =
          rw (e, revert_all)
            (elim (Option-cases (messages_for_blocks p mp.bls_sig_cache (blocks ts))) [
              | inl f ↦ rw f h
              | inr (msgs, f) ↦ rw f (
                  rest (record mp { cur_ts = some pts }, note_all r msgs)
                    (
                      h.0,
                      note_all-Good mp msgs r (messages-Fits mp.bls_sig_cache (blocks ts) msgs f)
                          h.1,
                    ))
            ])

  apply_blocks-Good : (bs : List BlockHeader) (st : State) → Good st → Good (apply_blocks p st bs).0
  unfolding apply_blocks
  apply_blocks-Good [] st h = h
  apply_blocks-Good (b ∷ bs) st h = by_block (apply_blocks-Good bs) (p.messages_for_block b) refl
    where
      by_block :
          ((s : State) → Good s → Good (apply_blocks p s bs).0)
          → (o : Option (List Message × List SignedMessage)) → p.messages_for_block b ≡ o
          → Good (apply_blocks p st (b ∷ bs)).0
      by_block rest none e = rw (e, apply_blocks) h
      by_block rest (some (bmsgs, smsgs)) e =
          let (fb, fs) = roomy b bmsgs smsgs e in
          rw (e, apply_blocks)
            (rest _ (
              rm_all-Good bmsgs _ fb
                (rm_all-Good (map (λ m. m.message) smsgs) st (Room-of_Fits smsgs fs) h)))

  set_cur_ts-Good : (ts : TipSet) (st : State) → Good st → Good (set_cur_ts ts st)
  unfolding set_cur_ts
  set_cur_ts-Good ts (mp, r) h = h

  apply_all-Good : (l : List TipSet) (st : State) → Good st → Good (apply_all p st l).0
  unfolding apply_all
  apply_all-Good [] st h = h
  apply_all-Good (ts ∷ l) st h = elim (Bool-cases (apply_blocks p st (blocks ts)).1) [
    | inr e ↦ rw e (apply_blocks-Good (blocks ts) st h)
    | inl e ↦ rw e (
        apply_all-Good l (set_cur_ts ts (apply_blocks p st (blocks ts)).0) (
          set_cur_ts-Good ts (apply_blocks p st (blocks ts)).0
            (apply_blocks-Good (blocks ts) st h)))
  ]

  finish-IsPool : (st : State) (good : Bool) → Good st → IsPool (finish p (st, good)).0
  unfolding finish
  finish-IsPool (mp, r) false h = h.0
  finish-IsPool (mp, r) true h = readd_all-IsPool p r mp h.1 h.0

  apply_after-Good :
      (apply : List TipSet) (st : State) (good : Bool)
      → Good st
      → Good (apply_after p apply (st, good)).0
  unfolding apply_after
  apply_after-Good apply st false h = h
  apply_after-Good apply st true h = apply_all-Good apply st h

  -- Any change of the head, with or without a reorganisation, and if a block cannot be loaded
  -- half-way, leaves every sender's set well formed and the count of messages right, where no
  -- message in a block has the largest nonce.
  pub head_change-IsPool :
      (mp : MessagePool) (revert apply : List TipSet)
      → IsPool mp
      → IsPool (head_change p mp revert apply).0
  unfolding head_change
  head_change-IsPool mp revert apply h =
      let (st, good) = revert_all p (mp, []) revert in
      let (st', good') = apply_after p apply (st, good) in
      finish-IsPool st' good'
        (apply_after-Good apply st good (revert_all-Good revert (mp, []) (h, tt)))
