-- ===== src/MessagePool/HeadChange/Apply.antt =====
-- The pool after the head advances without a reorganisation: HeadChange with nothing to revert.
use filecoin.Base.{
  ℕ, ◌≡◌, refl, ap, sym, ◌∙◌, List, [], ◌∷◌, Bool, true, false, ◌&&◌, ◌||◌, ◌==◌, if◌then◌else◌,
  Option, none, some, nat_eq, arith, map, inl, inr, Bool-cases,
}
use filecoin.Base.Lists.{any}
use filecoin.Base.Map.{find}
use filecoin.ChainTypes.BlockHeader.{BlockHeader}
use filecoin.ChainTypes.TipSet.{TipSet, blocks}
use filecoin.ChainTypes.Message.{Message, SignedMessage}
use filecoin.MessagePool.State.{Provider, MessagePool}
use filecoin.MessagePool.Held.{held}
use filecoin.MessagePool.Held.Operations.{remove_takes}
use filecoin.MessagePool.HeadChange.{
  State, rm, rm_by, rm_all, apply_blocks, set_cur_ts, apply_all, apply_after, revert_all, finish,
  readd_all, head_change,
}

abbrev named : ℕ → ℕ → Message → Bool
named a n m = (m.from == a) && (m.nonce == n)

abbrev among : ℕ → ℕ → Option (List Message × List SignedMessage) → Bool
among a n none = false
among a n (some (bmsgs, smsgs)) =
    any (named a n) (map (λ m. m.message) smsgs) || any (named a n) bmsgs

abbrev in_blocks : Provider → ℕ → ℕ → List BlockHeader → Bool
in_blocks p a n bs = any (λ b. among a n (p.messages_for_block b)) bs

-- Whether a block of the tipsets has a message of the sender `a` with the nonce `n`.
abbrev pub taken : Provider → ℕ → ℕ → List TipSet → Bool
taken p a n l = any (λ ts. in_blocks p a n (blocks ts)) l

module _ (p : Provider) (a n : ℕ) where
  -- the state is that of a pool without what is taken, and nothing is to be put back
  abbrev After : MessagePool → Bool → State → Type 0
  After mp t st = (st.1 ≡ []) × (held st.0 a n ≡ (if t then none else held mp a n))

  rm-After :
      (mp : MessagePool) (m : Message) (st : State) (t : Bool)
      → After mp t st
      → After mp (t || named a n m) (rm st m)
  unfolding rm rm_by find
  rm-After mp m (now, []) t h = (refl, remove_takes now m.from m.nonce a n ∙ ground (arith, h.1))
  rm-After mp m (now, x ∷ r) t h = absurd (cc)

  rm_all-After :
      (mp : MessagePool) (ms : List Message) (st : State) (t : Bool)
      → After mp t st
      → After mp (t || any (named a n) ms) (rm_all st ms)
  unfolding rm_all
  rm_all-After mp [] st t h = (h.0, ground (arith, h.1))
  rm_all-After mp (m ∷ ms) st t h =
      let (e, q) = rm_all-After mp ms (rm st m) (t || named a n m) (rm-After mp m st t h) in
      (e, ground (arith, q))

  apply_blocks-After :
      (mp : MessagePool) (bs : List BlockHeader) (st : State) (t : Bool)
      → (apply_blocks p st bs).1 ≡ true
      → After mp t st
      → After mp (t || in_blocks p a n bs) (apply_blocks p st bs).0
  unfolding apply_blocks
  apply_blocks-After mp [] st t g h = (h.0, ground (arith, h.1))
  apply_blocks-After mp (b ∷ bs) st t g h =
      by_block (λ s u e k. apply_blocks-After mp bs s u e k) (p.messages_for_block b) refl
    where
      by_block :
          ((s : State) (u : Bool)
            → (apply_blocks p s bs).1 ≡ true
            → After mp u s
            → After mp (u || in_blocks p a n bs) (apply_blocks p s bs).0)
          → (o : Option (List Message × List SignedMessage)) → p.messages_for_block b ≡ o
          → After mp (t || in_blocks p a n (b ∷ bs)) (apply_blocks p st (b ∷ bs)).0
      by_block rest none e = absurd (ground (arith, e, g))
      by_block rest (some (bmsgs, smsgs)) e =
          let st1 = rm_all st (map (λ m. m.message) smsgs) in
          let st2 = rm_all st1 bmsgs in
          let step : apply_blocks p st (b ∷ bs) ≡ apply_blocks p st2 bs =
            rw (e, apply_blocks) refl in
          let h1 = rm_all-After mp (map (λ m. m.message) smsgs) st t h in
          let h2 = rm_all-After mp bmsgs st1 _ h1 in
          let (k, q) = rest st2 _ (ap (λ s. s.1) (sym step) ∙ g) h2 in
          (ap (λ s. s.0.1) step ∙ k, ap (λ s. held s.0.0 a n) step ∙ ground (arith, q, e))

  apply_all-After :
      (mp : MessagePool) (l : List TipSet) (st : State) (t : Bool)
      → (apply_all p st l).1 ≡ true
      → After mp t st
      → After mp (t || taken p a n l) (apply_all p st l).0
  unfolding apply_all set_cur_ts
  apply_all-After mp [] st t g h = (h.0, ground (arith, h.1))
  apply_all-After mp (ts ∷ l) st t g h = elim (Bool-cases (apply_blocks p st (blocks ts)).1) [
    | inr e ↦ absurd (ground (arith, e, g))
    | inl e ↦
        let (now, r) = (apply_blocks p st (blocks ts)).0 in
        let h1 = apply_blocks-After mp (blocks ts) st t e h in
        let step : apply_all p st (ts ∷ l) ≡ apply_all p (set_cur_ts ts (now, r)) l = rw e refl in
        let (k, q) =
          apply_all-After mp l (set_cur_ts ts (now, r)) _ (ap (λ s. s.1) (sym step) ∙ g) h1 in
        (ap (λ s. s.0.1) step ∙ k, ap (λ s. held s.0.0 a n) step ∙ ground (arith, q))
  ]

  finish-After :
      (mp : MessagePool) (t : Bool) (st : State) (good : Bool)
      → (finish p (st, good)).1 ≡ true
      → (good ≡ true → After mp t st)
      → held (finish p (st, good)).0 a n ≡ (if t then none else held mp a n)
  unfolding finish readd_all
  finish-After mp t (now, r) false g f = absurd (cc)
  finish-After mp t (now, []) true g f = (f refl).1
  finish-After mp t (now, x ∷ r) true g f = absurd (cc ((f refl).0))

  -- When the head advances and nothing is reverted, and no block fails to load, the pool loses
  -- exactly the messages whose sender and nonce are those of a message in an applied block.
  pub head_change_applies :
      (mp : MessagePool) (apply : List TipSet)
      → (head_change p mp [] apply).1 ≡ true
      → held (head_change p mp [] apply).0 a n ≡ (if taken p a n apply then none else held mp a n)
  unfolding head_change apply_after revert_all
  head_change_applies mp apply g =
      let r = apply_all p (mp, []) apply in
      finish-After mp (taken p a n apply) r.0 r.1 g
        (λ e. apply_all-After mp apply (mp, []) false e (refl, refl))
