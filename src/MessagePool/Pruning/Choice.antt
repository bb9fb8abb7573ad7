-- ===== src/MessagePool/Pruning/Choice.antt =====
-- The loop that chooses messages in chain/messagepool/pruning.go ends, within the low limit.
use filecoin.Base.{
  ℕ, zero, suc, ◌+◌, ◌≤◌, ◌<◌, ◌≡◌, refl, sym, subst, List, [], ◌∷◌, ◌++◌, map, leb, ◌==◌, Option,
  none, some, nat_eq, arith, Bool-cases, inl, inr,
}
use filecoin.Base.Lists.{length, take, length-append}
use filecoin.Base.Map.{Map, find}
use filecoin.ChainTypes.Message.{SignedMessage}
use filecoin.MessagePool.Tally.{Library, Entry, SenderMeta}
use filecoin.MessagePool.Pruning.{
  BestChoice, best_of, best_of_sender, best_of_all, no_best, Chosen, cut, after_cut, after_best,
  choose,
}

-- The best choice is of messages that its sender has, within the limit.
abbrev Takes : ℕ → ℕ → ℕ → Option SenderMeta → Type 0
Takes lo len n none = n ≡ 0
Takes lo len n (some sm) = (n ≤ length sm.entries) × (n + len ≤ lo)

length_taken : (n : ℕ) (es : List Entry) → n ≤ length es → length (map (λ e. e.msg) (take n es)) ≡ n
length_taken zero es h = refl
length_taken (suc n) [] h = omega (arith, h)
length_taken (suc n) (e ∷ es) h = omega (arith, length_taken n es (omega (arith, h)))

module _ (lib : Library) (lo len : ℕ) (outs : Map ℕ SenderMeta) where
  abbrev IsBest : BestChoice → Type 0
  IsBest b = Takes lo len b.n_best (find b.sender outs)

  best_of-IsBest :
      (s n : ℕ) (sm : SenderMeta) (es : List Entry) (b : BestChoice)
      → find s outs ≡ some sm
      → n + length es ≤ length sm.entries
      → IsBest b
      → IsBest (best_of lib lo len s n es b)
  unfolding best_of
  best_of-IsBest s n sm [] b f h i = i
  best_of-IsBest s n sm (e ∷ es) b f h i = elim (Bool-cases (leb lo (n + len))) [
    | inl y ↦ rw y i
    | inr y ↦
        rw y
          (elim (Bool-cases (lib.at_least (lib.ratio e.gas_reward e.gas_limit) b.gas_to_reward)) [
            | inr z ↦ rw z (best_of-IsBest s (n + 1) sm es b f (omega (arith, h)) i)
            | inl z ↦ rw z (
                best_of-IsBest s (n + 1) sm es _ f (omega (arith, h))
                  (subst (Takes lo len (n + 1)) (sym f) (omega (arith, h), ground (arith, y))))
          ])
  ]

  best_of_sender-IsBest :
      (s : ℕ) (o : Option SenderMeta) (b : BestChoice)
      → find s outs ≡ o
      → IsBest b
      → IsBest (best_of_sender lib lo len s o b)
  unfolding best_of_sender
  best_of_sender-IsBest s none b f i = i
  best_of_sender-IsBest s (some sm) b f i = best_of-IsBest s 0 sm sm.entries b f (omega arith) i

  best_of_all-IsBest :
      (senders : List ℕ) (b : BestChoice)
      → IsBest b
      → IsBest (best_of_all lib lo len outs senders b)
  unfolding best_of_all
  best_of_all-IsBest [] b i = i
  best_of_all-IsBest (s ∷ senders) b i =
      best_of_all-IsBest senders (best_of_sender lib lo len s (find s outs) b)
        (best_of_sender-IsBest s (find s outs) b refl i)

-- Choosing ends, with a list of at most `lo` messages.
abbrev pub Ends : ℕ → Option (List SignedMessage) → Type 0
Ends lo o = (out : List SignedMessage) × (o ≡ some out) × (length out ≤ lo)

module _ (lo : ℕ) (go : Chosen → Option (List SignedMessage)) (c : Chosen) where
  after_cut-Ends :
      (b : BestChoice) (o : Option SenderMeta)
      → ((c' : Chosen) → length c.out < length c'.out → length c'.out ≤ lo → Ends lo (go c'))
      → Takes lo (length c.out) b.n_best o
      → 0 < b.n_best
      → Ends lo (after_cut lo go (cut b c o))
  unfolding after_cut cut
  after_cut-Ends b none h t s = absurd (omega (arith, t, s))
  after_cut-Ends b (some sm) h t s =
      let taken = map (λ e. e.msg) (take b.n_best sm.entries) in
      let grown : length (c.out ++ taken) ≡ length c.out + b.n_best =
        ground (arith, length-append c.out taken, length_taken b.n_best sm.entries t.0) in
      elim (Bool-cases (leb lo (length (c.out ++ taken)))) [
        | inl y ↦ rw y (c.out ++ taken, refl, omega (arith, grown, t.1))
        | inr y ↦ rw y (h _ (omega (arith, grown, s)) (omega (arith, grown, t.1)))
      ]

  after_best-Ends :
      (b : BestChoice)
      → ((c' : Chosen) → length c.out < length c'.out → length c'.out ≤ lo → Ends lo (go c'))
      → length c.out ≤ lo
      → Takes lo (length c.out) b.n_best (find b.sender c.out_by_sender)
      → Ends lo (after_best lo go c b)
  unfolding after_best
  after_best-Ends b h l t = elim (Bool-cases (b.n_best == 0)) [
    | inl y ↦ rw y (c.out, refl, l)
    | inr y ↦ rw y (after_cut-Ends b (find b.sender c.out_by_sender) h t (ground (arith, y)))
  ]

no_best-IsBest : (lo len : ℕ) (o : Option SenderMeta) → len ≤ lo → Takes lo len 0 o
no_best-IsBest lo len none h = refl
no_best-IsBest lo len (some sm) h = (omega arith, omega (arith, h))

-- choosing ends
pub choose-Ends :
    (lib : Library) (lo : ℕ) (senders : List ℕ) (rounds : ℕ) (c : Chosen)
    → length c.out ≤ lo
    → lo < rounds + length c.out
    → Ends lo (choose lib lo senders rounds c)
unfolding choose
choose-Ends lib lo senders zero c l r = absurd (omega (arith, l, r))
choose-Ends lib lo senders (suc rounds) c l r =
    after_best-Ends lo (λ c'. choose lib lo senders rounds c') c
      (best_of_all lib lo (length c.out) c.out_by_sender senders no_best)
      (λ c' g k. choose-Ends lib lo senders rounds c' k (omega (arith, r, g))) l
      (best_of_all-IsBest lib lo (length c.out) c.out_by_sender senders no_best
        (no_best-IsBest lo (length c.out) (find no_best.sender c.out_by_sender) l))
