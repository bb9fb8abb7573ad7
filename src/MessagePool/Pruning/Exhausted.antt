-- ===== src/MessagePool/Pruning/Exhausted.antt =====
-- When the loop that chooses in chain/messagepool/pruning.go ends below the low limit, nothing that
-- it could choose is left.
use filecoin.Base.{
  ℕ, zero, suc, ◌≤◌, ◌<◌, ◌≡◌, refl, sym, ap, ◌∙◌, subst, List, [], ◌∷◌, ◌++◌, map, leb, ◌==◌,
  ==_iff, if◌then◌else◌, Option, none, some, nat_eq, arith, Bool-cases, ◌⊎◌, inl, inr,
}
use filecoin.Base.Lists.{
  length, take, drop, take-append-drop, All, All-In, All-append, In, here, there, In-append_left,
  In-append_right,
}
use filecoin.Base.Map.{
  Map, find, AllEntries, AllEntries-mono, Distinct, entries_found, find-put, find-erase,
}
use filecoin.ChainTypes.Message.{SignedMessage}
use filecoin.MessagePool.Tally.{Library, Entry, SenderMeta}
use filecoin.MessagePool.Pruning.{
  BestChoice, best_of_all, no_best, Chosen, put_rest, cut, after_cut, after_best, choose,
}
use filecoin.MessagePool.Pruning.Rated.{Unrated, rest_of, best_of_all-Idle}

-- Of a sender's messages those before `rest` are chosen.
abbrev pub Left : List SignedMessage → SenderMeta → List Entry → Type 0
Left out sm rest =
    (taken : List Entry) × (sm.entries ≡ taken ++ rest) × All (λ e. In e.msg out) taken

In-taken :
    (es : List Entry) (out : List SignedMessage)
    → All (λ e. In e.msg (out ++ map (λ e. e.msg) es)) es
In-taken [] out = tt
In-taken (e ∷ es) out = (In-append_right out here, more (map (λ e. e.msg) es) es (In-taken es []))
  where
    more :
        (l : List SignedMessage) (fs : List Entry)
        → All (λ e. In e.msg l) fs
        → All (λ f. In f.msg (out ++ e.msg ∷ l)) fs
    more l [] h = tt
    more l (f ∷ fs) h = (In-append_right out (there h.0), more l fs h.1)

In-later :
    (es : List Entry) (out more : List SignedMessage)
    → All (λ e. In e.msg out) es
    → All (λ e. In e.msg (out ++ more)) es
In-later [] out more h = tt
In-later (e ∷ es) out more h = (In-append_left more h.0, In-later es out more h.1)

append_assoc : (xs ys zs : List Entry) → (xs ++ ys) ++ zs ≡ xs ++ (ys ++ zs)
append_assoc [] ys zs = refl
append_assoc (x ∷ xs) ys zs = ap (λ l. x ∷ l) (append_assoc xs ys zs)

Left-more :
    (out : List SignedMessage) (sm : SenderMeta) (n : ℕ) (es : List Entry)
    → Left out sm es
    → Left (out ++ map (λ e. e.msg) (take n es)) sm (drop n es)
Left-more out sm n es (taken, q, a) = (
  taken ++ take n es,
  q
      ∙ ap (λ l. taken ++ l) (sym (take-append-drop n es))
      ∙ sym (append_assoc taken (take n es) (drop n es)),
  All-append (λ e. In e.msg (out ++ map (λ e. e.msg) (take n es))) taken (take n es)
      (In-later taken out (map (λ e. e.msg) (take n es)) a) (In-taken (take n es) out),
)

Left-later :
    (out more : List SignedMessage) (sm : SenderMeta) (es : List Entry)
    → Left out sm es
    → Left (out ++ more) sm es
Left-later out more sm es (taken, q, a) = (taken, q, In-later taken out more a)

rest-put_rest :
    (b s : ℕ) (sm : SenderMeta) (es : List Entry) (outs : Map ℕ SenderMeta)
    → rest_of (find s (put_rest b sm es outs)) ≡ (if b == s then es else rest_of (find s outs))
unfolding put_rest
rest-put_rest b s sm [] outs = elim (Bool-cases (b == s)) [
  | inl e ↦ rw (find-erase b s outs, e) refl
  | inr e ↦ rw (find-erase b s outs, e) refl
]
rest-put_rest b s sm (e ∷ es) outs = elim (Bool-cases (b == s)) [
  | inl f ↦ rw (find-put b s (record sm { entries = e ∷ es }) outs, f) refl
  | inr f ↦ rw (find-put b s (record sm { entries = e ∷ es }) outs, f) refl
]

module _ (all : Map ℕ SenderMeta) where
  -- What is chosen and what is left make up the tally.
  abbrev Splits : Chosen → Type 0
  Splits c = AllEntries (λ s sm. Left c.out sm (rest_of (find s c.out_by_sender))) all

  module _ (c : Chosen) (b : BestChoice) (sm : SenderMeta)
      (f : find b.sender c.out_by_sender ≡ some sm) where
    abbrev next : Chosen
    next = record {
      out = c.out ++ map (λ e. e.msg) (take b.n_best sm.entries);
      out_by_sender = put_rest b.sender sm (drop b.n_best sm.entries) c.out_by_sender;
    }

    next-Left :
        (s : ℕ) (x : SenderMeta)
        → Left c.out x (rest_of (find s c.out_by_sender))
        → Left next.out x (rest_of (find s next.out_by_sender))
    next-Left s x h = elim (Bool-cases (b.sender == s)) [
      | inl e ↦
          let mine : rest_of (find s c.out_by_sender) ≡ sm.entries =
            subst (λ k. rest_of (find k c.out_by_sender) ≡ sm.entries) ((==_iff b.sender s).0 e)
              (ap rest_of f) in
          let q : rest_of (find s next.out_by_sender) ≡ drop b.n_best sm.entries =
            rest-put_rest b.sender s sm (drop b.n_best sm.entries) c.out_by_sender ∙ rw e refl in
          subst (Left next.out x) (sym q)
            (Left-more c.out x b.n_best sm.entries (subst (Left c.out x) mine h))
      | inr e ↦
          let q : rest_of (find s next.out_by_sender) ≡ rest_of (find s c.out_by_sender) =
            rest-put_rest b.sender s sm (drop b.n_best sm.entries) c.out_by_sender ∙ rw e refl in
          subst (Left next.out x) (sym q)
            (Left-later c.out (map (λ e. e.msg) (take b.n_best sm.entries)) x _ h)
    ]

module _ (lib : Library) (lo : ℕ) (all : Map ℕ SenderMeta) where
  -- A sender's messages are chosen up to one that is not rated at least 0.
  abbrev pub Exhausts : List SignedMessage → SenderMeta → Type 0
  Exhausts out sm = (rest : List Entry) × Left out sm rest × Unrated lib rest

  -- The limit is reached, or nothing is left to choose.
  abbrev pub Done : List SignedMessage → Type 0
  Done out = (lo ≤ length out) ⊎ AllEntries (λ s sm. Exhausts out sm) all

  abbrev pub DoneOut : Option (List SignedMessage) → Type 0
  DoneOut none = Unit
  DoneOut (some out) = Done out

  module _ (senders : List ℕ) (covers : AllEntries (λ s sm. In s senders) all) where
    Left-Exhausts :
        (c : Chosen) (l : Map ℕ SenderMeta)
        → All (λ s. Unrated lib (rest_of (find s c.out_by_sender))) senders
        → AllEntries (λ s sm. In s senders) l
        → AllEntries (λ s sm. Left c.out sm (rest_of (find s c.out_by_sender))) l
        → AllEntries (λ s sm. Exhausts c.out sm) l
    Left-Exhausts c [] u i h = tt
    Left-Exhausts c ((s, sm) ∷ l) u i h = (
      (
        rest_of (find s c.out_by_sender),
        h.0,
        All-In (λ k. Unrated lib (rest_of (find k c.out_by_sender))) i.0 u,
      ),
      Left-Exhausts c l u i.1 h.1,
    )

    ended-Done :
        (c : Chosen)
        → Splits all c
        → (best_of_all lib lo (length c.out) c.out_by_sender senders no_best).n_best ≡ 0
        → Done c.out
    ended-Done c h z = elim (Bool-cases (leb lo (length c.out))) [
      | inl y ↦ inl (ground (arith, y))
      | inr y ↦
          let room : length c.out < lo = ground (arith, y) in
          elim (best_of_all-Idle lib lo (length c.out) room c.out_by_sender senders no_best
            (refl, refl)) [
              | inl g ↦ absurd (omega (arith, g, z))
              | inr u ↦ inr (Left-Exhausts c all u covers h)
            ]
    ]

    module _ (go : Chosen → Option (List SignedMessage))
        (own : (c : Chosen) → Splits all c → DoneOut (go c)) (c : Chosen) (h : Splits all c) where
      after_cut-DoneOut :
          (b : BestChoice) (o : Option SenderMeta)
          → find b.sender c.out_by_sender ≡ o
          → DoneOut (after_cut lo go (cut b c o))
      unfolding after_cut cut
      after_cut-DoneOut b none f = tt
      after_cut-DoneOut b (some sm) f =
          elim (Bool-cases
            (leb lo (length (c.out ++ map (λ e. e.msg) (take b.n_best sm.entries))))) [
              | inl y ↦ rw y (inl (ground (arith, y)))
              | inr y ↦ rw y (
                  own (next all c b sm f)
                    (AllEntries-mono _ _ all (λ s x l. next-Left all c b sm f s x l) h))
            ]

      after_best-DoneOut :
          DoneOut
            (after_best lo go c (best_of_all lib lo (length c.out) c.out_by_sender senders no_best))
      unfolding after_best
      after_best-DoneOut =
          let b = best_of_all lib lo (length c.out) c.out_by_sender senders no_best in
          elim (Bool-cases (b.n_best == 0)) [
            | inl y ↦ rw y (ended-Done c h ((==_iff b.n_best 0).0 y))
            | inr y ↦ rw y (after_cut-DoneOut b (find b.sender c.out_by_sender) refl)
          ]

    choose_rounds-DoneOut :
        (rounds : ℕ) (c : Chosen) → Splits all c → DoneOut (choose lib lo senders rounds c)
    unfolding choose
    choose_rounds-DoneOut zero c h = tt
    choose_rounds-DoneOut (suc rounds) c h =
        after_best-DoneOut (λ c'. choose lib lo senders rounds c')
          (λ c' k. choose_rounds-DoneOut rounds c' k) c h

    start-Splits : Distinct all → Splits all (record { out = []; out_by_sender = all })
    start-Splits d =
        AllEntries-mono _ _ all (λ s sm f. ([], ap rest_of (sym f), tt)) (entries_found all d)

    pub choose-DoneOut :
        (rounds : ℕ)
        → Distinct all
        → DoneOut (choose lib lo senders rounds (record { out = []; out_by_sender = all }))
    choose-DoneOut rounds d =
        choose_rounds-DoneOut rounds (record { out = []; out_by_sender = all }) (start-Splits d)
