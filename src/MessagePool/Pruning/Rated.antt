-- ===== src/MessagePool/Pruning/Rated.antt =====
-- The search for the best choice in chain/messagepool/pruning.go finds none only if no sender's
-- first message is rated at least 0.
use filecoin.Base.{
  ℕ, ◌+◌, ◌<◌, ◌≡◌, ap, ◌∙◌, List, [], ◌∷◌, true, false, leb, Option, none, some, nat_eq, arith,
  Bool-cases, ◌⊎◌, inl, inr,
}
use filecoin.Base.Lists.{All}
use filecoin.Base.Map.{Map, find}
use filecoin.MessagePool.Tally.{Library, Entry, SenderMeta}
use filecoin.MessagePool.Pruning.{BestChoice, best_of, best_of_sender, best_of_all}

-- The first entry, if there is one, is not rated at least 0.
abbrev pub Unrated : Library → List Entry → Type 0
Unrated lib [] = Unit
Unrated lib (e ∷ es) = lib.at_least (lib.ratio e.gas_reward e.gas_limit) 0 ≡ false

abbrev pub rest_of : Option SenderMeta → List Entry
rest_of none = []
rest_of (some sm) = sm.entries

-- The best choice so far is none, or of some messages.
module _ (lib : Library) (lo len : ℕ) (room : len < lo) where
  best_of_grows :
      (s n : ℕ) (es : List Entry) (b : BestChoice)
      → 0 < b.n_best
      → 0 < (best_of lib lo len s n es b).n_best
  unfolding best_of
  best_of_grows s n [] b h = h
  best_of_grows s n (e ∷ es) b h = elim (Bool-cases (leb lo (n + len))) [
    | inl y ↦ rw y h
    | inr y ↦
        rw y
          (elim (Bool-cases (lib.at_least (lib.ratio e.gas_reward e.gas_limit) b.gas_to_reward)) [
            | inl z ↦ rw z (best_of_grows s (n + 1) es _ (omega arith))
            | inr z ↦ rw z (best_of_grows s (n + 1) es b h)
          ])
  ]

  best_of_first :
      (s : ℕ) (e : Entry) (es : List Entry) (b : BestChoice)
      → lib.at_least (lib.ratio e.gas_reward e.gas_limit) b.gas_to_reward ≡ true
      → 0 < (best_of lib lo len s 0 (e ∷ es) b).n_best
  unfolding best_of
  best_of_first s e es b z =
      let y : leb lo (0 + len) ≡ false = ground (arith, room) in
      rw (y, z) (best_of_grows s 1 es _ (omega arith))

  abbrev Idle : BestChoice → Type 0
  Idle b = (b.n_best ≡ 0) × (b.gas_to_reward ≡ 0)

  best_of-Idle :
      (s n : ℕ) (es : List Entry) (b : BestChoice)
      → Idle b
      → (0 < (best_of lib lo len s n es b).n_best) ⊎ Idle (best_of lib lo len s n es b)
  unfolding best_of
  best_of-Idle s n [] b h = inr h
  best_of-Idle s n (e ∷ es) b h = elim (Bool-cases (leb lo (n + len))) [
    | inl y ↦ rw y (inr h)
    | inr y ↦
        rw y
          (elim (Bool-cases (lib.at_least (lib.ratio e.gas_reward e.gas_limit) b.gas_to_reward)) [
            | inl z ↦ rw z (inl (best_of_grows s (n + 1) es _ (omega arith)))
            | inr z ↦ rw z (best_of-Idle s (n + 1) es b h)
          ])
  ]

  best_of_sender-Idle :
      (s : ℕ) (o : Option SenderMeta) (b : BestChoice)
      → Idle b
      → (0 < (best_of_sender lib lo len s o b).n_best)
        ⊎ Idle (best_of_sender lib lo len s o b) × Unrated lib (rest_of o)
  unfolding best_of_sender
  best_of_sender-Idle s none b h = inr (h, tt)
  best_of_sender-Idle s (some sm) b h = by_entries sm.entries
    where
      by_entries :
          (es : List Entry)
          → (0 < (best_of lib lo len s 0 es b).n_best)
            ⊎ Idle (best_of lib lo len s 0 es b) × Unrated lib es
      by_entries [] = elim (best_of-Idle s 0 [] b h) [ inl g ↦ inl g | inr i ↦ inr (i, tt) ]
      by_entries (e ∷ es) =
          elim (Bool-cases (lib.at_least (lib.ratio e.gas_reward e.gas_limit) 0)) [
            | inl z ↦ inl (
                best_of_first s e es b
                  (ap (lib.at_least (lib.ratio e.gas_reward e.gas_limit)) h.1 ∙ z))
            | inr z ↦ elim (best_of-Idle s 0 (e ∷ es) b h) [ inl g ↦ inl g | inr i ↦ inr (i, z) ]
          ]

  module _ (outs : Map ℕ SenderMeta) where
    best_of_all_grows :
        (senders : List ℕ) (b : BestChoice)
        → 0 < b.n_best
        → 0 < (best_of_all lib lo len outs senders b).n_best
    unfolding best_of_all best_of_sender
    best_of_all_grows [] b h = h
    best_of_all_grows (s ∷ senders) b h =
        best_of_all_grows senders (best_of_sender lib lo len s (find s outs) b)
          (by_sender (find s outs))
      where
        by_sender : (o : Option SenderMeta) → 0 < (best_of_sender lib lo len s o b).n_best
        by_sender none = h
        by_sender (some sm) = best_of_grows s 0 sm.entries b h

    pub best_of_all-Idle :
        (senders : List ℕ) (b : BestChoice)
        → Idle b
        → (0 < (best_of_all lib lo len outs senders b).n_best)
          ⊎ All (λ s. Unrated lib (rest_of (find s outs))) senders
    unfolding best_of_all
    best_of_all-Idle [] b h = inr tt
    best_of_all-Idle (s ∷ senders) b h =
        let b' = best_of_sender lib lo len s (find s outs) b in
        elim (best_of_sender-Idle s (find s outs) b h) [
          | inl g ↦ inl (best_of_all_grows senders b' g)
          | inr (i, u) ↦ elim (best_of_all-Idle senders b' i) [ inl g ↦ inl g | inr a ↦ inr (u, a) ]
        ]
