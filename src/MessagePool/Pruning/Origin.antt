-- ===== src/MessagePool/Pruning/Origin.antt =====
-- The messages that pruneMessages of chain/messagepool/pruning.go chooses are those that it goes
-- over.
use filecoin.Base.{
  ℕ, zero, suc, ◌≡◌, refl, sym, subst, List, [], ◌∷◌, ◌++◌, map, ltb, leb, ◌==◌, Option, none, some,
  nat_eq, arith, Bool-cases, ◌⊎◌, inl, inr,
}
use filecoin.Base.Int.{ℤ, ltb_ℤ}
use filecoin.Base.Lists.{length, take, drop, All, All-append}
use filecoin.Base.Map.{
  Map, find, put, AllEntries, put-AllEntries, erase-AllEntries, find-AllEntries,
}
use filecoin.ChainTypes.Actor.{Actor}
use filecoin.ChainTypes.TipSet.{TipSet}
use filecoin.ChainTypes.Message.{SignedMessage, valid_for_block_inclusion, required_funds}
use filecoin.MessagePool.State.{Provider}
use filecoin.MessagePool.GasGuess.{guess_gas_used}
use filecoin.MessagePool.Tally.{
  Library, Entry, SenderMeta, Tally, or_zero, balance_or_zero, meta_or_new, append_message,
  may_be_included, look_up_sender, include, include_known, tally_one, tally_all,
}
use filecoin.MessagePool.Pruning.{
  BestChoice, best_of_all, no_best, Chosen, put_rest, cut, after_cut, after_best, choose,
}

pub include_outs :
    (m : SignedMessage) (guess : ℤ) (t : Tally)
    → ((include m guess t).out_by_sender ≡ t.out_by_sender)
      ⊎ ((include m guess t).out_by_sender
          ≡ put m.message.from
              (append_message m guess (meta_or_new (find m.message.from t.out_by_sender)))
              t.out_by_sender)
unfolding include
include_outs m guess t =
    let balance = balance_or_zero (find m.message.from t.incl_balances) in
    let nonce = or_zero (find m.message.from t.incl_nonces) in
    elim (Bool-cases (ltb_ℤ balance (required_funds m.message))) [
      | inl e ↦ inl (ground (arith, e))
      | inr e ↦ elim (Bool-cases (ltb nonce m.message.nonce)) [
        | inl f ↦ inl (ground (arith, e, f))
        | inr f ↦ elim (Bool-cases (ltb m.message.nonce nonce)) [
          | inl g ↦ inl (ground (arith, e, f, g))
          | inr g ↦ inr (ground (arith, e, f, g))
        ]
      ]
    ]

module _ (P : SignedMessage → Type 0) where
  abbrev Own : SenderMeta → Type 0
  Own sm = All (λ e. P e.msg) sm.entries

  abbrev pub OwnAll : Map ℕ SenderMeta → Type 0
  OwnAll outs = AllEntries (λ s sm. Own sm) outs

  Own-meta :
      (outs : Map ℕ SenderMeta) (a : ℕ) (o : Option SenderMeta)
      → find a outs ≡ o
      → OwnAll outs
      → Own (meta_or_new o)
  unfolding meta_or_new
  Own-meta outs a none f h = tt
  Own-meta outs a (some sm) f h = find-AllEntries (λ s x. Own x) a outs sm h f

  OwnAll-appended :
      (m : SignedMessage) (guess : ℤ) (outs : Map ℕ SenderMeta) (a : ℕ)
      → P m
      → OwnAll outs
      → OwnAll (put a (append_message m guess (meta_or_new (find a outs))) outs)
  unfolding append_message
  OwnAll-appended m guess outs a pm h =
      let sm = meta_or_new (find a outs) in
      put-AllEntries (λ s x. Own x) a (append_message m guess sm) outs
        (All-append (λ e. P e.msg) sm.entries _ (Own-meta outs a (find a outs) refl h) (pm, tt)) h

  include-OwnAll :
      (m : SignedMessage) (guess : ℤ) (t : Tally)
      → P m
      → OwnAll t.out_by_sender
      → OwnAll (include m guess t).out_by_sender
  include-OwnAll m guess t pm h = elim (include_outs m guess t) [
    | inl e ↦ subst OwnAll (sym e) h
    | inr e ↦ subst OwnAll (sym e) (OwnAll-appended m guess t.out_by_sender m.message.from pm h)
  ]

  known-OwnAll :
      (m : SignedMessage) (guess : ℤ) (t : Tally) (o : Option ℕ) (act : Option Actor)
      → P m
      → OwnAll t.out_by_sender
      → OwnAll (include_known m guess t (look_up_sender t m.message.from o act)).out_by_sender
  unfolding include_known look_up_sender
  known-OwnAll m guess t (some n) act pm h = include-OwnAll m guess t pm h
  known-OwnAll m guess t none none pm h = h
  known-OwnAll m guess t none (some act) pm h =
      let looked : Tally = record t {
        incl_nonces = put m.message.from act.nonce t.incl_nonces;
        incl_balances = put m.message.from act.balance t.incl_balances;
      } in
      include-OwnAll m guess looked pm h

  module _ (lib : Library) (p : Provider) (ts : TipSet) where
    tally_one-OwnAll :
        (m : SignedMessage) (t : Tally)
        → P m
        → OwnAll t.out_by_sender
        → OwnAll (tally_one lib p ts m t).out_by_sender
    unfolding tally_one
    tally_one-OwnAll m t pm h =
        let min_gas = p.min_gas (p.codec.sealed_len m) ts.height in
        let guess = (guess_gas_used lib.builtin (λ a. p.state_get_actor a (some ts)) m).0 in
        elim (Bool-cases (may_be_included (valid_for_block_inclusion m.message min_gas) m)) [
          | inl e ↦ rw e (
              known-OwnAll m guess t (find m.message.from t.incl_nonces)
                (p.state_get_actor m.message.from none) pm h)
          | inr e ↦ rw e h
        ]

    pub tally_all-OwnAll :
        (ms : List SignedMessage) (t : Tally)
        → All P ms
        → OwnAll t.out_by_sender
        → OwnAll (tally_all lib p ts ms t).out_by_sender
    unfolding tally_all
    tally_all-OwnAll [] t pm h = h
    tally_all-OwnAll (m ∷ ms) t pm h =
        tally_all-OwnAll ms (tally_one lib p ts m t) pm.1 (tally_one-OwnAll m t pm.0 h)

  taken-All :
      (n : ℕ) (es : List Entry) → All (λ e. P e.msg) es → All P (map (λ e. e.msg) (take n es))
  taken-All zero es h = tt
  taken-All (suc n) [] h = tt
  taken-All (suc n) (e ∷ es) h = (h.0, taken-All n es h.1)

  dropped-All : (n : ℕ) (es : List Entry) → All (λ e. P e.msg) es → All (λ e. P e.msg) (drop n es)
  dropped-All zero es h = h
  dropped-All (suc n) [] h = tt
  dropped-All (suc n) (e ∷ es) h = dropped-All n es h.1

  put_rest-OwnAll :
      (s : ℕ) (sm : SenderMeta) (es : List Entry) (outs : Map ℕ SenderMeta)
      → All (λ e. P e.msg) es
      → OwnAll outs
      → OwnAll (put_rest s sm es outs)
  unfolding put_rest
  put_rest-OwnAll s sm [] outs a h = erase-AllEntries (λ k x. Own x) s outs h
  put_rest-OwnAll s sm (e ∷ es) outs a h =
      put-AllEntries (λ k x. Own x) s (record sm { entries = e ∷ es }) outs a h

  abbrev OwnChosen : Chosen → Type 0
  OwnChosen c = All P c.out × OwnAll c.out_by_sender

  abbrev pub OwnOut : Option (List SignedMessage) → Type 0
  OwnOut none = Unit
  OwnOut (some out) = All P out

  module _ (lo : ℕ) (go : Chosen → Option (List SignedMessage))
      (own : (c : Chosen) → OwnChosen c → OwnOut (go c)) (c : Chosen) (h : OwnChosen c) where
    after_cut-OwnOut :
        (b : BestChoice) (o : Option SenderMeta)
        → find b.sender c.out_by_sender ≡ o
        → OwnOut (after_cut lo go (cut b c o))
    unfolding after_cut cut
    after_cut-OwnOut b none f = tt
    after_cut-OwnOut b (some sm) f =
        let mine = find-AllEntries (λ k x. Own x) b.sender c.out_by_sender sm h.1 f in
        let all =
          All-append P c.out (map (λ e. e.msg) (take b.n_best sm.entries)) h.0
            (taken-All b.n_best sm.entries mine) in
        elim (Bool-cases (leb lo (length (c.out ++ map (λ e. e.msg) (take b.n_best sm.entries))))) [
          | inl y ↦ rw y all
          | inr y ↦ rw y (
              own _ (
                all,
                put_rest-OwnAll b.sender sm (drop b.n_best sm.entries) c.out_by_sender
                    (dropped-All b.n_best sm.entries mine) h.1,
              ))
        ]

    after_best-OwnOut : (b : BestChoice) → OwnOut (after_best lo go c b)
    unfolding after_best
    after_best-OwnOut b = elim (Bool-cases (b.n_best == 0)) [
      | inl y ↦ rw y h.0
      | inr y ↦ rw y (after_cut-OwnOut b (find b.sender c.out_by_sender) refl)
    ]

  pub choose-OwnOut :
      (lib : Library) (lo : ℕ) (senders : List ℕ) (rounds : ℕ) (c : Chosen)
      → OwnChosen c
      → OwnOut (choose lib lo senders rounds c)
  unfolding choose
  choose-OwnOut lib lo senders zero c h = tt
  choose-OwnOut lib lo senders (suc rounds) c h =
      after_best-OwnOut lo (λ c'. choose lib lo senders rounds c')
        (λ c' k. choose-OwnOut lib lo senders rounds c' k) c h
        (best_of_all lib lo (length c.out) c.out_by_sender senders no_best)
