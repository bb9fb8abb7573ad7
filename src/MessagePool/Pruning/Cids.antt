-- ===== src/MessagePool/Pruning/Cids.antt =====
-- The CIDs of the messages of a pool, whose number bounds that of the messages: for
-- chain/messagepool/pruning.go.
use filecoin.Base.{
  ℕ, suc, ◌≤◌, ◌≡◌, ◌≢◌, refl, sym, ◌∙◌, ap, List, [], ◌∷◌, ◌++◌, ◌==◌, ==_iff, if◌then◌else◌, none,
  nat_eq, arith, Bool-cases, inl, inr,
}
use filecoin.Base.Lists.{length, length-append, All, All-append, In, here, there}
use filecoin.Base.Map.{Map, find, values, Distinct, AllEntries}
use filecoin.ChainTypes.Message.{SignedMessage}
use filecoin.MessagePool.MsgSet.{Codec, MsgSet, cid}
use filecoin.MessagePool.MsgSet.Invariant.{Under}
use filecoin.MessagePool.Invariant.{IsSenderSet, message_count}

-- the list less the first `x`
unfoldable without : ℕ → List ℕ → List ℕ
without x [] = []
without x (y ∷ ys) = let rest = without x ys in if y == x then ys else y ∷ rest

length-without : (x : ℕ) (ys : List ℕ) → In x ys → suc (length (without x ys)) ≡ length ys
unfolding without
length-without x [] i = elim i [ ]
length-without x (y ∷ ys) here = ground (arith, ==_iff x x)
length-without x (y ∷ ys) (there i) = ground (arith, length-without x ys i)

In-without : (x z : ℕ) (ys : List ℕ) → z ≢ x → In z ys → In z (without x ys)
unfolding without
In-without x z [] d i = elim i [ ]
In-without x z (y ∷ ys) d here = elim (Bool-cases (y == x)) [
  | inl e ↦ absurd (d ((==_iff y x).0 e))
  | inr e ↦ rw e here
]
In-without x z (y ∷ ys) d (there i) = elim (Bool-cases (y == x)) [
  | inl e ↦ rw e i
  | inr e ↦ rw e (there (In-without x z ys d i))
]

abbrev pub all_messages : Map ℕ MsgSet → List SignedMessage
all_messages [] = []
all_messages ((a, ms) ∷ l) = values ms.msgs ++ all_messages l

length-values : {V : Type 0} (m : Map ℕ V) → length (values m) ≡ length m
length-values [] = refl
length-values (e ∷ m) = ap suc (length-values m)

pub length-all_messages : (l : Map ℕ MsgSet) → length (all_messages l) ≡ message_count l
length-all_messages [] = refl
length-all_messages ((a, ms) ∷ l) = omega (
  arith,
  length-append (values ms.msgs) (all_messages l),
  length-values ms.msgs,
  length-all_messages l,
)

other_keys : {V : Type 0} (k : ℕ) (m : Map ℕ V) → find k m ≡ none → AllEntries (λ j v. j ≢ k) m
unfolding find
other_keys k [] f = tt
other_keys k ((j, v) ∷ m) f =
    (λ q. absurd (ground (arith, f, q, ==_iff j k)), other_keys k m (ground (arith, f)))

-- CIDs tell messages of different senders or nonces apart.
abbrev pub CidsIdentify : Codec → Type 0
CidsIdentify c =
    (m k : SignedMessage)
    → cid c m ≡ cid c k
    → (m.message.from ≡ k.message.from) × (m.message.nonce ≡ k.message.nonce)

module _ (c : Codec) (same : CidsIdentify c) where
  abbrev Different : List SignedMessage → Type 0
  Different [] = Unit
  Different (m ∷ l) = All (λ k. cid c k ≢ cid c m) l × Different l

  within :
      (x : ℕ) (ys : List ℕ) (l : List SignedMessage)
      → All (λ k. cid c k ≢ x) l
      → All (λ k. In (cid c k) ys) l
      → All (λ k. In (cid c k) (without x ys)) l
  within x ys [] d i = tt
  within x ys (k ∷ l) d i = (In-without x (cid c k) ys d.0 i.0, within x ys l d.1 i.1)

  pub length-le :
      (ys : List ℕ) (l : List SignedMessage)
      → Different l
      → All (λ m. In (cid c m) ys) l
      → length l ≤ length ys
  length-le ys [] d i = omega arith
  length-le ys (m ∷ l) d i = omega (
    arith,
    length-without (cid c m) ys i.0,
    length-le (without (cid c m) ys) l d.1 (within (cid c m) ys l d.0 i.1),
  )

  append-Different :
      (l r : List SignedMessage)
      → Different l
      → Different r
      → All (λ m. All (λ k. cid c k ≢ cid c m) r) l
      → Different (l ++ r)
  append-Different [] r d e x = e
  append-Different (m ∷ l) r d e x =
      (All-append (λ k. cid c k ≢ cid c m) l r d.0 x.0, append-Different l r d.1 e x.1)

  other_nonces :
      (n b : ℕ) (m : SignedMessage) (msgs : Map ℕ SignedMessage)
      → m.message.nonce ≡ n
      → AllEntries (λ k x. k ≢ n) msgs
      → AllEntries (Under b) msgs
      → All (λ k. cid c k ≢ cid c m) (values msgs)
  other_nonces n b m [] q o u = tt
  other_nonces n b m ((k, x) ∷ msgs) q o u =
      (λ e. o.0 (sym u.0.0 ∙ (same x m e).1 ∙ q), other_nonces n b m msgs q o.1 u.1)

  values-Different :
      (b : ℕ) (msgs : Map ℕ SignedMessage)
      → Distinct msgs
      → AllEntries (Under b) msgs
      → Different (values msgs)
  values-Different b [] d u = tt
  values-Different b ((n, m) ∷ msgs) d u =
      (other_nonces n b m msgs u.0.0 (other_keys n msgs d.0) u.1, values-Different b msgs d.1 u.1)

  other_sender :
      (a b : ℕ) (m : SignedMessage) (msgs : Map ℕ SignedMessage)
      → m.message.from ≡ a
      → b ≢ a
      → AllEntries (λ k x. x.message.from ≡ b) msgs
      → All (λ k. cid c k ≢ cid c m) (values msgs)
  other_sender a b m [] q d o = tt
  other_sender a b m ((k, x) ∷ msgs) q d o =
      (λ e. d (sym o.0 ∙ (same x m e).0 ∙ q), other_sender a b m msgs q d o.1)

  other_senders :
      (a : ℕ) (m : SignedMessage) (l : Map ℕ MsgSet)
      → m.message.from ≡ a
      → AllEntries (λ b s. b ≢ a) l
      → AllEntries IsSenderSet l
      → All (λ k. cid c k ≢ cid c m) (all_messages l)
  other_senders a m [] q d i = tt
  other_senders a m ((b, s) ∷ l) q d i =
      All-append (λ k. cid c k ≢ cid c m) (values s.msgs) (all_messages l)
        (other_sender a b m s.msgs q d.0 i.0.own) (other_senders a m l q d.1 i.1)

  pub all_messages-Different :
      (l : Map ℕ MsgSet) → Distinct l → AllEntries IsSenderSet l → Different (all_messages l)
  all_messages-Different [] d i = tt
  all_messages-Different ((a, ms) ∷ l) d i =
      append-Different (values ms.msgs) (all_messages l)
        (values-Different ms.next_nonce ms.msgs i.0.formed.distinct i.0.formed.under)
        (all_messages-Different l d.1 i.1) (apart ms.msgs i.0.own)
    where
      apart :
          (msgs : Map ℕ SignedMessage)
          → AllEntries (λ n m. m.message.from ≡ a) msgs
          → All (λ m. All (λ k. cid c k ≢ cid c m) (all_messages l)) (values msgs)
      apart [] o = tt
      apart ((n, m) ∷ msgs) o = (other_senders a m l o.0 (other_keys a l d.0) i.1, apart msgs o.1)
