-- ===== src/MessagePool/Invariant.antt =====
-- What holds of the whole pool: every sender's set is well formed, and `currentSize` counts the
-- messages.
pub mod Add
pub mod Remove
use filecoin.Base.{
  ℕ, ◌+◌, ◌<◌, ◌^◌, ◌≡◌, refl, ap, List, [], ◌∷◌, Option, none, some, nat_eq, arith, inl, inr,
  Bool-cases, ◌==◌, ==_iff, sym, ◌∙◌,
}
use filecoin.Base.Lists.{length}
use filecoin.Base.Map.{
  Map, find, put, erase, Distinct, put-Distinct, erase-Distinct, AllEntries, put-AllEntries,
  erase-AllEntries, erase-none, find-AllEntries,
}
use filecoin.ChainTypes.Message.{SignedMessage}
use filecoin.MessagePool.MsgSet.{MsgSet}
use filecoin.MessagePool.MsgSet.Invariant.{IsMsgSet}
use filecoin.MessagePool.State.{MessagePool}

-- The nonce leaves room for the next one.
abbrev pub Fits : SignedMessage → Type 0
Fits m = m.message.nonce + 1 < 2 ^ 64

-- A sender's set: well formed, not empty, with messages of the sender alone.
pub record IsSenderSet (from : ℕ) (ms : MsgSet) : Type 0 where
  pub formed : IsMsgSet ms
  pub bound : ms.next_nonce < 2 ^ 64
  pub filled : 0 < length ms.msgs
  pub own : AllEntries (λ n m. m.message.from ≡ from) ms.msgs

-- the number of messages
abbrev pub message_count : Map ℕ MsgSet → ℕ
message_count [] = 0
message_count ((a, ms) ∷ l) = length ms.msgs + message_count l

pub record Sound (pending : Map ℕ MsgSet) (size : ℕ) : Type 0 where
  pub distinct : Distinct pending
  pub sets : AllEntries IsSenderSet pending
  pub counted : size ≡ message_count pending

abbrev pub IsPool : MessagePool → Type 0
IsPool mp = Sound mp.pending mp.current_size

pub message_count-erase :
    (a : ℕ) (l : Map ℕ MsgSet) (ms : MsgSet)
    → Distinct l
    → find a l ≡ some ms
    → message_count (erase a l) + length ms.msgs ≡ message_count l
unfolding find erase
message_count-erase a [] ms d f = absurd (cc)
message_count-erase a ((b, s) ∷ l) ms d f = elim (Bool-cases (b == a)) [
  | inl e ↦ ground (arith, e, f, d.0, erase-none a l, ==_iff b a)
  | inr e ↦ ground (arith, e, f, message_count-erase a l ms d.1)
]

-- A new sender's set, another set for a known sender, and no set more.
pub Sound-new :
    (a : ℕ) (ms : MsgSet) (l : Map ℕ MsgSet) (size : ℕ)
    → find a l ≡ none
    → IsSenderSet a ms
    → Sound l size
    → Sound (put a ms l) (length ms.msgs + size)
unfolding put
Sound-new a ms l size f i s = record {
  distinct = put-Distinct a ms l s.distinct;
  sets = put-AllEntries IsSenderSet a ms l i s.sets;
  counted = ap (λ n. length ms.msgs + n) (s.counted ∙ ap message_count (sym (erase-none a l f)));
}

module _ (a : ℕ) (ms old : MsgSet) (l : Map ℕ MsgSet) (size size' : ℕ)
    (f : find a l ≡ some old) where
  pub Sound-over :
      IsSenderSet a ms
      → size' + length old.msgs ≡ length ms.msgs + size
      → Sound l size
      → Sound (put a ms l) size'
  unfolding put
  Sound-over i e s = record {
    distinct = put-Distinct a ms l s.distinct;
    sets = put-AllEntries IsSenderSet a ms l i s.sets;
    counted = ground (arith, e, s.counted, message_count-erase a l old s.distinct f);
  }

  pub Sound-erase : size' + length old.msgs ≡ size → Sound l size → Sound (erase a l) size'
  Sound-erase e s = record {
    distinct = erase-Distinct a l s.distinct;
    sets = erase-AllEntries IsSenderSet a l s.sets;
    counted = ground (arith, e, s.counted, message_count-erase a l old s.distinct f);
  }
