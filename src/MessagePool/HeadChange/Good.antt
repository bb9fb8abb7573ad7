-- ===== src/MessagePool/HeadChange/Good.antt =====
-- A pool that is well formed, beside reverted messages that may be put back: kept by each part of
-- HeadChange.
use filecoin.Base.{ℕ, ◌+◌, ◌<◌, ◌^◌, ◌≡◌, refl, List, [], ◌∷◌, Option, none, some, nat_eq, map}
use filecoin.Base.Lists.{All, All-append}
use filecoin.Base.Map.{
  Map, find, erase, values, AllEntries, put-AllEntries, erase-AllEntries, find-AllEntries,
}
use filecoin.ChainTypes.BlockHeader.{BlockHeader, Signature}
use filecoin.ChainTypes.Message.{Message, SignedMessage}
use filecoin.MessagePool.State.{Provider, MessagePool}
use filecoin.MessagePool.Pool.{add_locked}
use filecoin.MessagePool.Invariant.{Fits, IsPool}
use filecoin.MessagePool.Invariant.Add.{add_locked-IsPool}
use filecoin.MessagePool.Invariant.Remove.{remove-IsPool}
use filecoin.MessagePool.HeadChange.{
  State, Reverted, signed_with, recover_all, nonces_of, note, note_all, take_back, rm, rm_by,
  rm_all, readd, readd_all,
}

abbrev pub Room : Message → Type 0
Room m = m.nonce + 1 < 2 ^ 64

-- No message of a block has the largest nonce.
abbrev pub Roomy : Provider → Type 0
Roomy p =
    (b : BlockHeader) (bmsgs : List Message) (smsgs : List SignedMessage)
    → p.messages_for_block b ≡ some (bmsgs, smsgs)
    → All Room bmsgs × All Fits smsgs

abbrev pub OfSender : ℕ → Map ℕ SignedMessage → Type 0
OfSender a s = AllEntries (λ n m. Fits m) s

abbrev pub Good : State → Type 0
Good st = IsPool st.0 × AllEntries OfSender st.1

pub rm-Good : (m : Message) (st : State) → Room m → Good st → Good (rm st m)
unfolding rm rm_by take_back
rm-Good m (mp, r) fits h = by_sender (find m.from r) refl
  where
    by_nonce :
        (s : Map ℕ SignedMessage) (o : Option SignedMessage)
        → OfSender m.from s
        → Good (take_back (mp, r) m.from m.nonce s o)
    by_nonce s none f = (remove-IsPool m.from m.nonce fits mp h.0, h.1)
    by_nonce s (some k) f = (
      h.0,
      put-AllEntries OfSender m.from (erase m.nonce s) r
          (erase-AllEntries (λ n m. Fits m) m.nonce s f) h.1,
    )

    by_sender :
        (o : Option (Map ℕ SignedMessage))
        → find m.from r ≡ o
        → Good (rm_by (mp, r) m.from m.nonce o)
    by_sender none e = (remove-IsPool m.from m.nonce fits mp h.0, h.1)
    by_sender (some s) e = by_nonce s (find m.nonce s) (find-AllEntries OfSender m.from r s h.1 e)

pub rm_all-Good : (ms : List Message) (st : State) → All Room ms → Good st → Good (rm_all st ms)
unfolding rm_all
rm_all-Good [] st f h = h
rm_all-Good (m ∷ ms) st f h = rm_all-Good ms (rm st m) f.1 (rm-Good m st f.0 h)

pub Room-of_Fits : (l : List SignedMessage) → All Fits l → All Room (map (λ m. m.message) l)
Room-of_Fits [] f = tt
Room-of_Fits (m ∷ l) f = (f.0, Room-of_Fits l f.1)

pub recover_all-Fits :
    (p : Provider) (cache : Map ℕ Signature) (l : List Message)
    → All Room l
    → All Fits (recover_all p cache l)
unfolding recover_all
recover_all-Fits p cache [] f = tt
recover_all-Fits p cache (m ∷ l) f =
    All-append Fits (signed_with m (find (p.codec.message_cid m) cache)) (recover_all p cache l)
      (one (find (p.codec.message_cid m) cache)) (recover_all-Fits p cache l f.1)
  where
    one : (s : Option Signature) → All Fits (signed_with m s)
    one none = tt
    one (some s) = (f.0, tt)

pub note_all-Good :
    (mp : MessagePool) (l : List SignedMessage) (r : Reverted)
    → All Fits l
    → AllEntries OfSender r
    → AllEntries OfSender (note_all r l)
unfolding note_all note
note_all-Good mp [] r f h = h
note_all-Good mp (m ∷ l) r f h = note_all-Good mp l (note r m) f.1 (
    put-AllEntries OfSender m.message.from _ r
      (put-AllEntries (λ n k. Fits k) m.message.nonce m (nonces_of (find m.message.from r)) f.0
        (known (find m.message.from r) refl))
      h)
  where
    known :
        (o : Option (Map ℕ SignedMessage))
        → find m.message.from r ≡ o
        → OfSender m.message.from (nonces_of o)
    known none e = tt
    known (some s) e = find-AllEntries OfSender m.message.from r s h e

pub readd-IsPool :
    (p : Provider) (s : Map ℕ SignedMessage) (mp : MessagePool)
    → AllEntries (λ n m. Fits m) s
    → IsPool mp
    → IsPool (readd p mp (values s))
unfolding readd
readd-IsPool p [] mp f h = h
readd-IsPool p ((n, m) ∷ s) mp f h =
    readd-IsPool p s (add_locked p mp m).0 f.1 (add_locked-IsPool p m f.0 mp h)

pub readd_all-IsPool :
    (p : Provider) (r : Reverted) (mp : MessagePool)
    → AllEntries OfSender r
    → IsPool mp
    → IsPool (readd_all p mp (values r))
unfolding readd_all
readd_all-IsPool p [] mp f h = h
readd_all-IsPool p ((a, s) ∷ r) mp f h =
    readd_all-IsPool p r (readd p mp (values s)) f.1 (readd-IsPool p s mp f.0 h)
