-- ===== src/MessagePool/Signatures/Sound.antt =====
-- What the cache of verified signatures vouches for: VerifyMsgSig of
-- chain/messagepool/messagepool.go.
use filecoin.Base.{
  ℕ, ◌≡◌, refl, sym, subst, List, true, false, Option, none, some, arith, inl, inr, ◌⊎◌, Bool-cases,
}
use filecoin.Base.Lists.{
  length, drop, any, any-In, any-find, list_eq, list_eq_iff, list_eq_refl, All, All-In, All-of, In,
}
use filecoin.ChainTypes.Message.{SignedMessage}
use filecoin.MessagePool.MsgSet.{cid}
use filecoin.MessagePool.State.{Provider, MessagePool}
use filecoin.MessagePool.Signatures.{verify_msg_sig, verify_by_key, sig_cache_key}

-- A message with this key has passed `sigs.Verify`.
pub record Vouched (p : Provider) (key : List ℕ) : Type 0 where
  pub message : SignedMessage
  pub keyed : sig_cache_key p message ≡ some key
  pub verified : p.verify message ≡ true

-- A cache that holds what was in it and what is added, less what it drops.
abbrev pub Caches : (List (List ℕ) → List ℕ → List (List ℕ)) → Type 0
Caches add = (l : List (List ℕ)) (k x : List ℕ) → In x (add l k) → (x ≡ k) ⊎ In x l

-- A cache that holds what was just added.
abbrev pub Holds : (List (List ℕ) → List ℕ → List (List ℕ)) → Type 0
Holds add = (l : List (List ℕ)) (k : List ℕ) → In k (add l k)

module _ (p : Provider) (keeps : Caches p.valid_add) where
  verify_by_key_sound :
      (mp : MessagePool) (m : SignedMessage) (k : Option (List ℕ))
      → sig_cache_key p m ≡ k
      → All (Vouched p) mp.sig_val_cache
      → All (Vouched p) (verify_by_key p mp m k).0.sig_val_cache
        × (((verify_by_key p mp m k).1 ≡ false) ⊎ (sck : List ℕ) × (k ≡ some sck) × Vouched p sck)
  unfolding verify_by_key
  verify_by_key_sound mp m none e v = (v, inl refl)
  verify_by_key_sound mp m (some sck) e v = elim (Bool-cases (any (list_eq sck) mp.sig_val_cache)) [
    | inl f ↦
        let (x, i, q) = any-find (list_eq sck) mp.sig_val_cache f in
        rw f (
          v,
          inr (
            sck,
            refl,
            subst (Vouched p) (sym ((list_eq_iff sck x).0 q)) (All-In (Vouched p) i v),
          ),
        )
    | inr f ↦ rw f (elim (Bool-cases (p.verify m)) [
      | inr g ↦ rw g (v, inl refl)
      | inl g ↦
          let w : Vouched p sck = record { message = m; keyed = e; verified = g } in
          rw g (
            All-of (p.valid_add mp.sig_val_cache sck) (λ x i.
                elim (keeps mp.sig_val_cache sck x i) [
                  | inl q ↦ subst (Vouched p) (sym q) w
                  | inr j ↦ All-In (Vouched p) j v
                ]),
            inr (sck, refl, w),
          )
    ])
  ]

  -- If the cache of verified signatures holds keys of verified messages only, so does it after
  -- VerifyMsgSig, and what VerifyMsgSig takes as signed has the key of a message that was
  -- verified. The cache holds nothing but what was put in it.
  pub verify_msg_sig_sound :
      (mp : MessagePool) (m : SignedMessage)
      → All (Vouched p) mp.sig_val_cache
      → All (Vouched p) (verify_msg_sig p mp m).0.sig_val_cache
        × (((verify_msg_sig p mp m).1 ≡ false)
            ⊎ (sck : List ℕ) × (sig_cache_key p m ≡ some sck) × Vouched p sck)
  unfolding verify_msg_sig
  verify_msg_sig_sound mp m v = verify_by_key_sound mp m (sig_cache_key p m) refl v

-- Once a BLS signature is taken, another of the same length that agrees with it from byte 64 on
-- is taken for a message with the same CID, whether the signature check would refuse it or not.
-- The cache holds what was just put in it.
pub verify_msg_sig_shared :
    (p : Provider) (holds : Holds p.valid_add) (mp : MessagePool) (m m' : SignedMessage)
    → m.signature.kind ≡ p.codec.sig_bls
    → m'.signature.kind ≡ p.codec.sig_bls
    → cid p.codec m ≡ cid p.codec m'
    → drop 64 m.signature.bytes ≡ drop 64 m'.signature.bytes
    → length m.signature.bytes ≡ length m'.signature.bytes
    → (verify_msg_sig p mp m).1 ≡ true
    → (verify_msg_sig p (verify_msg_sig p mp m).0 m').1 ≡ true
unfolding verify_msg_sig sig_cache_key verify_by_key
verify_msg_sig_shared p holds mp m m' b b' c d l h =
    subst (λ k. (verify_by_key p (verify_by_key p mp m (sig_cache_key p m)).0 m' k).1 ≡ true) same
      (again (sig_cache_key p m) h)
  where
    same : sig_cache_key p m ≡ sig_cache_key p m'
    same = ground (arith, b, b', c, d, l)

    again :
        (k : Option (List ℕ))
        → (verify_by_key p mp m k).1 ≡ true
        → (verify_by_key p (verify_by_key p mp m k).0 m' k).1 ≡ true
    again none h = absurd (cc)
    again (some sck) h = elim (Bool-cases (any (list_eq sck) mp.sig_val_cache)) [
      | inl f ↦ ground (arith, f)
      | inr f ↦ elim (Bool-cases (p.verify m)) [
        | inr g ↦ absurd (ground (arith, f, g, h))
        | inl g ↦
            ground
              (arith, f, g, any-In (list_eq sck) (holds mp.sig_val_cache sck) (list_eq_refl sck))
      ]
    ]
