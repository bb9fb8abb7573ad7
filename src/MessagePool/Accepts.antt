-- ===== src/MessagePool/Accepts.antt =====
-- What holds of a message that Add takes: chain/messagepool/messagepool.go.
use filecoin.Base.{
  ◌⊎◌, ℕ, ◌≤◌, ◌*◌, ◌≡◌, ◌≢◌, subst, refl, sym, List, Bool, true, false, ltb, ◌==◌, ==_refl, Option,
  none, some, nat_eq, arith, inl, inr, Bool-cases,
}
use filecoin.Base.Lists.{any, list_eq}
use filecoin.Base.Int.{ℤ, pos, ◌*ℤ◌, ltb_ℤ}
use filecoin.ChainTypes.Message.{
  SignedMessage, undef, block_gas_limit, total_filecoin, required_funds, u64_of_int,
}
use filecoin.MessagePool.State.{Provider, MessagePool, Result, ok, err}
use filecoin.MessagePool.Nonce.{get_state_nonce, get_state_balance}
use filecoin.MessagePool.Signatures.{verify_msg_sig, verify_by_key, sig_cache_key}
use filecoin.MessagePool.Pool.{add_locked, add_checked, add_ts, add_verified, add_message}
use filecoin.MessagePool.Held.{held, is_ok}
use filecoin.MessagePool.Held.Operations.{add_locked_stores}

-- The chain's state allows the message: its nonce is not used, and the sender has the price of the
-- gas up to the limit.
pub record Payable (m : SignedMessage) (nonce : Result ℕ) (balance : Result ℤ) : Type 0 where
  pub state_nonce : ℕ
  pub nonce_known : nonce ≡ ok state_nonce
  pub unused : state_nonce ≤ m.message.nonce
  pub funds : ℤ
  pub funds_known : balance ≡ ok funds
  pub enough : ltb_ℤ funds (m.message.gas_price *ℤ pos (u64_of_int m.message.gas_limit)) ≡ false

-- The gas limit fits a block, and the message is in the pool.
pub record Stored (mp : MessagePool) (m : SignedMessage) : Type 0 where
  pub gas_fits : ltb_ℤ block_gas_limit m.message.gas_limit ≡ false
  pub pending : held mp m.message.from m.message.nonce ≡ some m

module _ (p : Provider) (mp : MessagePool) (m : SignedMessage) where
  add_locked-Stored : is_ok (add_locked p mp m).1 ≡ true → Stored (add_locked p mp m).0 m
  unfolding add_locked
  add_locked-Stored h = record {
    gas_fits = gas h;
    pending = ground (
      arith,
      h,
      add_locked_stores p mp m m.message.from m.message.nonce,
      ==_refl m.message.from,
      ==_refl m.message.nonce,
    );
  }
    where
      gas : is_ok (add_locked p mp m).1 ≡ true → ltb_ℤ block_gas_limit m.message.gas_limit ≡ false
      gas h = elim (Bool-cases (ltb_ℤ block_gas_limit m.message.gas_limit)) [
        | inr e ↦ e
        | inl e ↦ absurd (ground (arith, h, e))
      ]

  add_checked-Payable :
      (s : Result ℕ) (b : Result ℤ)
      → is_ok (add_checked p mp m s b).1 ≡ true
      → Payable m s b × Stored (add_checked p mp m s b).0 m
  unfolding add_checked add_locked required_funds
  add_checked-Payable (err e) b h = absurd (cc)
  add_checked-Payable (ok s) (err e) h = absurd (ground (arith, h))
  add_checked-Payable (ok s) (ok b) h = elim (Bool-cases (ltb m.message.nonce s)) [
    | inl f ↦ absurd (ground (arith, h, f))
    | inr f ↦ elim (Bool-cases (ltb_ℤ b (required_funds m.message))) [
      | inl g ↦ absurd (ground (arith, h, f, g))
      | inr g ↦ (
        record {
          state_nonce = s;
          nonce_known = refl;
          unused = ground (arith, f);
          funds = b;
          funds_known = refl;
          enough = g;
        },
        rw (f, g) (add_locked-Stored (subst (λ r. is_ok r.1 ≡ true) (stores f g) h)),
      )
    ]
  ]
    where
      stores :
          ltb m.message.nonce s ≡ false
          → ltb_ℤ b (required_funds m.message) ≡ false
          → add_checked p mp m (ok s) (ok b) ≡ add_locked p mp m
      stores f g = rw (f, g) refl

  cur_ts-verify : (k : Option (List ℕ)) → (verify_by_key p mp m k).0.cur_ts ≡ mp.cur_ts
  unfolding verify_by_key
  cur_ts-verify none = refl
  cur_ts-verify (some sck) = ground arith

-- The signature is verified, or the cache has the key of the message.
abbrev pub Trusted : Provider → MessagePool → SignedMessage → Type 0
Trusted p mp m =
    (k : List ℕ) × (sig_cache_key p m ≡ some k)
    × ((p.verify m ≡ true) ⊎ (any (list_eq k) mp.sig_val_cache ≡ true))

verify_by_key-Trusted :
    (p : Provider) (mp : MessagePool) (m : SignedMessage) (o : Option (List ℕ))
    → sig_cache_key p m ≡ o
    → (verify_by_key p mp m o).1 ≡ true
    → Trusted p mp m
unfolding verify_by_key
verify_by_key-Trusted p mp m none e h = absurd (cc)
verify_by_key-Trusted p mp m (some k) e h = elim (Bool-cases (any (list_eq k) mp.sig_val_cache)) [
  | inl c ↦ (k, e, inr c)
  | inr c ↦ (k, e, inl (ground (arith, h, c)))
]

-- What Add has checked before it takes the message.
pub record Checked (p : Provider) (mp : MessagePool) (m : SignedMessage) : Type 0 where
  pub size_fits : p.codec.sealed_len m ≤ 32 * 1024
  pub has_to : m.message.to ≢ undef
  pub value_fits : ltb_ℤ m.message.value total_filecoin ≡ true
  pub trusted : Trusted p mp m
  pub payable :
      Payable m
        (get_state_nonce p m.message.from mp.cur_ts)
        (get_state_balance p m.message.from mp.cur_ts)

module _ (p : Provider) (m : SignedMessage) where
  add_verified-Payable :
      (mp mp' : MessagePool) (good : Bool)
      → mp'.cur_ts ≡ mp.cur_ts
      → is_ok (add_verified p m (mp', good)).1 ≡ true
      → (good ≡ true)
        × Payable m
            (get_state_nonce p m.message.from mp.cur_ts)
            (get_state_balance p m.message.from mp.cur_ts)
        × Stored (add_verified p m (mp', good)).0 m
  unfolding add_verified add_ts
  add_verified-Payable mp mp' false e h = absurd (cc)
  add_verified-Payable mp mp' true e h =
      let s = get_state_nonce p m.message.from mp'.cur_ts in
      let b = get_state_balance p m.message.from mp'.cur_ts in
      let (pay, st) = add_checked-Payable p mp' m s b h in
      (
        refl,
        subst
            (λ t.
              Payable m (get_state_nonce p m.message.from t) (get_state_balance p m.message.from t))
            e pay,
        st,
      )

  -- A message that Add reports as taken is in the pool, under its sender and its nonce. It is not
  -- too long, has a receiver and moves less than the total supply; its signature is verified, or
  -- the cache of verified signatures has the key of the message; its nonce is one that the chain
  -- has not used; its sender's balance is not below the gas price times the gas limit, the value
  -- that it moves left aside; and its gas limit fits a block.
  pub add_message_accepts :
      (mp : MessagePool)
      → is_ok (add_message p mp m).1 ≡ true
      → Checked p mp m × Stored (add_message p mp m).0 m
  unfolding add_message verify_msg_sig
  add_message_accepts mp h = elim (Bool-cases (ltb (32 * 1024) (p.codec.sealed_len m))) [
    | inl e ↦ absurd (ground (arith, h, e))
    | inr e ↦ elim (Bool-cases (m.message.to == undef)) [
      | inl f ↦ absurd (ground (arith, h, e, f))
      | inr f ↦ elim (Bool-cases (ltb_ℤ m.message.value total_filecoin)) [
        | inr g ↦ absurd (ground (arith, h, e, f, g))
        | inl g ↦
            let r = verify_msg_sig p mp m in
            let to = runs e f g in
            let (sig, pay, st) =
              add_verified-Payable mp r.0 r.1 (cur_ts-verify p mp m (sig_cache_key p m))
                (subst (λ q. is_ok q.1 ≡ true) to h) in
            (
              record {
                size_fits = ground (arith, e);
                has_to = λ q. absurd (ground (arith, q, f));
                value_fits = g;
                trusted = verify_by_key-Trusted p mp m (sig_cache_key p m) refl sig;
                payable = pay;
              },
              subst (λ q. Stored q.0 m) (sym to) st,
            )
      ]
    ]
  ]
    where
      runs :
          ltb (32 * 1024) (p.codec.sealed_len m) ≡ false
          → m.message.to == undef ≡ false
          → ltb_ℤ m.message.value total_filecoin ≡ true
          → add_message p mp m ≡ add_verified p m (verify_msg_sig p mp m)
      runs e f g = rw (e, f, g) refl
