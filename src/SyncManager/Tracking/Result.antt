-- ===== src/SyncManager/Tracking/Result.antt =====
-- What a sync's result and the handing out of a target leave of the tipsets that wait.
use filecoin.Base.Map.{find, erase, find-put}
use filecoin.Base.Lists.{list_eq, key_eq}
use filecoin.Base.{
  Bool, ◌++◌, ◌∙◌, if◌then◌else◌, ◌≡◌, refl, ap, List, [], ◌∷◌, true, false, ◌||◌, Option, none,
  some, arith, Bool-cases, ◌⊎◌, inl, inr, >>=-eq-some,
}
use filecoin.ChainTypes.BlockHeader.{Hashes}
use filecoin.ChainTypes.TipSet.{TipSet, Key, key}
use filecoin.SyncManager.Bucket.{Bucket, pop, pop_related, heaviest_tip_set}
use filecoin.SyncManager.State.{SyncManager}
use filecoin.SyncManager.Schedule.{
  wake_next, take_related, with_related, schedule_process_result, after_sent, sent,
  schedule_work_sent,
}
use filecoin.SyncManager.Tracking.{
  has, held, held_next, waiting, any-snoc, held-pop_related, FirstRelated, pop_related-FirstRelated,
}
use filecoin.SyncManager.Tracking.Incoming.{held-pop, pop_next_tracks, pop_next_targets}

module _ (h : Hashes) (sm sm' : SyncManager) (u : TipSet) where
  wake_next_tracks :
      (o : Option Bucket) (q : List Bucket)
      → wake_next sm o q ≡ some sm'
      → sm.next_sync_target ≡ o
      → sm.sync_queue ≡ q
      → waiting h sm u ≡ true
      → waiting h sm' u ≡ true
  unfolding wake_next
  wake_next_tracks (some n) q e f g t = ground arith
  wake_next_tracks none [] e f g t = ground arith
  wake_next_tracks none (b ∷ bs) e f g t =
      pop_next_tracks h sm sm' (b ∷ bs) u e f (ground (arith, ap (λ l. held h l u) g))

wake_next_fields :
    (sm sm' : SyncManager) (o : Option Bucket) (q : List Bucket)
    → wake_next sm o q ≡ some sm'
    → (sm'.sync_targets ≡ sm.sync_targets) × (sm'.active_syncs ≡ sm.active_syncs)
unfolding wake_next
wake_next_fields sm sm' (some n) q e = (ground (arith, e), ground (arith, e))
wake_next_fields sm sm' none [] e = (ground (arith, e), ground (arith, e))
wake_next_fields sm sm' none (b ∷ bs) e = pop_next_targets sm sm' (b ∷ bs) e

take_related_fields :
    (sm : SyncManager) (o : Option Bucket) (b : Bucket)
    → ((take_related sm o b).sync_targets ≡ sm.sync_targets)
      × ((take_related sm o b).active_syncs ≡ sm.active_syncs)
unfolding take_related
take_related_fields sm none b = (refl, refl)
take_related_fields sm (some n) b = (refl, refl)

with_related_fields :
    (sm sm' : SyncManager) (o : Option Bucket) (success : Bool)
    → with_related sm o success ≡ some sm'
    → (sm'.sync_targets ≡ sm.sync_targets) × (sm'.active_syncs ≡ sm.active_syncs)
unfolding with_related
with_related_fields sm sm' (some b) true e =
    let (f, g) = take_related_fields sm sm.next_sync_target b in
    (ground (arith, e, f), ground (arith, e, g))
with_related_fields sm sm' (some b) false e =
    wake_next_fields sm sm' sm.next_sync_target sm.sync_queue e
with_related_fields sm sm' none success e =
    wake_next_fields sm sm' sm.next_sync_target sm.sync_queue e

-- The sync of the tipset is no longer active, and nothing is handed out.
abbrev pub Ended : SyncManager → SyncManager → TipSet → Type 0
Ended sm sm' ts =
    (sm'.sync_targets ≡ sm.sync_targets) × (sm'.active_syncs ≡ erase (key ts) sm.active_syncs)

schedule_process_result-Ended :
    (h : Hashes) (sm sm' : SyncManager) (ts : TipSet) (success : Bool)
    → schedule_process_result h sm ts success ≡ some sm'
    → Ended sm sm' ts
unfolding schedule_process_result
schedule_process_result-Ended h sm sm' ts success e =
    with_related_fields _ sm' (pop_related h sm.active_sync_tips ts).0 success e

take_related_tracks :
    (h : Hashes) (sm : SyncManager) (o : Option Bucket) (b : Bucket) (u : TipSet)
    → sm.next_sync_target ≡ o
    → (has h b u || waiting h sm u) ≡ true
    → waiting h (take_related sm o b) u ≡ true
unfolding take_related
take_related_tracks h sm none b u e t = ground (arith, ap (λ x. held_next h x u) e)
take_related_tracks h sm (some n) b u e t =
    ground (arith, any-snoc (λ c. has h c u) sm.sync_queue b)

with_related_tracks :
    (h : Hashes) (sm sm' : SyncManager) (o : Option Bucket) (u : TipSet)
    → with_related sm o true ≡ some sm'
    → (held_next h o u || waiting h sm u) ≡ true
    → waiting h sm' u ≡ true
unfolding with_related
with_related_tracks h sm sm' none u e t =
    wake_next_tracks h sm sm' u sm.next_sync_target sm.sync_queue e refl refl t
with_related_tracks h sm sm' (some b) u e t =
    ground (arith, take_related_tracks h sm sm.next_sync_target b u)

-- After a sync that succeeded every tipset that waited still waits, nothing has been sent to the
-- workers, and the sync is taken from the active ones, whose other entries stay.
pub schedule_process_result_tracks :
    (h : Hashes) (sm sm' : SyncManager) (ts u : TipSet)
    → schedule_process_result h sm ts true ≡ some sm'
    → ((waiting h sm u ≡ false) ⊎ (waiting h sm' u ≡ true)) × Ended sm sm' ts
unfolding schedule_process_result
schedule_process_result_tracks h sm sm' ts u e = (
  elim (Bool-cases (waiting h sm u)) [
    | inr t ↦ inl t
    | inl t ↦ inr (
        with_related_tracks h _ sm' (pop_related h sm.active_sync_tips ts).0 u e
          (ground (arith, t, held-pop_related h sm.active_sync_tips ts u)))
  ],
  schedule_process_result-Ended h sm sm' ts true e,
)

with_related_drops :
    (h : Hashes) (sm sm' : SyncManager) (o : Option Bucket) (u : TipSet)
    → with_related sm o false ≡ some sm'
    → (held_next h o u || waiting h sm u) ≡ true
    → (waiting h sm' u ≡ true) ⊎ (held_next h o u ≡ true)
unfolding with_related
with_related_drops h sm sm' none u e t =
    inl (wake_next_tracks h sm sm' u sm.next_sync_target sm.sync_queue e refl refl t)
with_related_drops h sm sm' (some b) u e t = elim (Bool-cases (has h b u)) [
  | inl f ↦ inr f
  | inr f ↦
      inl (wake_next_tracks h sm sm' u sm.next_sync_target sm.sync_queue e refl refl (rw f at t))
]

module _ (h : Hashes) (sm sm' : SyncManager) (ts u : TipSet) where
  -- It was in the first bucket that is related to the failed one.
  abbrev pub Dropped : Type 0
  Dropped = (b : Bucket) × FirstRelated h ts sm.active_sync_tips b × (has h b u ≡ true)

  dropped_first :
      (o : Option Bucket)
      → (pop_related h sm.active_sync_tips ts).0 ≡ o
      → held_next h o u ≡ true
      → Dropped
  dropped_first none f t = absurd (cc)
  dropped_first (some b) f t = (b, pop_related-FirstRelated h sm.active_sync_tips ts b f, t)

  kept_or_dropped :
      schedule_process_result h sm ts false ≡ some sm'
      → waiting h sm u ≡ true
      → (waiting h sm' u ≡ true) ⊎ Dropped
  unfolding schedule_process_result
  kept_or_dropped e t =
      let o = (pop_related h sm.active_sync_tips ts).0 in
      elim (with_related_drops h _ sm' o u e
        (ground (arith, t, held-pop_related h sm.active_sync_tips ts u))) [
          | inl k ↦ inl k
          | inr d ↦ inr (dropped_first o refl d)
        ]

-- After a sync that failed every tipset that waited still waits, but for those of the first
-- bucket of the waiting tips that is of the chain of the failed one; nothing has been sent to the
-- workers, and the sync is taken from the active ones, whose other entries stay.
pub schedule_process_result_drops :
    (h : Hashes) (sm sm' : SyncManager) (ts u : TipSet)
    → schedule_process_result h sm ts false ≡ some sm'
    → ((waiting h sm u ≡ false) ⊎ (waiting h sm' u ≡ true) ⊎ Dropped h sm sm' ts u)
      × Ended sm sm' ts
schedule_process_result_drops h sm sm' ts u e = (
  elim (Bool-cases (waiting h sm u)) [
    | inr t ↦ inl t
    | inl t ↦ inr (kept_or_dropped h sm sm' ts u e t)
  ],
  schedule_process_result-Ended h sm sm' ts false e,
)

after_sent_tracks :
    (h : Hashes) (sm sm' : SyncManager) (q : List Bucket) (u : TipSet)
    → after_sent sm q ≡ some sm'
    → sm.sync_queue ≡ q
    → (held h sm.sync_queue u || held h sm.active_sync_tips u) ≡ true
    → waiting h sm' u ≡ true
unfolding after_sent
after_sent_tracks h sm sm' [] u e f t = ground arith
after_sent_tracks h sm sm' (b ∷ bs) u e f t =
    let ((x, rest), p, g) = >>=-eq-some (pop (b ∷ bs)) _ e in
    ground (arith, held-pop h (b ∷ bs) x rest u p, ap (λ l. held h l u) f)

after_sent_fields :
    (sm sm' : SyncManager) (q : List Bucket)
    → after_sent sm q ≡ some sm'
    → (sm'.sync_targets ≡ sm.sync_targets) × (sm'.active_syncs ≡ sm.active_syncs)
unfolding after_sent
after_sent_fields sm sm' [] e = (ground (arith, e), ground (arith, e))
after_sent_fields sm sm' (b ∷ bs) e =
    let ((x, rest), p, f) = >>=-eq-some (pop (b ∷ bs)) _ e in (ground (arith, f), ground (arith, f))

-- When a target is handed out, its heaviest tip is sent to the workers and recorded under its key
-- in the active syncs, whose other entries stay; and every tipset that waited, outside the
-- target's bucket, still waits.
pub schedule_work_sent_tracks :
    (h : Hashes) (sm sm' : SyncManager) (b : Bucket) (hts u : TipSet) (k : Key)
    → sm.next_sync_target ≡ some b
    → heaviest_tip_set b ≡ some hts
    → schedule_work_sent sm ≡ some sm'
    → (sm'.sync_targets ≡ sm.sync_targets ++ hts ∷ [])
      × (find k sm'.active_syncs
          ≡ (if list_eq (key hts) k then some hts else find k sm.active_syncs))
      × ((waiting h sm u ≡ false) ⊎ (waiting h sm' u ≡ true) ⊎ (has h b u ≡ true))
unfolding schedule_work_sent sent
schedule_work_sent_tracks h sm sm' b hts u k n f e =
    let after : after_sent (sent sm hts) sm.sync_queue ≡ some sm' = rw (n, f) at e in
    let (g, a) = after_sent_fields (sent sm hts) sm' sm.sync_queue after in
    (
      g,
      ap (find k) a ∙ find-put (key hts) k hts sm.active_syncs,
      elim (Bool-cases (waiting h sm u)) [
        | inr t ↦ inl t
        | inl t ↦ elim (Bool-cases (has h b u)) [
          | inl d ↦ inr (inr d)
          | inr d ↦ inr (
              inl (
                after_sent_tracks h (sent sm hts) sm' sm.sync_queue u after refl
                  (ground (arith, t, d, ap (λ x. held_next h x u) n))))
        ]
      ],
    )
