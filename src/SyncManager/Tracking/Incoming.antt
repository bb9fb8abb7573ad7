-- ===== src/SyncManager/Tracking/Incoming.antt =====
-- A tipset that arrives is not lost, and none that waits in the scheduler is.
use filecoin.Base.{
  ◌⊎◌, inl, inr, Bool-cases, false, ◌++◌, [], ◌∷◌, ◌≡◌, ap, List, true, ◌||◌, Option, none, some,
  arith, >>=-eq-some,
}
use filecoin.ChainTypes.BlockHeader.{Hashes}
use filecoin.ChainTypes.TipSet.{TipSet}
use filecoin.SyncManager.Bucket.{Bucket, insert, pop}
use filecoin.SyncManager.Bucket.Pop.{pop-perm}
use filecoin.SyncManager.State.{SyncManager}
use filecoin.SyncManager.Schedule.{pop_next, is_selected, add_or_queue, schedule_incoming}
use filecoin.SyncManager.Tracking.{
  has, held, held_next, waiting, any-perm, has-add, has-add_keeps, held-insert, held-insert_keeps,
}

pub held-pop :
    (h : Hashes) (bs : List Bucket) (x : Bucket) (rest : List Bucket) (u : TipSet)
    → pop bs ≡ some (x, rest)
    → (has h x u || held h rest u) ≡ held h bs u
held-pop h bs x rest u e = any-perm (λ b. has h b u) (pop-perm bs x rest e)

pub pop_next_tracks :
    (h : Hashes) (sm sm' : SyncManager) (q : List Bucket) (u : TipSet)
    → pop_next sm q ≡ some sm'
    → sm.next_sync_target ≡ none
    → waiting h (record sm { sync_queue = q }) u ≡ true
    → waiting h sm' u ≡ true
unfolding pop_next
pop_next_tracks h sm sm' q u e n t =
    let ((x, rest), p, f) = >>=-eq-some (pop q) _ e in ground (arith, held-pop h q x rest u p)

pub pop_next_targets :
    (sm sm' : SyncManager) (q : List Bucket)
    → pop_next sm q ≡ some sm'
    → (sm'.sync_targets ≡ sm.sync_targets) × (sm'.active_syncs ≡ sm.active_syncs)
unfolding pop_next
pop_next_targets sm sm' q e =
    let ((x, rest), p, f) = >>=-eq-some (pop q) _ e in (ground (arith, f), ground (arith, f))

module _ (h : Hashes) (sm sm' : SyncManager) (ts : TipSet) where
  add_or_queue_arrives :
      (o : Option Bucket)
      → add_or_queue h sm o ts ≡ some sm'
      → sm.next_sync_target ≡ o
      → waiting h sm' ts ≡ true
  unfolding add_or_queue
  add_or_queue_arrives none e n =
      pop_next_tracks h sm sm' (insert h sm.sync_queue ts) ts e n
        (ground (arith, held-insert h sm.sync_queue ts))
  add_or_queue_arrives (some b) e n = ground (arith, has-add h b ts, held-insert h sm.sync_queue ts)

  add_or_queue_keeps :
      (o : Option Bucket) (u : TipSet)
      → add_or_queue h sm o ts ≡ some sm'
      → sm.next_sync_target ≡ o
      → waiting h sm u ≡ true
      → waiting h sm' u ≡ true
  unfolding add_or_queue
  add_or_queue_keeps none u e n t =
      pop_next_tracks h sm sm' (insert h sm.sync_queue ts) u e n
        (ground (arith, held-insert_keeps h sm.sync_queue ts u))
  add_or_queue_keeps (some b) u e n t = ground (
    arith,
    ap (λ x. held_next h x u) n,
    has-add_keeps h b ts u,
    held-insert_keeps h sm.sync_queue ts u,
  )

  add_or_queue_targets :
      (o : Option Bucket)
      → add_or_queue h sm o ts ≡ some sm'
      → (sm'.sync_targets ≡ sm.sync_targets) × (sm'.active_syncs ≡ sm.active_syncs)
  unfolding add_or_queue
  add_or_queue_targets none e = pop_next_targets sm sm' (insert h sm.sync_queue ts) e
  add_or_queue_targets (some b) e = ground (arith, e)

  -- The tipset waits, or is the first, which goes to the workers at once.
  abbrev pub Arrives : Type 0
  Arrives =
      (waiting h sm' ts ≡ true) × (sm'.sync_targets ≡ sm.sync_targets)
      ⊎ (is_selected sm.bootstrap_state ≡ true) × (sm'.sync_targets ≡ sm.sync_targets ++ ts ∷ [])

  schedule_incoming_arrives : schedule_incoming h sm ts ≡ some sm' → Arrives
  unfolding schedule_incoming
  schedule_incoming_arrives e = elim (Bool-cases (is_selected sm.bootstrap_state)) [
    | inl f ↦ inr (f, ground (arith, e, f))
    | inr f ↦ inl (
      ground (
        arith,
        e,
        f,
        held-insert h sm.active_sync_tips ts,
        held-insert h sm.sync_queue ts,
        add_or_queue_arrives sm.next_sync_target,
      ),
      ground (arith, e, f, add_or_queue_targets sm.next_sync_target),
    )
  ]

  schedule_incoming_keeps :
      (u : TipSet)
      → schedule_incoming h sm ts ≡ some sm'
      → waiting h sm u ≡ true
      → waiting h sm' u ≡ true
  unfolding schedule_incoming
  schedule_incoming_keeps u e t = ground (
    arith,
    held-insert_keeps h sm.active_sync_tips ts u,
    held-insert_keeps h sm.sync_queue ts u,
    add_or_queue_keeps sm.next_sync_target u,
  )

  schedule_incoming_active :
      schedule_incoming h sm ts ≡ some sm' → sm'.active_syncs ≡ sm.active_syncs
  unfolding schedule_incoming
  schedule_incoming_active e = ground (arith, e, add_or_queue_targets sm.next_sync_target)

-- A tipset that arrives waits in a bucket, with no target sent; or, as the one that the bootstrap
-- has selected, is sent to the workers. Every tipset that waited still waits, and the active
-- syncs are as they were.
pub schedule_incoming_tracks :
    (h : Hashes) (sm sm' : SyncManager) (ts u : TipSet)
    → schedule_incoming h sm ts ≡ some sm'
    → Arrives h sm sm' ts
      × ((waiting h sm u ≡ false) ⊎ (waiting h sm' u ≡ true))
      × (sm'.active_syncs ≡ sm.active_syncs)
schedule_incoming_tracks h sm sm' ts u e = (
  schedule_incoming_arrives h sm sm' ts e,
  elim (Bool-cases (waiting h sm u)) [
    | inl t ↦ inr (schedule_incoming_keeps h sm sm' ts u e t)
    | inr t ↦ inl t
  ],
  schedule_incoming_active h sm sm' ts e,
)
