-- ===== src/SyncManager/Run.antt =====
-- The scheduler with its environment as a step relation: peers report heads, the scheduler takes
-- a tipset off its channel, a worker's result arrives, or a target is handed out. The senders on
-- the unbuffered channel of incoming tipsets are those of the list, in any order that Go picks.
use filecoin.Base.{
  ℕ, ◌≡◌, refl, subst, sym, List, [], ◌∷◌, ◌++◌, Bool, true, false, Option, none, some, Bool-cases,
  inl, inr, ◌⊎◌, leb, nat_eq, ◌∙◌,
}
use filecoin.Base.Lists.{In, here}
use filecoin.Base.Map.{put, values}
use filecoin.ChainTypes.BlockHeader.{Hashes}
use filecoin.ChainTypes.TipSet.{TipSet, equals, parent_weight}
use filecoin.SyncManager.Bucket.{Bucket}
use filecoin.SyncManager.State.{
  SyncManager, BsState, init, selected, set_peer_head, deliver, new_sync_manager, synced_peer_count,
  send_incoming, start_bootstrap,
}
use filecoin.SyncManager.Schedule.{
  schedule_incoming, schedule_process_result, schedule_work_sent, is_scheduled,
}
use filecoin.SyncManager.Invariant.{Inv, Safe, is_some, new_sync_manager-Inv}
use filecoin.SyncManager.Invariant.Incoming.{schedule_incoming-Safe}
use filecoin.SyncManager.Invariant.Result.{schedule_process_result-Safe}
use filecoin.SyncManager.Invariant.Sent.{schedule_work_sent-Safe}
use filecoin.SyncManager.Select.{select_sync_target_max}

-- One event, from `sm`, that leads to the result `r`: the new state, or none for a panic.
pub data Event (h : Hashes) (sm : SyncManager) : Option SyncManager → Type 0 where
  peer_head : (p : ℕ) (ts : TipSet) → Event h sm (set_peer_head h sm p ts)
  incoming :
      (before after : List TipSet) (ts : TipSet)
      → sm.incoming_tip_sets ≡ before ++ ts ∷ after
      → Event h sm (schedule_incoming h (record sm { incoming_tip_sets = before ++ after }) ts)
  result : (ts : TipSet) (success : Bool) → Event h sm (schedule_process_result h sm ts success)
  work_sent : sm.worker_chan ≡ true → Event h sm (schedule_work_sent sm)

pub data Reach (h : Hashes) : SyncManager → Type 0 where
  start : Reach h new_sync_manager
  next :
      {sm : SyncManager} {r : Option SyncManager} {sm' : SyncManager}
      → Reach h sm
      → Event h sm r
      → r ≡ some sm'
      → Reach h sm'

is_none : (o : Option Bucket) → is_some o ≡ false → o ≡ none
is_none none e = refl
is_none (some b) e = cc

-- The invariant speaks of none of the fields that a peer's head changes but the bootstrap state.
rewired :
    (sm : SyncManager) (heads : List (ℕ × TipSet)) (st : BsState) (channel : List TipSet)
    → Inv sm
    → (sm.next_sync_target ≡ none → is_scheduled st ≡ false → sm.sync_queue ≡ [])
    → Inv (record sm { peer_heads = heads; bootstrap_state = st; incoming_tip_sets = channel })
rewired sm heads st channel v a = record {
  queue_tips = v.queue_tips;
  active_tips = v.active_tips;
  next_tip = v.next_tip;
  wired = v.wired;
  awake = a;
}

module _ (h : Hashes)
    (weigh : (a b : TipSet) → equals h a b ≡ true → parent_weight a ≡ parent_weight b) where
  deliver-Safe :
      (sm : SyncManager) (st : BsState) (ts : TipSet)
      → Inv sm
      → sm.bootstrap_state ≡ st
      → In ts (values sm.peer_heads)
      → Safe (deliver h sm st ts)
  unfolding deliver send_incoming start_bootstrap
  deliver-Safe sm init ts v e i =
      let (target, f, _) = select_sync_target_max h weigh sm ts i in
      elim (Bool-cases (leb sm.bsp_thresh (synced_peer_count (values sm.peer_heads)))) [
        | inl g ↦ (
          record sm {
            bootstrap_state = selected;
            incoming_tip_sets = sm.incoming_tip_sets ++ target ∷ [];
          },
          rw g (rw f),
          rewired sm sm.peer_heads selected _ v (λ n k. v.awake n (rw e)),
        )
        | inr g ↦ (sm, rw g, v)
      ]
  deliver-Safe sm _ ts v e i = (
    record sm { incoming_tip_sets = sm.incoming_tip_sets ++ ts ∷ [] },
    refl,
    rewired sm sm.peer_heads sm.bootstrap_state _ v v.awake,
  )

  -- Whatever happens, in a state with the invariant, does not panic and keeps the invariant.
  pub Event-Safe : {sm : SyncManager} {r : Option SyncManager} → Inv sm → Event h sm r → Safe r
  unfolding set_peer_head put
  Event-Safe {sm = sm} v (peer_head p ts) =
      deliver-Safe (record sm { peer_heads = put p ts sm.peer_heads }) sm.bootstrap_state ts
        (rewired sm _ sm.bootstrap_state _ v v.awake) refl here
  Event-Safe {sm = sm} v (incoming before after ts e) =
      schedule_incoming-Safe h _ ts
        (rewired sm sm.peer_heads sm.bootstrap_state (before ++ after) v v.awake)
  Event-Safe {sm = sm} v (result ts success) = schedule_process_result-Safe h sm ts success v
  Event-Safe {sm = sm} v (work_sent e) = schedule_work_sent-Safe sm v e

  pub Reach-Inv : {sm : SyncManager} → Reach h sm → Inv sm
  Reach-Inv start = new_sync_manager-Inv
  Reach-Inv (next {sm} {r} {sm'} run e q) =
      let (s, p, v) = Event-Safe (Reach-Inv run) e in
      let same : s ≡ sm' = cc (p, q) in subst Inv same v

  -- From the start, whatever the order of peers' heads, arrivals, results and hand-outs, no event
  -- panics; and workers are offered a target whenever tipsets wait in the queue, the time of the
  -- bootstrap sync left aside. Tipsets with the same CIDs are taken to have the same weight.
  pub run_never_panics :
      (sm : SyncManager) (r : Option SyncManager)
      → Reach h sm
      → Event h sm r
      → ((sm' : SyncManager) × (r ≡ some sm'))
        × ((is_scheduled sm.bootstrap_state ≡ true)
            ⊎ (sm.worker_chan ≡ true)
            ⊎ (sm.sync_queue ≡ []))
  run_never_panics sm r run e =
      let v = Reach-Inv run in let (s, p, _) = Event-Safe v e in ((s, p), idle v)
    where
      idle :
          Inv sm
          → (is_scheduled sm.bootstrap_state ≡ true)
            ⊎ (sm.worker_chan ≡ true)
            ⊎ (sm.sync_queue ≡ [])
      idle v = elim (Bool-cases (is_scheduled sm.bootstrap_state)) [
        | inl b ↦ inl b
        | inr b ↦ elim (Bool-cases sm.worker_chan) [
          | inl w ↦ inr (inl w)
          | inr w ↦ inr (inr (v.awake (is_none sm.next_sync_target (sym v.wired ∙ w)) b))
        ]
      ]
