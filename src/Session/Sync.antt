-- ===== src/Session/Sync.antt =====
-- session.cpp, syncNodeList: which node is announced next, and how often.
use libgscale.Prelude.{
  ℕ, zero, suc, ◌<◌, ◌≡◌, refl, sym, ◌∙◌, Bool, true, false, Bool-cases, inl, inr, Option,
  Option-cases, none, some, List, [], ◌∷◌, arith, length, if◌then◌else◌, keep_if,
}
use libgscale.Words.{Bytes}
use libgscale.Packet.{Packet}
use libgscale.GroupCore.{GroupCore}
use libgscale.GroupCore.Rows.{LocalNodeRow}
use libgscale.GroupCore.Nodes.{range_by_created, in_range, by_time}
use libgscale.Session.{
  Session, Synced, synced, running, sync_range, skip_last, sync_send, sync_round, sync_loop,
  sync_node_list, enqueue_sync_node_list, mark_enqueued,
}

-- One pass over the nodes in the order of their connect times: those not later than the last
-- synced time are passed over, those that have left move that time on, and the pass stops at the
-- first other one.
abbrev pub next_node : Option ℕ → List LocalNodeRow → Option ℕ × Option LocalNodeRow
next_node t [] = (t, none)
next_node t (r ∷ rs) =
    let skipped = next_node t rs in
    let left = next_node (some r.time_connect) rs in
    if in_range t none r
    then elim r.time_disconnect [ none ↦ (t, some r) | some x ↦ left ]
    else skipped

skip_none :
    (t : ℕ) (l : List LocalNodeRow)
    → skip_last t (keep_if (in_range (some t) none) l) ≡ keep_if (in_range (some t) none) l
unfolding keep_if
skip_none t [] = refl
skip_none t (r ∷ l) = ground (arith, skip_none t l)

sync_range_lem :
    (c : GroupCore) (t : Option ℕ) → sync_range c t ≡ keep_if (in_range t none) (by_time c)
unfolding sync_range range_by_created
sync_range_lem c none = refl
sync_range_lem c (some t) = skip_none t (by_time c)

abbrev HeadHas : (LocalNodeRow → Bool) → List LocalNodeRow → Type 0
HeadHas q [] = Unit
HeadHas q (r ∷ rs) = q r ≡ true

keep_if-HeadHas : (q : LocalNodeRow → Bool) (l : List LocalNodeRow) → HeadHas q (keep_if q l)
unfolding keep_if
keep_if-HeadHas q [] = tt
keep_if-HeadHas q (r ∷ l) = elim (Bool-cases (q r)) [
  | inl e ↦ rw e e
  | inr e ↦ rw e (keep_if-HeadHas q l)
]

-- A node that is not later than one time is not later than a later one.
later_stays :
    (t : Option ℕ) (p r : LocalNodeRow)
    → in_range t none p ≡ false
    → in_range t none r ≡ true
    → in_range (some r.time_connect) none p ≡ false
later_stays none p r h k = absurd cc
later_stays (some t) p r h k = ground arith

module _ (archive : Packet → Bytes) where
  -- The loop over any list of nodes.
  abbrev loop_over : ℕ → List LocalNodeRow → Session → Synced
  loop_over zero l s = running
  loop_over (suc fuel) l s =
      sync_round archive (loop_over fuel l) s (keep_if (in_range s.nodesyncctime none) l)

  sync_loop_lem :
      (fuel : ℕ) (c : GroupCore) (s : Session)
      → sync_loop archive fuel c s ≡ loop_over fuel (by_time c) s
  unfolding sync_loop
  sync_loop_lem zero c s = refl
  sync_loop_lem (suc fuel) c s = rw (sync_range_lem c s.nodesyncctime) (λ i.
      sync_round archive (λ s'. sync_loop_lem fuel c s' i) s
        (keep_if (in_range s.nodesyncctime none) (by_time c)))

  round_same :
      (f g : Session → Synced) (p : LocalNodeRow) (s : Session) (rows : List LocalNodeRow)
      → in_range s.nodesyncctime none p ≡ false
      → HeadHas (in_range s.nodesyncctime none) rows
      → ((u : ℕ)
          → in_range (some u) none p ≡ false
          → f (record s { nodesyncctime = some u }) ≡ g (record s { nodesyncctime = some u }))
      → sync_round archive f s rows ≡ sync_round archive g s rows
  unfolding sync_round
  round_same f g p s [] h k same = refl
  round_same f g p s (r ∷ rs) h k same = elim (Option-cases r.time_disconnect) [
    | inl e ↦ rw e refl
    | inr (t, e) ↦ rw e (same r.time_connect (later_stays s.nodesyncctime p r h k))
  ]

  -- A node that is not later than the last synced time never counts.
  pass_over :
      (fuel : ℕ) (p : LocalNodeRow) (l : List LocalNodeRow) (s : Session)
      → in_range s.nodesyncctime none p ≡ false
      → loop_over fuel (p ∷ l) s ≡ loop_over fuel l s
  unfolding keep_if
  pass_over zero p l s h = refl
  pass_over (suc fuel) p l s h = rw h (
      round_same (loop_over fuel (p ∷ l)) (loop_over fuel l) p s
        (keep_if (in_range s.nodesyncctime none) l) h
        (keep_if-HeadHas (in_range s.nodesyncctime none) l)
        (λ u k. pass_over fuel p l (record s { nodesyncctime = some u }) k))

  -- What the loop does with what the pass found.
  abbrev pub announce : Session → Option ℕ × Option LocalNodeRow → Synced
  announce s (t, none) = synced (record s { nodesyncctime = t }) none
  announce s (t, some r) = sync_send archive r (record s { nodesyncctime = t })

  loop_over_lem :
      (l : List LocalNodeRow) (fuel : ℕ) (s : Session)
      → length l < fuel
      → loop_over fuel l s ≡ announce s (next_node s.nodesyncctime l)
  unfolding keep_if sync_round
  loop_over_lem [] zero s h = absurd (omega arith)
  loop_over_lem [] (suc fuel) s h = refl
  loop_over_lem (p ∷ l) zero s h = absurd (omega arith)
  loop_over_lem (p ∷ l) (suc fuel) s h = elim (Bool-cases (in_range s.nodesyncctime none p)) [
    | inl e ↦ elim (Option-cases p.time_disconnect) [
      | inl k ↦ rw (e, k) refl
      | inr (t, k) ↦
          let s' : Session = record s { nodesyncctime = some p.time_connect } in
          rw (e, k) (pass_over fuel p l s' (ground arith) ∙ loop_over_lem l fuel s' (omega arith))
    ]
    | inr e ↦ pass_over (suc fuel) p l s e ∙ loop_over_lem l (suc fuel) s (omega arith) ∙ rw e refl
  ]

  -- With fuel for one round more than there are nodes, a sync announces the node that one pass over
  -- the nodes in the order of their connect times finds behind the last synced time, or moves that
  -- time on and announces nothing. Before that it takes back the mark that a sync is due.
  pub sync_node_list-next_node :
      (fuel : ℕ) (c : GroupCore) (s : Session)
      → length (by_time c) < fuel
      → sync_node_list archive fuel c s
        ≡ announce
            (record s { is_syncnode_enqueued = false })
            (next_node s.nodesyncctime (by_time c))
  unfolding sync_node_list
  sync_node_list-next_node fuel c s h =
      sync_loop_lem fuel c (record s { is_syncnode_enqueued = false })
      ∙ loop_over_lem (by_time c) fuel (record s { is_syncnode_enqueued = false }) h

  marked_true :
      (r : Synced) (s : Session) (bytes : Option Bytes)
      → mark_enqueued archive r ≡ synced s bytes
      → s.is_syncnode_enqueued ≡ true
  marked_true (synced t b) s bytes h = ground arith
  marked_true r s bytes h = absurd cc

  pub enqueue_marked :
      (inside : Bool) (fuel : ℕ) (c : GroupCore) (s : Session)
      → s.is_syncnode_enqueued ≡ true
      → enqueue_sync_node_list archive inside fuel c s ≡ synced s none
  unfolding enqueue_sync_node_list
  enqueue_marked inside fuel c s h = rw h refl

  enqueue_inside :
      (fuel : ℕ) (c : GroupCore) (s : Session)
      → s.is_syncnode_enqueued ≡ false
      → enqueue_sync_node_list archive true fuel c s
        ≡ mark_enqueued archive (sync_node_list archive fuel c s)
  unfolding enqueue_sync_node_list
  enqueue_inside fuel c s h = rw h refl

  pub marked_after :
      (fuel : ℕ) (c : GroupCore) (s s' : Session) (bytes : Option Bytes)
      → enqueue_sync_node_list archive true fuel c s ≡ synced s' bytes
      → s'.is_syncnode_enqueued ≡ true
  marked_after fuel c s s' bytes h = elim (Bool-cases s.is_syncnode_enqueued) [
    | inl e ↦ let same = sym (enqueue_marked true fuel c s e) ∙ h in ground (arith, same)
    | inr e ↦
        marked_true (sync_node_list archive fuel c s) s' bytes (sym (enqueue_inside fuel c s e) ∙ h)
  ]
