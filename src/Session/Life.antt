-- ===== src/Session/Life.antt =====
-- session.cpp over protocol.hpp: what a session sends in its life.
use libgscale.Prelude.{
  ℕ, zero, suc, ◌<◌, ◌≡◌, refl, ◌⊎◌, inl, inr, Bool, false, Bool-cases, Option, Option-cases, none,
  some, List, [], ◌∷◌, ◌++◌, arith, length,
}
use libgscale.Words.{Bytes, u32_mod}
use libgscale.Node.{nil_node}
use libgscale.Packet.{Packet, new_packet, set_type, nodeavail}
use libgscale.GroupCore.{GroupCore}
use libgscale.GroupCore.Rows.{LocalNodeRow}
use libgscale.Protocol.{free, payload, Event, read_error, send_error, on_read, send_finished}
use libgscale.Protocol.Sender.{Out, Sent, faulted, sent, send, on_send}
use libgscale.Protocol.Opening.{UnderWay, Opened, send-Opened}
use libgscale.Session.{
  Session, close, handle, handle_all, Synced, synced, threw, undefined, running, after_send,
  sync_range, sync_send, sync_round, sync_loop, sync_node_list, mark_enqueued,
  enqueue_sync_node_list,
}

-- The packet and the bytes of a write that is under way.
abbrev pub Writing : Type 0
Writing = Option (Packet × Bytes)

abbrev pub frames : Option Bytes → List Bytes
frames none = []
frames (some b) = b ∷ []

abbrev pub begin_write : Packet → Option Bytes → Writing → Writing
begin_write p none w = w
begin_write p (some b) w = some (p, b)

-- What a session and its socket go through: calls of enqueueSyncNodeList and runs of syncNodeList
-- that return or throw, the end of a write, and what the receiver reports. The list has the
-- frames that were given to async_write, which calls onSend with an error or with all its bytes.
pub data Life (archive : Packet → Bytes) : Session → Writing → List Bytes → Type 0 where
  begun : (s : Session) → s.proto.outstate ≡ free → s.proto.buffsize ≡ 8192 → Life archive s none []
  enqueued :
      {s : Session} {w : Writing} {fs : List Bytes} (inside : Bool) (fuel : ℕ) (c : GroupCore)
      (s' : Session) (bytes : Option Bytes)
      → Life archive s w fs
      → enqueue_sync_node_list archive inside fuel c s ≡ synced s' bytes
      → Life archive s' (begin_write s'.syncpacket bytes w) (fs ++ frames bytes)
  enqueue_threw :
      {s : Session} {w : Writing} {fs : List Bytes} (inside : Bool) (fuel : ℕ) (c : GroupCore)
      (s' : Session)
      → Life archive s w fs
      → enqueue_sync_node_list archive inside fuel c s ≡ threw s'
      → Life archive s' w fs
  ran :
      {s : Session} {w : Writing} {fs : List Bytes} (fuel : ℕ) (c : GroupCore) (s' : Session)
      (bytes : Option Bytes)
      → Life archive s w fs
      → sync_node_list archive fuel c s ≡ synced s' bytes
      → Life archive s' (begin_write s'.syncpacket bytes w) (fs ++ frames bytes)
  run_threw :
      {s : Session} {w : Writing} {fs : List Bytes} (fuel : ℕ) (c : GroupCore) (s' : Session)
      → Life archive s w fs
      → sync_node_list archive fuel c s ≡ threw s'
      → Life archive s' w fs
  written :
      {s : Session} {fs : List Bytes} (p : Packet) (b : Bytes) (error bytes : ℕ) (o : Out)
      (events : List Event) (out : Option Bytes)
      → Life archive s (some (p, b)) fs
      → (error ≡ 0 → bytes ≡ length b)
      → on_send (archive p) p error bytes s.is_open s.proto ≡ sent o events out
      → Life archive
          (handle_all events (record s { proto = o }))
          (begin_write p out none)
          (fs ++ frames out)
  handled :
      {s : Session} {w : Writing} {fs : List Bytes} (e : Event)
      → Life archive s w fs
      → Life archive (handle e s) w fs

pub handle_all_kept :
    (es : List Event) (s : Session)
    → ((handle_all es s).proto ≡ s.proto) × ((handle_all es s).syncpacket ≡ s.syncpacket)
unfolding handle close
handle_all_kept [] s = (refl, refl)
handle_all_kept (read_error e ∷ es) s = ground (arith, handle_all_kept es (close s))
handle_all_kept (send_error p e ∷ es) s = ground (arith, handle_all_kept es (close s))
handle_all_kept (on_read p ∷ es) s = handle_all_kept es s
handle_all_kept (send_finished p ∷ es) s = handle_all_kept es s

-- What a sync leaves of a sender `o`: all of it, or, if it was free, what a first send leaves.
abbrev pub After : Out → Synced → Type 0
After o (synced s none) =
    (s.proto ≡ o)
    ⊎ ((s.proto.buffsize ≡ o.buffsize)
        × (o.outstate ≡ free)
        × ((s.proto.outstate ≡ free) ⊎ (s.proto.outstate ≡ payload)))
After o (synced s (some b)) =
    (s.proto.buffsize ≡ o.buffsize)
    × (o.outstate ≡ free)
    × (s.proto.outstate ≡ payload)
    × UnderWay s.proto b
    × (s.syncpacket.payload ≡ [])
After o (threw s) = s.proto ≡ o
After o undefined = Unit {0}
After o running = Unit {0}

-- A sender that is free, or was left behind its first frame.
abbrev pub IsLive : Out → Type 0
IsLive o = (o.buffsize < u32_mod) × ((o.outstate ≡ free) ⊎ (o.outstate ≡ payload))

after_send-After :
    (s : Session) (time : ℕ) (r : Option Sent)
    → s.syncpacket.payload ≡ []
    → s.proto.outstate ≡ free
    → Opened s.proto.buffsize r
    → After s.proto (after_send s time r)
after_send-After s time none e f h = absurd h
after_send-After s time (some faulted) e f h = tt
after_send-After s time (some (sent o events none)) e f h =
    let same = (handle_all_kept events (record s { proto = o })).0 in
    inr (rw same h.0, f, rw same h.1)
after_send-After s time (some (sent o events (some b))) e f h =
    let (same, packet) = handle_all_kept events (record s { proto = o }) in
    (rw same h.0, f, rw same h.1, rw same h.2, rw packet e)

module _ (archive : Packet → Bytes) where
  -- The packet that announces a node.
  abbrev pub announcement : LocalNodeRow → Packet
  announcement r = (set_type (new_packet r.node.inode nil_node) nodeavail).0

  pub sync_send_busy :
      (r : LocalNodeRow) (s : Session)
      → s.proto.outstate ≡ payload
      → sync_send archive r s ≡ threw (record s { syncpacket = announcement r })
  unfolding sync_send send
  sync_send_busy r s e = rw e refl

  sync_send-After :
      (r : LocalNodeRow) (s : Session) → IsLive s.proto → After s.proto (sync_send archive r s)
  unfolding sync_send set_type new_packet
  sync_send-After r s (small, inl e) =
      let p = announcement r in
      after_send-After (record s { syncpacket = p }) r.time_connect
        (send (archive p) p s.is_open s.proto) refl e
        (send-Opened (archive p) p s.is_open refl s.proto e small)
  sync_send-After r s (small, inr e) = rw (sync_send_busy r s e) refl

  sync_round-After :
      (again : Session → Synced)
      → ((s : Session) → IsLive s.proto → After s.proto (again s))
      → (s : Session) (rows : List LocalNodeRow) → IsLive s.proto
      → After s.proto (sync_round archive again s rows)
  unfolding sync_round
  sync_round-After again ih s [] live = inl refl
  sync_round-After again ih s (r ∷ rows) live = elim (Option-cases r.time_disconnect) [
    | inl k ↦ rw k (sync_send-After r s live)
    | inr (t, k) ↦ rw k (ih (record s { nodesyncctime = some r.time_connect }) live)
  ]

  sync_loop-After :
      (fuel : ℕ) (c : GroupCore) (s : Session)
      → IsLive s.proto
      → After s.proto (sync_loop archive fuel c s)
  unfolding sync_loop
  sync_loop-After zero c s live = tt
  sync_loop-After (suc fuel) c s live =
      sync_round-After (sync_loop archive fuel c) (sync_loop-After fuel c) s
        (sync_range c s.nodesyncctime) live

  mark-After : (o : Out) (r : Synced) → After o r → After o (mark_enqueued archive r)
  mark-After o (synced s none) h = h
  mark-After o (synced s (some b)) h = h
  mark-After o (threw s) h = h
  mark-After o undefined h = h
  mark-After o running h = h

  pub sync_node_list-After :
      (fuel : ℕ) (c : GroupCore) (s : Session)
      → IsLive s.proto
      → After s.proto (sync_node_list archive fuel c s)
  unfolding sync_node_list
  sync_node_list-After fuel c s live =
      sync_loop-After fuel c (record s { is_syncnode_enqueued = false }) live

  pub enqueue-After :
      (inside : Bool) (fuel : ℕ) (c : GroupCore) (s : Session)
      → IsLive s.proto
      → After s.proto (enqueue_sync_node_list archive inside fuel c s)
  unfolding enqueue_sync_node_list sync_node_list
  enqueue-After inside fuel c s live = elim (Bool-cases s.is_syncnode_enqueued) [
    | inl e ↦ rw e (inl refl)
    | inr e ↦ elim (Bool-cases inside) [
      | inl k ↦
          rw (e, k)
            (mark-After s.proto (sync_node_list archive fuel c s)
              (sync_node_list-After fuel c s live))
      | inr k ↦ rw (e, k) (inl refl)
    ]
  ]
