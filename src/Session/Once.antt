-- ===== src/Session/Once.antt =====
-- session.cpp over protocol.hpp: a session announces one node at most, and the other end does not hear
-- of it.
use libgscale.Prelude.{
  ℕ, zero, suc, ◌≤◌, ◌≡◌, ◌≢◌, refl, ◌∙◌, subst, ◌⊎◌, inl, inr, Option, none, some, List, [], ◌∷◌,
  ◌++◌, arith, length, All,
}
use mathlib.Core.List.{append-nil}
use libgscale.Words.{Bytes}
use libgscale.Packet.{Packet}
use libgscale.GroupCore.Rows.{LocalNodeRow}
use libgscale.Protocol.{free, payload, Event}
use libgscale.Protocol.Sender.{Out, sent, faulted, on_send}
use libgscale.Protocol.Receiver.{In, done, read_loop, process_read_buffer, fill}
use libgscale.Protocol.Opening.{UnderWay, on_send_bare, on_send_bare_faults}
use libgscale.Protocol.Parsing.{first_read_lost}
use libgscale.Session.{Session, handle, synced, threw, sync_send}
use libgscale.Session.Life.{
  Writing, frames, begin_write, Life, begun, enqueued, enqueue_threw, ran, run_threw, written,
  handled, handle_all_kept, After, IsLive, announcement, sync_send_busy, sync_node_list-After,
  enqueue-After,
}

module _ (archive : Packet → Bytes) where
  -- What holds in a life: the sender is free and nothing was written, or it is left behind its first
  -- frame, with at most the write of that frame under way.
  abbrev Pending : Out → Writing → Type 0
  Pending o none = Unit {0}
  Pending o (some (p, b)) = (p.payload ≡ []) × UnderWay o b

  abbrev IsOnce : Out → Writing → List Bytes → Type 0
  IsOnce o w fs =
      (o.buffsize ≡ 8192)
      × (((o.outstate ≡ free) × (w ≡ none) × (fs ≡ []))
          ⊎ ((o.outstate ≡ payload) × (length fs ≤ 1) × Pending o w))

  IsOnce-IsLive : (o : Out) (w : Writing) (fs : List Bytes) → IsOnce o w fs → IsLive o
  IsOnce-IsLive o w fs (size, inl (e, idle, z)) = (omega arith, inl e)
  IsOnce-IsLive o w fs (size, inr (e, few, way)) = (omega arith, inr e)

  -- A sync that returns.
  After-sync :
      (o : Out) (w : Writing) (fs : List Bytes) (s : Session) (bytes : Option Bytes)
      → IsOnce o w fs
      → After o (synced s bytes)
      → IsOnce s.proto (begin_write s.syncpacket bytes w) (fs ++ frames bytes)
  After-sync o w fs s none h (inl same) = rw (same, append-nil fs) h
  After-sync o w fs s none (size, inl (e, idle, z)) (inr (b, f, inl g)) =
      (b ∙ size, inl (g, idle, rw z refl))
  After-sync o w fs s none (size, inl (e, idle, z)) (inr (b, f, inr g)) =
      (b ∙ size, inr (g, rw z (omega arith), rw idle tt))
  After-sync o w fs s none (size, inr (e, few, way)) (inr (b, f, g)) = absurd (ground arith)
  After-sync o w fs s (some x) (size, inl (e, idle, z)) (b, f, g, way, empty) =
      (b ∙ size, inr (g, rw z (omega arith), (empty, way)))
  After-sync o w fs s (some x) (size, inr (e, few, way)) (b, f, g, more, empty) =
      absurd (ground arith)

  handle_proto : (e : Event) (s : Session) → (handle e s).proto ≡ s.proto
  handle_proto e s = (handle_all_kept (e ∷ []) s).0

  after_write :
      (s : Session) (fs : List Bytes) (p : Packet) (b : Bytes) (error bytes : ℕ) (o : Out)
      (events : List Event) (out : Option Bytes)
      → IsOnce s.proto (some (p, b)) fs
      → (error ≡ 0 → bytes ≡ length b)
      → on_send (archive p) p error bytes s.is_open s.proto ≡ sent o events out
      → IsOnce o (begin_write p out none) (fs ++ frames out)
  after_write s fs p b error bytes o events out (size, inl (e, idle, z)) whole r = absurd cc
  after_write s fs p b error bytes o events out (size, inr (e, few, (empty, way))) whole r =
      elim (on_send_bare (archive p) p s.is_open empty s.proto error bytes b e way whole
        (omega arith) (omega arith)) [
          | inl k ↦
              let same : o ≡ s.proto = cc in
              let quiet : out ≡ none = cc in
              rw (same, quiet, append-nil fs) (size, inr (e, few, tt))
          | inr k ↦ absurd cc
        ]

  Life-IsOnce :
      {s : Session} {w : Writing} {fs : List Bytes} → Life archive s w fs → IsOnce s.proto w fs
  Life-IsOnce (begun s e size) = (size, inl (e, refl, refl))
  Life-IsOnce (enqueued {s} {w} {fs} inside fuel c s' bytes l r) =
      let h = Life-IsOnce l in
      After-sync s.proto w fs s' bytes h (
        subst (After s.proto) r
          (enqueue-After archive inside fuel c s (IsOnce-IsLive s.proto w fs h)))
  Life-IsOnce (enqueue_threw {s} {w} {fs} inside fuel c s' l r) =
      let h = Life-IsOnce l in
      let same : s'.proto ≡ s.proto =
        subst (After s.proto) r
          (enqueue-After archive inside fuel c s (IsOnce-IsLive s.proto w fs h)) in
      rw same h
  Life-IsOnce (ran {s} {w} {fs} fuel c s' bytes l r) =
      let h = Life-IsOnce l in
      After-sync s.proto w fs s' bytes h (
        subst (After s.proto) r
          (sync_node_list-After archive fuel c s (IsOnce-IsLive s.proto w fs h)))
  Life-IsOnce (run_threw {s} {w} {fs} fuel c s' l r) =
      let h = Life-IsOnce l in
      let same : s'.proto ≡ s.proto =
        subst (After s.proto) r
          (sync_node_list-After archive fuel c s (IsOnce-IsLive s.proto w fs h)) in
      rw same h
  Life-IsOnce (written {s} {fs} p b error bytes o events out l whole r) =
      rw (handle_all_kept events (record s { proto = o })).0
        (after_write s fs p b error bytes o events out (Life-IsOnce l) whole r)
  Life-IsOnce (handled {s} {w} {fs} e l) = rw (handle_proto e s) (Life-IsOnce l)

  announces_once :
      (s : Session) (w : Writing) (fs : List Bytes)
      → IsOnce s.proto w fs
      → (length fs ≤ 1)
        × (fs ≢ []
            → (r : LocalNodeRow)
            → sync_send archive r s ≡ threw (record s { syncpacket = announcement archive r }))
  announces_once s w fs (size, inl (e, idle, z)) =
      (rw z (omega arith), λ some_sent r. absurd (some_sent z))
  announces_once s w fs (size, inr (e, few, way)) =
      (few, λ some_sent r. sync_send_busy archive r s e)

  -- A receiver as its constructor leaves it drops the bytes of its first read.
  unheard :
      (load : Packet → Bytes → Option Packet) (fuel : ℕ) (i : In) (f : Bytes) (n : ℕ)
      → i.instate ≡ free
      → (j : In) × (process_read_buffer load (suc (suc fuel)) (fill f i) n ≡ done j 0 [])
  unfolding process_read_buffer read_loop fill
  unheard load fuel i f zero e = (_, refl)
  unheard load fuel i f (suc n) e = (_, first_read_lost load fuel (fill f i) n e)

  each_unheard :
      (load : Packet → Bytes → Option Packet) (fuel : ℕ) (i : In) (fs : List Bytes)
      → i.instate ≡ free
      → All
          (λ f.
            (j : In) × (process_read_buffer load (suc (suc fuel)) (fill f i) (length f)
              ≡ done j 0 []))
          fs
  each_unheard load fuel i [] e = tt
  each_unheard load fuel i (f ∷ fs) e =
      (unheard load fuel i f (length f) e, each_unheard load fuel i fs e)

  -- The end without an error of the write that is under way.
  write_faults :
      (s : Session) (w : Writing) (fs : List Bytes)
      → IsOnce s.proto w fs
      → (p : Packet) (b : Bytes) → w ≡ some (p, b)
      → on_send (archive p) p 0 (length b) s.is_open s.proto ≡ faulted
  write_faults s none fs h p b e = absurd cc
  write_faults s (some (q, x)) fs (size, inl (e, idle, z)) p b g = absurd cc
  write_faults s (some (q, x)) fs (size, inr (e, few, (empty, way))) p b g =
      let packet : q ≡ p = cc in
      let bytes : x ≡ b = cc in
      let none_left : p.payload ≡ [] = subst (λ (y : Packet). y.payload ≡ []) packet empty in
      let under : UnderWay s.proto b = subst (UnderWay s.proto) bytes way in
      on_send_bare_faults (archive p) p s.is_open none_left s.proto b e under (omega arith)
        (omega arith)

  -- For a session whose sender starts free, with the buffers that its constructor means it to have,
  -- and as long as nothing undefined happens: whatever syncs, ends of writes and reports of its
  -- receiver it goes through, it gives its socket at most one frame, so it announces at most one
  -- node. The end without an error of that write is undefined: the next buffer would be filled from
  -- behind the payload. Once it gave one, the announcement of any node throws. Where the frame comes
  -- to the other end in one read, the receiver there, which starts in the free state, gives nothing
  -- of it to its subscriber.
  pub Life-announces_once :
      {s : Session} {w : Writing} {fs : List Bytes}
      → Life archive s w fs
      → (load : Packet → Bytes → Option Packet) (fuel : ℕ) (i : In) → i.instate ≡ free
      → (length fs ≤ 1)
        × ((p : Packet) (b : Bytes)
            → w ≡ some (p, b)
            → on_send (archive p) p 0 (length b) s.is_open s.proto ≡ faulted)
        × (fs ≢ []
            → (r : LocalNodeRow)
            → sync_send archive r s ≡ threw (record s { syncpacket = announcement archive r }))
        × All
            (λ f.
              (j : In) × (process_read_buffer load (suc (suc fuel)) (fill f i) (length f)
                ≡ done j 0 []))
            fs
  Life-announces_once {s} {w} {fs} l load fuel i e =
      let h = Life-IsOnce l in
      let (few, busy) = announces_once s w fs h in
      (few, write_faults s w fs h, busy, each_unheard load fuel i fs e)
