-- ===== src/Tcp/Hosts.antt =====
-- tcp.cpp: the table of sessions.
use libgscale.Prelude.{
  ℕ, zero, suc, ◌≡◌, inl, inr, refl, ◌∙◌, Bool, true, false, Bool-cases, Option, Option-cases, none,
  some, List, [], ◌∷◌, arith, any_of, bytes_eq, if◌then◌else◌,
}
use libgscale.Words.{Bytes}
use libgscale.Node.{nil_node}
use libgscale.Packet.{Packet, set_type, new_packet, nodeavail}
use libgscale.GroupCore.{GroupCore}
use libgscale.GroupCore.Rows.{LocalNodeRow}
use libgscale.Protocol.{Event, read_error, send_error, on_read, send_finished}
use libgscale.Protocol.Sender.{Sent, faulted, sent, send}
use libgscale.MultiIndex.{IsUnique, IsUnique-snoc, All-any_of}
use libgscale.Session.{
  Session, close, handle, handle_all, Synced, synced, threw, undefined, running, after_send,
  sync_range, sync_send, sync_round, sync_loop, sync_node_list, enqueue_sync_node_list,
  mark_enqueued, start,
}
use libgscale.Tcp.{Tcp, session_of, accepts, uuid_read_finished, has_host}

close_host : (s : Session) → (close s).remotehostuuid ≡ s.remotehostuuid
unfolding close
close_host s = ground arith

pub handle_all_host :
    (es : List Event) (s : Session) → (handle_all es s).remotehostuuid ≡ s.remotehostuuid
unfolding handle
handle_all_host [] s = refl
handle_all_host (read_error e ∷ es) s = handle_all_host es (close s) ∙ close_host s
handle_all_host (send_error p e ∷ es) s = handle_all_host es (close s) ∙ close_host s
handle_all_host (on_read p ∷ es) s = handle_all_host es s
handle_all_host (send_finished p ∷ es) s = handle_all_host es s

after_send_host :
    (s d : Session) (time : ℕ) (r : Option Sent)
    → s.remotehostuuid ≡ d.remotehostuuid
    → (session_of d (after_send s time r)).remotehostuuid ≡ d.remotehostuuid
after_send_host s d time none e = e
after_send_host s d time (some faulted) e = refl
after_send_host s d time (some (sent o events bytes)) e =
    handle_all_host events (record s { proto = o }) ∙ e

pub unless_host :
    (b : Bool) (s : Session) (r : Synced)
    → (session_of s r).remotehostuuid ≡ s.remotehostuuid
    → (session_of s (if b then synced s none else r)).remotehostuuid ≡ s.remotehostuuid
unless_host true s r e = refl
unless_host false s r e = e

module _ (archive : Packet → Bytes) where
  round_host :
      (again : Session → Synced)
      → ((s d : Session)
          → s.remotehostuuid ≡ d.remotehostuuid
          → (session_of d (again s)).remotehostuuid ≡ d.remotehostuuid)
      → (s d : Session) (rows : List LocalNodeRow) → s.remotehostuuid ≡ d.remotehostuuid
      → (session_of d (sync_round archive again s rows)).remotehostuuid ≡ d.remotehostuuid
  unfolding sync_round sync_send
  round_host again ih s d [] e = e
  round_host again ih s d (r ∷ rows) e = elim (Option-cases r.time_disconnect) [
    | inl k ↦
        let p = (set_type (new_packet r.node.inode nil_node) nodeavail).0 in
        rw k (
          after_send_host (record s { syncpacket = p }) d r.time_connect
            (send (archive p) p s.is_open s.proto) e)
    | inr (t, k) ↦ rw k (ih (record s { nodesyncctime = some r.time_connect }) d e)
  ]

  pub sync_loop_host :
      (fuel : ℕ) (c : GroupCore) (s d : Session)
      → s.remotehostuuid ≡ d.remotehostuuid
      → (session_of d (sync_loop archive fuel c s)).remotehostuuid ≡ d.remotehostuuid
  unfolding sync_loop
  sync_loop_host zero c s d e = refl
  sync_loop_host (suc fuel) c s d e =
      round_host (sync_loop archive fuel c) (sync_loop_host fuel c) s d
        (sync_range c s.nodesyncctime) e

  mark_host :
      (r : Synced) (d : Session)
      → (session_of d (mark_enqueued archive r)).remotehostuuid ≡ (session_of d r).remotehostuuid
  mark_host (synced s bytes) d = refl
  mark_host (threw s) d = refl
  mark_host undefined d = refl
  mark_host running d = refl

  pub start_host :
      (fuel : ℕ) (c : GroupCore) (s : Session)
      → (session_of s (start archive true fuel c s)).remotehostuuid ≡ s.remotehostuuid
  unfolding start enqueue_sync_node_list sync_node_list
  start_host fuel c s =
      let s' : Session = record s { is_syncnode_enqueued = false } in
      unless_host s.is_syncnode_enqueued s (mark_enqueued archive (sync_loop archive fuel c s'))
        (mark_host (sync_loop archive fuel c s') s ∙ sync_loop_host fuel c s' s refl)

-- Two sessions to one host.
abbrev pub same_host : Session → Session → Bool
same_host a b = bytes_eq a.remotehostuuid b.remotehostuuid

accepts_fresh :
    (lt : ℕ → ℕ → Bool) (error bytes : ℕ) (s : Session) (t : Tcp)
    → accepts lt error bytes s t ≡ true
    → any_of (has_host s.remotehostuuid) t.sessions ≡ false
unfolding accepts
accepts_fresh lt error bytes s t h = ground arith

-- If a back end has at most one session for each host then it has so after any completed exchange
-- of uuids, whether the session is kept, and started, or not.
pub uuid_read_finished-IsUnique :
    (lt : ℕ → ℕ → Bool) (archive : Packet → Bytes) (error bytes fuel : ℕ) (c : GroupCore)
    (s : Session) (t : Tcp)
    → IsUnique same_host t.sessions
    → IsUnique same_host (uuid_read_finished lt archive error bytes fuel c s t).0.sessions
unfolding uuid_read_finished
uuid_read_finished-IsUnique lt archive error bytes fuel c s t u =
    elim (Bool-cases (accepts lt error bytes s t)) [
      | inr e ↦ rw e u
      | inl e ↦
          let r = session_of s (start archive true fuel c s) in
          let host : r.remotehostuuid ≡ s.remotehostuuid = start_host archive fuel c s in
          let fresh : any_of (has_host r.remotehostuuid) t.sessions ≡ false =
            rw host (accepts_fresh lt error bytes s t e) in
          rw e (IsUnique-snoc same_host r t.sessions u (All-any_of same_host r t.sessions fresh))
    ]
