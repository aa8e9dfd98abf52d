-- ===== src/Session/Marked.antt =====
-- session.cpp, enqueueSyncNodeList: a mark that no sync takes back.
use libgscale.Prelude.{
  ℕ, ◌≡◌, refl, sym, ◌∙◌, ap, subst, Bool, true, false, Option, none, some, List, [], ◌∷◌, ◌++◌,
  arith, any_of,
}
use libgscale.Words.{Bytes}
use libgscale.Packet.{Packet}
use libgscale.GroupCore.{GroupCore}
use libgscale.Protocol.{Event, read_error, send_error, on_read, send_finished}
use libgscale.Protocol.Sender.{Out}
use libgscale.Session.{
  Session, Handler, closed, sync_nodes, closing, close, handle, handle_all, synced, sync_node_list,
  enqueue_sync_node_list,
}
use libgscale.Session.Sync.{marked_after, enqueue_marked}

abbrev pub is_sync : Handler → Bool
is_sync (closed f) = false
is_sync sync_nodes = true

-- Whether a sync waits on the service.
abbrev pub waits : Session → Bool
waits s = any_of is_sync s.dispatched

-- What a session goes through: calls of enqueueSyncNodeList that return, the handlers that it gave its
-- service, in their order, the ends of writes, and what the protocol reports.
pub data Later (archive : Packet → Bytes) (s : Session) : Session → Type 0 where
  now : Later archive s s
  enqueued :
      {t : Session} (inside : Bool) (fuel : ℕ) (c : GroupCore) (u : Session) (bytes : Option Bytes)
      → Later archive s t
      → enqueue_sync_node_list archive inside fuel c t ≡ synced u bytes
      → Later archive s u
  ran :
      {t : Session} (rest : List Handler) (fuel : ℕ) (c : GroupCore) (u : Session)
      (bytes : Option Bytes)
      → Later archive s t
      → t.dispatched ≡ sync_nodes ∷ rest
      → sync_node_list archive fuel c (record t { dispatched = rest }) ≡ synced u bytes
      → Later archive s u
  called :
      {t : Session} (f : ℕ) (rest : List Handler)
      → Later archive s t
      → t.dispatched ≡ closed f ∷ rest
      → Later archive s (record t { dispatched = rest })
  written :
      {t : Session} (o : Out) (events : List Event)
      → Later archive s t
      → Later archive s (handle_all events (record t { proto = o }))
  handled : {t : Session} (e : Event) → Later archive s t → Later archive s (handle e t)

-- Marked, with no sync that would take the mark back.
record IsStuck (s : Session) : Type 0 where
  marked : s.is_syncnode_enqueued ≡ true
  idle : waits s ≡ false

any_of-closing :
    (hs : List Handler) (f : Option ℕ)
    → any_of is_sync hs ≡ false
    → any_of is_sync (hs ++ closing f) ≡ false
unfolding any_of
any_of-closing [] none h = refl
any_of-closing [] (some f) h = refl
any_of-closing (closed g ∷ hs) f h = any_of-closing hs f h
any_of-closing (sync_nodes ∷ hs) f h = absurd cc

close-IsStuck : (s : Session) → IsStuck s → IsStuck (close s)
unfolding close
close-IsStuck s h = record {
  marked = ground (arith, h.marked);
  idle = ground (arith, h.idle, any_of-closing s.dispatched s.onclose h.idle);
}

handle-IsStuck : (e : Event) (s : Session) → IsStuck s → IsStuck (handle e s)
unfolding handle
handle-IsStuck (read_error e) s h = close-IsStuck s h
handle-IsStuck (send_error p e) s h = close-IsStuck s h
handle-IsStuck (on_read p) s h = h
handle-IsStuck (send_finished p) s h = h

handle_all-IsStuck : (es : List Event) (s : Session) → IsStuck s → IsStuck (handle_all es s)
handle_all-IsStuck [] s h = h
handle_all-IsStuck (e ∷ es) s h = handle_all-IsStuck es (handle e s) (handle-IsStuck e s h)

Later-IsStuck :
    {archive : Packet → Bytes} {s t : Session} → IsStuck s → Later archive s t → IsStuck t
unfolding any_of
Later-IsStuck h now = h
Later-IsStuck {archive} h (enqueued {t} inside fuel c u bytes l e) =
    let v = Later-IsStuck h l in
    let still = sym (enqueue_marked archive inside fuel c t v.marked) ∙ e in
    let same : t ≡ u = cc in subst IsStuck same v
Later-IsStuck h (ran rest fuel c u bytes l w e) =
    let v = Later-IsStuck h l in
    let clash : true ≡ false = sym (ap (any_of is_sync) w) ∙ v.idle in absurd cc
Later-IsStuck h (called {t} f rest l w) =
    let v = Later-IsStuck h l in
    record { marked = v.marked; idle = sym (ap (any_of is_sync) w) ∙ v.idle }
Later-IsStuck h (written {t} o events l) =
    let v = Later-IsStuck h l in
    handle_all-IsStuck events (record t { proto = o }) (record { marked = v.marked; idle = v.idle })
Later-IsStuck h (handled {t} e l) = handle-IsStuck e t (Later-IsStuck h l)

-- A session that was enqueued from inside a handler of the service, as `start` is, and has no other sync
-- that waits, never syncs again: whatever calls of enqueueSyncNodeList, handlers of its service, ends
-- of writes and reports of its protocol follow, no sync waits, it stays marked, and a call of
-- enqueueSyncNodeList, from inside or outside and for any state of the group, does nothing.
pub enqueue_sync_node_list_once :
    (archive : Packet → Bytes) (fuel : ℕ) (c : GroupCore) (s s' : Session) (bytes : Option Bytes)
    → enqueue_sync_node_list archive true fuel c s ≡ synced s' bytes
    → waits s' ≡ false
    → {t : Session} → Later archive s' t
    → (waits t ≡ false)
      × (t.is_syncnode_enqueued ≡ true)
      × ((inside : Bool) (fuel' : ℕ) (d : GroupCore)
          → enqueue_sync_node_list archive inside fuel' d t ≡ synced t none)
enqueue_sync_node_list_once archive fuel c s s' bytes e quiet {t} l =
    let h : IsStuck s' = record {
      marked = marked_after archive fuel c s s' bytes e;
      idle = quiet;
    } in
    let v = Later-IsStuck h l in
    (v.idle, v.marked, λ inside fuel' d. enqueue_marked archive inside fuel' d t v.marked)
