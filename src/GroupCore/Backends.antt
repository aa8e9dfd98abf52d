-- ===== src/GroupCore/Backends.antt =====
-- groupcore.cpp: attaching, detaching and writing to back ends.
use libgscale.Prelude.{
  ℕ, ◌≡◌, ◌≢◌, refl, Bool, true, false, Option, some, none, List, [], ◌∷◌, ◌++◌, arith, any_of,
  keep_if, bytes_eq_refl,
}
use libgscale.Words.{Bytes}
use libgscale.Packet.{Packet}
use libgscale.MultiIndex.{insert, update_first, erase}
use libgscale.GroupCore.{
  GroupCore, ok, err, already_attached, attach_backend, detach_backend, ready, run_worker, write,
  enabled_backends, has_type, is_disabled,
}
use libgscale.GroupCore.Rows.{BackendRow, new_backend_row, enable, disable, backend_clash}

-- A type that no row has can be inserted.
insert_new :
    (r : BackendRow) (t : List BackendRow)
    → any_of (has_type r.type) t ≡ false
    → insert backend_clash r t ≡ t ++ r ∷ []
unfolding insert
insert_new r t h = ground arith

any_of-update_first :
    (type : Bytes) (t : List BackendRow)
    → any_of (has_type type) (update_first (has_type type) disable t) ≡ any_of (has_type type) t
unfolding any_of update_first disable
any_of-update_first type [] = refl
any_of-update_first type (r ∷ t) = ground (arith, any_of-update_first type t)

any_of-snoc :
    (type : Bytes) (r : BackendRow) (t : List BackendRow)
    → has_type type r ≡ true
    → any_of (has_type type) (t ++ r ∷ []) ≡ true
unfolding any_of
any_of-snoc type r [] h = ground arith
any_of-snoc type r (s ∷ t) h = ground (arith, any_of-snoc type r t h)

-- Detaching the only row of a type and erasing what is disabled leaves no row of that type.
any_of-erase_detached :
    (type : Bytes) (r : BackendRow) (t : List BackendRow)
    → has_type type r ≡ true
    → any_of (has_type type) t ≡ false
    → any_of
        (has_type type)
        (erase is_disabled (update_first (has_type type) disable (t ++ r ∷ [])))
      ≡ false
unfolding any_of update_first erase keep_if disable
any_of-erase_detached type r [] h k = ground arith
any_of-erase_detached type r (s ∷ t) h k = ground (arith, any_of-erase_detached type r t h)

module _ (initialize : ℕ → Bool) (errno : ℕ) (type : Bytes) (b : ℕ) (c d : GroupCore)
    (attached : attach_backend initialize errno type b c ≡ ok d) where
  fresh : any_of (has_type type) c.backends ≡ false
  unfolding attach_backend
  fresh = ground arith

  rows_after : d.backends ≡ c.backends ++ enable (new_backend_row b type) ∷ []
  unfolding attach_backend new_backend_row enable
  rows_after = ground (arith, fresh, insert_new (enable (new_backend_row b type)) c.backends)

  taken : any_of (has_type type) d.backends ≡ true
  unfolding enable new_backend_row
  taken =
      rw rows_after
        (any_of-snoc type (enable (new_backend_row b type)) c.backends (bytes_eq_refl type))

  free_again :
      (run : Option ℕ → GroupCore → GroupCore) (timeout : Option ℕ)
      → (run timeout (ready (detach_backend type d))).backends ≡ (detach_backend type d).backends
      → any_of (has_type type) (run_worker run timeout (detach_backend type d)).backends ≡ false
  unfolding run_worker detach_backend enable new_backend_row
  free_again run timeout same =
      rw (same, rows_after)
        (any_of-erase_detached type (enable (new_backend_row b type)) c.backends
          (bytes_eq_refl type) fresh)

  -- While a back end is attached its type is taken: attaching any back end of that type throws.
  -- That stays so after it was detached, until a round of runWorker whose `run` leaves the rows
  -- alone; then a back end of that type whose initialisation returns can be attached again.
  pub attach_backend-detach_backend :
      (initialize' : ℕ → Bool) (errno' b' : ℕ) (run : Option ℕ → GroupCore → GroupCore)
      (timeout : Option ℕ)
      → (run timeout (ready (detach_backend type d))).backends ≡ (detach_backend type d).backends
      → initialize' b' ≡ true
      → (attach_backend initialize' errno' type b' d ≡ err already_attached)
        × (attach_backend initialize' errno' type b' (detach_backend type d) ≡ err already_attached)
        × ((e : GroupCore) × (attach_backend initialize' errno' type b'
                (run_worker run timeout (detach_backend type d))
              ≡ ok e))
  unfolding attach_backend detach_backend
  attach_backend-detach_backend initialize' errno' b' run timeout same fine = (
    rw taken,
    rw (any_of-update_first type d.backends, taken),
    (
      record (run_worker run timeout (detach_backend type d)) {
        backends =
            insert backend_clash (enable (new_backend_row b' type))
              (run_worker run timeout (detach_backend type d)).backends;
      },
      rw (free_again run timeout same, fine),
    ),
  )

keep_if-snoc :
    (t : List BackendRow) (r : BackendRow)
    → r.enabled ≡ true
    → keep_if (λ s. s.enabled) (t ++ r ∷ []) ≢ []
unfolding keep_if
keep_if-snoc [] r h = ground arith
keep_if-snoc (s ∷ t) r h = ground (arith, keep_if-snoc t r h)

-- Detaching the only row of a type leaves no enabled row where the others are disabled.
none_enabled :
    (type : Bytes) (r : BackendRow) (t : List BackendRow)
    → has_type type r ≡ true
    → any_of (has_type type) t ≡ false
    → keep_if (λ s. s.enabled) t ≡ []
    → keep_if (λ s. s.enabled) (update_first (has_type type) disable (t ++ r ∷ [])) ≡ []
unfolding any_of update_first keep_if disable
none_enabled type r [] h k e = ground arith
none_enabled type r (s ∷ t) h k e = ground (arith, none_enabled type r t h)

write_idle :
    (packet : Packet) (c : GroupCore)
    → enabled_backends c ≡ []
    → (e : GroupCore) × (write packet c ≡ some e)
unfolding write
write_idle packet c idle = (
  record c { sendqueue = c.sendqueue ++ record { packet = packet; backendref = [] } ∷ [] },
  ground (arith, idle),
)

write_enabled :
    (initialize : ℕ → Bool) (errno : ℕ) (type : Bytes) (b : ℕ) (c d : GroupCore) (packet : Packet)
    → attach_backend initialize errno type b c ≡ ok d
    → write packet d ≡ none
unfolding write enabled_backends enable new_backend_row
write_enabled initialize errno type b c d packet attached = ground (
  arith,
  rows_after initialize errno type b c d attached,
  keep_if-snoc c.backends (enable (new_backend_row b type)) refl,
)

detached_idle :
    (initialize : ℕ → Bool) (errno : ℕ) (type : Bytes) (b : ℕ) (c d : GroupCore)
    → enabled_backends c ≡ []
    → attach_backend initialize errno type b c ≡ ok d
    → enabled_backends (detach_backend type d) ≡ []
unfolding enabled_backends detach_backend enable new_backend_row
detached_idle initialize errno type b c d idle attached =
    rw (rows_after initialize errno type b c d attached) (
      none_enabled type (enable (new_backend_row b type)) c.backends (bytes_eq_refl type)
        (fresh initialize errno type b c d attached) idle)

keep_if-erase :
    (t : List BackendRow)
    → keep_if (λ s. s.enabled) t ≡ []
    → keep_if (λ s. s.enabled) (erase is_disabled t) ≡ []
unfolding keep_if erase
keep_if-erase [] e = refl
keep_if-erase (r ∷ t) e = ground (arith, keep_if-erase t)

worked_idle :
    (run : Option ℕ → GroupCore → GroupCore) (timeout : Option ℕ) (c : GroupCore)
    → (run timeout (ready c)).backends ≡ c.backends
    → enabled_backends c ≡ []
    → enabled_backends (run_worker run timeout c) ≡ []
unfolding enabled_backends run_worker
worked_idle run timeout c same idle = rw same (keep_if-erase c.backends idle)

-- For a group without an enabled back end to which one is attached: a write is defined before; it is
-- undefined as long as the back end is attached, as the loop over the enabled back ends reads the
-- packet behind the end of the queue; and from the detaching on, also after a round of runWorker whose
-- `run` leaves the rows alone, it is defined again.
pub write_attached :
    (initialize : ℕ → Bool) (errno : ℕ) (type : Bytes) (b : ℕ) (c d : GroupCore) (packet : Packet)
    (run : Option ℕ → GroupCore → GroupCore) (timeout : Option ℕ)
    → enabled_backends c ≡ []
    → attach_backend initialize errno type b c ≡ ok d
    → (run timeout (ready (detach_backend type d))).backends ≡ (detach_backend type d).backends
    → ((e : GroupCore) × (write packet c ≡ some e))
      × (write packet d ≡ none)
      × ((e : GroupCore) × (write packet (detach_backend type d) ≡ some e))
      × ((e : GroupCore) × (write packet (run_worker run timeout (detach_backend type d)) ≡ some e))
write_attached initialize errno type b c d packet run timeout idle attached same =
    let off = detached_idle initialize errno type b c d idle attached in
    (
      write_idle packet c idle,
      write_enabled initialize errno type b c d packet attached,
      write_idle packet (detach_backend type d) off,
      write_idle packet (run_worker run timeout (detach_backend type d))
          (worked_idle run timeout (detach_backend type d) same off),
    )
