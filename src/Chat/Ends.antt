-- ===== src/Chat/Ends.antt =====
-- example/loopback/main.cpp: a conversation ends.
use libgscale.Prelude.{
  ℕ, ◌+◌, ◌≡◌, ◌⊎◌, none, refl, ◌∙◌, ap, Bool, true, false, Bool-cases, inl, inr, Option,
  Option-cases, some, List, [], ◌∷◌, ◌++◌, arith, ltb, length, length-append, keep_if,
  if◌then◌else◌,
}
use libgscale.Words.{Bytes}
use libgscale.Core.{Uuid}
use libgscale.Node.{INode}
use libgscale.Packet.{Packet, new_packet, set_payload, get_sender, get_receiver}
use libgscale.GroupCore
use libgscale.GroupCore.{GroupCore, enabled_backends}
use libgscale.Group
use libgscale.Group.{Group}
use libgscale.Chat.{
  Callbacks, Find, Event, read, available, unavailable, key, reply, handle_communication, on_event,
  and_then, talk,
}

abbrev says : Bytes × Bytes → Bool
says m = ltb 0 (length m.1)

-- The messages that are not empty.
abbrev pub words : Callbacks → ℕ
words c = length (keep_if says c.node2message)

-- What a `find` gives is one of the elements, with the others before and behind it.
abbrev pub IsLawful : Find → Type 0
IsLawful find =
    (k : Bytes) (t before after : List (Bytes × Bytes)) (m : Bytes)
    → find k t ≡ some (before, m, after)
    → t ≡ before ++ (k, m) ∷ after

-- Packets that were written and messages that are left.
abbrev pub total : Group × Callbacks → ℕ
total (g, c) = length g.gcore.sendqueue + words c

-- A step that returns, in a group without an enabled back end, and keeps the sum.
abbrev Kept : Group × Callbacks → Option (Group × Callbacks) → Type 0
Kept s r =
    (h : Group) × (d : Callbacks) × (r ≡ some (h, d))
    × (enabled_backends h.gcore ≡ [])
    × (total (h, d) ≡ total s)

length-keep_if :
    (before after : List (Bytes × Bytes)) (e : Bytes × Bytes)
    → length (keep_if says (before ++ e ∷ after))
      ≡ (if says e then 1 else 0) + length (keep_if says (before ++ after))
unfolding keep_if
length-keep_if [] after e = ground arith
length-keep_if (m ∷ before) after e = ground (arith, length-keep_if before after e)

write_idle :
    (packet : Packet) (g : Group)
    → enabled_backends g.gcore ≡ []
    → (h : Group) × (Group.write packet g ≡ some h)
      × (enabled_backends h.gcore ≡ [])
      × (length h.gcore.sendqueue ≡ length g.gcore.sendqueue + 1)
unfolding Group.write GroupCore.write enabled_backends
write_idle packet g idle = (
  record g {
    gcore = record g.gcore {
      sendqueue = g.gcore.sendqueue ++ record { packet = packet; backendref = [] } ∷ [];
    };
  },
  ground arith,
  idle,
  length-append g.gcore.sendqueue _,
)

drop_empty :
    (g : Group) (c : Callbacks) (before after : List (Bytes × Bytes)) (e : Bytes × Bytes)
    → says e ≡ false
    → c.node2message ≡ before ++ e ∷ after
    → total (g, record { node2message = before ++ after }) ≡ total (g, c)
drop_empty g c before after e l split =
    let all : length (keep_if says c.node2message) ≡ length (keep_if says (before ++ after)) =
      ap (λ t. length (keep_if says t)) split ∙ ground (arith, length-keep_if before after e) in
    omega arith

drop_word :
    (g h : Group) (c : Callbacks) (before after : List (Bytes × Bytes)) (e : Bytes × Bytes)
    → says e ≡ true
    → c.node2message ≡ before ++ e ∷ after
    → length h.gcore.sendqueue ≡ length g.gcore.sendqueue + 1
    → total (h, record { node2message = before ++ after }) ≡ total (g, c)
drop_word g h c before after e l split more =
    let all : length (keep_if says c.node2message) ≡ 1 + length (keep_if says (before ++ after)) =
      ap (λ t. length (keep_if says t)) split ∙ ground (arith, length-keep_if before after e) in
    omega arith

module _ (text : Uuid → Bytes) (find : Find) (lawful : IsLawful find) where
  communication-Kept :
      (src dst : INode) (g : Group) (c : Callbacks)
      → enabled_backends g.gcore ≡ []
      → Kept (g, c) (handle_communication text find src dst (g, c))
  unfolding handle_communication reply
  communication-Kept src dst g c idle =
      elim (Option-cases (find (key text find src dst) c.node2message)) [
        | inl e ↦ (g, c, rw (reply, e) refl, idle, refl)
        | inr ((before, m, after), e) ↦
            let split = lawful (key text find src dst) c.node2message before after m e in
            elim (Bool-cases (ltb 0 (length m))) [
              | inl l ↦
                  let (h, wrote, still, more) =
                    write_idle (set_payload (new_packet dst src) m).0 g idle in
                  (
                    h,
                    record { node2message = before ++ after },
                    rw (reply, e, l, wrote) refl,
                    still,
                    drop_word g h c before after (key text find src dst, m) l split more,
                  )
              | inr l ↦ (
                g,
                record { node2message = before ++ after },
                rw (reply, e, l) refl,
                idle,
                drop_empty g c before after (key text find src dst, m) l split,
              )
            ]
      ]

  event-Kept :
      (e : Event) (g : Group) (c : Callbacks)
      → enabled_backends g.gcore ≡ []
      → Kept (g, c) (on_event text find e (g, c))
  unfolding on_event
  event-Kept (read packet) g c idle =
      communication-Kept (get_sender packet) (get_receiver packet) g c idle
  event-Kept (available src dst) g c idle = communication-Kept src dst g c idle
  event-Kept (unavailable src dst) g c idle = communication-Kept src dst g c idle

  talk-Kept :
      (es : List Event) (g : Group) (c : Callbacks)
      → enabled_backends g.gcore ≡ []
      → Kept (g, c) (talk text find es (g, c))
  unfolding talk
  talk-Kept [] g c idle = (g, c, refl, idle, refl)
  talk-Kept (e ∷ es) g c idle =
      let (h, d, done, still, same) = event-Kept e g c idle in
      let (h', d', done', still', same') = talk-Kept es h d still in
      (h', d', ap (and_then text find (talk text find es)) done ∙ done', still', same' ∙ same)

  -- Where no back end is enabled and `find` gives one of the elements with the key, then whatever
  -- happens to the nodes, the callbacks return, and the
  -- packets that were written and the messages that are left and not empty are together as many as
  -- before: each message is written at most once and the conversation ends.
  talk-words :
      (es : List Event) (g : Group) (c : Callbacks)
      → enabled_backends g.gcore ≡ []
      → (h : Group) × (d : Callbacks) × (talk text find es (g, c) ≡ some (h, d))
        × (length h.gcore.sendqueue + words d ≡ length g.gcore.sendqueue + words c)
  talk-words es g c idle =
      let (h, d, done, still, same) = talk-Kept es g c idle in (h, d, done, same)

  -- A step in a group with an enabled back end: undefined, or nothing is written and no message
  -- that is not empty is lost.
  abbrev IsSilent : Group → Callbacks → Option (Group × Callbacks) → Type 0
  IsSilent g c r = (r ≡ none) ⊎ ((d : Callbacks) × (r ≡ some (g, d)) × (words d ≡ words c))
