-- ===== src/GroupCore/Order.antt =====
-- groupcore.cpp: in which order the back ends are told of what happens to a group.
use mathlib.Core.List.{append-nil, append_assoc}
use libgscale.Prelude.{
  ℕ, ◌≡◌, refl, sym, ◌∙◌, ap, Bool, Bool-cases, inl, inr, some, List, [], ◌∷◌, ◌++◌, map, arith,
  length, replicate, keep_if, ◌==◌, All,
}
use libgscale.Words.{Bytes}
use libgscale.Packet.{Packet}
use libgscale.GroupCore.{
  GroupCore, Task, worker, node_available, node_unavailable, ok, attach_backend, detach_backend,
  enabled_backends, post_each, connect, disconnect, write, ready, run_worker,
}
use libgscale.GroupCore.Nodes.{increase_ref, decrease_ref}
use libgscale.GroupCore.Rows.{BackendRow}
use libgscale.GroupCore.News.{
  News, works, arrives, leaves, to_one, news_of, told, Serves, Happens, attached, detached,
  connected, disconnected, written, increased, decreased, served, Steps, here, next, History, start,
  step, work,
}

told-append : (b : ℕ) (s t : List Task) → told b (s ++ t) ≡ told b s ++ told b t
told-append b [] t = refl
told-append b (x ∷ s) t =
    ap (λ u. news_of b x ++ u) (told-append b s t)
    ∙ sym (append_assoc (news_of b x) (told b s) (told b t))

-- One row of a list has the object `b` as often as the posted calls tell it.
told-map :
    (b : ℕ) (task : ℕ → Task) (n : News) (rows : List BackendRow)
    → ((x : ℕ) → news_of b (task x) ≡ to_one b x n)
    → told b (map (λ (r : BackendRow). task r.backend) rows)
      ≡ replicate (length (keep_if (λ (r : BackendRow). r.backend == b) rows)) n
unfolding keep_if
told-map b task n [] h = refl
told-map b task n (r ∷ rows) h = elim (Bool-cases (r.backend == b)) [
  | inl e ↦ rw (h r.backend, e, told-map b task n rows h) refl
  | inr e ↦ rw (h r.backend, e, told-map b task n rows h) refl
]

-- Posting to each enabled back end tells one that is served once.
told-post_each :
    (b : ℕ) (task : ℕ → Task) (n : News) (c : GroupCore)
    → ((x : ℕ) → news_of b (task x) ≡ to_one b x n)
    → Serves c b
    → told b (post_each task c).queue ≡ told b c.queue ++ n ∷ []
unfolding post_each
told-post_each b task n c h one =
    told-append b c.queue (map (λ (r : BackendRow). task r.backend) (enabled_backends c))
    ∙ ap (λ u. told b c.queue ++ u)
        (told-map b task n (enabled_backends c) h ∙ ap (λ k. replicate k n) one)

attach_backend-queue :
    (initialize : ℕ → Bool) (errno : ℕ) (type : Bytes) (backend : ℕ) (c d : GroupCore)
    → attach_backend initialize errno type backend c ≡ ok d
    → d.queue ≡ c.queue
unfolding attach_backend
attach_backend-queue initialize errno type backend c d e = ground arith

write-queue : (packet : Packet) (c d : GroupCore) → write packet c ≡ some d → d.queue ≡ c.queue
unfolding write
write-queue packet c d e = ground arith

-- One step: what is taken and what is queued behind it tell the news that were queued, and then
-- what happened.
Happens-told :
    (b : ℕ) {c d : GroupCore} {more : List Task} {latest : List News}
    → Serves c b
    → Happens c d more latest
    → told b (more ++ d.queue) ≡ told b c.queue ++ latest
unfolding connect disconnect detach_backend increase_ref decrease_ref enabled_backends post_each
Happens-told b {c} one (attached initialize errno type backend d e) =
    rw (attach_backend-queue initialize errno type backend c d e)
      (sym (append-nil (told b c.queue)))
Happens-told b {c} one (detached type) = sym (append-nil (told b c.queue))
Happens-told b {c} one (connected named random core service now alias cbs) =
    let (d, node) = connect named random core service now alias cbs c in
    told-post_each b (λ x. node_available x node) (arrives node)
      (record c { connectcount = d.connectcount; localnodes = d.localnodes }) (λ x. refl) one
Happens-told b {c} one (disconnected now node) =
    told-post_each b (λ x. node_unavailable x node) (leaves node)
      (record c { localnodes = (disconnect now node c).localnodes }) (λ x. refl) one
Happens-told b {c} one (written packet d e) =
    rw (write-queue packet c d e) (sym (append-nil (told b c.queue)))
Happens-told b {c} one (increased id) = sym (append-nil (told b c.queue))
Happens-told b {c} one (decreased id) = sym (append-nil (told b c.queue))
Happens-told b {c} one (served t queue stopped e) = rw e (sym (append-nil (told b (t ∷ queue))))

chain :
    (b : ℕ) (taken more q q' : List Task) (base news latest : List News)
    → told b (taken ++ q) ≡ base ++ news
    → told b (more ++ q') ≡ told b q ++ latest
    → told b ((taken ++ more) ++ q') ≡ base ++ (news ++ latest)
chain b taken more q q' base news latest before now =
    ap (told b) (append_assoc taken more q')
    ∙ told-append b taken (more ++ q')
    ∙ ap (λ u. told b taken ++ u) now
    ∙ sym (append_assoc (told b taken) (told b q) latest)
    ∙ ap (λ u. u ++ latest) (sym (told-append b taken q) ∙ before)
    ∙ append_assoc base news latest

module _ (bs : List ℕ) (b : ℕ) (pick : (d : GroupCore) → All (Serves d) bs → Serves d b) where
  Steps-told :
      {c d : GroupCore} {taken : List Task} {news : List News}
      → Steps bs c d taken news
      → told b (taken ++ d.queue) ≡ told b c.queue ++ news
  Steps-told {c} here = sym (append-nil (told b c.queue))
  Steps-told {c} (next {d} {e} {taken} {more} {news} {latest} s all h) =
      chain b taken more d.queue e.queue (told b c.queue) news latest (Steps-told s)
        (Happens-told b (pick d all) h)

  work-told :
      (d : GroupCore) {e : GroupCore} {more : List Task} {latest : List News}
      → All (Serves d) bs
      → Steps bs (ready d) e more latest
      → told b (more ++ e.queue) ≡ told b d.queue ++ (works ∷ latest)
  unfolding ready
  work-told d {e} {more} {latest} all s =
      Steps-told s
      ∙ ap (λ u. u ++ latest) (told-post_each b worker works d (λ x. refl) (pick d all))
      ∙ append_assoc (told b d.queue) (works ∷ []) latest

  History-told :
      {c d : GroupCore} {taken : List Task} {news : List News}
      → History bs c d taken news
      → told b (taken ++ d.queue) ≡ told b c.queue ++ news
  unfolding run_worker
  History-told {c} start = sym (append-nil (told b c.queue))
  History-told {c} (step {d} {e} {taken} {more} {news} {latest} s all h) =
      chain b taken more d.queue e.queue (told b c.queue) news latest (History-told s)
        (Happens-told b (pick d all) h)
  History-told {c} (work {d} {taken} {more} {news} {latest} run timeout s all inner) =
      chain b taken more d.queue (run timeout (ready d)).queue (told b c.queue) news
        (works ∷ latest) (History-told s) (work-told d all inner)
      ∙ ap (λ u. told b c.queue ++ u) (sym (append_assoc news (works ∷ []) latest))

each_of :
    (P : ℕ → Type 0) (bs cs : List ℕ)
    → ((d : GroupCore) → All (Serves d) bs → All (Serves d) cs)
    → ((b : ℕ) → ((d : GroupCore) → All (Serves d) bs → Serves d b) → P b)
    → All P cs
each_of P bs [] pick f = tt
each_of P bs (b ∷ cs) pick f =
    (f b (λ d all. (pick d all).0), each_of P bs cs (λ d all. (pick d all).1) f)

-- Over any history of calls that return, of handlers taken off the front of the queue and of rounds
-- of runWorker, from a group with nothing queued, in which some back ends are each enabled once in
-- every state: what was taken and then what is still queued tells every one of these back ends the
-- same, namely each connect, each disconnect and each round of runWorker, in the order in
-- which they happened.
pub History-told_alike :
    (bs : List ℕ) {c d : GroupCore} {taken : List Task} {news : List News}
    → c.queue ≡ []
    → History bs c d taken news
    → All (λ b. told b (taken ++ d.queue) ≡ news) bs
History-told_alike bs {c} {d} {taken} {news} idle h =
    each_of (λ b. told b (taken ++ d.queue) ≡ news) bs bs (λ e all. all)
      (λ b pick. History-told bs b pick h ∙ ap (λ q. told b q ++ news) idle)
