-- ===== src/Daemon/Session/Sizes.antt =====
-- The size that a session has after its clients change.
use mathlib.Core.Path.{Path}
use hauntty.Prelude.{
  All, ℕ, ◌≡◌, refl, sym, ap, ◌∙◌, subst, Bool, true, false, not, ◌&&◌, List, [], ◌∷◌, some, Text,
  ◌==◌, ◌<◌, ◌^◌, Bool-cases, inl, inr, arith,
}
use hauntty.Protocol.Messages.{Message}
use hauntty.Daemon.Resize.{TermSize, full_size, apply_resize_policy}
use hauntty.Daemon.Resize.Policy.{
  Within, apply_resize_policy-Within, apply_resize_policy-some, unpack_size-pack_size,
}
use hauntty.Daemon.Clients.{
  Client, Heap, update, contains, close_out, find_client, notify, notify_one, push,
  notify_clients_changed, collect_client_sizes,
}
use hauntty.Daemon.Clients.Laws.{Distinct, kept-prune_finished_clients}
use hauntty.Daemon.Session.State.{
  Loop, size, resize, resize_if_changed, arbitrate_sizes, arbitrate_resize, notify_all, pruned,
  prune_top,
}
use hauntty.Daemon.Session.Steps.{drop_client, detach, cut_off, kick, resize_client}
use hauntty.Daemon.Session.Delivery.Upkeep.{core-arbitrate_resize}
use hauntty.Daemon.Session.Others.{others, with_size, collect-removed, collect-resized}

same_size :
    (t : TermSize) (a b : ℕ)
    → (t.cols == a && t.rows == b) ≡ true
    → Path (ℕ × ℕ) (a, b) (t.cols, t.rows)
same_size t a b e =
    let c : a ≡ t.cols = ground arith in let r : b ≡ t.rows = ground arith in rw (c, r)

size-resize_if_changed :
    (t : TermSize) (s : Loop)
    → t.cols < 2 ^ 16
    → t.rows < 2 ^ 16
    → size (resize_if_changed (some t) s) ≡ (t.cols, t.rows)
unfolding resize_if_changed resize
size-resize_if_changed t s c r = elim (Bool-cases (t.cols == (size s).0 && t.rows == (size s).1)) [
  | inl e ↦ rw e (same_size t (size s).0 (size s).1 e)
  | inr e ↦ rw e (unpack_size-pack_size t.cols t.rows c r)
]

pub size-arbitrate_resize :
    (s : Loop) (c : TermSize) (rest : List TermSize) (t : TermSize)
    → collect_client_sizes s.clients s.heap ≡ c ∷ rest
    → apply_resize_policy s.resize_policy (c ∷ rest) ≡ some t
    → Within t full_size
    → size (arbitrate_resize s) ≡ (t.cols, t.rows)
unfolding arbitrate_resize arbitrate_sizes
size-arbitrate_resize s c rest t e p w =
    rw (e, arbitrate_sizes, p)
      (size-resize_if_changed t s (omega (arith, w.cols)) (omega (arith, w.rows)))

-- A notice changes no client's size.
size-notify_one :
    (msg : Message) (c : Client)
    → ((notify_one msg c).size ≡ c.size) × ((notify_one msg c).read_only ≡ c.read_only)
unfolding notify_one push
size-notify_one msg c = ground arith

size-notify :
    (cs : List ℕ) (msg : Message) (h : Heap) (r : ℕ)
    → ((notify cs msg h r).size ≡ (h r).size) × ((notify cs msg h r).read_only ≡ (h r).read_only)
unfolding notify
size-notify [] msg h r = (refl, refl)
size-notify (c ∷ cs) msg h r =
    ground
      (arith, size-notify cs msg (update h c (notify_one msg (h c))) r, size-notify_one msg (h c))

collect-same :
    (cs : List ℕ) (h k : Heap)
    → ((r : ℕ) → ((k r).size ≡ (h r).size) × ((k r).read_only ≡ (h r).read_only))
    → collect_client_sizes cs k ≡ collect_client_sizes cs h
unfolding collect_client_sizes
collect-same [] h k same = refl
collect-same (c ∷ cs) h k same = rw ((same c).0, (same c).1, collect-same cs h k same)

-- The sizes that the policy sees.
abbrev pub sizes : Loop → List TermSize
sizes s = collect_client_sizes s.clients s.heap

sizes-notify_all : (s : Loop) → sizes (notify_all s) ≡ sizes s
unfolding notify_all notify_clients_changed
sizes-notify_all s = collect-same s.clients s.heap _ (size-notify s.clients _ s.heap)

sizes-arbitrate_resize : (s : Loop) → sizes (arbitrate_resize s) ≡ sizes s
sizes-arbitrate_resize s = ap (λ v. collect_client_sizes v.clients v.heap) (core-arbitrate_resize s)

-- The session has the columns and rows that its policy gives for these sizes.
abbrev pub HasSizeOf : Text → List TermSize → Loop → Type 0
HasSizeOf policy ts s =
    (t : TermSize) × (apply_resize_policy policy ts ≡ some t)
    × Path (ℕ × ℕ) (size s) (t.cols, t.rows)

arbitrated :
    (s : Loop) (c : TermSize) (rest : List TermSize)
    → sizes (arbitrate_resize s) ≡ c ∷ rest
    → All (λ t. Within t full_size) (c ∷ rest)
    → HasSizeOf s.resize_policy (c ∷ rest) (arbitrate_resize s)
arbitrated s c rest e w =
    let target = apply_resize_policy-some s.resize_policy c rest in
    let within = apply_resize_policy-Within s.resize_policy (c ∷ rest) target.0 w target.1 in
    (
      target.0,
      target.1,
      size-arbitrate_resize s c rest target.0 (sym (sizes-arbitrate_resize s) ∙ e) target.1 within,
    )

detach-listed :
    (r : ℕ) (s : Loop) → contains r s.clients ≡ true → detach r s ≡ drop_client close_out r s
unfolding detach
detach-listed r s m = rw m

kick-found :
    (id : Text) (r : ℕ) (s : Loop)
    → find_client s.clients id s.heap ≡ some r
    → (kick id s).0 ≡ drop_client cut_off r s
unfolding kick
kick-found id r s m = rw (m, kick)

announced_size :
    (s : Loop) (c : TermSize) (rest : List TermSize)
    → All (λ t. Within t full_size) (c ∷ rest)
    → sizes (notify_all (arbitrate_resize s)) ≡ c ∷ rest
    → HasSizeOf s.resize_policy (c ∷ rest) (notify_all (arbitrate_resize s))
unfolding notify_all
announced_size s c rest w e =
    arbitrated s c rest (sym (sizes-notify_all (arbitrate_resize s)) ∙ e) w

module _ (c : TermSize) (rest : List TermSize) (w : All (λ t. Within t full_size) (c ∷ rest)) where
  drop_client-size :
      (change : Client → Client) (r : ℕ) (s : Loop)
      → Distinct s.clients
      → others r s.clients s.heap ≡ c ∷ rest
      → HasSizeOf s.resize_policy (c ∷ rest) (drop_client change r s)
  unfolding drop_client
  drop_client-size change r s d e = announced_size _ c rest w (
      sizes-notify_all _
      ∙ (sizes-arbitrate_resize _ ∙ (collect-removed r (change (s.heap r)) s.clients s.heap d ∙ e)))

  -- The clients of the list are distinct, and their sizes have 16 bits. After the detach of an attached client the session has the
  -- columns and rows that its policy gives for the sizes of the other clients that are not read-only, if
  -- there is one.
  pub detach-size :
      (r : ℕ) (s : Loop)
      → Distinct s.clients
      → contains r s.clients ≡ true
      → others r s.clients s.heap ≡ c ∷ rest
      → HasSizeOf s.resize_policy (c ∷ rest) (detach r s)
  detach-size r s d m e =
      subst (HasSizeOf s.resize_policy (c ∷ rest)) (sym (detach-listed r s m))
        (drop_client-size close_out r s d e)

  -- After a kick that finds its client the session has the columns and rows that its policy gives for
  -- the sizes of the other clients that are not read-only, if there is one.
  pub kick-size :
      (id : Text) (r : ℕ) (s : Loop)
      → Distinct s.clients
      → find_client s.clients id s.heap ≡ some r
      → others r s.clients s.heap ≡ c ∷ rest
      → HasSizeOf s.resize_policy (c ∷ rest) (kick id s).0
  kick-size id r s d m e =
      subst (HasSizeOf s.resize_policy (c ∷ rest)) (sym (kick-found id r s m))
        (drop_client-size cut_off r s d e)

  -- The sizes of the clients have 16 bits. After a client sent a new size the session has the columns and rows that its policy gives for the
  -- clients that are not read-only, that client with its new size and the others with theirs, if there
  -- is one.
  pub resize_client-size :
      (r : ℕ) (new : TermSize) (s : Loop)
      → with_size r new s.clients s.heap ≡ c ∷ rest
      → HasSizeOf s.resize_policy (c ∷ rest) (resize_client r new s)
  unfolding resize_client
  resize_client-size r new s e =
      arbitrated _ c rest (sizes-arbitrate_resize _ ∙ (collect-resized r new s.clients s.heap ∙ e))
        w

size-prune_top : (s : Loop) → size (prune_top s) ≡ size s
unfolding prune_top notify_all
size-prune_top s = elim (Bool-cases (pruned s).changed) [ inl e ↦ rw e | inr e ↦ rw e ]

prune_top-clients : (s : Loop) → (prune_top s).clients ≡ (pruned s).kept
unfolding prune_top notify_all
prune_top-clients s = elim (Bool-cases (pruned s).changed) [ inl e ↦ rw e | inr e ↦ rw e ]

detach-unlisted : (r : ℕ) (s : Loop) → contains r s.clients ≡ false → detach r s ≡ s
unfolding detach
detach-unlisted r s m = rw m

masked : (a b : Bool) → b ≡ true → (a && not b) ≡ false
masked a b e = ground arith

-- A client whose write loop has ended is off the list when the loop's turn begins; its later detach
-- then does nothing, and neither resizes: the session keeps the size that it had with the client.
pub detach-prune_top :
    (r : ℕ) (s : Loop)
    → Distinct s.clients
    → (s.heap r).write_done ≡ true
    → (contains r (prune_top s).clients ≡ false)
      × (detach r (prune_top s) ≡ prune_top s)
      × (size (detach r (prune_top s)) ≡ size s)
detach-prune_top r s d ends =
    let off : contains r (prune_top s).clients ≡ false =
      ap (contains r) (prune_top-clients s)
      ∙ (kept-prune_finished_clients r s.clients s.pending_clients s.heap d
          ∙ masked (contains r s.clients) (s.heap r).write_done ends) in
    let idle = detach-unlisted r (prune_top s) off in
    (off, idle, ap (λ v. size v) idle ∙ size-prune_top s)
