-- ===== src/Daemon/Session/Others.antt =====
-- The sizes that the policy is to see after a client has left, or has another size.
use hauntty.Prelude.{
  ℕ, ◌≡◌, refl, sym, ap, ◌∙◌, false, if◌then◌else◌, List, [], ◌∷◌, ◌==◌, Bool-cases, inl, inr,
  arith,
}
use hauntty.Daemon.Resize.{TermSize}
use hauntty.Daemon.Clients.{Client, Heap, update, contains, remove_client, collect_client_sizes}
use hauntty.Daemon.Clients.Laws.{Distinct}

-- The sizes of the clients but one that are not read-only, and those with the new size of one.
unfoldable pub others : ℕ → List ℕ → Heap → List TermSize
others r [] h = []
others r (c ∷ cs) h =
    let rest = others r cs h in
    if c == r then rest else if (h c).read_only then rest else (h c).size ∷ rest

unfoldable pub with_size : ℕ → TermSize → List ℕ → Heap → List TermSize
with_size r new [] h = []
with_size r new (c ∷ cs) h =
    let rest = with_size r new cs h in
    if (h c).read_only then rest else (if c == r then new else (h c).size) ∷ rest

others-absent :
    (r : ℕ) (k : Client) (cs : List ℕ) (h : Heap)
    → contains r cs ≡ false
    → collect_client_sizes cs (update h r k) ≡ others r cs h
unfolding collect_client_sizes others contains
others-absent r k [] h a = refl
others-absent r k (c ∷ cs) h a = ground (arith, others-absent r k cs h)

pub collect-removed :
    (r : ℕ) (k : Client) (cs : List ℕ) (h : Heap)
    → Distinct cs
    → collect_client_sizes (remove_client cs r) (update h r k) ≡ others r cs h
unfolding collect_client_sizes others remove_client
collect-removed r k [] h d = refl
collect-removed r k (c ∷ cs) h d = elim (Bool-cases (c == r)) [
  | inl e ↦
      let same : c ≡ r = ground arith in
      rw e (others-absent r k cs h (ap (λ x. contains x cs) (sym same) ∙ d.0))
  | inr e ↦ rw (e, collect_client_sizes, e, collect-removed r k cs h d.1)
]

pub collect-resized :
    (r : ℕ) (new : TermSize) (cs : List ℕ) (h : Heap)
    → collect_client_sizes cs (update h r (record (h r) { size = new })) ≡ with_size r new cs h
unfolding collect_client_sizes with_size
collect-resized r new [] h = refl
collect-resized r new (c ∷ cs) h = elim (Bool-cases (c == r)) [
  | inl e ↦ let same : c ≡ r = ground arith in rw (e, same, collect-resized r new cs h)
  | inr e ↦ rw (e, collect-resized r new cs h)
]
