-- ===== src/Daemon/Gather/Whole.antt =====
-- No byte is lost or moved by the gathering.
use hauntty.Prelude.{
  ℕ, zero, suc, ◌-◌, ◌≡◌, refl, sym, ap, ◌∙◌, false, List, [], ◌∷◌, ◌++◌, ltb, ◌==◌, length, take,
  drop, take-append-drop, append-nil, append_assoc, Bool-cases, inl, inr,
}
use hauntty.Daemon.Gather.{
  Bytes, Phase, waiting, gathering, returned, Gather, Input, read, reads_closed, timer, done, send,
  start, begin, append_read, step_from, gather_step, gather_run, idle, pty_batch_size,
  pty_batch_threshold,
}

abbrev pub joined : List Bytes → Bytes
joined [] = []
joined (b ∷ bs) = b ++ joined bs

joined-append : (xs ys : List Bytes) → joined (xs ++ ys) ≡ joined xs ++ joined ys
joined-append [] ys = refl
joined-append (x ∷ xs) ys = rw (joined-append xs ys) (sym (append_assoc x (joined xs) (joined ys)))

joined-snoc : (xs : List Bytes) (x : Bytes) → joined (xs ++ x ∷ []) ≡ joined xs ++ x
joined-snoc xs x = rw (joined-append xs (x ∷ []), append-nil x)

-- The batch under way.
abbrev pub held : Phase → Bytes
held (gathering batch) = batch
held _ = []

-- What was sent and what is held.
abbrev pub through : Gather → Bytes
through g = joined g.sent ++ held g.phase

through-send : (b : Bytes) (g : Gather) → through (send b g) ≡ joined g.sent ++ b
through-send b g = append-nil (joined (g.sent ++ b ∷ [])) ∙ joined-snoc g.sent b

through-start :
    (fuel : ℕ) (first : Bytes) (g : Gather) → through (start fuel first g) ≡ joined g.sent ++ first
unfolding start
through-start zero first g = through-send first g
through-start (suc fuel) first g = elim (Bool-cases (ltb (length first) pty_batch_threshold)) [
  | inl e ↦ rw e (through-send first g)
  | inr e ↦ elim (Bool-cases (ltb pty_batch_size (length first))) [
    | inl f ↦
        rw (e, f)
          (through-start fuel (drop pty_batch_size first) (send (take pty_batch_size first) g)
            ∙ (ap (λ b. b ++ drop pty_batch_size first)
                  (joined-snoc g.sent (take pty_batch_size first))
                ∙ (append_assoc (joined g.sent) (take pty_batch_size first)
                      (drop pty_batch_size first)
                    ∙ ap (λ b. joined g.sent ++ b) (take-append-drop pty_batch_size first))))
    | inr f ↦ elim (Bool-cases (length first == pty_batch_size)) [
      | inl k ↦ rw (e, f, k) (through-send first g)
      | inr k ↦ rw (e, f, k)
    ]
  ]
]

through-append_read :
    (batch next : Bytes) (g : Gather)
    → through (append_read batch next g) ≡ joined g.sent ++ (batch ++ next)
unfolding append_read begin
through-append_read batch next g =
    let remaining = pty_batch_size - length batch in
    elim (Bool-cases (ltb remaining (length next))) [
      | inl e ↦ rw e (
          through-start (length (drop remaining next)) (drop remaining next)
            (send (batch ++ take remaining next) g)
          ∙ (ap (λ b. b ++ drop remaining next) (joined-snoc g.sent (batch ++ take remaining next))
              ∙ (append_assoc (joined g.sent) (batch ++ take remaining next) (drop remaining next)
                  ∙ ap (λ b. joined g.sent ++ b)
                      (append_assoc batch (take remaining next) (drop remaining next)
                        ∙ ap (λ b. batch ++ b) (take-append-drop remaining next)))))
      | inr e ↦ elim (Bool-cases (length (batch ++ next) == pty_batch_size)) [
        | inl k ↦ rw (e, k) (through-send (batch ++ next) g)
        | inr k ↦ rw (e, k)
      ]
    ]

-- The gathering leaves `taken` and `cut` alone.
abbrev Same : Gather → Gather → Type 0
Same g h = (h.cut ≡ g.cut) × (h.taken ≡ g.taken)

start-Same : (fuel : ℕ) (first : Bytes) (g : Gather) → Same g (start fuel first g)
unfolding start
start-Same zero first g = (refl, refl)
start-Same (suc fuel) first g = elim (Bool-cases (ltb (length first) pty_batch_threshold)) [
  | inl e ↦ rw e (refl, refl)
  | inr e ↦ elim (Bool-cases (ltb pty_batch_size (length first))) [
    | inl f ↦
        rw (e, f) (start-Same fuel (drop pty_batch_size first) (send (take pty_batch_size first) g))
    | inr f ↦ elim (Bool-cases (length first == pty_batch_size)) [
      | inl k ↦ rw (e, f, k) (refl, refl)
      | inr k ↦ rw (e, f, k) (refl, refl)
    ]
  ]
]

append_read-Same : (batch next : Bytes) (g : Gather) → Same g (append_read batch next g)
unfolding append_read begin
append_read-Same batch next g =
    let remaining = pty_batch_size - length batch in
    elim (Bool-cases (ltb remaining (length next))) [
      | inl e ↦ rw e (
          start-Same (length (drop remaining next)) (drop remaining next)
            (send (batch ++ take remaining next) g))
      | inr e ↦ elim (Bool-cases (length (batch ++ next) == pty_batch_size)) [
        | inl k ↦ rw (e, k) (refl, refl)
        | inr k ↦ rw (e, k) (refl, refl)
      ]
    ]

-- Unless `done` cut it short, what went through is what was read.
abbrev pub IsWhole : Gather → Type 0
IsWhole g = g.cut ≡ false → through g ≡ joined g.taken

-- A read goes behind what there was.
reading-IsWhole :
    (b d : Bytes) (g h : Gather)
    → Same (record g { taken = g.taken ++ d ∷ [] }) h
    → through h ≡ joined g.sent ++ (b ++ d)
    → (g.cut ≡ false → joined g.sent ++ b ≡ joined g.taken)
    → IsWhole h
reading-IsWhole b d g h same e v uncut =
    e
    ∙ (sym (append_assoc (joined g.sent) b d)
        ∙ (ap (λ x. x ++ d) (v (sym same.0 ∙ uncut))
            ∙ (sym (joined-snoc g.taken d) ∙ ap joined (sym same.1))))

step_from-IsWhole :
    (p : Phase) (i : Input) (g : Gather) → g.phase ≡ p → IsWhole g → IsWhole (step_from p i g)
unfolding step_from begin
step_from-IsWhole waiting (read d) g e v =
    let at : Gather = record g { taken = g.taken ++ d ∷ [] } in
    reading-IsWhole [] d g (start (length d) d at) (start-Same (length d) d at)
      (through-start (length d) d at) (λ uncut. ap (λ q. joined g.sent ++ held q) (sym e) ∙ v uncut)
step_from-IsWhole waiting reads_closed g e v =
    λ uncut. ap (λ q. joined g.sent ++ held q) (sym e) ∙ v uncut
step_from-IsWhole waiting timer g e v = v
step_from-IsWhole waiting done g e v = λ uncut. cc
step_from-IsWhole (gathering batch) (read d) g e v =
    let at : Gather = record g { taken = g.taken ++ d ∷ [] } in
    reading-IsWhole batch d g (append_read batch d at) (append_read-Same batch d at)
      (through-append_read batch d at)
      (λ uncut. ap (λ q. joined g.sent ++ held q) (sym e) ∙ v uncut)
step_from-IsWhole (gathering batch) reads_closed g e v =
    λ uncut. through-send batch g ∙ (ap (λ q. joined g.sent ++ held q) (sym e) ∙ v uncut)
step_from-IsWhole (gathering batch) timer g e v =
    λ uncut. through-send batch g ∙ (ap (λ q. joined g.sent ++ held q) (sym e) ∙ v uncut)
step_from-IsWhole (gathering batch) done g e v = λ uncut. cc
step_from-IsWhole returned i g e v = v

run-IsWhole : (is : List Input) (g : Gather) → IsWhole g → IsWhole (gather_run is g)
unfolding gather_run gather_step
run-IsWhole [] g v = v
run-IsWhole (i ∷ is) g v =
    run-IsWhole is (step_from g.phase i g) (step_from-IsWhole g.phase i g refl v)

-- In every run that `done` does not cut short, the batches sent, joined, and behind them the batch under
-- way are the reads taken, joined: the order of the bytes stays, and none is lost or doubled.
pub gather_run-IsWhole :
    (is : List Input)
    → (gather_run is idle).cut ≡ false
    → joined (gather_run is idle).sent ++ held (gather_run is idle).phase
      ≡ joined (gather_run is idle).taken
gather_run-IsWhole is uncut = run-IsWhole is idle (λ _. refl) uncut
