-- ===== src/Daemon/Requests/Counts.antt =====
-- The counts of a status are those of the list.
use hauntty.Prelude.{
  Result-cases, ℕ, suc, ◌≡◌, refl, sym, ap, ap₂, ◌∙◌, subst, ◌+◌, ◌%◌, ◌^◌, ◌<◌, Bool, Bool-cases,
  inl, inr, List, [], ◌∷◌, ◌++◌, map, Option, none, some, Text, text_eq, codes, if◌then◌else◌,
  length, Result, ok, err, arith,
}
use mathlib.Core.Path.{Path}
use hauntty.Protocol.Messages.{Message, ListRequest, Status, StatusResponse, Session}
use hauntty.Daemon.Persist.{SessionState}
use hauntty.Daemon.Server.{Server, ServerError, read_dead_session}
use hauntty.Daemon.Requests.Saved.{Present, AllPresent, IfListed, listed-AllPresent}
use hauntty.Daemon.Requests.{Host}
use hauntty.Daemon.Requests.Inspect.{
  live_row, dead_row, list_dead_names, add_row, dead_rows, rows_of, dead_session_rows, handle_list,
  count_sessions, session_status, status_reply, handle_status,
}

-- The rows of a list in a state, by its text.
unfoldable pub rows_in : Text → List Session → ℕ
rows_in state [] = 0
rows_in state (row ∷ rows) =
    let rest = rows_in state rows in if text_eq row.state state then suc rest else rest

rows_in-append :
    (state : Text) (xs ys : List Session)
    → rows_in state (xs ++ ys) ≡ rows_in state xs + rows_in state ys
unfolding rows_in
rows_in-append state [] ys = omega arith
rows_in-append state (x ∷ xs) ys = elim (Bool-cases (text_eq x.state state)) [
  | inl e ↦ simp e (omega (arith, rows_in-append state xs ys))
  | inr e ↦ simp e (rows_in-append state xs ys)
]

-- The counts of the loop are those of the rows, as uint32.
counted :
    (h : Host) (include : Bool) (sessions : List (Text × ℕ)) (running dead : ℕ)
    → running < 2 ^ 32
    → dead < 2 ^ 32
    → Path (ℕ × ℕ) (count_sessions h sessions (running, dead)) (
      (running + rows_in (codes "running") (map (live_row h include) sessions)) % 2 ^ 32,
      (dead + rows_in (codes "dead") (map (live_row h include) sessions)) % 2 ^ 32,
    )
unfolding count_sessions rows_in text_eq
counted h include [] running dead hr hd =
    let r : running ≡ (running + 0) % 2 ^ 32 = omega arith in
    let d : dead ≡ (dead + 0) % 2 ^ 32 = omega arith in ap₂ (λ x y. (x, y)) r d
counted h include ((name, session) ∷ rest) running dead hr hd =
    elim (Bool-cases (h.session session).is_running) [
      | inl e ↦
          let more = rows_in (codes "running") (map (live_row h include) rest) in
          let r : ((running + 1) % 2 ^ 32 + more) % 2 ^ 32 ≡ (running + suc more) % 2 ^ 32 =
            omega arith in
          simp e (
            counted h include rest ((running + 1) % 2 ^ 32) dead (omega arith) hd
            ∙ ap
                (λ x. (x, (dead + rows_in (codes "dead") (map (live_row h include) rest)) % 2 ^ 32))
                r)
      | inr e ↦
          let more = rows_in (codes "dead") (map (live_row h include) rest) in
          let d : ((dead + 1) % 2 ^ 32 + more) % 2 ^ 32 ≡ (dead + suc more) % 2 ^ 32 =
            omega arith in
          simp e (
            counted h include rest running ((dead + 1) % 2 ^ 32) hr (omega arith)
            ∙ ap
                (λ y. (
                  (running + rows_in (codes "running") (map (live_row h include) rest)) % 2 ^ 32,
                  y,
                ))
                d)
    ]

added :
    (name : Text) (r : Result ServerError (Option SessionState))
    (q : Result ServerError (List Session)) (rows : List Session)
    → Present r
    → add_row name r q ≡ ok rows
    → (state : SessionState) × (rest : List Session) × (q ≡ ok rest)
      × (rows ≡ dead_row name state ∷ rest)
added name (err e) q rows there h = cc
added name (ok none) q rows there h = absurd there
added name (ok (some state)) (err e) rows there h = cc
added name (ok (some state)) (ok rest) rows there h = (state, rest, refl, cc)

-- Rows of dead sessions, one for each of `n` names.
abbrev DeadRows : ℕ → List Session → Type 0
DeadRows n rows = (rows_in (codes "running") rows ≡ 0) × (rows_in (codes "dead") rows ≡ n)

another-DeadRows :
    (name : Text) (state : SessionState) (n : ℕ) (rest : List Session)
    → DeadRows n rest
    → DeadRows (suc n) (dead_row name state ∷ rest)
unfolding rows_in text_eq
another-DeadRows name state n rest h = (h.0, ap suc h.1)

dead_rows-DeadRows :
    (h : Host) (s : Server) (names : List Text) (rows : List Session)
    → AllPresent h s names
    → dead_rows h s names ≡ ok rows
    → DeadRows (length names) rows
unfolding dead_rows rows_in AllPresent
dead_rows-DeadRows h s [] rows there e =
    let same : [] ≡ rows = cc in subst (DeadRows 0) same (refl, refl)
dead_rows-DeadRows h s (name ∷ names) rows there e =
    let (state, rest, found, same) =
      added name (read_dead_session h.os name s) (dead_rows h s names) rows there.0 e in
    subst (DeadRows (suc (length names))) (sym same) (
      another-DeadRows name state (length names) rest
        (dead_rows-DeadRows h s names rest there.1 found))

-- What a status counts, if there are `rows`.
pub record Counted (reply : Message) (rows : List Session) : Type 0 where
  pub status : StatusResponse
  pub is_status : reply ≡ Message.status_response status
  pub running : status.daemon.running_count ≡ rows_in (codes "running") rows % 2 ^ 32
  pub dead : status.daemon.dead_count ≡ rows_in (codes "dead") rows % 2 ^ 32

replied-Counted :
    (h : Host) (m : Status) (include : Bool) (s : Server) (names : List Text) (dead : List Session)
    → DeadRows (length names) dead
    → Counted
        (status_reply h
          (count_sessions h s.sessions (0, 0))
          (session_status h m.name s)
          (ok names)
          s).reply
        (map (live_row h include) s.sessions ++ dead)
replied-Counted h m include s names dead found =
    let counts = counted h include s.sessions 0 0 (omega arith) (omega arith) in
    let live = map (live_row h include) s.sessions in
    let split_running = rows_in-append (codes "running") live dead in
    let split_dead = rows_in-append (codes "dead") live dead in
    let running = ap (λ (c : ℕ × ℕ). c.0) counts in
    let gone = ap (λ (c : ℕ × ℕ). c.1) counts in
    record {
      status = _;
      is_status = refl;
      running = omega (arith, running, split_running, found.0);
      dead = omega (arith, gone, split_dead, found.1);
    }

-- The counts of a status are the numbers of running and of dead rows that a list shows in the same
-- state, as uint32, whenever the list is answered with rows.
pub handle_status-handle_list :
    (h : Host) (m : Status) (l : ListRequest) (s : Server) (rows : List Session)
    → (handle_list h l s).reply ≡ Message.sessions (record { sessions = rows })
    → Counted (handle_status h m s).reply rows
unfolding handle_list handle_status dead_session_rows
handle_status-handle_list h m l s rows e = elim (Result-cases (list_dead_names h s)) [
  | inl (x, f) ↦ let failed : dead_session_rows h s ≡ err x = ap (rows_of h s) f in cc
  | inr (names, f) ↦
      let there : AllPresent h s names = subst (IfListed h s) f (listed-AllPresent h s) in
      elim (Result-cases (dead_rows h s names)) [
        | inl (x, g) ↦ let failed : dead_session_rows h s ≡ err x = ap (rows_of h s) f ∙ g in cc
        | inr (dead, g) ↦
            let shown : dead_session_rows h s ≡ ok dead = ap (rows_of h s) f ∙ g in
            let same : map (live_row h l.include_clients) s.sessions ++ dead ≡ rows = cc in
            rw (← same, f)
              (replied-Counted h m l.include_clients s names dead
                (dead_rows-DeadRows h s names dead there g))
      ]
]
