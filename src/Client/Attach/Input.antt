-- ===== src/Client/Attach/Input.antt =====
-- What is typed reaches the session, up to the detach key.
use hauntty.Prelude.{
  ℕ, ◌≡◌, refl, sym, ap, ◌∙◌, Bool-cases, inl, inr, true, false, List, [], ◌∷◌, ◌++◌, map,
  Option-cases, none, some, take,
}
use hauntty.Protocol.Messages.{Message}
use hauntty.Daemon.Connection.{Attachment, Call, send_input, stream_loop}
use hauntty.Daemon.Connection.Detaching.{ended, stream-calls}
use hauntty.Client.Keys.Detach.{DetachKey}
use hauntty.Client.Attach.{
  index, index_byte, raw_index, find_detach, Forwarded, input_message, detach_and_close,
  forward_detach, forward_host_input,
}
use hauntty.Client.Attach.Search.{Nowhere, FirstAt, index-FirstAt, index-Nowhere, byte_lem}

raw-lem :
    (dk : DetachKey) (bytes : List ℕ)
    → dk.has_raw ≡ true
    → raw_index dk bytes ≡ index_byte dk.raw_byte bytes
raw-lem dk bytes h = simp h

raw-has :
    (dk : DetachKey) (bytes : List ℕ) (j : ℕ) → raw_index dk bytes ≡ some j → dk.has_raw ≡ true
raw-has dk bytes j f = elim (Bool-cases dk.has_raw) [
  | inl h ↦ h
  | inr h ↦ let none_there : raw_index dk bytes ≡ none = simp h in cc (f, none_there)
]

raw-found :
    (dk : DetachKey) (bytes : List ℕ) (j : ℕ)
    → raw_index dk bytes ≡ some j
    → find_detach bytes dk ≡ some j
unfolding find_detach
raw-found dk bytes j f = rw (f, find_detach)

raw-missed :
    (dk : DetachKey) (bytes : List ℕ)
    → raw_index dk bytes ≡ none
    → find_detach bytes dk ≡ index dk.csi_seq bytes
unfolding find_detach
raw-missed dk bytes f = rw (f, find_detach)

module _ (dk : DetachKey) where
  -- The read has no raw detach byte, or there is no such byte.
  abbrev pub NoRaw : List ℕ → Type 0
  NoRaw bytes = dk.has_raw ≡ true → Nowhere (dk.raw_byte ∷ []) bytes

  -- What is typed in the reads before the detach key. A read is searched by itself, for the raw byte
  -- first and, if it is not there, for the CSI sequence.
  pub data IsTyped : List (List ℕ) → List ℕ → Type 0 where
    ended_input : IsTyped [] []
    empty_read :
        {reads : List (List ℕ)} {out : List ℕ} → IsTyped reads out → IsTyped ([] ∷ reads) out
    raw_key :
        {b : ℕ} {bytes before : List ℕ} {reads : List (List ℕ)}
        → dk.has_raw ≡ true
        → FirstAt (dk.raw_byte ∷ []) (b ∷ bytes) before
        → IsTyped ((b ∷ bytes) ∷ reads) before
    csi_key :
        {b : ℕ} {bytes before : List ℕ} {reads : List (List ℕ)}
        → NoRaw (b ∷ bytes)
        → FirstAt dk.csi_seq (b ∷ bytes) before
        → IsTyped ((b ∷ bytes) ∷ reads) before
    no_key :
        {b : ℕ} {bytes out : List ℕ} {reads : List (List ℕ)}
        → NoRaw (b ∷ bytes)
        → Nowhere dk.csi_seq (b ∷ bytes)
        → IsTyped reads out
        → IsTyped ((b ∷ bytes) ∷ reads) ((b ∷ bytes) ++ out)

  none-NoRaw : (bytes : List ℕ) → raw_index dk bytes ≡ none → NoRaw bytes
  none-NoRaw bytes f h =
      index-Nowhere (dk.raw_byte ∷ []) bytes
        (sym (byte_lem dk.raw_byte bytes) ∙ (sym (raw-lem dk bytes h) ∙ f))

  searched-some :
      (b : ℕ) (bytes : List ℕ) (reads : List (List ℕ)) (i : ℕ)
      → find_detach (b ∷ bytes) dk ≡ some i
      → IsTyped ((b ∷ bytes) ∷ reads) (take i (b ∷ bytes))
  searched-some b bytes reads i e = elim (Option-cases (raw_index dk (b ∷ bytes))) [
    | inr (j, f) ↦
        let same : i ≡ j = cc (e, raw-found dk (b ∷ bytes) j f) in
        let raw : dk.has_raw ≡ true = raw-has dk (b ∷ bytes) j f in
        rw same (
          raw_key raw (
            index-FirstAt (dk.raw_byte ∷ []) (b ∷ bytes) j
              (sym (byte_lem dk.raw_byte (b ∷ bytes)) ∙ (sym (raw-lem dk (b ∷ bytes) raw) ∙ f))))
    | inl f ↦
        csi_key (none-NoRaw (b ∷ bytes) f)
          (index-FirstAt dk.csi_seq (b ∷ bytes) i (sym (raw-missed dk (b ∷ bytes) f) ∙ e))
  ]

  searched-none :
      (b : ℕ) (bytes : List ℕ)
      → find_detach (b ∷ bytes) dk ≡ none
      → NoRaw (b ∷ bytes) × Nowhere dk.csi_seq (b ∷ bytes)
  searched-none b bytes e = elim (Option-cases (raw_index dk (b ∷ bytes))) [
    | inr (j, f) ↦ cc (e, raw-found dk (b ∷ bytes) j f)
    | inl f ↦ (
      none-NoRaw (b ∷ bytes) f,
      index-Nowhere dk.csi_seq (b ∷ bytes) (sym (raw-missed dk (b ∷ bytes) f) ∙ e),
    )
  ]

-- The message that the daemon reads.
abbrev pub to_message : Forwarded → Message
to_message (input_message bytes) = Message.input (record { payload = bytes })
to_message detach_and_close = Message.detach

-- The bytes that the calls write to the session.
abbrev pub input_of : List Call → List ℕ
input_of [] = []
input_of (send_input session bytes ∷ calls) = bytes ++ input_of calls
input_of (call ∷ calls) = input_of calls

stream-input :
    (a : Attachment) (bytes : List ℕ) (msgs : List Message)
    → a.read_only ≡ false
    → stream_loop a (Message.input (record { payload = bytes }) ∷ msgs)
      ≡ send_input a.session bytes ∷ stream_loop a msgs
unfolding stream_loop
stream-input a bytes msgs r = simp r

input-detach : (a : Attachment) → input_of (stream_loop a (Message.detach ∷ [])) ≡ []
unfolding stream_loop
input-detach a = refl

abbrev pub delivered : Attachment → List Forwarded → List ℕ
delivered a forwarded = input_of (stream_loop a (map to_message forwarded))

delivered-input :
    (a : Attachment) (bytes : List ℕ) (rest : List Forwarded)
    → a.read_only ≡ false
    → delivered a (input_message bytes ∷ rest) ≡ bytes ++ delivered a rest
delivered-input a bytes rest r = ap input_of (stream-input a bytes (map to_message rest) r)

append-none : (bytes : List ℕ) → bytes ++ [] ≡ bytes
append-none [] = refl
append-none (b ∷ bytes) = ap (λ bs. b ∷ bs) (append-none bytes)

delivered-detach :
    (a : Attachment) (before : List ℕ)
    → a.read_only ≡ false
    → delivered a (forward_detach false true before) ≡ before
unfolding forward_detach
delivered-detach a [] r = input-detach a
delivered-detach a (b ∷ before) r =
    delivered-input a (b ∷ before) (detach_and_close ∷ []) r
    ∙ (ap (λ bs. (b ∷ before) ++ bs) (input-detach a) ∙ append-none (b ∷ before))

module _ (a : Attachment) (dk : DetachKey) (r : a.read_only ≡ false) where
  delivered-IsTyped :
      (reads : List (List ℕ))
      → IsTyped dk reads (delivered a (forward_host_input dk false (λ n. true) reads))
  unfolding forward_host_input stream_loop
  delivered-IsTyped [] = ended_input
  delivered-IsTyped ([] ∷ reads) = empty_read (delivered-IsTyped reads)
  delivered-IsTyped ((b ∷ bytes) ∷ reads) = elim (Option-cases (find_detach (b ∷ bytes) dk)) [
    | inr (i, e) ↦
        rw (e, forward_host_input, delivered-detach a (take i (b ∷ bytes)) r)
          (searched-some dk b bytes reads i e)
    | inl e ↦
        let free = searched-none dk b bytes e in
        rw
          (
            e,
            forward_host_input,
            delivered-input a (b ∷ bytes) (forward_host_input dk false (λ n. true) reads) r,
          )
          (no_key free.0 free.1 (delivered-IsTyped reads))
  ]

  -- With a client that may write, and writes that succeed: what the daemon's loop writes to the session
  -- is what was typed, in order, up to the detach key. Each read is searched by itself: the first one that
  -- holds the raw byte, if the key has one, or the CSI sequence, is cut at its first raw byte or, without
  -- one, at its first CSI sequence; the reads before it are forwarded whole, and nothing behind the cut.
  -- The client is detached once.
  pub forward_host_input-IsTyped :
      (reads : List (List ℕ))
      → IsTyped dk reads (delivered a (forward_host_input dk false (λ n. true) reads))
        × (ended (stream_loop a (map to_message (forward_host_input dk false (λ n. true) reads)))
            ≡ a ∷ [])
  forward_host_input-IsTyped reads = (
    delivered-IsTyped reads,
    (stream-calls a (map to_message (forward_host_input dk false (λ n. true) reads))).1,
  )
