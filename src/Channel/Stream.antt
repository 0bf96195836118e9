-- ===== src/Channel/Stream.antt =====
-- Views of a channel that its methods do not compute: the bytes that were sent, the bytes that wait,
-- and the order of what was sent.
use mathlib.Core.List.{append_assoc, append-nil}
use asyncssh.Base.{
  ℕ, zero, suc, ◌+◌, ◌≤◌, ◌≡◌, refl, ap, ◌∙◌, arith, Option, List, [], ◌∷◌, ◌++◌, length, take,
  drop, length-append,
}
use asyncssh.Channel.Types.{Chunk, Message, Event}

-- A byte, and the extended data type under which it travels.
abbrev pub Tagged : Type 0
Tagged = Option ℕ × ℕ

abbrev pub tagged : Option ℕ → List ℕ → List Tagged
tagged t [] = []
tagged t (b ∷ bs) = (t, b) ∷ tagged t bs

-- The bytes of a buffer.
abbrev pub pending : List Chunk → List Tagged
pending [] = []
pending (x ∷ xs) = tagged x.datatype x.body ++ pending xs

-- The data bytes among the packets.
unfoldable pub sent : List Message → List Tagged
sent [] = []
sent (Message.channel_data x ∷ ms) = tagged x.datatype x.body ++ sent ms
sent (Message.window_adjust n ∷ ms) = sent ms
sent (Message.channel_eof ∷ ms) = sent ms
sent (Message.channel_close ∷ ms) = sent ms

-- The bytes that the session was given.
unfoldable pub delivered : List Event → List Tagged
delivered [] = []
delivered (Event.data_received x ∷ es) = tagged x.datatype x.body ++ delivered es
delivered (Event.eof_received ∷ es) = delivered es
delivered (Event.connection_lost ∷ es) = delivered es
delivered (Event.pause_writing ∷ es) = delivered es
delivered (Event.resume_writing ∷ es) = delivered es

-- The sum of the window adjustments that were sent.
unfoldable pub granted : List Message → ℕ
granted [] = 0
granted (Message.channel_data x ∷ ms) = granted ms
granted (Message.window_adjust n ∷ ms) = n + granted ms
granted (Message.channel_eof ∷ ms) = granted ms
granted (Message.channel_close ∷ ms) = granted ms

abbrev pub total : List Chunk → ℕ
total [] = 0
total (x ∷ xs) = length x.body + total xs

-- No data packet holds more than `size` bytes.
abbrev pub Fits : ℕ → Message → Type 0
Fits size (Message.channel_data x) = length x.body ≤ size
Fits size _ = Unit

-- How far a stream has come: data, then at most one end of file, then at most one close, last.
pub data Phase : Type 0 where
  streaming ended done bad : Phase

unfoldable pub advance : Phase → Message → Phase
advance Phase.streaming (Message.channel_data x) = Phase.streaming
advance Phase.streaming (Message.window_adjust n) = Phase.streaming
advance Phase.streaming Message.channel_eof = Phase.ended
advance Phase.streaming Message.channel_close = Phase.done
advance Phase.ended (Message.window_adjust n) = Phase.ended
advance Phase.ended Message.channel_close = Phase.done
advance Phase.ended _ = Phase.bad
advance Phase.done _ = Phase.bad
advance Phase.bad _ = Phase.bad

unfoldable pub phase_from : Phase → List Message → Phase
phase_from p [] = p
phase_from p (m ∷ ms) = phase_from (advance p m) ms

unfoldable pub phase : List Message → Phase
unfolding phase_from advance
phase ms = phase_from Phase.streaming ms

phase_from-snoc :
    (p : Phase) (ms : List Message) (m : Message)
    → phase_from p (ms ++ m ∷ []) ≡ advance (phase_from p ms) m
unfolding phase_from
phase_from-snoc p [] m = refl
phase_from-snoc p (n ∷ ms) m = phase_from-snoc (advance p n) ms m

pub phase-snoc : (ms : List Message) (m : Message) → phase (ms ++ m ∷ []) ≡ advance (phase ms) m
unfolding phase
phase-snoc ms m = phase_from-snoc Phase.streaming ms m

pub length-tagged : (t : Option ℕ) (bs : List ℕ) → length (tagged t bs) ≡ length bs
length-tagged t [] = refl
length-tagged t (b ∷ bs) = ap suc (length-tagged t bs)

pub tagged-take-drop :
    (t : Option ℕ) (n : ℕ) (bs : List ℕ)
    → tagged t (take n bs) ++ tagged t (drop n bs) ≡ tagged t bs
tagged-take-drop t zero bs = refl
tagged-take-drop t (suc n) [] = refl
tagged-take-drop t (suc n) (b ∷ bs) = ap (λ r. (t, b) ∷ r) (tagged-take-drop t n bs)

pub pending-append : (xs ys : List Chunk) → pending (xs ++ ys) ≡ pending xs ++ pending ys
pending-append [] ys = refl
pending-append (x ∷ xs) ys = rw (pending-append xs ys, append_assoc)

pub total-append : (xs ys : List Chunk) → total (xs ++ ys) ≡ total xs + total ys
total-append [] ys = omega arith
total-append (x ∷ xs) ys = omega (arith, total-append xs ys)

pub length-pending : (xs : List Chunk) → length (pending xs) ≡ total xs
length-pending [] = refl
length-pending (x ∷ xs) = omega (
  arith,
  length-append (tagged x.datatype x.body) (pending xs),
  length-tagged x.datatype x.body,
  length-pending xs,
)

pub sent-append : (ms ns : List Message) → sent (ms ++ ns) ≡ sent ms ++ sent ns
unfolding sent
sent-append [] ns = refl
sent-append (Message.channel_data x ∷ ms) ns = rw (sent-append ms ns, append_assoc)
sent-append (Message.window_adjust n ∷ ms) ns = sent-append ms ns
sent-append (Message.channel_eof ∷ ms) ns = sent-append ms ns
sent-append (Message.channel_close ∷ ms) ns = sent-append ms ns

pub delivered-append : (es fs : List Event) → delivered (es ++ fs) ≡ delivered es ++ delivered fs
unfolding delivered
delivered-append [] fs = refl
delivered-append (Event.data_received x ∷ es) fs = rw (delivered-append es fs, append_assoc)
delivered-append (Event.eof_received ∷ es) fs = delivered-append es fs
delivered-append (Event.connection_lost ∷ es) fs = delivered-append es fs
delivered-append (Event.pause_writing ∷ es) fs = delivered-append es fs
delivered-append (Event.resume_writing ∷ es) fs = delivered-append es fs

pub granted-append : (ms ns : List Message) → granted (ms ++ ns) ≡ granted ms + granted ns
unfolding granted
granted-append [] ns = omega arith
granted-append (Message.channel_data x ∷ ms) ns = granted-append ms ns
granted-append (Message.window_adjust n ∷ ms) ns = omega (arith, granted-append ms ns)
granted-append (Message.channel_eof ∷ ms) ns = granted-append ms ns
granted-append (Message.channel_close ∷ ms) ns = granted-append ms ns

-- One data packet more.
pub sent_snoc :
    (ms : List Message) (x : Chunk)
    → sent (ms ++ Message.channel_data x ∷ []) ≡ sent ms ++ tagged x.datatype x.body
unfolding sent
sent_snoc ms x =
    sent-append ms (Message.channel_data x ∷ []) ∙ ap (λ t. sent ms ++ t) (append-nil _)

pub granted_snoc :
    (ms : List Message) (m : Message) → granted (ms ++ m ∷ []) ≡ granted ms + granted (m ∷ [])
granted_snoc ms m = granted-append ms (m ∷ [])
