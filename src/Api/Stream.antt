-- ===== src/Api/Stream.antt =====
-- The event stream of a job, src/intel/api/sse.py. Each round of the loop reads a snapshot of the job's
-- log; `events_after` answers the events with a larger number, at most `limit` of them, in the order of
-- their numbers. Times are microseconds. A Last-Event-ID below zero is not modelled.
use semiconductor_intel.Prelude.{
  ℕ, zero, suc, ◌+◌, ◌-◌, ◌≤◌, ◌≡◌, refl, sym, ap, ◌∙◌, Bool, true, false, not, ◌&&◌, Option, none,
  some, List, [], ◌∷◌, ◌++◌, arith, length, take, drop, keep, ltb, leb, if◌then◌else◌, Bool-cases,
  inl, inr, subst, length-append, length-take, length-drop, In,
}
use semiconductor_intel.Queue.Rows.{JobEventRecord, seconds}
use semiconductor_intel.Queue.Events.{Numbered}

-- What one round of the loop sees.
pub record Poll : Type 0 where
  pub disconnected : Bool
  pub log : List JobEventRecord
  pub active : Bool
  pub now : ℕ

pub data Frame : Type 0 where
  event : JobEventRecord → Frame
  ping stream_end : Frame

abbrev heartbeat_period : ℕ
heartbeat_period = seconds 15

-- The log's events_after.
abbrev pub events_after : ℕ → ℕ → List JobEventRecord → List JobEventRecord
events_after current limit log = take limit (keep (λ (e : JobEventRecord). ltb current e.seq) log)

abbrev last_seq : ℕ → List JobEventRecord → ℕ
last_seq current [] = current
last_seq current (e ∷ es) = last_seq e.seq es

abbrev pub frames : List JobEventRecord → List Frame
frames [] = []
frames (e ∷ es) = event e ∷ frames es

abbrev is_empty : List JobEventRecord → Bool
is_empty [] = true
is_empty (e ∷ es) = false

-- The frames of the rounds, after the last event sent and since the last heartbeat.
unfoldable pub generate : ℕ → ℕ → ℕ → List Poll → List Frame
generate limit current last_beat [] = []
generate limit current last_beat (p ∷ ps) =
    let batch = events_after current limit p.log in
    let beats = leb heartbeat_period (p.now - last_beat) in
    let rest = generate limit (last_seq current batch) (if beats then p.now else last_beat) ps in
    if p.disconnected
    then []
    else if not p.active && is_empty batch
    then stream_end ∷ []
    else frames batch ++ (if beats then ping ∷ rest else rest)

abbrev pub start_from : Option ℕ → ℕ
start_from none = 0
start_from (some c) = c

abbrev expired_cursor : Option ℕ → Option ℕ → Bool
expired_cursor none earliest = false
expired_cursor (some c) none = false
expired_cursor (some c) (some e) = ltb (c + 1) e

-- None is the EventCursorExpired that is raised; `started` is when the generator starts.
unfoldable pub sse_stream : Option ℕ → Option ℕ → ℕ → ℕ → List Poll → Option (List Frame)
unfolding generate
sse_stream cursor earliest limit started polls =
    if expired_cursor cursor earliest
    then none
    else some (generate limit (start_from cursor) started polls)

abbrev pub sent : List Frame → List JobEventRecord
sent [] = []
sent (event e ∷ fs) = e ∷ sent fs
sent (ping ∷ fs) = sent fs
sent (stream_end ∷ fs) = sent fs

sent-frames : (es : List JobEventRecord) (fs : List Frame) → sent (frames es ++ fs) ≡ es ++ sent fs
sent-frames [] fs = refl
sent-frames (e ∷ es) fs = ap (◌∷◌ e) (sent-frames es fs)

drop-empty : (n : ℕ) → drop {A = JobEventRecord} n [] ≡ []
drop-empty zero = refl
drop-empty (suc n) = refl

Numbered-at : {m n : ℕ} (log : List JobEventRecord) → m ≡ n → Numbered m log → Numbered n log
Numbered-at log e h = subst (λ k. Numbered k log) e h

keep-drop :
    (n c : ℕ) (log : List JobEventRecord)
    → Numbered n log
    → keep (λ (e : JobEventRecord). ltb c e.seq) log ≡ drop (c - n) log
keep-drop n c [] h = sym (drop-empty (c - n))
keep-drop n c (e ∷ log) h = elim (Bool-cases (ltb c e.seq)) [
  | inl later ↦
      let none_dropped : c - n ≡ 0 = ground (arith, later, h.0) in
      let more : c - suc n ≡ 0 = omega (arith, none_dropped) in
      rw later (
        ap (◌∷◌ e) (keep-drop (suc n) c log h.1 ∙ ap (λ k. drop k log) more)
        ∙ ap (λ k. drop k (e ∷ log)) (sym none_dropped))
  | inr old ↦
      let one : suc (c - suc n) ≡ c - n = ground (arith, old, h.0) in
      rw old (keep-drop (suc n) c log h.1 ∙ ap (λ k. drop k (e ∷ log)) one)
]

Numbered-drop :
    (n k : ℕ) (log : List JobEventRecord) → Numbered n log → Numbered (n + k) (drop k log)
Numbered-drop n zero log h = Numbered-at log (omega arith) h
Numbered-drop n (suc k) [] h = tt
Numbered-drop n (suc k) (e ∷ log) h =
    Numbered-at (drop k log) (omega arith) (Numbered-drop (suc n) k log h.1)

Numbered-take : (n k : ℕ) (log : List JobEventRecord) → Numbered n log → Numbered n (take k log)
Numbered-take n zero log h = tt
Numbered-take n (suc k) [] h = tt
Numbered-take n (suc k) (e ∷ log) h = (h.0, Numbered-take (suc n) k log h.1)

-- The events that follow the number c.
batch-Numbered :
    (c limit : ℕ) (log : List JobEventRecord)
    → Numbered 0 log
    → Numbered c (events_after c limit log)
batch-Numbered c limit log h = Numbered-take c limit _ (
    subst (Numbered c) (sym (keep-drop 0 c log h))
      (Numbered-at (drop (c - 0) log) (omega arith) (Numbered-drop 0 (c - 0) log h)))

last_seq-Numbered :
    (c : ℕ) (es : List JobEventRecord) → Numbered c es → last_seq c es ≡ c + length es
last_seq-Numbered c [] h = omega arith
last_seq-Numbered c (e ∷ es) h =
    omega (arith, h.0, last_seq-Numbered e.seq es (Numbered-at es (sym h.0) h.1))

Numbered-join :
    (c : ℕ) (xs ys : List JobEventRecord)
    → Numbered c xs
    → Numbered (last_seq c xs) ys
    → Numbered c (xs ++ ys)
Numbered-join c [] ys h k = k
Numbered-join c (x ∷ xs) ys h k =
    (h.0, Numbered-at (xs ++ ys) h.0 (Numbered-join x.seq xs ys (Numbered-at xs (sym h.0) h.1) k))

sent_beats :
    (b : Bool) (fs : List Frame) (c : ℕ)
    → Numbered c (sent fs)
    → Numbered c (sent (if b then ping ∷ fs else fs))
sent_beats true fs c h = h
sent_beats false fs c h = h

-- Every snapshot of the log is numbered 1, 2, 3, ...
abbrev pub LogsNumbered : List Poll → Type 0
LogsNumbered [] = Unit
LogsNumbered (p ∷ ps) = Numbered 0 p.log × LogsNumbered ps

generate-Numbered :
    (limit c last_beat : ℕ) (ps : List Poll)
    → LogsNumbered ps
    → Numbered c (sent (generate limit c last_beat ps))
unfolding generate
generate-Numbered limit c last_beat [] h = tt
generate-Numbered limit c last_beat (p ∷ ps) h = elim (Bool-cases p.disconnected) [
  | inl gone ↦ rw gone tt
  | inr here ↦ elim (Bool-cases (not p.active && is_empty (events_after c limit p.log))) [
    | inl done ↦ rw (here, done) tt
    | inr more ↦
        let batch = events_after c limit p.log in
        let beats = leb heartbeat_period (p.now - last_beat) in
        let first = batch-Numbered c limit p.log h.0 in
        let rest =
          generate-Numbered limit (last_seq c batch) (if beats then p.now else last_beat) ps h.1 in
        rw (here, more)
          (subst (Numbered c) (sym (sent-frames batch _))
            (Numbered-join c batch _ first (sent_beats beats _ (last_seq c batch) rest)))
  ]
]

-- Some round saw a job at rest whose log was no longer than what the client had and was sent.
abbrev pub Complete : ℕ → List Frame → List Poll → Type 0
Complete c fs ps = (p : Poll) × In p ps × (p.active ≡ false) × (length p.log ≤ c + length (sent fs))

no_end :
    (es : List JobEventRecord) (fs : List Frame)
    → In stream_end (frames es ++ fs)
    → In stream_end fs
no_end [] fs m = m
no_end (e ∷ es) fs (inl x) = cc
no_end (e ∷ es) fs (inr m) = no_end es fs m

no_ping_end :
    (b : Bool) (fs : List Frame) → In stream_end (if b then ping ∷ fs else fs) → In stream_end fs
no_ping_end true fs (inl x) = cc
no_ping_end true fs (inr m) = m
no_ping_end false fs m = m

sent-beats : (b : Bool) (fs : List Frame) → sent (if b then ping ∷ fs else fs) ≡ sent fs
sent-beats true fs = refl
sent-beats false fs = refl

none_left : (es : List JobEventRecord) → is_empty es ≡ true → length es ≡ 0
none_left [] h = refl
none_left (e ∷ es) h = cc

empty-batch :
    (c limit : ℕ) (log : List JobEventRecord)
    → 1 ≤ limit
    → Numbered 0 log
    → is_empty (events_after c limit log) ≡ true
    → length log ≤ c
empty-batch c limit log some_limit h e =
    let taken : length (events_after c limit log) ≡ 0 = none_left (events_after c limit log) e in
    omega (
      arith,
      some_limit,
      taken,
      length-take limit (keep (λ (x : JobEventRecord). ltb c x.seq) log),
      ap (λ (l : List JobEventRecord). length l) (keep-drop 0 c log h),
      length-drop (c - 0) log,
    )

generate-Complete :
    (limit c last_beat : ℕ) (ps : List Poll)
    → 1 ≤ limit
    → LogsNumbered ps
    → In stream_end (generate limit c last_beat ps)
    → Complete c (generate limit c last_beat ps) ps
unfolding generate
generate-Complete limit c last_beat [] some_limit h m = absurd m
generate-Complete limit c last_beat (p ∷ ps) some_limit h m = elim (Bool-cases p.disconnected) [
  | inl gone ↦
      let stops : generate limit c last_beat (p ∷ ps) ≡ [] = rw gone refl in
      absurd (subst (λ fs. In stream_end fs) stops m)
  | inr here ↦ elim (Bool-cases (not p.active && is_empty (events_after c limit p.log))) [
    | inl done ↦
        let ends : generate limit c last_beat (p ∷ ps) ≡ stream_end ∷ [] = rw (here, done) refl in
        subst (λ fs. Complete c fs (p ∷ ps)) (sym ends)
          (
            p,
            inl refl,
            ground (arith, done),
            omega (arith, empty-batch c limit p.log some_limit h.0 (ground (arith, done))),
          )
    | inr more ↦
        let batch = events_after c limit p.log in
        let beats = leb heartbeat_period (p.now - last_beat) in
        let rest = generate limit (last_seq c batch) (if beats then p.now else last_beat) ps in
        let goes_on : generate limit c last_beat (p ∷ ps)
            ≡ frames batch ++ (if beats then ping ∷ rest else rest) =
          rw (here, more) refl in
        let later =
          no_ping_end beats rest (no_end batch _ (subst (λ fs. In stream_end fs) goes_on m)) in
        let (q, there, rests, short) =
          generate-Complete limit (last_seq c batch) (if beats then p.now else last_beat) ps
            some_limit h.1 later in
        let all : sent (frames batch ++ (if beats then ping ∷ rest else rest))
            ≡ batch ++ sent rest =
          sent-frames batch _ ∙ ap (λ l. batch ++ l) (sent-beats beats rest) in
        subst (λ fs. Complete c fs (p ∷ ps)) (sym goes_on)
          (
            q,
            inr there,
            rests,
            omega (
              arith,
              short,
              ap (λ (l : List JobEventRecord). length l) all,
              length-append batch (sent rest),
              last_seq-Numbered c batch (batch-Numbered c limit p.log h.0),
            ),
          )
  ]
]

none-some : {x : List Frame} → Path (Option (List Frame)) none (some x) → ⊥
none-some h = cc

some_injective : {x y : List Frame} → Path (Option (List Frame)) (some x) (some y) → x ≡ y
some_injective h = cc

-- A stream that is not refused, with batches of at least one event, sends, from snapshots of a log
-- numbered 1, 2, 3, ..., the events after the client's last one with no gap and no repetition; and
-- it ends with stream_end only if a round saw the job at rest with no event that the client has
-- not.
pub sse_stream-Numbered :
    (cursor earliest : Option ℕ) (limit started : ℕ) (polls : List Poll) (fs : List Frame)
    → 1 ≤ limit
    → LogsNumbered polls
    → sse_stream cursor earliest limit started polls ≡ some fs
    → Numbered (start_from cursor) (sent fs)
      × (In stream_end fs → Complete (start_from cursor) fs polls)
unfolding sse_stream
sse_stream-Numbered cursor earliest limit started polls fs some_limit h e =
    elim (Bool-cases (expired_cursor cursor earliest)) [
      | inl old ↦ absurd (
          none-some (
            subst
              (λ (b : Bool).
                (if b then none else some (generate limit (start_from cursor) started polls))
                ≡ some fs)
              old e))
      | inr recent ↦
          let is : generate limit (start_from cursor) started polls ≡ fs = some_injective (
            subst
              (λ (b : Bool).
                (if b then none else some (generate limit (start_from cursor) started polls))
                ≡ some fs)
              recent e) in
          (
            subst (λ x. Numbered (start_from cursor) (sent x)) is
                (generate-Numbered limit (start_from cursor) started polls h),
            subst (λ x. In stream_end x → Complete (start_from cursor) x polls) is
                (generate-Complete limit (start_from cursor) started polls some_limit h),
          )
    ]
