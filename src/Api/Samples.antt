-- ===== src/Api/Samples.antt =====
-- The HTTP layer on small inputs.
use semiconductor_intel.Prelude.{
  ℕ, true, false, List, ◌∷◌, Option, none, some, refl, In, arith, ap, ◌-◌, ◌≡◌, ◌+◌, if◌then◌else◌,
  leb, ◌==◌, nat_eq, string_eq, ◌&&◌, [],
}
use semiconductor_intel.Queue.Rows.{JobEventRecord, ev_queued}
use semiconductor_intel.Queue.Events.{Numbered}
use semiconductor_intel.Prelude.Json.{end}
use semiconductor_intel.Api.Stream.{
  Poll, event, ping, stream_end, generate, sse_stream, Complete, sse_stream-Numbered,
}
use semiconductor_intel.Api.Pages.{Text, ℤ, pos, negsuc, Codec, Faithful, walk, walk-all}
use semiconductor_intel.Api.Replay.{
  IdempotencyGuard, fresh, conflict, replayed, lookup, store, lookup-store,
}

abbrev guard : IdempotencyGuard
guard = record { owner_id = 1; route = "/sources"; key = "k"; body_hash = "h" }

abbrev retry : IdempotencyGuard
retry = record { owner_id = 1; route = "/sources"; key = "k"; body_hash = "h2" }

lookup-store_example : lookup retry 9 (store guard 5 201 "made" []) ≡ (
    if guard.owner_id == retry.owner_id && guard.route == retry.route && guard.key == retry.key
    then (if leb (5 + 86_400_000_000) 9
        then fresh
        else if guard.body_hash == retry.body_hash
        then replayed 201 "made"
        else conflict)
    else lookup retry 9 [])
lookup-store_example = lookup-store guard retry 5 9 201 "made" []

abbrev first_event : JobEventRecord
first_event = record {
  owner_id = 7;
  job_id = 100;
  seq = 1;
  type = ev_queued;
  industry_id = none;
  body = end;
  created_at = none;
}

abbrev polls : List Poll
polls =
    record { disconnected = false; log = first_event ∷ []; active = true; now = 20_000_000 }
    ∷ record { disconnected = false; log = first_event ∷ []; active = false; now = 21_000_000 }
    ∷ []

streamed : sse_stream none none 100 0 polls ≡ some (event first_event ∷ ping ∷ stream_end ∷ [])
unfolding sse_stream generate
streamed = refl

sse_stream-Numbered_example :
    Numbered 0 (first_event ∷ [])
    × (In stream_end (event first_event ∷ ping ∷ stream_end ∷ [])
        → Complete 0 (event first_event ∷ ping ∷ stream_end ∷ []) polls)
sse_stream-Numbered_example =
    sse_stream-Numbered none none 100 0 polls (event first_event ∷ ping ∷ stream_end ∷ [])
      (omega arith) ((refl, tt), ((refl, tt), tt)) streamed

-- A codec with no secret, for the numbers below ten: base64 is a mark in front.
abbrev digit : ℤ → Text
digit (pos n) = (48 + n) ∷ []
digit (negsuc n) = []

abbrev read_digit : Text → Option ℤ
read_digit [] = none
read_digit (c ∷ t) = some (pos (c - 48))

abbrev unwrap : Text → Option Text
unwrap [] = none
unwrap (c ∷ t) = some t

abbrev sample_codec : Codec
sample_codec = record {
  mac = λ n key. 97 ∷ 48 ∷ [];
  b64encode = λ t. 65 ∷ t;
  b64decode = unwrap;
  str = digit;
  int = read_digit;
}

back : (n : ℕ) → 48 + n - 48 ≡ n
back n = omega arith

sample_codec-Faithful : Faithful sample_codec [] 10
sample_codec-Faithful = record {
  decodes = λ t plain. refl;
  some_text = λ c t plain. (65, c ∷ t, refl);
  reads = λ n low. ap (λ k. some (pos k)) (back n);
  digits = λ n low. ((omega arith, omega (arith, low)), tt);
  plain_mac = λ n low. (omega arith, (omega arith, tt));
}

abbrev three : List ℕ
three = 1 ∷ 2 ∷ 3 ∷ []

walk-all_example : walk sample_codec [] three 2 4 none ≡ three
walk-all_example =
    walk-all sample_codec [] three 2 10 sample_codec-Faithful (omega arith) (omega arith)
