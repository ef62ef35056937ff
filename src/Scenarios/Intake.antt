-- ===== src/Scenarios/Intake.antt =====
-- Events that come in, hops that are stored, and records that a consumer commits.
use momotaro.Prelude.{
  ℕ, ◌+◌, ◌≡◌, inl, inr, refl, true, false, none, some, List, [], ◌∷◌, ◌++◌, map, length, All,
}
use momotaro.Prelude.Int.{pos}
use momotaro.Prelude.Text.{Bytes, codes, same, contains, join}
use momotaro.Platform.HopCodec.{ProviderHop, encode, encode_parts, decode, has_delimiter}
use momotaro.Platform.HopCodec.RoundTrip.{decode-encode}
use momotaro.Platform.Commits.{
  KafkaRecord, Progress, new_commit_tracker, store, observe, advance, complete, complete_in,
  commit_one, committer_round, find_offset, delete_offset, put_offset,
}
use momotaro.Platform.Commits.Gap.{IsFirstGap}
use momotaro.Platform.Commits.Kept.{
  Consumption, first_fetched, handled, Consumed, fetch, finish, start, next, Covers,
}
use momotaro.Platform.Commits.Consumption.{fresh_consumer, commits-Covers, next-IsFirstGap}
use momotaro.Proto.{Uuid, RecordType}
use momotaro.Ingestion.{
  NewRecord, IngestedEvent, BatchRow, Ingest, publish_failed, validate_new_record, create_batch,
  rolling_batch_id, row_of_key, find_by_idempotency_key, insert_record, publish, new_event,
}
use momotaro.Ingestion.Submit.{
  ingest_one, set_total, increment_batch_total, submit_new, submit_event, submit_batch,
}
use momotaro.Ingestion.Counting.{valid_count, rejections, keyless}
use momotaro.Ingestion.Listing.{list_batches}
use momotaro.Ingestion.Later.{at_once, event, batch}
use momotaro.Ingestion.Submission.{becomes}
use momotaro.Ingestion.Repeats.{repeat-deduplicated, unpublished-deduplicated}
use momotaro.Ingestion.Batches.{events_of, submit_batch_complete}

abbrev hops : List ProviderHop
hops =
    record { provider = codes "groq"; result = codes "timeout" }
    ∷ record { provider = codes "rules"; result = codes "ok" }
    ∷ []

decode-encode_example : decode (codes "groq:timeout,rules:ok") ≡ inr hops
decode-encode_example =
    decode-encode hops (unfold encode encode_parts has_delimiter contains join in refl)

abbrev at_offset : ℕ → KafkaRecord
at_offset o = record { partition = 0; offset = o }

-- Offsets 5 and 6 are fetched, and 6 is handled before 5.
abbrev fetched : Consumption
fetched = record {
  committer = record {
    tracker = observe (at_offset 6) (observe (at_offset 5) new_commit_tracker);
    commits = [];
    broken = false;
  };
  first = first_fetched (at_offset 6) (first_fetched (at_offset 5) (λ p. none));
  done = λ p. [];
}

abbrev ahead : Consumption
ahead = record fetched {
  committer = record {
    tracker = store 0 (record { next = 5; completed = at_offset 6 ∷ [] }) fetched.committer.tracker;
    commits = [];
    broken = false;
  };
  done = handled (at_offset 6) fetched.done;
}

abbrev caught_up : Consumption
caught_up = record ahead {
  committer = record {
    tracker = store 0 (record { next = 7; completed = [] }) ahead.committer.tracker;
    commits = at_offset 6 ∷ [];
    broken = false;
  };
  done = handled (at_offset 5) ahead.done;
}

caught_up_reached : Consumed (λ r. true) fresh_consumer caught_up
unfolding observe committer_round put_offset advance find_offset delete_offset complete_in complete
    commit_one
caught_up_reached =
    let two = next (next start (fetch (at_offset 5))) (fetch (at_offset 6)) in
    next (next two (finish (at_offset 6) ahead.committer refl))
      (finish (at_offset 5) caught_up.committer refl)

commits-Covers_example : All (Covers caught_up.first caught_up.done) caught_up.committer.commits
commits-Covers_example = commits-Covers (λ r. true) caught_up caught_up_reached

next-IsFirstGap_example :
    (g : Progress) × (caught_up.committer.tracker 0 ≡ some g)
    × IsFirstGap 5 (caught_up.done 0) g.next
next-IsFirstGap_example = next-IsFirstGap (λ r. true) caught_up 0 5 caught_up_reached refl

abbrev invoice : NewRecord
invoice = record {
  type = RecordType.invoice;
  amount_paise = pos 500000;
  currency = [];
  failure_code = codes "BANK_TIMEOUT";
  instrument_ref = codes "card";
  occurred_at = none;
  taxonomy = record { code = []; description = []; source = []; step = []; reason = [] };
}

abbrev nothing : Ingest
nothing = record { batches = []; rows = []; events = []; drawn = 0 }

abbrev ids : ℕ → Uuid
ids n = 100 + n

abbrev live : Bytes
live = codes "live"

abbrev key : Bytes
key = codes "evt_1"

abbrev live_batch : ℕ → BatchRow
live_batch n = record { id = 100; source = live; total_records = n }

abbrev invoice_event : IngestedEvent
invoice_event = new_event 101 100 9 invoice

abbrev accepted : Ingest
accepted = record {
  batches = live_batch 1 ∷ [];
  rows = record { event = invoice_event; idempotency_key = key } ∷ [];
  events = invoice_event ∷ [];
  drawn = 2;
}

first_reply :
    submit_event ids (λ e. true) live 9 (some invoice) key nothing
    ≡ (inr (record { record_id = 101; batch_id = 100; deduplicated = false }), accepted)
unfolding submit_event submit_new ingest_one insert_record publish rolling_batch_id create_batch
    validate_new_record find_by_idempotency_key row_of_key increment_batch_total set_total same
first_reply = refl

-- The same key with another record, an hour later, behind an event with another key.
abbrev an_hour_on : Ingest
an_hour_on = (submit_event ids (λ e. true) live 10 (some invoice) (codes "evt_2") accepted).1

repeat-deduplicated_example :
    submit_event ids
      (λ e. true)
      live
      3600
      (some (record invoice { amount_paise = pos 1 }))
      key
      an_hour_on
    ≡ (inr (record { record_id = 101; batch_id = 100; deduplicated = true }), an_hour_on)
repeat-deduplicated_example =
    repeat-deduplicated ids live (λ e. true) (λ e. true) 9 3600 invoice
      (record invoice { amount_paise = pos 1 }) key nothing accepted an_hour_on
      (record { record_id = 101; batch_id = 100; deduplicated = false }) refl first_reply
      (event at_once (λ e. true) 10 (some invoice) (codes "evt_2"))

-- The row is stored, and its event is not published.
abbrev stranded : Ingest
stranded = record accepted { batches = live_batch 0 ∷ []; events = [] }

failed_reply :
    submit_event ids (λ e. false) live 9 (some invoice) key nothing ≡ (inl publish_failed, stranded)
unfolding submit_event submit_new ingest_one insert_record publish rolling_batch_id create_batch
    validate_new_record find_by_idempotency_key row_of_key increment_batch_total set_total same
failed_reply = refl

-- Between the failure and the retry another event is accepted and a batch is submitted.
abbrev meanwhile : Ingest
meanwhile =
    (submit_batch ids (λ e. true) 20 live (invoice ∷ [])
      (submit_event ids (λ e. true) live 10 (some invoice) (codes "evt_2") stranded).1).1

unpublished-deduplicated_example :
    let e = becomes ids live 9 invoice nothing in
    (stranded.rows ≡ [] ++ (record { event = e; idempotency_key = key } ∷ []))
    × (stranded.events ≡ [])
    × (submit_event ids (λ e. true) live 3600 (some invoice) key meanwhile ≡ (
      inr (record { record_id = e.record_id; batch_id = e.batch_id; deduplicated = true }),
      meanwhile,
    ))
unpublished-deduplicated_example =
    unpublished-deduplicated ids live (λ e. false) (λ e. true) 9 3600 invoice invoice key nothing
      stranded meanwhile refl failed_reply
      (batch (event at_once (λ e. true) 10 (some invoice) (codes "evt_2")) (λ e. true) 20 live
        (invoice ∷ []))

abbrev two_records : List NewRecord
two_records = invoice ∷ record invoice { amount_paise = pos 0 } ∷ []

submit_batch_complete_example :
    let (out, s') = submit_batch ids (λ e. true) 9 live two_records nothing in
    let es = events_of ids 9 100 1 two_records in
    (out
      ≡ inr (record {
        batch_id = 100;
        accepted_count = valid_count two_records;
        rejected = rejections 0 two_records;
      }))
    × (valid_count two_records + length (rejections 0 two_records) ≡ length two_records)
    × (length es ≡ valid_count two_records)
    × (s'.rows ≡ [] ++ map keyless es)
    × (s'.events ≡ [] ++ es)
submit_batch_complete_example =
    submit_batch_complete ids (λ e. true) 9 live invoice
      (record invoice { amount_paise = pos 0 } ∷ []) nothing (λ e. refl)

-- Two batches are listed with the newer one first, and one of them under a limit of one.
listed :
    (list_batches (pos 0) (record nothing { batches = live_batch 1 ∷ live_batch 2 ∷ [] })
      ≡ live_batch 2 ∷ live_batch 1 ∷ [])
    × (list_batches (pos 1) (record nothing { batches = live_batch 1 ∷ live_batch 2 ∷ [] })
        ≡ live_batch 2 ∷ [])
unfolding list_batches
listed = (refl, refl)
