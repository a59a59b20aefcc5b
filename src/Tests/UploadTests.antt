-- ===== src/Tests/UploadTests.antt =====
-- An upload at concrete inputs.
use bosun_midi_captain.Base.{refl, arith, List, [], ◌∷◌}
use bosun_midi_captain.Update.Upload.{
  Job, uploading, no_fault, write_stops, store_chunk, append_chunk,
}
use bosun_midi_captain.Update.Upload.Storage.{
  Attempt, attempt, attempts, Holds, IsStored, store_chunk-durable,
}

abbrev job : Job
job = record { job = "0123"; phase = uploading; size = 4; received = 1 }

abbrev first_chunk : Attempt
first_chunk = record { fault = no_fault; offset = 1; content = 8 ∷ (9 ∷ []) }

-- A write that is torn, and a retry of the first chunk.
abbrev later : List Attempt
later = record { fault = write_stops 1; offset = 3; content = 5 ∷ [] } ∷ (first_chunk ∷ [])

store_chunk-durable_example :
    Holds first_chunk (attempts later (attempt first_chunk (job, 7 ∷ [])))
    × IsStored (attempts later (attempt first_chunk (job, 7 ∷ [])))
unfolding store_chunk append_chunk
store_chunk-durable_example =
    store_chunk-durable first_chunk later job (record job { received = 3 }) (7 ∷ []) (omega arith)
      refl
