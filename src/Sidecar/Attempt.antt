-- ===== src/Sidecar/Attempt.antt =====
-- An attempt whose writer is that of the file system: what the worker leaves on the disk and in the
-- provenance table.
use mathlib.Core.Option
use versarr.Base.{FilePath, String, ap, arith, inl, inr, some, true, ◌≡◌, ◌≢◌}
use versarr.Domain.{
  EnrichmentJob, ProcessingOutcome, ProviderResult, Result-cases, TrackSnapshot, ok,
}
use versarr.Processor.Attempt.{process_job}
use versarr.Processor.Inputs.{Inputs, Services, SidecarWriteResult, with_lrc}
use versarr.Processor.Monad.{World}
use versarr.Processor.Outcomes.{written-get_provenance}
use versarr.Provenance.{get_provenance}
use versarr.Settings.{Settings}
use versarr.Sidecar.{Calls, Disk, stored, write_sync}
use versarr.Sidecar.Success.{write_sync-stored}
use versarr.Sidecar.Writes.{IsPayload}

-- The inputs of an attempt with this writer, which starts from this disk.
abbrev pub with_writer : Calls → Services → FilePath → Disk → Inputs → Inputs
with_writer c services temp disk inputs = record inputs {
  write = λ path text. (write_sync c services path temp text disk).0;
}

module _ (services : Services) (settings : Settings) (inputs : Inputs) (job : EnrichmentJob) where
  -- A write that is reported has succeeded.
  written-ok :
      (o : ProcessingOutcome) (result : ProviderResult) (text : String) (sidecar : FilePath)
      (w w' : World)
      → process_job services settings inputs job w ≡ (ok o, w')
      → inputs.answer ≡ ok result
      → result.lyrics_text ≡ some text
      → with_lrc job.media_path ≡ ok sidecar
      → o.wrote_sidecar ≡ true
      → (done : SidecarWriteResult) × (inputs.write sidecar (services.normalize_lyrics_text text)
          ≡ ok done)
  unfolding process_job
  written-ok o result text sidecar w w' h a t l wrote =
      elim (Result-cases (inputs.write sidecar (services.normalize_lyrics_text text))) [
        | inl found ↦ found
        | inr (e, raises) ↦ absurd (ground arith)
      ]

  -- A write that is reported has read a snapshot.
  written-snapshot :
      (o : ProcessingOutcome) (w w' : World)
      → process_job services settings inputs job w ≡ (ok o, w')
      → (s : TrackSnapshot) × (inputs.snapshot ≡ ok s)
  unfolding process_job
  written-snapshot o w w' h = elim (Result-cases inputs.snapshot) [
    | inl found ↦ found
    | inr (e, raises) ↦ absurd (ground arith)
  ]

-- An attempt with the file system's writer that reports a written sidecar has left on the disk the
-- whole encoded form of the lyrics, normalised once by the attempt and once by the writer, and the
-- track's provenance record has the hash of that text, where the temporary path is another one.
pub process_job-write_sync :
    (services : Services) (settings : Settings) (inputs : Inputs) (job : EnrichmentJob) (c : Calls)
    (temp : FilePath) (disk : Disk) (o : ProcessingOutcome) (result : ProviderResult)
    (text : String) (sidecar : FilePath) (w w' : World)
    → process_job services settings (with_writer c services temp disk inputs) job w ≡ (ok o, w')
    → inputs.answer ≡ ok result
    → result.lyrics_text ≡ some text
    → with_lrc job.media_path ≡ ok sidecar
    → sidecar ≢ temp
    → o.wrote_sidecar ≡ true
    → let lyrics = services.normalize_lyrics_text text in
      (payload : String) × IsPayload c services lyrics payload
      × ((write_sync c services sidecar temp lyrics disk).1 sidecar ≡ some payload)
      × (Option.map (λ p. p.normalized_lyrics_hash) (get_provenance job.media_path w'.db.provenance)
          ≡ some (services.hash_normalized_lyrics (services.normalize_lyrics_text lyrics)))
process_job-write_sync services settings inputs job c temp disk o result text sidecar w w' h a t l
      apart wrote =
    let inputs' = with_writer c services temp disk inputs in
    let lyrics = services.normalize_lyrics_text text in
    let (done, d) =
      written-ok services settings inputs' job o result text sidecar w w' h a t l wrote in
    let (s, es) = written-snapshot services settings inputs' job o w w' h in
    let (payload, encoded, stored, _, same) =
      write_sync-stored c services sidecar temp lyrics disk apart done d in
    let recorded =
      written-get_provenance services settings inputs' job o s result text sidecar done w w' h es a
        t l d wrote in
    (
      payload,
      encoded,
      stored,
      rw recorded (ap (λ (x : SidecarWriteResult). some x.normalized_hash) same),
    )
