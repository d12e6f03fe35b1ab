-- ===== src/SourceControl/Download.antt =====
-- The bounds and the content of a downloaded archive.
use showcase_host.Prelude.{
  ◌≢◌, ◌<◌, str_eq_iff, subst, ℕ, ◌+◌, ◌≤◌, Bool, true, false, ◌⊎◌, inl, inr, Option, none, some,
  String, List, [], ◌∷◌, ◌++◌, ◌≡◌, refl, ap, sym, length, append-nil, append_assoc, ltb, leb,
  Bool-cases, arith, not, ◌&&◌, str_eq,
}
use showcase_host.Prelude.Results.{Result, ok, err}
use showcase_host.SourceControl.{
  Reply, response, network_failure, Stream, SourceControlError, request, is_redirect, write_chunks,
  read_stream, follow, download_archive,
}

-- All chunks, one after the other.
abbrev pub joined : List (List ℕ) → List ℕ
joined [] = []
joined (chunk ∷ chunks) = chunk ++ joined chunks

length-append : (xs ys : List ℕ) → length (xs ++ ys) ≡ length xs + length ys
length-append [] ys = omega arith
length-append (x ∷ xs) ys = omega (arith, length-append xs ys)

-- The answer redirects to an address: it has a status of these, and the header.
pub record IsRedirect (reply : Reply (Option String)) (location : String) : Type 0 where
  pub code : ℕ
  pub answered : reply ≡ response code (some location)
  pub redirects : (code ≡ 301) ⊎ ((code ≡ 302) ⊎ ((code ≡ 303) ⊎ ((code ≡ 307) ⊎ (code ≡ 308))))
  pub some_address : location ≢ ""

-- The file is a whole stream from the address that the answer redirects to; its size is returned.
pub record IsComplete (stream_at : String → Reply Stream) (reply : Reply (Option String))
    (r : Result SourceControlError ℕ × List ℕ) : Type 0 where
  pub location : String
  pub redirected : IsRedirect reply location
  pub status : ℕ
  pub stream : Stream
  pub served : stream_at location ≡ response status stream
  pub accepted : status < 400
  pub unbroken : stream.breaks ≡ false
  pub content : r.1 ≡ joined stream.chunks
  pub size : r.0 ≡ ok (length r.1)

pub record IsDownloaded (max_bytes : ℕ) (stream_at : String → Reply Stream)
    (reply : Reply (Option String)) (r : Result SourceControlError ℕ × List ℕ) : Type 0 where
  pub within : length r.1 ≤ max_bytes
  pub outcome : ((e : SourceControlError) × (r.0 ≡ err e)) ⊎ IsComplete stream_at reply r

-- What the loop returns, if the content is that of all chunks.
abbrev IsWritten : ℕ → Bool → List ℕ → Result SourceControlError ℕ × List ℕ → Type 0
IsWritten max_bytes breaks content r =
    (length r.1 ≤ max_bytes)
    × (((e : SourceControlError) × (r.0 ≡ err e))
        ⊎ ((breaks ≡ false) × (r.1 ≡ content) × (r.0 ≡ ok (length r.1))))

module _ (max_bytes : ℕ) where
  write_chunks-IsWritten :
      (breaks : Bool) (chunks : List (List ℕ)) (size : ℕ) (written : List ℕ)
      → size ≡ length written
      → size ≤ max_bytes
      → IsWritten max_bytes breaks
          (written ++ joined chunks)
          (write_chunks max_bytes breaks chunks size written)
  unfolding write_chunks
  write_chunks-IsWritten true [] size written same within =
      (omega (arith, same, within), inl (_, refl))
  write_chunks-IsWritten false [] size written same within =
      (omega (arith, same, within), inr (refl, sym (append-nil written), ap ok same))
  write_chunks-IsWritten breaks (chunk ∷ chunks) size written same within =
      elim (Bool-cases (ltb max_bytes (size + length chunk))) [
        | inl over ↦ rw over (omega (arith, same, within), inl (_, refl))
        | inr fits ↦ rw fits (
            subst
              (λ l.
                IsWritten max_bytes breaks l
                  (write_chunks max_bytes breaks chunks (size + length chunk) (written ++ chunk)))
              (append_assoc written chunk (joined chunks))
              (write_chunks-IsWritten breaks chunks (size + length chunk) (written ++ chunk)
                (omega (arith, same, length-append written chunk)) (ground arith)))
      ]

response-IsRedirect :
    (code : ℕ) (location : String)
    → is_redirect code && not (str_eq location "") ≡ true
    → IsRedirect (response code (some location)) location
response-IsRedirect code location e = record {
  code = code;
  answered = refl;
  redirects = ground (arith, e);
  some_address = λ empty. ground (arith, e, (str_eq_iff location "").1 empty);
}

module _ (max_bytes : ℕ) (stream_at : String → Reply Stream) (reply : Reply (Option String)) where
  failed-IsDownloaded :
      (e : SourceControlError) → IsDownloaded max_bytes stream_at reply (err e, [])
  failed-IsDownloaded e = record { within = omega arith; outcome = inl (e, refl) }

  read_stream-IsDownloaded :
      (location : String) (answer : Reply Stream)
      → IsRedirect reply location
      → stream_at location ≡ answer
      → IsDownloaded max_bytes stream_at reply (read_stream max_bytes answer)
  unfolding read_stream
  read_stream-IsDownloaded location network_failure redirect e = failed-IsDownloaded _
  read_stream-IsDownloaded location (response status stream) redirect e =
      elim (Bool-cases (leb 400 status)) [
        | inl failed ↦ rw failed (failed-IsDownloaded _)
        | inr fine ↦ rw fine (
            let (within, outcome) =
              write_chunks-IsWritten max_bytes stream.breaks stream.chunks 0 [] refl
                (omega arith) in
            record {
              within = within;
              outcome = elim outcome [
                | inl fails ↦ inl fails
                | inr whole ↦ inr (record {
                  location = location;
                  redirected = redirect;
                  status = status;
                  stream = stream;
                  served = e;
                  accepted = ground (arith, fine);
                  unbroken = whole.0;
                  content = whole.1;
                  size = whole.2;
                })
              ];
            })
      ]

module _ (max_bytes : ℕ) (stream_at : String → Reply Stream) where
  follow-IsDownloaded :
      (code : ℕ) (header : Option String)
      → IsDownloaded max_bytes stream_at
          (response code header)
          (follow max_bytes stream_at (ok (code, header)))
  follow-IsDownloaded code none = failed-IsDownloaded max_bytes stream_at (response code none) _
  follow-IsDownloaded code (some location) =
      elim (Bool-cases (is_redirect code && not (str_eq location ""))) [
        | inl redirected ↦ rw redirected (
            read_stream-IsDownloaded max_bytes stream_at (response code (some location)) location
              (stream_at location) (response-IsRedirect code location redirected) refl)
        | inr other ↦
            rw other (failed-IsDownloaded max_bytes stream_at (response code (some location)) _)
      ]

  -- However the download ends, no more than max_bytes are written. If it returns, then the answer was a
  -- redirect to an address, the file is the whole of an unbroken stream from this address, and its size is
  -- returned.
  pub download_archive-IsDownloaded :
      (reply : Reply (Option String))
      → IsDownloaded max_bytes stream_at reply (download_archive max_bytes stream_at reply)
  unfolding download_archive request
  download_archive-IsDownloaded network_failure =
      failed-IsDownloaded max_bytes stream_at network_failure _
  download_archive-IsDownloaded (response code header) = elim (Bool-cases (leb 400 code)) [
    | inl bad ↦ rw bad (failed-IsDownloaded max_bytes stream_at (response code header) _)
    | inr fine ↦ rw fine (follow-IsDownloaded code header)
  ]
