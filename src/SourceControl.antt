-- ===== src/SourceControl.antt =====
-- The GitHub client of app/integrations/source_control/github.py, and the branch of the callback in
-- app/api/routes/auth.py that installs the app for a user. What GitHub answers is a parameter.
pub mod Pages
pub mod Download
pub mod Install
mod Tests
use Prim.Native.Char.{code}
use showcase_host.Prelude.{
  ℕ, zero, suc, ◌+◌, String, Bool, true, false, not, ◌||◌, ◌&&◌, Option, none, some, List, [], ◌∷◌,
  ◌++◌, map, ltb, leb, ◌==◌, if◌then◌else◌, any, find, length, str_append, str_of, str_len, str_eq,
}
use showcase_host.Prelude.Results.{Result, ok, err, ◌>>=◌}
use showcase_host.Snapshots.{has_char}
use showcase_host.Repositories.{Installation, SourceRepository, Tables, synchronize_installation}

pub record SourceControlError : Type 0 where
  pub code : String
  pub message : String
  pub transient : Bool

-- A response with its status and what is read of it, or an `httpx.HTTPError`.
pub data Reply (A : Type 0) : Type 0 where
  response : ℕ → A → Reply A
  network_failure : Reply A

abbrev pub permanent : String → String → SourceControlError
permanent code message = record { code = code; message = message; transient = false }

abbrev is_rate_limit : ℕ → Bool
is_rate_limit status = status == 403 || status == 429

abbrev http_error : ℕ → SourceControlError
http_error status = record {
  code = if is_rate_limit status then "github_rate_limited" else "github_api_error";
  message = str_append "GitHub returned HTTP " (str_of status);
  transient = is_rate_limit status || leb 500 status;
}

-- `_request`, of GitHub's answer.
unfoldable pub request : {A : Type 0} → Reply A → Result SourceControlError (ℕ × A)
request network_failure =
    err (record {
      code = "github_network_error";
      message = "GitHub request failed";
      transient = true;
    })
request (response status body) =
    if leb 400 status then err (http_error status) else ok (status, body)

module _ {A : Type 0} (per_page : ℕ) (page_at : ℕ → Reply (List A)) where
  -- The loop of `_paginate` from a page on, for at most `fuel` pages; none if there are more.
  unfoldable pub paginate_from : ℕ → ℕ → List A → Result SourceControlError (Option (List A))
  unfolding request
  paginate_from zero page items = ok none
  paginate_from (suc fuel) page items = request (page_at page) >>= λ (status, batch).
      let rest = paginate_from fuel (page + 1) (items ++ batch) in
      if ltb (length batch) per_page then ok (some (items ++ batch)) else rest

  unfoldable pub paginate : ℕ → Result SourceControlError (Option (List A))
  unfolding paginate_from
  paginate fuel = paginate_from fuel 1 []

-- `resolve_default_branch_sha`, where `lower` is `str.lower`.
abbrev is_hex : String → Bool
is_hex String.[] = true
is_hex (String.◌∷◌ c s) = has_char (code c) "0123456789abcdef" && is_hex s

unfoldable pub resolve_sha : (String → String) → Reply String → Result SourceControlError String
unfolding request
resolve_sha lower reply = request reply >>= λ (status, sha).
    if not (str_len sha == 40) || not (is_hex (lower sha))
    then err (permanent "invalid_commit_sha" "GitHub returned an invalid commit SHA")
    else ok sha

-- The answer to the download: its chunks, and whether the stream breaks after them.
pub record Stream : Type 0 where
  pub chunks : List (List ℕ)
  pub breaks : Bool

abbrev pub too_large : SourceControlError
too_large = permanent "archive_too_large" "Repository archive exceeds limit"

abbrev download_failed : SourceControlError
download_failed = record {
  code = "archive_download_failed";
  message = "Archive download failed";
  transient = true;
}

-- The loop over the chunks: the size or the error, and what has been written.
unfoldable pub write_chunks :
    ℕ → Bool → List (List ℕ) → ℕ → List ℕ → Result SourceControlError ℕ × List ℕ
write_chunks max_bytes breaks [] size written =
    (if breaks then err download_failed else ok size, written)
write_chunks max_bytes breaks (chunk ∷ chunks) size written =
    let rest = write_chunks max_bytes breaks chunks (size + length chunk) (written ++ chunk) in
    if ltb max_bytes (size + length chunk) then (err too_large, written) else rest

abbrev status_error : ℕ → SourceControlError
status_error status = record {
  code = "archive_download_failed";
  message = str_append "GitHub archive download returned HTTP " (str_of status);
  transient = leb 500 status;
}

unfoldable pub read_stream : ℕ → Reply Stream → Result SourceControlError ℕ × List ℕ
unfolding write_chunks
read_stream max_bytes network_failure = (err download_failed, [])
read_stream max_bytes (response code stream) =
    if leb 400 code
    then (err (status_error code), [])
    else write_chunks max_bytes stream.breaks stream.chunks 0 []

abbrev pub is_redirect : ℕ → Bool
is_redirect status = any (λ s. s == status) (301 ∷ 302 ∷ 303 ∷ 307 ∷ 308 ∷ [])

abbrev missing_redirect : SourceControlError
missing_redirect = permanent "archive_redirect_missing" "GitHub archive URL was not returned"

abbrev pub follow :
    ℕ
    → (String → Reply Stream)
    → Result SourceControlError (ℕ × Option String)
    → Result SourceControlError ℕ × List ℕ
follow max_bytes stream_at (err e) = (err e, [])
follow max_bytes stream_at (ok (status, none)) = (err missing_redirect, [])
follow max_bytes stream_at (ok (status, some location)) =
    if is_redirect status && not (str_eq location "")
    then read_stream max_bytes (stream_at location)
    else (err missing_redirect, [])

-- `download_archive`, where the first answer has the header `location`.
unfoldable pub download_archive :
    ℕ → (String → Reply Stream) → Reply (Option String) → Result SourceControlError ℕ × List ℕ
unfolding request read_stream
download_archive max_bytes stream_at reply = follow max_bytes stream_at (request reply)

-- `get_user_installation`, of the installations that were listed.
unfoldable pub find_installation : ℕ → List Installation → Result SourceControlError Installation
find_installation id installations = elim (find (λ (i : Installation). i.id == id) installations) [
  | none ↦ err (permanent "installation_forbidden" "GitHub installation is not accessible")
  | some i ↦ ok i
]

-- An `HTTPException` of the callback, or an error of the client.
pub data InstallError : Type 0 where
  invalid_flow wrong_account : InstallError
  source_control : SourceControlError → InstallError

abbrev pub from_github : {A : Type 0} → Result SourceControlError A → Result InstallError A
from_github (ok a) = ok a
from_github (err e) = err (source_control e)

-- The flow's user is in the table, and has the account's id.
abbrev pub is_account : Option ℕ → ℕ → Bool
is_account none id = false
is_account (some n) id = n == id

module _ (fuel : ℕ) (installations_at : ℕ → Reply (List Installation))
    (repositories_at : ℕ → ℕ → Reply (List SourceRepository)) where
  abbrev pub with_repositories :
      ℕ → Installation → Tables → Option (List SourceRepository) → Option Tables
  with_repositories user installation t none = none
  with_repositories user installation t (some sources) =
      some (synchronize_installation user installation sources t)

  abbrev pub with_installations :
      ℕ → ℕ → Tables → Option (List Installation) → Result InstallError (Option Tables)
  with_installations user installation_id t none = ok none
  with_installations user installation_id t (some installations) =
      from_github (find_installation installation_id installations) >>= λ installation.
      from_github (paginate 100 (repositories_at installation_id) fuel) >>= λ sources.
      ok (with_repositories user installation t sources)

  -- The branch for `install_verify`: the flow's user and installation, the GitHub id of the flow's user in
  -- the table, and the GitHub id of the account that has signed in.
  unfoldable pub install :
      Option ℕ → Option ℕ → (ℕ → Option ℕ) → ℕ → Tables → Result InstallError (Option Tables)
  unfolding find_installation paginate
  install none installation_id github_id_of source_user t = err invalid_flow
  install (some user) none github_id_of source_user t = err invalid_flow
  install (some user) (some installation_id) github_id_of source_user t =
      if is_account (github_id_of user) source_user
      then from_github (paginate 100 installations_at fuel)
        >>= with_installations user installation_id t
      else err wrong_account
