-- ===== src/Examples/Resume/Client.antt =====
-- The download of examples/http_resume_stream/main.go: what is sent, received and stored in an
-- attempt, the run of the attempts by resile.DoErr, and the final validation.
use resile.Context.{background}
use resile.Errors.{Err, sentinel, user}
use resile.Float.{Float}
use resile.Pipeline.Config.{Config, millisecond}
use resile.Pipeline.World.{World, DoAction}
use resile.Pipeline.Entry.{do_err_state}
use resile.Pipeline.Options.{with_name, with_max_attempts, with_backoff}
use resile.Retry.Backoff.{full_jitter}
use resile.Retry.Loop.{Outcome, returned}
use resile.Examples.Resume.Range.{range_header}
use resile.Examples.Resume.Server.{
  Response, Luck, handle, status_ok, status_partial_content, file_content,
}
use resile.Prelude.{
  ℕ, ◌+◌, ◌*◌, pos, Bool, true, false, ◌&&◌, Option, none, some, List, [], ◌∷◌, ◌++◌, length, take,
  ltb, ◌==◌, if◌then◌else◌,
}

-- The variables of main, the file on the disk, and the number of requests so far.
pub record Client : Type 0 where
  pub bytes_received : ℕ
  pub file : Option (List ℕ)
  pub requests : ℕ

-- What package net/http, package io and the disk do, by the number of the request: the errors of
-- NewRequestWithContext, of the client's Do and of OpenFile, what the handler finds, how many bytes
-- of the response io.Copy stores and its error, and the time that the attempt takes.
pub record Environment : Type 0 where
  pub request_error : ℕ → Option Err
  pub do_error : ℕ → Option Err
  pub luck : ℕ → Luck
  pub open_error : ℕ → Option Err
  pub copied : ℕ → Response → ℕ × Option Err
  pub time : ℕ → ℕ

-- fmt.Errorf("unexpected status code: %d").
abbrev pub unexpected_status : ℕ → Err
unexpected_status status = sentinel (user status)

abbrev pub or_nothing : Option (List ℕ) → List ℕ
or_nothing none = []
or_nothing (some bytes) = bytes

module _ (env : Environment) (content : List ℕ) where
  -- io.Copy to the file, which holds `before`.
  abbrev pub copy : ℕ → Response → List ℕ → Client → Option Err × Client
  copy i response before c =
      let (n, err) = env.copied i response in
      (
        err,
        record c {
          bytes_received = c.bytes_received + n;
          file = some (before ++ take n response.body);
        },
      )

  -- OpenFile, with O_TRUNC or with O_APPEND.
  abbrev pub store : Bool → ℕ → Response → Client → Option Err × Client
  store truncates i response c = elim (env.open_error i) [
    | some e ↦ (some e, c)
    | none ↦ copy i response (if truncates then [] else or_nothing c.file) c
  ]

  abbrev pub on_status : ℕ → ℕ → Response → Client → Option Err × Client
  on_status status i response c =
      if status == status_ok
      then store true i response
          (record c { bytes_received = if ltb 0 c.bytes_received then 0 else c.bytes_received })
      else if status == status_partial_content
      then store false i response c
      else (some (unexpected_status status), c)

  unfoldable pub receive : ℕ → Response → Client → Option Err × Client
  receive i response c = on_status response.status i response c

  -- The closure that DoErr is given.
  unfoldable pub download : Client → Option Err × Client
  unfolding receive handle range_header
  download c =
      let i = c.requests in
      let c' = record c { requests = i + 1 } in
      elim (env.request_error i) [
        | some e ↦ (some e, c')
        | none ↦ elim (env.do_error i) [
          | some e ↦ (some e, c')
          | none ↦ receive i (handle (env.luck i) content (range_header c.bytes_received)) c'
        ]
      ]

  module _ {F V : Type 0} where
    abbrev pub action : DoAction F V Client
    action ctx st w =
        let (err, c) = download w.user in
        (returned err, record w { user = c; clock = w.clock + env.time w.user.requests })

abbrev pub resume_options : {F V : Type 0} → List (Config F V → Config F V)
resume_options =
    with_name "http-resume"
    ∷ with_max_attempts 15
    ∷ with_backoff (full_jitter (pos (100 * millisecond)) (pos (1000 * millisecond)))
    ∷ []

abbrev pub clean : Client
clean = record { bytes_received = 0; file = none; requests = 0 }

-- main up to the validation, for a file of this size.
unfoldable pub run :
    {F V : Type 0} → ⦃f : Float F⦄ → Environment → ℕ → World F V Client → Outcome × World F V Client
unfolding download do_err_state with_name with_max_attempts with_backoff
run env size w =
    do_err_state resume_options background (action env (file_content size))
      (record w { user = clean })

-- bytes.Equal.
abbrev pub equal : List ℕ → List ℕ → Bool
equal [] [] = true
equal (a ∷ xs) (b ∷ ys) = a == b && equal xs ys
equal _ _ = false

-- What main prints at the end.
pub data Verdict : Type 0 where
  read_error size_mismatch content_mismatch integrity_verified : Verdict

abbrev pub validate : ℕ → Option (List ℕ) → Verdict
validate size none = read_error
validate size (some downloaded) =
    if length downloaded == size
    then (if equal downloaded (file_content size) then integrity_verified else content_mismatch)
    else size_mismatch
