-- ===== src/Network.antt =====
-- What kind of failure an exception is: tikrec/network_errors.py. The exceptions that the code tells
-- apart are constructors; a date in a header is read by a function of its text.
pub mod Outages
mod Tests
use tik_rec.Base.{
  ℕ, ◌+◌, ◌-◌, ◌*◌, ◌^◌, Bool, true, false, not, ◌&&◌, ◌||◌, Option, none, some, List, [], ◌∷◌, ltb,
  leb, ◌==◌, length, if◌then◌else◌, is_nil,
}
use tik_rec.Text.{Text, codes, text_in}
use tik_rec.Identity.{is_digit, all_chars}

-- `kind` of a temporary failure of the resolver: a text, or another value
pub data Failing : Type 0 where
  capture_stopped keyboard_interrupt offline live_changed : Failing
  http : ℕ → Option Text → Failing
  url_error : Failing → Failing
  resolution_transient : Option Text → Option ℕ → Failing
  resolution gaierror timeout connection incomplete_read eof : Failing
  -- errno, winerror, and whether the class is `OSError` itself
  os_error : Option ℕ → Option ℕ → Bool → Failing
  -- failures of the media source, with the exception behind them
  source_network source_refresh : Bool → Failing → Failing
  file_exists other_error : Failing

pub data Category : Type 0 where
  stop terminal transient malformed local : Category

-- `FailureClassification`
pub record FailureClassification : Type 0 where
  pub category : Category
  pub reason : Text
  pub retry_after : Option ℕ

abbrev pub classified : Category → Text → Option ℕ → FailureClassification
classified category reason hint = record {
  category = category;
  reason = reason;
  retry_after = hint;
}

-- `str.isspace` below 256
abbrev pub is_space : ℕ → Bool
is_space c = (leb 9 c && leb c 13) || ((leb 28 c && leb c 32) || (c == 133 || c == 160))

unfoldable pub lstrip : Text → Text
lstrip [] = []
lstrip (c ∷ s) = if is_space c then lstrip s else c ∷ s

abbrev pub unless_space : ℕ → Text → Text
unless_space c [] = if is_space c then [] else c ∷ []
unless_space c (d ∷ s) = c ∷ d ∷ s

unfoldable pub rstrip : Text → Text
rstrip [] = []
rstrip (c ∷ s) = unless_space c (rstrip s)

unfoldable pub number_from : ℕ → Text → ℕ
number_from n [] = n
number_from n (c ∷ s) = number_from (n * 10 + (c - b'0')) s

-- `_retry_after` of a header that is a text; `dates` gives the seconds until a date, at least none.
unfoldable pub retry_after : (Text → Option ℕ) → Text → Option ℕ
unfolding lstrip rstrip number_from
retry_after dates value =
    let v = rstrip (lstrip value) in
    if not (is_nil v) && all_chars is_digit v
    then some (if ltb (length v) 10 then number_from 0 v else 10 ^ 9)
    else dates v

abbrev pub hint_of : (Text → Option ℕ) → Option Text → Option ℕ
hint_of dates none = none
hint_of dates (some value) = retry_after dates value

unfoldable pub is_retryable_status : ℕ → Bool
is_retryable_status code =
    code == 408 || (code == 425 || (code == 429 || (leb 500 code && leb code 599)))

abbrev pub number_in : ℕ → List ℕ → Bool
number_in n [] = false
number_in n (x ∷ xs) = n == x || number_in n xs

abbrev pub code_in : List ℕ → Option ℕ → Bool
code_in codes none = false
code_in codes (some n) = number_in n codes

-- ENETDOWN, ENETUNREACH, EHOSTUNREACH, ECONNRESET, ECONNABORTED, ECONNREFUSED, ETIMEDOUT and EPIPE of
-- Linux
abbrev pub network_codes : List ℕ
network_codes = 100 ∷ 101 ∷ 113 ∷ 104 ∷ 103 ∷ 111 ∷ 110 ∷ 32 ∷ []

abbrev pub windows_codes : List ℕ
windows_codes = 10050 ∷ 10051 ∷ 10053 ∷ 10054 ∷ 10060 ∷ 10061 ∷ 10065 ∷ 11001 ∷ 11002 ∷ []

abbrev pub no_code : Option ℕ → Bool
no_code none = true
no_code (some n) = false

-- The end of the branch for an OSError
unfoldable pub classify_os : Bool → Option ℕ → Option ℕ → Bool → FailureClassification
classify_os transport errno winerror bare =
    if code_in network_codes errno || code_in windows_codes winerror
    then classified transient (codes "connection") none
    else if transport && (bare && no_code errno)
    then classified transient (codes "network") none
    else classified local (codes "local_failure") none

abbrev pub known_kinds : List Text
known_kinds =
    codes "dns" ∷ codes "timeout" ∷ codes "connection" ∷ codes "http" ∷ codes "network" ∷ []

abbrev pub kind_or_network : Option Text → Text
kind_or_network none = codes "network"
kind_or_network (some kind) = if text_in kind known_kinds then kind else codes "network"

-- `classify_failure`
unfoldable pub classify_failure : (Text → Option ℕ) → Bool → Failing → FailureClassification
unfolding retry_after is_retryable_status classify_os
classify_failure dates transport capture_stopped = classified stop (codes "user_stop") none
classify_failure dates transport keyboard_interrupt = classified stop (codes "user_stop") none
classify_failure dates transport offline = classified terminal (codes "room_ended") none
classify_failure dates transport live_changed = classified terminal (codes "live_changed") none
classify_failure dates transport (http code header) =
    classified (if is_retryable_status code then transient else malformed) (codes "http")
      (hint_of dates header)
classify_failure dates transport (url_error reason) = classify_failure dates transport reason
classify_failure dates transport (resolution_transient kind hint) =
    classified transient (kind_or_network kind) hint
classify_failure dates transport gaierror = classified transient (codes "dns") none
classify_failure dates transport timeout = classified transient (codes "timeout") none
classify_failure dates transport connection = classified transient (codes "connection") none
classify_failure dates transport incomplete_read = classified transient (codes "connection") none
classify_failure dates transport eof = classified transient (codes "connection") none
classify_failure dates transport (os_error errno winerror bare) =
    classify_os transport errno winerror bare
classify_failure dates transport resolution = classified malformed (codes "resolution") none
classify_failure dates transport _ = classified local (codes "local_failure") none
