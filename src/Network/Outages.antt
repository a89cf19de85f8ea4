-- ===== src/Network/Outages.antt =====
-- Which exceptions count as an outage (tikrec/network_errors.py).
use tik_rec.Base.{
  ℕ, ◌≡◌, subst, ◌==◌, ==→eq, ◌↔◌, refl, sym, ap, ◌⊎◌, ◌≤◌, Bool, true, false, ◌||◌, ◌&&◌, Option,
  none, some, arith, if◌then◌else◌,
}
use tik_rec.Text.{Text, codes}
use tik_rec.Network.{
  Failing, capture_stopped, keyboard_interrupt, offline, live_changed, http, url_error,
  resolution_transient, resolution, gaierror, timeout, connection, incomplete_read, eof, os_error,
  source_network, source_refresh, file_exists, other_error, transient, malformed, local, classified,
  is_retryable_status, number_in, code_in, network_codes, windows_codes, no_code, classify_os,
  classify_failure,
}

-- A status of HTTP that asks to come back later
abbrev pub IsLater : ℕ → Type 0
IsLater n = (n ≡ 408) ⊎ (n ≡ 425) ⊎ (n ≡ 429) ⊎ ((500 ≤ n) × (n ≤ 599))

-- The numbers of Linux for a network that is down or out of reach, a host out of reach, a connection
-- that was aborted, reset or refused, a time that is over, and a pipe that is broken
pub data IsNetworkNumber : ℕ → Type 0 where
  network_down : IsNetworkNumber 100
  network_unreachable : IsNetworkNumber 101
  host_unreachable : IsNetworkNumber 113
  connection_aborted : IsNetworkNumber 103
  connection_reset : IsNetworkNumber 104
  connection_refused : IsNetworkNumber 111
  timed_out : IsNetworkNumber 110
  broken_pipe : IsNetworkNumber 32

-- The same of Windows, with a name that is not found, for ever or for now
pub data IsWindowsNumber : ℕ → Type 0 where
  network_down : IsWindowsNumber 10050
  network_unreachable : IsWindowsNumber 10051
  connection_aborted : IsWindowsNumber 10053
  connection_reset : IsWindowsNumber 10054
  timed_out : IsWindowsNumber 10060
  connection_refused : IsWindowsNumber 10061
  host_unreachable : IsWindowsNumber 10065
  name_unknown : IsWindowsNumber 11001
  name_unknown_yet : IsWindowsNumber 11002

network_number : (n : ℕ) → number_in n network_codes ≡ true → IsNetworkNumber n
network_number n h =
    by_test (n == 100) refl (n == 101) refl (n == 113) refl (n == 104) refl (n == 103) refl
      (n == 111) refl (n == 110) refl (n == 32) refl h
  where
    by_test :
        (a : Bool)
        → (n == 100) ≡ a
        → (b : Bool) → (n == 101) ≡ b
        → (c : Bool) → (n == 113) ≡ c
        → (d : Bool) → (n == 104) ≡ d
        → (e : Bool) → (n == 103) ≡ e
        → (f : Bool) → (n == 111) ≡ f
        → (g : Bool) → (n == 110) ≡ g
        → (i : Bool) → (n == 32) ≡ i
        → (a || (b || (c || (d || (e || (f || (g || (i || false)))))))) ≡ true
        → IsNetworkNumber n
    by_test true x b y c z d u e v f w g p i q k =
        subst IsNetworkNumber (sym (==→eq n 100 x)) network_down
    by_test false x true y c z d u e v f w g p i q k =
        subst IsNetworkNumber (sym (==→eq n 101 y)) network_unreachable
    by_test false x false y true z d u e v f w g p i q k =
        subst IsNetworkNumber (sym (==→eq n 113 z)) host_unreachable
    by_test false x false y false z true u e v f w g p i q k =
        subst IsNetworkNumber (sym (==→eq n 104 u)) connection_reset
    by_test false x false y false z false u true v f w g p i q k =
        subst IsNetworkNumber (sym (==→eq n 103 v)) connection_aborted
    by_test false x false y false z false u false v true w g p i q k =
        subst IsNetworkNumber (sym (==→eq n 111 w)) connection_refused
    by_test false x false y false z false u false v false w true p i q k =
        subst IsNetworkNumber (sym (==→eq n 110 p)) timed_out
    by_test false x false y false z false u false v false w false p true q k =
        subst IsNetworkNumber (sym (==→eq n 32 q)) broken_pipe
    by_test false x false y false z false u false v false w false p false q k = cc (k)

windows_number : (n : ℕ) → number_in n windows_codes ≡ true → IsWindowsNumber n
windows_number n h =
    by_test (n == 10050) refl (n == 10051) refl (n == 10053) refl (n == 10054) refl (n == 10060)
      refl (n == 10061) refl (n == 10065) refl (n == 11001) refl (n == 11002) refl h
  where
    by_test :
        (a : Bool)
        → (n == 10050) ≡ a
        → (b : Bool) → (n == 10051) ≡ b
        → (c : Bool) → (n == 10053) ≡ c
        → (d : Bool) → (n == 10054) ≡ d
        → (e : Bool) → (n == 10060) ≡ e
        → (f : Bool) → (n == 10061) ≡ f
        → (g : Bool) → (n == 10065) ≡ g
        → (i : Bool) → (n == 11001) ≡ i
        → (j : Bool) → (n == 11002) ≡ j
        → (a || (b || (c || (d || (e || (f || (g || (i || (j || false))))))))) ≡ true
        → IsWindowsNumber n
    by_test true x b y c z d u e v f w g p i q j r k =
        subst IsWindowsNumber (sym (==→eq n 10050 x)) network_down
    by_test false x true y c z d u e v f w g p i q j r k =
        subst IsWindowsNumber (sym (==→eq n 10051 y)) network_unreachable
    by_test false x false y true z d u e v f w g p i q j r k =
        subst IsWindowsNumber (sym (==→eq n 10053 z)) connection_aborted
    by_test false x false y false z true u e v f w g p i q j r k =
        subst IsWindowsNumber (sym (==→eq n 10054 u)) connection_reset
    by_test false x false y false z false u true v f w g p i q j r k =
        subst IsWindowsNumber (sym (==→eq n 10060 v)) timed_out
    by_test false x false y false z false u false v true w g p i q j r k =
        subst IsWindowsNumber (sym (==→eq n 10061 w)) connection_refused
    by_test false x false y false z false u false v false w true p i q j r k =
        subst IsWindowsNumber (sym (==→eq n 10065 p)) host_unreachable
    by_test false x false y false z false u false v false w false p true q j r k =
        subst IsWindowsNumber (sym (==→eq n 11001 q)) name_unknown
    by_test false x false y false z false u false v false w false p false q true r k =
        subst IsWindowsNumber (sym (==→eq n 11002 r)) name_unknown_yet
    by_test false x false y false z false u false v false w false p false q false r k = cc (k)

number_network : (n : ℕ) → IsNetworkNumber n → number_in n network_codes ≡ true
number_network n network_down = refl
number_network n network_unreachable = refl
number_network n host_unreachable = refl
number_network n connection_aborted = refl
number_network n connection_reset = refl
number_network n connection_refused = refl
number_network n timed_out = refl
number_network n broken_pipe = refl

number_windows : (n : ℕ) → IsWindowsNumber n → number_in n windows_codes ≡ true
number_windows n network_down = refl
number_windows n network_unreachable = refl
number_windows n connection_aborted = refl
number_windows n connection_reset = refl
number_windows n timed_out = refl
number_windows n connection_refused = refl
number_windows n host_unreachable = refl
number_windows n name_unknown = refl
number_windows n name_unknown_yet = refl

-- The failures of a network: `transport` says that the exception comes from the transport.
pub data IsOutage (transport : Bool) : Failing → Type 0 where
  later : {code : ℕ} {header : Option Text} → IsLater code → IsOutage transport (http code header)
  inside : {e : Failing} → IsOutage transport e → IsOutage transport (url_error e)
  resolver :
      {kind : Option Text} {hint : Option ℕ} → IsOutage transport (resolution_transient kind hint)
  names : IsOutage transport gaierror
  late : IsOutage transport timeout
  lost : IsOutage transport connection
  short : IsOutage transport incomplete_read
  ended : IsOutage transport eof
  numbered :
      {n : ℕ} {winerror : Option ℕ} {bare : Bool}
      → IsNetworkNumber n
      → IsOutage transport (os_error (some n) winerror bare)
  windows :
      {errno : Option ℕ} {n : ℕ} {bare : Bool}
      → IsWindowsNumber n
      → IsOutage transport (os_error errno (some n) bare)
  unnamed :
      {winerror : Option ℕ} → transport ≡ true → IsOutage transport (os_error none winerror true)

IsLater-retryable : (n : ℕ) → is_retryable_status n ≡ true → IsLater n
unfolding is_retryable_status
IsLater-retryable n h = ground arith

retryable-IsLater : (n : ℕ) → IsLater n → is_retryable_status n ≡ true
unfolding is_retryable_status
retryable-IsLater n h = ground arith

IsOutage-os :
    (transport : Bool) (errno winerror : Option ℕ) (bare : Bool)
    → (classify_os transport errno winerror bare).category ≡ transient
    → IsOutage transport (os_error errno winerror bare)
unfolding classify_os
IsOutage-os transport errno winerror bare h =
    by_codes (code_in network_codes errno) refl (code_in windows_codes winerror) refl h
  where
    by_name :
        (t b : Bool) (o : Option ℕ)
        → (if t && (b && no_code o)
            then classified transient (codes "network") none
            else classified local (codes "local_failure") none).category
          ≡ transient
        → t ≡ transport
        → IsOutage transport (os_error o winerror b)
    by_name true true none k e = unnamed (sym e)
    by_name true true (some n) k e = cc (k)
    by_name true false o k e = cc (k)
    by_name false b o k e = cc (k)

    by_network :
        (o : Option ℕ)
        → code_in network_codes o ≡ true
        → IsOutage transport (os_error o winerror bare)
    by_network none k = cc (k)
    by_network (some n) k = numbered (network_number n k)

    by_windows :
        (o : Option ℕ) → code_in windows_codes o ≡ true → IsOutage transport (os_error errno o bare)
    by_windows none k = cc (k)
    by_windows (some n) k = windows (windows_number n k)

    by_codes :
        (c : Bool)
        → code_in network_codes errno ≡ c
        → (d : Bool) → code_in windows_codes winerror ≡ d
        → (if c || d
            then classified transient (codes "connection") none
            else if transport && (bare && no_code errno)
            then classified transient (codes "network") none
            else classified local (codes "local_failure") none).category
          ≡ transient
        → IsOutage transport (os_error errno winerror bare)
    by_codes true p d q k = by_network errno p
    by_codes false p true q k = by_windows winerror q
    by_codes false p false q k = by_name transport bare errno k refl

module _ (dates : Text → Option ℕ) (transport : Bool) where
  IsOutage-of_transient :
      (e : Failing)
      → (classify_failure dates transport e).category ≡ transient
      → IsOutage transport e
  unfolding classify_failure
  IsOutage-of_transient (http code header) h =
      later (IsLater-retryable code (by_status (is_retryable_status code) h))
    where
      by_status : (b : Bool) → (if b then transient else malformed) ≡ transient → b ≡ true
      by_status true k = refl
      by_status false k = cc
  IsOutage-of_transient (url_error e) h = inside (IsOutage-of_transient e h)
  IsOutage-of_transient (resolution_transient kind hint) h = resolver
  IsOutage-of_transient gaierror h = names
  IsOutage-of_transient timeout h = late
  IsOutage-of_transient connection h = lost
  IsOutage-of_transient incomplete_read h = short
  IsOutage-of_transient eof h = ended
  IsOutage-of_transient (os_error errno winerror bare) h =
      IsOutage-os transport errno winerror bare h
  IsOutage-of_transient capture_stopped h = cc (h)
  IsOutage-of_transient keyboard_interrupt h = cc (h)
  IsOutage-of_transient offline h = cc (h)
  IsOutage-of_transient live_changed h = cc (h)
  IsOutage-of_transient resolution h = cc (h)
  IsOutage-of_transient (source_network a e) h = cc (h)
  IsOutage-of_transient (source_refresh a e) h = cc (h)
  IsOutage-of_transient file_exists h = cc (h)
  IsOutage-of_transient other_error h = cc (h)

  transient-of_IsOutage :
      (e : Failing)
      → IsOutage transport e
      → (classify_failure dates transport e).category ≡ transient
  unfolding classify_failure classify_os
  transient-of_IsOutage (http code header) (later h) =
      ap (λ b. if b then transient else malformed) (retryable-IsLater code h)
  transient-of_IsOutage (url_error e) (inside h) = transient-of_IsOutage e h
  transient-of_IsOutage (resolution_transient kind hint) resolver = refl
  transient-of_IsOutage gaierror names = refl
  transient-of_IsOutage timeout late = refl
  transient-of_IsOutage connection lost = refl
  transient-of_IsOutage incomplete_read short = refl
  transient-of_IsOutage eof ended = refl
  transient-of_IsOutage (os_error (some n) winerror bare) (numbered h) =
      rw (number_network n h) refl
  transient-of_IsOutage (os_error errno (some n) bare) (windows h) =
      ground (arith, number_windows n h)
  transient-of_IsOutage (os_error none winerror true) (unnamed h) = ground (arith)
  transient-of_IsOutage capture_stopped h = elim h [ ]
  transient-of_IsOutage keyboard_interrupt h = elim h [ ]
  transient-of_IsOutage offline h = elim h [ ]
  transient-of_IsOutage live_changed h = elim h [ ]
  transient-of_IsOutage resolution h = elim h [ ]
  transient-of_IsOutage (source_network a e) h = elim h [ ]
  transient-of_IsOutage (source_refresh a e) h = elim h [ ]
  transient-of_IsOutage file_exists h = elim h [ ]
  transient-of_IsOutage other_error h = elim h [ ]

  -- Exactly the failures of a network count as temporary: a status that asks to come back later, a
  -- failing look-up of a name, a timeout, a lost connection or a short read, an error of the system
  -- with one of the network's numbers, or with no number where the transport raised it, a temporary
  -- failure of the resolver, and each of them inside an error of urllib.
  pub classify_failure-IsOutage :
      (e : Failing)
      → ((classify_failure dates transport e).category ≡ transient) ↔ IsOutage transport e
  classify_failure-IsOutage e = (IsOutage-of_transient e, transient-of_IsOutage e)
