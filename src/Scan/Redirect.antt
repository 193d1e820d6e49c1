-- ===== src/Scan/Redirect.antt =====
-- `getfds` of token.c: the descriptors of a redirection such as `>[2=1]`.
use es_shell_mirror.Prelude.{
  ℕ, ◌+◌, ◌-◌, ◌*◌, Bool, false, not, [], ◌∷◌, CString, codes, Option, none, some, if◌then◌else◌,
}
use es_shell_mirror.Scan.State.{Scanner, first_of, rest_of, unget, is_char, between, scanerror}

-- A second descriptor: CLOSED, DEFAULT or a number.
pub data SecondFd : Type 0 where
  closed_fd default_fd : SecondFd
  fd_number : ℕ → SecondFd

-- FALSE is `no_fds`.
pub data Fds : Type 0 where
  no_fds : Fds
  fds : ℕ → SecondFd → Fds

-- Digits after `n`: the number, and what follows them.
unfoldable pub digits_loop : ℕ → CString → ℕ × CString
digits_loop n [] = (n, [])
digits_loop n (c ∷ s) =
    let more = digits_loop (n * 10 + (c - 48)) s in if between 48 57 c then more else (n, c ∷ s)

abbrev pub is_digit_char : Option ℕ → Bool
is_digit_char none = false
is_digit_char (some c) = between 48 57 c

abbrev pub digit_value : Option ℕ → ℕ
digit_value none = 0
digit_value (some c) = c - 48

abbrev pub fds_error : Option ℕ → CString → Scanner → Fds × Scanner
fds_error last s st = (no_fds, scanerror last s st)

-- After the second number `n`.
unfoldable pub fds_end : ℕ → ℕ × CString → Scanner → Fds × Scanner
fds_end fd0 (n, s) st =
    let st' = record st { input = rest_of s } in
    if is_char (first_of s) b']'
    then (fds fd0 (fd_number n), st')
    else fds_error (first_of s) (codes "expected ']' after digit") st'

-- After "=".
unfoldable pub fds_second : ℕ → CString → Scanner → Fds × Scanner
fds_second fd0 s st =
    let c = first_of s in
    let st' = record st { input = rest_of s } in
    if is_digit_char c
    then fds_end fd0 (digits_loop (digit_value c) (rest_of s)) st
    else if is_char c b']'
    then (fds fd0 closed_fd, st')
    else fds_error c (codes "expected digit or ']' after '='") st'

-- After the first number.
unfoldable pub fds_first : SecondFd → ℕ × CString → Scanner → Fds × Scanner
fds_first default1 (n, s) st =
    let c = first_of s in
    let st' = record st { input = rest_of s } in
    if is_char c b'='
    then fds_second n (rest_of s) st
    else if is_char c b']'
    then (fds n default1, st')
    else fds_error c (codes "expected '=' or ']' after digit") st'

-- `c` was read, and the rest is the input.
unfoldable pub getfds : Option ℕ → ℕ → SecondFd → Scanner → Fds × Scanner
getfds c default0 default1 st =
    let d = first_of st.input in
    if not (is_char c b'[')
    then (fds default0 default1, record st { input = unget c st.input })
    else if is_digit_char d
    then fds_first default1 (digits_loop (digit_value d) (rest_of st.input)) st
    else fds_error d (codes "expected digit after '['") (record st { input = rest_of st.input })
