-- ===== src/Host.antt =====
-- `validate_host` of src/HttpParser.cpp.
pub mod Port
pub mod Case
use webserer_core.Base.{
  ℕ, zero, suc, ◌+◌, ◌-◌, ◌*◌, ◌%◌, ◌^◌, Bool, true, false, ◌&&◌, ◌||◌, [], ◌∷◌, Option, none, some,
  ltb, ◌==◌, within, if◌then◌else◌, Bytes, length, take, is_nil, char_at, sub_size,
}
use webserer_core.Text.{is_digit, is_host_char, str_tolower}

-- HOST_START, HOST_IN_HOST, HOST_IP_LITERAL, HOST_IP_LITERAL_END, HOST_PORT
pub data HostState : Type 0 where
  start in_host ip_literal ip_literal_end port : HostState

-- The variables of the loop but for its index.
pub record HostScan : Type 0 where
  pub state : HostState
  pub host_len : ℕ
  pub dot_pos : ℕ
  pub port : ℕ
  pub need_lc : Bool

-- `none` is `return false`.
dot : ℕ → HostScan → Option HostScan
dot i s = if s.dot_pos == sub_size i 1 then none else some (record s { dot_pos = i })

is_upper : ℕ → Bool
is_upper ch = within b'A' b'Z' ch

is_lower_or_digit : ℕ → Bool
is_lower_or_digit ch = within b'a' b'z' ch || within b'0' b'9' ch

step_in_host : ℕ → HostScan → ℕ → Option HostScan
step_in_host i s ch =
    if is_upper ch
    then some (record s { need_lc = true })
    else if is_lower_or_digit ch
    then some s
    else if ch == b':'
    then some (record s { host_len = i; state = HostState.port })
    else if ch == b'-'
    then some s
    else if ch == b'.'
    then dot i s
    else if is_host_char ch
    then some s
    else none

step_ip_literal : ℕ → HostScan → ℕ → Option HostScan
step_ip_literal i s ch =
    if is_upper ch
    then some (record s { need_lc = true })
    else if is_lower_or_digit ch
    then some s
    else if ch == b':' || ch == b'-'
    then some s
    else if ch == b'.'
    then dot i s
    else if ch == b']'
    then some (record s { host_len = i + 1; state = ip_literal_end })
    else if is_host_char ch
    then some s
    else none

step_port : HostScan → ℕ → Option HostScan
step_port s ch =
    if within b'0' b'9' ch
    then if ltb 6553 s.port || (s.port == 6553 && ltb 5 (ch - b'0'))
      then none
      else some (record s { port = s.port * 10 + (ch - b'0') })
    else none

-- The `switch` on the state.
unfoldable pub host_step : HostState → ℕ → HostScan → ℕ → Option HostScan
unfolding step_in_host step_ip_literal step_port dot is_upper is_lower_or_digit
host_step start i s ch =
    if ch == b'['
    then some (record s { state = ip_literal })
    else step_in_host i (record s { state = in_host }) ch
host_step in_host i s ch = step_in_host i s ch
host_step ip_literal i s ch = step_ip_literal i s ch
host_step ip_literal_end i s ch =
    if ch == b':' then some (record s { state = HostState.port }) else none
host_step HostState.port i s ch = step_port s ch

-- The loop, from index `i`.
unfoldable pub host_scan : ℕ → HostScan → Bytes → Option HostScan
host_scan i s [] = some s
host_scan i s (ch ∷ rest) = elim (host_step s.state i s ch) [
  | none ↦ none
  | some t ↦ host_scan (suc i) t rest
]

-- What stands before the loop.
abbrev pub initial : Bytes → HostScan
initial value = record {
  state = start;
  host_len = length value;
  dot_pos = length value;
  port = 0;
  need_lc = false;
}

is_ip_literal : HostState → Bool
is_ip_literal ip_literal = true
is_ip_literal _ = false

-- What stands behind the loop: the normalised host and its port as a `uint16_t`.
unfoldable pub conclude : Bytes → HostScan → Option (Bytes × ℕ)
unfolding is_ip_literal
conclude value s =
    let host_len =
      if ltb 0 s.host_len && char_at value (s.host_len - 1) == b'.'
      then s.host_len - 1
      else s.host_len in
    let normalized = take host_len value in
    if is_ip_literal s.state
    then none
    else if host_len == 0
    then none
    else some (if s.need_lc then str_tolower normalized else normalized, s.port % 2 ^ 16)

unfoldable pub validate_host : Bytes → Option (Bytes × ℕ)
validate_host value =
    if is_nil value
    then none
    else elim (host_scan 0 (initial value) value) [ none ↦ none | some s ↦ conclude value s ]
