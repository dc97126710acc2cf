-- ===== src/Ws/Agent/Renewal.antt =====
-- internal/ws/agent/renewal.go: when a certificate is renewed, and what becomes of the answer. Times
-- are numbers of nanoseconds; keys, requests and the parsing of certificates are the library's.
use database_flashback.Base.{
  ℕ, ◌-◌, ◌*◌, ◌/◌, ◌<◌, ◌+◌, ◌≡◌, Bool, true, false, Option, none, some, Bytes, text, eq_bytes,
  if◌then◌else◌, ltb, arith, [], ◌↔◌,
}
use database_flashback.Base.Int.{ℤ, pos, negsuc}
use database_flashback.Ws.Messages.{Command, Response, string_param, cmd_cert_renewal, status_error}

abbrev pub day : ℕ
day = 24 * (3600 * 1_000_000_000)

-- `CheckCertExpiry`, with the end of validity of the first certificate, if it can be read.
check_cert_expiry : ℕ → Option ℕ → ℤ
check_cert_expiry now none = negsuc 0
check_cert_expiry now (some not_after) =
    if ltb now not_after then pos ((not_after - now) / day) else pos 0

-- The test of `StartAutoRenew`.
needs_renewal : ℤ → Bool
needs_renewal (pos n) = ltb n 7
needs_renewal (negsuc n) = false

-- The command of `AutoRenew`; its id has the time in it.
renewal_command : Bytes → Bytes → Command
renewal_command id csr = record {
  cmd = id;
  kind = cmd_cert_renewal;
  params = λ key. if eq_bytes key (text "csr") then some (string_param csr) else none;
}

-- What `SendCommand` returns: an error, or a response, which is nil if the client was closed.
pub data Sent : Type 0 where
  send_failed : Sent
  received : Option Response → Sent

pub data Renewed : Type 0 where
  nil_dereferenced not_sent rejected no_certificate unusable : Renewed
  renewed : Bytes → Renewed

-- `AutoRenew` behind the call; `certificate` reads the result, and `parses` is `tls.X509KeyPair`.
auto_renew : (Response → Option Bytes) → (Bytes → Bool) → Sent → Renewed
auto_renew certificate parses send_failed = not_sent
auto_renew certificate parses (received none) = nil_dereferenced
auto_renew certificate parses (received (some r)) =
    if eq_bytes r.status status_error then rejected else elim (certificate r) [
      | none ↦ no_certificate
      | some pem ↦
          if eq_bytes pem [] then no_certificate else if parses pem then renewed pem else unusable
    ]

-- A certificate that can be read is renewed exactly in its last seven days, and behind them.
needs_renewal_lem :
    (now not_after : ℕ)
    → (needs_renewal (check_cert_expiry now (some not_after)) ≡ true) ↔ (not_after < now + 7 * day)
unfolding needs_renewal check_cert_expiry
needs_renewal_lem now not_after = ground arith
