-- ===== src/Webhook.antt =====
-- pkg/shared/webhook/hmac.go: the signature of a webhook. `hmac` is the HMAC-SHA256 of a secret and a
-- text in hexadecimal digits, from crypto/hmac; times are in seconds.
pub mod Laws
use vrp_oneclick_deposit_pla.Common.{
  ℕ, ◌-◌, Bool, true, false, String, ◌==◌, ◌+++◌, ◌&&◌, ◌||◌, not, ltb, leb, ℤ, pos, ltb_ℤ, leb_ℤ,
  decimal, if◌then◌else◌,
}

abbrev pub sig_prefix : String
sig_prefix = "sha256="

abbrev pub default_max_age : ℤ
default_max_age = pos 300

unfoldable pub timestamp_header : ℕ → String
unfolding decimal
timestamp_header t = decimal t

-- The time between now and a timestamp, whichever is later.
abbrev pub age : ℕ → ℕ → ℕ
age now timestamp = if leb timestamp now then now - timestamp else timestamp - now

module _ (hmac : String → String → String) where
  unfoldable pub sign : String → ℕ → String → String
  unfolding decimal
  sign secret timestamp body = sig_prefix +++ hmac secret (decimal timestamp +++ ("." +++ body))

  unfoldable pub verify_with_tolerance : ℕ → String → String → ℕ → String → ℤ → Bool
  unfolding sign
  verify_with_tolerance now secret signature timestamp body max_age =
      if ltb_ℤ (pos 0) max_age && ltb_ℤ max_age (pos (age now timestamp))
      then false
      else sign secret timestamp body == signature

  unfoldable pub verify : ℕ → String → String → ℕ → String → Bool
  unfolding verify_with_tolerance
  verify now secret signature timestamp body =
      verify_with_tolerance now secret signature timestamp body default_max_age
