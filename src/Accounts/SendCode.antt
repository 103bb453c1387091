-- ===== src/Accounts/SendCode.antt =====
-- app/server/api/auth/send-code.post.ts: a code for an email address that is to be registered. What
-- the request meets outside is its argument: whether mail is configured, whether the limiter of
-- email-poster blocks it, the random number, and whether the mail goes out. The wait for the mail is
-- not split: nothing of the site is written in it.
use constrainable.Base.{
  ℕ, String, Bool, not, Option, some, none, is_some, is_empty, or_else, str_append, decimal, Result,
  ok, http_error, if◌then◌else◌, List,
}
use constrainable.Database.Users
use constrainable.Server.{AuditLevel, AuditCategory, code_sent, code_send_failed}
use constrainable.EmailCode.{issue_code}
use constrainable.Registration.{
  is_email, normalize_email, is_disallowed_email, passes_whitelist, describe_email_rules,
}
use constrainable.Accounts.{Site, users_of, on_site, log_as}

-- `EmailLimitResult` of email-poster for a send that is blocked
pub record EmailLimit : Type 0 where
  -- the reason is 'minute'
  pub by_minute : Bool
  pub retry_in_seconds : Option ℕ
  -- the scope is 'address'
  pub of_address : Bool
  pub daily_limit : ℕ

-- throwEmailLimit
unfoldable pub limit_message : EmailLimit → String
limit_message r =
    if r.by_minute
    then str_append "Sending too frequently — please wait "
        (str_append (decimal (or_else r.retry_in_seconds 60)) " seconds and try again")
    else if r.of_address
    then str_append "Daily send limit reached (" (str_append (decimal r.daily_limit) "/day)")
    else str_append "Daily send limit reached for your account ("
        (str_append (decimal r.daily_limit) "/day)")

-- The rules of the site after a message, if there are any.
unfoldable pub with_rules : String → String → String
with_rules message rules =
    if is_empty rules then message else str_append message (str_append " (" (str_append rules ")"))

pub data CodeAnswer : Type 0 where
  accepted bootstrap : CodeAnswer

pub record Outside : Type 0 where
  pub mail_configured : Bool
  pub limit : Option EmailLimit
  -- 100000 ≤ code < 1000000
  pub code : ℕ
  pub goes_out : Bool

-- The code is kept, whether or not the mail goes out.
unfoldable pub mail_code : ℕ → Outside → (email session : String) → Site → Result CodeAnswer × Site
mail_code now outside email session site =
    let site' = record site {
      codes = issue_code now email session (decimal outside.code) site.codes;
    } in
    if outside.goes_out
    then (
      ok accepted,
      on_site (log_as AuditLevel.info AuditCategory.auth (code_sent email) (some email)) site',
    )
    else (
      http_error 502
          "Failed to send verification code, please try again later or contact the admin",
      on_site (log_as AuditLevel.error AuditCategory.auth (code_send_failed email) (some email))
          site',
    )

unfoldable pub send_code :
    (is_match : String → List String → Bool) (now : ℕ)
    → Outside
    → (email session : String) → Site
    → Result CodeAnswer × Site
unfolding mail_code
send_code is_match now outside input session site =
    let email = normalize_email input in
    let rules = describe_email_rules site.registration in
    if not (is_email email)
    then (http_error 400 "Invalid email format", site)
    else if is_empty session
    then (http_error 400 "Missing session identifier", site)
    else if Users.is_empty (users_of site)
    then (ok bootstrap, site)
    else if is_disallowed_email site.registration email
    then (http_error 403 (with_rules "This email address is not allowed to register" rules), site)
    else if not (passes_whitelist is_match site.registration email)
    then (http_error 403 (with_rules "This email domain is not allowed to register" rules), site)
    else if is_some (Users.find_by_email email (users_of site))
    then (ok accepted, site)
    else if not outside.mail_configured
    then (http_error 503 "Mail service is not configured, please contact the admin", site)
    else elim outside.limit [
      | some r ↦ (http_error 429 (limit_message r), site)
      | none ↦ mail_code now outside email session site
    ]
