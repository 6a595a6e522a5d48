-- ===== src/DevGuard/Mail/Tests.antt =====
-- Mail of a bench with the guard on.
use frappe_nix.Prelude.{
  ℕ, ◌≡◌, refl, true, false, none, some, [], ◌∷◌, String, string_eq, if◌then◌else◌,
}
use frappe_nix.Prelude.Dict.{Dict, lookup}
use frappe_nix.DevGuard.Frappe.{Ended, returned, raised}
use frappe_nix.DevGuard.Mail.{
  Value, number, text, no_value, Settings, Account, set_field, SmtpServer, SendMailContext, opened,
  overrides, get_incoming_server, get_hook_method,
}
use frappe_nix.DevGuard.Mail.Incoming.{has_key, or_value, pointed, get_incoming_server_restores}

abbrev settings : Settings
settings = record {
  is_enabled = true;
  unmute = true;
  block_incoming = false;
  mail_host = "127.0.0.1";
  mail_port = 1025;
  pop3_port = 1110;
}

-- An account of production, and a call that marks it and fails.
abbrev account : Account ℕ
account = record { fields = set_field "service" (text "Frappe Mail") (λ k. text k); rest = 0 }

abbrev fails : Account ℕ → Ended ℕ × Account ℕ
fails a = (
  raised,
  record a { fields = set_field "uidnext" (number 7) (set_field "password" (text "x") a.fields) },
)

get_incoming_server_restores_example :
    ((get_incoming_server settings fails account).0 ≡ opened raised)
    × ((k : String)
        → (pointed settings account).fields k
          ≡ or_value (lookup k (overrides settings)) (account.fields k))
    × ((k : String)
        → (get_incoming_server settings fails account).1.fields k ≡ (
            if has_key k (overrides settings)
            then account.fields k
            else (fails (pointed settings account)).1.fields k))
get_incoming_server_restores_example = get_incoming_server_restores settings fails account refl refl

abbrev makes : Dict String Value → Ended (SmtpServer ℕ)
makes d =
    returned (record { server = or_value (lookup "server" d) no_value; port = no_value; rest = 0 })

abbrev production : Dict String Value
production = ("server", text "smtp.example.com") ∷ ("password", text "s3cret") ∷ []

abbrev context : SendMailContext ℕ
context = record { email_account = none; frappe_mail_client = some 1; smtp_server = none }

hook_refused :
    get_hook_method {A = ℕ} settings (λ name fallback. some 3) "override_email_send" (some 1)
    ≡ some 1
unfolding get_hook_method
hook_refused = refl
