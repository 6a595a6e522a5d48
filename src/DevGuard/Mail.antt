-- ===== src/DevGuard/Mail.antt =====
-- lib/devguard/frappe_devguard/guards/mail.py: every way that Frappe sends or fetches mail leads to the mail catcher.
pub mod Incoming
pub mod Outgoing
mod Tests
use frappe_nix.Prelude.{
  ℕ, ◌≡◌, Bool, true, false, not, ◌&&◌, ◌||◌, Option, none, some, List, [], ◌∷◌, ◌++◌, String,
  string_eq, ◌==◌, if◌then◌else◌, map,
}
use frappe_nix.Prelude.Dict.{Dict, lookup, insert}
use frappe_nix.DevGuard.Frappe.{Ended, returned, raised}

-- A value of a field or of an argument.
pub data Value : Type 0 where
  no_value : Value
  number : ℕ → Value
  text : String → Value

-- What the guard reads of its settings.
pub record Settings : Type 0 where
  pub is_enabled : Bool
  pub unmute : Bool
  pub block_incoming : Bool
  pub mail_host : String
  pub mail_port : ℕ
  pub pop3_port : ℕ

unfoldable pub are_emails_muted : Settings → Bool → Bool
are_emails_muted st original = if st.is_enabled && st.unmute then false else original

-- The arguments that a connection to the catcher has.
abbrev pub catcher : Settings → Dict String Value
catcher st =
    ("server", text st.mail_host)
    ∷ ("port", number st.mail_port)
    ∷ ("login", no_value)
    ∷ ("password", no_value)
    ∷ ("use_tls", number 0)
    ∷ ("use_ssl", number 0)
    ∷ ("use_oauth", number 0)
    ∷ ("access_token", no_value)
    ∷ []

abbrev pub update_all : Dict String Value → Dict String Value → Dict String Value
update_all [] d = d
update_all ((k, v) ∷ more) d = update_all more (insert k v d)

-- An SMTPServer: where it connects, and the rest.
pub record SmtpServer (W : Type 0) : Type 0 where
  pub server : Value
  pub port : Value
  pub rest : W

abbrev pub at_catcher : {W : Type 0} → Settings → Ended (SmtpServer W) → Ended (SmtpServer W)
at_catcher st raised = raised
at_catcher st (returned s) =
    returned (record s { server = text st.mail_host; port = number st.mail_port })

-- `SMTPServer.__init__`, over the arguments bound by name.
unfoldable pub smtp_init :
    {W : Type 0}
    → Settings
    → (Dict String Value → Ended (SmtpServer W))
    → Dict String Value
    → Ended (SmtpServer W)
smtp_init st original arguments =
    if not st.is_enabled
    then original arguments
    else at_catcher st (original (update_all (catcher st) arguments))

-- `sendmail_config`, of the account's name and whether it is being validated.
unfoldable pub sendmail_config : Settings → Dict String Value → String → Bool → Dict String Value
sendmail_config st original name validating =
    if not st.is_enabled
    then original
    else ("email_account", text name)
      ∷ ("server", text st.mail_host)
      ∷ ("port", number st.mail_port)
      ∷ ("login", no_value)
      ∷ ("password", no_value)
      ∷ ("use_ssl", number 0)
      ∷ ("use_tls", number 0)
      ∷ ("use_oauth", number 0)
      ∷ ("access_token", no_value)
      ∷ (if validating then ("timeout", number 15) ∷ [] else [])

-- An Email Account: its fields, which are None where it has none, and the rest.
pub record Account (W : Type 0) : Type 0 where
  pub fields : String → Value
  pub rest : W

-- `doc.set(key, value)`
abbrev pub set_field : String → Value → (String → Value) → String → Value
set_field key value fields k = if key == k then value else fields k

abbrev pub set_fields : Dict String Value → (String → Value) → String → Value
set_fields [] fields = fields
set_fields ((key, value) ∷ more) fields = set_fields more (set_field key value fields)

-- How `get_incoming_server` ends: with a server, with an error of Frappe, or refused.
pub data Mailbox (R : Type 0) : Type 0 where
  opened : Ended R → Mailbox R
  blocked : Mailbox R

abbrev pub overrides : Settings → Dict String Value
overrides st =
    ("email_server", text st.mail_host)
    ∷ ("incoming_port", number st.pop3_port)
    ∷ ("use_imap", number 0)
    ∷ ("use_ssl", number 0)
    ∷ ("use_starttls", number 0)
    ∷ ("password", no_value)
    ∷ ("auth_method", text "Basic")
    ∷ []

abbrev pub saved : (String → Value) → Dict String Value → Dict String Value
saved fields [] = []
saved fields ((key, value) ∷ more) = (key, fields key) ∷ saved fields more

unfoldable pub get_incoming_server :
    {W R : Type 0}
    → Settings
    → (Account W → Ended R × Account W)
    → Account W
    → Mailbox R × Account W
get_incoming_server st original account =
    if not st.is_enabled
    then (opened (original account).0, (original account).1)
    else if st.block_incoming
    then (blocked, account)
    else let (result, after) =
        original (record account { fields = set_fields (overrides st) account.fields }) in
      (
        opened result,
        record after { fields = set_fields (saved account.fields (overrides st)) after.fields },
      )

-- `append_email_to_sent_folder`, `get_frappe_mail_client` and `pull`: whether the original is called at all.
abbrev pub appends : Settings → Bool
appends st = not st.is_enabled

abbrev pub builds_frappe_mail_client : Settings → Bool
builds_frappe_mail_client st = not st.is_enabled

abbrev pub pulls : Settings → Bool
pulls st = not (st.is_enabled && st.block_incoming)

-- `find_default_outgoing`, with the account that the guard makes up.
unfoldable pub find_default_outgoing : {A : Type 0} → Settings → A → Option A → Option A
find_default_outgoing st made_up (some doc) = some doc
find_default_outgoing st made_up none = if not st.is_enabled then none else some made_up

-- `get_hook_method`, over what the original finds.
unfoldable pub get_hook_method :
    {A : Type 0} → Settings → (String → Option A → Option A) → String → Option A → Option A
get_hook_method st original hook_name fallback =
    if st.is_enabled && hook_name == "override_email_send"
    then fallback
    else original hook_name fallback

-- `SendMailContext`: the account, the client of Frappe Mail and the server that it sends over.
pub record SendMailContext (W : Type 0) : Type 0 where
  pub email_account : Option (Account W)
  pub frappe_mail_client : Option ℕ
  pub smtp_server : Option (Dict String Value)

abbrev pub is_frappe_mail : Value → Bool
is_frappe_mail (text name) = name == "Frappe Mail"
is_frappe_mail _ = false

abbrev pub off_frappe_mail : {W : Type 0} → Account W → Account W
off_frappe_mail account =
    if is_frappe_mail (account.fields "service")
    then record account { fields = set_field "service" (text "") account.fields }
    else account

abbrev pub server_or : Settings → Option (Dict String Value) → Option (Dict String Value)
server_or st (some server) = some server
server_or st none = some (("server", text st.mail_host) ∷ ("port", number st.mail_port) ∷ [])

-- `fetch_outgoing_server`, with the account that `get_email_account` finds; without one it raises.
unfoldable pub fetch_outgoing_server :
    {W : Type 0}
    → Settings
    → (SendMailContext W → Ended (SendMailContext W))
    → Option (Account W)
    → SendMailContext W
    → Ended (SendMailContext W)
fetch_outgoing_server st original account c =
    if not st.is_enabled then original c else elim account [
      | none ↦ raised
      | some found ↦ returned (record {
        email_account = some (off_frappe_mail found);
        frappe_mail_client = none;
        smtp_server = server_or st c.smtp_server;
      })
    ]
