-- ===== src/DevGuard/Mail/Outgoing.antt =====
-- mail.py: where mail goes out.
use frappe_nix.Prelude.{
  ◌≡◌, refl, sym, ◌∙◌, ap, true, false, Option, none, some, [], ◌∷◌, String, string_eq, ◌==◌,
  if_intro, Bool-cases, inl, inr, arith,
}
use frappe_nix.Prelude.Dict.{Dict, lookup, insert, lookup-insert}
use frappe_nix.DevGuard.Frappe.{Ended, returned, raised}
use frappe_nix.DevGuard.Mail.Incoming.{has_key, is_distinct}
use frappe_nix.DevGuard.Mail.{
  Value, number, text, Settings, Account, catcher, update_all, SmtpServer, at_catcher, smtp_init,
  SendMailContext, is_frappe_mail, off_frappe_mail, server_or, fetch_outgoing_server,
}

-- The server of a call that returns is the catcher.
abbrev pub Catches : {W : Type 0} → Settings → Ended (SmtpServer W) → Type 0
Catches st raised = Unit
Catches st (returned s) = (s.server ≡ text st.mail_host) × (s.port ≡ number st.mail_port)

abbrev pub or_first : Option Value → Option Value → Option Value
or_first none other = other
or_first (some v) other = some v

update_all_absent :
    (d e : Dict String Value) (k : String)
    → has_key k d ≡ false
    → lookup k (update_all d e) ≡ lookup k e
update_all_absent [] e k h = refl
update_all_absent ((j, v) ∷ d) e k h =
    let other : (j == k) ≡ false = ground (arith, h) in
    update_all_absent d (insert j v e) k (ground (arith, h)) ∙ lookup-insert j k v e ∙ rw other refl

-- What a dict has after another one of distinct keys was put in.
update_all_lem :
    (d e : Dict String Value) (k : String)
    → is_distinct d ≡ true
    → lookup k (update_all d e) ≡ or_first (lookup k d) (lookup k e)
update_all_lem [] e k h = refl
update_all_lem ((j, v) ∷ d) e k h = elim (Bool-cases (j == k)) [
  | inr other ↦
      let put : lookup k (insert j v e) ≡ lookup k e = lookup-insert j k v e ∙ rw other refl in
      update_all_lem d (insert j v e) k (ground (arith, h))
      ∙ ap (or_first (lookup k d)) put
      ∙ rw other refl
  | inl same ↦
      let is : j ≡ k = (string_eq.agrees j k).0 same in
      let gone : has_key k d ≡ false = sym (ap (λ i. has_key i d) is) ∙ ground (arith, h) in
      update_all_absent d (insert j v e) k gone ∙ lookup-insert j k v e ∙ rw same refl
]

at_catcher-Catches :
    {W : Type 0} (st : Settings) (s : Ended (SmtpServer W)) → Catches st (at_catcher st s)
at_catcher-Catches st raised = tt
at_catcher-Catches st (returned s) = (refl, refl)

-- With the guard on, whatever arguments an SMTPServer is made with, Frappe's own initialiser gets the
-- catcher's host and port and no credentials, with every other argument as it was, and the server that it
-- makes is the catcher.
pub smtp_init_caught :
    {W : Type 0} (st : Settings) (original : Dict String Value → Ended (SmtpServer W))
    (arguments : Dict String Value)
    → st.is_enabled ≡ true
    → (smtp_init st original arguments
        ≡ at_catcher st (original (update_all (catcher st) arguments)))
      × ((k : String)
          → lookup k (update_all (catcher st) arguments)
            ≡ or_first (lookup k (catcher st)) (lookup k arguments))
      × Catches st (smtp_init st original arguments)
unfolding smtp_init
smtp_init_caught st original arguments on = rw on (
  refl,
  λ k. update_all_lem (catcher st) arguments k refl,
  at_catcher-Catches st (original (update_all (catcher st) arguments)),
)

-- With the guard on, a queued mail whose account is found is sent over SMTP and not by Frappe Mail, whatever the
-- account's service is, over a server that it had already or over the catcher; without an account it is
-- not sent.
pub fetch_outgoing_server_caught :
    {W : Type 0} (st : Settings) (original : SendMailContext W → Ended (SendMailContext W))
    (account : Account W) (c : SendMailContext W)
    → st.is_enabled ≡ true
    → (a : Account W) × (fetch_outgoing_server st original (some account) c
        ≡ returned (record {
          email_account = some a;
          frappe_mail_client = none;
          smtp_server = server_or st c.smtp_server;
        }))
      × (is_frappe_mail (a.fields "service") ≡ false)
      × (a.rest ≡ account.rest)
unfolding fetch_outgoing_server
fetch_outgoing_server_caught st original account c on = rw on (
  off_frappe_mail account,
  refl,
  if_intro (λ (a : Account _). is_frappe_mail (a.fields "service") ≡ false)
      (is_frappe_mail (account.fields "service")) (λ e. refl) (λ e. e),
  if_intro (λ (a : Account _). a.rest ≡ account.rest) (is_frappe_mail (account.fields "service"))
      (λ e. refl) (λ e. refl),
)
