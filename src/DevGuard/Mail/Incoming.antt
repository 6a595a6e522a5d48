-- ===== src/DevGuard/Mail/Incoming.antt =====
-- mail.py: what a mailbox is opened with, and what is left of the account afterwards.
use frappe_nix.Prelude.{
  ◌≡◌, refl, sym, ◌∙◌, ap, Bool, true, false, not, Option, none, some, [], ◌∷◌, String, string_eq,
  ◌==◌, if◌then◌else◌, Bool-cases, inl, inr, arith, ◌&&◌, ◌||◌,
}
use frappe_nix.Prelude.Dict.{Dict, lookup}
use frappe_nix.DevGuard.Frappe.{Ended}
use frappe_nix.DevGuard.Mail.{
  Value, Settings, Account, set_field, set_fields, opened, overrides, saved, get_incoming_server,
}

abbrev pub has_key : String → Dict String Value → Bool
has_key k [] = false
has_key k ((j, v) ∷ d) = j == k || has_key k d

-- No key stands twice.
abbrev pub is_distinct : Dict String Value → Bool
is_distinct [] = true
is_distinct ((k, v) ∷ d) = not (has_key k d) && is_distinct d

abbrev pub or_value : Option Value → Value → Value
or_value none v = v
or_value (some w) v = w

set_fields_absent :
    (d : Dict String Value) (fields : String → Value) (k : String)
    → has_key k d ≡ false
    → set_fields d fields k ≡ fields k
set_fields_absent [] fields k h = refl
set_fields_absent ((j, v) ∷ d) fields k h =
    set_fields_absent d (set_field j v fields) k (ground (arith, h)) ∙ ground (arith, h)

-- The fields after a dict of distinct keys was set.
set_fields_lem :
    (d : Dict String Value) (fields : String → Value) (k : String)
    → is_distinct d ≡ true
    → set_fields d fields k ≡ or_value (lookup k d) (fields k)
set_fields_lem [] fields k h = refl
set_fields_lem ((j, v) ∷ d) fields k h = elim (Bool-cases (j == k)) [
  | inr other ↦ set_fields_lem d (set_field j v fields) k (ground (arith, h)) ∙ (rw other refl)
  | inl same ↦
      let is : j ≡ k = (string_eq.agrees j k).0 same in
      let gone : has_key k d ≡ false = sym (ap (λ i. has_key i d) is) ∙ ground (arith, h) in
      set_fields_absent d (set_field j v fields) k gone ∙ rw same refl
]

saved-has_key :
    (fields : String → Value) (d : Dict String Value) (k : String)
    → has_key k (saved fields d) ≡ has_key k d
saved-has_key fields [] k = refl
saved-has_key fields ((j, v) ∷ d) k = ap (λ b. j == k || b) (saved-has_key fields d k)

saved-is_distinct :
    (fields : String → Value) (d : Dict String Value) → is_distinct (saved fields d) ≡ is_distinct d
saved-is_distinct fields [] = refl
saved-is_distinct fields ((j, v) ∷ d) =
    ap (λ b. not b && is_distinct (saved fields d)) (saved-has_key fields d j)
    ∙ ap (λ b. not (has_key j d) && b) (saved-is_distinct fields d)

saved_lem :
    (fields after : String → Value) (d : Dict String Value) (k : String)
    → or_value (lookup k (saved fields d)) (after k) ≡ (if has_key k d then fields k else after k)
saved_lem fields after [] k = refl
saved_lem fields after ((j, v) ∷ d) k = elim (Bool-cases (j == k)) [
  | inl same ↦ rw same (ap fields ((string_eq.agrees j k).0 same))
  | inr other ↦ rw other (saved_lem fields after d k)
]

-- The account that the original is called with.
abbrev pub pointed : {W : Type 0} → Settings → Account W → Account W
pointed st account = record account { fields = set_fields (overrides st) account.fields }

-- Where the guard is on and mail may be read back, the original opens an account whose fields of the override
-- (the server, the port, the protocol flags, an emptied password, the authentication method) are the
-- override's, and whose other fields, the login among them, are the account's; whatever it does, and whether
-- it returns or raises, the fields of the override are afterwards what they were, and the others what it left.
pub get_incoming_server_restores :
    {W R : Type 0} (st : Settings) (original : Account W → Ended R × Account W)
    (account : Account W)
    → st.is_enabled ≡ true
    → st.block_incoming ≡ false
    → ((get_incoming_server st original account).0 ≡ opened (original (pointed st account)).0)
      × ((k : String)
          → (pointed st account).fields k ≡ or_value (lookup k (overrides st)) (account.fields k))
      × ((k : String)
          → (get_incoming_server st original account).1.fields k ≡ (
              if has_key k (overrides st)
              then account.fields k
              else (original (pointed st account)).1.fields k))
unfolding get_incoming_server
get_incoming_server_restores st original account on reads =
    let after = (original (pointed st account)).1.fields in
    let back = saved account.fields (overrides st) in
    rw (on, reads)
      (
        refl,
        λ k. set_fields_lem (overrides st) account.fields k refl,
        λ k.
            set_fields_lem back after k (saved-is_distinct account.fields (overrides st))
            ∙ saved_lem account.fields after (overrides st) k,
      )
