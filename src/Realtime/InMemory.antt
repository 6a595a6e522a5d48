-- ===== src/Realtime/InMemory.antt =====
-- A client manager that keeps a list of members, and that it is a lawful one.
use frappe_nix.Prelude.{
  ◌≡◌, refl, sym, ◌∙◌, ap, Bool, true, false, not, ◌&&◌, ◌||◌, List, [], ◌∷◌, Text, text_eq,
  pair_eq, ◌==◌, contains, contains_head, contains-keep, keep, if◌then◌else◌, ◌⊎◌, inl, inr, arith,
  Bool-cases,
}
use frappe_nix.Realtime.Socket.{Manager, Lawful}

abbrev pub Member : Type 0
Member = (Text × Text) × Text

pub record State : Type 0 where
  pub members : List Member
  pub open' : List (Text × Text)

abbrev sids : Text → Text → List Member → List Text
sids n r [] = []
sids n r (((n', r'), i) ∷ ms) =
    let rest = sids n r ms in if n' == n && r' == r then i ∷ rest else rest

sids-members :
    (n r i : Text) (ms : List Member) → contains (sids n r ms) i ≡ contains ms ((n, r), i)
sids-members n r i [] = refl
sids-members n r i (((n', r'), i') ∷ ms) = ground (arith, sids-members n r i ms)

abbrev put : Member → List Member → List Member
put x ms = if contains ms x then ms else x ∷ ms

abbrev pub in_memory : Manager State
in_memory = record {
  is_connected = λ s i n. contains s.open' (n, i);
  enter_room = λ s i r n. record s { members = put ((n, r), i) s.members };
  leave_room = λ s i r n. record s { members = keep (λ x. not (x == ((n, r), i))) s.members };
  participants = λ s n r. sids n r s.members;
  connect = λ s i n. record s { open' = (n, i) ∷ s.open' };
  disconnect = λ s i n. record s {
    members = keep (λ x. not (x.0.0 == n && x.1 == i)) s.members;
    open' = keep (λ x. not (x == (n, i))) s.open';
  };
}

put_entered :
    (x y : Member) (ms : List Member)
    → contains (put x ms) y ≡ true
    → (contains ms y ≡ true) ⊎ (x ≡ y)
put_entered x y ms h = elim (Bool-cases (contains ms x)) [
  | inl there ↦ inl (go (contains ms x) there h)
  | inr new ↦ elim (Bool-cases (x == y)) [
    | inl same ↦ inr ((pair_eq.agrees x y).0 same)
    | inr other ↦ inl (behind (contains ms x) new other h)
  ]
]
  where
    go : (b : Bool) → b ≡ true → contains (if b then ms else x ∷ ms) y ≡ true → contains ms y ≡ true
    go true e h = h
    go false e h = cc

    behind :
        (b : Bool)
        → b ≡ false
        → (x == y) ≡ false
        → contains (if b then ms else x ∷ ms) y ≡ true
        → contains ms y ≡ true
    behind true e o h = cc
    behind false e o h = first (x == y) o h
      where
        first : (c : Bool) → c ≡ false → (c || contains ms y) ≡ true → contains ms y ≡ true
        first true o h = cc
        first false o h = h

put_joined : (x : Member) (ms : List Member) → contains (put x ms) x ≡ true
put_joined x ms = go (contains ms x) refl
  where
    go : (b : Bool) → contains ms x ≡ b → contains (if b then ms else x ∷ ms) x ≡ true
    go true e = e
    go false e = contains_head ms x

kept_before :
    (p : Member → Bool) (ms : List Member) (x : Member)
    → contains (keep p ms) x ≡ true
    → (contains ms x ≡ true) × (p x ≡ true)
kept_before p ms x h = both (contains ms x) (p x) (sym (contains-keep p ms x) ∙ h)
  where
    both : (a b : Bool) → (a && b) ≡ true → (a ≡ true) × (b ≡ true)
    both true b h = (refl, h)
    both false b h = cc

kept_member :
    (p : Member → Bool) (n r i : Text) (ms : List Member)
    → contains (sids n r (keep p ms)) i ≡ true
    → contains (sids n r ms) i ≡ true
kept_member p n r i ms h =
    sids-members n r i ms
    ∙ (kept_before p ms ((n, r), i) (sym (sids-members n r i (keep p ms)) ∙ h)).0

gone_lem : (x : Member) → not (x == x) ≡ true → ⊥
gone_lem x not_same =
    let same : (x == x) ≡ true = (pair_eq.agrees x x).1 refl in
    let clash : false ≡ true = sym (ap not same) ∙ not_same in cc

pub in_memory-Lawful : Lawful State in_memory
in_memory-Lawful = record {
  entered = λ s i r n i' r' n' h.
      elim (put_entered ((n, r), i) ((n', r'), i') s.members
        (sym (sids-members n' r' i' (put ((n, r), i) s.members)) ∙ h)) [
          | inl before ↦ inl (sids-members n' r' i' s.members ∙ before)
          | inr e ↦ inr (
            ap (λ (x : Member). x.0.0) e,
            ap (λ (x : Member). x.0.1) e,
            ap (λ (x : Member). x.1) e,
          )
        ];
  joined =
      λ s i r n. sids-members n r i (put ((n, r), i) s.members) ∙ put_joined ((n, r), i) s.members;
  left = λ s i r n i' r' n' h. kept_member (λ x. not (x == ((n, r), i))) n' r' i' s.members h;
  gone = λ s i r n h.
      gone_lem ((n, r), i)
        (kept_before (λ x. not (x == ((n, r), i))) s.members ((n, r), i)
          (sym (sids-members n r i (keep (λ x. not (x == ((n, r), i))) s.members)) ∙ h)).1;
  attached = λ s i n i' r' n' h. inl h;
  dropped =
      λ s i n i' r' n' h. kept_member (λ x. not (x.0.0 == n && x.1 == i)) n' r' i' s.members h;
}
