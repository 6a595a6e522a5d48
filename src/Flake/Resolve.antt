-- ===== src/Flake/Resolve.antt =====
-- flakelock.py: what a path of inputs stands for, and that `node_at` finds it.
use frappe_nix.Prelude.{
  ℕ, zero, suc, ◌+◌, ◌≤◌, ◌≡◌, ◌↔◌, refl, List, [], ◌∷◌, Text, text_eq, arith, Option, none, some,
}
use frappe_nix.Flake.{
  Ref, node_name, follows, bad_ref, Lock, Node, Found, found, missing, env_error, endless, Step, to,
  ends, step_in, inputs_of, step_at, arrive_at, arrive, walk, node_at, Inputs, table, not_table,
}
use frappe_nix.Prelude.Dict.{lookup}

module _ (lock : Lock) where
  -- From a node, a path of inputs leads to a node: each step goes to the node that its reference names,
  -- and a `follows` reference stands for the node that its own path leads to from the root.
  pub data LeadsTo : Text → List Text → Text → Type 0 where
    here : {n : Text} → arrive lock n ≡ found n → LeadsTo n [] n
    direct :
        {n s m r : Text} {p : List Text}
        → step_at lock n s ≡ to (node_name m)
        → LeadsTo m p r
        → LeadsTo n (s ∷ p) r
    through :
        {n s m r : Text} {p q : List Text}
        → step_at lock n s ≡ to (follows q)
        → LeadsTo lock.root q m
        → LeadsTo m p r
        → LeadsTo n (s ∷ p) r

  arrive_lem : (n r : Text) → arrive lock n ≡ found r → LeadsTo n [] r
  unfolding arrive
  arrive_lem n r h = go (lookup n lock.nodes) refl h
    where
      go :
          (o : Option Node)
          → lookup n lock.nodes ≡ o
          → arrive_at lock n o ≡ found r
          → LeadsTo n [] r
      go none e h' = cc
      go (some node) e h' = let same : n ≡ r = cc in rw (← same) (here (rw e refl))

  ends_not_found : (n s : Text) (x : Found) {r : Text} → step_at lock n s ≡ ends x → x ≡ found r → ⊥
  unfolding step_at
  ends_not_found n s x {r} h e = go (inputs_of lock n) h
    where
      go : (o : Option Inputs) → step_in o s ≡ ends x → ⊥
      go none h' = cc
      go (some not_table) h' = cc
      go (some (table d)) h' = last (lookup s d) h'
        where
          last :
              (o : Option Ref)
              → (let t : Step = elim o [ none ↦ ends missing | some ref ↦ to ref ] in t) ≡ ends x
              → ⊥
          last none h'' = cc
          last (some ref) h'' = cc

  walk_sound :
      (f : ℕ) (n : Text) (p : List Text) {r : Text} → walk f lock n p ≡ found r → LeadsTo n p r
  unfolding walk
  walk_sound f n [] {r} h = arrive_lem n r h
  walk_sound zero n (s ∷ p) {r} h = go (step_at lock n s) refl h (λ m h'. walk_sound zero m p h')
    where
      go :
          (t : Step)
          → step_at lock n s ≡ t
          → (let x : Found = elim t [
            | ends result ↦ result
            | to (node_name next) ↦ walk zero lock next p
            | to (follows other) ↦ endless
            | to bad_ref ↦ env_error
          ] in
              x)
            ≡ found r
          → ((m : Text) → walk zero lock m p ≡ found r → LeadsTo m p r)
          → LeadsTo n (s ∷ p) r
      go (ends x) e h' rest = absurd (ends_not_found n s x e h')
      go (to (node_name m)) e h' rest = direct e (rest m h')
      go (to (follows q)) e h' rest = cc
      go (to bad_ref) e h' rest = cc
  walk_sound (suc f) n (s ∷ p) {r} h =
      go (step_at lock n s) refl h (λ m h'. walk_sound (suc f) m p h')
        (λ q m h'. walk_sound f lock.root q h')
    where
      go :
          (t : Step)
          → step_at lock n s ≡ t
          → (let x : Found = elim t [
            | ends result ↦ result
            | to (node_name next) ↦ walk (suc f) lock next p
            | to (follows other) ↦ elim (walk f lock lock.root other) [
              | found next ↦ walk (suc f) lock next p
              | result ↦ result
            ]
            | to bad_ref ↦ env_error
          ] in
              x)
            ≡ found r
          → ((m : Text) → walk (suc f) lock m p ≡ found r → LeadsTo m p r)
          → ((q : List Text) (m : Text) → walk f lock lock.root q ≡ found m → LeadsTo lock.root q m)
          → LeadsTo n (s ∷ p) r
      go (ends x) e h' rest inner = absurd (ends_not_found n s x e h')
      go (to (node_name m)) e h' rest inner = direct e (rest m h')
      go (to bad_ref) e h' rest inner = cc
      go (to (follows q)) e h' rest inner = via (walk f lock lock.root q) refl h'
        where
          via :
              (w : Found)
              → walk f lock lock.root q ≡ w
              → (let x : Found = elim w [
                | found next ↦ walk (suc f) lock next p
                | result ↦ result
              ] in
                  x)
                ≡ found r
              → LeadsTo n (s ∷ p) r
          via (found m) ew hw = through e (inner q m ew) (rest m hw)
          via missing ew hw = cc
          via env_error ew hw = cc
          via endless ew hw = cc

  -- The walk ends at `r` with every fuel from some on.
  abbrev Finds : Text → List Text → Text → Type 0
  Finds n p r = (f : ℕ) × ((g : ℕ) → f ≤ g → walk g lock n p ≡ found r)

  walk_direct :
      (g : ℕ) (n s : Text) (p : List Text) {m r : Text}
      → step_at lock n s ≡ to (node_name m)
      → walk g lock m p ≡ found r
      → walk g lock n (s ∷ p) ≡ found r
  unfolding walk
  walk_direct zero n s p e h = rw (e, walk) h
  walk_direct (suc g) n s p e h = rw (e, walk) h

  walk_through :
      (g : ℕ) (n s : Text) (p : List Text) {q : List Text} {m r : Text}
      → step_at lock n s ≡ to (follows q)
      → walk g lock lock.root q ≡ found m
      → walk (suc g) lock m p ≡ found r
      → walk (suc g) lock n (s ∷ p) ≡ found r
  unfolding walk
  walk_through g n s p e inner h = rw (e, inner, walk) h

  walk_nil : (g : ℕ) {n : Text} → arrive lock n ≡ found n → walk g lock n [] ≡ found n
  unfolding walk
  walk_nil zero h = h
  walk_nil (suc g) h = h

  walk_complete : {n r : Text} {p : List Text} → LeadsTo n p r → Finds n p r
  walk_complete (here h) = (0, λ g l. walk_nil g h)
  walk_complete {n} (direct {s = s} {p = p} e d) =
      let (f, finds) = walk_complete d in (f, λ g l. walk_direct g n s p e (finds g l))
  walk_complete {n} {r} (through {s = s} {p = p} e d d') =
      let (f, finds) = walk_complete d in
      let (f', finds') = walk_complete d' in
      (
        suc (f + f'),
        λ g l. enough g l (λ g' l'.
            walk_through g' n s p e (finds g' (omega arith)) (finds' (suc g') (omega arith))),
      )
    where
      enough :
          {k : ℕ} (g : ℕ)
          → suc k ≤ g
          → ((g' : ℕ) → k ≤ g' → walk (suc g') lock n (s ∷ p) ≡ found r)
          → walk g lock n (s ∷ p) ≡ found r
      enough zero l step = absurd (omega arith)
      enough (suc g) l step = step g (omega arith)

  -- `node_at` finds the node that a path leads to, and no other: whatever it finds, the path leads there;
  -- and where a path leads to a node, it finds that node with any fuel from some bound on, so the
  -- recursion of the source ends.
  pub node_at-LeadsTo :
      (path : List Text) (r : Text)
      → LeadsTo lock.root path r ↔ ((f : ℕ) × ((g : ℕ) → f ≤ g → node_at g lock path ≡ found r))
  node_at-LeadsTo path r =
      (λ d. walk_complete d, λ (f, finds). walk_sound f lock.root path (finds f (omega arith)))

  walk_cycle :
      (f : ℕ) (s : Text)
      → step_at lock lock.root s ≡ to (follows (s ∷ []))
      → walk f lock lock.root (s ∷ []) ≡ endless
  unfolding walk
  walk_cycle zero s e = rw (e, walk) refl
  walk_cycle (suc f) s e = rw (e, walk_cycle f s e, walk) refl

  -- Where an input of the root follows itself, `node_at` goes into the same path over and over: no fuel is
  -- enough for it, and no error is raised of its own.
  pub node_at_cycle :
      (f : ℕ) (s : Text)
      → step_at lock lock.root s ≡ to (follows (s ∷ []))
      → node_at f lock (s ∷ []) ≡ endless
  node_at_cycle f s e = walk_cycle f s e
