-- ===== src/DevGuard/ObjectStore.antt =====
-- lib/devguard/frappe_devguard/guards/objectstore.py: additive-only access to a bucket. botocore
-- and the store behind it are a `Store`; what the settings say is a `Settings`. The lines that
-- are announced or logged are not modelled.
pub mod Lawful
pub mod Additive
pub mod Unconditional
pub mod SiteConfig
mod Memory
mod Tests
use frappe_nix.Prelude.{
  ℕ, String, ◌≡◌, Bool, true, false, not, ◌&&◌, ◌||◌, Option, none, some, List, [], ◌∷◌, map,
  contains, codes, starts_with, strip, lower, Text, text_eq, string_eq, ◌==◌, if◌then◌else◌,
}
use frappe_nix.Prelude.Url.{urlsplit, hostname}

pub data Mode : Type 0 where
  local push : Mode

-- The settings that the guard reads, and the text of `devguard.objectstore.mode`.
pub record Settings : Type 0 where
  pub enabled : Bool
  pub mode_text : Text
  pub conditional_writes : Bool

unfoldable pub mode : Settings → Mode
mode st = if lower (strip st.mode_text) == codes "push" then push else local

abbrev pub is_push : Mode → Bool
is_push local = false
is_push push = true

abbrev pub loopback : List Text
loopback = codes "localhost" ∷ codes "127.0.0.1" ∷ codes "::1" ∷ codes "0.0.0.0" ∷ []

-- A botocore client: the name of its service, and its endpoint's URL.
pub record Client : Type 0 where
  pub service : Option String
  pub endpoint : Text

abbrev pub is_loopback_host : Option Text → Bool
is_loopback_host none = contains loopback []
is_loopback_host (some host) = contains loopback (lower host)

unfoldable pub is_loopback : Client → Bool
is_loopback c = is_loopback_host (hostname (urlsplit c.endpoint))

abbrev pub is_s3 : Option String → Bool
is_s3 none = false
is_s3 (some name) = name == "s3"

unfoldable pub guarded : Settings → Client → Bool
guarded st c =
    if not st.enabled then false else if not (is_s3 c.service) then false else not (is_loopback c)

unfoldable pub is_read : String → Bool
is_read op =
    starts_with (codes op) (codes "Get")
    || starts_with (codes op) (codes "Head")
    || starts_with (codes op) (codes "List")
    || contains ("SelectObjectContent" ∷ []) op

abbrev pub deletes : List String
deletes = "DeleteObject" ∷ "DeleteObjects" ∷ []

abbrev pub writes : List String
writes =
    "PutObject" ∷ "CopyObject" ∷ "CreateMultipartUpload" ∷ "UploadPart" ∷ "UploadPartCopy"
    ∷ "CompleteMultipartUpload" ∷ "AbortMultipartUpload" ∷ []

abbrev pub creates_key : List String
creates_key = "PutObject" ∷ "CopyObject" ∷ "CreateMultipartUpload" ∷ []

abbrev pub conditional : List String
conditional = "PutObject" ∷ "CopyObject" ∷ "CompleteMultipartUpload" ∷ []

abbrev pub absent_codes : List String
absent_codes = "404" ∷ "NoSuchKey" ∷ "NotFound" ∷ []

-- The parameters of a call that the guard reads or sets; `body` is all the others.
pub record Params (Body : Type 0) : Type 0 where
  pub bucket : Option String
  pub key : Option String
  pub if_match : Option String
  pub if_none_match : Option String
  pub objects : List (Option String)
  pub body : Option Body

-- An exception: its `response`, if that is a dictionary, with the error code in it.
pub record Failure : Type 0 where
  pub response : Option (Option String)

unfoldable pub error_code : Failure → Option String
error_code e = elim e.response [
  | none ↦ none
  | some none ↦ none
  | some (some c) ↦ if c == "" then none else some c
]

pub data Answer (Reply : Type 0) : Type 0 where
  reply : Reply → Answer Reply
  failure : Failure → Answer Reply

-- botocore's `_make_api_call` over a store, and the object that a bucket has at a key.
pub record Store : Type 1 where
  pub State : Type 0
  pub Body : Type 0
  pub Reply : Type 0
  pub Object : Type 0
  pub call : String → Params Body → State → Answer Reply × State
  pub object : State → String → String → Option Object

abbrev pub truthy : Option String → Bool
truthy none = false
truthy (some s) = not (s == "")

abbrev pub has {ℓ} : {A : Type ℓ} → Option A → Bool
has none = false
has (some x) = true

abbrev pub is_absent : Option String → Bool
is_absent none = false
is_absent (some c) = contains absent_codes c

-- What a call under the guard gives: the store's answer, the report of a dropped delete with the
-- keys that it lists as errors, or `DevGuardBlocked`.
pub data Outcome (Reply : Type 0) : Type 0 where
  answered : Answer Reply → Outcome Reply
  dropped : ℕ → List (Option String) → Outcome Reply
  blocked : Outcome Reply

unfoldable pub dropped_delete : {Reply : Type 0} → String → List (Option String) → Outcome Reply
dropped_delete op objects = if op == "DeleteObject" then dropped 204 [] else dropped 200 objects

module _ (S : Store) (st : Settings) where
  -- The head of the exception handler: whether the write may go on.
  abbrev pub may_write : Answer S.Reply → Bool
  may_write (reply r) = false
  may_write (failure e) = is_absent (error_code e) || st.conditional_writes

  abbrev pub probe : Params S.Body → Params S.Body
  probe params = record {
    bucket = params.bucket;
    key = params.key;
    if_match = none;
    if_none_match = none;
    objects = [];
    body = none;
  }

  -- `_refuse_overwrite`: whether it lets the write go on, and the state after its HeadObject.
  unfoldable pub refuse_overwrite : String → Params S.Body → S.State → Bool × S.State
  unfolding error_code
  refuse_overwrite op params s =
      if not (contains creates_key op) || not (has params.key)
      then (true, s)
      else (let (answer, s') = S.call "HeadObject" (probe params) s in (may_write answer, s'))

  abbrev pub send : String → Params S.Body → S.State → Outcome S.Reply × S.State
  send op params s = let (answer, s') = S.call op params s in (answered answer, s')

  abbrev pub condition : String → Params S.Body → Params S.Body
  condition op params =
      if contains conditional op && st.conditional_writes
      then record params { if_none_match = some "*" }
      else params

  -- `meanwhile` is what other clients of the store do between the check and the write.
  abbrev pub write_checked :
      (S.State → S.State) → String → Params S.Body → Bool × S.State → Outcome S.Reply × S.State
  write_checked meanwhile op params (false, s) = (blocked, s)
  write_checked meanwhile op params (true, s) = send op (condition op params) (meanwhile s)

  -- `_vetted`
  unfoldable pub vetted :
      (S.State → S.State) → String → Params S.Body → S.State → Outcome S.Reply × S.State
  unfolding dropped_delete
  vetted meanwhile op params s =
      if is_read op
      then send op params s
      else if contains deletes op
      then (dropped_delete op params.objects, s)
      else if contains writes op && is_push (mode st)
      then if truthy params.if_match
        then (blocked, s)
        else write_checked meanwhile op params (refuse_overwrite op params s)
      else (blocked, s)

  unfoldable pub make_api_call :
      (S.State → S.State) → Client → String → Params S.Body → S.State → Outcome S.Reply × S.State
  make_api_call meanwhile client op params s =
      if not (guarded st client) then send op params s else vetted meanwhile op params s

-- `generate_presigned_url` and `generate_presigned_post`: whether a URL is issued.
abbrev pub presignable : List String
presignable = "get_object" ∷ "head_object" ∷ []

unfoldable pub presigns_url : Settings → Client → String → Bool
presigns_url st client method = not (guarded st client && not (contains presignable method))

unfoldable pub presigns_post : Settings → Client → Bool
presigns_post st client = not (guarded st client)
