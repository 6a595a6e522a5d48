-- ===== src/DevGuard/ObjectStore/Lawful.antt =====
-- What the guard relies on of an S3 store and of botocore, as their documentation states it.
use frappe_nix.Prelude.{String, ◌≡◌, ◌≢◌, true, none, some, List, [], ◌∷◌, contains, string_eq, ◌⊎◌}
use frappe_nix.DevGuard.ObjectStore.{
  Params, Failure, error_code, failure, Store, is_read, is_absent, conditional,
}

-- The writes that commit no object: they start, fill or drop a multipart upload.
abbrev pub part_writes : List String
part_writes =
    "CreateMultipartUpload" ∷ "UploadPart" ∷ "UploadPartCopy" ∷ "AbortMultipartUpload" ∷ []

pub record IsLawful (S : Store) : Type 0 where
  -- A read changes no object.
  pub object-read :
      (op : String) (p : Params S.Body) (s : S.State)
      → is_read op ≡ true
      → (b k : String) → S.object (S.call op p s).1 b k ≡ S.object s b k
  -- HeadObject answers "not found" only for a key that has no object.
  pub head_absent :
      (p : Params S.Body) (s : S.State) (b k : String) (e : Failure)
      → p.bucket ≡ some b
      → p.key ≡ some k
      → (S.call "HeadObject" p s).0 ≡ failure e
      → is_absent (error_code e) ≡ true
      → S.object s b k ≡ none
  pub object-part_write :
      (op : String) (p : Params S.Body) (s : S.State)
      → contains part_writes op ≡ true
      → (b k : String) → S.object (S.call op p s).1 b k ≡ S.object s b k
  -- A committing write reaches no object but the one that its parameters name.
  pub object-write_ne :
      (op : String) (p : Params S.Body) (s : S.State)
      → contains conditional op ≡ true
      → (b k : String) → (p.bucket ≢ some b) ⊎ (p.key ≢ some k)
      → S.object (S.call op p s).1 b k ≡ S.object s b k
  -- A write with `If-None-Match: *` changes no object that is there.
  pub object-write_conditional :
      (op : String) (p : Params S.Body) (s : S.State)
      → contains conditional op ≡ true
      → p.if_none_match ≡ some "*"
      → (b k : String) (o : S.Object) → S.object s b k ≡ some o
      → S.object (S.call op p s).1 b k ≡ some o
